-- ===== src/Authorization/Service/Holds/Once.antt =====
-- What `resolve_hold` of authorization/service.py has done when it returns, when it refuses, and
-- that a hold is settled at most once.
use zonegate_backend.Runtime.{World, Exception}
use zonegate_backend.Authorization.Service.Deployment.{Deployment, Outcome}
use zonegate_backend.Prelude.{
  String, Option, ◌≡◌, some, ok, ◌≢◌, eq_refl, refl, ap, Option-cases, inl, inr, none,
}
use zonegate_backend.Domain.{DecisionOutcome, PolicyDecision}
use zonegate_backend.Authorization.Service.Resolution.{resolve_hold, resolution_refusal}
use zonegate_backend.Storage.{get_decision}
use zonegate_backend.Authorization.Service.Holds.{
  IsResolved, IsResolvable, refused_unknown, resolution_refusal-IsResolvable,
}
use zonegate_backend.Runtime.Triples.{Refuses, Refuses-after, Refuses-raise}
use zonegate_backend.Authorization.Service.Holds.Settled.{resolve_hold-IsResolved}

module _ (s : Deployment) (id : String) (outcome : DecisionOutcome) (resolved_by note : String)
    (role : Option String) where
  -- If `resolve_hold` returns, the decision was on record as an unresolved HOLD, the resolver's role
  -- (where one is given) holds the required authority, and the outcome is APPROVE or DENY. The stored
  -- decision differs from the one found only in its resolution, and so is still a HOLD. The receipt
  -- that the transaction index names (or a new one) is stored with a new time; for an approval it
  -- names a fresh token that is stored unclaimed, signed and scoped to the transaction on record; for
  -- a refusal it keeps the token it had, and no token is added or changed.
  pub resolve_result :
      (w : World) (out : Outcome)
      → (resolve_hold s id outcome resolved_by note role w).0 ≡ ok out
      → IsResolved s id outcome resolved_by note role w.tables out
          (resolve_hold s id outcome resolved_by note role w).1.tables
  resolve_result w out h =
      (resolve_hold-IsResolved s id outcome resolved_by note role w.tables).at w refl out h

  refused_or_gone :
      (found : Option PolicyDecision)
      → ((d : PolicyDecision) → found ≡ some d → ¬ IsResolvable d outcome role)
      → (e : Exception) × (resolution_refusal id found outcome role ≡ some e)
  refused_or_gone none h = (_, refused_unknown id outcome role)
  refused_or_gone (some d) h = elim (Option-cases (resolution_refusal id (some d) outcome role)) [
    | inl passes ↦ absurd (h d refl (resolution_refusal-IsResolvable id d outcome role passes))
    | inr refused ↦ refused
  ]

  -- A decision that is missing, is not a HOLD, is already resolved or belongs to another authority,
  -- or an outcome that is neither APPROVE nor DENY: `resolve_hold` raises and leaves the tables as
  -- they were.
  pub resolve_refused :
      (w : World)
      → ((d : PolicyDecision) → w.tables.decisions id ≡ some d → ¬ IsResolvable d outcome role)
      → Refuses (resolve_hold s id outcome resolved_by note role) w
  unfolding resolve_hold get_decision
  resolve_refused w h =
      let (x, refused) = refused_or_gone (w.tables.decisions id) h in
      Refuses-after (λ t. t.decisions id) _ w (λ later. rw refused (Refuses-raise x later))

  -- Once a resolution has returned, no later one of the same decision, by whomever and with whatever
  -- outcome, role and time, returns while that decision is still what is on record under its identifier,
  -- whatever else has been stored since (the decision was on record under its own identifier).
  pub resolve_once :
      (w later : World) (out : Outcome)
      → ((d : PolicyDecision) → w.tables.decisions id ≡ some d → d.decision_id ≡ id)
      → (resolve_hold s id outcome resolved_by note role w).0 ≡ ok out
      → later.tables.decisions id
        ≡ (resolve_hold s id outcome resolved_by note role w).1.tables.decisions id
      → (other : DecisionOutcome) (by text : String) (another : Option String) (again : Outcome)
      → (resolve_hold s id other by text another later).0 ≢ ok again
  resolve_once w later out keyed h same other by text another again h' =
      let first = resolve_result w out h in
      let second =
        (resolve_hold-IsResolved s id other by text another later.tables).at later refl again h' in
      let found : later.tables.decisions id ≡ some out.0 =
        rw (same, first.decision_stored, keyed first.d first.on_record, eq_refl) refl in
      let resolved = ap (λ (d : PolicyDecision). d.resolution) first.only_resolution in
      let same_decision : second.d ≡ out.0 = cc (second.on_record, found) in
      let unresolved = second.resolvable.unresolved in
      cc (
        resolved,
        unresolved,
        same_decision,
        ap (λ (d : PolicyDecision). d.resolution) same_decision,
      )
