-- ===== src/Policy/Rules.antt =====
-- What the rules of policy/engine.py decide: exactly when a release is approved or held, to whom a
-- hold goes, and what the advisory evaluation cannot change.
use mathlib.Core.Path.{subst}
use zonegate_backend.Prelude.{
  ℕ, String, true, false, Option, none, some, List, [], ◌∷◌, ◌≡◌, refl, ◌≢◌, ◌↔◌, inl, inr, arith,
  Option-cases, contains, keep, eq_iff, ◌⊎◌, Bool,
}
use zonegate_backend.Domain.{
  EvidenceKind, KindSet, number_verification, location_verification, sim_swap, device_swap,
  reachability, kyc_match, sorted_kinds, CanonicalEvidence, ContextEvaluation, DecisionOutcome,
  Actor, TransactionRequest, mem_kind, by_value, PolicyDecision, same_kind→eq, mem_kind-by_value,
}
use zonegate_backend.Domain.PolicyConfig.{PolicyConfig, authority_for}
use zonegate_backend.Policy.{
  required_permission, is_unanswered, first_unanswered, mandatory_kinds, truthy, evaluate,
  sim_swap_authority, number_caveat, supported_kinds,
}

-- The carrier answered the check, as far as the canonical evidence shows. KYC has no field that
-- the engine reads.
abbrev pub Answered : CanonicalEvidence → EvidenceKind → Type 0
Answered e number_verification = e.number_verified ≢ none
Answered e location_verification = e.location_verified ≢ none
Answered e sim_swap = e.recent_sim_swap ≢ none
Answered e device_swap = e.recent_device_swap ≢ none
Answered e reachability = e.reachable ≢ none
Answered e kyc_match = Unit

is_unanswered-Answered :
    (e : CanonicalEvidence) (k : EvidenceKind) → (is_unanswered e k ≡ false) ↔ Answered e k
unfolding is_unanswered
is_unanswered-Answered e number_verification = ground arith
is_unanswered-Answered e location_verification = ground arith
is_unanswered-Answered e sim_swap = ground arith
is_unanswered-Answered e device_swap = ground arith
is_unanswered-Answered e reachability = ground arith
is_unanswered-Answered e kyc_match = ground arith

-- Every member of the set is answered.
abbrev pub AllAnswered : CanonicalEvidence → KindSet → Type 0
AllAnswered e s = (k : EvidenceKind) → s k ≡ true → Answered e k

kept_answered :
    (e : CanonicalEvidence) (s : KindSet) (ks : List EvidenceKind) (k : EvidenceKind)
    → first_unanswered e (keep s ks) ≡ none
    → mem_kind k ks ≡ true
    → s k ≡ true
    → is_unanswered e k ≡ false
unfolding first_unanswered
kept_answered e s [] k h m t = cc
kept_answered e s (x ∷ ks) k h m t = ground (arith, same_kind→eq x k, kept_answered e s ks k)

answered_kept :
    (e : CanonicalEvidence) (s : KindSet) (ks : List EvidenceKind)
    → ((k : EvidenceKind) → s k ≡ true → is_unanswered e k ≡ false)
    → first_unanswered e (keep s ks) ≡ none
unfolding first_unanswered
answered_kept e s [] h = refl
answered_kept e s (x ∷ ks) h = ground (arith, h x, answered_kept e s ks h)

first_unanswered-none :
    (e : CanonicalEvidence) (s : KindSet)
    → (first_unanswered e (sorted_kinds s) ≡ none) ↔ AllAnswered e s
unfolding sorted_kinds
first_unanswered-none e s = (
  λ h k t. (is_unanswered-Answered e k).0 (kept_answered e s by_value k h (mem_kind-by_value k) t),
  λ h. answered_kept e s by_value (λ k t. (is_unanswered-Answered e k).1 (h k t)),
)

truthy-ne-empty : (o : Option String) (a : String) → truthy o ≡ some a → a ≢ ""
truthy-ne-empty none a h = cc
truthy-ne-empty (some s) a h = ground (arith, eq_iff s "")

true_cases : (o : Option Bool) → (o ≡ some true) ⊎ (o ≢ some true)
true_cases none = inr λ e. cc
true_cases (some true) = inl refl
true_cases (some false) = inr λ e. cc

reasons_head : List String → String
reasons_head [] = ""
reasons_head (r ∷ rs) = r

module _ (config : PolicyConfig) (decision_id : String) (now : ℕ) (tx : TransactionRequest)
    (actor : Actor) (evidence : CanonicalEvidence) (context : Option ContextEvaluation)
    (attestable required : Option KindSet) where
  abbrev pub verdict : PolicyDecision
  verdict = evaluate config decision_id now tx actor evidence context attestable required

  -- What a release that nobody has to decide on must meet, up to the cargo category.
  pub record IsClear : Type 0 where
    pub permitted : contains (required_permission tx.action) actor.permissions ≡ true
    pub number : evidence.number_verified ≢ some false
    pub answered : AllAnswered evidence (mandatory_kinds attestable required)
    pub located : evidence.location_verified ≢ some false

  -- The engine approves a release exactly if the actor holds the permission of the action, the
  -- carrier contradicted neither the number nor the location, every mandatory check was answered,
  -- no recent SIM swap was reported, and the cargo category names no authority.
  pub approve_iff : (verdict.decision ≡ DecisionOutcome.approve) ↔ (
      IsClear
      × (evidence.recent_sim_swap ≢ some true)
      × (truthy (authority_for config tx.category) ≡ none))
  unfolding evaluate
  approve_iff = (
    λ h. (
      record {
        permitted = ground arith;
        number = ground arith;
        answered =
            (first_unanswered-none evidence (mandatory_kinds attestable required)).0 (ground arith);
        located = ground arith;
      },
      ground arith,
      ground arith,
    ),
    λ (clear, no_swap, unrestricted).
        let answered =
          (first_unanswered-none evidence (mandatory_kinds attestable required)).1 clear.answered in
        ground (arith, clear.permitted, clear.number, clear.located),
  )

  -- A verdict is on its transaction, and nobody has resolved it.
  pub verdict_for : (verdict.transaction_id ≡ tx.transaction_id) × (verdict.resolution ≡ none)
  unfolding evaluate
  verdict_for = ground arith

  -- Whatever is not denied is clear.
  pub clear_of_not_denied : verdict.decision ≢ DecisionOutcome.deny → IsClear
  unfolding evaluate
  clear_of_not_denied h = record {
    permitted = ground arith;
    number = ground arith;
    answered =
        (first_unanswered-none evidence (mandatory_kinds attestable required)).0 (ground arith);
    located = ground arith;
  }

  -- Who a clear release has to wait for: the security officer after a recent SIM swap, and without
  -- one the authority of the cargo category.
  pub data WaitsFor (authority : String) : Type 0 where
    swapped :
        evidence.recent_sim_swap ≡ some true → authority ≡ sim_swap_authority → WaitsFor authority
    restricted :
        evidence.recent_sim_swap ≢ some true
        → truthy (authority_for config tx.category) ≡ some authority
        → WaitsFor authority

  held_clear : verdict.decision ≡ DecisionOutcome.hold → IsClear
  held_clear h = clear_of_not_denied λ denied. cc (h, denied)

  held_for :
      verdict.decision ≡ DecisionOutcome.hold
      → (authority : String) × (verdict.required_authority ≡ some authority) × WaitsFor authority
  unfolding evaluate
  held_for h = elim (true_cases evidence.recent_sim_swap) [
    | inl swap ↦ (sim_swap_authority, ground (arith, swap), swapped swap refl)
    | inr no_swap ↦ elim (Option-cases (truthy (authority_for config tx.category))) [
      | inl nobody ↦ absurd (ground (arith, no_swap, nobody))
      | inr (authority, named) ↦
          (authority, ground (arith, no_swap, named), restricted no_swap named)
    ]
  ]

  held_because :
      IsClear
      → (authority : String) → WaitsFor authority
      → (verdict.decision ≡ DecisionOutcome.hold) × (verdict.required_authority ≡ some authority)
  unfolding evaluate
  held_because clear authority (swapped swap named) =
      let answered =
        (first_unanswered-none evidence (mandatory_kinds attestable required)).1 clear.answered in
      ground (arith, clear.permitted, clear.number, clear.located, answered, swap, named)
  held_because clear authority (restricted no_swap named) =
      let answered =
        (first_unanswered-none evidence (mandatory_kinds attestable required)).1 clear.answered in
      ground (arith, clear.permitted, clear.number, clear.located, answered, no_swap, named)

  -- The engine holds a release exactly if it is clear and waits for some authority: a recent SIM swap
  -- was reported, and then for the security officer, or none was and the cargo category names an
  -- authority, and then for that authority. A hold is always for somebody, and it is for an authority
  -- exactly if the release is clear and waits for that one.
  pub hold_iff :
      ((verdict.decision ≡ DecisionOutcome.hold)
        ↔ (IsClear × ((authority : String) × WaitsFor authority)))
      × ((authority : String)
          → ((verdict.decision ≡ DecisionOutcome.hold)
              × (verdict.required_authority ≡ some authority))
            ↔ (IsClear × WaitsFor authority))
  hold_iff = (
    (
      λ h. let (authority, _, waits) = held_for h in (held_clear h, (authority, waits)),
      λ (clear, (authority, waits)). (held_because clear authority waits).0,
    ),
    λ authority. (
      λ (h, named). (
        held_clear h,
        let (other, same, waits) = held_for h in
            let same_authority : other ≡ authority = cc (same, named) in
            subst (λ a. WaitsFor a) same_authority waits,
      ),
      λ (clear, waits). held_because clear authority waits,
    ),
  )

  -- A release names an authority exactly if it is held: whoever an approval or a denial goes to,
  -- nobody is asked to resolve it, and every hold has somebody who can, under a name that is not
  -- empty.
  pub authority_iff_hold :
      (verdict.decision ≡ DecisionOutcome.hold)
      ↔ ((authority : String) × (verdict.required_authority ≡ some authority) × (authority ≢ ""))
  unfolding evaluate
  authority_iff_hold = (
    λ h. elim (Option-cases verdict.required_authority) [
      | inl nobody ↦ ground arith
      | inr (authority, named) ↦ (
        authority,
        named,
        ground (
          arith,
          eq_iff authority "",
          eq_iff sim_swap_authority "",
          truthy-ne-empty (authority_for config tx.category) authority,
        ),
      )
    ],
    λ (authority, named, filled). ground arith,
  )

  -- The decision, its reasons and its authority do not depend on the advisory evaluation: with any
  -- other evaluation, or none, the engine's record is the same but for the copy of the evaluation
  -- that it carries.
  pub advisory_only :
      (other : Option ContextEvaluation)
      → evaluate config decision_id now tx actor evidence other attestable required
        ≡ record verdict { context_evaluation = other }
  unfolding evaluate
  advisory_only other = ground arith

  -- The engine gives one reason, and behind it the caveat about the number if and only if the actor
  -- has the permission and the carrier cannot attest the number.
  pub caveat_iff : ((r : String) × (verdict.reasons ≡ r ∷ number_caveat ∷ [])) ↔ (
      (contains (required_permission tx.action) actor.permissions ≡ true)
      × (supported_kinds attestable number_verification ≡ false))
  unfolding evaluate reasons_head
  caveat_iff = (
    λ (r, h). ground arith,
    λ (permitted, unsupported). (reasons_head verdict.reasons, ground arith),
  )
