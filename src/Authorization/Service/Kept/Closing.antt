-- ===== src/Authorization/Service/Kept/Closing.antt =====
-- The resolution of a hold and the claim of a token (authorization/service.py) and what they keep.
use zonegate_backend.Authorization.Service.Resolution.{
  claim_token, settle_hold, resolve_hold, claim_found, approve_transaction, resolution_refusal,
}
use zonegate_backend.Authorization.Service.Resolution.{claim_token}
use zonegate_backend.Runtime.Keeping.{
  Keeps, Keeps-bind, Keeps-reading, Keeps-now, Keeps-pure, Keeps-if, Keeps-raise,
}
use zonegate_backend.Runtime.{Tables}
use zonegate_backend.Authorization.Service.Deployment.{Deployment}
use zonegate_backend.Storage.{
  get_token, get_receipt_by_transaction_id, get_transaction, get_decision,
}
use zonegate_backend.Prelude.{String, Option, some, Option-cases, inl, inr, none}
use zonegate_backend.Domain.{DecisionOutcome, PolicyDecision}
use zonegate_backend.Authorization.Token.{Expected, ScopedAuthorizationToken}
use zonegate_backend.Authorization.Service.Kept.{Allows}
use zonegate_backend.Authorization.Service.Kept.Requests.{Keeps-issue_and_save}

module _ {P : Tables → Type 0} (allows : Allows P) (s : Deployment) where
  Keeps-approve_transaction : (d : PolicyDecision) → Keeps P (approve_transaction s d)
  unfolding approve_transaction get_transaction
  Keeps-approve_transaction d = Keeps-bind (Keeps-reading _) λ found. elim (Option-cases found) [
    | inl e ↦ rw e (Keeps-raise _)
    | inr (tx, e) ↦ rw e (Keeps-issue_and_save allows s _)
  ]

  Keeps-settle_hold :
      (d : PolicyDecision) (outcome : DecisionOutcome) (resolved_by note : String)
      → Keeps P (settle_hold s d outcome resolved_by note)
  unfolding settle_hold get_receipt_by_transaction_id
  Keeps-settle_hold d outcome resolved_by note = Keeps-bind Keeps-now λ time.
      Keeps-bind (allows.decision _) λ _. Keeps-bind (Keeps-reading _) λ found.
        Keeps-bind (Keeps-if _ (Keeps-approve_transaction d) (Keeps-pure _))
          λ token. Keeps-bind (allows.receipt _) λ _. Keeps-pure _

  pub Keeps-resolve_hold :
      (id : String) (outcome : DecisionOutcome) (resolved_by note : String) (role : Option String)
      → Keeps P (resolve_hold s id outcome resolved_by note role)
  unfolding resolve_hold get_decision
  Keeps-resolve_hold id outcome resolved_by note role = Keeps-bind (Keeps-reading _) λ found.
      elim (Option-cases (resolution_refusal id found outcome role)) [
        | inr (x, refused) ↦ rw refused (Keeps-raise x)
        | inl passes ↦ rw passes (elim (Option-cases found) [
          | inl e ↦ rw e (Keeps-raise _)
          | inr (d, e) ↦ rw e (Keeps-settle_hold d outcome resolved_by note)
        ])
      ]

  Keeps-claim_found :
      (e : Expected) (identifier : String) (found : Option ScopedAuthorizationToken)
      → Keeps P (claim_found s e identifier found)
  unfolding claim_found
  Keeps-claim_found e identifier none = Keeps-pure _
  Keeps-claim_found e identifier (some t) = Keeps-bind Keeps-now λ checked_at.
      Keeps-bind (Keeps-if _ Keeps-now (Keeps-pure checked_at))
        λ claimed_at. Keeps-bind (Keeps-if _ (allows.token _) (Keeps-pure tt)) λ _. Keeps-pure _

  pub Keeps-claim_token :
      (identifier : String) (e : Expected) → Keeps P (claim_token s identifier e)
  unfolding claim_token get_token
  Keeps-claim_token identifier e =
      Keeps-bind (Keeps-reading _) λ found. Keeps-claim_found e identifier found
