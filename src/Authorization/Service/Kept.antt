-- ===== src/Authorization/Service/Kept.antt =====
-- Invariants of the tables that every write of authorization/service.py keeps.
pub mod Requests
pub mod Closing
use zonegate_backend.Runtime.{Tables}
use zonegate_backend.Domain.{
  TransactionRequest, ValidatedEvidencePlan, CanonicalEvidence, ContextEvaluation, PolicyDecision,
  Receipt,
}
use zonegate_backend.Runtime.Keeping.{Keeps}
use zonegate_backend.Storage.{
  save_transaction, save_evidence_plan, save_evidence, save_context_evaluation, save_decision,
  save_receipt, save_token,
}
use zonegate_backend.Prelude.{String}
use zonegate_backend.Authorization.Token.{ScopedAuthorizationToken}

-- The writes of the service, each of which keeps the invariant.
pub record Allows (P : Tables → Type 0) : Type 0 where
  pub transaction : (tx : TransactionRequest) → Keeps P (save_transaction tx)
  pub evidence_plan :
      (id : String) (plan : ValidatedEvidencePlan) → Keeps P (save_evidence_plan id plan)
  pub evidence : (id : String) (evidence : CanonicalEvidence) → Keeps P (save_evidence id evidence)
  pub evaluation : (id : String) (e : ContextEvaluation) → Keeps P (save_context_evaluation id e)
  pub decision : (d : PolicyDecision) → Keeps P (save_decision d)
  pub receipt : (r : Receipt) → Keeps P (save_receipt r)
  pub token : (x : ScopedAuthorizationToken) → Keeps P (save_token x)
