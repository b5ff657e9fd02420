-- ===== src/Domain/Decisions.antt =====
-- domain/decisions.py and domain/receipts.py
use zonegate_backend.Prelude.{ℕ, String, Bool, true, false, Option, List}

-- `RecommendedControl` has the same members: an advisory control is an outcome that nobody obeys.
pub data RecommendedControl : Type 0 where
  approve hold deny : RecommendedControl

pub data DecisionOutcome : Type 0 where
  approve hold deny : DecisionOutcome

unfoldable pub outcome_value : DecisionOutcome → String
outcome_value DecisionOutcome.approve = "APPROVE"
outcome_value DecisionOutcome.hold = "HOLD"
outcome_value DecisionOutcome.deny = "DENY"

unfoldable pub control_value : RecommendedControl → String
control_value RecommendedControl.approve = "APPROVE"
control_value RecommendedControl.hold = "HOLD"
control_value RecommendedControl.deny = "DENY"

abbrev pub is_approve : DecisionOutcome → Bool
is_approve DecisionOutcome.approve = true
is_approve _ = false

abbrev pub is_hold : DecisionOutcome → Bool
is_hold DecisionOutcome.hold = true
is_hold _ = false

pub record ContextEvaluation : Type 0 where
  pub risk_factors : List String
  pub recommended_control : RecommendedControl
  pub rationale : String

pub record HoldResolution : Type 0 where
  pub outcome : DecisionOutcome
  pub resolved_by : String
  pub authority_role : String
  pub note : String
  pub resolved_at : ℕ

-- The five entries of the dict that the engine writes.
pub record EvidenceSummary : Type 0 where
  pub number_verified : Option Bool
  pub location_verified : Option Bool
  pub recent_sim_swap : Option Bool
  pub recent_device_swap : Option Bool
  pub reachable : Option Bool

pub record PolicyDecision : Type 0 where
  pub decision_id : String
  pub transaction_id : String
  pub decision : DecisionOutcome
  pub reasons : List String
  pub required_authority : Option String
  pub context_evaluation : Option ContextEvaluation
  pub evidence_summary : Option EvidenceSummary
  pub decided_at : ℕ
  pub resolution : Option HoldResolution

pub record Receipt : Type 0 where
  pub receipt_id : String
  pub decision_id : String
  pub transaction_id : String
  pub decision : DecisionOutcome
  pub issued_at : ℕ
  pub token : Option String

abbrev pub same_outcome : DecisionOutcome → DecisionOutcome → Bool
same_outcome DecisionOutcome.approve DecisionOutcome.approve = true
same_outcome DecisionOutcome.hold DecisionOutcome.hold = true
same_outcome DecisionOutcome.deny DecisionOutcome.deny = true
same_outcome _ _ = false
