-- ===== src/Evidence/WorkflowPolicy.antt =====
-- evidence/workflow_policy.py
use zonegate_backend.Domain.{
  number_verification, location_verification, sim_swap, device_swap, reachability, kyc_match,
  mem_kind, KindSet,
}
use zonegate_backend.Prelude.{[], ◌∷◌, List, String, Option, lookup}
use zonegate_backend.Prelude.Text.{◌<>◌}

pub record WorkflowEvidencePolicy : Type 0 where
  pub workflow_name : String
  pub mandatory : KindSet
  pub optional : KindSet
  pub forbidden : KindSet

abbrev pub release_cargo : WorkflowEvidencePolicy
release_cargo = record {
  workflow_name = "RELEASE_CARGO";
  mandatory = λ k. mem_kind k (number_verification ∷ location_verification ∷ []);
  optional = λ k. mem_kind k (sim_swap ∷ device_swap ∷ reachability ∷ []);
  forbidden = λ k. mem_kind k (kyc_match ∷ []);
}

abbrev pub workflow_policies : List (String × WorkflowEvidencePolicy)
workflow_policies = ("RELEASE_CARGO", release_cargo) ∷ []

-- `none` stands for the `ValueError` of a workflow that has no policy.
unfoldable pub get_workflow_policy : String → Option WorkflowEvidencePolicy
get_workflow_policy workflow_name = lookup workflow_name workflow_policies

-- The text of that error.
unfoldable pub no_policy_message : String → String
no_policy_message workflow_name = "No evidence policy configured for workflow: " <> workflow_name
