-- ===== src/Evidence/PlanValidator.antt =====
-- evidence/plan_validator.py
pub mod Accepting
pub mod Plans
use zonegate_backend.Prelude.{
  List, Option, String, ◌∷◌, if◌then◌else◌, [], some, Result, ◌&&◌, ◌++◌, keep, ok, err, is_some,
  none,
}
use zonegate_backend.Domain.{
  EvidenceKind, EvidencePlan, KindSet, ValidatedEvidencePlan, mem_kind, value, sorted_kinds,
}
use zonegate_backend.Evidence.WorkflowPolicy.{
  WorkflowEvidencePolicy, no_policy_message, get_workflow_policy,
}
use zonegate_backend.Prelude.Text.{◌<>◌}

-- Why `validate` raises.
pub data PlanError : Type 0 where
  no_policy : PlanError
  forbidden_evidence : EvidenceKind → PlanError
  unsupported_evidence : EvidenceKind → PlanError

-- The text of the exception.
unfoldable pub plan_error_message : String → PlanError → String
plan_error_message workflow_name no_policy = no_policy_message workflow_name
plan_error_message workflow_name (forbidden_evidence k) =
    "Evidence kind '" <> value k <> "' is strictly forbidden for workflow '" <> workflow_name <> "'"
plan_error_message workflow_name (unsupported_evidence k) =
    "Evidence kind '"
    <> value k
    <> "' is not permitted as optional evidence for workflow '"
    <> workflow_name
    <> "'"

-- `if k not in kinds: kinds.append(k)`
unfoldable pub add_new : List EvidenceKind → EvidenceKind → List EvidenceKind
add_new kinds k = if mem_kind k kinds then kinds else kinds ++ k ∷ []

-- The loop over the proposed kinds, with what it has accepted so far.
unfoldable pub accept_optional :
    WorkflowEvidencePolicy
    → List EvidenceKind
    → List EvidenceKind
    → Result PlanError (List EvidenceKind)
unfolding add_new
accept_optional policy accepted [] = ok accepted
accept_optional policy accepted (k ∷ ks) =
    let rest = accept_optional policy (add_new accepted k) ks in
    if policy.forbidden k
    then err (forbidden_evidence k)
    else if policy.optional k
    then rest
    else err (unsupported_evidence k)

-- `list(dict.fromkeys(kinds))`, with the keys so far.
unfoldable pub from_keys : List EvidenceKind → List EvidenceKind → List EvidenceKind
unfolding add_new
from_keys keys [] = keys
from_keys keys (k ∷ ks) = from_keys (add_new keys k) ks

-- `proposed_plan.optional_evidence` and `.rationale`, empty where there is no plan.
unfoldable pub proposed_kinds : Option EvidencePlan → List EvidenceKind
proposed_kinds none = []
proposed_kinds (some plan) = plan.optional_evidence

unfoldable pub proposed_rationale : Option EvidencePlan → List String
proposed_rationale none = []
proposed_rationale (some plan) = plan.rationale

-- What is left of a set and of a list of kinds behind `attestable`.
unfoldable pub attested_set : Option KindSet → KindSet → KindSet
attested_set none s = s
attested_set (some attestable) s = λ k. s k && attestable k

unfoldable pub attested_list : Option KindSet → List EvidenceKind → List EvidenceKind
attested_list none ks = ks
attested_list (some attestable) ks = keep attestable ks

-- The plan that is returned once the proposed kinds are accepted.
unfoldable pub enforced_plan :
    Option KindSet
    → WorkflowEvidencePolicy
    → Option EvidencePlan
    → List EvidenceKind
    → ValidatedEvidencePlan
unfolding from_keys proposed_kinds proposed_rationale attested_set attested_list
enforced_plan attestable policy proposed accepted =
    let mandatory = sorted_kinds (attested_set attestable policy.mandatory) in
    let optional = attested_list attestable accepted in
    record {
      mandatory = mandatory;
      optional = optional;
      combined = from_keys [] (mandatory ++ optional);
      rationale = proposed_rationale proposed;
      planner_consulted = is_some proposed;
      offered_optional = sorted_kinds policy.optional;
      proposed_optional = proposed_kinds proposed;
    }

unfoldable pub validate_for :
    Option KindSet
    → WorkflowEvidencePolicy
    → Option EvidencePlan
    → Result PlanError ValidatedEvidencePlan
unfolding accept_optional enforced_plan proposed_kinds
validate_for attestable policy proposed =
    elim (accept_optional policy [] (proposed_kinds proposed)) [
      | ok accepted ↦ ok (enforced_plan attestable policy proposed accepted)
      | err e ↦ err e
    ]

-- `EvidencePlanValidator.validate`
unfoldable pub validate :
    Option KindSet → String → Option EvidencePlan → Result PlanError ValidatedEvidencePlan
validate attestable workflow_name proposed = elim (get_workflow_policy workflow_name) [
  | none ↦ err no_policy
  | some policy ↦ validate_for attestable policy proposed
]
