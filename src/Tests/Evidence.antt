-- ===== src/Tests/Evidence.antt =====
-- The evidence components on a concrete plan, actor and carrier.
use zonegate_backend.Evidence.Gateway.Collecting.{IsCollected}
use zonegate_backend.Evidence.Gateway.{
  collect_evidence, first_unsupported, Geofence, Collected, binding_mismatch, resolve_zone,
  default_zone_registry,
}
use zonegate_backend.Domain.{
  mem_kind, ValidatedEvidencePlan, CanonicalEvidence, sim_swap, location_verification, kyc_match,
  number_verification, EvidencePlan,
}
use zonegate_backend.Evidence.WorkflowPolicy.{get_workflow_policy, release_cargo}
use zonegate_backend.Evidence.PlanValidator.{
  enforced_plan, validate, validate_for, accept_optional, proposed_kinds, add_new, from_keys,
  forbidden_evidence,
}
use zonegate_backend.Prelude.{
  ◌≡◌, none, ok, some, true, ◌∷◌, ◌↔◌, refl, ◌&&◌, All, false, [], err, ◌||◌, Option,
}
use zonegate_backend.Tests.Fixtures.{
  release_plan, alice, asked_plan, alice_device, evidence_with, confirming, release,
}
use zonegate_backend.Evidence.Agreement.{validated_plan_supported}
use zonegate_backend.Evidence.PlanValidator.Accepting.{IsAllowed, attests}
use zonegate_backend.Evidence.PlanValidator.Plans.{validate_ok_iff, validate_members}
use zonegate_backend.Evidence.Gateway.Checks.{IsBound, asks_only_planned, records_answers}

known_release : get_workflow_policy "RELEASE_CARGO" ≡ some release_cargo
unfolding get_workflow_policy
known_release = refl

validated : validate none "RELEASE_CARGO" asked_plan ≡ ok release_plan
unfolding validate validate_for accept_optional proposed_kinds enforced_plan add_new from_keys
    get_workflow_policy
validated = refl

plan_test : release_plan.combined ≡ location_verification ∷ number_verification ∷ sim_swap ∷ []
unfolding enforced_plan zonegate_backend.Domain.sorted_kinds
plan_test = refl

abbrev kyc_plan : Option EvidencePlan
kyc_plan = some (record { optional_evidence = kyc_match ∷ []; rationale = [] })

kyc_refused : validate none "RELEASE_CARGO" kyc_plan ≡ err (forbidden_evidence kyc_match)
unfolding validate validate_for accept_optional proposed_kinds get_workflow_policy
kyc_refused = refl

validate_ok_iff_example :
    ((plan : ValidatedEvidencePlan) × (validate none "RELEASE_CARGO" asked_plan ≡ ok plan))
    ↔ All (IsAllowed release_cargo) (proposed_kinds asked_plan)
validate_ok_iff_example =
    validate_ok_iff none "RELEASE_CARGO" release_cargo asked_plan known_release

validate_members_example :
    (mem_kind sim_swap release_plan.mandatory
      ≡ (release_cargo.mandatory sim_swap && attests none sim_swap))
    × (mem_kind sim_swap release_plan.optional
        ≡ (mem_kind sim_swap (proposed_kinds asked_plan) && attests none sim_swap))
    × (mem_kind sim_swap release_plan.combined ≡ (
        (release_cargo.mandatory sim_swap || mem_kind sim_swap (proposed_kinds asked_plan))
        && attests none sim_swap))
validate_members_example =
    validate_members none "RELEASE_CARGO" release_cargo asked_plan known_release release_plan
      sim_swap validated

validated_plan_supported_example : first_unsupported release_plan.combined ≡ none
validated_plan_supported_example =
    validated_plan_supported none "RELEASE_CARGO" asked_plan release_plan validated

abbrev gathered : Collected CanonicalEvidence
gathered =
    collect_evidence default_zone_registry confirming 20 alice alice_device release release_plan

asked_sim_swap : mem_kind sim_swap gathered.0 ≡ true
unfolding collect_evidence binding_mismatch first_unsupported resolve_zone
    zonegate_backend.Evidence.Gateway.collect_checks enforced_plan
    zonegate_backend.Domain.sorted_kinds zonegate_backend.Evidence.Gateway.check
    zonegate_backend.Evidence.Gateway.read_answer
    zonegate_backend.Evidence.Gateway.supported_capabilities
asked_sim_swap = refl

asks_only_planned_example :
    (mem_kind sim_swap release_plan.combined ≡ true) × IsBound alice alice_device
asks_only_planned_example =
    asks_only_planned default_zone_registry confirming 20 alice alice_device release release_plan
      sim_swap asked_sim_swap

gathered_test : gathered.1 ≡ ok (evidence_with (some false))
unfolding collect_evidence binding_mismatch first_unsupported resolve_zone
    zonegate_backend.Evidence.Gateway.collect_checks enforced_plan
    zonegate_backend.Domain.sorted_kinds zonegate_backend.Evidence.Gateway.check
    zonegate_backend.Evidence.Gateway.read_answer
    zonegate_backend.Evidence.Gateway.supported_capabilities
gathered_test = refl

records_answers_example :
    (fence : Geofence) × (resolve_zone default_zone_registry "PORT_GATE_17" ≡ some fence)
    × IsCollected confirming "+15550001" fence release_plan.combined gathered.0
        (evidence_with (some false))
records_answers_example =
    records_answers default_zone_registry confirming 20 alice alice_device release release_plan
      (evidence_with (some false)) gathered_test
