-- ===== src/Tests/Nokia.antt =====
-- The live carrier and its tools, with a gateway that places the phone inside the area.
use zonegate_backend.Evidence.PlanValidator.{validate, enforced_plan}
use zonegate_backend.Authorization.Service.{authorize_transaction}
use zonegate_backend.Nokia.Live.{
  read_reply, LiveGateway, body, live_carrier, tool_location_verification, attestable_kinds,
  returned, read_payload, to_answer, live_verify_location, text_block, live_verify_number,
  live_check_sim_swap, call_tool, validated, load_block, open_payload, is_declining, describe,
  capability_unavailable,
}
use zonegate_backend.Domain.{
  PolicyDecision, EvidenceKind, mem_kind, ValidatedEvidencePlan, Actor, DeviceBinding,
  number_verification, sim_swap, DecisionOutcome,
}
use zonegate_backend.Agent.Evaluating.{
  EvaluatorModel, explore, evaluate_context, query_mcp_tools, Findings, tools_summary,
  selected_tool, findings_of, rejected_by_allowlist,
}
use zonegate_backend.Agent.Allowed.{IsGated, evaluation-IsGated}
use zonegate_backend.Nokia.Models.{Validators, CamaraLocationVerificationResponse, circle}
use zonegate_backend.Authorization.Service.Deployment.{Deployment, Outcome, receipt_for}
use zonegate_backend.Nokia.Json.{
  Members, Json, get_member, member, object, text, no_members, array, subscript, item, no_items,
  type_name, first_item, chain, has_member,
}
use zonegate_backend.Prelude.{
  String, ok, some, ℕ, err, ◌≡◌, ◌∷◌, false, none, arith, true, [], if◌then◌else◌, refl, ◌↔◌, ◌≢◌,
  eq_iff, ◌==◌, Option,
}
use zonegate_backend.Evidence.WorkflowPolicy.{get_workflow_policy, release_cargo}
use zonegate_backend.Nokia.Mcp.{
  NokiaMcpClient, list_mcp_tools, is_empty, is_tool_allowed, with_text, listed, call_mcp_tool,
}
use zonegate_backend.Policy.{evaluate, required_permission}
use zonegate_backend.Nokia.Release.{live_deployment, IsPlaced, live_backed, live_never_asks}
use zonegate_backend.Domain.PolicyConfig.{default_config}
use zonegate_backend.Evidence.Gateway.{
  LocationVerdict, Geofence, resolve_zone, collect_evidence, default_zone_registry,
}
use zonegate_backend.Tests.Fixtures.{
  port, enrolled, release, alice, asked_plan, evidence_with, advice, alice_device, world_of,
}
use zonegate_backend.Nokia.Payloads.{IsUsable, payload_iff}

abbrev sent : String → Json
sent block = object (
    member "result"
      (object (
        member "content" (array (item (object (member "text" (text block) no_members)) no_items))
          no_members))
      no_members)

abbrev verdict_payload : Members
verdict_payload = member "verificationResult" (text "TRUE") no_members

abbrev inside_response : CamaraLocationVerificationResponse
inside_response = record {
  verification_result = LocationVerdict.inside;
  match_rate = none;
  last_location_time = none;
}

abbrev validators : Validators
validators = record {
  number = λ j. err "extra member";
  location = λ j. ok inside_response;
  sim = λ j. ok (record { swapped = false; latest_sim_change = none });
  device = λ j. ok (record { swapped = false; latest_device_change = none });
  reach = λ j. err "extra member";
}

-- It knows where the phone is, and declines everything else.
abbrev gateway : LiveGateway
gateway = record {
  post = λ id tool arguments. body (sent tool);
  loads = λ block. some (
      object (
        if block == tool_location_verification
        then verdict_payload
        else member "code" (text "NOT_FOUND") no_members));
  dumps = λ j. "{}";
  show = type_name;
  subscript_error = λ j. none;
  validators = validators;
}

abbrev ids : EvidenceKind → ℕ
ids kind = 4

payload_iff_example :
    (read_reply gateway tool_location_verification (body (sent tool_location_verification))
      ≡ returned verdict_payload)
    ↔ IsUsable gateway (body (sent tool_location_verification)) verdict_payload
payload_iff_example =
    payload_iff gateway tool_location_verification (body (sent tool_location_verification))
      verdict_payload

read_test :
    read_reply gateway tool_location_verification (body (sent tool_location_verification))
    ≡ returned verdict_payload
unfolding read_reply get_member read_payload text_block subscript first_item chain load_block
    open_payload is_declining has_member
read_test = refl

declined_test :
    read_reply gateway "checkSimSwap" (body (sent "checkSimSwap"))
    ≡ capability_unavailable "The carrier declined 'checkSimSwap': {}"
unfolding read_reply get_member read_payload text_block subscript first_item chain load_block
    open_payload is_declining has_member describe
declined_test = refl

abbrev live_port : Deployment
live_port = live_deployment gateway ids port

abbrev live_plan : ValidatedEvidencePlan
live_plan = enforced_plan (some attestable_kinds) release_cargo asked_plan (sim_swap ∷ [])

-- The decision of a run on that deployment.
abbrev placed_decision : PolicyDecision
placed_decision =
    evaluate default_config "dec_0" 1002 release alice
      (record (evidence_with none) { number_verified = none; collected_at = 1001 }) none
      (some attestable_kinds) (some (λ k. mem_kind k live_plan.mandatory))

abbrev placed_outcome : Outcome
placed_outcome = (placed_decision, receipt_for placed_decision 1000 (some "tok_1"))

placed_test :
    (authorize_transaction live_port release none (world_of enrolled)).0 ≡ ok placed_outcome
unfolding authorize_transaction zonegate_backend.Prelude.Text.decimal zonegate_backend.Runtime.now
    zonegate_backend.Runtime.◌>>=◌ zonegate_backend.Storage.save_transaction
    zonegate_backend.Storage.get_actor zonegate_backend.Storage.get_device_binding
    zonegate_backend.Storage.save_evidence_plan zonegate_backend.Storage.save_evidence
    zonegate_backend.Storage.save_token zonegate_backend.Storage.save_decision
    zonegate_backend.Storage.save_receipt zonegate_backend.Storage.with_token
    zonegate_backend.Storage.with_decision zonegate_backend.Storage.with_receipt
    zonegate_backend.Authorization.Service.binding_stage
    zonegate_backend.Authorization.Service.policy_stage
    zonegate_backend.Authorization.Service.plan_stage
    zonegate_backend.Authorization.Service.invoke_planner
    zonegate_backend.Authorization.Service.report_plan
    zonegate_backend.Authorization.Service.validate_stage
    zonegate_backend.Authorization.Service.collect_stage
    zonegate_backend.Authorization.Service.after_collection
    zonegate_backend.Authorization.Service.assess
    zonegate_backend.Authorization.Service.ask_evaluator
    zonegate_backend.Authorization.Service.record_evaluation
    zonegate_backend.Authorization.Service.decide zonegate_backend.Authorization.Service.settle
    zonegate_backend.Authorization.Service.Deployment.emit
    zonegate_backend.Authorization.Service.Deployment.issue_and_save
    zonegate_backend.Authorization.Service.Deployment.conclude
    zonegate_backend.Authorization.Service.Deployment.receipt_for zonegate_backend.Runtime.draw
    zonegate_backend.Runtime.pure zonegate_backend.Runtime.gets zonegate_backend.Runtime.reading
    zonegate_backend.Runtime.writing zonegate_backend.Runtime.call zonegate_backend.Policy.evaluate
    zonegate_backend.Policy.required_permission zonegate_backend.Policy.first_unanswered
    zonegate_backend.Policy.mandatory_kinds zonegate_backend.Policy.is_unanswered
    zonegate_backend.Domain.sorted_kinds zonegate_backend.Domain.PolicyConfig.authority_for
    zonegate_backend.Evidence.Gateway.collect_evidence
    zonegate_backend.Evidence.Gateway.binding_mismatch
    zonegate_backend.Evidence.Gateway.first_unsupported
    zonegate_backend.Evidence.Gateway.resolve_zone zonegate_backend.Evidence.Gateway.collect_checks
    zonegate_backend.Evidence.Gateway.check zonegate_backend.Evidence.Gateway.read_answer
    zonegate_backend.Evidence.Gateway.supported_capabilities
    zonegate_backend.Evidence.PlanValidator.validate
    zonegate_backend.Evidence.PlanValidator.validate_for
    zonegate_backend.Evidence.PlanValidator.accept_optional
    zonegate_backend.Evidence.PlanValidator.proposed_kinds
    zonegate_backend.Evidence.PlanValidator.enforced_plan
    zonegate_backend.Evidence.PlanValidator.add_new
    zonegate_backend.Evidence.PlanValidator.from_keys
    zonegate_backend.Evidence.WorkflowPolicy.get_workflow_policy zonegate_backend.Agent.ainvoke
    zonegate_backend.Agent.plan_node zonegate_backend.Agent.plan
    zonegate_backend.Authorization.Token.issue_token live_deployment live_carrier to_answer
    live_verify_location live_verify_number live_check_sim_swap call_tool validated circle
    attestable_kinds read_reply get_member read_payload text_block subscript first_item chain
    load_block open_payload is_declining has_member
    zonegate_backend.Evidence.PlanValidator.attested_set
    zonegate_backend.Evidence.PlanValidator.attested_list zonegate_backend.Policy.supported_kinds
placed_test = refl

placed_approved : placed_decision.decision ≢ DecisionOutcome.deny
unfolding evaluate required_permission zonegate_backend.Policy.first_unanswered
    zonegate_backend.Policy.mandatory_kinds zonegate_backend.Policy.is_unanswered
    zonegate_backend.Domain.sorted_kinds enforced_plan attestable_kinds
    zonegate_backend.Policy.supported_kinds zonegate_backend.Evidence.PlanValidator.attested_set
    zonegate_backend.Domain.PolicyConfig.authority_for
placed_approved h = cc

enrolled_keyed : (k : String) (a : Actor) → enrolled.actors k ≡ some a → a.actor_id ≡ k
enrolled_keyed k a h = ground (arith, h, eq_iff "alice" k)

known_test : get_workflow_policy "RELEASE_CARGO" ≡ some release_cargo
unfolding get_workflow_policy
known_test = refl

valid_test : validate (some attestable_kinds) "RELEASE_CARGO" asked_plan ≡ ok live_plan
unfolding validate get_workflow_policy zonegate_backend.Evidence.PlanValidator.validate_for
    zonegate_backend.Evidence.PlanValidator.accept_optional
    zonegate_backend.Evidence.PlanValidator.proposed_kinds
valid_test = refl

live_never_asks_example :
    (mem_kind number_verification live_plan.combined ≡ false)
    × (mem_kind number_verification
          (collect_evidence default_zone_registry
            (live_carrier gateway ids)
            7
            alice
            alice_device
            release
            live_plan).0
        ≡ false)
live_never_asks_example =
    live_never_asks gateway ids default_zone_registry 7 alice alice_device release "RELEASE_CARGO"
      release_cargo asked_plan live_plan known_test valid_test

live_backed_example :
    (actor : Actor) × (binding : DeviceBinding) × (fence : Geofence) × (enrolled.actors "alice"
      ≡ some actor)
    × (enrolled.bindings "alice" ≡ some binding)
    × (resolve_zone port.registry "PORT_GATE_17" ≡ some fence)
    × IsPlaced gateway 4 binding.phone_number fence
live_backed_example =
    live_backed gateway ids port none release (world_of enrolled) enrolled_keyed placed_outcome
      placed_test placed_approved

-- A model that asks for a tool outside the allowlist, and then concludes.
abbrev curious : EvaluatorModel
curious = record {
  select = λ tx evidence tools. ok (record {
    call_tool = true;
    tool_name = some "deleteDevice";
    arguments = no_members;
    rationale = none;
  });
  assess = λ tx evidence findings. ok advice;
}

abbrev tools_client : NokiaMcpClient
tools_client = record {
  static_allowlist = "checkSimSwap" ∷ [];
  args = "mcp-remote" ∷ [];
  server = record {
    initialize = ok tt;
    tools = ok (record { name = "checkSimSwap"; description = none; input_schema = none } ∷ []);
    call = λ name arguments. ok (with_text "done" ∷ []);
  };
}

refused_test : explore curious (some tools_client) release (evidence_with none) ≡ (
  [],
  some (
      rejected_by_allowlist "deleteDevice"
        "Tool 'deleteDevice' is not in the Nokia MCP static allowlist and cannot be executed"),
)
unfolding explore list_mcp_tools is_empty is_tool_allowed listed query_mcp_tools tools_summary
    selected_tool call_mcp_tool findings_of
refused_test = refl

evaluation-IsGated_example :
    IsGated tools_client
      (evaluate_context curious (some tools_client) release (evidence_with none)).0
    × ((e : String)
        → (evaluate_context curious (some tools_client) release (evidence_with none)).1 ≡ err e
        → (findings : Option Findings) × (cause : String) × (curious.assess release
              (evidence_with none)
              findings
            ≡ err cause))
evaluation-IsGated_example =
    evaluation-IsGated curious tools_client release (evidence_with none) λ h. cc
