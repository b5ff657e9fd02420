-- ===== src/Authorization/Service/Pipeline.antt =====
-- `AuthorizationService.authorize_transaction` of authorization/service.py, from the
-- collected evidence back to the first step.
use zonegate_backend.Prelude.{
  List, String, Option, ℕ, length, none, map, Result, some, err, ok, if◌then◌else◌, ◌==◌,
}
use zonegate_backend.Domain.{
  TransactionRequest, EvidenceKind, CanonicalEvidence, EvidencePlan, Actor, DeviceBinding,
  ValidatedEvidencePlan, value, sorted_kinds,
}
use zonegate_backend.Authorization.Service.Deployment.{Deployment, Listener, emit, Outcome, refuse}
use zonegate_backend.Agent.{EvidencePlanner, ainvoke, plan_node}
use zonegate_backend.Prelude.Text.{join, decimal, ◌<>◌}
use zonegate_backend.Runtime.{Exec, pure, raise, missing_default_zone, ◌>>=◌, ◌>>◌, now}
use zonegate_backend.Evidence.WorkflowPolicy.{
  WorkflowEvidencePolicy, get_workflow_policy, no_policy_message,
}
use zonegate_backend.Evidence.Gateway.{
  GatewayError, actor_device_mismatch, collect_evidence, gateway_message, missing_zone,
}
use zonegate_backend.Authorization.Progress.{Stage, StageStatus}
use zonegate_backend.Storage.{
  get_device_binding, save_transaction, get_actor, save_evidence, save_evidence_plan,
}
use zonegate_backend.Evidence.PlanValidator.{validate, plan_error_message}
use zonegate_backend.Authorization.Service.Settlement.{assess}

unfoldable pub kinds_text : List EvidenceKind → String
kinds_text ks = join (map value ks)

-- How steps 7 and 8 go on from what the gateway returned or raised.
unfoldable pub after_collection :
    Deployment
    → Listener
    → TransactionRequest
    → Actor
    → ℕ
    → ValidatedEvidencePlan
    → Result GatewayError CanonicalEvidence
    → Exec Outcome
unfolding kinds_text
after_collection s listener tx actor time plan (err missing_zone) = raise missing_default_zone
after_collection s listener tx actor time plan (err (actor_device_mismatch text)) = do
  emit listener Stage.evidence StageStatus.failed text
  refuse tx time ("Device binding validation error: " <> text)
after_collection s listener tx actor time plan (err e) = do
  emit listener Stage.evidence StageStatus.failed (gateway_message e)
  refuse tx time ("Network evidence collection failed: " <> gateway_message e)
after_collection s listener tx actor time plan (ok evidence) = do
  save_evidence tx.transaction_id evidence
  emit listener Stage.evidence StageStatus.done (
      if kinds_text plan.combined == ""
      then "Nothing was collected"
      else "Carrier answered for " <> kinds_text plan.combined)
  assess s listener tx actor time plan evidence

-- Steps 7 and 8.
unfoldable pub collect_stage :
    Deployment
    → Listener
    → TransactionRequest
    → Actor
    → DeviceBinding
    → ℕ
    → ValidatedEvidencePlan
    → Exec Outcome
collect_stage s listener tx actor binding time plan = do
  emit listener Stage.evidence StageStatus.started (kinds_text plan.combined)
  collected_at ← now
  after_collection s listener tx actor time plan
      (collect_evidence s.registry s.carrier collected_at actor binding tx plan).1

unfoldable pub count_text : List EvidenceKind → List EvidenceKind → String
count_text mandatory optional =
    decimal (length mandatory)
    <> " mandatory enforced, "
    <> decimal (length optional)
    <> " optional accepted"

-- Step 6.
unfoldable pub validate_stage :
    Deployment
    → Listener
    → TransactionRequest
    → Actor
    → DeviceBinding
    → ℕ
    → Option EvidencePlan
    → Exec Outcome
unfolding count_text
validate_stage s listener tx actor binding time proposed = do
  emit listener Stage.validate StageStatus.started ""
  elim (validate s.attestable tx.action proposed) [
    | err e ↦ do
      emit listener Stage.validate StageStatus.failed (plan_error_message tx.action e)
      refuse tx time ("Evidence plan validation failed: " <> plan_error_message tx.action e)
    | ok plan ↦ do
      save_evidence_plan tx.transaction_id plan
      emit listener Stage.validate StageStatus.done (count_text plan.mandatory plan.optional)
      collect_stage s listener tx actor binding time plan
  ]

-- The plan that the graph left in its state, nothing if the graph raised.
unfoldable pub invoke_planner :
    Deployment → EvidencePlanner → TransactionRequest → WorkflowEvidencePolicy → Option EvidencePlan
invoke_planner s planner tx policy =
    elim (ainvoke (record {
      node = plan_node planner tx tx.action (sorted_kinds policy.optional);
      fault = s.planning_fault;
    })) [ ok state ↦ state.evidence_plan | err text ↦ none ]

unfoldable pub report_plan : Listener → Option EvidencePlan → Exec (Unit {0})
unfolding kinds_text
report_plan listener none =
    emit listener Stage.plan StageStatus.skipped
      "No plan returned; the mandatory baseline is collected regardless"
report_plan listener (some p) = emit listener Stage.plan StageStatus.done (
    if kinds_text p.optional_evidence == ""
    then "Agent asked for nothing extra"
    else "Agent asked for " <> kinds_text p.optional_evidence)

-- Step 5.
unfoldable pub plan_stage :
    Deployment → Listener → TransactionRequest → WorkflowEvidencePolicy → Exec (Option EvidencePlan)
plan_stage s listener tx policy = elim s.planner [
  | none ↦ do
    emit listener Stage.plan StageStatus.skipped "No planning agent is attached"
    pure none
  | some planner ↦ do
    emit listener Stage.plan StageStatus.started ""
    let proposed = invoke_planner s planner tx policy
    report_plan listener proposed
    pure proposed
]

-- Step 4.
unfoldable pub policy_stage :
    Deployment → Listener → TransactionRequest → Actor → DeviceBinding → ℕ → Exec Outcome
policy_stage s listener tx actor binding time = elim (get_workflow_policy tx.action) [
  | none ↦ do
    emit listener Stage.validate StageStatus.failed
        ("No evidence policy exists for action '" <> tx.action <> "'")
    refuse tx time
        ("Action '" <> tx.action <> "' is not supported: " <> no_policy_message tx.action)
  | some policy ↦ do
    proposed ← plan_stage s listener tx policy
    validate_stage s listener tx actor binding time proposed
]

-- Step 3.
unfoldable pub binding_stage : Deployment → Listener → TransactionRequest → ℕ → Actor → Exec Outcome
binding_stage s listener tx time actor = do
  found ← get_device_binding tx.actor_id
  elim found [
    | none ↦ do
      emit listener Stage.identity StageStatus.failed
          ("'" <> tx.actor_id <> "' has no active device binding")
      refuse tx time ("No verified device binding found for actor '" <> tx.actor_id <> "'")
    | some binding ↦ do
      emit listener Stage.identity StageStatus.done
          (actor.actor_id <> " is bound to device " <> binding.device_id)
      policy_stage s listener tx actor binding time
  ]

unfoldable pub authorize_transaction : Deployment → TransactionRequest → Listener → Exec Outcome
authorize_transaction s tx listener = do
  time ← now
  save_transaction tx
  emit listener Stage.identity StageStatus.started ""
  found ← get_actor tx.actor_id
  elim found [
    | none ↦ do
      emit listener Stage.identity StageStatus.failed
          ("'" <> tx.actor_id <> "' is not on the enrolled roster")
      refuse tx time ("Actor '" <> tx.actor_id <> "' is not enrolled in ZoneGate")
    | some actor ↦ binding_stage s listener tx time actor
  ]
