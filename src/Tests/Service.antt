-- ===== src/Tests/Service.antt =====
-- authorization/service.py and authorization/token.py on concrete requests.

use zonegate_backend.Runtime.{World, Exception, now, ◌>>=◌, Tables, ◌>>◌}
use zonegate_backend.Authorization.Service.Deployment.{Outcome, receipt_for, Deployment, emit}
use zonegate_backend.Domain.{PolicyDecision, Actor, mem_kind, DeviceBinding, DecisionOutcome}
use zonegate_backend.Prelude.{
  Result, String, some, ◌≡◌, ok, arith, none, eq_iff, false, refl, Option, update, ◌∷◌, ◌≢◌, [],
  err,
}
use zonegate_backend.Policy.{evaluate, required_permission}
use zonegate_backend.Authorization.Service.{
  authorize_transaction, resolution_of, resolve_hold, ask_evaluator, record_evaluation,
}
use zonegate_backend.Domain.PolicyConfig.{default_config}
use zonegate_backend.Tests.Fixtures.{
  enrolled, port, world_of, release, alice, evidence_with, release_plan,
}
use zonegate_backend.Authorization.Service.Results.{IsSettled}
use zonegate_backend.Evidence.PlanValidator.{enforced_plan}
use zonegate_backend.Authorization.Service.Safety.{authorize_settles, authorize_backed}
use zonegate_backend.Authorization.Service.Earned.{IsEarned}
use zonegate_backend.Prelude.Text.{upper, strip, drop_prefix}
use zonegate_backend.Agent.{ContextEvaluator}
use zonegate_backend.Authorization.Progress.{Stage, StageStatus}
use zonegate_backend.Authorization.Service.Advice.{failing_evaluator_reported_absent}
use zonegate_backend.Evidence.Gateway.{resolve_zone, default_zone_registry}
use zonegate_backend.Authorization.Service.Returns.{authorize_returns}
use zonegate_backend.Authorization.Service.Keyed.{IsKeyed}
use zonegate_backend.Authorization.Service.Histories.{then_step, still, authorizes, History}

abbrev monday : World
monday = world_of enrolled

abbrev ran : Result Exception Outcome × World
ran = authorize_transaction port release none monday

enrolled_keyed : (k : String) (a : Actor) → enrolled.actors k ≡ some a → a.actor_id ≡ k
enrolled_keyed k a h = ground (arith, h, eq_iff "alice" k)

-- The run's decision, as the engine gives it at the eighth reading of the clock.
abbrev released : PolicyDecision
released =
    evaluate default_config "dec_0" 1002 release alice
      (record (evidence_with (some false)) { collected_at = 1001 }) none none
      (some (λ k. mem_kind k release_plan.mandatory))

abbrev released_outcome : Outcome
released_outcome = (released, receipt_for released 1000 (some "tok_1"))

run_test : ran.0 ≡ ok released_outcome
unfolding authorize_transaction zonegate_backend.Prelude.Text.decimal now ◌>>=◌
    zonegate_backend.Storage.save_transaction zonegate_backend.Storage.get_actor
    zonegate_backend.Storage.get_device_binding zonegate_backend.Storage.save_evidence_plan
    zonegate_backend.Storage.save_evidence zonegate_backend.Storage.save_token
    zonegate_backend.Storage.save_decision zonegate_backend.Storage.save_receipt
    zonegate_backend.Storage.with_token zonegate_backend.Storage.with_decision
    zonegate_backend.Storage.with_receipt zonegate_backend.Authorization.Service.binding_stage
    zonegate_backend.Authorization.Service.policy_stage
    zonegate_backend.Authorization.Service.plan_stage
    zonegate_backend.Authorization.Service.invoke_planner
    zonegate_backend.Authorization.Service.report_plan
    zonegate_backend.Authorization.Service.validate_stage
    zonegate_backend.Authorization.Service.collect_stage
    zonegate_backend.Authorization.Service.after_collection
    zonegate_backend.Authorization.Service.assess
    zonegate_backend.Authorization.Service.ask_evaluator
    zonegate_backend.Authorization.Service.record_evaluation
    zonegate_backend.Authorization.Service.decide zonegate_backend.Authorization.Service.settle
    zonegate_backend.Authorization.Service.Deployment.emit
    zonegate_backend.Authorization.Service.Deployment.issue_and_save
    zonegate_backend.Authorization.Service.Deployment.conclude
    zonegate_backend.Authorization.Service.Deployment.receipt_for zonegate_backend.Runtime.draw
    zonegate_backend.Runtime.pure zonegate_backend.Runtime.gets zonegate_backend.Runtime.reading
    zonegate_backend.Runtime.writing zonegate_backend.Runtime.call zonegate_backend.Policy.evaluate
    zonegate_backend.Policy.required_permission zonegate_backend.Policy.first_unanswered
    zonegate_backend.Policy.mandatory_kinds zonegate_backend.Policy.is_unanswered
    zonegate_backend.Domain.sorted_kinds zonegate_backend.Domain.PolicyConfig.authority_for
    zonegate_backend.Evidence.Gateway.collect_evidence
    zonegate_backend.Evidence.Gateway.binding_mismatch
    zonegate_backend.Evidence.Gateway.first_unsupported
    zonegate_backend.Evidence.Gateway.resolve_zone zonegate_backend.Evidence.Gateway.collect_checks
    zonegate_backend.Evidence.Gateway.check zonegate_backend.Evidence.Gateway.read_answer
    zonegate_backend.Evidence.Gateway.supported_capabilities
    zonegate_backend.Evidence.PlanValidator.validate
    zonegate_backend.Evidence.PlanValidator.validate_for
    zonegate_backend.Evidence.PlanValidator.accept_optional
    zonegate_backend.Evidence.PlanValidator.proposed_kinds
    zonegate_backend.Evidence.PlanValidator.enforced_plan
    zonegate_backend.Evidence.PlanValidator.add_new
    zonegate_backend.Evidence.PlanValidator.from_keys
    zonegate_backend.Evidence.WorkflowPolicy.get_workflow_policy zonegate_backend.Agent.ainvoke
    zonegate_backend.Agent.plan_node zonegate_backend.Agent.plan
    zonegate_backend.Authorization.Token.issue_token
run_test = refl

approved : released.decision ≢ DecisionOutcome.deny
unfolding evaluate required_permission zonegate_backend.Policy.first_unanswered
    zonegate_backend.Policy.mandatory_kinds zonegate_backend.Policy.is_unanswered
    zonegate_backend.Domain.sorted_kinds enforced_plan
    zonegate_backend.Domain.PolicyConfig.authority_for
approved h = cc

authorize_settles_example : IsSettled port release "alice" released_outcome ran.1.tables
authorize_settles_example =
    authorize_settles port none release monday enrolled_keyed released_outcome run_test

authorize_backed_example :
    (actor : Actor) × (binding : DeviceBinding) × (enrolled.actors "alice" ≡ some actor)
    × (enrolled.bindings "alice" ≡ some binding)
    × IsEarned port release actor binding
authorize_backed_example =
    authorize_backed port none release monday enrolled_keyed released_outcome run_test approved

-- A context evaluator that raises.
abbrev failing_evaluator : ContextEvaluator
failing_evaluator = record { evaluate = λ tx evidence. err "model offline" }

abbrev advised_port : Deployment
advised_port = record port { evaluator = some failing_evaluator }

failing_evaluator_reported_absent_example :
    (ask_evaluator advised_port none release (evidence_with none)
        >>= record_evaluation none release)
      monday
    ≡ (emit none Stage.context StageStatus.started ""
          >> emit none Stage.context StageStatus.skipped "No evaluating agent is attached")
        monday
failing_evaluator_reported_absent_example =
    failing_evaluator_reported_absent advised_port none release (evidence_with none)
      failing_evaluator "model offline" refl refl refl monday

gate_known : resolve_zone default_zone_registry "PORT_GATE_17" ≢ none
unfolding resolve_zone
gate_known h = cc h

authorize_returns_example :
    (out : Outcome) × ((authorize_transaction port release none monday).0 ≡ ok out)
authorize_returns_example = authorize_returns port none release monday tt gate_known refl

enrolled-IsKeyed : IsKeyed enrolled
enrolled-IsKeyed = record {
  actors = enrolled_keyed;
  decisions = λ k d h. absurd (cc h);
  receipts = λ k r h. absurd (cc h);
  tokens = λ k x h. absurd (cc h);
}

abbrev one_request : History port monday ran.1
one_request = then_step (still monday) (authorizes release none monday)
