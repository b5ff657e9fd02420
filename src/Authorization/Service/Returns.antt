-- ===== src/Authorization/Service/Returns.antt =====
-- That `authorize_transaction` of authorization/service.py ends with a decision.
use zonegate_backend.Runtime.{Exec, World}
use zonegate_backend.Prelude.{
  Bool, some, ℕ, String, if◌then◌else◌, ◌≡◌, Option-cases, Option, true, false, inl, Result, none,
  inr, refl, ◌≢◌, err, ok, [], Result-cases,
}
use zonegate_backend.Authorization.Service.Deployment.{
  refuse, emit, issue_and_save, Deployment, Listener, conclude, Outcome,
}
use zonegate_backend.Storage.{
  save_decision, save_token, save_receipt, save_context_evaluation, save_evidence, save_transaction,
  get_device_binding, save_evidence_plan, get_actor,
}
use zonegate_backend.Authorization.Progress.{Stage, StageEvent, StageStatus, stage_label}
use zonegate_backend.Domain.{
  TransactionRequest, Actor, CanonicalEvidence, PolicyDecision, ValidatedEvidencePlan, Receipt,
  is_approve, ContextEvaluation, EvidencePlan, DeviceBinding,
}
use zonegate_backend.Authorization.Token.{Scope}
use zonegate_backend.Runtime.Returning.{
  Runs, Runs-bind, Runs-draw, Runs-now, Runs-pure, Runs-writing, Runs-gets, Runs-reading,
}
use zonegate_backend.Evidence.Gateway.{
  GatewayError, missing_zone, actor_device_mismatch, resolve_zone,
}
use zonegate_backend.Evidence.WorkflowPolicy.{WorkflowEvidencePolicy, get_workflow_policy}
use zonegate_backend.Evidence.PlanValidator.{validate}
use zonegate_backend.Evidence.Gateway.Zones.{collect_evidence-zoned}
use zonegate_backend.Authorization.Service.Settlement.{
  decide, ask_evaluator, record_evaluation, settle, assess,
}
use zonegate_backend.Authorization.Service.Pipeline.{
  plan_stage, validate_stage, policy_stage, binding_stage, authorize_transaction, after_collection,
  report_plan, invoke_planner, collect_stage,
}

-- A listener that never raises, or none.
abbrev pub IsQuiet : Listener → Type 0
IsQuiet none = Unit
IsQuiet (some raises) = (e : StageEvent) → raises e ≡ false

Runs-emit :
    (listener : Listener) (stage : Stage) (status : StageStatus) (detail : String)
    → IsQuiet listener
    → Runs (emit listener stage status detail)
unfolding emit
Runs-emit none stage status detail quiet w h = record {
  answer = tt;
  returned = refl;
  no_faults = h;
}
Runs-emit (some raises) stage status detail quiet w h =
    let calm =
      quiet
        (record { stage = stage; status = status; label = stage_label stage; detail = detail }) in
    record { answer = tt; returned = rw calm refl; no_faults = rw calm h }

Runs-conclude : (d : PolicyDecision) (r : Receipt) → Runs (conclude d r)
unfolding conclude save_decision save_receipt
Runs-conclude d r = Runs-bind (Runs-writing _) λ _. Runs-bind (Runs-writing _) λ _. Runs-pure (d, r)

Runs-refuse : (tx : TransactionRequest) (time : ℕ) (reason : String) → Runs (refuse tx time reason)
unfolding refuse
Runs-refuse tx time reason = Runs-bind Runs-draw λ id. Runs-conclude _ _

Runs-issue_and_save : (s : Deployment) (scope : Scope) → Runs (issue_and_save s scope)
unfolding issue_and_save save_token
Runs-issue_and_save s scope =
    Runs-bind Runs-now λ time. Runs-bind Runs-draw λ id. Runs-bind (Runs-writing _) λ _. Runs-pure _

Runs-if : {A : Type 0} (b : Bool) {m k : Exec A} → Runs m → Runs k → Runs (if b then m else k)
Runs-if true hm hk = hm
Runs-if false hm hk = hk

module _ (s : Deployment) (listener : Listener) (tx : TransactionRequest)
    (quiet : IsQuiet listener) where
  said :
      (stage : Stage) (status : StageStatus) (detail : String)
      → Runs (emit listener stage status detail)
  said stage status detail = Runs-emit listener stage status detail quiet

  Runs-settle : (actor : Actor) (time : ℕ) (d : PolicyDecision) → Runs (settle s tx actor time d)
  unfolding settle
  Runs-settle actor time d =
      Runs-bind (Runs-if (is_approve d.decision) (Runs-issue_and_save s _) (Runs-pure none))
        λ token. Runs-conclude _ _

  Runs-decide :
      (actor : Actor) (time : ℕ) (plan : ValidatedEvidencePlan) (evidence : CanonicalEvidence)
      (evaluation : Option ContextEvaluation)
      → Runs (decide s listener tx actor time plan evidence evaluation)
  unfolding decide
  Runs-decide actor time plan evidence evaluation = Runs-bind (said _ _ _) λ _.
      Runs-bind Runs-draw λ id. Runs-bind Runs-now λ decided_at.
        Runs-bind (Runs-gets _) λ config. Runs-bind (said _ _ _) λ _. Runs-settle actor time _

  Runs-ask_evaluator : (evidence : CanonicalEvidence) → Runs (ask_evaluator s listener tx evidence)
  unfolding ask_evaluator
  Runs-ask_evaluator evidence = elim (Option-cases s.evaluator) [
    | inl e ↦ rw (ask_evaluator, e) (Runs-pure none)
    | inr (evaluator, e) ↦ rw (ask_evaluator, e) (Runs-bind (said _ _ _) λ _. Runs-pure _)
  ]

  Runs-record_evaluation :
      (evaluation : Option ContextEvaluation) → Runs (record_evaluation listener tx evaluation)
  unfolding record_evaluation save_context_evaluation
  Runs-record_evaluation none = said _ _ _
  Runs-record_evaluation (some e) = Runs-bind (Runs-writing _) λ _. said _ _ _

  Runs-after_collection :
      (actor : Actor) (time : ℕ) (plan : ValidatedEvidencePlan)
      (result : Result GatewayError CanonicalEvidence)
      → result ≢ err missing_zone
      → Runs (after_collection s listener tx actor time plan result)
  unfolding after_collection save_evidence assess
  Runs-after_collection actor time plan (err missing_zone) h = absurd (h refl)
  Runs-after_collection actor time plan (err (actor_device_mismatch text)) h =
      Runs-bind (said _ _ _) λ _. Runs-refuse tx time _
  Runs-after_collection actor time plan (err e) h =
      Runs-bind (said _ _ _) λ _. Runs-refuse tx time _
  Runs-after_collection actor time plan (ok evidence) h = Runs-bind (Runs-writing _) λ _.
      Runs-bind (said _ _ _) λ _. Runs-bind (Runs-ask_evaluator evidence) λ evaluation.
        Runs-bind (Runs-record_evaluation evaluation)
          λ _. Runs-decide actor time plan evidence evaluation

  Runs-report_plan : (proposed : Option EvidencePlan) → Runs (report_plan listener proposed)
  unfolding report_plan
  Runs-report_plan none = said _ _ _
  Runs-report_plan (some p) = said _ _ _

  Runs-plan_stage : (policy : WorkflowEvidencePolicy) → Runs (plan_stage s listener tx policy)
  unfolding plan_stage
  Runs-plan_stage policy = elim (Option-cases s.planner) [
    | inl e ↦ rw (plan_stage, e) (Runs-bind (said _ _ _) λ _. Runs-pure none)
    | inr (planner, e) ↦
        rw (plan_stage, e)
          (Runs-bind (said _ _ _)
            λ _. Runs-bind (Runs-report_plan (invoke_planner s planner tx policy)) λ _. Runs-pure _)
  ]

  module _ (known : resolve_zone s.registry tx.zone ≢ none) where
    Runs-validate_stage :
        (actor : Actor) (binding : DeviceBinding) (time : ℕ) (proposed : Option EvidencePlan)
        → Runs (validate_stage s listener tx actor binding time proposed)
    unfolding validate_stage collect_stage save_evidence_plan
    Runs-validate_stage actor binding time proposed = Runs-bind (said _ _ _) λ _.
        elim (Result-cases (validate s.attestable tx.action proposed)) [
          | inl (plan, valid) ↦ rw valid (
              Runs-bind (Runs-writing _) λ _. Runs-bind (said _ _ _) λ _.
                Runs-bind (said _ _ _) λ _. Runs-bind Runs-now λ collected_at.
                  Runs-after_collection actor time plan _ (
                    collect_evidence-zoned s.registry s.carrier collected_at actor binding tx plan
                      known))
          | inr (e, refused) ↦ rw refused (Runs-bind (said _ _ _) λ _. Runs-refuse tx time _)
        ]

    Runs-policy_stage :
        (actor : Actor) (binding : DeviceBinding) (time : ℕ)
        → Runs (policy_stage s listener tx actor binding time)
    unfolding policy_stage
    Runs-policy_stage actor binding time = elim (Option-cases (get_workflow_policy tx.action)) [
      | inl e ↦ rw (policy_stage, e) (Runs-bind (said _ _ _) λ _. Runs-refuse tx time _)
      | inr (policy, e) ↦
          rw (policy_stage, e)
            (Runs-bind (Runs-plan_stage policy)
              λ proposed. Runs-validate_stage actor binding time proposed)
    ]

    Runs-binding_stage : (time : ℕ) (actor : Actor) → Runs (binding_stage s listener tx time actor)
    unfolding binding_stage get_device_binding
    Runs-binding_stage time actor = Runs-bind (Runs-reading _) λ found. elim (Option-cases found) [
      | inl e ↦ rw e (Runs-bind (said _ _ _) λ _. Runs-refuse tx time _)
      | inr (binding, e) ↦ rw e (Runs-bind (said _ _ _) λ _. Runs-policy_stage actor binding time)
    ]

    Runs-authorize : Runs (authorize_transaction s tx listener)
    unfolding authorize_transaction save_transaction get_actor
    Runs-authorize = Runs-bind Runs-now λ time. Runs-bind (Runs-writing _) λ _.
        Runs-bind (said _ _ _) λ _. Runs-bind (Runs-reading _) λ found. elim (Option-cases found) [
          | inl e ↦ rw e (Runs-bind (said _ _ _) λ _. Runs-refuse tx time _)
          | inr (actor, e) ↦ rw e (Runs-binding_stage time actor)
        ]

-- If no storage call fails, the listener (if any) never raises and the registry has a default zone,
-- then `authorize_transaction` returns a decision and a receipt: whatever the actor, the binding, the
-- action, the two agents, the graph library, the carrier and the policy configuration are and do.
pub authorize_returns :
    (s : Deployment) (listener : Listener) (tx : TransactionRequest) (w : World)
    → IsQuiet listener
    → resolve_zone s.registry tx.zone ≢ none
    → w.faults ≡ []
    → (out : Outcome) × ((authorize_transaction s tx listener w).0 ≡ ok out)
authorize_returns s listener tx w quiet known no_faults =
    let run = Runs-authorize s listener tx quiet known w no_faults in (run.answer, run.returned)
