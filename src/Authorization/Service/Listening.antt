-- ===== src/Authorization/Service/Listening.antt =====
-- That the listener of `authorize_transaction` in authorization/service.py only listens.
use zonegate_backend.Authorization.Service.Deployment.{
  issue_and_save, emit, refuse, conclude, Deployment, Listener,
}
use zonegate_backend.Authorization.Token.{Scope}
use zonegate_backend.Domain.{
  PolicyDecision, TransactionRequest, Receipt, CanonicalEvidence, Actor, DeviceBinding,
  EvidencePlan, ValidatedEvidencePlan, ContextEvaluation,
}
use zonegate_backend.Authorization.Progress.{Stage, StageStatus}
use zonegate_backend.Prelude.{
  ℕ, Option, String, Option-cases, Result-cases, some, Result, inl, none, inr, err, ok, false, refl,
}
use zonegate_backend.Storage.{
  get_device_binding, get_actor, save_token, save_decision, save_evidence, save_transaction,
  save_evidence_plan, save_context_evaluation, save_receipt,
}
use zonegate_backend.Evidence.WorkflowPolicy.{WorkflowEvidencePolicy, get_workflow_policy}
use zonegate_backend.Evidence.PlanValidator.{validate}
use zonegate_backend.Evidence.Gateway.{GatewayError, actor_device_mismatch, missing_zone}
use zonegate_backend.Authorization.Service.Settlement.{
  record_evaluation, decide, ask_evaluator, settle, assess,
}
use zonegate_backend.Authorization.Service.Pipeline.{
  plan_stage, policy_stage, after_collection, report_plan, validate_stage, authorize_transaction,
  binding_stage, invoke_planner, collect_stage,
}
use zonegate_backend.Runtime.Quiet.{
  Agrees, Agrees-raise, Agrees-pure, Agrees-bind, Agrees-writing, Agrees-now, Agrees-reading,
  Agrees-draw, Agrees-gets, Agrees-if,
}

-- A listener that never raises.
abbrev pub telling : Listener
telling = some (λ event. false)

Agrees-emit :
    (stage : Stage) (status : StageStatus) (detail : String)
    → Agrees (emit telling stage status detail) (emit none stage status detail)
unfolding emit
Agrees-emit stage status detail = record { at = λ w. refl }

Agrees-conclude : (d : PolicyDecision) (r : Receipt) → Agrees (conclude d r) (conclude d r)
unfolding conclude save_decision save_receipt
Agrees-conclude d r =
    Agrees-bind (Agrees-writing _) λ _. Agrees-bind (Agrees-writing _) λ _. Agrees-pure (d, r)

Agrees-refuse :
    (tx : TransactionRequest) (time : ℕ) (reason : String)
    → Agrees (refuse tx time reason) (refuse tx time reason)
unfolding refuse
Agrees-refuse tx time reason = Agrees-bind Agrees-draw λ id. Agrees-conclude _ _

Agrees-issue_and_save :
    (s : Deployment) (scope : Scope) → Agrees (issue_and_save s scope) (issue_and_save s scope)
unfolding issue_and_save save_token
Agrees-issue_and_save s scope =
    Agrees-bind Agrees-now
      λ time. Agrees-bind Agrees-draw λ id. Agrees-bind (Agrees-writing _) λ _. Agrees-pure _

module _ (s : Deployment) (tx : TransactionRequest) where
  Agrees-decide :
      (actor : Actor) (time : ℕ) (plan : ValidatedEvidencePlan) (evidence : CanonicalEvidence)
      (evaluation : Option ContextEvaluation)
      → Agrees
          (decide s telling tx actor time plan evidence evaluation)
          (decide s none tx actor time plan evidence evaluation)
  unfolding decide settle
  Agrees-decide actor time plan evidence evaluation = Agrees-bind (Agrees-emit _ _ _) λ _.
      Agrees-bind Agrees-draw λ id. Agrees-bind Agrees-now λ decided_at.
        Agrees-bind (Agrees-gets _ (λ w. refl)) λ config. Agrees-bind (Agrees-emit _ _ _) λ _.
          Agrees-bind (Agrees-if _ (Agrees-issue_and_save s _) (Agrees-pure none))
            λ token. Agrees-conclude _ _

  Agrees-ask_evaluator :
      (evidence : CanonicalEvidence)
      → Agrees (ask_evaluator s telling tx evidence) (ask_evaluator s none tx evidence)
  unfolding ask_evaluator
  Agrees-ask_evaluator evidence = elim (Option-cases s.evaluator) [
    | inl e ↦ rw (ask_evaluator, e) (Agrees-pure none)
    | inr (evaluator, e) ↦
        rw (ask_evaluator, e) (Agrees-bind (Agrees-emit _ _ _) λ _. Agrees-pure _)
  ]

  Agrees-record_evaluation :
      (evaluation : Option ContextEvaluation)
      → Agrees (record_evaluation telling tx evaluation) (record_evaluation none tx evaluation)
  unfolding record_evaluation save_context_evaluation
  Agrees-record_evaluation none = Agrees-emit _ _ _
  Agrees-record_evaluation (some e) = Agrees-bind (Agrees-writing _) λ _. Agrees-emit _ _ _

  Agrees-after_collection :
      (actor : Actor) (time : ℕ) (plan : ValidatedEvidencePlan)
      (result : Result GatewayError CanonicalEvidence)
      → Agrees
          (after_collection s telling tx actor time plan result)
          (after_collection s none tx actor time plan result)
  unfolding after_collection assess save_evidence
  Agrees-after_collection actor time plan (err missing_zone) = Agrees-raise _
  Agrees-after_collection actor time plan (err (actor_device_mismatch text)) =
      Agrees-bind (Agrees-emit _ _ _) λ _. Agrees-refuse tx time _
  Agrees-after_collection actor time plan (err e) =
      Agrees-bind (Agrees-emit _ _ _) λ _. Agrees-refuse tx time _
  Agrees-after_collection actor time plan (ok evidence) = Agrees-bind (Agrees-writing _) λ _.
      Agrees-bind (Agrees-emit _ _ _) λ _. Agrees-bind (Agrees-ask_evaluator evidence) λ evaluation.
        Agrees-bind (Agrees-record_evaluation evaluation)
          λ _. Agrees-decide actor time plan evidence evaluation

  Agrees-report_plan :
      (proposed : Option EvidencePlan)
      → Agrees (report_plan telling proposed) (report_plan none proposed)
  unfolding report_plan
  Agrees-report_plan none = Agrees-emit _ _ _
  Agrees-report_plan (some p) = Agrees-emit _ _ _

  Agrees-plan_stage :
      (policy : WorkflowEvidencePolicy)
      → Agrees (plan_stage s telling tx policy) (plan_stage s none tx policy)
  unfolding plan_stage
  Agrees-plan_stage policy = elim (Option-cases s.planner) [
    | inl e ↦ rw (plan_stage, e) (Agrees-bind (Agrees-emit _ _ _) λ _. Agrees-pure none)
    | inr (planner, e) ↦
        rw (plan_stage, e)
          (Agrees-bind (Agrees-emit _ _ _) λ _.
            Agrees-bind (Agrees-report_plan (invoke_planner s planner tx policy))
              λ _. Agrees-pure _)
  ]

  Agrees-validate_stage :
      (actor : Actor) (binding : DeviceBinding) (time : ℕ) (proposed : Option EvidencePlan)
      → Agrees
          (validate_stage s telling tx actor binding time proposed)
          (validate_stage s none tx actor binding time proposed)
  unfolding validate_stage collect_stage save_evidence_plan
  Agrees-validate_stage actor binding time proposed = Agrees-bind (Agrees-emit _ _ _) λ _.
      elim (Result-cases (validate s.attestable tx.action proposed)) [
        | inl (plan, valid) ↦ rw valid (
            Agrees-bind (Agrees-writing _) λ _. Agrees-bind (Agrees-emit _ _ _) λ _.
              Agrees-bind (Agrees-emit _ _ _) λ _.
                Agrees-bind Agrees-now λ collected_at. Agrees-after_collection actor time plan _)
        | inr (e, refused) ↦
            rw refused (Agrees-bind (Agrees-emit _ _ _) λ _. Agrees-refuse tx time _)
      ]

  Agrees-policy_stage :
      (actor : Actor) (binding : DeviceBinding) (time : ℕ)
      → Agrees
          (policy_stage s telling tx actor binding time)
          (policy_stage s none tx actor binding time)
  unfolding policy_stage
  Agrees-policy_stage actor binding time = elim (Option-cases (get_workflow_policy tx.action)) [
    | inl e ↦ rw (policy_stage, e) (Agrees-bind (Agrees-emit _ _ _) λ _. Agrees-refuse tx time _)
    | inr (policy, e) ↦
        rw (policy_stage, e)
          (Agrees-bind (Agrees-plan_stage policy)
            λ proposed. Agrees-validate_stage actor binding time proposed)
  ]

  Agrees-binding_stage :
      (time : ℕ) (actor : Actor)
      → Agrees (binding_stage s telling tx time actor) (binding_stage s none tx time actor)
  unfolding binding_stage get_device_binding
  Agrees-binding_stage time actor = Agrees-bind (Agrees-reading _) λ found.
      elim (Option-cases found) [
        | inl e ↦ rw e (Agrees-bind (Agrees-emit _ _ _) λ _. Agrees-refuse tx time _)
        | inr (binding, e) ↦
            rw e (Agrees-bind (Agrees-emit _ _ _) λ _. Agrees-policy_stage actor binding time)
      ]

  pub Agrees-authorize :
      Agrees (authorize_transaction s tx telling) (authorize_transaction s tx none)
  unfolding authorize_transaction get_actor save_transaction
  Agrees-authorize = Agrees-bind Agrees-now λ time. Agrees-bind (Agrees-writing _) λ _.
      Agrees-bind (Agrees-emit _ _ _) λ _. Agrees-bind (Agrees-reading _) λ found.
        elim (Option-cases found) [
          | inl e ↦ rw e (Agrees-bind (Agrees-emit _ _ _) λ _. Agrees-refuse tx time _)
          | inr (actor, e) ↦ rw e (Agrees-binding_stage time actor)
        ]
