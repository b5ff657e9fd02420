-- ===== src/Authorization/Service/Kept/Requests.antt =====
-- What a whole run of `authorize_transaction` of authorization/service.py keeps.
use zonegate_backend.Runtime.Keeping.{
  Keeps, Keeps-bind, Keeps-now, Keeps-reading, Keeps-draw, Keeps-pure, Keeps-gets, Keeps-if,
  Keeps-raise,
}
use zonegate_backend.Runtime.{Tables}
use zonegate_backend.Authorization.Service.Deployment.{
  issue_and_save, emit, refuse, conclude, Deployment, Listener,
}
use zonegate_backend.Authorization.Token.{Scope}
use zonegate_backend.Domain.{
  PolicyDecision, TransactionRequest, Receipt, CanonicalEvidence, Actor, DeviceBinding,
  EvidencePlan, ValidatedEvidencePlan, ContextEvaluation,
}
use zonegate_backend.Authorization.Service.Kept.{Allows}
use zonegate_backend.Authorization.Progress.{Stage, StageStatus, StageEvent, stage_label}
use zonegate_backend.Prelude.{
  ℕ, Option, String, Option-cases, Result-cases, some, Result, inl, none, inr, err, Bool-cases, ok,
}
use zonegate_backend.Storage.{get_device_binding, get_actor}
use zonegate_backend.Evidence.WorkflowPolicy.{WorkflowEvidencePolicy, get_workflow_policy}
use zonegate_backend.Evidence.PlanValidator.{validate}
use zonegate_backend.Evidence.Gateway.{GatewayError, actor_device_mismatch, missing_zone}
use zonegate_backend.Authorization.Service.Settlement.{
  record_evaluation, decide, ask_evaluator, settle, assess,
}
use zonegate_backend.Authorization.Service.Pipeline.{
  plan_stage, policy_stage, after_collection, report_plan, validate_stage, authorize_transaction,
  binding_stage, invoke_planner, collect_stage,
}

pub Keeps-emit :
    {P : Tables → Type 0} (listener : Listener) (stage : Stage) (status : StageStatus)
    (detail : String)
    → Keeps P (emit listener stage status detail)
unfolding emit
Keeps-emit none stage status detail = record { at = λ w p. p }
Keeps-emit (some raises) stage status detail =
    let event : StageEvent = record {
      stage = stage;
      status = status;
      label = stage_label stage;
      detail = detail;
    } in
    record { at = λ w p. elim (Bool-cases (raises event)) [ inl h ↦ rw h p | inr h ↦ rw h p ] }

module _ {P : Tables → Type 0} (allows : Allows P) where
  Keeps-conclude : (d : PolicyDecision) (r : Receipt) → Keeps P (conclude d r)
  unfolding conclude
  Keeps-conclude d r =
      Keeps-bind (allows.decision d) λ _. Keeps-bind (allows.receipt r) λ _. Keeps-pure (d, r)

  Keeps-refuse :
      (tx : TransactionRequest) (time : ℕ) (reason : String) → Keeps P (refuse tx time reason)
  unfolding refuse
  Keeps-refuse tx time reason = Keeps-bind Keeps-draw λ id. Keeps-conclude _ _

  pub Keeps-issue_and_save : (s : Deployment) (scope : Scope) → Keeps P (issue_and_save s scope)
  unfolding issue_and_save
  Keeps-issue_and_save s scope =
      Keeps-bind Keeps-now
        λ time. Keeps-bind Keeps-draw λ id. Keeps-bind (allows.token _) λ _. Keeps-pure _

  module _ (s : Deployment) (listener : Listener) (tx : TransactionRequest) where
    Keeps-decide :
        (actor : Actor) (time : ℕ) (plan : ValidatedEvidencePlan) (evidence : CanonicalEvidence)
        (evaluation : Option ContextEvaluation)
        → Keeps P (decide s listener tx actor time plan evidence evaluation)
    unfolding decide settle
    Keeps-decide actor time plan evidence evaluation = Keeps-bind (Keeps-emit listener _ _ _) λ _.
        Keeps-bind Keeps-draw λ id. Keeps-bind Keeps-now λ decided_at.
          Keeps-bind (Keeps-gets _) λ config. Keeps-bind (Keeps-emit listener _ _ _) λ _.
            Keeps-bind (Keeps-if _ (Keeps-issue_and_save s _) (Keeps-pure none))
              λ token. Keeps-conclude _ _

    Keeps-ask_evaluator :
        (evidence : CanonicalEvidence) → Keeps P (ask_evaluator s listener tx evidence)
    unfolding ask_evaluator
    Keeps-ask_evaluator evidence = elim (Option-cases s.evaluator) [
      | inl e ↦ rw (ask_evaluator, e) (Keeps-pure none)
      | inr (evaluator, e) ↦
          rw (ask_evaluator, e) (Keeps-bind (Keeps-emit listener _ _ _) λ _. Keeps-pure _)
    ]

    Keeps-record_evaluation :
        (evaluation : Option ContextEvaluation) → Keeps P (record_evaluation listener tx evaluation)
    unfolding record_evaluation
    Keeps-record_evaluation none = Keeps-emit listener _ _ _
    Keeps-record_evaluation (some e) =
        Keeps-bind (allows.evaluation _ _) λ _. Keeps-emit listener _ _ _

    Keeps-after_collection :
        (actor : Actor) (time : ℕ) (plan : ValidatedEvidencePlan)
        (result : Result GatewayError CanonicalEvidence)
        → Keeps P (after_collection s listener tx actor time plan result)
    unfolding after_collection assess
    Keeps-after_collection actor time plan (err missing_zone) = Keeps-raise _
    Keeps-after_collection actor time plan (err (actor_device_mismatch text)) =
        Keeps-bind (Keeps-emit listener _ _ _) λ _. Keeps-refuse tx time _
    Keeps-after_collection actor time plan (err e) =
        Keeps-bind (Keeps-emit listener _ _ _) λ _. Keeps-refuse tx time _
    Keeps-after_collection actor time plan (ok evidence) = Keeps-bind (allows.evidence _ _) λ _.
        Keeps-bind (Keeps-emit listener _ _ _) λ _.
          Keeps-bind (Keeps-ask_evaluator evidence) λ evaluation.
            Keeps-bind (Keeps-record_evaluation evaluation)
              λ _. Keeps-decide actor time plan evidence evaluation

    Keeps-report_plan : (proposed : Option EvidencePlan) → Keeps P (report_plan listener proposed)
    unfolding report_plan
    Keeps-report_plan none = Keeps-emit listener _ _ _
    Keeps-report_plan (some p) = Keeps-emit listener _ _ _

    Keeps-plan_stage : (policy : WorkflowEvidencePolicy) → Keeps P (plan_stage s listener tx policy)
    unfolding plan_stage
    Keeps-plan_stage policy = elim (Option-cases s.planner) [
      | inl e ↦ rw (plan_stage, e) (Keeps-bind (Keeps-emit listener _ _ _) λ _. Keeps-pure none)
      | inr (planner, e) ↦
          rw (plan_stage, e)
            (Keeps-bind (Keeps-emit listener _ _ _) λ _.
              Keeps-bind (Keeps-report_plan (invoke_planner s planner tx policy)) λ _. Keeps-pure _)
    ]

    Keeps-validate_stage :
        (actor : Actor) (binding : DeviceBinding) (time : ℕ) (proposed : Option EvidencePlan)
        → Keeps P (validate_stage s listener tx actor binding time proposed)
    unfolding validate_stage collect_stage
    Keeps-validate_stage actor binding time proposed = Keeps-bind (Keeps-emit listener _ _ _) λ _.
        elim (Result-cases (validate s.attestable tx.action proposed)) [
          | inl (plan, valid) ↦ rw valid (
              Keeps-bind (allows.evidence_plan _ _) λ _. Keeps-bind (Keeps-emit listener _ _ _) λ _.
                Keeps-bind (Keeps-emit listener _ _ _) λ _.
                  Keeps-bind Keeps-now λ collected_at. Keeps-after_collection actor time plan _)
          | inr (e, refused) ↦
              rw refused (Keeps-bind (Keeps-emit listener _ _ _) λ _. Keeps-refuse tx time _)
        ]

    Keeps-policy_stage :
        (actor : Actor) (binding : DeviceBinding) (time : ℕ)
        → Keeps P (policy_stage s listener tx actor binding time)
    unfolding policy_stage
    Keeps-policy_stage actor binding time = elim (Option-cases (get_workflow_policy tx.action)) [
      | inl e ↦
          rw (policy_stage, e) (Keeps-bind (Keeps-emit listener _ _ _) λ _. Keeps-refuse tx time _)
      | inr (policy, e) ↦
          rw (policy_stage, e)
            (Keeps-bind (Keeps-plan_stage policy)
              λ proposed. Keeps-validate_stage actor binding time proposed)
    ]

    Keeps-binding_stage :
        (time : ℕ) (actor : Actor) → Keeps P (binding_stage s listener tx time actor)
    unfolding binding_stage get_device_binding
    Keeps-binding_stage time actor = Keeps-bind (Keeps-reading _) λ found.
        elim (Option-cases found) [
          | inl e ↦ rw e (Keeps-bind (Keeps-emit listener _ _ _) λ _. Keeps-refuse tx time _)
          | inr (binding, e) ↦
              rw e
                (Keeps-bind (Keeps-emit listener _ _ _) λ _. Keeps-policy_stage actor binding time)
        ]

    pub Keeps-authorize : Keeps P (authorize_transaction s tx listener)
    unfolding authorize_transaction get_actor
    Keeps-authorize = Keeps-bind Keeps-now λ time. Keeps-bind (allows.transaction tx) λ _.
        Keeps-bind (Keeps-emit listener _ _ _) λ _. Keeps-bind (Keeps-reading _) λ found.
          elim (Option-cases found) [
            | inl e ↦ rw e (Keeps-bind (Keeps-emit listener _ _ _) λ _. Keeps-refuse tx time _)
            | inr (actor, e) ↦ rw e (Keeps-binding_stage time actor)
          ]
