-- ===== src/Authorization/Service/Justified.antt =====
-- That every exit of the pipeline of authorization/service.py, behind the look-up of the actor and the
-- binding, records its outcome, and that only a denial goes without the carrier's word.
use zonegate_backend.Prelude.{
  Option, ◌≡◌, some, ℕ, ◌≢◌, ok, refl, String, ◌∙◌, Result, Result-cases, Option-cases, ap, inl,
  err, inr,
}
use zonegate_backend.Authorization.Service.Deployment.{Deployment, Listener, Outcome, refuse}
use zonegate_backend.Domain.{
  DeviceBinding, TransactionRequest, Actor, EvidencePlan, ValidatedEvidencePlan, CanonicalEvidence,
  mem_kind, ContextEvaluation, DecisionOutcome, PolicyDecision,
}
use zonegate_backend.Evidence.Gateway.{GatewayError, actor_device_mismatch, missing_zone}
use zonegate_backend.Policy.{evaluate}
use zonegate_backend.Evidence.WorkflowPolicy.{get_workflow_policy}
use zonegate_backend.Evidence.PlanValidator.{validate}
use zonegate_backend.Domain.PolicyConfig.{PolicyConfig}
use zonegate_backend.Policy.Rules.{verdict_for}
use zonegate_backend.Runtime.Triples.{Triple, Triple-after, Triple-weaken, Triple-raise}
use zonegate_backend.Runtime.{draw, Tables, now}
use zonegate_backend.Authorization.Service.Results.{IsSettled, refuse-IsSettled, settle-IsSettled}
use zonegate_backend.Prelude.Text.{◌<>◌}
use zonegate_backend.Authorization.Service.Earned.{verdict-IsEarned, IsEarned}
use zonegate_backend.Authorization.Service.Settlement.{assess, decide}
use zonegate_backend.Authorization.Service.Pipeline.{
  after_collection, collect_stage, policy_stage, validate_stage,
}

-- The record is settled, and only a denial goes without the carrier's word.
abbrev pub IsJustified :
    Deployment → TransactionRequest → Actor → DeviceBinding → Outcome → Tables → Type 0
IsJustified s tx actor binding out t =
    IsSettled s tx actor.actor_id out t
    × (out.0.decision ≢ DecisionOutcome.deny → IsEarned s tx actor binding)

module _ (s : Deployment) (listener : Listener) (tx : TransactionRequest) (actor : Actor)
    (time : ℕ) where
  refuse-IsJustified :
      (binding : DeviceBinding) (reason : String)
      → Triple (λ t. Unit) (refuse tx time reason) (IsJustified s tx actor binding)
  refuse-IsJustified binding reason =
      Triple-weaken _ (λ out t (settled, denied). (settled, λ h. absurd (h denied)))
        (refuse-IsSettled s tx actor.actor_id time reason)

  decide-IsJustified :
      (binding : DeviceBinding) (plan : ValidatedEvidencePlan) (evidence : CanonicalEvidence)
      (evaluation : Option ContextEvaluation)
      → ((config : PolicyConfig) (id : String) (decided_at : ℕ)
          → (evaluate config id decided_at tx actor evidence evaluation s.attestable
              (some (λ k. mem_kind k plan.mandatory))).decision
            ≢ DecisionOutcome.deny
          → IsEarned s tx actor binding)
      → Triple
          (λ t. Unit)
          (decide s listener tx actor time plan evidence evaluation)
          (IsJustified s tx actor binding)
  unfolding decide
  decide-IsJustified binding plan evidence evaluation earned = Triple-after _ _ λ _.
      Triple-after draw _ λ id. Triple-after now _ λ decided_at. Triple-after _ _ λ config.
        Triple-after _ _ λ _.
          let d =
            evaluate config ("dec_" <> id) decided_at tx actor evidence evaluation s.attestable
              (some (λ k. mem_kind k plan.mandatory)) in
          let (same, unresolved) =
            verdict_for config ("dec_" <> id) decided_at tx actor evidence evaluation s.attestable
              (some (λ k. mem_kind k plan.mandatory)) in
          Triple-weaken _
            (λ out t (settled, out_is_d). (
              settled,
              λ h.
                  earned config ("dec_" <> id) decided_at
                    (λ denied. h (ap (λ (x : PolicyDecision). x.decision) out_is_d ∙ denied)),
            ))
            (settle-IsSettled s tx actor.actor_id d actor time refl same unresolved)

  assess-IsJustified :
      (binding : DeviceBinding) (plan : ValidatedEvidencePlan) (evidence : CanonicalEvidence)
      → ((config : PolicyConfig) (id : String) (decided_at : ℕ)
            (evaluation : Option ContextEvaluation)
          → (evaluate config id decided_at tx actor evidence evaluation s.attestable
              (some (λ k. mem_kind k plan.mandatory))).decision
            ≢ DecisionOutcome.deny
          → IsEarned s tx actor binding)
      → Triple
          (λ t. Unit)
          (assess s listener tx actor time plan evidence)
          (IsJustified s tx actor binding)
  unfolding assess
  assess-IsJustified binding plan evidence earned = Triple-after _ _ λ evaluation.
      Triple-after _ _ λ _.
        decide-IsJustified binding plan evidence evaluation
          (λ config id decided_at. earned config id decided_at evaluation)

  after_collection-IsJustified :
      (binding : DeviceBinding) (plan : ValidatedEvidencePlan)
      (result : Result GatewayError CanonicalEvidence)
      → ((evidence : CanonicalEvidence) (config : PolicyConfig) (id : String) (decided_at : ℕ)
            (evaluation : Option ContextEvaluation)
          → result ≡ ok evidence
          → (evaluate config id decided_at tx actor evidence evaluation s.attestable
              (some (λ k. mem_kind k plan.mandatory))).decision
            ≢ DecisionOutcome.deny
          → IsEarned s tx actor binding)
      → Triple
          (λ t. Unit)
          (after_collection s listener tx actor time plan result)
          (IsJustified s tx actor binding)
  unfolding after_collection
  after_collection-IsJustified binding plan (err missing_zone) earned = Triple-raise _
  after_collection-IsJustified binding plan (err (actor_device_mismatch text)) earned =
      Triple-after _ _ λ _. refuse-IsJustified binding _
  after_collection-IsJustified binding plan (err e) earned =
      Triple-after _ _ λ _. refuse-IsJustified binding _
  after_collection-IsJustified binding plan (ok evidence) earned = Triple-after _ _ λ _.
      Triple-after _ _ λ _.
        assess-IsJustified binding plan evidence
          (λ config id decided_at evaluation. earned evidence config id decided_at evaluation refl)

  collect_stage-IsJustified :
      (binding : DeviceBinding) (proposed : Option EvidencePlan) (plan : ValidatedEvidencePlan)
      → validate s.attestable tx.action proposed ≡ ok plan
      → Triple
          (λ t. Unit)
          (collect_stage s listener tx actor binding time plan)
          (IsJustified s tx actor binding)
  unfolding collect_stage
  collect_stage-IsJustified binding proposed plan valid = Triple-after _ _ λ _.
      Triple-after now _ λ collected_at.
        after_collection-IsJustified binding plan _
          λ evidence config id decided_at evaluation collected.
            verdict-IsEarned s tx actor binding proposed plan evidence collected_at valid collected
              config id decided_at evaluation

  validated-IsJustified :
      (binding : DeviceBinding) (proposed : Option EvidencePlan)
      → Triple
          (λ t. Unit)
          (validate_stage s listener tx actor binding time proposed)
          (IsJustified s tx actor binding)
  unfolding validate_stage
  validated-IsJustified binding proposed = Triple-after _ _ λ _.
      elim (Result-cases (validate s.attestable tx.action proposed)) [
        | inl (plan, valid) ↦ rw valid (
            Triple-after _ _
              λ _. Triple-after _ _ λ _. collect_stage-IsJustified binding proposed plan valid)
        | inr (e, refused) ↦ rw refused (Triple-after _ _ λ _. refuse-IsJustified binding _)
      ]

  pub policy_stage-IsJustified :
      (binding : DeviceBinding)
      → Triple
          (λ t. Unit)
          (policy_stage s listener tx actor binding time)
          (IsJustified s tx actor binding)
  unfolding policy_stage
  policy_stage-IsJustified binding = elim (Option-cases (get_workflow_policy tx.action)) [
    | inl unknown ↦ rw (unknown, policy_stage) (Triple-after _ _ λ _. refuse-IsJustified binding _)
    | inr (policy, known_policy) ↦
        rw (known_policy, policy_stage)
          (Triple-after _ _ λ proposed. validated-IsJustified binding proposed)
  ]
