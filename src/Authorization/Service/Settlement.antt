-- ===== src/Authorization/Service/Settlement.antt =====
-- The last steps of `AuthorizationService.authorize_transaction` of authorization/service.py: the
-- advisory evaluation, the engine's decision, and what is recorded of it.
use zonegate_backend.Prelude.{String, Option, [], ℕ, ◌∷◌, none, some, err, ok, if◌then◌else◌}
use zonegate_backend.Domain.{
  PolicyDecision, TransactionRequest, ContextEvaluation, outcome_value, CanonicalEvidence, Actor,
  ValidatedEvidencePlan, RecommendedControl, is_approve, control_value, mem_kind,
}
use zonegate_backend.Authorization.Service.Deployment.{
  Deployment, Listener, emit, Outcome, issue_and_save, conclude, receipt_for,
}
use zonegate_backend.Agent.{ainvoke, evaluate_node}
use zonegate_backend.Prelude.Text.{◌<>◌}
use zonegate_backend.Runtime.{Exec, pure, ◌>>=◌, ◌>>◌, now, draw, gets}
use zonegate_backend.Authorization.Progress.{Stage, StageStatus}
use zonegate_backend.Storage.{save_context_evaluation}
use zonegate_backend.Policy.{evaluate}

-- Steps 11 and on: a token if the engine approved, then the decision and the receipt.
unfoldable pub settle : Deployment → TransactionRequest → Actor → ℕ → PolicyDecision → Exec Outcome
settle s tx actor time d = do
  token ←
      (if is_approve d.decision
        then issue_and_save s (record {
          actor_id = actor.actor_id;
          action = tx.action;
          resource_id = tx.resource_id;
          zone = tx.zone;
          decision_id = d.decision_id;
        })
        else pure none)
  conclude d (receipt_for d time token)

-- `reasons[0] if reasons else decision.value`
unfoldable pub headline : PolicyDecision → String
headline d = elim d.reasons [ [] ↦ outcome_value d.decision | reason ∷ _ ↦ reason ]

-- Step 10: the engine decides, with its present configuration.
unfoldable pub decide :
    Deployment
    → Listener
    → TransactionRequest
    → Actor
    → ℕ
    → ValidatedEvidencePlan
    → CanonicalEvidence
    → Option ContextEvaluation
    → Exec Outcome
unfolding headline
decide s listener tx actor time plan evidence evaluation = do
  emit listener Stage.policy StageStatus.started ""
  id ← draw
  decided_at ← now
  config ← gets (λ w. w.config)
  let d =
      evaluate config ("dec_" <> id) decided_at tx actor evidence evaluation s.attestable
        (some (λ k. mem_kind k plan.mandatory))
  emit listener Stage.policy StageStatus.done (headline d)
  settle s tx actor time d

-- What the failure of the evaluation graph itself is recorded as.
unfoldable pub unavailable : String → ContextEvaluation
unavailable text = record {
  risk_factors = "AI_EVALUATION_UNAVAILABLE" ∷ [];
  recommended_control = RecommendedControl.hold;
  rationale = "AI context evaluator encountered an internal failure: " <> text;
}

-- The evaluation of step 9, and the stage event that starts it.
unfoldable pub ask_evaluator :
    Deployment → Listener → TransactionRequest → CanonicalEvidence → Exec (Option ContextEvaluation)
unfolding unavailable
ask_evaluator s listener tx evidence = elim s.evaluator [
  | none ↦ pure none
  | some evaluator ↦ do
    emit listener Stage.context StageStatus.started ""
    pure
        (elim (ainvoke (record {
          node = evaluate_node evaluator tx (some evidence);
          fault = s.evaluation_fault;
        })) [ ok state ↦ state.context_evaluation | err text ↦ some (unavailable text) ])
]

unfoldable pub record_evaluation :
    Listener → TransactionRequest → Option ContextEvaluation → Exec (Unit {0})
record_evaluation listener tx none =
    emit listener Stage.context StageStatus.skipped "No evaluating agent is attached"
record_evaluation listener tx (some e) = do
  save_context_evaluation tx.transaction_id e
  emit listener Stage.context StageStatus.done
      ("Advises " <> control_value e.recommended_control <> " — advisory only, never binding")

-- Steps 9 to 11.
unfoldable pub assess :
    Deployment
    → Listener
    → TransactionRequest
    → Actor
    → ℕ
    → ValidatedEvidencePlan
    → CanonicalEvidence
    → Exec Outcome
assess s listener tx actor time plan evidence = do
  evaluation ← ask_evaluator s listener tx evidence
  record_evaluation listener tx evaluation
  decide s listener tx actor time plan evidence evaluation
