-- ===== src/Authorization/Service/Advice.antt =====
-- What the pipeline of authorization/service.py reports of an evaluator that fails.
use zonegate_backend.Runtime.{◌>>=◌, pure, World, ◌>>◌}
use zonegate_backend.Authorization.Service.Deployment.{Deployment, Listener, emit}
use zonegate_backend.Domain.{TransactionRequest, CanonicalEvidence}
use zonegate_backend.Agent.{ContextEvaluator, ainvoke, evaluate_node}
use zonegate_backend.Prelude.{String, ◌≡◌, some, none, err, arith, refl}
use zonegate_backend.Authorization.Progress.{Stage, StageStatus}
use zonegate_backend.Runtime.Triples.{bind_assoc}
use zonegate_backend.Authorization.Service.Settlement.{ask_evaluator, record_evaluation}

module _ (s : Deployment) (listener : Listener) (tx : TransactionRequest)
    (evidence : CanonicalEvidence) (evaluator : ContextEvaluator) (text : String)
    (attached : s.evaluator ≡ some evaluator) (runs : s.evaluation_fault ≡ none)
    (fails : evaluator.evaluate tx evidence ≡ err text) where
  node_failing : (evaluate_node evaluator tx (some evidence)).context_evaluation ≡ none
  unfolding evaluate_node
  node_failing = ground (arith, fails)

  ask_failing :
      ask_evaluator s listener tx evidence
      ≡ (emit listener Stage.context StageStatus.started "" >> pure none)
  unfolding ask_evaluator ainvoke
  ask_failing = rw (attached, runs, node_failing) refl

  -- An attached evaluator that raises leaves no evaluation, is told to the listener as "No
  -- evaluating agent is attached", and the AI_EVALUATION_UNAVAILABLE record is not made: the whole of
  -- step 9 is the event that starts the stage and the one that skips it.
  pub failing_evaluator_reported_absent :
      (w : World)
      → (ask_evaluator s listener tx evidence >>= record_evaluation listener tx) w
        ≡ (emit listener Stage.context StageStatus.started ""
              >> emit listener Stage.context StageStatus.skipped "No evaluating agent is attached")
            w
  unfolding record_evaluation pure ◌>>=◌
  failing_evaluator_reported_absent w = rw ask_failing (
      bind_assoc (emit listener Stage.context StageStatus.started "") (λ _. pure none)
        (record_evaluation listener tx) w)
