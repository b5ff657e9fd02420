-- ===== src/Agent.antt =====
-- src/zonegate/agent: the two advisory agents and their one-node graphs.
--
-- The language model is a parameter: what it answers to a prompt, which holds exactly the arguments
-- given here, or the text of the exception that its client raised.
pub mod Evaluating
pub mod Allowed
pub mod Ollama
pub mod Retries
use zonegate_backend.Domain.{
  TransactionRequest, EvidencePlan, CanonicalEvidence, ContextEvaluation, EvidenceKind,
}
use zonegate_backend.Prelude.{Option, Result, String, List, some, err, ok, none}
use zonegate_backend.Prelude.Text.{◌<>◌}

-- evidence_planner.py
pub record EvidencePlanner : Type 0 where
  pub generate : TransactionRequest → String → List EvidenceKind → Result String EvidencePlan

-- `EvidencePlanner.plan`; an error carries the text of the `EvidencePlanningError`.
unfoldable pub plan :
    EvidencePlanner → TransactionRequest → String → List EvidenceKind → Result String EvidencePlan
plan planner tx workflow_name allowed_optional =
    elim (planner.generate tx workflow_name allowed_optional) [
      | ok p ↦ ok p
      | err text ↦ err ("AI evidence planning failed: " <> text)
    ]

-- The entries of `AgentState` that a planning node writes.
pub record PlanState : Type 0 where
  pub evidence_plan : Option EvidencePlan
  pub error : Option String

-- `plan_node` of graph.py: a failure is an entry of the state.
unfoldable pub plan_node :
    EvidencePlanner → TransactionRequest → String → List EvidenceKind → PlanState
unfolding plan
plan_node planner tx workflow_name allowed = elim (plan planner tx workflow_name allowed) [
  | ok p ↦ record { evidence_plan = some p; error = none }
  | err text ↦ record { evidence_plan = none; error = some text }
]

-- `ContextEvaluator`: what its `evaluate` gives. Evaluating builds one from the model and the tools.
pub record ContextEvaluator : Type 0 where
  pub evaluate : TransactionRequest → CanonicalEvidence → Result String ContextEvaluation

pub record ContextState : Type 0 where
  pub context_evaluation : Option ContextEvaluation
  pub error : Option String

-- `evaluate_node` of graph.py, on a state that holds the evidence or not.
unfoldable pub evaluate_node :
    ContextEvaluator → TransactionRequest → Option CanonicalEvidence → ContextState
evaluate_node evaluator tx none = record {
  context_evaluation = none;
  error = some "Cannot evaluate context without canonical evidence";
}
evaluate_node evaluator tx (some evidence) = elim (evaluator.evaluate tx evidence) [
  | ok e ↦ record { context_evaluation = some e; error = none }
  | err text ↦ record { context_evaluation = none; error = some text }
]

-- A compiled graph of one node, as the graph library runs it: `ainvoke` gives the node's entries, or
-- raises with a text of its own.
pub record Graph (State : Type 0) : Type 0 where
  pub node : State
  pub fault : Option String

unfoldable pub ainvoke : {State : Type 0} → Graph State → Result String State
ainvoke g = elim g.fault [ some text ↦ err text | none ↦ ok g.node ]
