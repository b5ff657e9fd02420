-- ===== src/Agent/Evaluating.antt =====
-- agent/context_evaluator.py: the evaluator with its tool step.
--
-- The language model is a parameter: what it selects and what it concludes from what the two prompts
-- hold, or the text of the exception that its client raised. The graph passes no enterprise context.
use zonegate_backend.Nokia.Mcp.{
  list_mcp_tools, call_mcp_tool, ListedTool, NokiaMcpClient, McpError, unauthorized_tool,
  nokia_mcp_error,
}
use zonegate_backend.Prelude.{
  Option, String, Bool, List, if◌then◌else◌, Result, map, err, [], some, none, ok, ◌∷◌,
}
use zonegate_backend.Domain.{TransactionRequest, CanonicalEvidence, ContextEvaluation}
use zonegate_backend.Nokia.Json.{Members}
use zonegate_backend.Policy.{truthy}
use zonegate_backend.Agent.{ContextEvaluator}
use zonegate_backend.Prelude.Text.{◌<>◌}

pub record ToolSelection : Type 0 where
  pub call_tool : Bool
  pub tool_name : Option String
  pub arguments : Members
  pub rationale : Option String

-- The dict that `_query_mcp_tools` returns.
pub data Findings : Type 0 where
  tool_result : String → Members → String → Findings
  rejected_by_allowlist : String → String → Findings
  tool_failed : String → Findings

-- `tools_summary`
unfoldable pub tools_summary : List ListedTool → List (String × String)
tools_summary tools = map (λ t. (t.name, t.description)) tools

pub record EvaluatorModel : Type 0 where
  pub select :
      TransactionRequest → CanonicalEvidence → List (String × String) → Result String ToolSelection
  pub assess :
      TransactionRequest → CanonicalEvidence → Option Findings → Result String ContextEvaluation

-- What a call of the tool ends with.
unfoldable pub findings_of : String → Members → Result McpError String → Findings
findings_of name arguments (ok output) = tool_result name arguments output
findings_of name arguments (err (unauthorized_tool e)) = rejected_by_allowlist name e
findings_of name arguments (err (nokia_mcp_error e)) = tool_failed e

-- The name of the tool that a selection asks for.
unfoldable pub selected_tool : ToolSelection → Option String
selected_tool selection = if selection.call_tool then truthy selection.tool_name else none

-- `_query_mcp_tools`, and the tools that a session was opened for.
unfoldable pub query_mcp_tools :
    EvaluatorModel
    → NokiaMcpClient
    → TransactionRequest
    → CanonicalEvidence
    → List ListedTool
    → List String × Option Findings
unfolding tools_summary findings_of selected_tool call_mcp_tool
query_mcp_tools model client tx evidence tools =
    elim (model.select tx evidence (tools_summary tools)) [
      | err e ↦ ([], some (tool_failed e))
      | ok selection ↦ elim (selected_tool selection) [
        | none ↦ ([], none)
        | some name ↦
            let (called, result) = call_mcp_tool client name selection.arguments in
            (called, some (findings_of name selection.arguments result))
      ]
    ]

-- Step 1 of `evaluate`: no client, a failed listing and an empty list all leave nothing.
unfoldable pub explore :
    EvaluatorModel
    → Option NokiaMcpClient
    → TransactionRequest
    → CanonicalEvidence
    → List String × Option Findings
unfolding list_mcp_tools query_mcp_tools
explore model none tx evidence = ([], none)
explore model (some client) tx evidence = elim (list_mcp_tools client) [
  | err e ↦ ([], none)
  | ok [] ↦ ([], none)
  | ok (tool ∷ tools) ↦ query_mcp_tools model client tx evidence (tool ∷ tools)
]

-- `evaluate`
unfoldable pub evaluate_context :
    EvaluatorModel
    → Option NokiaMcpClient
    → TransactionRequest
    → CanonicalEvidence
    → List String × Result String ContextEvaluation
unfolding explore
evaluate_context model client tx evidence =
    let (called, findings) = explore model client tx evidence in
    (
      called,
      elim (model.assess tx evidence findings) [
        | ok evaluation ↦ ok evaluation
        | err e ↦ err ("AI context evaluation failed: " <> e)
      ],
    )

-- The evaluator as the graph uses it.
unfoldable pub context_evaluator : EvaluatorModel → Option NokiaMcpClient → ContextEvaluator
unfolding evaluate_context
context_evaluator model client = record {
  evaluate = λ tx evidence. (evaluate_context model client tx evidence).1;
}
