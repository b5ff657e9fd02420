-- ===== src/Agent/Allowed.antt =====
-- What the tool step of agent/context_evaluator.py may do to the carrier, and to the evaluation.
use zonegate_backend.Nokia.Mcp.{
  NokiaMcpClient, call_mcp_tool, is_tool_allowed, is_empty, ListedTool, list_mcp_tools,
}
use zonegate_backend.Prelude.{
  [], List, arith, String, length, ◌≤◌, ◌≢◌, contains, ◌≡◌, true, ◌∷◌, Bool-cases, inr, inl, refl,
  eq_iff, Option, Result, Result-cases, ok, some, Option-cases, err,
}
use zonegate_backend.Nokia.Json.{Members}
use zonegate_backend.Agent.Evaluating.{
  evaluate_context, EvaluatorModel, explore, query_mcp_tools, Findings, tools_summary,
  selected_tool,
}
use zonegate_backend.Domain.{TransactionRequest, CanonicalEvidence}

-- At most one session was opened, for a tool that is allowed.
pub record IsGated (client : NokiaMcpClient) (called : List String) : Type 0 where
  pub once : length called ≤ 1
  pub allowed :
      (name : String) → contains name called ≡ true → contains name client.static_allowlist ≡ true

no_items : {A : Type 0} (xs : List A) → is_empty xs ≡ true → xs ≡ []
unfolding is_empty
no_items [] h = refl
no_items (x ∷ xs) h = absurd (cc h)

none_called : (client : NokiaMcpClient) → IsGated client []
none_called client = record { once = omega arith; allowed = λ name h. absurd (cc h) }

listed :
    (client : NokiaMcpClient) (name : String)
    → client.static_allowlist ≢ []
    → is_tool_allowed client name ≡ true
    → contains name client.static_allowlist ≡ true
unfolding is_tool_allowed
listed client name some_listed h = elim (Bool-cases (is_empty client.static_allowlist)) [
  | inl empty ↦ absurd (some_listed (no_items client.static_allowlist empty))
  | inr filled ↦ ground (arith, filled, h)
]

one_called :
    (client : NokiaMcpClient) (name : String)
    → contains name client.static_allowlist ≡ true
    → IsGated client (name ∷ [])
one_called client name h = record {
  once = omega arith;
  allowed = λ other e. ground (arith, eq_iff name other, h, e);
}

call-IsGated :
    (client : NokiaMcpClient) (name : String) (arguments : Members)
    → client.static_allowlist ≢ []
    → IsGated client (call_mcp_tool client name arguments).0
unfolding call_mcp_tool
call-IsGated client name arguments some_listed = elim (Bool-cases (is_tool_allowed client name)) [
  | inr refused ↦ rw (call_mcp_tool, refused) (none_called client)
  | inl allowed ↦ elim (Bool-cases (is_empty client.args)) [
    | inl bare ↦ rw (call_mcp_tool, allowed, bare) (none_called client)
    | inr command ↦
        rw (call_mcp_tool, allowed, command)
          (one_called client name (listed client name some_listed allowed))
  ]
]

module _ (model : EvaluatorModel) (client : NokiaMcpClient) (tx : TransactionRequest)
    (evidence : CanonicalEvidence) (some_listed : client.static_allowlist ≢ []) where
  query-IsGated :
      (tools : List ListedTool) → IsGated client (query_mcp_tools model client tx evidence tools).0
  unfolding query_mcp_tools
  query-IsGated tools = elim (Result-cases (model.select tx evidence (tools_summary tools))) [
    | inr (e, q) ↦ rw (query_mcp_tools, q) (none_called client)
    | inl (selection, q) ↦ elim (Option-cases (selected_tool selection)) [
      | inl none_selected ↦ rw (query_mcp_tools, q, none_selected) (none_called client)
      | inr (name, chosen) ↦
          rw (query_mcp_tools, q, chosen) (call-IsGated client name selection.arguments some_listed)
    ]
  ]

  explored :
      (tools : Result String (List ListedTool))
      → list_mcp_tools client ≡ tools
      → IsGated client (explore model (some client) tx evidence).0
  unfolding explore
  explored (err e) q = rw (explore, q) (none_called client)
  explored (ok []) q = rw (explore, q) (none_called client)
  explored (ok (tool ∷ tools)) q = rw (explore, q) (query-IsGated (tool ∷ tools))

-- With an allowlist that is not empty, one evaluation opens at most one session for a tool, and for
-- one of the list, whatever the language model selects and the server offers. And it raises only if
-- the model raises when it is asked to conclude from some findings, never for the tool step.
pub evaluation-IsGated :
    (model : EvaluatorModel) (client : NokiaMcpClient) (tx : TransactionRequest)
    (evidence : CanonicalEvidence)
    → client.static_allowlist ≢ []
    → IsGated client (evaluate_context model (some client) tx evidence).0
      × ((e : String)
          → (evaluate_context model (some client) tx evidence).1 ≡ err e
          → (findings : Option Findings) × (cause : String) × (model.assess tx evidence findings
              ≡ err cause))
unfolding evaluate_context
evaluation-IsGated model client tx evidence some_listed = (
  explored model client tx evidence some_listed _ refl,
  λ e h.
      elim (Result-cases (model.assess tx evidence (explore model (some client) tx evidence).1)) [
        | inl (evaluation, q) ↦ absurd (ground (arith, q, h))
        | inr (cause, q) ↦ ((explore model (some client) tx evidence).1, cause, q)
      ],
)
