-- ===== src/Agent/Ollama.antt =====
-- agent/ollama.py: the client of a local language model, with its retry.
--
-- The server and pydantic are parameters. The conversation starts with the two messages of the call.
use zonegate_backend.Prelude.Text.{◌<>◌, decimal}
use zonegate_backend.Prelude.{
  List, Option, String, Bool, none, Result, true, err, ℕ, some, ◌∷◌, ok, suc, [], not, ◌++◌, get_or,
  if◌then◌else◌, zero, ◌==◌, false,
}
use zonegate_backend.Nokia.Json.{
  Json, get_member, object, no_members, boolean, text, integer, fraction, array, item, member, null,
  no_items,
}

pub record ChatMessage : Type 0 where
  pub role : String
  pub content : String

-- How a POST ends: with an `httpx.TimeoutException`, a `ConnectError`, another exception, a status
-- other than 200 with its text, a body that is not JSON, or a body.
pub data ChatReply : Type 0 where
  timed_out : ChatReply
  unreachable : String → ChatReply
  other_failure : String → ChatReply
  bad_status : String → ChatReply
  bad_json : String → ChatReply
  chat_body : Json → ChatReply

-- `show` is `str`, `is_zero` the truth of a number, and `no_get` the text of the AttributeError of a
-- value that is no dict.
pub record OllamaServer : Type 0 where
  pub post : List ChatMessage → ChatReply
  pub show : Json → String
  pub is_zero : String → Bool
  pub no_get : Json → String
  pub timeout_message : String

-- `OllamaServiceUnavailableError`, `OllamaClientError`, `OllamaStructuredOutputError` and others.
pub data OllamaError : Type 0 where
  service_unavailable : String → OllamaError
  client_error : String → OllamaError
  structured_output : String → OllamaError
  uncaught : String → OllamaError

-- `not content`
unfoldable pub is_falsy : OllamaServer → Json → Bool
is_falsy o null = true
is_falsy o (boolean b) = not b
is_falsy o (integer n) = o.is_zero n
is_falsy o (fraction x) = o.is_zero x
is_falsy o (text s) = s == ""
is_falsy o (array no_items) = true
is_falsy o (array (item j items)) = false
is_falsy o (object no_members) = true
is_falsy o (object (member k j rest)) = false

-- `value.get(key, default)`, or the AttributeError.
unfoldable pub get_value : OllamaServer → String → Json → Json → Result String Json
unfolding get_member
get_value o key default (object members) = ok (get_or (get_member key members) default)
get_value o key default j = err (o.no_get j)

-- `data.get("message", {}).get("content", "")`
unfoldable pub read_content : OllamaServer → Json → Result String Json
unfolding get_value
read_content o data_read = elim (get_value o "message" (object no_members) data_read) [
  | err e ↦ err e
  | ok message ↦ get_value o "content" (text "") message
]

-- One round of the loop: a value, an exception that ends the call, or a failed output, with what
-- `content` is by then.
pub data Attempt (A : Type 0) : Type 0 where
  finished : A → Attempt A
  ended : OllamaError → Attempt A
  malformed : Option Json → String → Attempt A

unfoldable pub read_chat :
    {A : Type 0} → OllamaServer → (Json → Result String A) → Option Json → ChatReply → Attempt A
unfolding read_content is_falsy
read_chat o validate before timed_out = ended (service_unavailable o.timeout_message)
read_chat o validate before (unreachable e) = ended (service_unavailable e)
read_chat o validate before (other_failure e) = ended (uncaught e)
read_chat o validate before (bad_status e) = ended (client_error e)
read_chat o validate before (bad_json e) = malformed before e
read_chat o validate before (chat_body j) = elim (read_content o j) [
  | err e ↦ ended (uncaught e)
  | ok content ↦
      if is_falsy o content
      then malformed (some content) "Ollama response contained empty content"
      else elim (validate content) [ err e ↦ malformed (some content) e | ok a ↦ finished a ]
]

-- The two messages that a failed output adds to the conversation.
unfoldable pub feedback : OllamaServer → Option Json → String → List ChatMessage
feedback o content e =
    record { role = "assistant"; content = elim content [ none ↦ "" | some j ↦ o.show j ] }
    ∷ record {
      role = "user";
      content =
          "The previous output failed schema validation: " <> e
          <> ". Provide ONLY valid JSON matching the schema.";
    }
    ∷ []

-- The loop with `room` rounds left, after `attempts`: how many requests it sends, and its end. What
-- the last round would add to the conversation is never sent.
unfoldable pub attempt_all :
    {A : Type 0}
    → OllamaServer
    → (Json → Result String A)
    → ℕ
    → ℕ
    → Option Json
    → String
    → List ChatMessage
    → ℕ × Result OllamaError A
unfolding read_chat feedback
attempt_all o validate zero attempts before last_err messages = (
  0,
  err (
      structured_output (
        "Failed to produce valid structured output after "
        <> decimal attempts
        <> " attempts: "
        <> last_err)),
)
attempt_all o validate (suc room) attempts before last_err messages =
    elim (read_chat o validate before (o.post messages)) [
      | finished a ↦ (1, ok a)
      | ended e ↦ (1, err e)
      | malformed content e ↦
          let (sent, result) =
            attempt_all o validate room (suc attempts) content e
              (messages ++ feedback o content e) in
          (suc sent, result)
    ]

-- `generate_structured`
unfoldable pub generate_structured :
    {A : Type 0}
    → OllamaServer
    → (Json → Result String A)
    → ℕ
    → String
    → String
    → ℕ × Result OllamaError A
unfolding attempt_all
generate_structured o validate max_retries prompt system_instruction =
    attempt_all o validate (suc max_retries) 0 none "None" (
      record { role = "system"; content = system_instruction }
      ∷ record { role = "user"; content = prompt }
      ∷ [])
