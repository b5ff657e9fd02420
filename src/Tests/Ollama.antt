-- ===== src/Tests/Ollama.antt =====
-- agent/ollama.py with a server that answers well once it has been told what was wrong.
use zonegate_backend.Prelude.{◌∷◌, []}
use zonegate_backend.Nokia.Json.{Json, object, type_name, member, text, no_members, get_member}
use zonegate_backend.Prelude.{String, List, Result, ◌==◌, ℕ, if◌then◌else◌, ok, err, ◌≡◌, refl}
use zonegate_backend.Agent.Ollama.{
  OllamaServer, generate_structured, ChatMessage, attempt_all, read_chat, ChatReply, read_content,
  get_value, is_falsy, feedback, chat_body,
}
use zonegate_backend.Agent.Retries.{IsBounded, generate-IsBounded}

abbrev content_body : String → Json
content_body s =
    object (member "message" (object (member "content" (text s) no_members)) no_members)

unfoldable told : List ChatMessage → ChatReply
told (first ∷ second ∷ []) = chat_body (content_body "oops")
told _ = chat_body (content_body "{}")

abbrev server : OllamaServer
server = record {
  post = told;
  show = type_name;
  is_zero = λ n. n == "0";
  no_get = type_name;
  timeout_message = "Ollama timed out";
}

abbrev accepts : Json → Result String ℕ
accepts (text s) = if s == "{}" then ok 7 else err "not an object"
accepts _ = err "not a text"

retried_test : generate_structured server accepts 1 "prompt" "be brief" ≡ (2, ok 7)
unfolding generate_structured attempt_all read_chat read_content get_value get_member is_falsy
    feedback told
retried_test = refl

generate-IsBounded_example :
    IsBounded server accepts 2 (generate_structured server accepts 1 "prompt" "be brief")
generate-IsBounded_example = generate-IsBounded server accepts 1 "prompt" "be brief"
