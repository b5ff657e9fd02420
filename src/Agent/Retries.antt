-- ===== src/Agent/Retries.antt =====
-- The retry loop of agent/ollama.py.
use zonegate_backend.Agent.Ollama.{
  OllamaServer, read_chat, attempt_all, OllamaError, ChatReply, is_falsy, finished, ChatMessage,
  unreachable, other_failure, bad_status, Attempt, bad_json, chat_body, ended, read_content,
  malformed, timed_out, generate_structured, feedback,
}
use zonegate_backend.Nokia.Json.{Json}
use zonegate_backend.Prelude.{
  Result, String, ◌≡◌, ℕ, ok, Option, ◌≤◌, List, false, arith, suc, ◌∙◌, ap, Result-cases,
  ok-injective, inr, inl, Bool-cases, zero, ◌++◌, none, refl,
}

module _ {A : Type 0} (o : OllamaServer) (validate : Json → Result String A) where
  -- The value was validated.
  abbrev pub IsValidated : A → Type 0
  IsValidated a = (content : Json) × (validate content ≡ ok a) × (is_falsy o content ≡ false)

  finished_valid :
      (before : Option Json) (reply : ChatReply) (a : A)
      → read_chat o validate before reply ≡ finished a
      → IsValidated a
  unfolding read_chat
  finished_valid before timed_out a h = absurd (cc h)
  finished_valid before (unreachable e) a h = absurd (cc h)
  finished_valid before (other_failure e) a h = absurd (cc h)
  finished_valid before (bad_status e) a h = absurd (cc h)
  finished_valid before (bad_json e) a h = absurd (cc h)
  finished_valid before (chat_body j) a h = elim (Result-cases (read_content o j)) [
    | inr (e, q) ↦ absurd (ground (arith, q, h))
    | inl (content, q) ↦ elim (Bool-cases (is_falsy o content)) [
      | inl falsy ↦ absurd (ground (arith, q, falsy, h))
      | inr filled ↦ elim (Result-cases (validate content)) [
        | inr (e, r) ↦ absurd (ground (arith, q, filled, r, h))
        | inl (b, r) ↦ (content, ground (arith, q, filled, r, h), filled)
      ]
    ]
  ]

  pub record IsBounded (room : ℕ) (run : ℕ × Result OllamaError A) : Type 0 where
    pub bounded : run.0 ≤ room
    pub valid : (a : A) → run.1 ≡ ok a → IsValidated a

  round-IsBounded :
      (room attempts : ℕ) (before : Option Json) (last_err : String) (messages : List ChatMessage)
      (tried : Attempt A)
      → read_chat o validate before (o.post messages) ≡ tried
      → ((content : Option Json) (e : String)
          → IsBounded room (
              attempt_all o validate room
                (suc attempts)
                content
                e
                (messages ++ feedback o content e)))
      → IsBounded (suc room) (attempt_all o validate (suc room) attempts before last_err messages)
  unfolding attempt_all
  round-IsBounded room attempts before last_err messages (finished b) q later =
      rw (attempt_all, q)
        (record {
          bounded = omega arith;
          valid =
              λ a h. finished_valid before (o.post messages) a (q ∙ ap finished (ok-injective h));
        })
  round-IsBounded room attempts before last_err messages (ended e) q later =
      rw (attempt_all, q) (record { bounded = omega arith; valid = λ a h. absurd (cc h) })
  round-IsBounded room attempts before last_err messages (malformed content e) q later =
      let rest = later content e in
      rw (attempt_all, q) (record { bounded = omega (arith, rest.bounded); valid = rest.valid })

  attempt-IsBounded :
      (room attempts : ℕ) (before : Option Json) (last_err : String) (messages : List ChatMessage)
      → IsBounded room (attempt_all o validate room attempts before last_err messages)
  unfolding attempt_all
  attempt-IsBounded zero attempts before last_err messages = record {
    bounded = omega arith;
    valid = λ a h. absurd (cc h);
  }
  attempt-IsBounded (suc room) attempts before last_err messages =
      round-IsBounded room attempts before last_err messages _ refl
        λ content e. attempt-IsBounded room (suc attempts) content e _

  -- Whatever the server answers, one call sends at most one request more than it has retries, and a
  -- value that it returns is what the schema's validation made of a content that was not empty.
  pub generate-IsBounded :
      (max_retries : ℕ) (prompt system_instruction : String)
      → IsBounded
          (suc max_retries)
          (generate_structured o validate max_retries prompt system_instruction)
  unfolding generate_structured
  generate-IsBounded max_retries prompt system_instruction =
      attempt-IsBounded (suc max_retries) 0 none "None" _
