-- ===== src/Storage/Zova/Reading.antt =====
-- That the reads of storage/zova.py give what the tables hold.
use zonegate_backend.Storage.Zova.{Zova, Codecs, read_ids, give, Codec, Op, parse}
use zonegate_backend.Storage.Zova.Represents.{Slot, fetch_config, fetch}
use zonegate_backend.Storage.Zova.Simulation.{Simulates, reading-Simulates}
use zonegate_backend.Storage.{
  get_actor, get_receipt, get_token, list_actors, get_decision, get_credential, get_policy_config,
  get_receipt_by_transaction_id, get_device_binding, get_evidence, list_decisions,
  get_console_session, get_evidence_plan, get_decision_by_transaction_id, get_transaction,
  find_token, get_context_evaluation, outcome_passes,
}
use zonegate_backend.Storage.Zova.Database.{Views, IsDatabase, Kv, At, Done}
use zonegate_backend.Storage.Zova.Methods.{
  get_decision_by_tx_sync, get_token_sync, get_receipt_sync, get_evidence_sync,
  get_context_evaluation_sync, list_actors_sync, list_decisions_sync, get_receipt_by_tx_sync,
  get_device_binding_sync, get_transaction_sync, get_decision_sync, get_actor_sync,
  get_credential_sync, get_evidence_plan_sync, get_policy_config_sync, get_session_sync,
}
use zonegate_backend.Prelude.{
  Option, String, ℕ, false, none, some, true, ◌≡◌, Option-cases, inl, inr, refl,
}
use zonegate_backend.Domain.{DecisionOutcome}
use zonegate_backend.Storage.Zova.Refines.{
  get_record-Done, Done-bind, get_indexed-Done, read_ids-Done, list_loop-Done, Done-give,
  parse-fetch,
}
use zonegate_backend.Domain.PolicyConfig.{PolicyConfig}
use zonegate_backend.Authorization.Token.{ScopedAuthorizationToken}

config_given :
    {z : Zova} {x : Views z} (c : Codec z.Bytes PolicyConfig) (raw : Option z.Bytes) (db : z.Db)
    (v : Kv z.Bytes)
    → At x db false v v
    → Done x
        (give (elim raw [ none ↦ none | some text ↦ c.decode text ]) db)
        (fetch_config c raw)
        v
        v
config_given c none db v at = Done-give none db v at
config_given c (some text) db v at = Done-give _ db v at

-- What a token's own namespace answers decides whether the index is asked.
token_given :
    {z : Zova} {x : Views z} (c : Codec z.Bytes ScopedAuthorizationToken) (raw : Option z.Bytes)
    (indexed : Op z.Db (Option ScopedAuthorizationToken))
    (o other : Option ScopedAuthorizationToken) (db : z.Db) (v : Kv z.Bytes)
    → At x db false v v
    → fetch c raw ≡ some o
    → Done x (indexed db) other v v
    → (let answer : Op z.Db (Option ScopedAuthorizationToken) = elim raw [
      | none ↦ indexed
      | some text ↦ parse c (some text)
    ] in
        let found : Option ScopedAuthorizationToken = elim o [
          | some token ↦ some token
          | none ↦ other
        ] in
        Done x (answer db) found v v)
token_given c none indexed none other db v at h rest = rest
token_given c none indexed (some a) other db v at h rest = absurd (cc h)
token_given c (some text) indexed (some a) other db v at h rest =
    rw (parse-fetch c (some text) (some a) db h) (Done.done refl at)
token_given c (some text) indexed none other db v at h rest = elim (Option-cases (c.decode text)) [
  | inl e ↦ absurd (cc (rw (e, fetch) at h))
  | inr (a, e) ↦ absurd (cc (rw (e, fetch) at h))
]

module _ {z : Zova} (x : Views z) (laws : IsDatabase x) (codecs : Codecs z.Bytes) where
  pub get_actor-Simulates :
      (id : String) → Simulates x codecs (get_actor_sync z codecs id) (get_actor id)
  unfolding get_actor_sync get_actor
  get_actor-Simulates id = reading-Simulates x codecs _ _ λ db v t at holds.
      get_record-Done laws codecs.actor "actors" id db v (t.actors id) at (holds Slot.actors id)

  pub get_device_binding-Simulates :
      (id : String)
      → Simulates x codecs (get_device_binding_sync z codecs id) (get_device_binding id)
  unfolding get_device_binding_sync get_device_binding
  get_device_binding-Simulates id = reading-Simulates x codecs _ _ λ db v t at holds.
      get_record-Done laws codecs.binding "device_bindings" id db v (t.bindings id) at
        (holds Slot.bindings id)

  pub get_credential-Simulates :
      (id : String) → Simulates x codecs (get_credential_sync z codecs id) (get_credential id)
  unfolding get_credential_sync get_credential
  get_credential-Simulates id = reading-Simulates x codecs _ _ λ db v t at holds.
      get_record-Done laws codecs.credential "console_credentials" id db v (t.credentials id) at
        (holds Slot.credentials id)

  pub get_console_session-Simulates :
      (id : String) → Simulates x codecs (get_session_sync z codecs id) (get_console_session id)
  unfolding get_session_sync get_console_session
  get_console_session-Simulates id = reading-Simulates x codecs _ _ λ db v t at holds.
      get_record-Done laws codecs.session "console_sessions" id db v (t.sessions id) at
        (holds Slot.sessions id)

  pub get_transaction-Simulates :
      (id : String) → Simulates x codecs (get_transaction_sync z codecs id) (get_transaction id)
  unfolding get_transaction_sync get_transaction
  get_transaction-Simulates id = reading-Simulates x codecs _ _ λ db v t at holds.
      get_record-Done laws codecs.transaction "transactions" id db v (t.transactions id) at
        (holds Slot.transactions id)

  pub get_evidence_plan-Simulates :
      (id : String) → Simulates x codecs (get_evidence_plan_sync z codecs id) (get_evidence_plan id)
  unfolding get_evidence_plan_sync get_evidence_plan
  get_evidence_plan-Simulates id = reading-Simulates x codecs _ _ λ db v t at holds.
      get_record-Done laws codecs.plan "evidence_plans" id db v (t.plans id) at
        (holds Slot.plans id)

  pub get_evidence-Simulates :
      (id : String) → Simulates x codecs (get_evidence_sync z codecs id) (get_evidence id)
  unfolding get_evidence_sync get_evidence
  get_evidence-Simulates id = reading-Simulates x codecs _ _ λ db v t at holds.
      get_record-Done laws codecs.evidence "evidence" id db v (t.evidence id) at
        (holds Slot.evidence id)

  pub get_context_evaluation-Simulates :
      (id : String)
      → Simulates x codecs (get_context_evaluation_sync z codecs id) (get_context_evaluation id)
  unfolding get_context_evaluation_sync get_context_evaluation
  get_context_evaluation-Simulates id = reading-Simulates x codecs _ _ λ db v t at holds.
      get_record-Done laws codecs.evaluation "context_evaluations" id db v (t.evaluations id) at
        (holds Slot.evaluations id)

  pub get_decision-Simulates :
      (id : String) → Simulates x codecs (get_decision_sync z codecs id) (get_decision id)
  unfolding get_decision_sync get_decision
  get_decision-Simulates id = reading-Simulates x codecs _ _ λ db v t at holds.
      get_record-Done laws codecs.decision "decisions" id db v (t.decisions id) at
        (holds Slot.decisions id)

  pub get_receipt-Simulates :
      (id : String) → Simulates x codecs (get_receipt_sync z codecs id) (get_receipt id)
  unfolding get_receipt_sync get_receipt
  get_receipt-Simulates id = reading-Simulates x codecs _ _ λ db v t at holds.
      get_record-Done laws codecs.receipt "receipts" id db v (t.receipts id) at
        (holds Slot.receipts id)

  pub get_policy_config-Simulates :
      Simulates x codecs (get_policy_config_sync z codecs) get_policy_config
  unfolding get_policy_config_sync get_policy_config
  get_policy_config-Simulates = reading-Simulates x codecs _ _ λ db v t at holds.
      rw (← holds Slot.policy_config) (
        Done-bind (z.kv_get "indexes" "policy_config") _ db (v "indexes" "policy_config") _ v v
          (laws.get "indexes" "policy_config" db v at)
          λ later at'. config_given codecs.config (v "indexes" "policy_config") later v at')

  pub list_actors-Simulates :
      (limit : ℕ) → Simulates x codecs (list_actors_sync z codecs limit) (list_actors limit)
  unfolding list_actors_sync list_actors
  list_actors-Simulates limit = reading-Simulates x codecs _ _ λ db v t at holds.
      Done-bind (read_ids z codecs "actors") _ db t.actor_ids _ v v
        (read_ids-Done laws codecs "actors" db v t.actor_ids at (holds Slot.actor_ids))
        λ later at'.
          list_loop-Done laws codecs.actor "actors" (λ _. true) limit t.actor_ids later v t.actors
            at' (holds Slot.actors)

  pub list_decisions-Simulates :
      (outcome : Option DecisionOutcome) (limit : ℕ)
      → Simulates x codecs
          (list_decisions_sync z codecs outcome limit)
          (list_decisions outcome limit)
  unfolding list_decisions_sync list_decisions
  list_decisions-Simulates outcome limit = reading-Simulates x codecs _ _ λ db v t at holds.
      Done-bind (read_ids z codecs "decisions") _ db t.decision_ids _ v v
        (read_ids-Done laws codecs "decisions" db v t.decision_ids at (holds Slot.decision_ids))
        λ later at'.
          list_loop-Done laws codecs.decision "decisions" (outcome_passes outcome) limit
            t.decision_ids later v t.decisions at' (holds Slot.decisions)

  pub get_decision_by_transaction_id-Simulates :
      (id : String)
      → Simulates x codecs (get_decision_by_tx_sync z codecs id) (get_decision_by_transaction_id id)
  unfolding get_decision_by_tx_sync get_decision_by_transaction_id
  get_decision_by_transaction_id-Simulates id = reading-Simulates x codecs _ _ λ db v t at holds.
      get_indexed-Done laws codecs.utf8 codecs.decision "decision_tx_index" "decisions" id db v
        t.decision_tx_index t.decisions at (holds Slot.decision_tx_index) (holds Slot.decisions)

  pub get_receipt_by_transaction_id-Simulates :
      (id : String)
      → Simulates x codecs (get_receipt_by_tx_sync z codecs id) (get_receipt_by_transaction_id id)
  unfolding get_receipt_by_tx_sync get_receipt_by_transaction_id
  get_receipt_by_transaction_id-Simulates id = reading-Simulates x codecs _ _ λ db v t at holds.
      get_indexed-Done laws codecs.utf8 codecs.receipt "receipt_tx_index" "receipts" id db v
        t.receipt_tx_index t.receipts at (holds Slot.receipt_tx_index) (holds Slot.receipts)

  pub get_token-Simulates :
      (id : String) → Simulates x codecs (get_token_sync z codecs id) (get_token id)
  unfolding get_token_sync get_token find_token
  get_token-Simulates id = reading-Simulates x codecs _ _ λ db v t at holds.
      Done-bind (z.kv_get "tokens" id) _ db (v "tokens" id) _ v v (laws.get "tokens" id db v at)
        λ later at'.
          token_given codecs.token (v "tokens" id) _ (t.tokens id) _ later v at'
            (holds Slot.tokens id)
            (get_indexed-Done laws codecs.utf8 codecs.token "token_sig_index" "tokens" id later v
              t.token_sig_index t.tokens at' (holds Slot.token_sig_index) (holds Slot.tokens))
