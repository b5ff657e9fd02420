-- ===== src/Storage/Zova/Methods.antt =====
-- The methods of `ZoneGateStore` in storage/zova.py, on the key-value database.
use zonegate_backend.Storage.Zova.{
  ◌>>=◌, ◌>>◌, Zova, Codecs, put_record, get_indexed, get_record, transaction, read_ids, Op, give,
  list_loop, parse,
}
use zonegate_backend.Prelude.{String, Option, ℕ, none, List, some, true}
use zonegate_backend.Domain.{
  OperatorCredential, Receipt, Actor, DeviceBinding, TransactionRequest, PolicyDecision,
  ConsoleSession, CanonicalEvidence, ValidatedEvidencePlan, ContextEvaluation, DecisionOutcome,
}
use zonegate_backend.Authorization.Token.{ScopedAuthorizationToken}
use zonegate_backend.Domain.PolicyConfig.{PolicyConfig}
use zonegate_backend.Storage.{to_front, outcome_passes}

module _ (z : Zova) (codecs : Codecs z.Bytes) where
  unfoldable pub get_actor_sync : String → Op z.Db (Option Actor)
  unfolding get_record
  get_actor_sync actor_id = get_record z codecs.actor "actors" actor_id

  unfoldable pub save_actor_sync : Actor → Op z.Db (Unit {0})
  unfolding read_ids transaction
  save_actor_sync actor = do
    ids ← read_ids z codecs "actors"
    transaction z (do
      z.kv_put "actors" actor.actor_id (codecs.actor.encode actor)
      z.kv_put "indexes" "actors" (codecs.ids.encode (to_front actor.actor_id ids)))

  unfoldable pub list_actors_sync : ℕ → Op z.Db (List Actor)
  unfolding read_ids list_loop
  list_actors_sync limit = do
    ids ← read_ids z codecs "actors"
    list_loop z codecs.actor "actors" (λ _. true) limit ids

  unfoldable pub get_device_binding_sync : String → Op z.Db (Option DeviceBinding)
  unfolding get_record
  get_device_binding_sync actor_id = get_record z codecs.binding "device_bindings" actor_id

  unfoldable pub save_device_binding_sync : DeviceBinding → Op z.Db (Unit {0})
  unfolding put_record
  save_device_binding_sync b = put_record z codecs.binding "device_bindings" b.actor_id b

  unfoldable pub get_credential_sync : String → Op z.Db (Option OperatorCredential)
  unfolding get_record
  get_credential_sync actor_id = get_record z codecs.credential "console_credentials" actor_id

  unfoldable pub save_credential_sync : OperatorCredential → Op z.Db (Unit {0})
  unfolding put_record
  save_credential_sync c = put_record z codecs.credential "console_credentials" c.actor_id c

  unfoldable pub get_session_sync : String → Op z.Db (Option ConsoleSession)
  unfolding get_record
  get_session_sync session_id = get_record z codecs.session "console_sessions" session_id

  unfoldable pub save_session_sync : ConsoleSession → Op z.Db (Unit {0})
  unfolding put_record
  save_session_sync s = put_record z codecs.session "console_sessions" s.session_id s

  unfoldable pub delete_session_sync : String → Op z.Db (Unit {0})
  unfolding transaction
  delete_session_sync session_id = transaction z (z.kv_delete "console_sessions" session_id)

  -- A stored configuration of another shape is ignored.
  unfoldable pub get_policy_config_sync : Op z.Db (Option PolicyConfig)
  get_policy_config_sync = do
    raw ← z.kv_get "indexes" "policy_config"
    give (elim raw [ none ↦ none | some text ↦ codecs.config.decode text ])

  -- The one write outside a transaction.
  unfoldable pub save_policy_config_sync : PolicyConfig → Op z.Db (Unit {0})
  save_policy_config_sync config = z.kv_put "indexes" "policy_config" (codecs.config.encode config)

  unfoldable pub get_transaction_sync : String → Op z.Db (Option TransactionRequest)
  unfolding get_record
  get_transaction_sync id = get_record z codecs.transaction "transactions" id

  unfoldable pub save_transaction_sync : TransactionRequest → Op z.Db (Unit {0})
  unfolding put_record
  save_transaction_sync tx = put_record z codecs.transaction "transactions" tx.transaction_id tx

  unfoldable pub get_evidence_plan_sync : String → Op z.Db (Option ValidatedEvidencePlan)
  unfolding get_record
  get_evidence_plan_sync id = get_record z codecs.plan "evidence_plans" id

  unfoldable pub save_evidence_plan_sync : String → ValidatedEvidencePlan → Op z.Db (Unit {0})
  unfolding put_record
  save_evidence_plan_sync id plan = put_record z codecs.plan "evidence_plans" id plan

  unfoldable pub get_evidence_sync : String → Op z.Db (Option CanonicalEvidence)
  unfolding get_record
  get_evidence_sync id = get_record z codecs.evidence "evidence" id

  unfoldable pub save_evidence_sync : String → CanonicalEvidence → Op z.Db (Unit {0})
  unfolding put_record
  save_evidence_sync id evidence = put_record z codecs.evidence "evidence" id evidence

  unfoldable pub get_context_evaluation_sync : String → Op z.Db (Option ContextEvaluation)
  unfolding get_record
  get_context_evaluation_sync id = get_record z codecs.evaluation "context_evaluations" id

  unfoldable pub save_context_evaluation_sync : String → ContextEvaluation → Op z.Db (Unit {0})
  unfolding put_record
  save_context_evaluation_sync id e = put_record z codecs.evaluation "context_evaluations" id e

  unfoldable pub get_decision_sync : String → Op z.Db (Option PolicyDecision)
  unfolding get_record
  get_decision_sync id = get_record z codecs.decision "decisions" id

  unfoldable pub get_decision_by_tx_sync : String → Op z.Db (Option PolicyDecision)
  unfolding get_indexed
  get_decision_by_tx_sync id =
      get_indexed z codecs.utf8 codecs.decision "decision_tx_index" "decisions" id

  unfoldable pub save_decision_sync : PolicyDecision → Op z.Db (Unit {0})
  unfolding read_ids transaction
  save_decision_sync d = do
    ids ← read_ids z codecs "decisions"
    transaction z (do
      z.kv_put "decisions" d.decision_id (codecs.decision.encode d)
      z.kv_put "decision_tx_index" d.transaction_id (codecs.utf8.encode d.decision_id)
      z.kv_put "indexes" "decisions" (codecs.ids.encode (to_front d.decision_id ids)))

  unfoldable pub list_decisions_sync : Option DecisionOutcome → ℕ → Op z.Db (List PolicyDecision)
  unfolding read_ids list_loop
  list_decisions_sync outcome limit = do
    ids ← read_ids z codecs "decisions"
    list_loop z codecs.decision "decisions" (outcome_passes outcome) limit ids

  unfoldable pub get_receipt_sync : String → Op z.Db (Option Receipt)
  unfolding get_record
  get_receipt_sync id = get_record z codecs.receipt "receipts" id

  unfoldable pub save_receipt_sync : Receipt → Op z.Db (Unit {0})
  unfolding transaction
  save_receipt_sync r = transaction z (do
    z.kv_put "receipts" r.receipt_id (codecs.receipt.encode r)
    z.kv_put "receipt_tx_index" r.transaction_id (codecs.utf8.encode r.receipt_id))

  unfoldable pub get_receipt_by_tx_sync : String → Op z.Db (Option Receipt)
  unfolding get_indexed
  get_receipt_by_tx_sync id =
      get_indexed z codecs.utf8 codecs.receipt "receipt_tx_index" "receipts" id

  -- The raw token of an identifier or, failing that, of the id that the signature index has for it.
  unfoldable pub get_token_sync : String → Op z.Db (Option ScopedAuthorizationToken)
  unfolding get_indexed parse
  get_token_sync identifier = do
    raw ← z.kv_get "tokens" identifier
    elim raw [
      | none ↦ get_indexed z codecs.utf8 codecs.token "token_sig_index" "tokens" identifier
      | some text ↦ parse codecs.token (some text)
    ]

  unfoldable pub save_token_sync : ScopedAuthorizationToken → Op z.Db (Unit {0})
  unfolding transaction
  save_token_sync token = transaction z (do
    z.kv_put "tokens" token.token_id (codecs.token.encode token)
    z.kv_put "token_sig_index" token.signature (codecs.utf8.encode token.token_id))
