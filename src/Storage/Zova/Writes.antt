-- ===== src/Storage/Zova/Writes.antt =====
-- That each write of storage/zova.py makes the database hold the tables with that write.
use zonegate_backend.Storage.{with_decision, with_receipt, with_token, to_front}
use zonegate_backend.Storage.Zova.Database.{Kv, put_in, drop_from}
use zonegate_backend.Storage.Zova.Represents.{
  Decodes, Slot, AreRoundTrips, HoldsTable-put, HoldsTable-drop,
}
use zonegate_backend.Storage.Zova.{Codecs}
use zonegate_backend.Runtime.{Tables}
use zonegate_backend.Domain.{
  OperatorCredential, Receipt, TransactionRequest, PolicyDecision, ConsoleSession, Actor,
  DeviceBinding, CanonicalEvidence, ContextEvaluation, ValidatedEvidencePlan,
}
use zonegate_backend.Authorization.Token.{ScopedAuthorizationToken}
use zonegate_backend.Prelude.{String, erase, some, update, refl}
use zonegate_backend.Domain.PolicyConfig.{PolicyConfig}

module _ {B : Type 0} (codecs : Codecs B) (rt : AreRoundTrips codecs) (v : Kv B) (t : Tables)
    (holds : Decodes codecs v t) where
  pub actor-written :
      (a : Actor)
      → Decodes codecs
          (put_in
            (put_in v "actors" a.actor_id (codecs.actor.encode a))
            "indexes"
            "actors"
            (codecs.ids.encode (to_front a.actor_id t.actor_ids)))
          (record t {
            actors = update t.actors a.actor_id a;
            actor_ids = to_front a.actor_id t.actor_ids;
          })
  actor-written a Slot.actors =
      HoldsTable-put codecs.actor rt.actor (v "actors") t.actors a.actor_id a (holds Slot.actors)
  actor-written a Slot.actor_ids = rw (rt.ids (to_front a.actor_id t.actor_ids)) refl
  actor-written a slot = holds slot

  pub binding-written :
      (a : DeviceBinding)
      → Decodes codecs
          (put_in v "device_bindings" a.actor_id (codecs.binding.encode a))
          (record t { bindings = update t.bindings a.actor_id a })
  binding-written a Slot.bindings =
      HoldsTable-put codecs.binding rt.binding (v "device_bindings") t.bindings a.actor_id a
        (holds Slot.bindings)
  binding-written a slot = holds slot

  pub credential-written :
      (a : OperatorCredential)
      → Decodes codecs
          (put_in v "console_credentials" a.actor_id (codecs.credential.encode a))
          (record t { credentials = update t.credentials a.actor_id a })
  credential-written a Slot.credentials =
      HoldsTable-put codecs.credential rt.credential (v "console_credentials") t.credentials
        a.actor_id a (holds Slot.credentials)
  credential-written a slot = holds slot

  pub session-written :
      (a : ConsoleSession)
      → Decodes codecs
          (put_in v "console_sessions" a.session_id (codecs.session.encode a))
          (record t { sessions = update t.sessions a.session_id a })
  session-written a Slot.sessions =
      HoldsTable-put codecs.session rt.session (v "console_sessions") t.sessions a.session_id a
        (holds Slot.sessions)
  session-written a slot = holds slot

  pub session-dropped :
      (id : String)
      → Decodes codecs
          (drop_from v "console_sessions" id)
          (record t { sessions = erase t.sessions id })
  session-dropped id Slot.sessions =
      HoldsTable-drop codecs.session (v "console_sessions") t.sessions id (holds Slot.sessions)
  session-dropped id slot = holds slot

  pub config-written :
      (c : PolicyConfig)
      → Decodes codecs
          (put_in v "indexes" "policy_config" (codecs.config.encode c))
          (record t { policy_config = some c })
  config-written c Slot.policy_config = rt.config c
  config-written c slot = holds slot

  pub transaction-written :
      (a : TransactionRequest)
      → Decodes codecs
          (put_in v "transactions" a.transaction_id (codecs.transaction.encode a))
          (record t { transactions = update t.transactions a.transaction_id a })
  transaction-written a Slot.transactions =
      HoldsTable-put codecs.transaction rt.transaction (v "transactions") t.transactions
        a.transaction_id a (holds Slot.transactions)
  transaction-written a slot = holds slot

  pub plan-written :
      (id : String) (a : ValidatedEvidencePlan)
      → Decodes codecs
          (put_in v "evidence_plans" id (codecs.plan.encode a))
          (record t { plans = update t.plans id a })
  plan-written id a Slot.plans =
      HoldsTable-put codecs.plan rt.plan (v "evidence_plans") t.plans id a (holds Slot.plans)
  plan-written id a slot = holds slot

  pub evidence-written :
      (id : String) (a : CanonicalEvidence)
      → Decodes codecs
          (put_in v "evidence" id (codecs.evidence.encode a))
          (record t { evidence = update t.evidence id a })
  evidence-written id a Slot.evidence =
      HoldsTable-put codecs.evidence rt.evidence (v "evidence") t.evidence id a
        (holds Slot.evidence)
  evidence-written id a slot = holds slot

  pub evaluation-written :
      (id : String) (a : ContextEvaluation)
      → Decodes codecs
          (put_in v "context_evaluations" id (codecs.evaluation.encode a))
          (record t { evaluations = update t.evaluations id a })
  evaluation-written id a Slot.evaluations =
      HoldsTable-put codecs.evaluation rt.evaluation (v "context_evaluations") t.evaluations id a
        (holds Slot.evaluations)
  evaluation-written id a slot = holds slot

  pub decision-written :
      (d : PolicyDecision)
      → Decodes codecs
          (put_in
            (put_in
              (put_in v "decisions" d.decision_id (codecs.decision.encode d))
              "decision_tx_index"
              d.transaction_id
              (codecs.utf8.encode d.decision_id))
            "indexes"
            "decisions"
            (codecs.ids.encode (to_front d.decision_id t.decision_ids)))
          (with_decision d t)
  unfolding with_decision
  decision-written d Slot.decisions =
      HoldsTable-put codecs.decision rt.decision (v "decisions") t.decisions d.decision_id d
        (holds Slot.decisions)
  decision-written d Slot.decision_tx_index =
      HoldsTable-put codecs.utf8 rt.utf8 (v "decision_tx_index") t.decision_tx_index
        d.transaction_id d.decision_id (holds Slot.decision_tx_index)
  decision-written d Slot.decision_ids = rw (rt.ids (to_front d.decision_id t.decision_ids)) refl
  decision-written d slot = holds slot

  pub receipt-written :
      (r : Receipt)
      → Decodes codecs
          (put_in
            (put_in v "receipts" r.receipt_id (codecs.receipt.encode r))
            "receipt_tx_index"
            r.transaction_id
            (codecs.utf8.encode r.receipt_id))
          (with_receipt r t)
  unfolding with_receipt
  receipt-written r Slot.receipts =
      HoldsTable-put codecs.receipt rt.receipt (v "receipts") t.receipts r.receipt_id r
        (holds Slot.receipts)
  receipt-written r Slot.receipt_tx_index =
      HoldsTable-put codecs.utf8 rt.utf8 (v "receipt_tx_index") t.receipt_tx_index r.transaction_id
        r.receipt_id (holds Slot.receipt_tx_index)
  receipt-written r slot = holds slot

  pub token-written :
      (x : ScopedAuthorizationToken)
      → Decodes codecs
          (put_in
            (put_in v "tokens" x.token_id (codecs.token.encode x))
            "token_sig_index"
            x.signature
            (codecs.utf8.encode x.token_id))
          (with_token x t)
  unfolding with_token
  token-written x Slot.tokens =
      HoldsTable-put codecs.token rt.token (v "tokens") t.tokens x.token_id x (holds Slot.tokens)
  token-written x Slot.token_sig_index =
      HoldsTable-put codecs.utf8 rt.utf8 (v "token_sig_index") t.token_sig_index x.signature
        x.token_id (holds Slot.token_sig_index)
  token-written x slot = holds slot
