-- ===== src/Storage/Zova/Writing.antt =====
-- That the writes of storage/zova.py write what the tables say, or raise and write nothing.
use zonegate_backend.Storage.Zova.{Zova, Codecs, put_record, read_ids}
use zonegate_backend.Storage.Zova.Represents.{Slot, AreRoundTrips}
use zonegate_backend.Storage.Zova.Simulation.{Simulates, writing-Simulates}
use zonegate_backend.Storage.{
  save_device_binding, save_evidence, save_policy_config, save_evidence_plan,
  save_context_evaluation, save_console_session, save_credential, save_actor, save_decision,
  save_transaction, delete_console_session, save_receipt,
}
use zonegate_backend.Storage.{save_token}
use zonegate_backend.Storage.Zova.Database.{Views, IsDatabase}
use zonegate_backend.Storage.Zova.Methods.{
  save_policy_config_sync, save_receipt_sync, save_actor_sync, save_session_sync,
  save_credential_sync, save_transaction_sync, save_evidence_sync, delete_session_sync,
  save_token_sync, save_context_evaluation_sync, save_decision_sync, save_device_binding_sync,
  save_evidence_plan_sync,
}
use zonegate_backend.Authorization.Token.{ScopedAuthorizationToken}
use zonegate_backend.Domain.{
  Actor, PolicyDecision, Receipt, ContextEvaluation, DeviceBinding, CanonicalEvidence,
  OperatorCredential, ConsoleSession, ValidatedEvidencePlan, TransactionRequest,
}
use zonegate_backend.Domain.PolicyConfig.{PolicyConfig}
use zonegate_backend.Prelude.{String}
use zonegate_backend.Storage.Zova.Writes.{
  config-written, actor-written, receipt-written, token-written, session-dropped, decision-written,
  plan-written, binding-written, evidence-written, session-written, evaluation-written,
  transaction-written, credential-written,
}
use zonegate_backend.Storage.Zova.Refines.{Done-bind, read_ids-Done}
use zonegate_backend.Storage.Zova.Transactions.{transaction-Done, Written-then}

module _ {z : Zova} (x : Views z) (laws : IsDatabase x) (codecs : Codecs z.Bytes)
    (rt : AreRoundTrips codecs) where
  pub save_device_binding-Simulates :
      (a : DeviceBinding)
      → Simulates x codecs (save_device_binding_sync z codecs a) (save_device_binding a)
  unfolding save_device_binding_sync save_device_binding put_record
  save_device_binding-Simulates a = writing-Simulates x codecs _ _ λ db v t at holds. (
    _,
    binding-written codecs rt v t holds a,
    transaction-Done laws _ db v _ at (λ later at'.
        laws.put "device_bindings" a.actor_id (codecs.binding.encode a) later v v at'),
  )

  pub save_credential-Simulates :
      (a : OperatorCredential)
      → Simulates x codecs (save_credential_sync z codecs a) (save_credential a)
  unfolding save_credential_sync save_credential put_record
  save_credential-Simulates a = writing-Simulates x codecs _ _ λ db v t at holds. (
    _,
    credential-written codecs rt v t holds a,
    transaction-Done laws _ db v _ at (λ later at'.
        laws.put "console_credentials" a.actor_id (codecs.credential.encode a) later v v at'),
  )

  pub save_console_session-Simulates :
      (a : ConsoleSession)
      → Simulates x codecs (save_session_sync z codecs a) (save_console_session a)
  unfolding save_session_sync save_console_session put_record
  save_console_session-Simulates a = writing-Simulates x codecs _ _ λ db v t at holds. (
    _,
    session-written codecs rt v t holds a,
    transaction-Done laws _ db v _ at (λ later at'.
        laws.put "console_sessions" a.session_id (codecs.session.encode a) later v v at'),
  )

  pub save_transaction-Simulates :
      (a : TransactionRequest)
      → Simulates x codecs (save_transaction_sync z codecs a) (save_transaction a)
  unfolding save_transaction_sync save_transaction put_record
  save_transaction-Simulates a = writing-Simulates x codecs _ _ λ db v t at holds. (
    _,
    transaction-written codecs rt v t holds a,
    transaction-Done laws _ db v _ at (λ later at'.
        laws.put "transactions" a.transaction_id (codecs.transaction.encode a) later v v at'),
  )

  pub save_evidence_plan-Simulates :
      (id : String) (a : ValidatedEvidencePlan)
      → Simulates x codecs (save_evidence_plan_sync z codecs id a) (save_evidence_plan id a)
  unfolding save_evidence_plan_sync save_evidence_plan put_record
  save_evidence_plan-Simulates id a = writing-Simulates x codecs _ _ λ db v t at holds. (
    _,
    plan-written codecs rt v t holds id a,
    transaction-Done laws _ db v _ at
        (λ later at'. laws.put "evidence_plans" id (codecs.plan.encode a) later v v at'),
  )

  pub save_evidence-Simulates :
      (id : String) (a : CanonicalEvidence)
      → Simulates x codecs (save_evidence_sync z codecs id a) (save_evidence id a)
  unfolding save_evidence_sync save_evidence put_record
  save_evidence-Simulates id a = writing-Simulates x codecs _ _ λ db v t at holds. (
    _,
    evidence-written codecs rt v t holds id a,
    transaction-Done laws _ db v _ at
        (λ later at'. laws.put "evidence" id (codecs.evidence.encode a) later v v at'),
  )

  pub save_context_evaluation-Simulates :
      (id : String) (a : ContextEvaluation)
      → Simulates x codecs
          (save_context_evaluation_sync z codecs id a)
          (save_context_evaluation id a)
  unfolding save_context_evaluation_sync save_context_evaluation put_record
  save_context_evaluation-Simulates id a = writing-Simulates x codecs _ _ λ db v t at holds. (
    _,
    evaluation-written codecs rt v t holds id a,
    transaction-Done laws _ db v _ at
        (λ later at'. laws.put "context_evaluations" id (codecs.evaluation.encode a) later v v at'),
  )

  pub delete_console_session-Simulates :
      (id : String)
      → Simulates x codecs (delete_session_sync z codecs id) (delete_console_session id)
  unfolding delete_session_sync delete_console_session
  delete_console_session-Simulates id = writing-Simulates x codecs _ _ λ db v t at holds. (
    _,
    session-dropped codecs rt v t holds id,
    transaction-Done laws _ db v _ at
        (λ later at'. laws.delete "console_sessions" id later v v at'),
  )

  pub save_policy_config-Simulates :
      (c : PolicyConfig)
      → Simulates x codecs (save_policy_config_sync z codecs c) (save_policy_config c)
  unfolding save_policy_config_sync save_policy_config
  save_policy_config-Simulates c = writing-Simulates x codecs _ _ λ db v t at holds. (
    _,
    config-written codecs rt v t holds c,
    laws.put_alone "indexes" "policy_config" (codecs.config.encode c) db v at,
  )

  pub save_receipt-Simulates :
      (r : Receipt) → Simulates x codecs (save_receipt_sync z codecs r) (save_receipt r)
  unfolding save_receipt_sync save_receipt
  save_receipt-Simulates r = writing-Simulates x codecs _ _ λ db v t at holds. (
    _,
    receipt-written codecs rt v t holds r,
    transaction-Done laws _ db v _ at λ later at'.
        Written-then _ _ later v _ _ (laws.put "receipts" r.receipt_id _ later v v at')
          λ later at'. laws.put "receipt_tx_index" r.transaction_id _ later v _ at',
  )

  pub save_token-Simulates :
      (token : ScopedAuthorizationToken)
      → Simulates x codecs (save_token_sync z codecs token) (save_token token)
  unfolding save_token_sync save_token
  save_token-Simulates token = writing-Simulates x codecs _ _ λ db v t at holds. (
    _,
    token-written codecs rt v t holds token,
    transaction-Done laws _ db v _ at λ later at'.
        Written-then _ _ later v _ _ (laws.put "tokens" token.token_id _ later v v at')
          λ later at'. laws.put "token_sig_index" token.signature _ later v _ at',
  )

  pub save_actor-Simulates :
      (a : Actor) → Simulates x codecs (save_actor_sync z codecs a) (save_actor a)
  unfolding save_actor_sync save_actor
  save_actor-Simulates a = writing-Simulates x codecs _ _ λ db v t at holds. (
    _,
    actor-written codecs rt v t holds a,
    Done-bind (read_ids z codecs "actors") _ db t.actor_ids tt v _
        (read_ids-Done laws codecs "actors" db v t.actor_ids at (holds Slot.actor_ids))
        λ later at'. transaction-Done laws _ later v _ at' λ later at'.
          Written-then _ _ later v _ _ (laws.put "actors" a.actor_id _ later v v at')
            λ later at'. laws.put "indexes" "actors" _ later v _ at',
  )

  pub save_decision-Simulates :
      (d : PolicyDecision) → Simulates x codecs (save_decision_sync z codecs d) (save_decision d)
  unfolding save_decision_sync save_decision
  save_decision-Simulates d = writing-Simulates x codecs _ _ λ db v t at holds. (
    _,
    decision-written codecs rt v t holds d,
    Done-bind (read_ids z codecs "decisions") _ db t.decision_ids tt v _
        (read_ids-Done laws codecs "decisions" db v t.decision_ids at (holds Slot.decision_ids))
        λ later at'. transaction-Done laws _ later v _ at' λ later at'.
          Written-then _ _ later v _ _ (laws.put "decisions" d.decision_id _ later v v at')
            λ later at'.
              Written-then _ _ later v _ _
                (laws.put "decision_tx_index" d.transaction_id _ later v _ at')
                λ later at'. laws.put "indexes" "decisions" _ later v _ at',
  )
