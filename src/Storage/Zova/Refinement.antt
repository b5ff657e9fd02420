-- ===== src/Storage/Zova/Refinement.antt =====
-- That `ZoneGateStore` of storage/zova.py on its database is the store on tables.
use zonegate_backend.Authorization.Token.{ScopedAuthorizationToken}
use zonegate_backend.Storage.{
  get_actor, get_receipt, get_token, list_actors, save_token, save_decision, get_decision,
  get_decision_by_transaction_id, get_device_binding, with_decision, get_credential,
  get_console_session, get_transaction, get_evidence_plan, through, get_evidence,
  get_context_evaluation, get_policy_config, list_decisions, get_receipt_by_transaction_id,
  save_device_binding, save_credential, save_console_session, save_transaction, save_evidence_plan,
  save_evidence, save_context_evaluation, save_actor, delete_console_session, save_policy_config,
  save_receipt,
}
use zonegate_backend.Storage.Zova.{Zova, Codecs, Op}
use zonegate_backend.Storage.Zova.Simulation.{Simulates, Represents, failing, SameAnswer}
use zonegate_backend.Prelude.{
  ok, err, Result, String, ◌≡◌, Option, Bool, false, ok-injective, true, some, eq_refl, sym, ◌∙◌,
  refl, ℕ,
}
use zonegate_backend.Storage.Zova.Database.{Views, IsDatabase}
use zonegate_backend.Runtime.{reading, writing, call, Exception, Tables, World}
use zonegate_backend.Storage.Zova.Represents.{AreRoundTrips}
use zonegate_backend.Storage.Zova.Methods.{
  get_actor_sync, get_device_binding_sync, get_credential_sync, save_decision_sync,
  get_session_sync, get_decision_sync, get_transaction_sync, get_decision_by_tx_sync,
  get_evidence_plan_sync, get_evidence_sync, get_context_evaluation_sync, get_receipt_sync,
  get_policy_config_sync, list_actors_sync, list_decisions_sync, get_receipt_by_tx_sync,
  get_token_sync, save_device_binding_sync, save_credential_sync, save_session_sync,
  save_transaction_sync, save_evidence_plan_sync, save_evidence_sync, save_context_evaluation_sync,
  save_actor_sync, delete_session_sync, save_policy_config_sync, save_receipt_sync, save_token_sync,
}
use zonegate_backend.Storage.Zova.Reading.{
  get_actor-Simulates, get_device_binding-Simulates, get_credential-Simulates,
  get_console_session-Simulates, get_transaction-Simulates, get_evidence_plan-Simulates,
  get_evidence-Simulates, get_context_evaluation-Simulates, get_decision-Simulates,
  get_receipt-Simulates, get_policy_config-Simulates, get_decision_by_transaction_id-Simulates,
  list_actors-Simulates, list_decisions-Simulates, get_receipt_by_transaction_id-Simulates,
  get_token-Simulates,
}
use zonegate_backend.Domain.{
  PolicyDecision, DecisionOutcome, DeviceBinding, OperatorCredential, ConsoleSession,
  TransactionRequest, ValidatedEvidencePlan, CanonicalEvidence, ContextEvaluation, Actor, Receipt,
}
use zonegate_backend.Storage.Zova.Writing.{
  save_decision-Simulates, save_device_binding-Simulates, save_credential-Simulates,
  save_console_session-Simulates, save_transaction-Simulates, save_evidence_plan-Simulates,
  save_evidence-Simulates, save_context_evaluation-Simulates, save_actor-Simulates,
  delete_console_session-Simulates, save_policy_config-Simulates, save_receipt-Simulates,
  save_token-Simulates,
}
use zonegate_backend.Domain.PolicyConfig.{PolicyConfig}

-- Every method of the store does on the database what it says on tables.
pub record IsFaithful {z : Zova} (x : Views z) (codecs : Codecs z.Bytes) : Type 0 where
  pub get_actor : (id : String) → Simulates x codecs (get_actor_sync z codecs id) (get_actor id)
  pub get_device_binding :
      (id : String)
      → Simulates x codecs (get_device_binding_sync z codecs id) (get_device_binding id)
  pub get_credential :
      (id : String) → Simulates x codecs (get_credential_sync z codecs id) (get_credential id)
  pub get_console_session :
      (id : String) → Simulates x codecs (get_session_sync z codecs id) (get_console_session id)
  pub get_transaction :
      (id : String) → Simulates x codecs (get_transaction_sync z codecs id) (get_transaction id)
  pub get_evidence_plan :
      (id : String) → Simulates x codecs (get_evidence_plan_sync z codecs id) (get_evidence_plan id)
  pub get_evidence :
      (id : String) → Simulates x codecs (get_evidence_sync z codecs id) (get_evidence id)
  pub get_context_evaluation :
      (id : String)
      → Simulates x codecs (get_context_evaluation_sync z codecs id) (get_context_evaluation id)
  pub get_decision :
      (id : String) → Simulates x codecs (get_decision_sync z codecs id) (get_decision id)
  pub get_receipt :
      (id : String) → Simulates x codecs (get_receipt_sync z codecs id) (get_receipt id)
  pub get_policy_config : Simulates x codecs (get_policy_config_sync z codecs) (get_policy_config)
  pub list_actors :
      (limit : ℕ) → Simulates x codecs (list_actors_sync z codecs limit) (list_actors limit)
  pub list_decisions :
      (outcome : Option DecisionOutcome) (limit : ℕ)
      → Simulates x codecs
          (list_decisions_sync z codecs outcome limit)
          (list_decisions outcome limit)
  pub get_decision_by_transaction_id :
      (id : String)
      → Simulates x codecs (get_decision_by_tx_sync z codecs id) (get_decision_by_transaction_id id)
  pub get_receipt_by_transaction_id :
      (id : String)
      → Simulates x codecs (get_receipt_by_tx_sync z codecs id) (get_receipt_by_transaction_id id)
  pub get_token : (id : String) → Simulates x codecs (get_token_sync z codecs id) (get_token id)
  pub save_device_binding :
      (a : DeviceBinding)
      → Simulates x codecs (save_device_binding_sync z codecs a) (save_device_binding a)
  pub save_credential :
      (a : OperatorCredential)
      → Simulates x codecs (save_credential_sync z codecs a) (save_credential a)
  pub save_console_session :
      (a : ConsoleSession)
      → Simulates x codecs (save_session_sync z codecs a) (save_console_session a)
  pub save_transaction :
      (a : TransactionRequest)
      → Simulates x codecs (save_transaction_sync z codecs a) (save_transaction a)
  pub save_evidence_plan :
      (id : String) (a : ValidatedEvidencePlan)
      → Simulates x codecs (save_evidence_plan_sync z codecs id a) (save_evidence_plan id a)
  pub save_evidence :
      (id : String) (a : CanonicalEvidence)
      → Simulates x codecs (save_evidence_sync z codecs id a) (save_evidence id a)
  pub save_context_evaluation :
      (id : String) (a : ContextEvaluation)
      → Simulates x codecs
          (save_context_evaluation_sync z codecs id a)
          (save_context_evaluation id a)
  pub save_actor : (a : Actor) → Simulates x codecs (save_actor_sync z codecs a) (save_actor a)
  pub delete_console_session :
      (id : String)
      → Simulates x codecs (delete_session_sync z codecs id) (delete_console_session id)
  pub save_policy_config :
      (c : PolicyConfig)
      → Simulates x codecs (save_policy_config_sync z codecs c) (save_policy_config c)
  pub save_decision :
      (d : PolicyDecision) → Simulates x codecs (save_decision_sync z codecs d) (save_decision d)
  pub save_receipt :
      (r : Receipt) → Simulates x codecs (save_receipt_sync z codecs r) (save_receipt r)
  pub save_token :
      (x' : ScopedAuthorizationToken)
      → Simulates x codecs (save_token_sync z codecs x') (save_token x')

-- The store refines the tables: from a database that holds given tables, with no transaction open,
-- every read returns what the tables hold or raises and leaves the database as it holds them, and
-- every write leaves a database that holds the tables with the whole write, or raises, is rolled back
-- and leaves one that holds the tables as they were. It is assumed that the database keeps its
-- documented transactions, that a rollback does not fail, and that JSON reads back as it was written.
pub store_refines :
    {z : Zova} (x : Views z) (laws : IsDatabase x) (codecs : Codecs z.Bytes)
    (rt : AreRoundTrips codecs)
    → IsFaithful x codecs
store_refines x laws codecs rt = record {
  get_actor = get_actor-Simulates x laws codecs;
  get_device_binding = get_device_binding-Simulates x laws codecs;
  get_credential = get_credential-Simulates x laws codecs;
  get_console_session = get_console_session-Simulates x laws codecs;
  get_transaction = get_transaction-Simulates x laws codecs;
  get_evidence_plan = get_evidence_plan-Simulates x laws codecs;
  get_evidence = get_evidence-Simulates x laws codecs;
  get_context_evaluation = get_context_evaluation-Simulates x laws codecs;
  get_decision = get_decision-Simulates x laws codecs;
  get_receipt = get_receipt-Simulates x laws codecs;
  get_policy_config = get_policy_config-Simulates x laws codecs;
  list_actors = list_actors-Simulates x laws codecs;
  list_decisions = list_decisions-Simulates x laws codecs;
  get_decision_by_transaction_id = get_decision_by_transaction_id-Simulates x laws codecs;
  get_receipt_by_transaction_id = get_receipt_by_transaction_id-Simulates x laws codecs;
  get_token = get_token-Simulates x laws codecs;
  save_device_binding = save_device_binding-Simulates x laws codecs rt;
  save_credential = save_credential-Simulates x laws codecs rt;
  save_console_session = save_console_session-Simulates x laws codecs rt;
  save_transaction = save_transaction-Simulates x laws codecs rt;
  save_evidence_plan = save_evidence_plan-Simulates x laws codecs rt;
  save_evidence = save_evidence-Simulates x laws codecs rt;
  save_context_evaluation = save_context_evaluation-Simulates x laws codecs rt;
  save_actor = save_actor-Simulates x laws codecs rt;
  delete_console_session = delete_console_session-Simulates x laws codecs rt;
  save_policy_config = save_policy_config-Simulates x laws codecs rt;
  save_decision = save_decision-Simulates x laws codecs rt;
  save_receipt = save_receipt-Simulates x laws codecs rt;
  save_token = save_token-Simulates x laws codecs rt;
}

module _ {z : Zova} (x : Views z) (codecs : Codecs z.Bytes) where
  SameAnswer-ok :
      {A : Type 0} (r : Result String A) (s : Result Exception A) (a : A)
      → r ≡ ok a
      → SameAnswer r s
      → s ≡ ok a
  SameAnswer-ok (ok b) (ok c) a e same = cc (e, same)
  SameAnswer-ok (ok b) (err x') a e same = elim same [ ]
  SameAnswer-ok (err x') s a e same = absurd (cc e)

  reading_answer :
      {A : Type 0} (m : Op z.Db A) (read : Tables → A) (db : z.Db) (w : World) (a : A)
      → Simulates x codecs m (reading read)
      → Represents x codecs db w.tables
      → (m db).0 ≡ ok a
      → read w.tables ≡ a
  unfolding reading call
  reading_answer m read db w a h r e = given (h.at db w r)
    where
      given :
          (fault : Bool) × Represents x codecs (m db).1 (reading read (failing fault w)).1.tables
            × SameAnswer (m db).0 (reading read (failing fault w)).0
          → read w.tables ≡ a
      given (false, r', same) = ok-injective (SameAnswer-ok (m db).0 _ a e same)
      given (true, r', same) = absurd (cc (SameAnswer-ok (m db).0 _ a e same))

  writing_left :
      (m : Op z.Db (Unit {0})) (write : Tables → Tables) (db : z.Db) (w : World)
      → Simulates x codecs m (writing write)
      → Represents x codecs db w.tables
      → (m db).0 ≡ ok tt
      → Represents x codecs (m db).1 (write w.tables)
  unfolding writing call
  writing_left m write db w h r e = given (h.at db w r)
    where
      given :
          (fault : Bool) × Represents x codecs (m db).1 (writing write (failing fault w)).1.tables
            × SameAnswer (m db).0 (writing write (failing fault w)).0
          → Represents x codecs (m db).1 (write w.tables)
      given (false, r', same) = r'
      given (true, r', same) = absurd (cc (SameAnswer-ok (m db).0 _ tt e same))

module _ {z : Zova} (x : Views z) (laws : IsDatabase x) (codecs : Codecs z.Bytes)
    (rt : AreRoundTrips codecs) where
  -- What was saved is read back. From a database that holds given tables, every record of them
  -- readable, with no transaction open: once the save of a decision has returned, a read by its id
  -- that returns, and a read by its transaction that returns, give that very decision, whatever the
  -- tables held under either. It is assumed that the database keeps its documented reads,
  -- writes and transactions,
  -- that a rollback does not fail, and that JSON reads back as it was written.
  pub decision_read_back :
      (d : PolicyDecision) (db : z.Db) (w : World) (found by_transaction : Option PolicyDecision)
      → Represents x codecs db w.tables
      → (save_decision_sync z codecs d db).0 ≡ ok tt
      → (get_decision_sync z codecs d.decision_id (save_decision_sync z codecs d db).1).0 ≡ ok found
      → (get_decision_by_tx_sync z codecs d.transaction_id (save_decision_sync z codecs d db).1).0
        ≡ ok by_transaction
      → (found ≡ some d) × (by_transaction ≡ some d)
  unfolding save_decision get_decision get_decision_by_transaction_id with_decision
  decision_read_back d db w found by_transaction r saved read read' =
      let later = (save_decision_sync z codecs d db).1 in
      let after = record w { tables = with_decision d w.tables } in
      let r' =
        writing_left x codecs (save_decision_sync z codecs d) (with_decision d) db w
          (save_decision-Simulates x laws codecs rt d) r saved in
      let stored : after.tables.decisions d.decision_id ≡ some d = rw eq_refl refl in
      let own =
        reading_answer x codecs _ (λ t. t.decisions d.decision_id) later after found
          (get_decision-Simulates x laws codecs d.decision_id) r' read in
      let indexed =
        reading_answer x codecs _ (λ t. through t.decision_tx_index t.decisions d.transaction_id)
          later after by_transaction
          (get_decision_by_transaction_id-Simulates x laws codecs d.transaction_id) r' read' in
      let named : after.tables.decision_tx_index d.transaction_id ≡ some d.decision_id =
        rw eq_refl refl in
      let by_index : through after.tables.decision_tx_index after.tables.decisions d.transaction_id
          ≡ some d =
        rw (through, named) stored in
      (sym own ∙ stored, sym indexed ∙ by_index)
