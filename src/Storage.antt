-- ===== src/Storage.antt =====
-- storage/zova.py: what `ZoneGateStore` keeps, one table or index for each namespace, and its
-- methods. A stored record is the record itself, since the JSON that the source writes reads back as
-- the record; a method's transaction makes all its writes or, if the database raises, none.
pub mod Listings
pub mod Zova
use zonegate_backend.Prelude.{
  ℕ, Table, String, Option, Bool, List, none, erase, update, true, some, ◌∷◌, [], if◌then◌else◌,
  ◌==◌, contains, suc, zero,
}
use zonegate_backend.Domain.{
  Receipt, ConsoleSession, Actor, PolicyDecision, TransactionRequest, OperatorCredential,
  DeviceBinding, DecisionOutcome, ContextEvaluation, ValidatedEvidencePlan, CanonicalEvidence,
  same_outcome,
}
use zonegate_backend.Authorization.Token.{ScopedAuthorizationToken}
use zonegate_backend.Runtime.{Exec, reading, Tables, writing}
use zonegate_backend.Domain.PolicyConfig.{PolicyConfig}

unfoldable pub get_actor : String → Exec (Option Actor)
get_actor actor_id = reading (λ t. t.actors actor_id)

-- `ids.remove(x)` where `x` is there: the first occurrence goes.
unfoldable pub remove_first : String → List String → List String
remove_first x [] = []
remove_first x (y ∷ ys) = let rest = remove_first x ys in if y == x then ys else y ∷ rest

-- An index list with `x` moved, or put, to its front.
unfoldable pub to_front : String → List String → List String
unfolding remove_first
to_front x ids = x ∷ (if contains x ids then remove_first x ids else ids)

unfoldable pub save_actor : Actor → Exec (Unit {0})
save_actor actor = writing (λ t. record t {
  actors = update t.actors actor.actor_id actor;
  actor_ids = to_front actor.actor_id t.actor_ids;
})

-- The loop of `_list_actors_sync` and `_list_decisions_sync`: with `room` places left, the records
-- behind the ids that pass, ids without a record passed over.
unfoldable pub collect : {A : Type 0} → ℕ → Table A → (A → Bool) → List String → List A
collect room table passes [] = []
collect zero table passes (x ∷ ids) = []
collect (suc room) table passes (x ∷ ids) = elim (table x) [
  | none ↦ collect (suc room) table passes ids
  | some a ↦
      let taken = collect room table passes ids in
      let passed_over = collect (suc room) table passes ids in
      if passes a then a ∷ taken else passed_over
]

unfoldable pub list_actors : ℕ → Exec (List Actor)
unfolding collect
list_actors limit = reading (λ t. collect limit t.actors (λ _. true) t.actor_ids)

unfoldable pub get_device_binding : String → Exec (Option DeviceBinding)
get_device_binding actor_id = reading (λ t. t.bindings actor_id)

unfoldable pub save_device_binding : DeviceBinding → Exec (Unit {0})
save_device_binding binding =
    writing (λ t. record t { bindings = update t.bindings binding.actor_id binding })

unfoldable pub get_credential : String → Exec (Option OperatorCredential)
get_credential actor_id = reading (λ t. t.credentials actor_id)

unfoldable pub save_credential : OperatorCredential → Exec (Unit {0})
save_credential credential =
    writing (λ t. record t { credentials = update t.credentials credential.actor_id credential })

unfoldable pub get_console_session : String → Exec (Option ConsoleSession)
get_console_session session_id = reading (λ t. t.sessions session_id)

unfoldable pub save_console_session : ConsoleSession → Exec (Unit {0})
save_console_session session =
    writing (λ t. record t { sessions = update t.sessions session.session_id session })

unfoldable pub delete_console_session : String → Exec (Unit {0})
delete_console_session session_id =
    writing (λ t. record t { sessions = erase t.sessions session_id })

unfoldable pub get_policy_config : Exec (Option PolicyConfig)
get_policy_config = reading (λ t. t.policy_config)

unfoldable pub save_policy_config : PolicyConfig → Exec (Unit {0})
save_policy_config config = writing (λ t. record t { policy_config = some config })

unfoldable pub get_transaction : String → Exec (Option TransactionRequest)
get_transaction transaction_id = reading (λ t. t.transactions transaction_id)

unfoldable pub save_transaction : TransactionRequest → Exec (Unit {0})
save_transaction tx =
    writing (λ t. record t { transactions = update t.transactions tx.transaction_id tx })

unfoldable pub get_evidence_plan : String → Exec (Option ValidatedEvidencePlan)
get_evidence_plan transaction_id = reading (λ t. t.plans transaction_id)

unfoldable pub save_evidence_plan : String → ValidatedEvidencePlan → Exec (Unit {0})
save_evidence_plan transaction_id plan =
    writing (λ t. record t { plans = update t.plans transaction_id plan })

unfoldable pub get_evidence : String → Exec (Option CanonicalEvidence)
get_evidence transaction_id = reading (λ t. t.evidence transaction_id)

unfoldable pub save_evidence : String → CanonicalEvidence → Exec (Unit {0})
save_evidence transaction_id evidence =
    writing (λ t. record t { evidence = update t.evidence transaction_id evidence })

unfoldable pub get_context_evaluation : String → Exec (Option ContextEvaluation)
get_context_evaluation transaction_id = reading (λ t. t.evaluations transaction_id)

unfoldable pub save_context_evaluation : String → ContextEvaluation → Exec (Unit {0})
save_context_evaluation transaction_id evaluation =
    writing (λ t. record t { evaluations = update t.evaluations transaction_id evaluation })

unfoldable pub get_decision : String → Exec (Option PolicyDecision)
get_decision decision_id = reading (λ t. t.decisions decision_id)

-- A key of one table looked up in another: `none` at either.
abbrev pub through : {A : Type 0} → Table String → Table A → String → Option A
through index table key = elim (index key) [ none ↦ none | some k ↦ table k ]

unfoldable pub get_decision_by_transaction_id : String → Exec (Option PolicyDecision)
get_decision_by_transaction_id transaction_id =
    reading (λ t. through t.decision_tx_index t.decisions transaction_id)

unfoldable pub with_decision : PolicyDecision → Tables → Tables
with_decision d t = record t {
  decisions = update t.decisions d.decision_id d;
  decision_tx_index = update t.decision_tx_index d.transaction_id d.decision_id;
  decision_ids = to_front d.decision_id t.decision_ids;
}

unfoldable pub save_decision : PolicyDecision → Exec (Unit {0})
unfolding with_decision
save_decision d = writing (with_decision d)

-- `outcome and decision.decision != outcome` is not the case.
unfoldable pub outcome_passes : Option DecisionOutcome → PolicyDecision → Bool
outcome_passes none d = true
outcome_passes (some outcome) d = same_outcome d.decision outcome

unfoldable pub list_decisions : Option DecisionOutcome → ℕ → Exec (List PolicyDecision)
unfolding collect outcome_passes
list_decisions outcome limit =
    reading (λ t. collect limit t.decisions (outcome_passes outcome) t.decision_ids)

unfoldable pub get_receipt : String → Exec (Option Receipt)
get_receipt receipt_id = reading (λ t. t.receipts receipt_id)

unfoldable pub with_receipt : Receipt → Tables → Tables
with_receipt r t = record t {
  receipts = update t.receipts r.receipt_id r;
  receipt_tx_index = update t.receipt_tx_index r.transaction_id r.receipt_id;
}

unfoldable pub save_receipt : Receipt → Exec (Unit {0})
unfolding with_receipt
save_receipt r = writing (with_receipt r)

unfoldable pub get_receipt_by_transaction_id : String → Exec (Option Receipt)
get_receipt_by_transaction_id transaction_id =
    reading (λ t. through t.receipt_tx_index t.receipts transaction_id)

-- A token by its id or, failing that, by its signature.
unfoldable pub find_token : String → Tables → Option ScopedAuthorizationToken
find_token identifier t = elim (t.tokens identifier) [
  | some token ↦ some token
  | none ↦ through t.token_sig_index t.tokens identifier
]

unfoldable pub get_token : String → Exec (Option ScopedAuthorizationToken)
get_token identifier = reading (find_token identifier)

unfoldable pub with_token : ScopedAuthorizationToken → Tables → Tables
with_token token t = record t {
  tokens = update t.tokens token.token_id token;
  token_sig_index = update t.token_sig_index token.signature token.token_id;
}

unfoldable pub save_token : ScopedAuthorizationToken → Exec (Unit {0})
unfolding with_token
save_token token = writing (with_token token)
