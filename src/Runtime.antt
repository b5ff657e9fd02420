-- ===== src/Runtime.antt =====
-- The state that a request runs on, and calls that read and change it and may raise.
--
-- A write that was made before an exception stays made, so the state comes back beside the error.
-- Time, fresh identifiers and the failures of the database are inputs: `clock n` is what the n-th
-- reading of the clock gives, `fresh n` the n-th random identifier, and `faults` says of the coming
-- database calls which ones raise.
pub mod Idle
pub mod Triples
pub mod Returning
pub mod Keeping
pub mod Binding
pub mod Quiet
use zonegate_backend.Prelude.{
  true, String, ℕ, Result, Table, List, [], err, ok, ◌+◌, ◌∷◌, Bool, Option, false,
}
use zonegate_backend.Domain.{
  Actor, DeviceBinding, OperatorCredential, ConsoleSession, TransactionRequest,
  ValidatedEvidencePlan, CanonicalEvidence, ContextEvaluation, PolicyDecision, Receipt,
}
use zonegate_backend.Domain.PolicyConfig.{PolicyConfig}
use zonegate_backend.Authorization.Progress.{StageEvent}
use zonegate_backend.Authorization.Token.{ScopedAuthorizationToken}

pub record Tables : Type 0 where
  pub actors : Table Actor
  pub actor_ids : List String
  pub bindings : Table DeviceBinding
  pub credentials : Table OperatorCredential
  pub sessions : Table ConsoleSession
  pub policy_config : Option PolicyConfig
  pub transactions : Table TransactionRequest
  pub plans : Table ValidatedEvidencePlan
  pub evidence : Table CanonicalEvidence
  pub evaluations : Table ContextEvaluation
  pub decisions : Table PolicyDecision
  pub decision_tx_index : Table String
  pub decision_ids : List String
  pub receipts : Table Receipt
  pub receipt_tx_index : Table String
  pub tokens : Table ScopedAuthorizationToken
  pub token_sig_index : Table String

pub record World : Type 0 where
  pub tables : Tables
  pub faults : List Bool
  pub config : PolicyConfig
  pub clock : ℕ → ℕ
  pub ticks : ℕ
  pub fresh : ℕ → String
  pub draws : ℕ
  pub events : List StageEvent

-- The exceptions that end a request.
pub data Exception : Type 0 where
  storage_failure : Exception
  listener_failure : Exception
  missing_default_zone : Exception
  decision_not_found : String → Exception
  hold_authority_error : String → Exception
  hold_resolution_error : String → Exception
  invalid_credentials : String → Exception
  console_access_denied : String → Exception
  weak_password : String → Exception
  empty_password : Exception
  -- an exception of the web framework, which answers with this status and detail
  http_exception : ℕ → String → Exception

abbrev pub Exec : Type 0 → Type 0
Exec A = World → Result Exception A × World

module _ {A : Type 0} where
  unfoldable pub pure : A → Exec A
  pure a w = (ok a, w)

  unfoldable pub raise : Exception → Exec A
  raise e w = (err e, w)

  unfoldable pub gets : (World → A) → Exec A
  gets f w = (ok (f w), w)

  -- One call of the database: it raises and changes nothing, or reads and writes the tables.
  unfoldable pub call : (Tables → A) → (Tables → Tables) → Exec A
  call read write w = elim w.faults [
    | [] ↦ (ok (read w.tables), record w { tables = write w.tables; faults = [] })
    | true ∷ rest ↦ (err storage_failure, record w { faults = rest })
    | false ∷ rest ↦ (ok (read w.tables), record w { tables = write w.tables; faults = rest })
  ]

infixl 10 ◌>>=◌ ◌>>◌
abbrev continue : {A B : Type 0} → Result Exception A → (A → Exec B) → Exec B
continue (ok a) f w = f a w
continue (err e) f w = (err e, w)

unfoldable pub ◌>>=◌ : {A B : Type 0} → Exec A → (A → Exec B) → Exec B
◌>>=◌ m f w = let (r, w') = m w in continue r f w'

abbrev pub ◌>>◌ : {A B : Type 0} → Exec A → Exec B → Exec B
m >> k = m >>= λ _. k

-- A call that reads a table, and one that writes.
unfoldable pub reading : {A : Type 0} → (Tables → A) → Exec A
unfolding call
reading read = call read (λ t. t)

unfoldable pub writing : (Tables → Tables) → Exec (Unit {0})
unfolding call
writing write = call (λ t. tt) write

-- `datetime.now(timezone.utc)`
unfoldable pub now : Exec ℕ
now w = (ok (w.clock w.ticks), record w { ticks = w.ticks + 1 })

-- `uuid.uuid4().hex`, `secrets.token_urlsafe`
unfoldable pub draw : Exec String
draw w = (ok (w.fresh w.draws), record w { draws = w.draws + 1 })

-- `policy_engine.config = config`
unfoldable pub configure : PolicyConfig → Exec (Unit {0})
configure config w = (ok tt, record w { config = config })

-- `try: m except Exception as exc: handler(exc)`
abbrev recover : {A : Type 0} → Result Exception A → (Exception → Exec A) → Exec A
recover (ok a) handler w = (ok a, w)
recover (err e) handler w = handler e w

unfoldable pub catch : {A : Type 0} → Exec A → (Exception → Exec A) → Exec A
catch m handler w = let (r, w') = m w in recover r handler w'
