-- ===== src/Storage/Zova.antt =====
-- storage/zova.py below its records: `ZoneGateStore` on the key-value database of the zova package,
-- whose calls are a parameter, with the JSON of pydantic. A key is the text that its bytes encode.
pub mod Methods
pub mod Database
pub mod Represents
pub mod Writes
pub mod Refines
pub mod Transactions
pub mod Simulation
pub mod Reading
pub mod Writing
pub mod Refinement
use zonegate_backend.Prelude.{
  Result, ok, String, Option, ℕ, none, List, some, err, Bool, ◌∷◌, true, get_or, [], suc, zero,
  false,
}
use zonegate_backend.Domain.{
  OperatorCredential, Receipt, Actor, DeviceBinding, TransactionRequest, PolicyDecision,
  ConsoleSession, CanonicalEvidence, ValidatedEvidencePlan, ContextEvaluation, DecisionOutcome,
}
use zonegate_backend.Authorization.Token.{ScopedAuthorizationToken}
use zonegate_backend.Domain.PolicyConfig.{PolicyConfig}
use zonegate_backend.Storage.{to_front, outcome_passes}

-- The calls of `zova.Database`; a call may raise.
pub record Zova : Type 1 where
  pub Db : Type 0
  pub Bytes : Type 0
  pub kv_get : String → String → Db → Result String (Option Bytes) × Db
  pub kv_put : String → String → Bytes → Db → Result String (Unit {0}) × Db
  pub kv_delete : String → String → Db → Result String (Unit {0}) × Db
  pub begin : Db → Result String (Unit {0}) × Db
  pub commit : Db → Result String (Unit {0}) × Db
  pub rollback : Db → Result String (Unit {0}) × Db

-- `model_dump_json` and `model_validate_json`, `json.dumps` and `json.loads`, each to bytes, or
-- `encode` and `decode` of a text.
pub record Codec (Bytes A : Type 0) : Type 0 where
  pub encode : A → Bytes
  pub decode : Bytes → Option A

pub record Codecs (Bytes : Type 0) : Type 0 where
  pub utf8 : Codec Bytes String
  pub actor : Codec Bytes Actor
  pub binding : Codec Bytes DeviceBinding
  pub credential : Codec Bytes OperatorCredential
  pub session : Codec Bytes ConsoleSession
  pub config : Codec Bytes PolicyConfig
  pub transaction : Codec Bytes TransactionRequest
  pub plan : Codec Bytes ValidatedEvidencePlan
  pub evidence : Codec Bytes CanonicalEvidence
  pub evaluation : Codec Bytes ContextEvaluation
  pub decision : Codec Bytes PolicyDecision
  pub receipt : Codec Bytes Receipt
  pub token : Codec Bytes ScopedAuthorizationToken
  pub ids : Codec Bytes (List String)

-- A call on a database that may raise.
abbrev pub Op : Type 0 → Type 0 → Type 0
Op S A = S → Result String A × S

infixl 10 ◌>>=◌ ◌>>◌
abbrev pub next : {S A B : Type 0} → Result String A → (A → Op S B) → Op S B
next (ok a) f s = f a s
next (err e) f s = (err e, s)

unfoldable pub ◌>>=◌ : {S A B : Type 0} → Op S A → (A → Op S B) → Op S B
◌>>=◌ m f s = let (r, s') = m s in next r f s'

abbrev pub ◌>>◌ : {S A B : Type 0} → Op S A → Op S B → Op S B
m >> k = m >>= λ _. k

unfoldable pub give : {S A : Type 0} → A → Op S A
give a s = (ok a, s)

-- A record from what `kv_get` gave: `None` for nothing, a ValidationError for what does not decode.
unfoldable pub parse : {S B A : Type 0} → Codec B A → Option B → Op S (Option A)
parse c none s = (ok none, s)
parse c (some raw) s = elim (c.decode raw) [
  | none ↦ (err "ValidationError", s)
  | some a ↦ (ok (some a), s)
]

-- `except Exception: rollback(); raise`
abbrev pub rescue : {S A : Type 0} → Op S (Unit {0}) → Result String A → Op S A
rescue undo (ok a) s = (ok a, s)
rescue undo (err e) s = (undo >>= λ _. λ s'. (err e, s')) s

module _ (z : Zova) where
  -- `begin`, and then the body and `commit` with a rollback of either.
  unfoldable pub transaction : Op z.Db (Unit {0}) → Op z.Db (Unit {0})
  transaction body = do
    z.begin
    λ db. let (r, db') = (body >> z.commit) db in rescue z.rollback r db'

  unfoldable pub get_record : {A : Type 0} → Codec z.Bytes A → String → String → Op z.Db (Option A)
  unfolding parse
  get_record c namespace key = do raw ← z.kv_get namespace key; parse c raw

  -- A transaction of one `kv_put`.
  unfoldable pub put_record :
      {A : Type 0} → Codec z.Bytes A → String → String → A → Op z.Db (Unit {0})
  unfolding transaction
  put_record c namespace key a = transaction (z.kv_put namespace key (c.encode a))

  -- The ids of an index, none if it was never written.
  unfoldable pub read_ids : Codecs z.Bytes → String → Op z.Db (List String)
  unfolding get_record
  read_ids codecs key = do ids ← get_record codecs.ids "indexes" key; give (get_or ids [])

  -- The loops of `_list_actors_sync` and `_list_decisions_sync` with `room` places left.
  unfoldable pub list_loop :
      {A : Type 0} → Codec z.Bytes A → String → (A → Bool) → ℕ → List String → Op z.Db (List A)
  unfolding get_record
  list_loop c namespace passes room [] = give []
  list_loop c namespace passes zero (x ∷ ids) = give []
  list_loop c namespace passes (suc room) (x ∷ ids) =
      let passed_over = list_loop c namespace passes (suc room) ids in
      let taken = list_loop c namespace passes room ids in
      get_record c namespace x >>= λ found. elim found [
        | none ↦ passed_over
        | some a ↦ elim (passes a) [
          | true ↦ taken >>= λ rest. give (a ∷ rest)
          | false ↦ passed_over
        ]
      ]

  -- A key of an index namespace, and the record behind the id that it holds.
  unfoldable pub get_indexed :
      {A : Type 0}
      → Codec z.Bytes String
      → Codec z.Bytes A
      → String
      → String
      → String
      → Op z.Db (Option A)
  unfolding get_record
  get_indexed utf8 c index namespace key = do
    found ← get_record utf8 index key
    elim found [ none ↦ give none | some id ↦ get_record c namespace id ]
