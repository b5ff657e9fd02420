-- ===== src/Storage/Zova/Represents.antt =====
-- When the key-value database of storage/zova.py holds given tables.
use zonegate_backend.Storage.Zova.Database.{Kv}
use zonegate_backend.Prelude.{
  ◌==◌, String, List, Option, ◌≡◌, Table, some, none, get_or, if◌then◌else◌, update, Bool-cases,
  erase, [], inl, inr, refl,
}
use zonegate_backend.Runtime.{Tables}
use zonegate_backend.Storage.Zova.{Codecs, Codec}
use zonegate_backend.Domain.PolicyConfig.{PolicyConfig}

-- What a JSON record is read back as: `none` if it does not decode.
abbrev pub fetch : {B A : Type 0} → Codec B A → Option B → Option (Option A)
fetch c none = some none
fetch c (some raw) = elim (c.decode raw) [ none ↦ none | some a ↦ some (some a) ]

abbrev pub fetch_ids : {B : Type 0} → Codec B (List String) → Option B → Option (List String)
fetch_ids c raw = elim (fetch c raw) [ none ↦ none | some ids ↦ some (get_or ids []) ]

abbrev pub fetch_config : {B : Type 0} → Codec B PolicyConfig → Option B → Option PolicyConfig
fetch_config c none = none
fetch_config c (some raw) = c.decode raw

-- Writing a record as JSON and reading it gives the record.
abbrev pub RoundTrips : {B A : Type 0} → Codec B A → Type 0
RoundTrips {A} c = (a : A) → c.decode (c.encode a) ≡ some a

pub record AreRoundTrips {B : Type 0} (codecs : Codecs B) : Type 0 where
  pub utf8 : RoundTrips codecs.utf8
  pub actor : RoundTrips codecs.actor
  pub binding : RoundTrips codecs.binding
  pub credential : RoundTrips codecs.credential
  pub session : RoundTrips codecs.session
  pub config : RoundTrips codecs.config
  pub transaction : RoundTrips codecs.transaction
  pub plan : RoundTrips codecs.plan
  pub evidence : RoundTrips codecs.evidence
  pub evaluation : RoundTrips codecs.evaluation
  pub decision : RoundTrips codecs.decision
  pub receipt : RoundTrips codecs.receipt
  pub token : RoundTrips codecs.token
  pub ids : RoundTrips codecs.ids

-- A namespace holds a table.
abbrev pub HoldsTable : {B A : Type 0} → Codec B A → (String → Option B) → Table A → Type 0
HoldsTable c values table = (k : String) → fetch c (values k) ≡ some (table k)

-- The tables and indexes.
pub data Slot : Type 0 where
  actors actor_ids bindings credentials sessions policy_config transactions plans evidence
        evaluations decisions decision_tx_index decision_ids receipts receipt_tx_index tokens
        token_sig_index :
      Slot

-- What the database holds for each of them.
abbrev pub HoldsSlot : {B : Type 0} → Codecs B → Kv B → Tables → Slot → Type 0
HoldsSlot codecs v t Slot.actors = HoldsTable codecs.actor (v "actors") t.actors
HoldsSlot codecs v t Slot.actor_ids = fetch_ids codecs.ids (v "indexes" "actors") ≡ some t.actor_ids
HoldsSlot codecs v t Slot.bindings = HoldsTable codecs.binding (v "device_bindings") t.bindings
HoldsSlot codecs v t Slot.credentials =
    HoldsTable codecs.credential (v "console_credentials") t.credentials
HoldsSlot codecs v t Slot.sessions = HoldsTable codecs.session (v "console_sessions") t.sessions
HoldsSlot codecs v t Slot.policy_config =
    fetch_config codecs.config (v "indexes" "policy_config") ≡ t.policy_config
HoldsSlot codecs v t Slot.transactions =
    HoldsTable codecs.transaction (v "transactions") t.transactions
HoldsSlot codecs v t Slot.plans = HoldsTable codecs.plan (v "evidence_plans") t.plans
HoldsSlot codecs v t Slot.evidence = HoldsTable codecs.evidence (v "evidence") t.evidence
HoldsSlot codecs v t Slot.evaluations =
    HoldsTable codecs.evaluation (v "context_evaluations") t.evaluations
HoldsSlot codecs v t Slot.decisions = HoldsTable codecs.decision (v "decisions") t.decisions
HoldsSlot codecs v t Slot.decision_tx_index =
    HoldsTable codecs.utf8 (v "decision_tx_index") t.decision_tx_index
HoldsSlot codecs v t Slot.decision_ids =
    fetch_ids codecs.ids (v "indexes" "decisions") ≡ some t.decision_ids
HoldsSlot codecs v t Slot.receipts = HoldsTable codecs.receipt (v "receipts") t.receipts
HoldsSlot codecs v t Slot.receipt_tx_index =
    HoldsTable codecs.utf8 (v "receipt_tx_index") t.receipt_tx_index
HoldsSlot codecs v t Slot.tokens = HoldsTable codecs.token (v "tokens") t.tokens
HoldsSlot codecs v t Slot.token_sig_index =
    HoldsTable codecs.utf8 (v "token_sig_index") t.token_sig_index

abbrev pub Decodes : {B : Type 0} → Codecs B → Kv B → Tables → Type 0
Decodes codecs v t = (slot : Slot) → HoldsSlot codecs v t slot

module _ {B A : Type 0} (c : Codec B A) (rt : RoundTrips c) where
  pub HoldsTable-put :
      (values : String → Option B) (table : Table A) (key : String) (a : A)
      → HoldsTable c values table
      → HoldsTable c (λ k. if key == k then some (c.encode a) else values k) (update table key a)
  HoldsTable-put values table key a h k = elim (Bool-cases (key == k)) [
    | inl same ↦ rw (same, rt a) refl
    | inr other ↦ rw other (h k)
  ]

pub HoldsTable-drop :
    {B A : Type 0} (c : Codec B A) (values : String → Option B) (table : Table A) (key : String)
    → HoldsTable c values table
    → HoldsTable c (λ k. if key == k then none else values k) (erase table key)
HoldsTable-drop c values table key h k = elim (Bool-cases (key == k)) [
  | inl same ↦ rw same refl
  | inr other ↦ rw other (h k)
]

pub record_fetched :
    {B A : Type 0} (c : Codec B A)
    → RoundTrips c
    → (a : A) → fetch c (some (c.encode a)) ≡ some (some a)
record_fetched c rt a = rw (fetch, rt a) refl
