-- ===== src/Tests/Memory.antt =====
-- A database in memory whose calls fail on schedule, for storage/zova.py to run on.
use zonegate_backend.Domain.PolicyConfig.{PolicyConfig}
use zonegate_backend.Domain.{
  ValidatedEvidencePlan, CanonicalEvidence, ContextEvaluation, PolicyDecision, Receipt,
}
use zonegate_backend.Authorization.Token.{ScopedAuthorizationToken}
use zonegate_backend.Domain.{
  Actor, DeviceBinding, OperatorCredential, ConsoleSession, TransactionRequest,
}
use zonegate_backend.Storage.Zova.{Zova, Codecs}
use zonegate_backend.Storage.Zova.Database.{
  Kv, Views, At, IsDatabase, put_in, drop_from, Done, Written,
}
use zonegate_backend.Storage.Zova.Represents.{AreRoundTrips}
use zonegate_backend.Prelude.{
  ok, err, String, Bool-cases, List, Bool, some, [], if◌then◌else◌, true, Result, ◌∷◌, inl, false,
  none, inr, ap, refl,
}

-- Bytes that remember what they encode.
pub data Blob : Type 0 where
  text_blob : String → Blob
  actor_blob : Actor → Blob
  binding_blob : DeviceBinding → Blob
  credential_blob : OperatorCredential → Blob
  session_blob : ConsoleSession → Blob
  config_blob : PolicyConfig → Blob
  transaction_blob : TransactionRequest → Blob
  plan_blob : ValidatedEvidencePlan → Blob
  evidence_blob : CanonicalEvidence → Blob
  evaluation_blob : ContextEvaluation → Blob
  decision_blob : PolicyDecision → Blob
  receipt_blob : Receipt → Blob
  token_blob : ScopedAuthorizationToken → Blob
  ids_blob : List String → Blob

abbrev pub blobs : Codecs Blob
blobs = record {
  utf8 = record { encode = text_blob; decode = λ b. elim b [ text_blob a ↦ some a | _ ↦ none ] };
  actor = record { encode = actor_blob; decode = λ b. elim b [ actor_blob a ↦ some a | _ ↦ none ] };
  binding = record {
    encode = binding_blob;
    decode = λ b. elim b [ binding_blob a ↦ some a | _ ↦ none ];
  };
  credential = record {
    encode = credential_blob;
    decode = λ b. elim b [ credential_blob a ↦ some a | _ ↦ none ];
  };
  session = record {
    encode = session_blob;
    decode = λ b. elim b [ session_blob a ↦ some a | _ ↦ none ];
  };
  config = record {
    encode = config_blob;
    decode = λ b. elim b [ config_blob a ↦ some a | _ ↦ none ];
  };
  transaction = record {
    encode = transaction_blob;
    decode = λ b. elim b [ transaction_blob a ↦ some a | _ ↦ none ];
  };
  plan = record { encode = plan_blob; decode = λ b. elim b [ plan_blob a ↦ some a | _ ↦ none ] };
  evidence = record {
    encode = evidence_blob;
    decode = λ b. elim b [ evidence_blob a ↦ some a | _ ↦ none ];
  };
  evaluation = record {
    encode = evaluation_blob;
    decode = λ b. elim b [ evaluation_blob a ↦ some a | _ ↦ none ];
  };
  decision = record {
    encode = decision_blob;
    decode = λ b. elim b [ decision_blob a ↦ some a | _ ↦ none ];
  };
  receipt = record {
    encode = receipt_blob;
    decode = λ b. elim b [ receipt_blob a ↦ some a | _ ↦ none ];
  };
  token = record { encode = token_blob; decode = λ b. elim b [ token_blob a ↦ some a | _ ↦ none ] };
  ids = record { encode = ids_blob; decode = λ b. elim b [ ids_blob a ↦ some a | _ ↦ none ] };
}

pub blobs_round_trip : AreRoundTrips blobs
blobs_round_trip = record {
  utf8 = λ a. refl;
  actor = λ a. refl;
  binding = λ a. refl;
  credential = λ a. refl;
  session = λ a. refl;
  config = λ a. refl;
  transaction = λ a. refl;
  plan = λ a. refl;
  evidence = λ a. refl;
  evaluation = λ a. refl;
  decision = λ a. refl;
  receipt = λ a. refl;
  token = λ a. refl;
  ids = λ a. refl;
}

pub record Memory : Type 0 where
  pub faults : List Bool
  pub inside : Bool
  pub saved : Kv Blob
  pub values : Kv Blob

unfoldable pub fault : Memory → Bool
fault m = elim m.faults [ [] ↦ false | f ∷ _ ↦ f ]

abbrev later : Memory → Memory
later m = record m { faults = elim m.faults [ [] ↦ [] | _ ∷ fs ↦ fs ] }

abbrev attempt : {A : Type 0} → A → (Memory → Memory) → Memory → Result String A × Memory
attempt a change m = if fault m then (err "disk", later m) else (ok a, change (later m))

-- Outside a transaction a write is kept at once.
abbrev written : Kv Blob → Memory → Memory
written v m = record m { values = v; saved = if m.inside then m.saved else v }

abbrev pub memory : Zova
memory = record {
  Db = Memory;
  Bytes = Blob;
  kv_get = λ ns k m. attempt (m.values ns k) (λ m. m) m;
  kv_put = λ ns k raw m. attempt tt (written (put_in m.values ns k raw)) m;
  kv_delete = λ ns k m. attempt tt (written (drop_from m.values ns k)) m;
  begin = λ m. attempt tt (λ m. record m { inside = true }) m;
  commit = λ m. attempt tt (λ m. record m { inside = false; saved = m.values }) m;
  rollback = λ m. (ok tt, record m { inside = false; values = m.saved });
}

abbrev pub memory_views : Views memory
memory_views = record {
  in_transaction = λ m. m.inside;
  committed = λ m. m.saved;
  current = λ m. m.values;
}

abbrev stays :
    (m : Memory) (inside : Bool) (s v : Kv Blob)
    → At memory_views m inside s v
    → At memory_views (later m) inside s v
stays m inside s v at = record { transaction = at.transaction; saved = at.saved; read = at.read }

pub memory_laws : IsDatabase memory_views
memory_laws = record {
  get = λ ns k m v at. elim (Bool-cases (fault m)) [
    | inl f ↦ rw f (Done.raised "disk" refl (stays m false v v at))
    | inr f ↦ rw f (Done.done (ap (λ (u : Kv Blob). ok (u ns k)) at.read) (stays m false v v at))
  ];
  put = λ ns k raw m s v at. elim (Bool-cases (fault m)) [
    | inl f ↦ rw f (Written.raised "disk" v refl (stays m true s v at))
    | inr f ↦ rw f (
        Written.wrote refl (record {
          transaction = at.transaction;
          saved = rw at.transaction at.saved;
          read = ap (λ (u : Kv Blob). put_in u ns k raw) at.read;
        }))
  ];
  delete = λ ns k m s v at. elim (Bool-cases (fault m)) [
    | inl f ↦ rw f (Written.raised "disk" v refl (stays m true s v at))
    | inr f ↦ rw f (
        Written.wrote refl (record {
          transaction = at.transaction;
          saved = rw at.transaction at.saved;
          read = ap (λ (u : Kv Blob). drop_from u ns k) at.read;
        }))
  ];
  put_alone = λ ns k raw m v at. elim (Bool-cases (fault m)) [
    | inl f ↦ rw f (Done.raised "disk" refl (stays m false v v at))
    | inr f ↦ rw f (
        Done.done refl (record {
          transaction = at.transaction;
          saved = rw at.transaction (ap (λ (u : Kv Blob). put_in u ns k raw) at.read);
          read = ap (λ (u : Kv Blob). put_in u ns k raw) at.read;
        }))
  ];
  begin = λ m v at. elim (Bool-cases (fault m)) [
    | inl f ↦ rw f (inl ("disk", refl, stays m false v v at))
    | inr f ↦ rw f (inr (refl, record { transaction = refl; saved = at.saved; read = at.read }))
  ];
  commit = λ m s v at. elim (Bool-cases (fault m)) [
    | inl f ↦ rw f (inl ("disk", v, refl, stays m true s v at))
    | inr f ↦ rw f (inr (refl, record { transaction = refl; saved = at.read; read = at.read }))
  ];
  rollback = λ m s v at. (refl, record { transaction = refl; saved = at.saved; read = at.saved });
}
