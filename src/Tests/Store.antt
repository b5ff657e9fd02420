-- ===== src/Tests/Store.antt =====
-- storage/zova.py on a database in memory.
use zonegate_backend.Tests.Memory.{
  blobs, memory, memory_views, memory_laws, blobs_round_trip, Memory, fault,
}
use zonegate_backend.Tests.Fixtures.{enrolled, no_table, world_of}
use zonegate_backend.Tests.Holds.{held}
use zonegate_backend.Storage.Zova.{
  ◌>>=◌, get_record, read_ids, give, parse, transaction, get_indexed,
}
use zonegate_backend.Storage.Zova.Methods.{
  save_decision_sync, get_decision_sync, get_decision_by_tx_sync,
}
use zonegate_backend.Storage.Zova.Represents.{Decodes, Slot}
use zonegate_backend.Storage.Zova.Simulation.{Represents}
use zonegate_backend.Storage.Zova.Refinement.{IsFaithful, store_refines, decision_read_back}
use zonegate_backend.Prelude.{◌≡◌, false, [], List, none, ◌∷◌, Option, refl, Bool, ok, true, some}
use zonegate_backend.Runtime.{Tables}
use zonegate_backend.Domain.{PolicyDecision}

store_refines_example : IsFaithful memory_views blobs
store_refines_example = store_refines memory_views memory_laws blobs blobs_round_trip

abbrev blank : Tables
blank = record enrolled { actors = no_table; actor_ids = []; bindings = no_table }

abbrev fresh_memory : List Bool → Memory
fresh_memory faults = record {
  faults = faults;
  inside = false;
  saved = λ ns k. none;
  values = λ ns k. none;
}

blank_decoded : Decodes blobs (λ ns k. none) blank
blank_decoded Slot.actor_ids = refl
blank_decoded Slot.decision_ids = refl
blank_decoded Slot.policy_config = refl
blank_decoded Slot.actors = λ k. refl
blank_decoded slot = λ k. refl

blank_held : Represents memory_views blobs (fresh_memory []) (world_of blank).tables
blank_held = record {
  values = λ ns k. none;
  outside = record { transaction = refl; saved = refl; read = refl };
  holds = blank_decoded;
}

saved_test : (save_decision_sync memory blobs held (fresh_memory [])).0 ≡ ok tt
unfolding save_decision_sync read_ids get_record ◌>>=◌ transaction give parse fault
saved_test = refl

read_test :
    (get_decision_sync memory blobs "dec_9"
      (save_decision_sync memory blobs held (fresh_memory [])).1).0
    ≡ ok (some held)
unfolding save_decision_sync read_ids get_record ◌>>=◌ transaction give parse fault
    get_decision_sync
read_test = refl

read_by_transaction_test :
    (get_decision_by_tx_sync memory blobs "tx_1"
      (save_decision_sync memory blobs held (fresh_memory [])).1).0
    ≡ ok (some held)
unfolding save_decision_sync read_ids get_record ◌>>=◌ transaction give parse fault
    get_decision_by_tx_sync get_indexed
read_by_transaction_test = refl

-- The third write of the transaction fails: nothing of it stays.
rolled_back_test :
    (save_decision_sync memory blobs held
        (fresh_memory (false ∷ false ∷ false ∷ false ∷ true ∷ []))).1.values
      "decisions" "dec_9"
    ≡ none
unfolding save_decision_sync read_ids get_record ◌>>=◌ transaction give parse fault
rolled_back_test = refl

decision_read_back_example :
    (◌≡◌ {A = Option PolicyDecision} (some held) (some held))
    × (◌≡◌ {A = Option PolicyDecision} (some held) (some held))
decision_read_back_example =
    decision_read_back memory_views memory_laws blobs blobs_round_trip held (fresh_memory [])
      (world_of blank) (some held) (some held) blank_held saved_test read_test
      read_by_transaction_test
