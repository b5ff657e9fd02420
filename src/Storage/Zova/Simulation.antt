-- ===== src/Storage/Zova/Simulation.antt =====
-- What it is for a method of storage/zova.py on the database to do what the method on tables says.
use zonegate_backend.Prelude.{ok, err, ◌≡◌, refl}
use zonegate_backend.Runtime.{World, Tables, Exec, reading, writing, call, Exception}
use zonegate_backend.Storage.Zova.{Zova, Codecs, Op}
use zonegate_backend.Storage.Zova.Database.{Views, At, Done, Kv}
use zonegate_backend.Storage.Zova.Represents.{Decodes}
use zonegate_backend.Prelude.{Bool, false, Result, ◌∷◌, String, true}

-- The world in which the next database call fails, or does not.
abbrev pub failing : Bool → World → World
failing fault w = record w { faults = fault ∷ w.faults }

-- Both raise, or both return the same.
abbrev pub SameAnswer : {A : Type 0} → Result String A → Result Exception A → Type 0
SameAnswer (ok a) (ok b) = a ≡ b
SameAnswer (err e) (err e') = Unit
SameAnswer _ _ = ⊥

module _ {z : Zova} (x : Views z) (codecs : Codecs z.Bytes) where
  -- The database holds the tables, and no transaction is open.
  pub record Represents (db : z.Db) (t : Tables) : Type 0 where
    pub values : Kv z.Bytes
    pub outside : At x db false values values
    pub holds : Decodes codecs values t

  -- From a database that holds the tables, the method on the database answers as the method on
  -- tables does with some outcome of its database call, and leaves a database that holds the tables
  -- which that one leaves.
  pub record Simulates {A : Type 0} (m : Op z.Db A) (k : Exec A) : Type 0 where
    pub at :
        (db : z.Db) (w : World)
        → Represents db w.tables
        → (fault : Bool) × Represents (m db).1 (k (failing fault w)).1.tables
          × SameAnswer (m db).0 (k (failing fault w)).0

  call_simulated :
      {A : Type 0} (answer : Result String A × z.Db) (read : Tables → A) (write : Tables → Tables)
      (w : World) (v v' : Kv z.Bytes)
      → Decodes codecs v w.tables
      → Decodes codecs v' (write w.tables)
      → Done x answer (read w.tables) v v'
      → (fault : Bool) × Represents answer.1 (call read write (failing fault w)).1.tables
        × SameAnswer answer.0 (call read write (failing fault w)).0
  unfolding call
  call_simulated answer read write w v v' holds holds' (Done.raised e q at) =
      (true, record { values = v; outside = at; holds = holds }, rw q tt)
  call_simulated answer read write w v v' holds holds' (Done.done q at) =
      (false, record { values = v'; outside = at; holds = holds' }, rw q refl)

  pub reading-Simulates :
      {A : Type 0} (m : Op z.Db A) (read : Tables → A)
      → ((db : z.Db) (v : Kv z.Bytes) (t : Tables)
          → At x db false v v
          → Decodes codecs v t
          → Done x (m db) (read t) v v)
      → Simulates m (reading read)
  unfolding reading
  reading-Simulates m read h = record {
    at = λ db w r.
        call_simulated (m db) read (λ t. t) w r.values r.values r.holds r.holds
          (h db r.values w.tables r.outside r.holds);
  }

  pub writing-Simulates :
      (m : Op z.Db (Unit {0})) (write : Tables → Tables)
      → ((db : z.Db) (v : Kv z.Bytes) (t : Tables)
          → At x db false v v
          → Decodes codecs v t
          → (v' : Kv z.Bytes) × Decodes codecs v' (write t) × Done x (m db) tt v v')
      → Simulates m (writing write)
  unfolding writing
  writing-Simulates m write h = record {
    at = λ db w r.
        let (v', holds', ended) = h db r.values w.tables r.outside r.holds in
        call_simulated (m db) (λ t. tt) write w r.values v' r.holds holds' ended;
  }
