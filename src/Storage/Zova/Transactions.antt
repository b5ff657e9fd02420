-- ===== src/Storage/Zova/Transactions.antt =====
-- That a transaction of storage/zova.py writes everything or nothing.
use zonegate_backend.Storage.Zova.{◌>>=◌, ◌>>◌, Zova, transaction, Op, rescue, next}
use zonegate_backend.Storage.Zova.Database.{Views, IsDatabase, At, Done, Written, Kv}
use zonegate_backend.Prelude.{String, true, Result, ◌≡◌, false, inl, inr, err, ok, refl, ◌⊎◌}

module _ {z : Zova} {x : Views z} where
  next-Written :
      (r : Result String (Unit {0})) (later : z.Db) (m : Op z.Db (Unit {0})) (s v v' : Kv z.Bytes)
      → Written x (r, later) s v
      → ((db : z.Db) → At x db true s v → Written x (m db) s v')
      → Written x (next r (λ _. m) later) s v'
  next-Written (err e) later m s v v' (Written.raised e' u q at) h = Written.raised e u refl at
  next-Written (ok c) later m s v v' (Written.wrote q at) h = h later at
  next-Written (err e) later m s v v' (Written.wrote q at) h = absurd (cc q)
  next-Written (ok c) later m s v v' (Written.raised e u q at) h = absurd (cc q)

  -- One write after another.
  pub Written-then :
      (m k : Op z.Db (Unit {0})) (db : z.Db) (s v v' : Kv z.Bytes)
      → Written x (m db) s v
      → ((later : z.Db) → At x later true s v → Written x (k later) s v')
      → Written x ((m >> k) db) s v'
  unfolding ◌>>=◌
  Written-then m k db s v v' first rest = next-Written (m db).0 (m db).1 k s v v' first rest

-- How the writes of a transaction end with its commit.
data Committed {z : Zova} (x : Views z) (call : Result String (Unit {0}) × z.Db) (s v : Kv z.Bytes)
    : Type 0 where
  undone :
      (e : String) (u : Kv z.Bytes) → call.0 ≡ err e → At x call.1 true s u → Committed x call s v
  kept : call.0 ≡ ok tt → At x call.1 false v v → Committed x call s v

module _ {z : Zova} {x : Views z} (laws : IsDatabase x) where
  commit-Committed :
      (db : z.Db) (s v : Kv z.Bytes) → At x db true s v → Committed x (z.commit db) s v
  commit-Committed db s v at = elim (laws.commit db s v at) [
    | inl (e, u, q, at') ↦ Committed.undone e u q at'
    | inr (q, at') ↦ Committed.kept q at'
  ]

  next-Committed :
      (r : Result String (Unit {0})) (later : z.Db) (s v : Kv z.Bytes)
      → Written x (r, later) s v
      → Committed x (next r (λ _. z.commit) later) s v
  next-Committed (err e) later s v (Written.raised e' u q at) = Committed.undone e u refl at
  next-Committed (ok c) later s v (Written.wrote q at) = commit-Committed later s v at
  next-Committed (err e) later s v (Written.wrote q at) = absurd (cc q)
  next-Committed (ok c) later s v (Written.raised e u q at) = absurd (cc q)

  undo-Done :
      (e : String) (r : Result String (Unit {0})) (later : z.Db) (s v' : Kv z.Bytes)
      → r ≡ ok tt
      → At x later false s s
      → Done x {A = Unit {0}} (next r (λ _ last. (err e, last)) later) tt s v'
  undo-Done e (ok c) later s v' q at = Done.raised e refl at
  undo-Done e (err e') later s v' q at = absurd (cc q)

  rescue-Done :
      (r : Result String (Unit {0})) (later : z.Db) (s v' : Kv z.Bytes)
      → Committed x (r, later) s v'
      → Done x (rescue z.rollback r later) tt s v'
  unfolding ◌>>=◌
  rescue-Done (ok c) later s v' (Committed.kept q at) = Done.done (cc q) at
  rescue-Done (err e) later s v' (Committed.undone e' u q at) =
      let (restored, at') = laws.rollback later s u at in
      undo-Done e (z.rollback later).0 (z.rollback later).1 s v' restored at'
  rescue-Done (err e) later s v' (Committed.kept q at) = absurd (cc q)
  rescue-Done (ok c) later s v' (Committed.undone e u q at) = absurd (cc q)

  -- A transaction whose body writes `v'` leaves `v'` or raises and leaves what was there.
  pub transaction-Done :
      (body : Op z.Db (Unit {0})) (db : z.Db) (v v' : Kv z.Bytes)
      → At x db false v v
      → ((later : z.Db) → At x later true v v → Written x (body later) v v')
      → Done x (transaction z body db) tt v v'
  unfolding transaction ◌>>=◌
  transaction-Done body db v v' at h = begun (z.begin db).0 (z.begin db).1 (laws.begin db v at)
    where
      begun :
          (r : Result String (Unit {0})) (later : z.Db)
          → ((e : String) × (r ≡ err e) × At x later false v v)
            ⊎ ((r ≡ ok tt) × At x later true v v)
          → Done x
              (next r
                (λ _ db'. rescue z.rollback ((body >> z.commit) db').0 ((body >> z.commit) db').1)
                later)
              tt
              v
              v'
      begun (err e) later (inl (e', q, at')) = Done.raised e refl at'
      begun (ok c) later (inr (q, at')) =
          rescue-Done ((body >> z.commit) later).0 ((body >> z.commit) later).1 v v'
            (next-Committed (body later).0 (body later).1 v v' (h later at'))
      begun (err e) later (inr (q, at')) = absurd (cc q)
      begun (ok c) later (inl (e, q, at')) = absurd (cc q)
