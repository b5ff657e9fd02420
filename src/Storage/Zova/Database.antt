-- ===== src/Storage/Zova/Database.antt =====
-- What storage/zova.py relies on of the database of the zova package: transactions, with a rollback
-- that undoes them.
use zonegate_backend.Storage.Zova.{Zova}
use zonegate_backend.Prelude.{
  String, Result, Bool, if◌then◌else◌, Option, false, ◌≡◌, ◌==◌, true, err, ◌⊎◌, ok, none, some,
}

-- By namespace and key.
abbrev pub Kv : Type 0 → Type 0
Kv Bytes = String → String → Option Bytes

abbrev pub put_in : {B : Type 0} → Kv B → String → String → B → Kv B
put_in v namespace key raw ns k =
    if namespace == ns then (if key == k then some raw else v ns k) else v ns k

abbrev pub drop_from : {B : Type 0} → Kv B → String → String → Kv B
drop_from v namespace key ns k =
    if namespace == ns then (if key == k then none else v ns k) else v ns k

-- What is known of a database: whether a transaction is open, what a rollback would go back to, and
-- what `kv_get` reads.
pub record Views (z : Zova) : Type 0 where
  pub in_transaction : z.Db → Bool
  pub committed : z.Db → Kv z.Bytes
  pub current : z.Db → Kv z.Bytes

module _ {z : Zova} (x : Views z) where
  pub record At (db : z.Db) (inside : Bool) (committed current : Kv z.Bytes) : Type 0 where
    pub transaction : x.in_transaction db ≡ inside
    pub saved : x.committed db ≡ committed
    pub read : x.current db ≡ current

  -- A call inside a transaction: it raises, and whatever it has written can be undone, or it writes.
  pub data Written (call : Result String (Unit {0}) × z.Db) (s v' : Kv z.Bytes) : Type 0 where
    raised : (e : String) (v : Kv z.Bytes) → call.0 ≡ err e → At call.1 true s v → Written call s v'
    wrote : call.0 ≡ ok tt → At call.1 true s v' → Written call s v'

  -- A call that leaves the database outside a transaction: it raises and changes nothing, or it gives
  -- a value and leaves `v'`.
  pub data Done {A : Type 0} (call : Result String A × z.Db) (a : A) (v v' : Kv z.Bytes)
      : Type 0 where
    raised : (e : String) → call.0 ≡ err e → At call.1 false v v → Done call a v v'
    done : call.0 ≡ ok a → At call.1 false v' v' → Done call a v v'

  -- The documented behaviour of the calls. A rollback is taken not to fail.
  pub record IsDatabase : Type 0 where
    pub get :
        (ns k : String) (db : z.Db) (v : Kv z.Bytes)
        → At db false v v
        → Done (z.kv_get ns k db) (v ns k) v v
    pub put :
        (ns k : String) (raw : z.Bytes) (db : z.Db) (s v : Kv z.Bytes)
        → At db true s v
        → Written (z.kv_put ns k raw db) s (put_in v ns k raw)
    pub delete :
        (ns k : String) (db : z.Db) (s v : Kv z.Bytes)
        → At db true s v
        → Written (z.kv_delete ns k db) s (drop_from v ns k)
    pub put_alone :
        (ns k : String) (raw : z.Bytes) (db : z.Db) (v : Kv z.Bytes)
        → At db false v v
        → Done (z.kv_put ns k raw db) tt v (put_in v ns k raw)
    pub begin :
        (db : z.Db) (v : Kv z.Bytes)
        → At db false v v
        → ((e : String) × ((z.begin db).0 ≡ err e) × At (z.begin db).1 false v v)
          ⊎ (((z.begin db).0 ≡ ok tt) × At (z.begin db).1 true v v)
    pub commit :
        (db : z.Db) (s v : Kv z.Bytes)
        → At db true s v
        → ((e : String) × (v' : Kv z.Bytes) × ((z.commit db).0 ≡ err e)
            × At (z.commit db).1 true s v')
          ⊎ (((z.commit db).0 ≡ ok tt) × At (z.commit db).1 false v v)
    pub rollback :
        (db : z.Db) (s v : Kv z.Bytes)
        → At db true s v
        → ((z.rollback db).0 ≡ ok tt) × At (z.rollback db).1 false s s
