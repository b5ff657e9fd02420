-- ===== src/Storage/Zova/Refines.antt =====
-- What the building blocks of storage/zova.py do on a database whose calls may raise.
use zonegate_backend.Storage.{collect, through}
use zonegate_backend.Storage.Zova.{
  ◌>>=◌, Zova, give, parse, Op, Codec, next, get_record, get_indexed, read_ids, list_loop, Codecs,
}
use zonegate_backend.Storage.Zova.Database.{Views, IsDatabase, At, Done, Kv}
use zonegate_backend.Prelude.{
  Result, String, false, refl, Option, err, ok, ◌≡◌, some, ok-injective, Option-cases, inl, Table,
  Bool, inr, List, ℕ, ◌∷◌, none, get_or, [], suc, Bool-cases, zero,
}
use zonegate_backend.Storage.Zova.Represents.{fetch, HoldsTable, fetch_ids}

pub parse-fetch :
    {A B S : Type 0} (c : Codec B A) (raw : Option B) (o : Option A) (s : S)
    → fetch c raw ≡ some o
    → parse c raw s ≡ (ok o, s)
unfolding parse
parse-fetch c none o s h = cc
parse-fetch c (some raw) o s h = elim (Option-cases (c.decode raw)) [
  | inl e ↦ absurd (cc (rw (e, fetch) at h))
  | inr (a, e) ↦ rw (parse, e) (cc (rw (e, fetch) at h))
]

module _ {z : Zova} {x : Views z} where
  next-Done :
      {A B : Type 0} (r : Result String A) (later : z.Db) (f : A → Op z.Db B) (a : A) (b : B)
      (v v' : Kv z.Bytes)
      → Done x (r, later) a v v
      → ((db : z.Db) → At x db false v v → Done x (f a db) b v v')
      → Done x (next r f later) b v v'
  next-Done (err e) later f a b v v' (Done.raised e' q at) h = Done.raised e refl at
  next-Done (ok c) later f a b v v' (Done.done q at) h =
      let same : c ≡ a = ok-injective q in rw same (h later at)
  next-Done (err e) later f a b v v' (Done.done q at) h = absurd (cc q)
  next-Done (ok c) later f a b v v' (Done.raised e q at) h = absurd (cc q)

  -- After a call that writes nothing, the rest.
  pub Done-bind :
      {A B : Type 0} (m : Op z.Db A) (f : A → Op z.Db B) (db : z.Db) (a : A) (b : B)
      (v v' : Kv z.Bytes)
      → Done x (m db) a v v
      → ((later : z.Db) → At x later false v v → Done x (f a later) b v v')
      → Done x ((m >>= f) db) b v v'
  unfolding ◌>>=◌
  Done-bind m f db a b v v' first rest = next-Done (m db).0 (m db).1 f a b v v' first rest

  pub Done-give :
      {A : Type 0} (a : A) (db : z.Db) (v : Kv z.Bytes)
      → At x db false v v
      → Done x (give a db) a v v
  unfolding give
  Done-give a db v at = Done.done refl at

module _ {z : Zova} {x : Views z} (laws : IsDatabase x) where
  pub get_record-Done :
      {A : Type 0} (c : Codec z.Bytes A) (ns k : String) (db : z.Db) (v : Kv z.Bytes) (o : Option A)
      → At x db false v v
      → fetch c (v ns k) ≡ some o
      → Done x (get_record z c ns k db) o v v
  unfolding get_record
  get_record-Done c ns k db v o at h =
      Done-bind (z.kv_get ns k) (parse c) db (v ns k) o v v (laws.get ns k db v at)
        λ later at'. rw (parse-fetch c (v ns k) o later h) (Done.done refl at')

  pub read_ids-Done :
      (codecs : Codecs z.Bytes) (key : String) (db : z.Db) (v : Kv z.Bytes) (ids : List String)
      → At x db false v v
      → fetch_ids codecs.ids (v "indexes" key) ≡ some ids
      → Done x (read_ids z codecs key db) ids v v
  unfolding read_ids
  read_ids-Done codecs key db v ids at h =
      elim (Option-cases (fetch codecs.ids (v "indexes" key))) [
        | inl e ↦ absurd (cc (rw (e, fetch_ids) at h))
        | inr (o, e) ↦
            let is_ids : get_or o [] ≡ ids = cc (rw (e, fetch_ids) at h) in
            Done-bind (get_record z codecs.ids "indexes" key) (λ o. give (get_or o [])) db o ids v v
              (get_record-Done codecs.ids "indexes" key db v o at e)
              λ later at'. rw (← is_ids) (Done-give (get_or o []) later v at')
      ]

  pub get_indexed-Done :
      {A : Type 0} (utf8 : Codec z.Bytes String) (c : Codec z.Bytes A) (index ns key : String)
      (db : z.Db) (v : Kv z.Bytes) (ids : Table String) (table : Table A)
      → At x db false v v
      → HoldsTable utf8 (v index) ids
      → HoldsTable c (v ns) table
      → Done x (get_indexed z utf8 c index ns key db) (through ids table key) v v
  unfolding get_indexed
  get_indexed-Done utf8 c index ns key db v ids table at hi ht =
      Done-bind (get_record z utf8 index key) _ db (ids key) _ v v
        (get_record-Done utf8 index key db v (ids key) at (hi key))
        λ later at'. elim (Option-cases (ids key)) [
          | inl e ↦ rw (e, through) (Done-give none later v at')
          | inr (id, e) ↦ rw (e, through) (get_record-Done c ns id later v (table id) at' (ht id))
        ]

  pub list_loop-Done :
      {A : Type 0} (c : Codec z.Bytes A) (ns : String) (passes : A → Bool) (room : ℕ)
      (ids : List String) (db : z.Db) (v : Kv z.Bytes) (table : Table A)
      → At x db false v v
      → HoldsTable c (v ns) table
      → Done x (list_loop z c ns passes room ids db) (collect room table passes ids) v v
  unfolding list_loop collect
  list_loop-Done c ns passes room [] db v table at h = Done-give [] db v at
  list_loop-Done c ns passes zero (k ∷ ids) db v table at h = Done-give [] db v at
  list_loop-Done c ns passes (suc room) (k ∷ ids) db v table at h =
      Done-bind (get_record z c ns k) _ db (table k) _ v v
        (get_record-Done c ns k db v (table k) at (h k))
        λ later at'. elim (Option-cases (table k)) [
          | inl e ↦ rw (e, collect) (list_loop-Done c ns passes (suc room) ids later v table at' h)
          | inr (a, e) ↦ elim (Bool-cases (passes a)) [
            | inl kept ↦
                rw (e, kept, collect)
                  (Done-bind (list_loop z c ns passes room ids) _ later
                    (collect room table passes ids) _ v v
                    (list_loop-Done c ns passes room ids later v table at' h)
                    λ last at''. Done-give _ last v at'')
            | inr dropped ↦
                rw (e, dropped, collect)
                  (list_loop-Done c ns passes (suc room) ids later v table at' h)
          ]
        ]
