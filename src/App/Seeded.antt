-- ===== src/App/Seeded.antt =====
-- What the start of app.py leaves on record.
use zonegate_backend.Runtime.{
  ◌>>=◌, ◌>>◌, Exec, Tables, World, writing, reading, pure, raise, Exception,
}
use zonegate_backend.Prelude.{
  ◌∙◌, String, ◌≡◌, Table, ok, none, some, update, Bool-cases, refl, ◌==◌, inr, inl, eq_iff, ◌≢◌,
  true, ap, arith,
}
use zonegate_backend.Domain.{Actor, OperatorCredential}
use zonegate_backend.Runtime.Binding.{bind_returns}
use zonegate_backend.Runtime.Triples.{call_cases, reading_returns}

-- Actors and credentials on record stay as they were, and nothing but actors, bindings and
-- credentials changes.
pub record IsGrown (before t : Tables) : Type 0 where
  pub actors : (id : String) (a : Actor) → before.actors id ≡ some a → t.actors id ≡ some a
  pub credentials :
      (id : String) (c : OperatorCredential)
      → before.credentials id ≡ some c
      → t.credentials id ≡ some c
  pub sessions : t.sessions ≡ before.sessions
  pub decisions : t.decisions ≡ before.decisions
  pub receipts : t.receipts ≡ before.receipts
  pub tokens : t.tokens ≡ before.tokens

pub unchanged : (t u : Tables) → u ≡ t → IsGrown t u
unchanged t u e = record {
  actors = λ id a h. rw e h;
  credentials = λ id c h. rw e h;
  sessions = rw e refl;
  decisions = rw e refl;
  receipts = rw e refl;
  tokens = rw e refl;
}

IsGrown-again : (t u v : Tables) → IsGrown t u → IsGrown u v → IsGrown t v
IsGrown-again t u v g h = record {
  actors = λ id a e. h.actors id a (g.actors id a e);
  credentials = λ id c e. h.credentials id c (g.credentials id c e);
  sessions = h.sessions ∙ g.sessions;
  decisions = h.decisions ∙ g.decisions;
  receipts = h.receipts ∙ g.receipts;
  tokens = h.tokens ∙ g.tokens;
}

other_slot :
    {A : Type 0} (table : Table A) (id other : String) (b : A)
    → table id ≡ none
    → table other ≡ some b
    → (id == other) ≢ true
other_slot table id other b free h same = absurd (cc (free, h, ap table ((eq_iff id other).0 same)))

pub added :
    {A : Type 0} (table : Table A) (id : String) (a : A)
    → table id ≡ none
    → (other : String) (b : A) → table other ≡ some b
    → update table id a other ≡ some b
added table id a free other b h = elim (Bool-cases (id == other)) [
  | inr apart ↦ rw apart h
  | inl same ↦ absurd (other_slot table id other b free h same)
]

abbrev pub HasActor : Tables → String → Type 0
HasActor t id = (a : Actor) × (t.actors id ≡ some a)

abbrev pub HasCredential : Tables → String → Type 0
HasCredential t id = (c : OperatorCredential) × (t.credentials id ≡ some c)

-- From tables with `P`, a step that returns has grown them and left `S` true of them.
pub record Grows {A : Type 0} (P : Tables → Type 0) (m : Exec A) (S : Tables → Type 0)
    : Type 0 where
  pub at :
      (w : World)
      → P w.tables
      → (a : A) → (m w).0 ≡ ok a
      → IsGrown w.tables (m w).1.tables × S (m w).1.tables

abbrev pub Anything : Tables → Type 0
Anything t = Unit {0}

module _ {P S : Tables → Type 0} where
  pub Grows-pure : ((t : Tables) → P t → S t) → Grows P (pure tt) S
  unfolding pure
  Grows-pure h = record { at = λ w p a e. (unchanged w.tables w.tables refl, h w.tables p) }

  pub Grows-writing :
      (write : Tables → Tables)
      → ((t : Tables) → P t → IsGrown t (write t) × S (write t))
      → Grows P (writing write) S
  unfolding writing
  Grows-writing write h = record {
    at = λ w p a e. elim (call_cases (λ t. tt) write w) [
      | inl (faults, q) ↦ absurd (ground (arith, q))
      | inr (faults, q) ↦ rw q (h w.tables p)
    ];
  }

  -- A step that leaves the tables.
  pub Grows-quiet :
      {A B : Type 0} (m : Exec A) (f : A → Exec B)
      → ((w : World) → (m w).1.tables ≡ w.tables)
      → ((a : A) → Grows P (f a) S)
      → Grows P (m >>= f) S
  Grows-quiet m f quiet h = record {
    at = λ w p b e.
        let (a, _, q) = bind_returns m f w b e in
        let (grown, left) = (h a).at (m w).1 (rw (quiet w) p) b (rw q at e) in
        (rw q (IsGrown-again _ _ _ (unchanged w.tables (m w).1.tables (quiet w)) grown), rw q left);
  }

  pub Grows-reading :
      {A B : Type 0} (read : Tables → A) (f : A → Exec B)
      → ((a : A) → Grows (λ t. read t ≡ a) (f a) S)
      → Grows P (reading read >>= f) S
  Grows-reading read f h = record {
    at = λ w p b e.
        let (faults, q) = reading_returns read f w b e in
        rw q ((h (read w.tables)).at (record w { faults = faults }) refl b (rw q at e));
  }

pub Grows-then :
    {P S T : Tables → Type 0} (m k : Exec (Unit {0}))
    → ((t u : Tables) → IsGrown t u → S t → S u)
    → Grows P m S
    → Grows Anything k T
    → Grows P (m >> k) (λ t. S t × T t)
Grows-then m k persists first second = record {
  at = λ w p b e.
      let (a, returned, q) = bind_returns m (λ _. k) w b e in
      let (grown, s) = first.at w p a returned in
      let (grown', t) = second.at (m w).1 tt b (rw q at e) in
      (rw q (IsGrown-again _ _ _ grown grown'), rw q (persists _ _ grown' s, t));
}

pub Grows-weaken :
    {A : Type 0} {P S T : Tables → Type 0} {m : Exec A}
    → ((t : Tables) → S t → T t)
    → Grows P m S
    → Grows P m T
Grows-weaken weaker h = record {
  at = λ w p a e. let (grown, s) = h.at w p a e in (grown, weaker _ s);
}

pub Grows-raise : {A : Type 0} {P S : Tables → Type 0} (e : Exception) → Grows P (raise {A = A} e) S
unfolding raise
Grows-raise e = record { at = λ w p a h. cc }
