-- ===== src/Runtime/Triples.antt =====
-- Reasoning about requests by what the tables hold before and after.
use mathlib.Core.Path.{subst}
use zonegate_backend.Runtime.{
  continue, Tables, call, pure, draw, ◌>>=◌, raise, reading, World, now, writing, gets, Exec,
  Exception, storage_failure,
}
use zonegate_backend.Prelude.{
  refl, Result, inl, ok-injective, ◌≡◌, List, ok, Bool, arith, err, inr, ◌⊎◌, ◌∷◌, [], true, false,
  ℕ, ◌+◌,
}

-- If `P` holds of the tables before and the call returns, then `Q` holds of its value and the tables
-- after it.
pub record Triple {A : Type 0} (P : Tables → Type 0) (m : Exec A) (Q : A → Tables → Type 0)
    : Type 0 where
  pub at : (w : World) → P w.tables → (a : A) → (m w).0 ≡ ok a → Q a (m w).1.tables

-- A database call raises and changes nothing but the schedule of failures, or reads and writes.
pub call_cases :
    {A : Type 0} (read : Tables → A) (write : Tables → Tables) (w : World)
    → ((faults : List Bool) × (call read write w
          ≡ (err storage_failure, record w { faults = faults })))
      ⊎ ((faults : List Bool) × (call read write w
            ≡ (ok (read w.tables), record w { tables = write w.tables; faults = faults })))
unfolding call
call_cases read write w = go w.faults
  where
    go :
        (faults : List Bool)
        → ((rest : List Bool) × (call read write (record w { faults = faults })
              ≡ (err storage_failure, record w { faults = rest })))
          ⊎ ((rest : List Bool) × (call read write (record w { faults = faults })
                ≡ (ok (read w.tables), record w { tables = write w.tables; faults = rest })))
    go [] = inr ([], refl)
    go (true ∷ rest) = inl (rest, refl)
    go (false ∷ rest) = inr (rest, refl)

module _ {A : Type 0} {P : Tables → Type 0} {Q : A → Tables → Type 0} where
  pub Triple-pure : (a : A) → ((t : Tables) → P t → Q a t) → Triple P (pure a) Q
  unfolding pure
  Triple-pure a h = record {
    at = λ w p b e. subst (λ x. Q x w.tables) (ok-injective e) (h w.tables p);
  }

  pub Triple-raise : (e : Exception) → Triple P (raise e) Q
  unfolding raise
  Triple-raise e = record { at = λ w p b h. cc }

  -- A call that gives a value and leaves the tables.
  pub Triple-gets :
      (f : World → A) → ((w : World) → P w.tables → Q (f w) w.tables) → Triple P (gets f) Q
  unfolding gets
  Triple-gets f h = record { at = λ w p b e. subst (λ x. Q x w.tables) (ok-injective e) (h w p) }

  pub Triple-reading :
      (read : Tables → A) → ((t : Tables) → P t → Q (read t) t) → Triple P (reading read) Q
  unfolding reading
  Triple-reading read h = record {
    at = λ w p b e. elim (call_cases read (λ t. t) w) [
      | inl (faults, q) ↦ absurd (ground (arith, q))
      | inr (faults, q) ↦ rw q (subst (λ x. Q x w.tables) (ok-injective (rw q at e)) (h w.tables p))
    ];
  }

module _ {P : Tables → Type 0} {Q : Unit {0} → Tables → Type 0} where
  pub Triple-writing :
      (write : Tables → Tables) → ((t : Tables) → P t → Q tt (write t)) → Triple P (writing write) Q
  unfolding writing
  Triple-writing write h = record {
    at = λ w p b e. elim (call_cases (λ t. tt) write w) [
      | inl (faults, q) ↦ absurd (ground (arith, q))
      | inr (faults, q) ↦ rw q (h w.tables p)
    ];
  }

module _ {P : Tables → Type 0} where
  pub Triple-now : Triple P now (λ time t. P t)
  unfolding now
  Triple-now = record { at = λ w p b e. p }

  pub Triple-draw : Triple P draw (λ id t. P t)
  unfolding draw
  Triple-draw = record { at = λ w p b e. p }

continue_at :
    {A B : Type 0} {Q : A → Tables → Type 0} {R : B → Tables → Type 0} (r : Result Exception A)
    (w : World) (f : A → Exec B)
    → ((a : A) → r ≡ ok a → Q a w.tables)
    → ((a : A) → Triple (Q a) (f a) R)
    → (b : B) → (continue r f w).0 ≡ ok b
    → R b (continue r f w).1.tables
continue_at (ok a) w f hq hf b e = (hf a).at w (hq a refl) b e
continue_at (err x) w f hq hf b e = cc

module _ {A B : Type 0} {P : Tables → Type 0} {Q : A → Tables → Type 0}
    {R : B → Tables → Type 0} where
  pub Triple-bind :
      (m : Exec A) (f : A → Exec B)
      → Triple P m Q
      → ((a : A) → Triple (Q a) (f a) R)
      → Triple P (m >>= f) R
  unfolding ◌>>=◌
  Triple-bind m f hm hf = record {
    at = λ w p b e. continue_at (m w).0 (m w).1 f (λ a h. hm.at w p a h) hf b e;
  }

-- What holds whatever came before may follow any call.
pub Triple-after :
    {A B : Type 0} {R : B → Tables → Type 0} (m : Exec A) (f : A → Exec B)
    → ((a : A) → Triple (λ t. Unit) (f a) R)
    → Triple (λ t. Unit) (m >>= f) R
Triple-after m f hf = Triple-bind {Q = λ a t. Unit} m f (record { at = λ w p a e. tt }) hf

pub Triple-weaken :
    {A : Type 0} {P : Tables → Type 0} {Q R : A → Tables → Type 0} (m : Exec A)
    → ((a : A) (t : Tables) → Q a t → R a t)
    → Triple P m Q
    → Triple P m R
Triple-weaken m h k = record { at = λ w p a e. h a (m w).1.tables (k.at w p a e) }

-- A fact that is known before a call whatever the tables hold.
pub Triple-given :
    {H : Type 0} {P : Tables → Type 0} {A : Type 0} {Q : A → Tables → Type 0} (m : Exec A)
    → (H → Triple P m Q)
    → Triple (λ t. H × P t) m Q
Triple-given m h = record { at = λ w (known, p) a e. (h known).at w p a e }

-- What needs no assumption on the tables holds under any.
pub Triple-any :
    {P : Tables → Type 0} {A : Type 0} {Q : A → Tables → Type 0} {m : Exec A}
    → Triple (λ t. Unit) m Q
    → Triple P m Q
Triple-any h = record { at = λ w p a e. h.at w tt a e }

-- The request raises and leaves the tables.
pub record Refuses {A : Type 0} (m : Exec A) (w : World) : Type 0 where
  pub error : Exception
  pub raised : (m w).0 ≡ err error
  pub unchanged : (m w).1.tables ≡ w.tables

pub Refuses-raise : {A : Type 0} (e : Exception) (w : World) → Refuses (raise {A = A} e) w
unfolding raise
Refuses-raise e w = record { error = e; raised = refl; unchanged = refl }

pub Refuses-after :
    {A B : Type 0} (read : Tables → A) (f : A → Exec B) (w : World)
    → ((later : World) → Refuses (f (read w.tables)) later)
    → Refuses (reading read >>= f) w
unfolding reading ◌>>=◌
Refuses-after read f w h = elim (call_cases read (λ t. t) w) [
  | inl (faults, q) ↦ record { error = storage_failure; raised = rw q refl; unchanged = rw q refl }
  | inr (faults, q) ↦
      let r = h (record w { faults = faults }) in
      record { error = r.error; raised = rw q r.raised; unchanged = rw q r.unchanged }
]

-- A read that is followed by more and returns has given what the tables held.
pub reading_returns :
    {A B : Type 0} (read : Tables → A) (f : A → Exec B) (w : World) (b : B)
    → ((reading read >>= f) w).0 ≡ ok b
    → (faults : List Bool) × ((reading read >>= f) w
        ≡ f (read w.tables) (record w { faults = faults }))
unfolding reading ◌>>=◌
reading_returns read f w b h = elim (call_cases read (λ t. t) w) [
  | inl (faults, q) ↦ absurd (cc (rw q at h))
  | inr (faults, q) ↦ (faults, rw q refl)
]

-- While no database call fails, a read gives what the tables hold and a write changes them.
pub reading_runs :
    {A B : Type 0} (read : Tables → A) (f : A → Exec B) (w : World)
    → w.faults ≡ []
    → (reading read >>= f) w ≡ f (read w.tables) w
unfolding reading call ◌>>=◌
reading_runs read f w no_faults = rw no_faults refl

pub writing_runs :
    {B : Type 0} (write : Tables → Tables) (f : Unit {0} → Exec B) (w : World)
    → w.faults ≡ []
    → (writing write >>= f) w ≡ f tt (record w { tables = write w.tables })
unfolding writing call ◌>>=◌
writing_runs write f w no_faults = rw no_faults refl

pub now_runs :
    {B : Type 0} (f : ℕ → Exec B) (w : World)
    → (now >>= f) w ≡ f (w.clock w.ticks) (record w { ticks = w.ticks + 1 })
unfolding now ◌>>=◌
now_runs f w = refl

pub raised_runs :
    {A B : Type 0} (m : Exec A) (f : A → Exec B) (w later : World) (e : Exception)
    → m w ≡ (err e, later)
    → (m >>= f) w ≡ (err e, later)
unfolding ◌>>=◌
raised_runs m f w later e h = rw h refl

continue_assoc :
    {A B C : Type 0} (r : Result Exception A) (w : World) (f : A → Exec B) (g : B → Exec C)
    → continue (continue r f w).0 g (continue r f w).1 ≡ continue r (λ a. f a >>= g) w
unfolding ◌>>=◌
continue_assoc (ok a) w f g = refl
continue_assoc (err e) w f g = refl

pub bind_assoc :
    {A B C : Type 0} (m : Exec A) (f : A → Exec B) (g : B → Exec C) (w : World)
    → ((m >>= f) >>= g) w ≡ (m >>= λ a. f a >>= g) w
unfolding ◌>>=◌
bind_assoc m f g w = continue_assoc (m w).0 (m w).1 f g
