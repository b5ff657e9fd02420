-- ===== src/Runtime/Idle.antt =====
-- Steps of a request that write nothing, because what they would write is on record.
use mathlib.Core.Path.{subst}
use zonegate_backend.Runtime.{continue}
use zonegate_backend.Runtime.{◌>>=◌, ◌>>◌, Tables, pure, reading, Exec, Exception, World}
use zonegate_backend.Prelude.{Result, Option, ◌≡◌, refl, some, inl, inr, ok, err, sym, ◌∙◌}
use zonegate_backend.Runtime.Triples.{call_cases}

-- From tables with `P` the step leaves them as they are, however it ends.
pub record IsIdle {A : Type 0} (P : Tables → Type 0) (m : Exec A) : Type 0 where
  pub at : (w : World) → P w.tables → (m w).1.tables ≡ w.tables

pub IsIdle-pure : {P : Tables → Type 0} → IsIdle P (pure tt)
unfolding pure
IsIdle-pure = record { at = λ w p. refl }

continue_idle :
    {A B : Type 0} {P : Tables → Type 0} (r : Result Exception A) (f : A → Exec B) (w : World)
    → ((a : A) → IsIdle P (f a))
    → P w.tables
    → (continue r f w).1.tables ≡ w.tables
continue_idle (ok a) f w h p = (h a).at w p
continue_idle (err e) f w h p = refl

pub IsIdle-then :
    {P : Tables → Type 0} (m k : Exec (Unit {0})) → IsIdle P m → IsIdle P k → IsIdle P (m >> k)
unfolding ◌>>=◌
IsIdle-then {P = P} m k first second = record {
  at = λ w p.
      continue_idle (m w).0 (λ _. k) (m w).1 (λ _. second) (subst P (sym (first.at w p)) p)
      ∙ first.at w p;
}

-- A read that finds a record, and goes on.
pub IsIdle-reading :
    {A B : Type 0} {P : Tables → Type 0} (read : Tables → Option A) (f : Option A → Exec B)
    → ((t : Tables) → P t → (a : A) × (read t ≡ some a))
    → ((a : A) → IsIdle P (f (some a)))
    → IsIdle P (reading read >>= f)
unfolding reading ◌>>=◌
IsIdle-reading read f known h = record {
  at = λ w p. elim (call_cases read (λ t. t) w) [
    | inl (faults, q) ↦ rw q refl
    | inr (faults, q) ↦
        let (a, found) = known w.tables p in
        rw (q, found) ((h a).at (record w { faults = faults }) p)
  ];
}

pub IsIdle-weaken :
    {A : Type 0} {P Q : Tables → Type 0} {m : Exec A}
    → ((t : Tables) → Q t → P t)
    → IsIdle P m
    → IsIdle Q m
IsIdle-weaken weaker h = record { at = λ w q. h.at w (weaker w.tables q) }
