-- ===== src/Runtime/Returning.antt =====
-- That a request returns, while no database call fails.
use zonegate_backend.Runtime.{
  ◌>>=◌, now, gets, pure, Exec, writing, reading, draw, call, World, Tables,
}
use zonegate_backend.Prelude.{◌≡◌, ok, [], refl}

pub record Returns {A : Type 0} (m : Exec A) (w : World) : Type 0 where
  pub answer : A
  pub returned : (m w).0 ≡ ok answer
  pub no_faults : (m w).1.faults ≡ []

-- From every world in which no database call is going to fail.
abbrev pub Runs : {A : Type 0} → Exec A → Type 0
Runs m = (w : World) → w.faults ≡ [] → Returns m w

pub Runs-pure : {A : Type 0} (a : A) → Runs (pure a)
unfolding pure
Runs-pure a w h = record { answer = a; returned = refl; no_faults = h }

pub Runs-gets : {A : Type 0} (f : World → A) → Runs (gets f)
unfolding gets
Runs-gets f w h = record { answer = f w; returned = refl; no_faults = h }

pub Runs-now : Runs now
unfolding now
Runs-now w h = record { answer = w.clock w.ticks; returned = refl; no_faults = h }

pub Runs-draw : Runs draw
unfolding draw
Runs-draw w h = record { answer = w.fresh w.draws; returned = refl; no_faults = h }

pub Runs-reading : {A : Type 0} (read : Tables → A) → Runs (reading read)
unfolding reading call
Runs-reading read w h = record {
  answer = read w.tables;
  returned = rw h refl;
  no_faults = rw h refl;
}

pub Runs-writing : (write : Tables → Tables) → Runs (writing write)
unfolding writing call
Runs-writing write w h = record { answer = tt; returned = rw h refl; no_faults = rw h refl }

pub Runs-bind :
    {A B : Type 0} {m : Exec A} {f : A → Exec B} → Runs m → ((a : A) → Runs (f a)) → Runs (m >>= f)
unfolding ◌>>=◌
Runs-bind {m} hm hf w h =
    let first = hm w h in
    let second = hf first.answer (m w).1 first.no_faults in
    record {
      answer = second.answer;
      returned = rw first.returned second.returned;
      no_faults = rw first.returned second.no_faults;
    }
