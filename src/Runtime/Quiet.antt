-- ===== src/Runtime/Quiet.antt =====
-- Requests that end alike whether or not somebody listens.
use zonegate_backend.Runtime.{◌>>=◌, reading, gets, draw, writing, call, raise, pure, now, continue}
use zonegate_backend.Runtime.{World, Exec, Tables, Exception}
use zonegate_backend.Prelude.{
  Result, Bool, ◌≡◌, [], List, if◌then◌else◌, refl, true, ◌∷◌, ok, err, false,
}

-- The world without what a listener has been told.
abbrev pub quiet : World → World
quiet w = record w { events = [] }

-- Apart from what a listener is told, `m` does what `k` does.
pub record Agrees {A : Type 0} (m k : Exec A) : Type 0 where
  pub at : (w : World) → k (quiet w) ≡ ((m w).0, quiet (m w).1)

module _ {A : Type 0} where
  pub Agrees-pure : (a : A) → Agrees (pure a) (pure a)
  unfolding pure
  Agrees-pure a = record { at = λ w. refl }

  pub Agrees-raise : (e : Exception) → Agrees (raise {A = A} e) (raise e)
  unfolding raise
  Agrees-raise e = record { at = λ w. refl }

  pub Agrees-gets : (f : World → A) → ((w : World) → f (quiet w) ≡ f w) → Agrees (gets f) (gets f)
  unfolding gets
  Agrees-gets f h = record { at = λ w. rw (h w) refl }

  Agrees-call :
      (read : Tables → A) (write : Tables → Tables) → Agrees (call read write) (call read write)
  unfolding call
  Agrees-call read write = record { at = λ w. go w w.faults refl }
    where
      go :
          (w : World) (faults : List Bool)
          → w.faults ≡ faults
          → call read write (quiet w) ≡ ((call read write w).0, quiet (call read write w).1)
      go w [] e = rw (call, e) refl
      go w (true ∷ rest) e = rw (call, e) refl
      go w (false ∷ rest) e = rw (call, e) refl

  pub Agrees-reading : (read : Tables → A) → Agrees (reading read) (reading read)
  unfolding reading
  Agrees-reading read = Agrees-call read (λ t. t)

pub Agrees-writing : (write : Tables → Tables) → Agrees (writing write) (writing write)
unfolding writing
Agrees-writing write = Agrees-call (λ t. tt) write

pub Agrees-now : Agrees now now
unfolding now
Agrees-now = record { at = λ w. refl }

pub Agrees-draw : Agrees draw draw
unfolding draw
Agrees-draw = record { at = λ w. refl }

continue-Agrees :
    {A B : Type 0} (r : Result Exception A) (f g : A → Exec B) (w : World)
    → ((a : A) → Agrees (f a) (g a))
    → continue r g (quiet w) ≡ ((continue r f w).0, quiet (continue r f w).1)
continue-Agrees (ok a) f g w h = (h a).at w
continue-Agrees (err e) f g w h = refl

pub Agrees-bind :
    {A B : Type 0} {m k : Exec A} {f g : A → Exec B}
    → Agrees m k
    → ((a : A) → Agrees (f a) (g a))
    → Agrees (m >>= f) (k >>= g)
unfolding ◌>>=◌
Agrees-bind {m} {k} {f} {g} hm hf = record {
  at = λ w. rw (hm.at w) (continue-Agrees (m w).0 f g (m w).1 hf);
}

pub Agrees-if :
    {A : Type 0} (b : Bool) {m m' k k' : Exec A}
    → Agrees m k
    → Agrees m' k'
    → Agrees (if b then m else m') (if b then k else k')
Agrees-if true h h' = h
Agrees-if false h h' = h'
