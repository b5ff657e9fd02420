-- ===== src/Runtime/Binding.antt =====
-- How a chain of calls ends, by how its first call ends.
use zonegate_backend.Runtime.{◌>>=◌, Exec, catch, Exception, World, continue, recover}
use zonegate_backend.Prelude.{Result, ◌≡◌, ◌≢◌, ok, err, refl}

continue_raises :
    {A B : Type 0} (r : Result Exception A) (f : A → Exec B) (w : World)
    → ((a : A) → r ≡ ok a → (x : Exception) × (f a w ≡ (err x, w)))
    → (x : Exception) × (continue r f w ≡ (err x, w))
continue_raises (ok a) f w h = h a refl
continue_raises (err x) f w h = (x, refl)

-- If what follows a call raises at once, so does the whole.
pub bind_raises :
    {A B : Type 0} (m : Exec A) (f : A → Exec B) (w : World)
    → ((a : A) → (m w).0 ≡ ok a → (x : Exception) × (f a (m w).1 ≡ (err x, (m w).1)))
    → (x : Exception) × ((m >>= f) w ≡ (err x, (m w).1))
unfolding ◌>>=◌
bind_raises m f w h = continue_raises (m w).0 f (m w).1 h

continue_returns :
    {A B : Type 0} (r : Result Exception A) (f : A → Exec B) (w : World) (b : B)
    → (continue r f w).0 ≡ ok b
    → (a : A) × (r ≡ ok a) × (continue r f w ≡ f a w)
continue_returns (ok a) f w b h = (a, refl, refl)
continue_returns (err x) f w b h = absurd (cc h)

-- If the whole returns, so did its first call.
pub bind_returns :
    {A B : Type 0} (m : Exec A) (f : A → Exec B) (w : World) (b : B)
    → ((m >>= f) w).0 ≡ ok b
    → (a : A) × ((m w).0 ≡ ok a) × ((m >>= f) w ≡ f a (m w).1)
unfolding ◌>>=◌
bind_returns m f w b h = continue_returns (m w).0 f (m w).1 b h

recover_returns :
    {A : Type 0} (r : Result Exception A) (handler : Exception → Exec A) (w : World) (a : A)
    → ((e : Exception) (later : World) → (handler e later).0 ≢ ok a)
    → (recover r handler w).0 ≡ ok a
    → (r ≡ ok a) × (recover r handler w ≡ (r, w))
recover_returns (ok b) handler w a h e = (e, refl)
recover_returns (err x) handler w a h e = absurd (h x w e)

-- What a handler that only raises lets through has been returned inside.
pub catch_returns :
    {A : Type 0} (m : Exec A) (handler : Exception → Exec A) (w : World) (a : A)
    → ((e : Exception) (later : World) → (handler e later).0 ≢ ok a)
    → (catch m handler w).0 ≡ ok a
    → ((m w).0 ≡ ok a) × (catch m handler w ≡ m w)
unfolding catch
catch_returns m handler w a h e = recover_returns (m w).0 handler (m w).1 a h e
