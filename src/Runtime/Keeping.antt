-- ===== src/Runtime/Keeping.antt =====
-- That a request keeps an invariant of the tables, whether it returns or raises.
use zonegate_backend.Runtime.{
  ◌>>=◌, Tables, pure, draw, now, gets, Exec, raise, reading, writing, Exception, World, continue,
  recover, catch, configure,
}
use zonegate_backend.Prelude.{Result, Bool, if◌then◌else◌, inl, true, inr, false, ok, err}
use zonegate_backend.Runtime.Triples.{call_cases}
use zonegate_backend.Domain.PolicyConfig.{PolicyConfig}

pub record Keeps {A : Type 0} (P : Tables → Type 0) (m : Exec A) : Type 0 where
  pub at : (w : World) → P w.tables → P (m w).1.tables

module _ {P : Tables → Type 0} where
  pub Keeps-pure : {A : Type 0} (a : A) → Keeps P (pure a)
  unfolding pure
  Keeps-pure a = record { at = λ w p. p }

  pub Keeps-raise : {A : Type 0} (e : Exception) → Keeps P (raise {A = A} e)
  unfolding raise
  Keeps-raise e = record { at = λ w p. p }

  pub Keeps-gets : {A : Type 0} (f : World → A) → Keeps P (gets f)
  unfolding gets
  Keeps-gets f = record { at = λ w p. p }

  pub Keeps-now : Keeps P now
  unfolding now
  Keeps-now = record { at = λ w p. p }

  pub Keeps-draw : Keeps P draw
  unfolding draw
  Keeps-draw = record { at = λ w p. p }

  pub Keeps-reading : {A : Type 0} (read : Tables → A) → Keeps P (reading read)
  unfolding reading
  Keeps-reading read = record {
    at = λ w p. elim (call_cases read (λ t. t) w) [
      | inl (faults, q) ↦ rw q p
      | inr (faults, q) ↦ rw q p
    ];
  }

  pub Keeps-writing :
      (write : Tables → Tables) → ((t : Tables) → P t → P (write t)) → Keeps P (writing write)
  unfolding writing
  Keeps-writing write h = record {
    at = λ w p. elim (call_cases (λ t. tt) write w) [
      | inl (faults, q) ↦ rw q p
      | inr (faults, q) ↦ rw q (h w.tables p)
    ];
  }

  continue-Keeps :
      {A B : Type 0} (r : Result Exception A) (f : A → Exec B) (w : World)
      → ((a : A) → Keeps P (f a))
      → P w.tables
      → P (continue r f w).1.tables
  continue-Keeps (ok a) f w hf p = (hf a).at w p
  continue-Keeps (err e) f w hf p = p

  pub Keeps-bind :
      {A B : Type 0} {m : Exec A} {f : A → Exec B}
      → Keeps P m
      → ((a : A) → Keeps P (f a))
      → Keeps P (m >>= f)
  unfolding ◌>>=◌
  Keeps-bind {m} {f} hm hf = record { at = λ w p. continue-Keeps (m w).0 f (m w).1 hf (hm.at w p) }

pub Keeps-if :
    {P : Tables → Type 0} {A : Type 0} (b : Bool) {m k : Exec A}
    → Keeps P m
    → Keeps P k
    → Keeps P (if b then m else k)
Keeps-if true hm hk = hm
Keeps-if false hm hk = hk

module _ {P : Tables → Type 0} where
  pub Keeps-configure : (config : PolicyConfig) → Keeps P (configure config)
  unfolding configure
  Keeps-configure config = record { at = λ w p. p }

  recover-Keeps :
      {A : Type 0} (r : Result Exception A) (handler : Exception → Exec A) (w : World)
      → ((e : Exception) → Keeps P (handler e))
      → P w.tables
      → P (recover r handler w).1.tables
  recover-Keeps (ok a) handler w h p = p
  recover-Keeps (err e) handler w h p = (h e).at w p

  pub Keeps-catch :
      {A : Type 0} {m : Exec A} {handler : Exception → Exec A}
      → Keeps P m
      → ((e : Exception) → Keeps P (handler e))
      → Keeps P (catch m handler)
  unfolding catch
  Keeps-catch {m} {handler} hm hh = record {
    at = λ w p. recover-Keeps (m w).0 handler (m w).1 hh (hm.at w p);
  }
