-- ===== src/Api/Signed.antt =====
-- What an endpoint of src/zonegate/api that requires a console actor knows of its caller.
use zonegate_backend.Runtime.{◌>>=◌, World, pure, Tables, raise, Exception, Exec}
use zonegate_backend.Authorization.Console.{resolve, resolve_session, resolve_found}
use zonegate_backend.Api.Guards.{or_raise, require_console_actor, not_authorized, sign_in_detail}
use zonegate_backend.Prelude.{
  Option, String, ◌≡◌, Option-cases, some, ok, none, Bool-cases, refl, inl, inr, leb, ap, Result,
  sym, ◌∙◌,
}
use zonegate_backend.Domain.{Actor, ConsoleSession}
use zonegate_backend.Storage.{get_console_session, get_actor}
use zonegate_backend.Runtime.Triples.{Triple, Triple-bind, Triple-pure, Triple-now, Triple-reading}
use zonegate_backend.Policy.{truthy}
use zonegate_backend.Authorization.Console.Sessions.{resolve_session_current, StandsFor}
use zonegate_backend.Runtime.Binding.{bind_returns}

-- The request's cookie names a session that stands for the actor.
pub record IsSigned (cookie : Option String) (w : World) (actor : Actor) : Type 0 where
  pub session_id : String
  pub sent : cookie ≡ some session_id
  pub stands : StandsFor w session_id actor

IsSigned-of :
    (cookie : Option String) (w : World) (actor : Actor)
    → (resolve cookie w).0 ≡ ok (some actor)
    → IsSigned cookie w actor
unfolding resolve pure
IsSigned-of none w actor h = absurd (cc h)
IsSigned-of (some id) w actor h = record {
  session_id = id;
  sent = refl;
  stands = resolve_session_current id w actor h;
}

-- What was found, if anything, was found without a change.
abbrev Unchanged : Tables → Option Actor → Tables → Type 0
Unchanged before found t = (actor : Actor) → found ≡ some actor → t ≡ before

module _ (before : Tables) where
  session-Unchanged :
      (id : String) (session : ConsoleSession)
      → Triple (λ t. t ≡ before) (resolve_session id session) (Unchanged before)
  unfolding resolve_session get_actor
  session-Unchanged id session = Triple-bind {Q = λ _ t. t ≡ before} _ _ Triple-now λ time.
      elim (Bool-cases (leb session.expires_at time)) [
        | inl expired ↦ rw expired (
            Triple-bind {Q = λ _ t. Unit} _ _ (record { at = λ w p a e. tt })
              λ _. Triple-pure none (λ t p actor e. absurd (cc e)))
        | inr current ↦ rw current (
            Triple-bind {Q = λ _ t. t ≡ before} _ _
              (Triple-reading (λ t. t.actors session.actor_id) (λ t p. p))
              λ found. Triple-pure _ (λ t p actor e. p))
      ]

  found-Unchanged :
      (id : String) (found : Option ConsoleSession)
      → Triple (λ t. t ≡ before) (resolve_found id found) (Unchanged before)
  unfolding resolve_found
  found-Unchanged id none = Triple-pure none (λ t p actor e. p)
  found-Unchanged id (some session) = session-Unchanged id session

  resolve-Unchanged :
      (cookie : Option String) → Triple (λ t. t ≡ before) (resolve cookie) (Unchanged before)
  unfolding resolve get_console_session
  resolve-Unchanged cookie = elim (Option-cases (truthy cookie)) [
    | inl e ↦ rw (resolve, e) (Triple-pure none (λ t p actor e. p))
    | inr (id, e) ↦
        rw (resolve, e)
          (Triple-bind {Q = λ _ t. t ≡ before} _ _ (Triple-reading (λ t. t.sessions id) (λ t p. p))
            (found-Unchanged id))
  ]

or_raise_returns :
    {A : Type 0} (e : Exception) (found : Option A) (w : World) (a : A)
    → (or_raise e found w).0 ≡ ok a
    → (found ≡ some a) × (or_raise e found w ≡ (ok a, w))
unfolding or_raise pure raise
or_raise_returns e none w a h = absurd (cc h)
or_raise_returns e (some b) w a h = (cc h, cc h)

-- The caller of an endpoint that has returned, and where the endpoint's own work began.
pub record HasCaller {B : Type 0} (cookie : Option String) (f : Actor → Exec B) (w : World) (b : B)
    (t : Tables) : Type 0 where
  pub actor : Actor
  pub signed : IsSigned cookie w actor
  pub later : World
  pub same_tables : later.tables ≡ w.tables
  pub returned : (f actor later).0 ≡ ok b
  pub ended : (f actor later).1.tables ≡ t

pub required_caller :
    {B : Type 0} (cookie : Option String) (f : Actor → Exec B) (w : World) (b : B)
    → ((require_console_actor cookie >>= f) w).0 ≡ ok b
    → HasCaller cookie f w b ((require_console_actor cookie >>= f) w).1.tables
unfolding require_console_actor
required_caller {B} cookie f w b h =
    let e = not_authorized sign_in_detail in
    let (actor, required, q) = bind_returns (resolve cookie >>= or_raise e) f w b h in
    let (found, resolved, q') = bind_returns (resolve cookie) (or_raise e) w actor required in
    let later = (resolve cookie w).1 in
    let (is_actor, q'') =
      or_raise_returns e found later actor
        (ap (λ (x : Result Exception Actor × World). x.0) (sym q') ∙ required) in
    let whole : ((resolve cookie >>= or_raise e) >>= f) w ≡ f actor later =
      q ∙ ap (λ (x : Result Exception Actor × World). f actor x.1) (q' ∙ q'') in
    record {
      actor = actor;
      signed = IsSigned-of cookie w actor (resolved ∙ ap ok is_actor);
      later = later;
      same_tables = (resolve-Unchanged w.tables cookie).at w refl found resolved actor is_actor;
      returned = ap (λ (x : Result Exception B × World). x.0) (sym whole) ∙ h;
      ended = ap (λ (x : Result Exception B × World). x.1.tables) (sym whole);
    }
