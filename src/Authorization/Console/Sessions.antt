-- ===== src/Authorization/Console/Sessions.antt =====
-- Whom a console session stands for (authorization/console.py).
use zonegate_backend.Runtime.{World, now, ◌>>◌, ◌>>=◌, pure, Exception}
use zonegate_backend.Authorization.Console.{resolve, console_actor, resolve_session, resolve_found}
use zonegate_backend.Prelude.{
  String, ◌≡◌, some, none, false, ◌+◌, arith, eq_iff, refl, Option, ◌<◌, ok, Bool-cases, inl, inr,
  Option-cases, ◌∙◌, leb, if◌then◌else◌, ok-injective, sym, ap, Result,
}
use zonegate_backend.Domain.{Actor, ConsoleSession}
use zonegate_backend.Storage.{get_actor, get_console_session, delete_console_session}
use zonegate_backend.Runtime.Triples.{Triple, Triple-pure, Triple-after, reading_returns}
use zonegate_backend.Authorization.Roles.{is_field_role}
use zonegate_backend.Policy.{truthy}

-- The session of a cookie stands for an actor.
pub record StandsFor (w : World) (session_id : String) (actor : Actor) : Type 0 where
  pub session : ConsoleSession
  pub on_record : w.tables.sessions session_id ≡ some session
  pub current : w.clock w.ticks < session.expires_at
  pub enrolled : w.tables.actors session.actor_id ≡ some actor
  pub not_field : is_field_role (some actor.role) ≡ false

console_actor_of :
    (found : Option Actor) (actor : Actor)
    → console_actor found ≡ some actor
    → (found ≡ some actor) × (is_field_role (some actor.role) ≡ false)
unfolding console_actor
console_actor_of none actor h = absurd (cc h)
console_actor_of (some a) actor h = elim (Bool-cases (is_field_role (some a.role))) [
  | inl field ↦ absurd (ground (arith, h, field))
  | inr other ↦
      let same : a ≡ actor = ground (arith, h, other) in (rw same refl, rw (← same, other) refl)
]

-- The session is deleted if it has expired, and then it stands for nobody.
expired_nobody :
    (session_id : String)
    → Triple
        (λ t. Unit)
        (delete_console_session session_id >> pure none)
        (λ (found : Option Actor) t. found ≡ none)
expired_nobody session_id = Triple-after _ _ λ _. Triple-pure none (λ t p. refl)

resolve_session_at :
    (session_id : String) (session : ConsoleSession) (w : World) (actor : Actor)
    → (resolve_session session_id session w).0 ≡ ok (some actor)
    → (w.clock w.ticks < session.expires_at)
      × (w.tables.actors session.actor_id ≡ some actor)
      × (is_field_role (some actor.role) ≡ false)
unfolding resolve_session now ◌>>=◌ get_actor pure
resolve_session_at session_id session w actor h =
    let later = record w { ticks = w.ticks + 1 } in
    let read_actor = λ (found : Option Actor). pure (console_actor found) in
    let branches : ((if leb session.expires_at (w.clock w.ticks)
            then delete_console_session session_id >> pure none
            else (get_actor session.actor_id >>= read_actor))
          later).0
        ≡ ok (some actor) =
      h in
    elim (Bool-cases (leb session.expires_at (w.clock w.ticks))) [
      | inl expired ↦
          absurd
            (cc ((expired_nobody session_id).at later tt (some actor) (rw expired at branches)))
      | inr current ↦
          let returned : ((get_actor session.actor_id >>= read_actor) later).0 ≡ ok (some actor) =
            rw current at branches in
          let (faults, q) =
            reading_returns (λ t. t.actors session.actor_id) read_actor later (some actor)
              returned in
          let found = console_actor_of (w.tables.actors session.actor_id) actor (
            ok-injective
              (sym (ap (λ (x : Result Exception (Option Actor) × World). x.0) q) ∙ returned)) in
          (ground (arith, current), found.0, found.1)
    ]

found_session :
    (session_id : String) (found : Option ConsoleSession) (w : World) (actor : Actor)
    → (resolve_found session_id found w).0 ≡ ok (some actor)
    → (session : ConsoleSession) × (found ≡ some session)
      × ((resolve_session session_id session w).0 ≡ ok (some actor))
unfolding pure resolve_found
found_session session_id none w actor h = absurd (cc h)
found_session session_id (some session) w actor h = (session, refl, h)

resolve_lookup :
    (cookie : Option String) (id : String)
    → truthy cookie ≡ some id
    → resolve cookie ≡ (get_console_session id >>= resolve_found id)
unfolding resolve
resolve_lookup cookie id e = rw (resolve, e) refl

resolve_blank : (cookie : Option String) → truthy cookie ≡ none → resolve cookie ≡ pure none
unfolding resolve
resolve_blank cookie e = rw (resolve, e) refl

-- If a cookie resolves to an actor, its session is on record and has not expired at the time that
-- `resolve` reads, and the actor is still enrolled, in a role that is not a field role.
pub resolve_session_current :
    (session_id : String) (w : World) (actor : Actor)
    → (resolve (some session_id) w).0 ≡ ok (some actor)
    → StandsFor w session_id actor
unfolding get_console_session pure
resolve_session_current session_id w actor h = elim (Option-cases (truthy (some session_id))) [
  | inl blank ↦ absurd (cc (rw (resolve_blank (some session_id) blank) at h))
  | inr (id, e) ↦
      let same : id ≡ session_id = ground (arith, e, eq_iff session_id "") in
      let looked_up = resolve_lookup (some session_id) id e in
      let returned : ((get_console_session id >>= resolve_found id) w).0 ≡ ok (some actor) =
        rw looked_up at h in
      let (faults, q) =
        reading_returns (λ t. t.sessions id) (resolve_found id) w (some actor) returned in
      let later = record w { faults = faults } in
      let (session, on_record, at_session) =
        found_session id (w.tables.sessions id) later actor
          (sym (ap (λ (x : Result Exception (Option Actor) × World). x.0) q) ∙ returned) in
      let (current, enrolled, not_field) = resolve_session_at id session later actor at_session in
      record {
        session = session;
        on_record = rw (← same) on_record;
        current = current;
        enrolled = enrolled;
        not_field = not_field;
      }
]
