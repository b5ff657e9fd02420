-- ===== src/Authorization/Console.antt =====
-- authorization/console.py: console sessions. The password hashing of passwords.py is a parameter.
pub mod SignIn
pub mod Sessions
use Prim.Native.String.{count}
use zonegate_backend.Runtime.{
  Exec, ◌>>=◌, ◌>>◌, now, raise, Exception, draw, pure, weak_password, invalid_credentials,
  console_access_denied,
}
use zonegate_backend.Prelude.{
  String, Option, ℕ, Bool, if◌then◌else◌, ltb, some, none, leb, ◌+◌, not, ◌==◌, ◌*◌,
}
use zonegate_backend.Prelude.Text.{◌<>◌}
use zonegate_backend.Domain.{ConsoleSession, Actor, OperatorCredential}
use zonegate_backend.Policy.{truthy}
use zonegate_backend.Storage.{
  get_actor, get_credential, get_console_session, delete_console_session, save_credential,
  save_console_session,
}
use zonegate_backend.Authorization.Roles.{is_field_role}
use zonegate_backend.Authorization.Token.{microseconds}

-- `hash_password`, on a random salt, and `verify_password`.
pub record Passwords : Type 0 where
  pub hash : String → String → String
  pub verify : String → String → Bool

pub record ConsoleAuth : Type 0 where
  pub passwords : Passwords
  pub session_ttl_hours : ℕ

abbrev pub min_password_length : ℕ
min_password_length = 8

unfoldable pub set_password : ConsoleAuth → String → String → Exec (Unit {0})
set_password auth actor_id password =
    if ltb (count password) min_password_length
    then raise (weak_password "A console password must be at least 8 characters")
    else (do
      salt ← draw
      time ← now
      save_credential (record {
        actor_id = actor_id;
        password_hash = auth.passwords.hash salt password;
        updated_at = time;
      }))

abbrev pub generic_message : String
generic_message = "Employee ID or password is incorrect"

abbrev pub field_message : String
field_message =
    "The console is for supervisors and officers. Cargo personnel "
    <> "request releases from the ZoneGate mobile app."

-- The guards of `sign_in`, in their order: the exception that the first failing one raises.
unfoldable pub sign_in_refusal :
    ConsoleAuth → String → String → Option Actor → Option OperatorCredential → Option Exception
sign_in_refusal auth actor_id password none credential = some (invalid_credentials generic_message)
sign_in_refusal auth actor_id password (some actor) none =
    some (invalid_credentials generic_message)
sign_in_refusal auth actor_id password (some actor) (some credential) =
    if not (auth.passwords.verify password credential.password_hash)
    then some (invalid_credentials generic_message)
    else if not (actor.enrollment_status == "ACTIVE")
    then some (
        invalid_credentials
          ("Actor '" <> actor_id <> "' is '" <> actor.enrollment_status <> "' and cannot sign in"))
    else if is_field_role (some actor.role)
    then some (console_access_denied field_message)
    else none

-- The session that `sign_in` opens.
unfoldable pub open_session : ConsoleAuth → String → Actor → Exec (Actor × ConsoleSession)
open_session auth actor_id actor = do
  time ← now
  session_id ← draw
  let session : ConsoleSession = record {
    session_id = session_id;
    actor_id = actor_id;
    created_at = time;
    expires_at = time + microseconds (auth.session_ttl_hours * 3600);
  }
  save_console_session session
  pure (actor, session)

unfoldable pub sign_in : ConsoleAuth → String → String → Exec (Actor × ConsoleSession)
sign_in auth actor_id password = do
  found ← get_actor actor_id
  credential ← get_credential actor_id
  elim (sign_in_refusal auth actor_id password found credential) [
    | some e ↦ raise e
    | none ↦ elim found [
      | none ↦ raise (invalid_credentials generic_message)
      | some actor ↦ open_session auth actor_id actor
    ]
  ]

-- The actor behind a session that is current: nobody if the actor is gone or works in the field.
unfoldable pub console_actor : Option Actor → Option Actor
console_actor none = none
console_actor (some actor) = if is_field_role (some actor.role) then none else some actor

-- `resolve` on a session that was found: an expired one is deleted.
unfoldable pub resolve_session : String → ConsoleSession → Exec (Option Actor)
unfolding console_actor
resolve_session session_id session = do
  time ← now
  (if leb session.expires_at time
      then delete_console_session session_id >> pure none
      else (do found ← get_actor session.actor_id; pure (console_actor found)))

unfoldable pub resolve_found : String → Option ConsoleSession → Exec (Option Actor)
resolve_found session_id none = pure none
resolve_found session_id (some session) = resolve_session session_id session

unfoldable pub resolve : Option String → Exec (Option Actor)
resolve cookie = elim (truthy cookie) [
  | none ↦ pure none
  | some session_id ↦ (do found ← get_console_session session_id; resolve_found session_id found)
]

unfoldable pub sign_out : Option String → Exec (Unit {0})
sign_out cookie = elim (truthy cookie) [
  | none ↦ pure tt
  | some session_id ↦ delete_console_session session_id
]
