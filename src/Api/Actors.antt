-- ===== src/Api/Actors.antt =====
-- api/actors.py: the enrolled roster.
use zonegate_backend.Authorization.Console.{ConsoleAuth, set_password}
use zonegate_backend.Prelude.{
  ℕ, String, Option, List, if◌then◌else◌, ◌∷◌, some, contains, get_or, none, ◌==◌, true, not, [],
}
use zonegate_backend.Domain.{Actor, DeviceBinding}
use zonegate_backend.Runtime.{Exec, raise, ◌>>=◌, ◌>>◌, pure, now, catch}
use zonegate_backend.Prelude.Sorting.{sorted, same_texts}
use zonegate_backend.Prelude.Text.{◌<>◌, strip}
use zonegate_backend.Policy.{truthy}
use zonegate_backend.Api.Guards.{
  not_found, require_console_actor, or_raise, conflict, clamp, weak_to_http,
}
use zonegate_backend.Storage.{
  get_actor, list_actors, get_device_binding, save_actor, save_device_binding,
}

-- An empty `password` is not set, as a missing one.
pub record EnrollmentRequest : Type 0 where
  pub actor : Actor
  pub device_id : Option String
  pub password : Option String

pub record EnrollmentResponse : Type 0 where
  pub actor : Actor
  pub binding : DeviceBinding

pub record PermissionUpdateRequest : Type 0 where
  pub permissions : List String
  pub expected_permissions : List String

pub record RosterEntry : Type 0 where
  pub actor : Actor
  pub binding : Option DeviceBinding

-- The loop over the actors, each read with its binding.
unfoldable pub with_bindings : List Actor → Exec (List RosterEntry)
with_bindings [] = pure []
with_bindings (actor ∷ actors) = do
  binding ← get_device_binding actor.actor_id
  rest ← with_bindings actors
  pure (record { actor = actor; binding = binding } ∷ rest)

unfoldable pub list_roster : Option ℕ → Exec (List RosterEntry)
unfolding clamp with_bindings
list_roster limit = do actors ← list_actors (clamp 500 limit); with_bindings actors

unfoldable pub binding_of : EnrollmentRequest → ℕ → DeviceBinding
binding_of request time = record {
  actor_id = request.actor.actor_id;
  phone_number = request.actor.registered_phone_number;
  device_id = get_or (truthy request.device_id) request.actor.registered_device_id;
  bound_at = time;
  is_active = true;
}

unfoldable pub set_initial_password : ConsoleAuth → String → Option String → Exec (Unit {0})
unfolding weak_to_http
set_initial_password auth actor_id password = elim (truthy password) [
  | none ↦ pure tt
  | some p ↦ catch (set_password auth actor_id p) weak_to_http
]

-- What `enroll_actor` does once its caller is known.
unfoldable pub enroll : ConsoleAuth → EnrollmentRequest → Exec EnrollmentResponse
unfolding binding_of
enroll auth request = do
  time ← now
  let binding = binding_of request time
  save_actor request.actor
  save_device_binding binding
  set_initial_password auth request.actor.actor_id request.password
  pure (record { actor = request.actor; binding = binding })

unfoldable pub enroll_actor :
    ConsoleAuth → Option String → EnrollmentRequest → Exec EnrollmentResponse
enroll_actor auth cookie request = do require_console_actor cookie; enroll auth request

-- Adding to a set.
unfoldable pub add_text : String → List String → List String
add_text s texts = if contains s texts then texts else s ∷ texts

-- `{p.strip() for p in permissions if p.strip()}`
unfoldable pub stripped_set : List String → List String
unfolding add_text
stripped_set [] = []
stripped_set (p ∷ ps) =
    let rest = stripped_set ps in if strip p == "" then rest else add_text (strip p) rest

unfoldable pub cleaned : List String → List String
unfolding stripped_set
cleaned permissions = sorted (stripped_set permissions)

abbrev pub enrolled_detail : String → String
enrolled_detail actor_id = "Actor '" <> actor_id <> "' is not enrolled"

abbrev pub changed_detail : String → String
changed_detail actor_id =
    "Permissions for '" <> actor_id <> "' changed while you were editing. "
    <> "Reload the employee and reapply your change."

-- The rest of `update_permissions`, from the actor that was read.
unfoldable pub replace_permissions : PermissionUpdateRequest → String → Option Actor → Exec Actor
unfolding cleaned
replace_permissions request actor_id none = raise (not_found (enrolled_detail actor_id))
replace_permissions request actor_id (some actor) =
    if not (same_texts (sorted actor.permissions) (sorted request.expected_permissions))
    then raise (conflict (changed_detail actor_id))
    else (do
      let updated = record actor { permissions = cleaned request.permissions }
      save_actor updated
      pure updated)

unfoldable pub update_permissions : Option String → String → PermissionUpdateRequest → Exec Actor
update_permissions cookie actor_id request = do
  require_console_actor cookie
  found ← get_actor actor_id
  replace_permissions request actor_id found

unfoldable pub read_actor : String → Exec EnrollmentResponse
read_actor actor_id = do
  found ← get_actor actor_id
  actor ← or_raise (not_found (enrolled_detail actor_id)) found
  bound ← get_device_binding actor_id
  binding ← or_raise (not_found ("Actor '" <> actor_id <> "' has no active device binding")) bound
  pure (record { actor = actor; binding = binding })
