-- ===== src/App/Seeding.antt =====
-- src/zonegate/app.py: what the start of a deployment does to the state.
use zonegate_backend.Runtime.{◌>>=◌, ◌>>◌, Exec, pure, now, configure}
use zonegate_backend.App.{select_carrier, Settings, CarrierClient}
use zonegate_backend.Prelude.{
  List, Option, ℕ, String, some, if◌then◌else◌, ◌∷◌, suc, [], ◌==◌, Result, true, none, err, ok,
  get_or,
}
use zonegate_backend.Domain.{Actor, DeviceBinding, OperatorCredential}
use zonegate_backend.Authorization.Console.{ConsoleAuth, Passwords, set_password}
use zonegate_backend.Storage.{
  get_actor, get_credential, save_actor, save_device_binding, get_policy_config,
}
use zonegate_backend.Prelude.Text.{◌<>◌, decimal}
use zonegate_backend.Domain.PolicyConfig.{default_config}

abbrev pub demo_authorities : List (String × String)
demo_authorities =
    ("usr_cargo_supervisor_01", "ROLE_CARGO_SUPERVISOR")
    ∷ ("usr_security_officer_01", "ROLE_SECURITY_OFFICER")
    ∷ ("usr_safety_officer_01", "ROLE_SAFETY_OFFICER")
    ∷ ("usr_compliance_officer_01", "ROLE_COMPLIANCE_OFFICER")
    ∷ []

abbrev pub demo_actor : Actor
demo_actor = record {
  actor_id = "usr_cargo_operator_01";
  role = "CARGO_OPERATOR";
  permissions = "cargo:release" ∷ "cargo:inspect" ∷ [];
  registered_phone_number = "+99999991001";
  registered_device_id = "device_cargo_terminal_01";
  enrollment_status = "ACTIVE";
}

abbrev pub demo_binding : ℕ → DeviceBinding
demo_binding time = record {
  actor_id = demo_actor.actor_id;
  phone_number = demo_actor.registered_phone_number;
  device_id = demo_actor.registered_device_id;
  bound_at = time;
  is_active = true;
}

unfoldable pub save_demo_actor : Option Actor → Exec (Unit {0})
save_demo_actor (some actor) = pure tt
save_demo_actor none = do time ← now; save_actor demo_actor; save_device_binding (demo_binding time)

unfoldable pub seed_operator : Exec (Unit {0})
unfolding save_demo_actor
seed_operator = do found ← get_actor demo_actor.actor_id; save_demo_actor found

abbrev pub authority_actor : String → ℕ → String → Actor
authority_actor actor_id index role = record {
  actor_id = actor_id;
  role = role;
  permissions = "hold:resolve" ∷ [];
  registered_phone_number = "+9999999100" <> decimal index;
  registered_device_id = "console_workstation";
  enrollment_status = "ACTIVE";
}

unfoldable pub save_authority : String → ℕ → String → Option Actor → Exec (Unit {0})
save_authority actor_id index role (some actor) = pure tt
save_authority actor_id index role none = save_actor (authority_actor actor_id index role)

unfoldable pub save_password :
    ConsoleAuth → String → String → Option OperatorCredential → Exec (Unit {0})
save_password auth password actor_id (some credential) = pure tt
save_password auth password actor_id none = set_password auth actor_id password

unfoldable pub ensure_authority : String → ℕ → String → Exec (Unit {0})
unfolding save_authority
ensure_authority actor_id index role = do
  found ← get_actor actor_id
  save_authority actor_id index role found

unfoldable pub ensure_password : ConsoleAuth → String → String → Exec (Unit {0})
unfolding save_password
ensure_password auth password actor_id = do
  credential ← get_credential actor_id
  save_password auth password actor_id credential

-- The loop over `DEMO_AUTHORITIES`, with `enumerate`.
unfoldable pub seed_authorities :
    ConsoleAuth → String → ℕ → List (String × String) → Exec (Unit {0})
unfolding ensure_authority ensure_password
seed_authorities auth password index [] = pure tt
seed_authorities auth password index ((actor_id, role) ∷ rest) = do
  ensure_authority actor_id index role
  ensure_password auth password actor_id
  seed_authorities auth password (suc index) rest

unfoldable pub seed_console : ConsoleAuth → String → Exec (Unit {0})
unfolding seed_authorities
seed_console auth password =
    if password == "" then pure tt else seed_authorities auth password 2 demo_authorities

unfoldable pub seed : Settings → ConsoleAuth → Exec (Unit {0})
unfolding seed_operator seed_console
seed cfg auth =
    if cfg.app_env == "test"
    then pure tt
    else (do seed_operator; seed_console auth cfg.demo_operator_password)

-- `ConsoleAuthService(store, session_ttl_hours)`
unfoldable pub console_auth : Settings → Passwords → ConsoleAuth
console_auth cfg passwords = record {
  passwords = passwords;
  session_ttl_hours = cfg.session_ttl_hours;
}

-- `lifespan` up to its `yield`: the refusal to start, or what is done to the state.
unfoldable pub lifespan : Settings → Passwords → Result String (Exec CarrierClient)
unfolding select_carrier console_auth seed
lifespan cfg passwords = elim (select_carrier cfg) [
  | err e ↦ err e
  | ok client ↦ ok (do
    stored ← get_policy_config
    configure (get_or stored default_config)
    seed cfg (console_auth cfg passwords)
    pure client)
]
