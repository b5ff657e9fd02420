-- ===== src/Tests/Console.antt =====
-- authorization/console.py with a supervisor who signs in.
use zonegate_backend.Authorization.Console.{sign_in, resolve, ConsoleAuth, generic_message}
use zonegate_backend.Runtime.{Tables, World, invalid_credentials}
use zonegate_backend.Domain.{ConsoleSession, Actor}
use zonegate_backend.Tests.Fixtures.{alice, enrolled, world_of, no_table}
use zonegate_backend.Prelude.{some, ◌==◌, update, ◌≡◌, ok, err, refl}
use zonegate_backend.Authorization.Console.SignIn.{sign_in_uniform, SignsIn, sign_in_result}
use zonegate_backend.Authorization.Console.Sessions.{StandsFor, resolve_session_current}

abbrev bob : Actor
bob = record alice { actor_id = "bob"; role = "CARGO_SUPERVISOR" }

-- A verifier that accepts the password that is stored.
abbrev pub plain : ConsoleAuth
plain = record {
  passwords = record {
    hash = λ salt password. password;
    verify = λ password stored. password == stored;
  };
  session_ttl_hours = 12;
}

abbrev staffed : Tables
staffed = record enrolled {
  actors = update no_table "bob" bob;
  credentials =
      update no_table "bob"
        (record { actor_id = "bob"; password_hash = "correct horse"; updated_at = 1 });
}

abbrev bob_session : ConsoleSession
bob_session = record {
  session_id = "0";
  actor_id = "bob";
  created_at = 1000;
  expires_at = 43200001000;
}

sign_in_test : (sign_in plain "bob" "correct horse" (world_of staffed)).0 ≡ ok (bob, bob_session)
unfolding sign_in zonegate_backend.Runtime.◌>>=◌ zonegate_backend.Runtime.reading
    zonegate_backend.Runtime.call zonegate_backend.Runtime.now zonegate_backend.Runtime.pure
    zonegate_backend.Storage.get_actor zonegate_backend.Authorization.Roles.is_field_role
    zonegate_backend.Authorization.Roles.normalize_role zonegate_backend.Prelude.Text.drop_prefix
    zonegate_backend.Prelude.Text.upper zonegate_backend.Prelude.Text.strip
    zonegate_backend.Storage.get_credential zonegate_backend.Authorization.Console.sign_in_refusal
    zonegate_backend.Authorization.Console.open_session zonegate_backend.Runtime.draw
    zonegate_backend.Runtime.writing zonegate_backend.Storage.save_console_session
    zonegate_backend.Prelude.Text.decimal
sign_in_test = refl

sign_in_result_example :
    SignsIn plain "bob" "correct horse" staffed
      (bob, bob_session)
      (sign_in plain "bob" "correct horse" (world_of staffed)).1.tables
sign_in_result_example =
    sign_in_result plain "bob" "correct horse" (world_of staffed) (bob, bob_session) sign_in_test

abbrev signed_in : World
signed_in = world_of (record staffed { sessions = update no_table "cookie" bob_session })

cookie_test : (resolve (some "cookie") signed_in).0 ≡ ok (some bob)
unfolding resolve zonegate_backend.Runtime.◌>>=◌ zonegate_backend.Runtime.reading
    zonegate_backend.Runtime.call zonegate_backend.Runtime.now zonegate_backend.Runtime.pure
    zonegate_backend.Storage.get_actor zonegate_backend.Authorization.Roles.is_field_role
    zonegate_backend.Authorization.Roles.normalize_role zonegate_backend.Prelude.Text.drop_prefix
    zonegate_backend.Prelude.Text.upper zonegate_backend.Prelude.Text.strip
    zonegate_backend.Storage.get_console_session
    zonegate_backend.Authorization.Console.resolve_found
    zonegate_backend.Authorization.Console.resolve_session
    zonegate_backend.Authorization.Console.console_actor
cookie_test = refl

resolve_session_current_example : StandsFor signed_in "cookie" bob
resolve_session_current_example = resolve_session_current "cookie" signed_in bob cookie_test

sign_in_uniform_example :
    sign_in plain "bob" "battery staple" (world_of staffed)
    ≡ (err (invalid_credentials generic_message), world_of staffed)
sign_in_uniform_example = sign_in_uniform plain "bob" "battery staple" (world_of staffed) refl refl
