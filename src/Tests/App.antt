-- ===== src/Tests/App.antt =====
-- app.py with the default settings.
use zonegate_backend.App.Seeded.{IsGrown}
use zonegate_backend.Runtime.{World}
use zonegate_backend.Prelude.Text.{lower, strip}
use zonegate_backend.Tests.Fixtures.{enrolled, world_of}
use zonegate_backend.Prelude.Splitting.{split, onto_first}
use zonegate_backend.Tests.Console.{plain}
use zonegate_backend.Prelude.{◌≡◌, err, refl, some, ◌∷◌, [], ok, List, Option, String}
use zonegate_backend.App.Restart.{seed_result}
use zonegate_backend.Api.Actors.{stripped_set, add_text}
use zonegate_backend.Authorization.Console.{set_password, ConsoleAuth}
use zonegate_backend.App.Seeding.{
  seed, seed_operator, save_demo_actor, seed_console, seed_authorities, ensure_authority,
  ensure_password, save_authority, save_password,
}
use zonegate_backend.App.{
  Settings, select_carrier, mcp_allowlist, default_settings, missing_key_message,
}
use zonegate_backend.App.Complete.{StillEnrolled, IsComplete}
use zonegate_backend.Api.Requests.{Service, Request}
use zonegate_backend.Api.Histories.{serve_all}

abbrev keyed_settings : Settings
keyed_settings = record default_settings {
  nokia_api_key = "key-1";
  nokia_mcp_static_allowlist = " checkSimSwap, ,checkDeviceSwap";
}

refused_start_test : select_carrier default_settings ≡ err missing_key_message
unfolding select_carrier lower
refused_start_test = refl

allowlist_test : mcp_allowlist keyed_settings ≡ some ("checkSimSwap" ∷ "checkDeviceSwap" ∷ [])
unfolding mcp_allowlist split onto_first stripped_set add_text strip
allowlist_test = refl

abbrev fresh_start : World
fresh_start = world_of enrolled

seed_test : (seed keyed_settings plain fresh_start).0 ≡ ok tt
unfolding seed seed_operator save_demo_actor seed_console seed_authorities ensure_authority
    ensure_password save_authority save_password set_password zonegate_backend.Storage.get_actor
    zonegate_backend.Storage.save_actor zonegate_backend.Storage.save_device_binding
    zonegate_backend.Storage.get_credential zonegate_backend.Storage.save_credential
    zonegate_backend.Runtime.◌>>=◌ zonegate_backend.Runtime.reading zonegate_backend.Runtime.writing
    zonegate_backend.Runtime.call zonegate_backend.Runtime.now zonegate_backend.Runtime.draw
    zonegate_backend.Runtime.pure
seed_test = refl

seed_result_example :
    IsGrown enrolled (seed keyed_settings plain fresh_start).1.tables
    × IsComplete keyed_settings (seed keyed_settings plain fresh_start).1.tables
    × ((again : ConsoleAuth) (later : World)
        → StillEnrolled (seed keyed_settings plain fresh_start).1.tables later.tables
        → (seed keyed_settings again later).1.tables ≡ later.tables)
    × ((again : ConsoleAuth) (s : Service) (requests : List (Option String × Request))
        → (seed keyed_settings again
            (serve_all s requests (seed keyed_settings plain fresh_start).1)).1.tables
          ≡ (serve_all s requests (seed keyed_settings plain fresh_start).1).tables)
seed_result_example = seed_result keyed_settings plain fresh_start seed_test
