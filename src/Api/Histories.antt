-- ===== src/Api/Histories.antt =====
-- Sequences of requests to src/zonegate/api.
use zonegate_backend.Runtime.Keeping.{Keeps}
use zonegate_backend.Runtime.{World, Tables}
use zonegate_backend.Authorization.Service.Keyed.{
  IsKeyed, IsKeyed-Allows, Keeps-other, Keeps-save_actor,
}
use zonegate_backend.Api.Requests.{Service, Request, serve}
use zonegate_backend.Storage.{
  save_console_session, save_device_binding, save_credential, delete_console_session,
  save_policy_config,
}
use zonegate_backend.Prelude.{Option, List, String, ◌∷◌, [], refl, inl, inr}
use zonegate_backend.Api.Kept.{AllowsSessions, AllowsRoster}
use zonegate_backend.Api.Kept.Serving.{request_cases, Keeps-open}
use zonegate_backend.Api.Kept.Console.{Keeps-serve_console}
use zonegate_backend.Authorization.Service.Kept.{Allows}

-- One request after the other, each with its cookie, whatever the ones before it answered.
pub serve_all : Service → List (Option String × Request) → World → World
serve_all s [] w = w
serve_all s ((cookie, request) ∷ rest) w = serve_all s rest (serve s cookie request w).1

IsKeyed-AllowsSessions : AllowsSessions IsKeyed
unfolding save_console_session delete_console_session
IsKeyed-AllowsSessions = record {
  session = λ s. Keeps-other _ λ t. (refl, refl, refl, refl);
  ended = λ id. Keeps-other _ λ t. (refl, refl, refl, refl);
}

IsKeyed-AllowsRoster : AllowsRoster IsKeyed
unfolding save_device_binding save_credential save_policy_config
IsKeyed-AllowsRoster = record {
  actor = Keeps-save_actor;
  binding = λ b. Keeps-other _ λ t. (refl, refl, refl, refl);
  credential = λ c. Keeps-other _ λ t. (refl, refl, refl, refl);
  config = λ c. Keeps-other _ λ t. (refl, refl, refl, refl);
}

module _ {P : Tables → Type 0} (allows : Allows P) (sessions : AllowsSessions P)
    (roster : AllowsRoster P) where
  Keeps-serve :
      (s : Service) (cookie : Option String) (request : Request) → Keeps P (serve s cookie request)
  unfolding serve
  Keeps-serve s cookie request = elim (request_cases request) [
    | inl open_request ↦ Keeps-open allows sessions s cookie request open_request
    | inr (c, same) ↦ rw same (Keeps-serve_console allows sessions roster s cookie c)
  ]

  -- An invariant that every write of the program keeps is kept by every sequence of requests.
  pub kept_by_all :
      (s : Service) (requests : List (Option String × Request)) (w : World)
      → P w.tables
      → P (serve_all s requests w).tables
  unfolding serve_all
  kept_by_all s [] w p = p
  kept_by_all s ((cookie, request) ∷ rest) w p =
      kept_by_all s rest (serve s cookie request w).1 ((Keeps-serve s cookie request).at w p)

-- Whatever requests arrive one after the other, signed or not, answered or failing on the way: if at
-- first every actor, decision, receipt and token is on record under its own identifier, so it is at
-- the end.
pub serve_all-IsKeyed :
    (s : Service) (requests : List (Option String × Request)) (w : World)
    → IsKeyed w.tables
    → IsKeyed (serve_all s requests w).tables
serve_all-IsKeyed = kept_by_all IsKeyed-Allows IsKeyed-AllowsSessions IsKeyed-AllowsRoster
