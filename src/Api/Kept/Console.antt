-- ===== src/Api/Kept/Console.antt =====
-- What the requests of a signed-in authority keep, in src/zonegate/api.
use zonegate_backend.Runtime.{Tables}
use zonegate_backend.Runtime.Keeping.{
  Keeps, Keeps-bind, Keeps-reading, Keeps-raise, Keeps-pure, Keeps-if, Keeps-draw, Keeps-catch,
  Keeps-now, Keeps-configure,
}
use zonegate_backend.Authorization.Service.Kept.{Allows}
use zonegate_backend.Authorization.Service.Kept.Closing.{Keeps-resolve_hold}
use zonegate_backend.Storage.{get_actor}
use zonegate_backend.Api.Actors.{
  enroll, enroll_actor, set_initial_password, replace_permissions, update_permissions,
  PermissionUpdateRequest,
}
use zonegate_backend.Api.Auth.{change_password}
use zonegate_backend.Api.Authorizations.{resolve_endpoint}
use zonegate_backend.Api.Thresholds.{update_config}
use zonegate_backend.Api.Requests.{ConsoleRequest, Service, serve_console}
use zonegate_backend.Prelude.{Option, String, Option-cases, none, some, inl, inr}
use zonegate_backend.Api.Kept.{
  AllowsSessions, AllowsRoster, Keeps-discard, Keeps-require_console_actor, Keeps-or_raise,
  Keeps-resolve,
}
use zonegate_backend.Domain.{Actor}
use zonegate_backend.Authorization.Console.{set_password}
use zonegate_backend.Policy.{truthy}
use zonegate_backend.Api.Kept.Serving.{Keeps-hold_to_http, Keeps-weak_to_http}

module _ {P : Tables → Type 0} (allows : Allows P) (sessions : AllowsSessions P)
    (roster : AllowsRoster P) (s : Service) (cookie : Option String) where
  Keeps-set_password :
      (actor_id password : String) → Keeps P (set_password s.auth actor_id password)
  unfolding set_password
  Keeps-set_password actor_id password =
      Keeps-if _ (Keeps-raise _)
        (Keeps-bind Keeps-draw λ salt. Keeps-bind Keeps-now λ time. roster.credential _)

  Keeps-set_initial_password :
      (actor_id : String) (password : Option String)
      → Keeps P (set_initial_password s.auth actor_id password)
  unfolding set_initial_password
  Keeps-set_initial_password actor_id password = elim (Option-cases (truthy password)) [
    | inl e ↦ rw (set_initial_password, e) (Keeps-pure tt)
    | inr (p, e) ↦
        rw (set_initial_password, e)
          (Keeps-catch (Keeps-set_password actor_id p) Keeps-weak_to_http)
  ]

  Keeps-replace_permissions :
      (request : PermissionUpdateRequest) (id : String) (found : Option Actor)
      → Keeps P (replace_permissions request id found)
  unfolding replace_permissions
  Keeps-replace_permissions request id none = Keeps-raise _
  Keeps-replace_permissions request id (some actor) =
      Keeps-if _ (Keeps-raise _) (Keeps-bind (roster.actor _) λ _. Keeps-pure _)

  pub Keeps-serve_console : (request : ConsoleRequest) → Keeps P (serve_console s cookie request)
  unfolding serve_console resolve_endpoint enroll_actor enroll update_permissions update_config
      change_password get_actor
  Keeps-serve_console (ConsoleRequest.post_resolve id request) = Keeps-discard (
      Keeps-bind (Keeps-require_console_actor sessions cookie) λ resolver.
        Keeps-catch (Keeps-resolve_hold allows s.deployment _ _ _ _ _) Keeps-hold_to_http)
  Keeps-serve_console (ConsoleRequest.post_actor request) = Keeps-discard (
      Keeps-bind (Keeps-require_console_actor sessions cookie) λ _. Keeps-bind Keeps-now λ time.
        Keeps-bind (roster.actor _) λ _.
          Keeps-bind (roster.binding _)
            λ _. Keeps-bind (Keeps-set_initial_password _ _) λ _. Keeps-pure _)
  Keeps-serve_console (ConsoleRequest.put_permissions id request) = Keeps-discard (
      Keeps-bind (Keeps-require_console_actor sessions cookie)
        λ _. Keeps-bind (Keeps-reading _) (Keeps-replace_permissions request id))
  Keeps-serve_console (ConsoleRequest.put_config config) = Keeps-discard (
      Keeps-bind (Keeps-require_console_actor sessions cookie) λ _.
        Keeps-bind (roster.config config)
          λ _. Keeps-bind (Keeps-configure config) λ _. Keeps-pure _)
  Keeps-serve_console (ConsoleRequest.post_password password) =
      Keeps-bind (Keeps-resolve sessions cookie) λ found.
        Keeps-bind (Keeps-or_raise _ found)
          λ actor. Keeps-catch (Keeps-set_password _ _) Keeps-weak_to_http
