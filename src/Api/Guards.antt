-- ===== src/Api/Guards.antt =====
-- api/guards.py, and the statuses that the controllers of src/zonegate/api answer with.
use zonegate_backend.Runtime.{◌>>=◌, weak_password}
use zonegate_backend.Authorization.Console.{resolve}
use zonegate_backend.Prelude.{Option, String, some, none, ℕ, if◌then◌else◌, ltb}
use zonegate_backend.Runtime.{Exception, Exec, http_exception, raise, ◌>>=◌, pure}
use zonegate_backend.Domain.{Actor}

-- `NotAuthorizedException`, `NotFoundException`, `PermissionDeniedException` and `ClientException`
-- of the framework, by their statuses.
abbrev pub not_authorized : String → Exception
not_authorized detail = http_exception 401 detail

abbrev pub not_found : String → Exception
not_found detail = http_exception 404 detail

abbrev pub permission_denied : String → Exception
permission_denied detail = http_exception 403 detail

abbrev pub client_error : String → Exception
client_error detail = http_exception 400 detail

abbrev pub conflict : String → Exception
conflict detail = http_exception 409 detail

-- `if not x: raise e`, and `x` otherwise.
unfoldable pub or_raise : {A : Type 0} → Exception → Option A → Exec A
or_raise e none = raise e
or_raise e (some a) = pure a

abbrev pub sign_in_detail : String
sign_in_detail = "Sign in to the console to do this"

unfoldable pub require_console_actor : Option String → Exec Actor
unfolding or_raise
require_console_actor cookie = do
  found ← resolve cookie
  or_raise (not_authorized sign_in_detail) found

-- `max(1, min(limit, most))` on the integer of a query; `none` is a limit below zero.
unfoldable pub clamp : ℕ → Option ℕ → ℕ
clamp most none = 1
clamp most (some limit) = if ltb limit 1 then 1 else if ltb limit most then limit else most

-- `except WeakPasswordError as exc: raise ClientException`
unfoldable pub weak_to_http : Exception → Exec (Unit {0})
weak_to_http (weak_password detail) = raise (client_error detail)
weak_to_http e = raise e
