-- ===== src/Api/Auth.antt =====
-- api/auth.py: signing in and out of the console.
use zonegate_backend.Runtime.{
  ◌>>=◌, Exception, Exec, ◌>>◌, catch, pure, invalid_credentials, raise, console_access_denied,
}
use zonegate_backend.Authorization.Console.{resolve, ConsoleAuth, sign_out, sign_in, set_password}
use zonegate_backend.Prelude.{Option, Bool, String, ℕ, true, some, ◌*◌}
use zonegate_backend.Domain.{Actor, ConsoleSession}
use zonegate_backend.Prelude.Text.{strip}
use zonegate_backend.Api.Guards.{not_authorized, or_raise, weak_to_http}

pub record LoginRequest : Type 0 where
  pub actor_id : String
  pub password : String

abbrev pub session_cookie_name : String
session_cookie_name = "zonegate_session"

-- The attributes that the framework is given.
pub record Cookie : Type 0 where
  pub key : String
  pub value : String
  pub path : String
  pub httponly : Bool
  pub samesite : String
  pub secure : Bool
  pub max_age : Option ℕ

unfoldable pub session_cookie : String → Bool → Option ℕ → Cookie
session_cookie value secure max_age = record {
  key = session_cookie_name;
  value = value;
  path = "/";
  httponly = true;
  samesite = "lax";
  secure = secure;
  max_age = max_age;
}

-- `except InvalidCredentialsError as exc: raise NotAuthorizedException`; a refusal of the console
-- itself is one of its subclasses.
unfoldable pub denied_to_http : Exception → Exec (Actor × ConsoleSession)
denied_to_http (invalid_credentials detail) = raise (not_authorized detail)
denied_to_http (console_access_denied detail) = raise (not_authorized detail)
denied_to_http e = raise e

-- The actor of the response, and its cookie. `secure` is `settings.SESSION_COOKIE_SECURE`.
unfoldable pub login : ConsoleAuth → Bool → LoginRequest → Exec (Actor × Cookie)
unfolding denied_to_http session_cookie
login auth secure request = do
  (actor, session) ← catch (sign_in auth (strip request.actor_id) request.password) denied_to_http
  pure (actor, session_cookie session.session_id secure (some (auth.session_ttl_hours * 3600)))

unfoldable pub read_session : Option String → Exec Actor
read_session cookie = do
  found ← resolve cookie
  or_raise (not_authorized "No console session") found

unfoldable pub logout : Bool → Option String → Exec Cookie
unfolding session_cookie
logout secure cookie = do sign_out cookie; pure (session_cookie "" secure (some 0))

unfoldable pub change_password : ConsoleAuth → Option String → String → Exec (Unit {0})
change_password auth cookie password = do
  found ← resolve cookie
  actor ← or_raise (not_authorized "No console session") found
  catch (set_password auth actor.actor_id password) weak_to_http
