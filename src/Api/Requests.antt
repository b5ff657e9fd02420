-- ===== src/Api/Requests.antt =====
-- The routes of app.py: every request that src/zonegate/api serves.
use zonegate_backend.Runtime.{◌>>=◌, Exec, pure, World, Exception}
use zonegate_backend.Api.Actors
use zonegate_backend.Api.Auth
use zonegate_backend.Api.Authorizations
use zonegate_backend.Api.Thresholds
use zonegate_backend.Api.Records
use zonegate_backend.Api.Actors.{EnrollmentRequest, PermissionUpdateRequest}
use zonegate_backend.Api.Auth.{LoginRequest}
use zonegate_backend.Api.Authorizations.{HoldResolutionRequest}
use zonegate_backend.Authorization.Service.Deployment.{Deployment}
use zonegate_backend.Prelude.{List, String, Option, Bool, ℕ, Result, ok}
use zonegate_backend.Domain.{TransactionRequest, DecisionOutcome}
use zonegate_backend.Authorization.Console.{ConsoleAuth}
use zonegate_backend.Domain.PolicyConfig.{PolicyConfig}
use zonegate_backend.Authorization.Token.{Expected}

-- What only a signed-in authority may do.
pub data ConsoleRequest : Type 0 where
  post_resolve : String → HoldResolutionRequest → ConsoleRequest
  post_actor : EnrollmentRequest → ConsoleRequest
  put_permissions : String → PermissionUpdateRequest → ConsoleRequest
  put_config : PolicyConfig → ConsoleRequest
  post_password : String → ConsoleRequest

pub data Request : Type 0 where
  console : ConsoleRequest → Request
  post_stream : TransactionRequest → Request
  post_authorization : TransactionRequest → Request
  get_authorizations : Option DecisionOutcome → Bool → Option ℕ → Request
  get_contexts : Option DecisionOutcome → Bool → Option ℕ → Request
  get_authorization : String → Request
  get_authorization_context : String → Request
  get_roster : Option ℕ → Request
  get_actor_by_id : String → Request
  post_login : LoginRequest → Request
  get_session : Request
  post_logout : Request
  get_thresholds : Request
  get_categories : Request
  get_zones : Request
  post_claim : String → Expected → Request
  get_token_by_id : String → Request
  get_receipt_by_id : String → Request
  get_health : Request

-- What the application is built from, and whether cookies are for TLS alone.
pub record Service : Type 0 where
  pub deployment : Deployment
  pub auth : ConsoleAuth
  pub secure : Bool

-- The answer's body is left out: each handler has its own.
abbrev pub discard : {A : Type 0} → Exec A → Exec (Unit {0})
discard m = m >>= λ _. pure tt

abbrev streamed : (List Authorizations.Message × Bool) × World → Result Exception (Unit {0}) × World
streamed answer = (ok tt, answer.1)

unfoldable pub serve_console : Service → Option String → ConsoleRequest → Exec (Unit {0})
serve_console s cookie (ConsoleRequest.post_resolve id request) =
    discard (Authorizations.resolve_endpoint s.deployment cookie id request)
serve_console s cookie (ConsoleRequest.post_actor request) =
    discard (Actors.enroll_actor s.auth cookie request)
serve_console s cookie (ConsoleRequest.put_permissions id request) =
    discard (Actors.update_permissions cookie id request)
serve_console s cookie (ConsoleRequest.put_config config) =
    discard (Thresholds.update_config cookie config)
serve_console s cookie (ConsoleRequest.post_password password) =
    Auth.change_password s.auth cookie password

unfoldable pub serve : Service → Option String → Request → Exec (Unit {0})
unfolding serve_console
serve s cookie (Request.console request) = serve_console s cookie request
serve s cookie (Request.post_stream tx) =
    λ w. streamed (Authorizations.stream_authorization s.deployment tx w)
serve s cookie (Request.post_authorization tx) =
    discard (Authorizations.request_authorization s.deployment tx)
serve s cookie (Request.get_authorizations outcome pending limit) =
    discard (Authorizations.list_authorizations outcome pending limit)
serve s cookie (Request.get_contexts outcome pending limit) =
    discard (Authorizations.list_contexts outcome pending limit)
serve s cookie (Request.get_authorization id) = discard (Authorizations.read_decision id)
serve s cookie (Request.get_authorization_context id) = discard (Authorizations.read_context id)
serve s cookie (Request.get_roster limit) = discard (Actors.list_roster limit)
serve s cookie (Request.get_actor_by_id id) = discard (Actors.read_actor id)
serve s cookie (Request.post_login request) = discard (Auth.login s.auth s.secure request)
serve s cookie Request.get_session = discard (Auth.read_session cookie)
serve s cookie Request.post_logout = discard (Auth.logout s.secure cookie)
serve s cookie Request.get_thresholds = discard Thresholds.get_config
serve s cookie Request.get_categories = discard Thresholds.list_categories
serve s cookie Request.get_zones = pure tt
serve s cookie (Request.post_claim id expected) = discard (Records.claim s.deployment id expected)
serve s cookie (Request.get_token_by_id id) = discard (Records.show_token id)
serve s cookie (Request.get_receipt_by_id id) = discard (Records.read_receipt id)
serve s cookie Request.get_health = pure tt
