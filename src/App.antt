-- ===== src/App.antt =====
-- src/zonegate/app.py and config.py: what a deployment is built from.
pub mod Seeding
pub mod Seeded
pub mod Start
pub mod Complete
pub mod Restart
use zonegate_backend.Runtime.{◌>>=◌, ◌>>◌}
use zonegate_backend.Domain.{Actor, KindSet, OperatorCredential, DeviceBinding}
use zonegate_backend.Authorization.Console.{ConsoleAuth, Passwords, set_password}
use zonegate_backend.Prelude.{
  true, Result, List, if◌then◌else◌, Option, String, ℕ, some, false, ◌==◌, map, err, ◌∷◌, Bool, [],
  ok, ◌||◌, none, suc, contains, keep, not, get_or,
}
use zonegate_backend.Runtime.{Exec, ◌>>=◌, pure, ◌>>◌, now, configure}
use zonegate_backend.Api.Actors.{stripped_set}
use zonegate_backend.Prelude.Splitting.{split}
use zonegate_backend.Prelude.Text.{lower, ◌<>◌, strip, decimal}
use zonegate_backend.Nokia.Live.{attestable_kinds}
use zonegate_backend.Storage.{
  get_credential, get_actor, save_actor, save_device_binding, get_policy_config,
}
use zonegate_backend.Nokia.Rest.{rest_attestable_kinds}
use zonegate_backend.Domain.PolicyConfig.{default_config}

-- `Settings`; the timeout is a text, since it is only handed on.
pub record Settings : Type 0 where
  pub app_env : String
  pub app_host : String
  pub app_port : ℕ
  pub llm_provider : String
  pub ollama_base_url : String
  pub ollama_model : String
  pub ollama_timeout : String
  pub gemini_api_key : String
  pub gemini_model : String
  pub carrier_mode : String
  pub nokia_base_url : String
  pub nokia_api_key : String
  pub nokia_mcp_url : String
  pub nokia_api_host : String
  pub nokia_mcp_enabled : Bool
  pub nokia_mcp_config_path : String
  pub nokia_mcp_static_allowlist : String
  pub zova_db_path : String
  pub token_secret_key : String
  pub session_ttl_hours : ℕ
  pub session_cookie_secure : Bool
  pub demo_operator_password : String
  pub cors_allow_origins : String

abbrev pub default_settings : Settings
default_settings = record {
  app_env = "development";
  app_host = "0.0.0.0";
  app_port = 8000;
  llm_provider = "ollama";
  ollama_base_url = "http://localhost:11434";
  ollama_model = "qwen2.5:7b";
  ollama_timeout = "120.0";
  gemini_api_key = "";
  gemini_model = "gemini-3.6-flash";
  carrier_mode = "live";
  nokia_base_url = "https://api.nokia.example.com";
  nokia_api_key = "mock-key";
  nokia_mcp_url = "https://mcp.prodeu.apihub.nokia.io";
  nokia_api_host = "network-as-code.nokia.rapidapi.com";
  nokia_mcp_enabled = true;
  nokia_mcp_config_path = "nokia_mcp.json";
  nokia_mcp_static_allowlist = "";
  zova_db_path = "data/zonegate.zova";
  token_secret_key = "zonegate-token-secret-key-initial-scaffold";
  session_ttl_hours = 12;
  session_cookie_secure = false;
  demo_operator_password = "zonegate-demo";
  cors_allow_origins = "http://localhost:3000,http://127.0.0.1:3000";
}

-- The clients that are built, with what they are given.
pub data LlmClient : Type 0 where
  gemini_client : String → String → LlmClient
  ollama_client : String → String → String → LlmClient

pub data CarrierClient : Type 0 where
  live_client : String → String → String → CarrierClient
  rest_client : String → String → CarrierClient

unfoldable pub select_llm : Settings → LlmClient
select_llm cfg =
    if lower cfg.llm_provider == "gemini"
    then gemini_client cfg.gemini_api_key cfg.gemini_model
    else ollama_client cfg.ollama_base_url cfg.ollama_model cfg.ollama_timeout

abbrev pub placeholder_keys : List String
placeholder_keys = "mock-key" ∷ "mock-nokia-api-key" ∷ []

abbrev pub missing_key_message : String
missing_key_message =
    "CARRIER_MODE=live needs a real Nokia Network as Code key in "
    <> "NOKIA_API_KEY (CARRIER_KEY under Docker Compose). Set one, or use "
    <> "CARRIER_MODE=rest with NOKIA_BASE_URL pointing at a CAMARA-conformant "
    <> "operator endpoint."

-- An error is the text of the RuntimeError.
unfoldable pub select_carrier : Settings → Result String CarrierClient
select_carrier cfg =
    if lower cfg.carrier_mode == "live"
    then (if cfg.nokia_api_key == "" || contains cfg.nokia_api_key placeholder_keys
        then err missing_key_message
        else ok (live_client cfg.nokia_api_key cfg.nokia_mcp_url cfg.nokia_api_host))
    else ok (rest_client cfg.nokia_base_url cfg.nokia_api_key)

-- `nokia_client.attestable_kinds`
unfoldable pub client_attests : CarrierClient → KindSet
client_attests (live_client key url host) = attestable_kinds
client_attests (rest_client url key) = rest_attestable_kinds

-- The allowlist of the tool client, if there is one.
unfoldable pub mcp_allowlist : Settings → Option (List String)
unfolding stripped_set split
mcp_allowlist cfg =
    if cfg.nokia_mcp_enabled
    then some (stripped_set (split "," cfg.nokia_mcp_static_allowlist))
    else none

unfoldable pub cors_origins : Settings → List String
unfolding split
cors_origins cfg =
    map strip (keep (λ origin. not (strip origin == "")) (split "," cfg.cors_allow_origins))
