-- ===== src/Api/Records.antt =====
-- api/receipts.py, api/tokens.py and api/health.py
use zonegate_backend.Api.Guards.{or_raise, not_found}
use zonegate_backend.Runtime.{◌>>=◌, Exec, pure}
use zonegate_backend.Authorization.Service.{claim_token}
use zonegate_backend.Storage.{get_token, get_receipt}
use zonegate_backend.Prelude.{Bool, String, Option, ℕ, if◌then◌else◌, some, none}
use zonegate_backend.Authorization.Service.Deployment.{Deployment}
use zonegate_backend.Authorization.Token.{Expected, ScopedAuthorizationToken}
use zonegate_backend.Prelude.Text.{◌<>◌}
use zonegate_backend.Domain.{Receipt}

unfoldable pub read_receipt : String → Exec Receipt
read_receipt receipt_id = do
  found ← get_receipt receipt_id
  or_raise (not_found ("Receipt '" <> receipt_id <> "' not found")) found

unfoldable pub show_token : String → Exec ScopedAuthorizationToken
show_token token_id = do
  found ← get_token token_id
  or_raise (not_found ("Authorization token '" <> token_id <> "' not found")) found

pub record TokenClaimResponse : Type 0 where
  pub claimed : Bool
  pub status : String
  pub message : String
  pub token_id : String
  pub claimed_at : Option ℕ

abbrev claim_time : Option ScopedAuthorizationToken → Option ℕ
claim_time none = none
claim_time (some token) = token.claimed_at

-- `token_id` is the identifier or the signature that the client sent.
unfoldable pub claim : Deployment → String → Expected → Exec TokenClaimResponse
claim s token_id expected = do
  answer ← claim_token s token_id expected
  pure (record {
    claimed = answer.claimed;
    status = answer.status;
    message = answer.message;
    token_id = token_id;
    claimed_at = claim_time answer.token;
  })

pub record Health : Type 0 where
  pub status : String
  pub zova_persistence : String
  pub runtime : String × String
  pub nokia_camara_gateway : String

-- `llm_ok` is what `check_health` of the language-model client answers.
unfoldable pub health_check : String → Bool → Health
health_check provider_name llm_ok = record {
  status = "healthy";
  zova_persistence = "connected";
  runtime = (provider_name <> "_agent_runtime", if llm_ok then "available" else "unavailable");
  nokia_camara_gateway = "configured";
}
