-- ===== src/Authorization/Token.antt =====
-- authorization/token.py: scoped, single-use tokens.
pub mod Claims
use zonegate_backend.Prelude.{
  String, ℕ, Bool, Option, if◌then◌else◌, ◌*◌, ◌+◌, some, false, none, not, get_or, true, ◌==◌, ltb,
  ◌&&◌,
}
use zonegate_backend.Prelude.Text.{◌<>◌}

-- What the signature covers.
pub record Payload : Type 0 where
  pub token_id : String
  pub actor_id : String
  pub action : String
  pub resource_id : String
  pub zone : String
  pub decision_id : String
  pub issued_at : ℕ
  pub expires_at : ℕ

pub record ScopedAuthorizationToken : Type 0 where
  pub payload : Payload
  pub open payload use *
  pub signature : String
  pub claimed : Bool
  pub claimed_at : Option ℕ

-- `sign` is the hex HMAC, under the service's secret, of the payload as JSON with sorted keys;
-- `isoformat` is that of a datetime.
pub record Formats : Type 0 where
  pub sign : Payload → String
  pub isoformat : ℕ → String

abbrev pub microseconds : ℕ → ℕ
microseconds seconds = seconds * 1000000

-- The scope of a new token: its actor, action, resource, zone and decision.
pub record Scope : Type 0 where
  pub actor_id : String
  pub action : String
  pub resource_id : String
  pub zone : String
  pub decision_id : String

unfoldable pub payload_for : String → ℕ → ℕ → Scope → Payload
payload_for token_id now ttl_seconds s = record {
  token_id = token_id;
  actor_id = s.actor_id;
  action = s.action;
  resource_id = s.resource_id;
  zone = s.zone;
  decision_id = s.decision_id;
  issued_at = now;
  expires_at = now + microseconds ttl_seconds;
}

-- `TokenService.issue_token`, with the fresh identifier and the time that it draws.
unfoldable pub issue_token : Formats → String → ℕ → ℕ → Scope → ScopedAuthorizationToken
unfolding payload_for
issue_token formats token_id now ttl_seconds s =
    let payload = payload_for token_id now ttl_seconds s in
    record {
      payload = payload;
      signature = formats.sign payload;
      claimed = false;
      claimed_at = none;
    }

-- What the presenter of a token says that it is for.
pub record Expected : Type 0 where
  pub action : Option String
  pub resource_id : Option String
  pub zone : Option String
  pub actor_id : Option String

pub record Verdict : Type 0 where
  pub is_valid : Bool
  pub status : String
  pub message : String

-- `expected and token.field != expected`
unfoldable pub mismatches : Option String → String → Bool
mismatches none actual = false
mismatches (some expected) actual = not (expected == "") && not (actual == expected)

unfoldable pub rejected : String → String → Verdict
rejected status message = record { is_valid = false; status = status; message = message }

unfoldable pub scope_message : String → String → Option String → Verdict
unfolding rejected
scope_message field actual expected = rejected "REJECTED_SCOPE_MISMATCH" (
    "Scope mismatch: token "
    <> field
    <> " '"
    <> actual
    <> "' != requested "
    <> field
    <> " '"
    <> get_or expected ""
    <> "'")

-- The four comparisons of the scope.
unfoldable pub verify_scope : ScopedAuthorizationToken → Expected → Verdict
unfolding scope_message
verify_scope t e =
    if mismatches e.action t.action
    then scope_message "action" t.action e.action
    else if mismatches e.resource_id t.resource_id
    then scope_message "resource" t.resource_id e.resource_id
    else if mismatches e.zone t.zone
    then scope_message "zone" t.zone e.zone
    else if mismatches e.actor_id t.actor_id
    then scope_message "actor" t.actor_id e.actor_id
    else record {
      is_valid = true;
      status = "VALID";
      message = "Token is valid and eligible for claim";
    }

unfoldable pub claimed_text : Formats → Option ℕ → String
claimed_text formats none = "unknown"
claimed_text formats (some time) = formats.isoformat time

-- `TokenService.verify_token`, at the time that it reads.
unfoldable pub verify_token : Formats → ℕ → ScopedAuthorizationToken → Expected → Verdict
unfolding rejected claimed_text
verify_token formats now t e =
    if not (t.signature == formats.sign t.payload)
    then rejected "REJECTED_INVALID_SIGNATURE" "Cryptographic signature verification failed"
    else if ltb t.expires_at now
    then rejected "REJECTED_EXPIRED" ("Token expired at " <> formats.isoformat t.expires_at)
    else if t.claimed
    then rejected "REJECTED_ALREADY_CLAIMED"
        ("Token already claimed at " <> claimed_text formats t.claimed_at)
    else verify_scope t e

pub record Claim : Type 0 where
  pub claimed : Bool
  pub status : String
  pub message : String
  pub token : ScopedAuthorizationToken

-- `TokenService.claim_token`: the clock is read by the verification, and again for `claimed_at`.
unfoldable pub claim_token : Formats → ℕ → ℕ → ScopedAuthorizationToken → Expected → Claim
unfolding verify_token
claim_token formats now later t e =
    let v = verify_token formats now t e in
    if v.is_valid
    then record {
      claimed = true;
      status = "CLAIMED";
      message = "Token successfully claimed for physical execution";
      token = record t { claimed = true; claimed_at = some later };
    }
    else record { claimed = false; status = v.status; message = v.message; token = t }
