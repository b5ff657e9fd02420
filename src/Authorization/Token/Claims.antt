-- ===== src/Authorization/Token/Claims.antt =====
-- When a token of authorization/token.py is accepted, and that it is accepted once.
use zonegate_backend.Authorization.Token.{
  mismatches, Formats, ScopedAuthorizationToken, Expected, verify_scope, claim_token,
}
use zonegate_backend.Prelude.{
  Option, String, ◌≡◌, some, ◌⊎◌, false, ℕ, none, true, ◌≤◌, ◌↔◌, arith, eq_iff, if◌then◌else◌, ltb,
}

-- The presenter's word, where there is one, is the token's.
abbrev pub Agrees : Option String → String → Type 0
Agrees none actual = Unit
Agrees (some expected) actual = (expected ≡ "") ⊎ (actual ≡ expected)

mismatches-Agrees :
    (expected : Option String) (actual : String)
    → (mismatches expected actual ≡ false) ↔ Agrees expected actual
unfolding mismatches
mismatches-Agrees none actual = ground arith
mismatches-Agrees (some expected) actual =
    ground (arith, eq_iff expected "", eq_iff actual expected)

module _ (formats : Formats) (t : ScopedAuthorizationToken) (e : Expected) where
  -- What makes a token acceptable at a time.
  pub record IsClaimable (now : ℕ) : Type 0 where
    pub signed : t.signature ≡ formats.sign t.payload
    pub current : now ≤ t.expires_at
    pub unclaimed : t.claimed ≡ false
    pub for_action : Agrees e.action t.action
    pub for_resource : Agrees e.resource_id t.resource_id
    pub in_zone : Agrees e.zone t.zone
    pub by_actor : Agrees e.actor_id t.actor_id

  verify_scope-valid : ((verify_scope t e).is_valid ≡ true) ↔ (
      (mismatches e.action t.action ≡ false)
      × (mismatches e.resource_id t.resource_id ≡ false)
      × (mismatches e.zone t.zone ≡ false)
      × (mismatches e.actor_id t.actor_id ≡ false))
  unfolding verify_scope
  verify_scope-valid = ground arith

  -- A token is claimed exactly if its signature is that of its own contents, it has not expired, it
  -- was not claimed before, and its action, resource, zone and actor are those that were asked for
  -- (an omitted or empty expectation agrees with all).
  pub claim_iff :
      (now later : ℕ) → ((claim_token formats now later t e).claimed ≡ true) ↔ IsClaimable now
  unfolding claim_token
  claim_iff now later = (
    λ h.
        let (action, resource, zone, actor) = verify_scope-valid.0 (ground arith) in
        record {
          signed = ground (arith, eq_iff t.signature (formats.sign t.payload));
          current = ground arith;
          unclaimed = ground arith;
          for_action = (mismatches-Agrees e.action t.action).0 action;
          for_resource = (mismatches-Agrees e.resource_id t.resource_id).0 resource;
          in_zone = (mismatches-Agrees e.zone t.zone).0 zone;
          by_actor = (mismatches-Agrees e.actor_id t.actor_id).0 actor;
        },
    λ c.
        let scope = verify_scope-valid.1 (
          (mismatches-Agrees e.action t.action).1 c.for_action,
          (mismatches-Agrees e.resource_id t.resource_id).1 c.for_resource,
          (mismatches-Agrees e.zone t.zone).1 c.in_zone,
          (mismatches-Agrees e.actor_id t.actor_id).1 c.by_actor,
        ) in
        ground
          (arith, c.signed, c.current, c.unclaimed, eq_iff t.signature (formats.sign t.payload)),
  )

  -- A claim that succeeds marks the token with the time and changes nothing else; one that fails
  -- gives the token back as it was.
  pub claim_result :
      (now later : ℕ)
      → let c = claim_token formats now later t e in
        c.token ≡ (if c.claimed then record t { claimed = true; claimed_at = some later } else t)
  unfolding claim_token
  claim_result now later = ground arith

  -- Single use: what a successful claim leaves is refused at every later time and for every
  -- expectation, as already claimed while it has not expired, and as expired from then on.
  pub claim_once :
      (now later again after : ℕ) (other : Expected)
      → (claim_token formats now later t e).claimed ≡ true
      → let c = claim_token formats again after (claim_token formats now later t e).token other in
        (c.claimed ≡ false)
        × (c.status
            ≡ (if ltb t.expires_at again then "REJECTED_EXPIRED" else "REJECTED_ALREADY_CLAIMED"))
  unfolding claim_token
  claim_once now later again after other h =
      ground (arith, eq_iff t.signature (formats.sign t.payload))
