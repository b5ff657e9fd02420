-- ===== src/Tests/Tokens.antt =====
-- authorization/token.py and the claims of authorization/service.py on one token.
use zonegate_backend.Authorization.Service.Redemption.Race.{Claims, claim_race}
use zonegate_backend.Authorization.Token.{
  claim_token as check_claim, issue_token, Expected, ScopedAuthorizationToken, Scope,
}
use zonegate_backend.Authorization.Service.{claim_token, ClaimAnswer, answer_of, claim_found}
use zonegate_backend.Storage.{find_token, get_token}
use zonegate_backend.Tests.Fixtures.{port, world_of, formats, enrolled, no_table}
use zonegate_backend.Runtime.{World}
use zonegate_backend.Prelude.{
  some, ℕ, ◌≡◌, false, true, refl, none, ◌≤◌, ok, arith, ◌↔◌, update, inr, String, eq_iff,
}
use zonegate_backend.Authorization.Token.Claims.{IsClaimable, claim_iff}
use zonegate_backend.Authorization.Service.Redemption.{claim_token_once, TokensKeyed}

abbrev scope : Scope
scope = record {
  actor_id = "alice";
  action = "RELEASE_CARGO";
  resource_id = "CONTAINER_7";
  zone = "PORT_GATE_17";
  decision_id = "dec_9";
}

-- A token whose time has long not come.
abbrev gate_token : ScopedAuthorizationToken
gate_token = issue_token formats "tok_5" 900 300 scope

abbrev at_gate : Expected
at_gate = record {
  action = some "RELEASE_CARGO";
  resource_id = none;
  zone = some "PORT_GATE_17";
  actor_id = none;
}

claimable : (n : ℕ) → n ≤ 5000 → IsClaimable formats gate_token at_gate n
unfolding issue_token zonegate_backend.Authorization.Token.payload_for
claimable n early = record {
  signed = refl;
  current = omega arith;
  unclaimed = refl;
  for_action = inr refl;
  for_resource = tt;
  in_zone = inr refl;
  by_actor = tt;
}

claim_iff_example :
    ((check_claim formats 1000 1001 gate_token at_gate).claimed ≡ true)
    ↔ IsClaimable formats gate_token at_gate 1000
claim_iff_example = claim_iff formats gate_token at_gate 1000 1001

claimed_test : (check_claim formats 1000 1001 gate_token at_gate).claimed ≡ true
claimed_test = claim_iff_example.1 (claimable 1000 (omega arith))

abbrev issued : World
issued =
    record (world_of (record enrolled {
      tokens = update no_table "tok_5" gate_token;
      token_sig_index = update no_table "sig_tok_5" "tok_5";
    })) { clock = λ n. 1000 }

token_keyed :
    (k : String) (t : ScopedAuthorizationToken) → issued.tables.tokens k ≡ some t → t.token_id ≡ k
unfolding issue_token zonegate_backend.Authorization.Token.payload_for
token_keyed k t h = ground (arith, h, eq_iff "tok_5" k)

issued_keyed : TokensKeyed issued.tables
issued_keyed = record { by_id = λ k t h. token_keyed k t h }

abbrev first_answer : ClaimAnswer
first_answer = answer_of (check_claim formats 1000 1000 gate_token at_gate)

abbrev first_answer_token : ScopedAuthorizationToken
first_answer_token = record gate_token { claimed = true; claimed_at = some 1000 }

first_answer_claimed : first_answer.claimed ≡ true
unfolding answer_of
first_answer_claimed =
    (claim_iff formats gate_token at_gate 1000 1000).1 (claimable 1000 (omega arith))

first_claim : (claim_token port "sig_tok_5" at_gate issued).0 ≡ ok first_answer
unfolding claim_token zonegate_backend.Runtime.◌>>=◌ zonegate_backend.Runtime.reading
    zonegate_backend.Runtime.call zonegate_backend.Runtime.writing zonegate_backend.Runtime.pure
    zonegate_backend.Runtime.now zonegate_backend.Storage.get_token
    zonegate_backend.Storage.save_token find_token claim_found answer_of
    zonegate_backend.Authorization.Token.verify_token
    zonegate_backend.Authorization.Token.verify_scope
    zonegate_backend.Authorization.Token.mismatches check_claim issue_token
    zonegate_backend.Authorization.Token.payload_for
first_claim = refl

abbrev later_answer : ClaimAnswer
later_answer = answer_of (check_claim formats 1000 1000 first_answer_token at_gate)

abbrev after_claim : World
after_claim = (claim_token port "sig_tok_5" at_gate issued).1

second_claim : (claim_token port "sig_tok_5" at_gate after_claim).0 ≡ ok later_answer
unfolding claim_token zonegate_backend.Runtime.◌>>=◌ zonegate_backend.Runtime.reading
    zonegate_backend.Runtime.call zonegate_backend.Runtime.writing zonegate_backend.Runtime.pure
    zonegate_backend.Runtime.now zonegate_backend.Storage.get_token
    zonegate_backend.Storage.save_token zonegate_backend.Storage.with_token find_token claim_found
    answer_of zonegate_backend.Authorization.Token.verify_token
    zonegate_backend.Authorization.Token.verify_scope
    zonegate_backend.Authorization.Token.mismatches check_claim issue_token
    zonegate_backend.Authorization.Token.payload_for
second_claim = refl

claim_token_once_example : later_answer.claimed ≡ false
claim_token_once_example =
    claim_token_once port at_gate at_gate "sig_tok_5" issued after_claim first_answer later_answer
      issued_keyed first_claim first_answer_claimed refl second_claim

found_by_signature : find_token "sig_tok_5" issued.tables ≡ some gate_token
unfolding find_token
found_by_signature = refl

claim_race_example :
    let read = get_token "sig_tok_5" issued in
    let read_again = get_token "sig_tok_5" read.1 in
    let first = claim_found port at_gate "sig_tok_5" (some gate_token) read_again.1 in
    (read.0 ≡ ok (some gate_token))
    × (read_again.0 ≡ ok (some gate_token))
    × Claims (claim_found port at_gate "sig_tok_5" (some gate_token)) read_again.1
    × Claims (claim_found port at_gate "sig_tok_5" (some gate_token)) first.1
claim_race_example =
    claim_race port at_gate at_gate "sig_tok_5" gate_token issued found_by_signature refl
      (λ n. claimable 1000 (omega arith)) (λ n. claimable 1000 (omega arith))
