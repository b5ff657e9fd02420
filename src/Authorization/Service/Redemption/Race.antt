-- ===== src/Authorization/Service/Redemption/Race.antt =====
-- Two claims of one token that overlap (`claim_token` of authorization/service.py).
use mathlib.Core.Path.{subst}
use zonegate_backend.Runtime.{◌>>=◌, pure, World, Exec, now, writing, call, reading}
use zonegate_backend.Authorization.Token.{
  claim_token as check_claim, Expected, ScopedAuthorizationToken, verify_token, Formats,
}
use zonegate_backend.Storage.{find_token, save_token, get_token}
use zonegate_backend.Authorization.Service.Deployment.{Deployment}
use zonegate_backend.Prelude.{String, ◌≡◌, ℕ, some, true, arith, ok, refl, sym, [], ◌+◌}
use zonegate_backend.Authorization.Service.Resolution.{ClaimAnswer, claim_found, answer_of}
use zonegate_backend.Authorization.Token.Claims.{claim_iff, IsClaimable}

valid_of_claimed :
    (formats : Formats) (now later : ℕ) (t : ScopedAuthorizationToken) (e : Expected)
    → (check_claim formats now later t e).claimed ≡ true
    → (verify_token formats now t e).is_valid ≡ true
unfolding check_claim
valid_of_claimed formats now later t e h = ground (arith, h)

-- The request succeeds with a claim, and the database and the clock stay as they are meant to.
pub record Claims (m : Exec ClaimAnswer) (w : World) : Type 0 where
  pub answer : ClaimAnswer
  pub returned : (m w).0 ≡ ok answer
  pub claimed : answer.claimed ≡ true
  pub no_faults : (m w).1.faults ≡ []
  pub same_clock : (m w).1.clock ≡ w.clock

claim_found-Claims :
    (s : Deployment) (e : Expected) (identifier : String) (t : ScopedAuthorizationToken) (w : World)
    → w.faults ≡ []
    → IsClaimable s.formats t e (w.clock w.ticks)
    → Claims (claim_found s e identifier (some t)) w
unfolding claim_found ◌>>=◌ now save_token writing call pure answer_of
claim_found-Claims s e identifier t w no_faults claimable =
    let at = w.clock w.ticks in
    let claimed = (claim_iff s.formats t e at (w.clock (w.ticks + 1))).1 claimable in
    let valid = valid_of_claimed s.formats at (w.clock (w.ticks + 1)) t e claimed in
    record {
      answer = answer_of (check_claim s.formats at (w.clock (w.ticks + 1)) t e);
      returned = rw (valid, claimed, no_faults) refl;
      claimed = claimed;
      no_faults = rw (valid, claimed, no_faults) refl;
      same_clock = rw (valid, claimed, no_faults) refl;
    }

claim_found-twice :
    (s : Deployment) (e other : Expected) (identifier : String) (t : ScopedAuthorizationToken)
    (w : World)
    → w.faults ≡ []
    → ((n : ℕ) → IsClaimable s.formats t e (w.clock n))
    → ((n : ℕ) → IsClaimable s.formats t other (w.clock n))
    → Claims (claim_found s e identifier (some t)) w
      × Claims (claim_found s other identifier (some t)) (claim_found s e identifier (some t) w).1
claim_found-twice s e other identifier t w no_faults one two =
    let first = claim_found-Claims s e identifier t w no_faults (one w.ticks) in
    (
      first,
      claim_found-Claims s other identifier t _ first.no_faults (
          subst
            (λ (clock : ℕ → ℕ).
              IsClaimable s.formats t other
                (clock ((claim_found s e identifier (some t) w).1.ticks)))
            (sym first.same_clock) (two _)),
    )

read_token :
    (identifier : String) (w : World)
    → w.faults ≡ []
    → get_token identifier w ≡ (ok (find_token identifier w.tables), w)
unfolding get_token reading call
read_token identifier w no_faults = rw (no_faults) refl

-- Two claims that overlap: if a token is acceptable for two requests at every time, no storage call
-- fails, and both requests read it before either has saved it, then both claims succeed: the second
-- save does not look at what the first has left.
pub claim_race :
    (s : Deployment) (e other : Expected) (identifier : String) (t : ScopedAuthorizationToken)
    (w : World)
    → find_token identifier w.tables ≡ some t
    → w.faults ≡ []
    → ((n : ℕ) → IsClaimable s.formats t e (w.clock n))
    → ((n : ℕ) → IsClaimable s.formats t other (w.clock n))
    → let read = get_token identifier w in
      let read_again = get_token identifier read.1 in
      let first = claim_found s e identifier (some t) read_again.1 in
      (read.0 ≡ ok (some t))
      × (read_again.0 ≡ ok (some t))
      × Claims (claim_found s e identifier (some t)) read_again.1
      × Claims (claim_found s other identifier (some t)) first.1
claim_race s e other identifier t w found no_faults one two =
    let reads = read_token identifier w no_faults in
    let (first, second) = claim_found-twice s e other identifier t w no_faults one two in
    rw (reads, reads, found) (refl, refl, first, second)
