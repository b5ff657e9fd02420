-- ===== src/Authorization/Service/Redemption.antt =====
-- `AuthorizationService.claim_token` of authorization/service.py: a token is spent once by claims
-- that follow each other.
pub mod Race
use mathlib.Core.Path.{subst}
use zonegate_backend.Runtime.{◌>>=◌, Tables, pure, World, Exec, now, writing, call, reading}
use zonegate_backend.Authorization.Token.{
  claim_token as check_claim, Expected, ScopedAuthorizationToken, verify_token, Formats, Claim,
}
use zonegate_backend.Storage.{find_token, with_token, save_token, get_token}
use zonegate_backend.Authorization.Service.Deployment.{Deployment}
use zonegate_backend.Prelude.{
  String, ◌≡◌, ℕ, some, if◌then◌else◌, Option-cases, inl, true, inr, arith, ◌≢◌, ap, Bool-cases,
  eq_iff, ◌∙◌, ok, false, refl, sym, [], ◌+◌,
}
use zonegate_backend.Authorization.Service.Resolution.{
  ClaimAnswer, claim_found, answer_of, claim_token,
}
use zonegate_backend.Runtime.Triples.{
  Triple, Triple-bind, Triple-now, Triple-writing, Triple-pure, Triple-reading, Triple-given,
  Triple-weaken,
}
use zonegate_backend.Authorization.Token.Claims.{claim_result, claim_iff, IsClaimable}

-- Tokens are on record under their own identifiers.
pub record TokensKeyed (t : Tables) : Type 0 where
  pub by_id :
      (k : String) (token : ScopedAuthorizationToken) → t.tokens k ≡ some token → token.token_id ≡ k

-- A token that an identifier finds is found by it again once it is saved in a changed form.
find_token-with_token :
    (t : Tables) (identifier : String) (token changed : ScopedAuthorizationToken)
    → TokensKeyed t
    → find_token identifier t ≡ some token
    → changed.token_id ≡ token.token_id
    → find_token identifier (with_token changed t) ≡ some changed
unfolding find_token with_token
find_token-with_token t identifier token changed keyed found same =
    elim (Option-cases (t.tokens identifier)) [
      | inl missing ↦ elim (Option-cases (t.token_sig_index identifier)) [
        | inl unindexed ↦ absurd (ground (arith, found, missing, unindexed))
        | inr (k, indexed) ↦
            let at_k : t.tokens k ≡ some token = ground (arith, found, missing, indexed) in
            let id_is_k = keyed.by_id k token at_k in
            let other : identifier ≢ k =
              λ e. absurd (ground (arith, missing, at_k, ap t.tokens e)) in
            ground (
              arith,
              missing,
              indexed,
              other,
              eq_iff changed.token_id identifier,
              eq_iff changed.signature identifier,
              eq_iff changed.token_id k,
              same,
              id_is_k,
            )
      ]
      | inr (direct, e) ↦
          let is_direct : direct ≡ token = ground (arith, found, e) in
          let id_is = keyed.by_id identifier direct e in
          ground (arith, eq_iff changed.token_id identifier, same, id_is, is_direct)
    ]

-- What a claim that finds a token answers and leaves.
pub record IsAnswered (s : Deployment) (e : Expected) (found : ScopedAuthorizationToken)
    (before : Tables) (answer : ClaimAnswer) (t : Tables) : Type 0 where
  pub checked_at : ℕ
  pub claimed_at : ℕ
  pub by_check : answer ≡ answer_of (check_claim s.formats checked_at claimed_at found e)
  pub saved : t ≡ (
      if answer.claimed
      then with_token (record found { claimed = true; claimed_at = some claimed_at }) before
      else before)

module _ (s : Deployment) (e : Expected) (identifier : String) where
  claim_saved :
      (found : ScopedAuthorizationToken) (before : Tables) (checked_at claimed_at : ℕ)
      → let c = check_claim s.formats checked_at claimed_at found e in
        Triple
          (λ t. t ≡ before)
          (if c.claimed then save_token c.token else pure tt)
          (λ _ t. t ≡ (
            if c.claimed
            then with_token (record found { claimed = true; claimed_at = some claimed_at }) before
            else before))
  unfolding save_token
  claim_saved found before checked_at claimed_at =
      let c = check_claim s.formats checked_at claimed_at found e in
      let result = claim_result s.formats found e checked_at claimed_at in
      elim (Bool-cases c.claimed) [
        | inl holds ↦ rw holds (
            Triple-writing _ λ t p.
              ap (with_token c.token) p ∙ ap (λ k. with_token k before) (result ∙ rw holds refl))
        | inr fails ↦ rw fails (Triple-pure tt (λ t p. p))
      ]

  claim_found-IsAnswered :
      (found : ScopedAuthorizationToken) (before : Tables)
      → Triple
          (λ t. t ≡ before)
          (claim_found s e identifier (some found))
          (IsAnswered s e found before)
  unfolding claim_found answer_of
  claim_found-IsAnswered found before =
      Triple-bind {Q = λ _ t. t ≡ before} _ _ Triple-now λ checked_at.
        Triple-bind {Q = λ _ t. t ≡ before} _ _
          (elim (Bool-cases (verify_token s.formats checked_at found e).is_valid) [
            | inl holds ↦ rw holds Triple-now
            | inr fails ↦ rw fails (Triple-pure checked_at (λ t p. p))
          ])
          λ claimed_at. Triple-bind _ _ (claim_saved found before checked_at claimed_at) λ _.
            Triple-pure _ λ t h. record {
              checked_at = checked_at;
              claimed_at = claimed_at;
              by_check = refl;
              saved = h;
            }

  claim_token-IsAnswered :
      (before : Tables)
      → Triple
          (λ t. t ≡ before)
          (claim_token s identifier e)
          (λ answer t.
            answer.claimed ≡ true
            → (found : ScopedAuthorizationToken) × (find_token identifier before ≡ some found)
              × IsAnswered s e found before answer t)
  unfolding claim_token get_token claim_found pure
  claim_token-IsAnswered before =
      Triple-bind {Q = λ found t. (find_token identifier before ≡ found) × (t ≡ before)} _ _
        (Triple-reading (find_token identifier) (λ t p. (rw p refl, p)))
        λ found. Triple-given _ λ known. elim (Option-cases found) [
          | inl e' ↦ rw (e', claim_found) (Triple-pure _ λ t p h. absurd (ground (arith, h)))
          | inr (token, e') ↦ rw e' (
              Triple-weaken _ (λ answer t h claimed. (token, known ∙ e', h))
                (claim_found-IsAnswered token before))
        ]

-- The answer's word is the check's.
by_claimed : {answer : ClaimAnswer} (c : Claim) → answer ≡ answer_of c → answer.claimed ≡ c.claimed
unfolding answer_of
by_claimed c h = ap (λ (a : ClaimAnswer). a.claimed) h

module _ (s : Deployment) (e other : Expected) (identifier : String) where
  -- Two claims one after the other: once a claim of a token has succeeded, a later claim that finds
  -- that token by the same identifier does not succeed, whatever it expects and however the clock
  -- stands (tokens are on record under their own identifiers).
  pub claim_token_once :
      (w later : World) (first second : ClaimAnswer)
      → TokensKeyed w.tables
      → (claim_token s identifier e w).0 ≡ ok first
      → first.claimed ≡ true
      → later.tables ≡ (claim_token s identifier e w).1.tables
      → (claim_token s identifier other later).0 ≡ ok second
      → second.claimed ≡ false
  claim_token_once w later first second keyed h claimed same h' = elim (Bool-cases second.claimed) [
    | inr refused ↦ refused
    | inl again ↦
        let (found, at_first, one) =
          (claim_token-IsAnswered s e identifier w.tables).at w refl first h claimed in
        let (token, at_second, two) =
          (claim_token-IsAnswered s other identifier later.tables).at later refl second h' again in
        let changed : ScopedAuthorizationToken = record found {
          claimed = true;
          claimed_at = some one.claimed_at;
        } in
        let after : later.tables ≡ with_token changed w.tables =
          same ∙ one.saved ∙ rw claimed refl in
        let is_changed : token ≡ changed = ground (
          arith,
          at_second,
          ap (find_token identifier) after,
          find_token-with_token w.tables identifier found changed keyed at_first refl,
        ) in
        let checked =
          (claim_iff s.formats token other two.checked_at two.claimed_at).0
            (sym (by_claimed _ two.by_check) ∙ again) in
        absurd (cc (checked.unclaimed, ap (λ (t : ScopedAuthorizationToken). t.claimed) is_changed))
  ]
