-- ===== src/Domain/Evidence.antt =====
-- domain/evidence.py. A datetime is a number of microseconds, in UTC.
use zonegate_backend.Prelude.{ℕ, String, Bool, true, false, Option, List, [], ◌∷◌, ◌||◌, ◌≡◌, refl}
use zonegate_backend.Prelude.{arith, keep}

pub data EvidenceKind : Type 0 where
  number_verification : EvidenceKind
  location_verification : EvidenceKind
  sim_swap : EvidenceKind
  device_swap : EvidenceKind
  reachability : EvidenceKind
  kyc_match : EvidenceKind

-- The value of the member, which is what an f-string shows and what `k.value` sorts by.
unfoldable pub value : EvidenceKind → String
value number_verification = "NUMBER_VERIFICATION"
value location_verification = "LOCATION_VERIFICATION"
value sim_swap = "SIM_SWAP"
value device_swap = "DEVICE_SWAP"
value reachability = "REACHABILITY"
value kyc_match = "KYC_MATCH"

abbrev pub same_kind : EvidenceKind → EvidenceKind → Bool
same_kind number_verification number_verification = true
same_kind location_verification location_verification = true
same_kind sim_swap sim_swap = true
same_kind device_swap device_swap = true
same_kind reachability reachability = true
same_kind kyc_match kyc_match = true
same_kind _ _ = false

-- `k in kinds` on a list.
abbrev pub mem_kind : EvidenceKind → List EvidenceKind → Bool
mem_kind k [] = false
mem_kind k (x ∷ xs) = same_kind x k || mem_kind k xs

pub same_kind→eq : (a b : EvidenceKind) → same_kind a b ≡ true → a ≡ b
same_kind→eq number_verification b h = ground arith
same_kind→eq location_verification b h = ground arith
same_kind→eq sim_swap b h = ground arith
same_kind→eq device_swap b h = ground arith
same_kind→eq reachability b h = ground arith
same_kind→eq kyc_match b h = ground arith

pub same_kind_refl : (a : EvidenceKind) → same_kind a a ≡ true
same_kind_refl number_verification = refl
same_kind_refl _ = refl

-- A `frozenset[EvidenceKind]`: its membership test.
abbrev pub KindSet : Type 0
KindSet = EvidenceKind → Bool

-- The kinds in the order of their values.
abbrev pub by_value : List EvidenceKind
by_value =
    device_swap ∷ kyc_match ∷ location_verification ∷ number_verification ∷ reachability ∷ sim_swap
    ∷ []

pub mem_kind-by_value : (k : EvidenceKind) → mem_kind k by_value ≡ true
mem_kind-by_value number_verification = refl
mem_kind-by_value _ = refl

-- `sorted(kinds, key=lambda k: k.value)`
unfoldable pub sorted_kinds : KindSet → List EvidenceKind
sorted_kinds s = keep s by_value

-- Sorting a set keeps its members.
pub mem_kind-sorted_kinds : (s : KindSet) (k : EvidenceKind) → mem_kind k (sorted_kinds s) ≡ s k
unfolding sorted_kinds
mem_kind-sorted_kinds s number_verification = ground arith
mem_kind-sorted_kinds s _ = ground arith

pub record EvidencePlan : Type 0 where
  pub optional_evidence : List EvidenceKind
  pub rationale : List String

pub record ValidatedEvidencePlan : Type 0 where
  pub mandatory : List EvidenceKind
  pub optional : List EvidenceKind
  pub combined : List EvidenceKind
  pub rationale : List String
  pub planner_consulted : Bool
  pub offered_optional : List EvidenceKind
  pub proposed_optional : List EvidenceKind

pub record CanonicalEvidence : Type 0 where
  pub number_verified : Option Bool
  pub location_verified : Option Bool
  pub recent_sim_swap : Option Bool
  pub recent_device_swap : Option Bool
  pub reachable : Option Bool
  pub kyc_matched : Option Bool
  pub collected_at : ℕ
