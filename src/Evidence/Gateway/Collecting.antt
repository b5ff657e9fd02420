-- ===== src/Evidence/Gateway/Collecting.antt =====
-- One check of evidence/gateway.py, and the five of them in their order.
use mathlib.Core.List.{append-nil}
use mathlib.Core.Path.{subst}
use zonegate_backend.Domain.{
  EvidenceKind, number_verification, location_verification, sim_swap, device_swap, reachability,
  CanonicalEvidence, mem_kind, same_kind→eq,
}
use zonegate_backend.Prelude.{
  Bool, List, String, ◌≡◌, Option, true, ◌∷◌, none, ℕ, arith, [], ok, keep, some, false, ◌++◌, err,
  refl, inr, inl, Bool-cases, ok-injective, sym,
}
use zonegate_backend.Evidence.Gateway.{
  Answer, Geofence, Carrier, failed, Collected, answered, check, collect_checks, ◌>>=◌, is_inside,
  declined, read_answer,
}
use zonegate_backend.Domain.Kinds.{mem_kind-append}

-- The order in which the gateway goes through the checks.
abbrev pub ask_order : List EvidenceKind
ask_order = number_verification ∷ location_verification ∷ sim_swap ∷ device_swap ∷ reachability ∷ []

-- What a field of the evidence holds: nothing unless the check is in the plan and was answered, and
-- then what the carrier said.
abbrev pub Holds : {A : Type 0} → Bool → Answer A → (A → Option Bool) → Option Bool → Type 0
Holds false answer read field = field ≡ none
Holds true (answered a) read field = field ≡ read a
Holds true declined read field = field ≡ none
Holds true (failed text) read field = ⊥

-- The kinds of a list that are in the plan, in the list's order.
pub planned : List EvidenceKind → List EvidenceKind → List EvidenceKind
planned combined = keep (λ k. mem_kind k combined)

pub planned-cons :
    (combined : List EvidenceKind) (k : EvidenceKind) (ks : List EvidenceKind)
    → planned combined (k ∷ []) ++ planned combined ks ≡ planned combined (k ∷ ks)
unfolding planned
planned-cons combined k ks = ground arith

pub planned-nil : (combined : List EvidenceKind) → planned combined [] ≡ []
unfolding planned
planned-nil combined = refl

-- If the collection succeeds, `P` holds of what was asked and of its value.
pub record Ends {A : Type 0} (P : List EvidenceKind → A → Type 0) (c : Collected A) : Type 0 where
  pub at : (a : A) → c.1 ≡ ok a → P c.0 a

pub Ends-bind :
    {A B : Type 0} {P : List EvidenceKind → A → Type 0} {Q : List EvidenceKind → B → Type 0}
    (c : Collected A) (f : A → Collected B)
    → Ends P c
    → ((asked : List EvidenceKind) (a : A) → P asked a → Ends (λ more b. Q (asked ++ more) b) (f a))
    → Ends Q (c >>= f)
Ends-bind (asked, ok a) f hc hf = record { at = λ b h. (hf asked a (hc.at a refl)).at b h }
Ends-bind (asked, err e) f hc hf = record { at = λ b h. cc }

-- What a check that ends well has asked, and what it gives.
abbrev pub Checked :
    {A : Type 0}
    → EvidenceKind
    → List EvidenceKind
    → Answer A
    → (A → Option Bool)
    → List EvidenceKind
    → Option Bool
    → Type 0
Checked kind combined answer read asked field =
    (asked ≡ planned combined (kind ∷ [])) × Holds (mem_kind kind combined) answer read field

pub Holds-answer :
    {A : Type 0} (answer : Answer A) (read : A → Option Bool) {field : Option Bool}
    → read_answer read answer ≡ ok field
    → Holds true answer read field
unfolding read_answer
Holds-answer (answered a) read h = sym (ok-injective h)
Holds-answer declined read h = sym (ok-injective h)
Holds-answer (failed text) read h = cc

pub Checked-check :
    {A : Type 0} (kind : EvidenceKind) (combined : List EvidenceKind) (answer : Answer A)
    (read : A → Option Bool)
    → Ends (Checked kind combined answer read) (check kind combined answer read)
unfolding check planned
Checked-check kind combined answer read = record {
  at = λ field h. elim (Bool-cases (mem_kind kind combined)) [
    | inl planned_kind ↦ rw planned_kind (refl, Holds-answer answer read (rw planned_kind at h))
    | inr skipped ↦ rw skipped (refl, sym (ok-injective (rw skipped at h)))
  ];
}

-- Every kind that was asked about is in the plan.
abbrev pub AsksOnly : {A : Type 0} → List EvidenceKind → Collected A → Type 0
AsksOnly combined c = (k : EvidenceKind) → mem_kind k c.0 ≡ true → mem_kind k combined ≡ true

pub AsksOnly-bind :
    {A B : Type 0} (combined : List EvidenceKind) (c : Collected A) (f : A → Collected B)
    → AsksOnly combined c
    → ((a : A) → AsksOnly combined (f a))
    → AsksOnly combined (c >>= f)
AsksOnly-bind combined (asked, ok a) f hc hf k h =
    ground (arith, mem_kind-append k asked (f a).0, hc k, hf a k)
AsksOnly-bind combined (asked, err e) f hc hf k h = hc k h

pub AsksOnly-check :
    {A : Type 0} (kind : EvidenceKind) (combined : List EvidenceKind) (answer : Answer A)
    (read : A → Option Bool)
    → AsksOnly combined (check kind combined answer read)
unfolding check
AsksOnly-check kind combined answer read k h = ground (arith, same_kind→eq kind k)

pub AsksOnly-collect_checks :
    (carrier : Carrier) (phone : String) (fence : Geofence) (combined : List EvidenceKind) (now : ℕ)
    → AsksOnly combined (collect_checks carrier phone fence combined now)
unfolding collect_checks
AsksOnly-collect_checks carrier phone fence combined now =
    AsksOnly-bind combined _ _ (AsksOnly-check number_verification combined _ _) λ a.
      AsksOnly-bind combined _ _ (AsksOnly-check location_verification combined _ _) λ b.
        AsksOnly-bind combined _ _ (AsksOnly-check sim_swap combined _ _) λ c.
          AsksOnly-bind combined _ _ (AsksOnly-check device_swap combined _ _)
            λ d. AsksOnly-bind combined _ _ (AsksOnly-check reachability combined _ _) λ e k. cc

-- What the fields and the questions of a collection are.
abbrev pub IsCollected :
    Carrier → String → Geofence → List EvidenceKind → List EvidenceKind → CanonicalEvidence → Type 0
IsCollected carrier phone fence combined asked evidence =
    (asked ≡ planned combined ask_order)
    × Holds (mem_kind number_verification combined) (carrier.verify_number phone) (λ b. some b)
        evidence.number_verified
    × Holds (mem_kind location_verification combined) (carrier.verify_location phone fence)
        (λ v. some (is_inside v)) evidence.location_verified
    × Holds (mem_kind sim_swap combined) (carrier.check_sim_swap phone) (λ b. some b)
        evidence.recent_sim_swap
    × Holds (mem_kind device_swap combined) (carrier.check_device_swap phone) (λ b. some b)
        evidence.recent_device_swap
    × Holds (mem_kind reachability combined) (carrier.get_reachability phone) (λ b. b)
        evidence.reachable
    × (evidence.kyc_matched ≡ none)

pub planned-ask_order :
    (combined a b c d e : List EvidenceKind)
    → a ≡ planned combined (number_verification ∷ [])
    → b ≡ planned combined (location_verification ∷ [])
    → c ≡ planned combined (sim_swap ∷ [])
    → d ≡ planned combined (device_swap ∷ [])
    → e ≡ planned combined (reachability ∷ [])
    → a ++ (b ++ (c ++ (d ++ (e ++ [])))) ≡ planned combined ask_order
planned-ask_order combined a b c d e ha hb hc hd he =
    simp (ha, hb, hc, hd, he, append-nil, planned-cons)

pub collect_checks-IsCollected :
    (carrier : Carrier) (phone : String) (fence : Geofence) (combined : List EvidenceKind) (now : ℕ)
    → Ends
        (IsCollected carrier phone fence combined)
        (collect_checks carrier phone fence combined now)
unfolding collect_checks
collect_checks-IsCollected carrier phone fence combined now =
    Ends-bind _ _ (Checked-check number_verification combined _ _) λ a v1 h1.
      Ends-bind _ _ (Checked-check location_verification combined _ _) λ b v2 h2.
        Ends-bind _ _ (Checked-check sim_swap combined _ _) λ c v3 h3.
          Ends-bind _ _ (Checked-check device_swap combined _ _) λ d v4 h4.
            Ends-bind _ _ (Checked-check reachability combined _ _) λ e v5 h5. record {
              at = λ evidence h.
                  subst (IsCollected carrier phone fence combined _) (ok-injective h) (
                    planned-ask_order combined a b c d e h1.0 h2.0 h3.0 h4.0 h5.0,
                    h1.1,
                    h2.1,
                    h3.1,
                    h4.1,
                    h5.1,
                    refl,
                  );
            }
