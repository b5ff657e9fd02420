-- ===== src/Evidence/PlanValidator/Accepting.antt =====
-- The loops of evidence/plan_validator.py: the proposed kinds that are accepted, and what is attested.
use zonegate_backend.Domain.Kinds.{
  Distinct, mem_kind-append, Distinct-snoc, mem_kind-keep, Distinct-keep,
}
use zonegate_backend.Evidence.PlanValidator.{
  from_keys, accept_optional, add_new, attested_set, attested_list, PlanError, forbidden_evidence,
  unsupported_evidence,
}
use zonegate_backend.Evidence.WorkflowPolicy.{WorkflowEvidencePolicy}
use zonegate_backend.Prelude.{
  List, All, ◌∷◌, Bool-cases, ◌≡◌, [], ok, false, inl, ◌||◌, true, arith, inr, Option, refl, err,
  some, ◌⊎◌, none, ◌&&◌,
}
use zonegate_backend.Domain.{EvidenceKind, mem_kind, same_kind, same_kind→eq, KindSet}

pub mem_kind-add_new :
    (k a : EvidenceKind) (xs : List EvidenceKind)
    → mem_kind k (add_new xs a) ≡ (mem_kind k xs || same_kind a k)
unfolding add_new
mem_kind-add_new k a xs = ground (arith, mem_kind-append k xs (a ∷ []), same_kind→eq a k)

pub Distinct-add_new :
    (xs : List EvidenceKind) (a : EvidenceKind) → Distinct xs → Distinct (add_new xs a)
unfolding add_new
Distinct-add_new xs a h = elim (Bool-cases (mem_kind a xs)) [
  | inl old ↦ rw old h
  | inr new ↦ rw new (Distinct-snoc xs a h new)
]

pub mem_kind-from_keys :
    (k : EvidenceKind) (keys ks : List EvidenceKind)
    → mem_kind k (from_keys keys ks) ≡ (mem_kind k keys || mem_kind k ks)
unfolding from_keys
mem_kind-from_keys k keys [] = ground arith
mem_kind-from_keys k keys (x ∷ ks) =
    ground (arith, mem_kind-from_keys k (add_new keys x) ks, mem_kind-add_new k x keys)

pub Distinct-from_keys :
    (keys ks : List EvidenceKind) → Distinct keys → Distinct (from_keys keys ks)
unfolding from_keys
Distinct-from_keys keys [] h = h
Distinct-from_keys keys (x ∷ ks) h =
    Distinct-from_keys (add_new keys x) ks (Distinct-add_new keys x h)

pub mem_kind-accept_optional :
    (policy : WorkflowEvidencePolicy) (k : EvidenceKind) (accepted ks result : List EvidenceKind)
    → accept_optional policy accepted ks ≡ ok result
    → mem_kind k result ≡ (mem_kind k accepted || mem_kind k ks)
unfolding accept_optional
mem_kind-accept_optional policy k accepted [] result h = ground arith
mem_kind-accept_optional policy k accepted (x ∷ ks) result h = ground (
  arith,
  mem_kind-accept_optional policy k (add_new accepted x) ks result,
  mem_kind-add_new k x accepted,
)

pub Distinct-accept_optional :
    (policy : WorkflowEvidencePolicy) (accepted ks result : List EvidenceKind)
    → Distinct accepted
    → accept_optional policy accepted ks ≡ ok result
    → Distinct result
unfolding accept_optional
Distinct-accept_optional policy accepted [] result d h = ground arith
Distinct-accept_optional policy accepted (x ∷ ks) result d h =
    Distinct-accept_optional policy (add_new accepted x) ks result (Distinct-add_new accepted x d)
      (ground arith)

-- A kind that the workflow lets the agent ask for.
abbrev pub IsAllowed : WorkflowEvidencePolicy → EvidenceKind → Type 0
IsAllowed policy k = (policy.forbidden k ≡ false) × (policy.optional k ≡ true)

pub accept_optional-total :
    (policy : WorkflowEvidencePolicy) (accepted ks : List EvidenceKind)
    → All (IsAllowed policy) ks
    → (result : List EvidenceKind) × (accept_optional policy accepted ks ≡ ok result)
unfolding accept_optional
accept_optional-total policy accepted [] h = (accepted, refl)
accept_optional-total policy accepted (x ∷ ks) h =
    let (result, e) = accept_optional-total policy (add_new accepted x) ks h.1 in
    (result, ground (arith, h.0))

pub accept_optional-IsAllowed :
    (policy : WorkflowEvidencePolicy) (accepted ks result : List EvidenceKind)
    → accept_optional policy accepted ks ≡ ok result
    → All (IsAllowed policy) ks
unfolding accept_optional
accept_optional-IsAllowed policy accepted [] result h = tt
accept_optional-IsAllowed policy accepted (x ∷ ks) result h =
    (ground arith, accept_optional-IsAllowed policy (add_new accepted x) ks result (ground arith))

-- The first of the proposed kinds that the workflow does not let the agent ask for.
abbrev pub FirstRefused : WorkflowEvidencePolicy → List EvidenceKind → PlanError → Type 0
FirstRefused policy [] e = ⊥
FirstRefused policy (k ∷ ks) e =
    ((policy.forbidden k ≡ true) × (e ≡ forbidden_evidence k))
    ⊎ ((policy.forbidden k ≡ false) × (policy.optional k ≡ false) × (e ≡ unsupported_evidence k))
    ⊎ (IsAllowed policy k × FirstRefused policy ks e)

pub accept_optional-FirstRefused :
    (policy : WorkflowEvidencePolicy) (accepted ks : List EvidenceKind) (e : PlanError)
    → accept_optional policy accepted ks ≡ err e
    → FirstRefused policy ks e
unfolding accept_optional
accept_optional-FirstRefused policy accepted [] e h = cc
accept_optional-FirstRefused policy accepted (k ∷ ks) e h =
    ground (arith, accept_optional-FirstRefused policy (add_new accepted k) ks e)

-- The carrier can attest the kind, as far as the deployment says.
abbrev pub attests : Option KindSet → KindSet
attests none k = true
attests (some attestable) k = attestable k

pub mem_kind-attested_list :
    (attestable : Option KindSet) (ks : List EvidenceKind) (k : EvidenceKind)
    → mem_kind k (attested_list attestable ks) ≡ (mem_kind k ks && attests attestable k)
unfolding attested_list
mem_kind-attested_list none ks k = ground arith
mem_kind-attested_list (some attestable) ks k = mem_kind-keep k attestable ks

pub attested_set-attests :
    (attestable : Option KindSet) (s : KindSet) (k : EvidenceKind)
    → attested_set attestable s k ≡ (s k && attests attestable k)
unfolding attested_set
attested_set-attests none s k = ground arith
attested_set-attests (some attestable) s k = refl

pub Distinct-attested_list :
    (attestable : Option KindSet) (ks : List EvidenceKind)
    → Distinct ks
    → Distinct (attested_list attestable ks)
unfolding attested_list
Distinct-attested_list none ks h = h
Distinct-attested_list (some attestable) ks h = Distinct-keep attestable ks h
