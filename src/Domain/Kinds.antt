-- ===== src/Domain/Kinds.antt =====
-- Lists and sets of evidence kinds: membership under each list operation, and lists with no kind
-- twice.
use zonegate_backend.Domain.Evidence.{
  EvidenceKind, KindSet, mem_kind, same_kind, same_kind→eq, same_kind_refl,
}
use zonegate_backend.Prelude.{List, [], ◌∷◌, ◌++◌, ◌≡◌, refl, ◌||◌, ◌&&◌, keep, arith, Bool}

pub same_kind_comm : (a b : EvidenceKind) → same_kind a b ≡ same_kind b a
same_kind_comm a b = ground (arith, same_kind→eq a b, same_kind→eq b a, same_kind_refl a)

pub mem_kind-append :
    (k : EvidenceKind) (xs ys : List EvidenceKind)
    → mem_kind k (xs ++ ys) ≡ (mem_kind k xs || mem_kind k ys)
mem_kind-append k [] ys = refl
mem_kind-append k (x ∷ xs) ys = ground (arith, mem_kind-append k xs ys)

pub mem_kind-keep :
    (k : EvidenceKind) (s : KindSet) (xs : List EvidenceKind)
    → mem_kind k (keep s xs) ≡ (mem_kind k xs && s k)
mem_kind-keep k s [] = refl
mem_kind-keep k s (x ∷ xs) = ground (arith, mem_kind-keep k s xs, same_kind→eq x k)

-- No kind stands twice.
abbrev pub Distinct : List EvidenceKind → Type 0
Distinct [] = Unit
Distinct (x ∷ xs) = (mem_kind x xs ≡ Bool.false) × Distinct xs

pub Distinct-snoc :
    (xs : List EvidenceKind) (k : EvidenceKind)
    → Distinct xs
    → mem_kind k xs ≡ Bool.false
    → Distinct (xs ++ k ∷ [])
Distinct-snoc [] k h m = (refl, tt)
Distinct-snoc (x ∷ xs) k h m = (
  ground (arith, mem_kind-append x xs (k ∷ []), same_kind_comm x k),
  Distinct-snoc xs k h.1 (ground arith),
)

pub Distinct-keep : (s : KindSet) (xs : List EvidenceKind) → Distinct xs → Distinct (keep s xs)
Distinct-keep s [] h = tt
Distinct-keep s (x ∷ xs) h = ground (arith, Distinct-keep s xs h.1, mem_kind-keep x s xs)
