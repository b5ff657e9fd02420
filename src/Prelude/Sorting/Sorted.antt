-- ===== src/Prelude/Sorting/Sorted.antt =====
-- What sorting texts guarantees.
use zonegate_backend.Prelude.Tests.{◌==◌}
use zonegate_backend.Prelude.Sorting.{text_leb, sorted, sorted_by, insert_by}
use zonegate_backend.Prelude.{
  String, List, ◌≡◌, ◌∷◌, true, Bool-cases, false, [], inl, arith, refl, inr, contains, ◌∙◌, eq_iff,
  ap, ◌||◌, Bool,
}

text_leb_total : (s t : String) → text_leb s t ≡ false → text_leb t s ≡ true
unfolding text_leb
text_leb_total String.[] t h = cc
text_leb_total (String.◌∷◌ c s) String.[] h = refl
text_leb_total (String.◌∷◌ c s) (String.◌∷◌ d t) h = ground (arith, text_leb_total s t)

-- Each text is at least the one before it.
abbrev Above : String → List String → Type 0
Above x [] = Unit
Above x (y ∷ ys) = (text_leb x y ≡ true) × Above y ys

abbrev pub IsSorted : List String → Type 0
IsSorted [] = Unit
IsSorted (x ∷ xs) = Above x xs

abbrev insert_text : String → List String → List String
insert_text = insert_by (λ s. s)

insert_text-Above :
    (low x : String) (ys : List String)
    → text_leb low x ≡ true
    → Above low ys
    → Above low (insert_text x ys)
unfolding insert_by
insert_text-Above low x [] le h = (le, tt)
insert_text-Above low x (y ∷ ys) le (first, rest) = elim (Bool-cases (text_leb x y)) [
  | inl here ↦ rw (insert_by, here) (le, (here, rest))
  | inr further ↦
      rw (insert_by, further) (first, insert_text-Above y x ys (text_leb_total x y further) rest)
]

insert_text-IsSorted : (x : String) (ys : List String) → IsSorted ys → IsSorted (insert_text x ys)
unfolding insert_by
insert_text-IsSorted x [] h = tt
insert_text-IsSorted x (y ∷ ys) h = elim (Bool-cases (text_leb x y)) [
  | inl here ↦ rw (insert_by, here) (here, h)
  | inr further ↦ rw (insert_by, further) (insert_text-Above y x ys (text_leb_total x y further) h)
]

pub sorted-IsSorted : (xs : List String) → IsSorted (sorted xs)
unfolding sorted sorted_by
sorted-IsSorted [] = tt
sorted-IsSorted (x ∷ xs) = insert_text-IsSorted x (sorted_by (λ s. s) xs) (sorted-IsSorted xs)

contains-insert :
    (s x : String) (ys : List String) → contains s (insert_text x ys) ≡ (x == s || contains s ys)
unfolding insert_by
contains-insert s x [] = refl
contains-insert s x (y ∷ ys) = ground (arith, contains-insert s x ys)

pub contains-sorted : (s : String) (xs : List String) → contains s (sorted xs) ≡ contains s xs
unfolding sorted sorted_by
contains-sorted s [] = refl
contains-sorted s (x ∷ xs) =
    contains-insert s x (sorted_by (λ s. s) xs)
    ∙ ap (λ (b : Bool). x == s || b) (contains-sorted s xs)

-- No text twice.
abbrev pub IsDistinct : List String → Type 0
IsDistinct [] = Unit
IsDistinct (x ∷ xs) = (contains x xs ≡ false) × IsDistinct xs

insert_text-IsDistinct :
    (x : String) (ys : List String)
    → contains x ys ≡ false
    → IsDistinct ys
    → IsDistinct (insert_text x ys)
unfolding insert_by
insert_text-IsDistinct x [] fresh h = (refl, tt)
insert_text-IsDistinct x (y ∷ ys) fresh (first, rest) = elim (Bool-cases (text_leb x y)) [
  | inl here ↦ rw (insert_by, here) (fresh, (first, rest))
  | inr further ↦
      rw (insert_by, further)
        (
          ground (arith, contains-insert y x ys, eq_iff x y, eq_iff y x),
          insert_text-IsDistinct x ys (ground arith) rest,
        )
]

pub sorted-IsDistinct : (xs : List String) → IsDistinct xs → IsDistinct (sorted xs)
unfolding sorted sorted_by
sorted-IsDistinct [] h = tt
sorted-IsDistinct (x ∷ xs) (first, rest) =
    insert_text-IsDistinct x (sorted_by (λ s. s) xs) (contains-sorted x xs ∙ first)
      (sorted-IsDistinct xs rest)
