-- ===== src/Api/Permissions/Cleaned.antt =====
-- What an update of permissions in api/actors.py makes of the list it is sent.
use mathlib.Core.Path.{subst}
use zonegate_backend.Api.Actors.{cleaned, stripped_set, add_text}
use zonegate_backend.Prelude.{
  List, String, ◌∷◌, contains, arith, ◌≡◌, ◌==◌, true, ◌≢◌, [], Bool-cases, ◌||◌, ◌↔◌, ◌⊎◌, inl,
  inr, eq_iff, refl, sym, ◌∙◌,
}
use zonegate_backend.Prelude.Sorting.Sorted.{
  IsDistinct, IsSorted, sorted-IsSorted, sorted-IsDistinct, contains-sorted,
}
use zonegate_backend.Prelude.Text.{strip}

-- A text that a list of permissions grants: one of them, stripped, and not blank.
abbrev pub Grants : List String → String → Type 0
Grants [] s = ⊥
Grants (p ∷ ps) s = ((strip p ≡ s) × (s ≢ "")) ⊎ Grants ps s

contains-add :
    (s x : String) (texts : List String)
    → contains s (add_text x texts) ≡ (x == s || contains s texts)
unfolding add_text
contains-add s x texts = elim (Bool-cases (contains x texts)) [
  | inl there ↦ elim (Bool-cases (x == s)) [
    | inl same ↦
        rw (add_text, there, same)
          (subst (λ y. contains y texts ≡ true) ((eq_iff x s).0 same) there)
    | inr other ↦ rw (add_text, there, other) refl
  ]
  | inr fresh ↦ rw (add_text, fresh) refl
]

stripped_set-IsDistinct : (ps : List String) → IsDistinct (stripped_set ps)
unfolding stripped_set add_text
stripped_set-IsDistinct [] = tt
stripped_set-IsDistinct (p ∷ ps) = ground (arith, stripped_set-IsDistinct ps)

stripped_set-Grants :
    (ps : List String) (s : String) → contains s (stripped_set ps) ≡ true → Grants ps s
unfolding stripped_set
stripped_set-Grants [] s h = cc
stripped_set-Grants (p ∷ ps) s h = elim (Bool-cases (strip p == "")) [
  | inl blank ↦ inr (stripped_set-Grants ps s (rw (stripped_set, blank) at h))
  | inr full ↦ elim (Bool-cases (strip p == s)) [
    | inl same ↦ inl (
      (eq_iff (strip p) s).0 same,
      ground (arith, eq_iff (strip p) "", eq_iff (strip p) s, full, same),
    )
    | inr other ↦ inr (
        stripped_set-Grants ps s
          (ground (arith, full, other, contains-add s (strip p) (stripped_set ps))))
  ]
]

Grants-stripped_set :
    (ps : List String) (s : String) → Grants ps s → contains s (stripped_set ps) ≡ true
unfolding stripped_set
Grants-stripped_set [] s h = elim h [ ]
Grants-stripped_set (p ∷ ps) s (inl (same, full)) =
    ground
      (arith, eq_iff (strip p) "", eq_iff (strip p) s, contains-add s (strip p) (stripped_set ps))
Grants-stripped_set (p ∷ ps) s (inr h) =
    ground (arith, Grants-stripped_set ps s h, contains-add s (strip p) (stripped_set ps))

-- The permissions that an update stores are sorted and without duplicates, and they are those of the
-- request, stripped, with the blank ones left out.
pub cleaned_lem :
    (permissions : List String)
    → IsSorted (cleaned permissions)
      × IsDistinct (cleaned permissions)
      × ((s : String) → (contains s (cleaned permissions) ≡ true) ↔ Grants permissions s)
unfolding cleaned
cleaned_lem ps = (
  sorted-IsSorted (stripped_set ps),
  sorted-IsDistinct (stripped_set ps) (stripped_set-IsDistinct ps),
  λ s. (
    λ h. stripped_set-Grants ps s (sym (contains-sorted s (stripped_set ps)) ∙ h),
    λ h. contains-sorted s (stripped_set ps) ∙ Grants-stripped_set ps s h,
  ),
)
