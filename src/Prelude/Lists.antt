-- ===== src/Prelude/Lists.antt =====
-- Sequences: length, Boolean membership and filtering, and dictionaries keyed by text.
use Prim.Native.Nat.{ℕ, suc}
use Prim.Native.String.{String}
use mathlib.Core.Bool.{Bool, false, ◌||◌}
use mathlib.Core.Option.{Option, none, some}
use mathlib.Core.List.{List, [], ◌∷◌}
use zonegate_backend.Prelude.Tests.{◌==◌, if◌then◌else◌}

module _ {ℓ} {A : Type ℓ} where
  abbrev pub length : List A → ℕ
  length [] = 0
  length (x ∷ xs) = suc (length xs)

  -- The elements that pass a Boolean test, in their order.
  abbrev pub keep : (A → Bool) → List A → List A
  keep p [] = []
  keep p (x ∷ xs) = let rest = keep p xs in if p x then x ∷ rest else rest

  -- A property of every element.
  abbrev pub All {κ} : (A → Type κ) → List A → Type κ
  All P [] = Unit
  All P (x ∷ xs) = P x × All P xs

-- `s in xs` on a list of texts.
abbrev pub contains : String → List String → Bool
contains s [] = false
contains s (x ∷ xs) = x == s || contains s xs

-- A table keyed by text.
abbrev pub Table {ℓ} : Type ℓ → Type ℓ
Table V = String → Option V

module _ {ℓ} {V : Type ℓ} where
  -- `d.get(k)` on a dict written as the list of its items.
  abbrev pub lookup : String → List (String × V) → Option V
  lookup k [] = none
  lookup k ((j, v) ∷ d) = if j == k then some v else lookup k d

  -- `table[k] = v` and `del table[k]`.
  abbrev pub update : Table V → String → V → Table V
  update f k v j = if k == j then some v else f j

  abbrev pub erase : Table V → String → Table V
  erase f k j = if k == j then none else f j
