-- ===== src/Prelude/Sorting.antt =====
-- Python's `sorted` on texts, and the equality of lists of texts.
pub mod Sorted
use Prim.Native.Char.{code}
use Prim.Native.String.{String}
use mathlib.Core.Path.{◌≡◌, refl}
use mathlib.Core.Bool.{Bool, true, false, ◌&&◌}
use mathlib.Core.List.{List, [], ◌∷◌}
use native.Mathlib.Omega.{arith}
use text.Mathlib.TextEquality.{eq_iff}
use zonegate_backend.Prelude.Tests.{leb, if◌then◌else◌, ◌==◌}

-- `s <= t`: by the code points, in their order.
unfoldable pub text_leb : String → String → Bool
text_leb String.[] t = true
text_leb (String.◌∷◌ c s) String.[] = false
text_leb (String.◌∷◌ c s) (String.◌∷◌ d t) =
    let rest = text_leb s t in
    if leb (code c) (code d) && leb (code d) (code c) then rest else leb (code c) (code d)

module _ {A : Type 0} (key : A → String) where
  insert_by : A → List A → List A
  insert_by x [] = x ∷ []
  insert_by x (y ∷ ys) =
      let rest = insert_by x ys in if text_leb (key x) (key y) then x ∷ y ∷ ys else y ∷ rest

  -- `sorted(xs, key=key)`
  unfoldable pub sorted_by : List A → List A
  unfolding text_leb insert_by
  sorted_by [] = []
  sorted_by (x ∷ xs) = insert_by x (sorted_by xs)

-- `sorted(texts)`
unfoldable pub sorted : List String → List String
unfolding sorted_by
sorted texts = sorted_by (λ s. s) texts

sorted_test : sorted ("b" ∷ "ab" ∷ "" ∷ "a" ∷ "b" ∷ []) ≡ "" ∷ "a" ∷ "ab" ∷ "b" ∷ "b" ∷ []
unfolding sorted
sorted_test = refl

-- `xs == ys` on lists of texts.
unfoldable pub same_texts : List String → List String → Bool
same_texts [] [] = true
same_texts (x ∷ xs) (y ∷ ys) = x == y && same_texts xs ys
same_texts xs ys = false

pub same_texts-eq : (xs ys : List String) → same_texts xs ys ≡ true → xs ≡ ys
unfolding same_texts
same_texts-eq [] [] h = refl
same_texts-eq [] (y ∷ ys) h = cc
same_texts-eq (x ∷ xs) [] h = cc
same_texts-eq (x ∷ xs) (y ∷ ys) h = ground (arith, eq_iff x y, same_texts-eq xs ys)
