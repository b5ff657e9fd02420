-- ===== src/Prelude/Text.antt =====
-- Python's `str` methods that the program uses: `strip`, `upper`, `lower`, `startswith` with a
-- slice behind it, and `", ".join`.
use Prim.Native.Nat.{ℕ, zero, suc, ◌/◌, ◌%◌}
use Prim.Native.Char.{Char, code}
use Prim.Native.String.{String, ◌++◌}
use mathlib.Core.Path.{◌≡◌, refl}
use mathlib.Core.Bool.{Bool, ◌&&◌, ◌||◌}
use mathlib.Core.Option.{Option, none, some}
use mathlib.Core.List.{List, [], ◌∷◌}
use zonegate_backend.Prelude.Tests.{leb, if◌then◌else◌}

-- Concatenation, as in an f-string.
infixr 65 ◌<>◌
abbrev pub ◌<>◌ : String → String → String
s <> t = s ++ t

-- `c.isspace()`: the code points that `str.strip` removes.
abbrev is_space : Char → Bool
is_space c =
    let n = code c in
    (leb 9 n && leb n 13)
    || (leb 28 n && leb n 32)
    || (leb 133 n && leb n 133)
    || (leb 160 n && leb n 160)
    || (leb 5760 n && leb n 5760)
    || (leb 8192 n && leb n 8202)
    || (leb 8232 n && leb n 8233)
    || (leb 8239 n && leb n 8239)
    || (leb 8287 n && leb n 8287)
    || (leb 12288 n && leb n 12288)

lstrip : String → String
lstrip String.[] = String.[]
lstrip (String.◌∷◌ c s) = let rest = lstrip s in if is_space c then rest else String.◌∷◌ c s

-- A character in front of a text whose right end is stripped.
abbrev put_right : Char → String → String
put_right c String.[] = if is_space c then String.[] else String.◌∷◌ c String.[]
put_right c (String.◌∷◌ d s) = String.◌∷◌ c (String.◌∷◌ d s)

rstrip : String → String
rstrip String.[] = String.[]
rstrip (String.◌∷◌ c s) = put_right c (rstrip s)

-- `s.strip()`
unfoldable pub strip : String → String
unfolding lstrip rstrip
strip s = rstrip (lstrip s)

-- The letters of ASCII, small beside capital.
abbrev cases : List (Char × Char)
cases =
    ("a", "A")
    ∷ ("b", "B")
    ∷ ("c", "C")
    ∷ ("d", "D")
    ∷ ("e", "E")
    ∷ ("f", "F")
    ∷ ("g", "G")
    ∷ ("h", "H")
    ∷ ("i", "I")
    ∷ ("j", "J")
    ∷ ("k", "K")
    ∷ ("l", "L")
    ∷ ("m", "M")
    ∷ ("n", "N")
    ∷ ("o", "O")
    ∷ ("p", "P")
    ∷ ("q", "Q")
    ∷ ("r", "R")
    ∷ ("s", "S")
    ∷ ("t", "T")
    ∷ ("u", "U")
    ∷ ("v", "V")
    ∷ ("w", "W")
    ∷ ("x", "X")
    ∷ ("y", "Y")
    ∷ ("z", "Z")
    ∷ []

abbrev pub same : Char → Char → Bool
same c d = leb (code c) (code d) && leb (code d) (code c)

raise_in : List (Char × Char) → Char → Char
raise_in [] c = c
raise_in ((small, big) ∷ t) c = if same small c then big else raise_in t c

lower_in : List (Char × Char) → Char → Char
lower_in [] c = c
lower_in ((small, big) ∷ t) c = if same big c then small else lower_in t c

-- `s.upper()`; a character outside ASCII is left as it is.
unfoldable pub upper : String → String
unfolding raise_in
upper String.[] = String.[]
upper (String.◌∷◌ c s) = String.◌∷◌ (raise_in cases c) (upper s)

-- `s.lower()`; a character outside ASCII is left as it is.
unfoldable pub lower : String → String
unfolding lower_in
lower String.[] = String.[]
lower (String.◌∷◌ c s) = String.◌∷◌ (lower_in cases c) (lower s)

-- What is left of a text behind a prefix, or `none` if it does not start with it.
after : String → String → Option String
after String.[] s = some s
after (String.◌∷◌ c p) String.[] = none
after (String.◌∷◌ c p) (String.◌∷◌ d s) = if same c d then after p s else none

-- `s[len(p):] if s.startswith(p) else s`
unfoldable pub drop_prefix : String → String → String
unfolding after
drop_prefix p s = elim (after p s) [ some rest ↦ rest | none ↦ s ]

-- `", ".join(parts)`
unfoldable pub join : List String → String
join [] = ""
join (s ∷ []) = s
join (s ∷ t ∷ r) = s ++ (", " ++ join (t ∷ r))

strip_test : strip " \t a b\n " ≡ "a b"
unfolding strip
strip_test = refl

upper_test : upper "role_Cargo9" ≡ "ROLE_CARGO9"
unfolding upper
upper_test = refl

lower_test : lower "RELEASE_CARGO" ≡ "release_cargo"
unfolding lower
lower_test = refl

drop_prefix_test : drop_prefix "ROLE_" "ROLE_X" ≡ "X"
unfolding drop_prefix
drop_prefix_test = refl

-- `str(n)`
digit : ℕ → String
digit zero = "0"
digit (suc zero) = "1"
digit (suc (suc zero)) = "2"
digit (suc (suc (suc zero))) = "3"
digit (suc (suc (suc (suc zero)))) = "4"
digit (suc (suc (suc (suc (suc zero))))) = "5"
digit (suc (suc (suc (suc (suc (suc zero)))))) = "6"
digit (suc (suc (suc (suc (suc (suc (suc zero))))))) = "7"
digit (suc (suc (suc (suc (suc (suc (suc (suc zero)))))))) = "8"
digit n = "9"

decimal_from : ℕ → ℕ → String
decimal_from zero n = digit (n % 10)
decimal_from (suc fuel) n =
    let front = decimal_from fuel (n / 10) in if leb 10 n then front ++ digit (n % 10) else digit n

-- A number has at most as many digits as it counts, so `n` rounds are enough.
unfoldable pub decimal : ℕ → String
unfolding digit decimal_from
decimal n = decimal_from n n

decimal_test : decimal 1207 ≡ "1207"
unfolding decimal
decimal_test = refl
