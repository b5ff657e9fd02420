-- ===== src/Prelude/Bytes.antt =====
-- Python's `bytes.hex`, `bytes.fromhex` and `int`, on texts of ASCII.
use Prim.Native.Char.{Char, code}
use zonegate_backend.Prelude.{
  List, Option, ℕ, String, Bool, some, ◌∷◌, if◌then◌else◌, none, leb, ◌*◌, true, ◌||◌, ◌&&◌, [],
  ◌+◌, false, ◌-◌,
}
use zonegate_backend.Prelude.Text.{same, strip}

-- Half a byte.
pub data Nibble : Type 0 where
  d0 d1 d2 d3 d4 d5 d6 d7 d8 d9 da db dc dd de df : Nibble

pub record Byte : Type 0 where
  pub high : Nibble
  pub low : Nibble

unfoldable pub digit : Nibble → Char
digit d0 = "0"
digit d1 = "1"
digit d2 = "2"
digit d3 = "3"
digit d4 = "4"
digit d5 = "5"
digit d6 = "6"
digit d7 = "7"
digit d8 = "8"
digit d9 = "9"
digit da = "a"
digit db = "b"
digit dc = "c"
digit dd = "d"
digit de = "e"
digit df = "f"

-- `data.hex()`
unfoldable pub hex : List Byte → String
unfolding digit
hex [] = String.[]
hex (b ∷ bs) = String.◌∷◌ (digit b.high) (String.◌∷◌ (digit b.low) (hex bs))

-- The digits that `fromhex` reads, capital letters too.
abbrev pub digits : List (Char × Nibble)
digits =
    ("0", d0)
    ∷ ("1", d1)
    ∷ ("2", d2)
    ∷ ("3", d3)
    ∷ ("4", d4)
    ∷ ("5", d5)
    ∷ ("6", d6)
    ∷ ("7", d7)
    ∷ ("8", d8)
    ∷ ("9", d9)
    ∷ ("a", da)
    ∷ ("b", db)
    ∷ ("c", dc)
    ∷ ("d", dd)
    ∷ ("e", de)
    ∷ ("f", df)
    ∷ ("A", da)
    ∷ ("B", db)
    ∷ ("C", dc)
    ∷ ("D", dd)
    ∷ ("E", de)
    ∷ ("F", df)
    ∷ []

unfoldable pub find_digit : List (Char × Nibble) → Char → Option Nibble
find_digit [] c = none
find_digit ((d, n) ∷ rest) c = if same d c then some n else find_digit rest c

unfoldable pub add_byte : Option Nibble → Option Nibble → Option (List Byte) → Option (List Byte)
add_byte (some h) (some l) (some bs) = some (record { high = h; low = l } ∷ bs)
add_byte _ _ _ = none

-- The white space of ASCII, which `fromhex` passes over between bytes.
abbrev pub is_blank : Char → Bool
is_blank c = let n = code c in (leb 32 n && leb n 32) || (leb 9 n && leb n 13)

-- `bytes.fromhex`; `none` for its ValueError.
unfoldable pub read_hex : String → Option (List Byte)
unfolding find_digit add_byte
read_hex String.[] = some []
read_hex (String.◌∷◌ c String.[]) = if is_blank c then some [] else none
read_hex (String.◌∷◌ c (String.◌∷◌ d s)) =
    let skipped = read_hex (String.◌∷◌ d s) in
    let rest = read_hex s in
    if is_blank c then skipped else add_byte (find_digit digits c) (find_digit digits d) rest

-- `hmac.compare_digest`
abbrev pub same_nibble : Nibble → Nibble → Bool
same_nibble m n = same (digit m) (digit n)

unfoldable pub same_bytes : List Byte → List Byte → Bool
unfolding digit
same_bytes [] [] = true
same_bytes (b ∷ bs) (c ∷ cs) =
    let rest = same_bytes bs cs in same_nibble b.high c.high && same_nibble b.low c.low && rest
same_bytes _ _ = false

pub record Integer : Type 0 where
  pub negative : Bool
  pub magnitude : ℕ

abbrev pub is_digit : Char → Bool
is_digit c = leb 48 (code c) && leb (code c) 57

-- The digits of a number from the value so far, after a digit or not: an underscore stands between
-- two digits.
unfoldable pub read_digits : ℕ → Bool → String → Option ℕ
read_digits n after String.[] = if after then some n else none
read_digits n after (String.◌∷◌ c s) =
    let next = read_digits (n * 10 + (code c - 48)) true s in
    let skipped = read_digits n false s in
    if is_digit c then next else if same c "_" && after then skipped else none

unfoldable pub signed : Bool → Option ℕ → Option Integer
signed negative none = none
signed negative (some n) = some (record { negative = negative; magnitude = n })

-- The sign of a number and its digits.
unfoldable pub read_signed : String → Option Integer
unfolding signed read_digits
read_signed String.[] = none
read_signed (String.◌∷◌ c s) =
    if same c "-"
    then signed true (read_digits 0 false s)
    else if same c "+"
    then signed false (read_digits 0 false s)
    else signed false (read_digits 0 false (String.◌∷◌ c s))

-- `int(text)`; `none` for its ValueError.
unfoldable pub read_int : String → Option Integer
unfolding read_signed
read_int s = read_signed (strip s)
