-- ===== src/Authorization/Passwords/Stored.antt =====
-- Passwords that are stored and read back.
use Prim.Native.Char.{Char}
use text.Mathlib.TextLemmas.{nil-append, cons-append}
use zonegate_backend.Prelude.Bytes.{
  read_hex, digit, hex, find_digit, Nibble, digits, is_blank, Byte, add_byte, d0, d1, d2, d3, d4,
  d5, d6, d7, d8, d9, da, db, dc, dd, de, df, same_bytes, read_int, Integer, same_nibble,
  read_signed, read_digits, signed,
}
use zonegate_backend.Prelude.Splitting.{split, onto_first}
use zonegate_backend.Prelude.{
  String, ◌≡◌, List, Bool, false, refl, true, ◌||◌, ◌∷◌, some, [], ap, ◌∙◌, ◌==◌, ok,
}
use zonegate_backend.Prelude.Text.{same, ◌<>◌, decimal, strip}
use zonegate_backend.Authorization.Passwords.{
  read_stored, hash_password, algorithm, iterations, verify_password, Pbkdf2,
}

or_false : (a b : Bool) → (a || b) ≡ false → (a ≡ false) × (b ≡ false)
or_false false b h = (refl, h)
or_false true b h = absurd (cc h)

-- Whether a character stands in a text.
has_char : Char → String → Bool
has_char c String.[] = false
has_char c (String.◌∷◌ d s) = let later = has_char c s in same d c || later

split_front :
    (c : Char) (s t : String)
    → has_char c s ≡ false
    → same c c ≡ true
    → split c (s <> String.◌∷◌ c t) ≡ s ∷ split c t
unfolding split has_char
split_front c String.[] t free self = rw (nil-append, split, self) refl
split_front c (String.◌∷◌ d s) t free self =
    let (apart, later) = or_false (same d c) (has_char c s) free in
    rw (cons-append, split, apart, split_front c s t later self, onto_first) refl

split_whole : (c : Char) (s : String) → has_char c s ≡ false → split c s ≡ s ∷ []
unfolding split has_char
split_whole c String.[] free = refl
split_whole c (String.◌∷◌ d s) free =
    let (apart, later) = or_false (same d c) (has_char c s) free in
    rw (split, apart, split_whole c s later, onto_first) refl

-- What the readers see of a digit.
record IsPlain (n : Nibble) : Type 0 where
  separates : same (digit n) "$" ≡ false
  read_back : find_digit digits (digit n) ≡ some n
  not_blank : is_blank (digit n) ≡ false
  itself : same_nibble n n ≡ true

IsPlain-digit : (n : Nibble) → IsPlain n
unfolding digit find_digit
IsPlain-digit d0 = record { separates = refl; read_back = refl; not_blank = refl; itself = refl }
IsPlain-digit d1 = record { separates = refl; read_back = refl; not_blank = refl; itself = refl }
IsPlain-digit d2 = record { separates = refl; read_back = refl; not_blank = refl; itself = refl }
IsPlain-digit d3 = record { separates = refl; read_back = refl; not_blank = refl; itself = refl }
IsPlain-digit d4 = record { separates = refl; read_back = refl; not_blank = refl; itself = refl }
IsPlain-digit d5 = record { separates = refl; read_back = refl; not_blank = refl; itself = refl }
IsPlain-digit d6 = record { separates = refl; read_back = refl; not_blank = refl; itself = refl }
IsPlain-digit d7 = record { separates = refl; read_back = refl; not_blank = refl; itself = refl }
IsPlain-digit d8 = record { separates = refl; read_back = refl; not_blank = refl; itself = refl }
IsPlain-digit d9 = record { separates = refl; read_back = refl; not_blank = refl; itself = refl }
IsPlain-digit da = record { separates = refl; read_back = refl; not_blank = refl; itself = refl }
IsPlain-digit db = record { separates = refl; read_back = refl; not_blank = refl; itself = refl }
IsPlain-digit dc = record { separates = refl; read_back = refl; not_blank = refl; itself = refl }
IsPlain-digit dd = record { separates = refl; read_back = refl; not_blank = refl; itself = refl }
IsPlain-digit de = record { separates = refl; read_back = refl; not_blank = refl; itself = refl }
IsPlain-digit df = record { separates = refl; read_back = refl; not_blank = refl; itself = refl }

hex_free : (bs : List Byte) → has_char "$" (hex bs) ≡ false
unfolding hex has_char
hex_free [] = refl
hex_free (b ∷ bs) =
    rw ((IsPlain-digit b.high).separates, (IsPlain-digit b.low).separates) (hex_free bs)

read_hex-hex : (bs : List Byte) → read_hex (hex bs) ≡ some bs
unfolding read_hex hex
read_hex-hex [] = refl
read_hex-hex (b ∷ bs) =
    rw
      (
        (IsPlain-digit b.high).not_blank,
        (IsPlain-digit b.high).read_back,
        (IsPlain-digit b.low).read_back,
        read_hex-hex bs,
        add_byte,
      )
      refl

same_bytes_refl : (bs : List Byte) → same_bytes bs bs ≡ true
unfolding same_bytes
same_bytes_refl [] = refl
same_bytes_refl (b ∷ bs) =
    rw ((IsPlain-digit b.high).itself, (IsPlain-digit b.low).itself, same_bytes_refl bs) refl

dollar : (t : String) → "$" <> t ≡ String.◌∷◌ "$" t
dollar t = cons-append "$" "" t ∙ ap (String.◌∷◌ "$") (nil-append t)

front : (s t : String) → has_char "$" s ≡ false → split "$" (s <> ("$" <> t)) ≡ s ∷ split "$" t
front s t free = ap (λ x. split "$" (s <> x)) (dollar t) ∙ split_front "$" s t free refl

abbrev pub stored_rounds : Integer
stored_rounds = record { negative = false; magnitude = iterations }

abbrev pub stored_form : List Byte → List Byte → String
stored_form salt digest =
    algorithm <> "$" <> (decimal iterations <> "$" <> (hex salt <> "$" <> hex digest))

parts :
    (salt digest : List Byte)
    → split "$" (stored_form salt digest)
      ≡ algorithm ∷ decimal iterations ∷ hex salt ∷ hex digest ∷ []
unfolding has_char decimal
parts salt digest =
    front algorithm _ refl
    ∙ ap (λ (x : List String). algorithm ∷ x)
        (front (decimal iterations) _ refl
          ∙ ap (λ (x : List String). decimal iterations ∷ x)
              (front (hex salt) _ (hex_free salt)
                ∙ ap (λ (x : List String). hex salt ∷ x)
                    (split_whole "$" (hex digest) (hex_free digest))))

rounds_read : read_int (decimal iterations) ≡ some stored_rounds
unfolding read_int decimal read_signed read_digits signed strip
rounds_read = refl

read_back :
    (salt digest : List Byte)
    → read_stored (stored_form salt digest) ≡ some (salt, digest, stored_rounds)
unfolding read_stored
read_back salt digest =
    rw (read_stored, parts salt digest, read_hex-hex salt, read_hex-hex digest, rounds_read) refl

-- A password that is not empty can be stored under any salt, if PBKDF2 gives a digest for it: what is
-- stored accepts that password, and of any other password, if PBKDF2 gives a digest for it with that salt
-- and 240,000 rounds, it says whether that digest has the same bytes as the stored one.
pub stored_read_back :
    (kdf : Pbkdf2) (password : String) (salt digest : List Byte)
    → (password == "") ≡ false
    → kdf.derive password salt stored_rounds ≡ ok digest
    → (stored : String) × (hash_password kdf password salt ≡ ok stored)
      × (verify_password kdf password stored ≡ ok true)
      × ((other : String) (candidate : List Byte)
          → kdf.derive other salt stored_rounds ≡ ok candidate
          → verify_password kdf other stored ≡ ok (same_bytes candidate digest))
unfolding hash_password verify_password
stored_read_back kdf password salt digest given derived = (
  stored_form salt digest,
  rw (hash_password, given, derived) refl,
  rw (verify_password, read_back salt digest, derived, same_bytes_refl digest) refl,
  λ other candidate h. rw (verify_password, read_back salt digest, h) refl,
)
