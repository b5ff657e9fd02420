-- ===== src/Authorization/Passwords.antt =====
-- authorization/passwords.py: how a console password is stored and checked.
--
-- PBKDF2 is a parameter. `bytes.fromhex` and `int` are for texts of ASCII.
pub mod Stored
use zonegate_backend.Prelude.{◌∷◌, [], not}
use Prim.Native.Char.{Char, code}
use zonegate_backend.Prelude.Bytes.{same_bytes, hex, read_hex, Byte, read_int, Integer}
use zonegate_backend.Prelude.{
  String, ℕ, Result, List, Bool, none, Option, if◌then◌else◌, ◌==◌, ok, err, false, some,
}
use zonegate_backend.Prelude.Splitting.{split}
use zonegate_backend.Prelude.Text.{◌<>◌, decimal}

-- `hashlib.pbkdf2_hmac("sha256", password.encode("utf-8"), salt, iterations)`, which may raise.
pub record Pbkdf2 : Type 0 where
  pub derive : String → List Byte → Integer → Result String (List Byte)

abbrev pub algorithm : String
algorithm = "pbkdf2_sha256"

abbrev pub iterations : ℕ
iterations = 240000

-- `hash_password` on a random salt; an error is the text of the ValueError, or of what PBKDF2 raises.
unfoldable pub hash_password : Pbkdf2 → String → List Byte → Result String String
unfolding hex
hash_password kdf password salt =
    if password == ""
    then err "A console password cannot be empty"
    else elim (kdf.derive password salt (record { negative = false; magnitude = iterations })) [
      | err e ↦ err e
      | ok digest ↦
          ok (algorithm <> "$" <> (decimal iterations <> "$" <> (hex salt <> "$" <> hex digest)))
    ]

-- The `try` block: `none` where it returns False.
unfoldable pub read_stored : String → Option (List Byte × List Byte × Integer)
unfolding split read_hex read_int
read_stored stored = elim (split "$" stored) [
  | name ∷ raw_iterations ∷ salt_hex ∷ digest_hex ∷ [] ↦
      if not (name == algorithm) then none else elim (read_hex salt_hex) [
        | none ↦ none
        | some salt ↦ elim (read_hex digest_hex) [
          | none ↦ none
          | some expected ↦ elim (read_int raw_iterations) [
            | none ↦ none
            | some rounds ↦ some (salt, expected, rounds)
          ]
        ]
      ]
  | _ ↦ none
]

unfoldable pub verify_password : Pbkdf2 → String → String → Result String Bool
unfolding read_stored same_bytes
verify_password kdf password stored = elim (read_stored stored) [
  | none ↦ ok false
  | some (salt, expected, rounds) ↦ elim (kdf.derive password salt rounds) [
    | err e ↦ err e
    | ok candidate ↦ ok (same_bytes candidate expected)
  ]
]
