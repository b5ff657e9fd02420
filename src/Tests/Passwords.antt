-- ===== src/Tests/Passwords.antt =====
-- authorization/passwords.py with a derivation that is not PBKDF2: the salt, or an error for no rounds.
use zonegate_backend.Authorization.Passwords.{Pbkdf2, verify_password, read_stored, hash_password}
use zonegate_backend.Prelude.{
  String, List, if◌then◌else◌, ◌≡◌, leb, ok, true, err, ◌∷◌, [], refl, false,
}
use zonegate_backend.Prelude.Bytes.{
  Byte, d4, df, read_hex, find_digit, add_byte, same_bytes, read_int, read_signed, read_digits,
  signed,
}
use zonegate_backend.Prelude.Splitting.{split, onto_first}
use zonegate_backend.Authorization.Passwords.Stored.{stored_rounds, stored_read_back}
use zonegate_backend.Prelude.Text.{strip}

abbrev plain_kdf : Pbkdf2
plain_kdf = record {
  derive = λ password salt rounds.
      if leb 1 rounds.magnitude then ok salt else err "iteration value must be greater than 0.";
}

abbrev one_byte : List Byte
one_byte = record { high = d4; low = df } ∷ []

malformed_test : verify_password plain_kdf "correct horse" "pbkdf2_sha256$many$00$00" ≡ ok false
unfolding verify_password read_stored split onto_first read_hex find_digit add_byte read_int
    read_signed read_digits signed strip
malformed_test = refl

-- A stored text that was tampered with makes the check raise.
no_rounds_test :
    verify_password plain_kdf "correct horse" "pbkdf2_sha256$0$00$00"
    ≡ err "iteration value must be greater than 0."
unfolding verify_password read_stored split onto_first read_hex find_digit add_byte read_int
    read_signed read_digits signed strip
no_rounds_test = refl

stored_read_back_example :
    (stored : String) × (hash_password plain_kdf "correct horse" one_byte ≡ ok stored)
    × (verify_password plain_kdf "correct horse" stored ≡ ok true)
    × ((other : String) (candidate : List Byte)
        → plain_kdf.derive other one_byte stored_rounds ≡ ok candidate
        → verify_password plain_kdf other stored ≡ ok (same_bytes candidate one_byte))
stored_read_back_example = stored_read_back plain_kdf "correct horse" one_byte one_byte refl refl
