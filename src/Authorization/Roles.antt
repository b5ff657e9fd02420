-- ===== src/Authorization/Roles.antt =====
-- authorization/roles.py
use zonegate_backend.Prelude.{
  String, Bool, false, Option, none, some, List, [], ◌∷◌, ◌==◌, contains, if◌then◌else◌, get_or,
  ◌≡◌, refl,
}
use zonegate_backend.Prelude.Text.{strip, upper, drop_prefix}

abbrev pub field_roles : List String
field_roles = "CARGO_OPERATOR" ∷ []

-- `(role or "").strip().upper()` without a leading `ROLE_`.
unfoldable pub normalize_role : Option String → String
normalize_role role = drop_prefix "ROLE_" (upper (strip (get_or role "")))

unfoldable pub is_field_role : Option String → Bool
is_field_role role = contains (normalize_role role) field_roles

-- A hold that names no authority, or an empty one, is settled by nobody.
unfoldable pub holds_authority : Option String → Option String → Bool
holds_authority role none = false
holds_authority role (some required) =
    if required == "" then false else normalize_role role == normalize_role (some required)

field_role_test : is_field_role (some " role_cargo_operator ") ≡ Bool.true
unfolding is_field_role normalize_role strip upper drop_prefix
field_role_test = refl
