-- ===== src/Domain/PolicyConfig.antt =====
-- domain/policy_config.py. A dict is the list of its items.
pub mod Authorities
use zonegate_backend.Prelude.{
  String, Option, none, some, List, [], ◌∷◌, ◌==◌, if◌then◌else◌, lookup,
}
use zonegate_backend.Prelude.Text.{strip}

abbrev pub cargo_categories : List String
cargo_categories =
    "GENERAL" ∷ "PERISHABLE" ∷ "HIGH_VALUE" ∷ "HAZARDOUS" ∷ "CONTROLLED_SUBSTANCE" ∷ "WEAPONS" ∷ []

abbrev pub default_restricted_categories : List (String × String)
default_restricted_categories =
    ("HIGH_VALUE", "ROLE_CARGO_SUPERVISOR")
    ∷ ("HAZARDOUS", "ROLE_SAFETY_OFFICER")
    ∷ ("CONTROLLED_SUBSTANCE", "ROLE_COMPLIANCE_OFFICER")
    ∷ ("WEAPONS", "ROLE_SECURITY_OFFICER")
    ∷ []

pub record PolicyConfig : Type 0 where
  pub restricted_categories : List (String × String)

abbrev pub default_config : PolicyConfig
default_config = record { restricted_categories = default_restricted_categories }

-- Why `_check_categories` refuses a map.
pub data ConfigError : Type 0 where
  blank_category : ConfigError
  no_authority : String → ConfigError

-- The loop over the items: the first entry that is refused, if any.
unfoldable pub first_refused : List (String × String) → Option ConfigError
first_refused [] = none
first_refused ((category, authority) ∷ items) =
    let rest = first_refused items in
    if strip category == ""
    then some blank_category
    else if strip authority == ""
    then some (no_authority category)
    else rest

-- `d[k] = v` on a dict of texts: a new value stands where the key stood.
unfoldable pub put_item : String → String → List (String × String) → List (String × String)
put_item k v [] = (k, v) ∷ []
put_item k v ((j, w) ∷ d) = if j == k then (j, v) ∷ d else (j, w) ∷ put_item k v d

-- The dict comprehension over the stripped items, where a later key overwrites an earlier one.
unfoldable pub strip_items :
    List (String × String) → List (String × String) → List (String × String)
unfolding put_item
strip_items d [] = d
strip_items d ((category, authority) ∷ items) =
    strip_items (put_item (strip category) (strip authority) d) items

pub data Checked : Type 0 where
  accepted : PolicyConfig → Checked
  refused : ConfigError → Checked

-- `PolicyConfig(restricted_categories=items)`, with its field validator.
unfoldable pub check_categories : List (String × String) → Checked
unfolding first_refused strip_items
check_categories items = elim (first_refused items) [
  | some e ↦ refused e
  | none ↦ accepted (record { restricted_categories = strip_items [] items })
]

unfoldable pub authority_for : PolicyConfig → String → Option String
authority_for c category = lookup category c.restricted_categories
