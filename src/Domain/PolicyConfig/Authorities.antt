-- ===== src/Domain/PolicyConfig/Authorities.antt =====
-- What `PolicyConfig._check_categories` of domain/policy_config.py guarantees.
use zonegate_backend.Prelude.{
  String, List, All, lookup, ◌≢◌, ◌≡◌, some, none, Option-cases, [], ◌∷◌, inl, arith, eq_iff, inr,
}
use zonegate_backend.Domain.PolicyConfig.{
  check_categories, put_item, first_refused, strip_items, authority_for, PolicyConfig, accepted,
}
use zonegate_backend.Prelude.Text.{strip}

-- Every item names an authority.
abbrev IsFilled : List (String × String) → Type 0
IsFilled d = All (λ (item : String × String). item.1 ≢ "") d

put_item-IsFilled :
    (k v : String) (d : List (String × String)) → v ≢ "" → IsFilled d → IsFilled (put_item k v d)
unfolding put_item
put_item-IsFilled k v [] filled h = (filled, tt)
put_item-IsFilled k v ((j, w) ∷ d) filled h = ground (arith, put_item-IsFilled k v d filled h.1)

strip_items-IsFilled :
    (d items : List (String × String))
    → first_refused items ≡ none
    → IsFilled d
    → IsFilled (strip_items d items)
unfolding first_refused strip_items
strip_items-IsFilled d [] ok h = h
strip_items-IsFilled d ((category, authority) ∷ items) ok h =
    strip_items-IsFilled (put_item (strip category) (strip authority) d) items (ground arith) (
      put_item-IsFilled (strip category) (strip authority) d
        (ground (arith, eq_iff (strip authority) "")) h)

lookup-filled :
    (k a : String) (d : List (String × String)) → IsFilled d → lookup k d ≡ some a → a ≢ ""
lookup-filled k a [] h e = cc
lookup-filled k a ((j, w) ∷ d) h e = ground (arith, lookup-filled k a d h.1)

-- A configuration that the validator accepts never lists a category without an approving
-- authority: whatever the category, the authority it is escalated to is not an empty text.
pub authority_for-filled :
    (items : List (String × String)) (c : PolicyConfig) (category authority : String)
    → check_categories items ≡ accepted c
    → authority_for c category ≡ some authority
    → authority ≢ ""
unfolding check_categories authority_for
authority_for-filled items c category authority ok found =
    elim (Option-cases (first_refused items)) [
      | inl passed ↦
          lookup-filled category authority (strip_items [] items)
            (strip_items-IsFilled [] items passed tt) (ground arith)
      | inr (e, refused_it) ↦ ground arith
    ]
