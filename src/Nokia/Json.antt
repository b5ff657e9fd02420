-- ===== src/Nokia/Json.antt =====
-- Python's values as the `json` module reads them, with the subscripts that live.py uses.
use zonegate_backend.Prelude.{Option, String, Bool, some, is_some, none, if◌then◌else◌, ◌==◌}

-- A number is kept as it was written.
mutual
  pub data Json : Type 0 where
    null : Json
    boolean : Bool → Json
    integer : String → Json
    fraction : String → Json
    text : String → Json
    array : Items → Json
    object : Members → Json

  pub data Items : Type 0 where
    no_items : Items
    item : Json → Items → Items

  pub data Members : Type 0 where
    no_members : Members
    member : String → Json → Members → Members

-- `members.get(key)`
unfoldable pub get_member : String → Members → Option Json
get_member key no_members = none
get_member key (member k j rest) = if k == key then some j else get_member key rest

-- `key in members`
unfoldable pub has_member : String → Members → Bool
unfolding get_member
has_member key members = is_some (get_member key members)

-- `value[key]`; `none` for a KeyError or a TypeError.
unfoldable pub subscript : String → Json → Option Json
unfolding get_member
subscript key (object members) = get_member key members
subscript key _ = none

-- `value[0]`; `none` for an error. On a text Python gives its first character, which the next
-- subscript refuses.
unfoldable pub first_item : Json → Option Json
first_item (array (item j items)) = some j
first_item _ = none

-- `type(value).__name__`
unfoldable pub type_name : Json → String
type_name null = "NoneType"
type_name (boolean b) = "bool"
type_name (integer n) = "int"
type_name (fraction x) = "float"
type_name (text s) = "str"
type_name (array items) = "list"
type_name (object _) = "dict"

-- One subscript after the other; an error ends them.
unfoldable pub chain : {A B : Type 0} → Option A → (A → Option B) → Option B
chain none f = none
chain (some a) f = f a
