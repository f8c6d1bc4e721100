-- ===== src/Identity/Json.antt =====
-- `serde_json::Value`, as far as crates/pif-identity/src/model.rs looks at it, and the helpers there that
-- read decoded values. A string is its code points; a number is its value as a `u64`, if it has one.
use polkadot_indexer_framerw.Common.{ℕ, Bool, Option, none, some, List, if◌then◌else◌}
use polkadot_indexer_framerw.Store.Layout.{list_eq, parse_u64}

mutual
  pub data Json : Type 0 where
    null : Json
    boolean : Bool → Json
    number : Option ℕ → Json
    text : List ℕ → Json
    array : Items → Json
    object : Fields → Json

  pub data Items : Type 0 where
    nil : Items
    cons : Json → Items → Items

  pub data Fields : Type 0 where
    end : Fields
    field : List ℕ → Json → Fields → Fields

-- `Value::get` with a key.
unfoldable pub get_field : List ℕ → Fields → Option Json
get_field key end = none
get_field key (field k value more) = if list_eq k key then some value else get_field key more

abbrev pub as_str : Option Json → Option (List ℕ)
as_str (some (text s)) = some s
as_str (some null) = none
as_str (some (boolean b)) = none
as_str (some (number n)) = none
as_str (some (array items)) = none
as_str (some (object fields)) = none
as_str none = none

-- The extra level of an array that holds nothing but an array is taken off.
unfoldable pub unwrap_bounded : Json → Json
unwrap_bounded (array (cons (array items) nil)) = array items
unwrap_bounded value = value

unfoldable pub u64_from_json : Json → Option ℕ
u64_from_json (number n) = n
u64_from_json (text s) = parse_u64 s
u64_from_json (array (cons value nil)) = u64_from_json value
u64_from_json _ = none

-- A variant is a string, or an object with one key.
unfoldable pub variant_name : Json → Option (List ℕ)
variant_name (text s) = some s
variant_name (object (field key value end)) = some key
variant_name _ = none
