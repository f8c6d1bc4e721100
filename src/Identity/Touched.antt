-- ===== src/Identity/Touched.antt =====
-- Which storage keys the events of a block touch: `collect` of crates/pif-identity/src/touched.rs, with the
-- readers of decoded values that it uses from model.rs and from crates/pif-core/src/ss58.rs. The map and
-- the set are lists without repeated keys, whose order nothing here reads.
pub mod Complete
use polkadot_indexer_framerw.Common.{
  ℕ, Bool, true, false, Option, none, some, List, [], ◌∷◌, ltb, ◌==◌, if◌then◌else◌, length, take,
}
use polkadot_indexer_framerw.Store.Layout.{list_eq}
use polkadot_indexer_framerw.Core.Ss58.{Base58, Blake2, encode}
use polkadot_indexer_framerw.Identity.Json.{
  Json, Items, Fields, null, boolean, number, text, array, object, nil, cons, get_field,
  u64_from_json,
}

-- `hex::decode` and `String::from_utf8_lossy`.
pub record Texts : Type 0 where
  pub hex_decode : List ℕ → Option (List ℕ)
  pub from_utf8_lossy : List ℕ → List ℕ

-- A row of `events`, as far as it is read here.
pub record NewEvent : Type 0 where
  pub pallet : List ℕ
  pub variant : List ℕ
  pub fields : Json

pub record Touched : Type 0 where
  pub accounts : List (List ℕ × List ℕ)
  pub usernames : List (List ℕ)
  pub registrars : Bool

abbrev pub nothing_touched : Touched
nothing_touched = record { accounts = []; usernames = []; registrars = false }

abbrev pub identity_pallet : List ℕ
identity_pallet = b'I' ∷ b'd' ∷ b'e' ∷ b'n' ∷ b't' ∷ b'i' ∷ b't' ∷ b'y' ∷ []

abbrev pub registrar_prefix : List ℕ
registrar_prefix = b'R' ∷ b'e' ∷ b'g' ∷ b'i' ∷ b's' ∷ b't' ∷ b'r' ∷ b'a' ∷ b'r' ∷ []

abbrev pub username_field : List ℕ
username_field = b'u' ∷ b's' ∷ b'e' ∷ b'r' ∷ b'n' ∷ b'a' ∷ b'm' ∷ b'e' ∷ []

abbrev pub account_fields : List (List ℕ)
account_fields =
    (b'w' ∷ b'h' ∷ b'o' ∷ [])
    ∷ (b't' ∷ b'a' ∷ b'r' ∷ b'g' ∷ b'e' ∷ b't' ∷ [])
    ∷ (b'm' ∷ b'a' ∷ b'i' ∷ b'n' ∷ [])
    ∷ (b's' ∷ b'u' ∷ b'b' ∷ [])
    ∷ (b'w' ∷ b'h' ∷ b'o' ∷ b's' ∷ b'e' ∷ [])
    ∷ []

-- `strip_prefix("0x")`
unfoldable pub strip_0x : List ℕ → Option (List ℕ)
strip_0x (a ∷ b ∷ rest) = if a == b'0' then if b == b'x' then some rest else none else none
strip_0x (a ∷ []) = none
strip_0x [] = none

abbrev pub if_thirty_two : Option (List ℕ) → Option (List ℕ)
if_thirty_two none = none
if_thirty_two (some bytes) = if length bytes == 32 then some bytes else none

unfoldable pub put_account : List ℕ → List ℕ → List (List ℕ × List ℕ) → List (List ℕ × List ℕ)
put_account address bytes [] = (address, bytes) ∷ []
put_account address bytes ((other, old) ∷ accounts) =
    let rest = put_account address bytes accounts in
    if list_eq other address then (address, bytes) ∷ accounts else (other, old) ∷ rest

unfoldable pub put_username : List ℕ → List (List ℕ) → List (List ℕ)
put_username name [] = name ∷ []
put_username name (other ∷ names) =
    let rest = put_username name names in if list_eq other name then other ∷ names else other ∷ rest

abbrev pub is_number : Json → Bool
is_number (number n) = true
is_number null = false
is_number (boolean b) = false
is_number (text s) = false
is_number (array items) = false
is_number (object fields) = false

abbrev pub as_byte : Option ℕ → Option (List ℕ) → Option (List ℕ)
as_byte (some n) (some rest) = if ltb n 256 then some (n ∷ rest) else none
as_byte (some n) none = none
as_byte none rest = none

unfoldable pub bytes_from_array : Items → Option (List ℕ)
bytes_from_array nil = some []
bytes_from_array (cons value more) = as_byte (u64_from_json value) (bytes_from_array more)

abbrev pub with_registrars : Bool → Touched → Touched
with_registrars true touched = record touched { registrars = true }
with_registrars false touched = touched

abbrev pub with_username : Option (List ℕ) → Touched → Touched
with_username none touched = touched
with_username (some name) touched = record touched {
  usernames = put_username name touched.usernames;
}

-- A string, by itself or in a list of its own.
unfoldable pub hex_text : Json → Option (List ℕ)
hex_text (text s) = some s
hex_text (array (cons (text s) nil)) = some s
hex_text _ = none

abbrev pub strip_text : Option (List ℕ) → Option (List ℕ)
strip_text none = none
strip_text (some s) = strip_0x s

module _ (texts : Texts) where
  abbrev pub decode_0x : Option (List ℕ) → Option (List ℕ)
  decode_0x none = none
  decode_0x (some digits) = if_thirty_two (texts.hex_decode digits)

  unfoldable pub account_bytes : Json → Option (List ℕ)
  account_bytes value = decode_0x (strip_text (hex_text value))

  abbrev pub stripped_or_all : List ℕ → Option (List ℕ) → List ℕ
  stripped_or_all s none = s
  stripped_or_all s (some rest) = rest

  unfoldable pub bytes_from_json : Json → Option (List ℕ)
  bytes_from_json (text s) = texts.hex_decode (stripped_or_all s (strip_0x s))
  bytes_from_json (array (cons value nil)) =
      let inner = bytes_from_json value in
      if is_number value then bytes_from_array (cons value nil) else inner
  bytes_from_json (array items) = bytes_from_array items
  bytes_from_json _ = none

  abbrev pub lossy : Option (List ℕ) → Option (List ℕ)
  lossy none = none
  lossy (some []) = none
  lossy (some (b ∷ bytes)) = some (texts.from_utf8_lossy (b ∷ bytes))

  unfoldable pub username_to_string : Json → Option (List ℕ)
  username_to_string value = lossy (bytes_from_json value)

  abbrev pub field_account : Option Json → Option (List ℕ)
  field_account none = none
  field_account (some value) = account_bytes value

  abbrev pub field_username : Option Json → Option (List ℕ)
  field_username none = none
  field_username (some value) = username_to_string value

  module _ (blake2 : Blake2) (base58 : Base58) (prefix : ℕ) where
    abbrev pub with_account : Option (List ℕ) → Touched → Touched
    with_account none touched = touched
    with_account (some bytes) touched = record touched {
      accounts = put_account (encode blake2 base58 bytes prefix) bytes touched.accounts;
    }

    -- The loop over the names of account fields.
    unfoldable pub touch_accounts : List (List ℕ) → Fields → Touched → Touched
    touch_accounts [] fields touched = touched
    touch_accounts (name ∷ names) fields touched =
        touch_accounts names fields (with_account (field_account (get_field name fields)) touched)

    abbrev pub touch_fields : Json → Touched → Touched
    touch_fields (object fields) touched =
        with_username (field_username (get_field username_field fields))
          (touch_accounts account_fields fields touched)
    touch_fields null touched = touched
    touch_fields (boolean b) touched = touched
    touch_fields (number n) touched = touched
    touch_fields (text s) touched = touched
    touch_fields (array items) touched = touched

    -- One round of the loop over the events.
    unfoldable pub touch_event : NewEvent → Touched → Touched
    touch_event event touched =
        if list_eq event.pallet identity_pallet
        then touch_fields event.fields (
            with_registrars
              (list_eq (take (length registrar_prefix) event.variant) registrar_prefix) touched)
        else touched

    unfoldable pub collect_into : List NewEvent → Touched → Touched
    collect_into [] touched = touched
    collect_into (event ∷ events) touched = collect_into events (touch_event event touched)

    unfoldable pub collect : List NewEvent → Touched
    collect events = collect_into events nothing_touched
