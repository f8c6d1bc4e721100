-- ===== src/Core/Ss58.antt =====
-- crates/pif-core/src/ss58.rs: addresses as text. Bytes and characters are numbers; the hash of blake2 and
-- the text encoding of bs58 are parameters.
pub mod RoundTrip
use polkadot_indexer_framerw.Common.{
  ℕ, ◌+◌, ◌*◌, ◌/◌, ◌%◌, max, ◌≡◌, Option, none, some, List, [], ◌∷◌, ◌++◌, ltb, ◌==◌,
  if◌then◌else◌, length, take, drop,
}
use polkadot_indexer_framerw.Store.Layout.{list_eq}

-- `Blake2b512`, whose digests have 64 bytes.
pub record Blake2 : Type 0 where
  pub digest : List ℕ → List ℕ
  pub length-digest : (bytes : List ℕ) → length (digest bytes) ≡ 64

-- `bs58`: what it has encoded, it decodes.
pub record Base58 : Type 0 where
  pub to_text : List ℕ → List ℕ
  pub of_text : List ℕ → Option (List ℕ)
  pub of_text-to_text : (bytes : List ℕ) → of_text (to_text bytes) ≡ some bytes

-- `b"SS58PRE"`
abbrev pub checksum_prefix : List ℕ
checksum_prefix = b'S' ∷ b'S' ∷ b'5' ∷ b'8' ∷ b'P' ∷ b'R' ∷ b'E' ∷ []

abbrev pub checksum_len : ℕ
checksum_len = 2

abbrev pub default_prefix : ℕ
default_prefix = 42

-- The bitwise or of a byte and two bits at its top.
unfoldable pub or_top : ℕ → ℕ → ℕ
or_top byte top = byte % 64 + 64 * (max (byte / 64 % 2) (top % 2) + 2 * max (byte / 128) (top / 2))

-- The prefix is a `u16`.
unfoldable pub encode_prefix : ℕ → List ℕ
encode_prefix prefix =
    if ltb prefix 64
    then prefix ∷ []
    else (prefix / 4 % 64 + 64) ∷ or_top (prefix / 256) (prefix % 4) ∷ []

module _ (blake2 : Blake2) (base58 : Base58) where
  -- The checksum that follows a prefix and an account.
  unfoldable pub checksum : List ℕ → List ℕ
  checksum body = take checksum_len (blake2.digest (checksum_prefix ++ body))

  unfoldable pub encode : List ℕ → ℕ → List ℕ
  encode account prefix =
      let body = encode_prefix prefix ++ account in base58.to_text (body ++ checksum body)

  unfoldable pub decode_raw : List ℕ → Option (List ℕ)
  decode_raw raw =
      let prefix_len = if length raw == 32 + checksum_len + 1 then 1 else 2 in
      let body = take (prefix_len + 32) raw in
      if length raw == prefix_len + 32 + checksum_len
      then if list_eq (checksum body) (drop (prefix_len + 32) raw)
        then some (drop prefix_len body)
        else none
      else none

  abbrev pub decode_found : Option (List ℕ) → Option (List ℕ)
  decode_found none = none
  decode_found (some raw) = decode_raw raw

  unfoldable pub decode : List ℕ → Option (List ℕ)
  decode address = decode_found (base58.of_text address)
