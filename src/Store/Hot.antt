-- ===== src/Store/Hot.antt =====
-- The store of one chain, crates/pif-store/src/hot.rs: its blocks, in the segments of the kind `blocks`,
-- and the metadata of its runtimes, a file for each version in one directory. The record of a block is that of
-- crates/pif-store/src/raw.rs. A directory is its files by name.
pub mod Blocks
pub mod Metadata
mod Tests
use polkadot_indexer_framerw.Common.{
  ℕ, ◌+◌, ◌^◌, Option, none, some, List, [], ◌∷◌, ◌++◌, ltb, leb, ◌==◌, if◌then◌else◌, length,
}
use polkadot_indexer_framerw.Common.Result.{Result, ok, err, panic}
use polkadot_indexer_framerw.Store.Error.{StoreError, segment_corrupt, not_decoded, wrong_key}
use polkadot_indexer_framerw.Store.Layout.{digits, list_eq, parse_u64, strip_suffix}
use polkadot_indexer_framerw.Store.Scale.{Scale}
use polkadot_indexer_framerw.Store.Segment.Format.{Crc32}
use polkadot_indexer_framerw.Store.Segments.{Segments, Zstd, get, put}

pub record RawBlock : Type 0 where
  pub number : ℕ
  pub hash : List ℕ
  pub spec_version : ℕ
  pub transaction_version : ℕ
  pub header : List ℕ
  pub extrinsics : List (List ℕ)
  pub events : List ℕ

abbrev pub sum_len : List (List ℕ) → ℕ
sum_len [] = 0
sum_len (x ∷ xs) = length x + sum_len xs

abbrev pub encoded_len : RawBlock → ℕ
encoded_len b = length b.header + length b.events + sum_len b.extrinsics + 48

-- The last check of `get_block`: the block is the one that was asked for.
abbrev pub block_under : ℕ → RawBlock → Result StoreError (Option RawBlock)
block_under number b = if b.number == number then ok (some b) else err (segment_corrupt wrong_key)

module _ (crc : Crc32) (zstd : Zstd) (scale : Scale RawBlock) where
  abbrev pub decoded_block :
      ℕ → Result StoreError (Option (List ℕ)) → Result StoreError (Option RawBlock)
  decoded_block number (ok none) = ok none
  decoded_block number (ok (some payload)) = elim (scale.decode payload) [
    | some b ↦ block_under number b
    | none ↦ err (segment_corrupt not_decoded)
  ]
  decoded_block number (err e) = err e
  decoded_block number panic = panic

  unfoldable pub get_block : ℕ → Segments → Result StoreError (Option RawBlock) × Segments
  get_block number s = (decoded_block number (get crc zstd number s).0, (get crc zstd number s).1)

  unfoldable pub put_block : RawBlock → Segments → Result StoreError (Unit {0}) × Segments
  put_block b s = put crc zstd b.number (scale.encode b) s

abbrev pub Directory : Type 0
Directory = List (List ℕ × List ℕ)

-- `std::fs::read`, with `none` for a file that is not there.
unfoldable pub read_file : List ℕ → Directory → Option (List ℕ)
read_file name [] = none
read_file name ((other, bytes) ∷ dir) =
    if list_eq other name then some bytes else read_file name dir

-- `std::fs::write`
unfoldable pub write_file : List ℕ → List ℕ → Directory → Directory
write_file name bytes [] = (name, bytes) ∷ []
write_file name bytes ((other, old) ∷ dir) =
    if list_eq other name then (name, bytes) ∷ dir else (other, old) ∷ write_file name bytes dir

unfoldable pub remove_file : List ℕ → Directory → Directory
remove_file name [] = []
remove_file name ((other, bytes) ∷ dir) =
    let rest = remove_file name dir in if list_eq other name then rest else (other, bytes) ∷ rest

abbrev pub renamed : List ℕ → List ℕ → Directory → Option (List ℕ) → Directory
renamed old new dir none = dir
renamed old new dir (some bytes) = write_file new bytes (remove_file old dir)

-- `std::fs::rename`, which replaces what had the new name.
unfoldable pub rename_file : List ℕ → List ℕ → Directory → Directory
rename_file old new dir = renamed old new dir (read_file old dir)

abbrev pub scale_suffix : List ℕ
scale_suffix = b'.' ∷ b's' ∷ b'c' ∷ b'a' ∷ b'l' ∷ b'e' ∷ []

abbrev pub partial_suffix : List ℕ
partial_suffix = scale_suffix ++ (b'.' ∷ b'p' ∷ b'a' ∷ b'r' ∷ b't' ∷ b'i' ∷ b'a' ∷ b'l' ∷ [])

-- The last part of `metadata_path`. A `u32` has at most ten digits.
unfoldable pub metadata_name : ℕ → List ℕ
metadata_name spec_version = digits 10 spec_version ++ scale_suffix

unfoldable pub partial_name : ℕ → List ℕ
partial_name spec_version = digits 10 spec_version ++ partial_suffix

-- The two steps of `put_metadata`.
unfoldable pub write_partial : ℕ → List ℕ → Directory → Directory
write_partial spec_version scale dir = write_file (partial_name spec_version) scale dir

unfoldable pub put_metadata : ℕ → List ℕ → Directory → Directory
put_metadata spec_version scale dir =
    rename_file (partial_name spec_version) (metadata_name spec_version)
      (write_partial spec_version scale dir)

unfoldable pub get_metadata : ℕ → Directory → Option (List ℕ)
get_metadata spec_version dir = read_file (metadata_name spec_version) dir

abbrev pub in_u32 : Option ℕ → Option ℕ
in_u32 none = none
in_u32 (some version) = if ltb version (2 ^ 32) then some version else none

abbrev pub stem_version : Option (List ℕ) → Option ℕ
stem_version none = none
stem_version (some stem) = in_u32 (parse_u64 stem)

-- The version that a file's name says it is the metadata of.
unfoldable pub version_of : List ℕ → Option ℕ
version_of name = stem_version (strip_suffix name scale_suffix)

abbrev pub and_version : Option ℕ → List ℕ → List ℕ
and_version none versions = versions
and_version (some version) versions = version ∷ versions

unfoldable pub versions_in : Directory → List ℕ
versions_in [] = []
versions_in ((name, bytes) ∷ dir) = and_version (version_of name) (versions_in dir)

-- `sort_unstable`
unfoldable pub insert_version : ℕ → List ℕ → List ℕ
insert_version v [] = v ∷ []
insert_version v (w ∷ versions) =
    let rest = insert_version v versions in if leb v w then v ∷ w ∷ versions else w ∷ rest

unfoldable pub sort_versions : List ℕ → List ℕ
sort_versions [] = []
sort_versions (v ∷ versions) = insert_version v (sort_versions versions)

unfoldable pub archived_runtimes : Directory → List ℕ
archived_runtimes dir = sort_versions (versions_in dir)
