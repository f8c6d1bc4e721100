-- ===== src/Store/Reads.antt =====
-- The archived storage reads, crates/pif-store/src/cache.rs: the reads of one block, and their records in
-- the segments of the kind `storage`. A string is its code points.
pub mod Keeping
use polkadot_indexer_framerw.Common.{
  ℕ, Bool, true, false, ◌&&◌, Option, none, some, List, [], ◌∷◌, map, if◌then◌else◌, length,
}
use polkadot_indexer_framerw.Common.Result.{Result, ok, err, panic}
use polkadot_indexer_framerw.Store.Error.{StoreError, segment_corrupt, not_decoded}
use polkadot_indexer_framerw.Store.Layout.{list_eq}
use polkadot_indexer_framerw.Store.Scale.{Scale}
use polkadot_indexer_framerw.Store.Segment.Format.{Crc32}
use polkadot_indexer_framerw.Store.Segments.{Segments, Zstd, get, put}

pub record ReadKey : Type 0 where
  pub pallet : List ℕ
  pub entry : List ℕ
  pub keys : List ℕ

-- The derived `PartialEq` of a key.
unfoldable pub key_eq : ReadKey → ReadKey → Bool
key_eq a b = list_eq a.pallet b.pallet && (list_eq a.entry b.entry && list_eq a.keys b.keys)

-- An answer of `none` is an absence that was read.
abbrev pub Answer : Type 0
Answer = Option (List ℕ)

pub record BlockReads : Type 0 where
  pub entries : List (ReadKey × Answer)

abbrev pub no_reads : BlockReads
no_reads = record { entries = [] }

abbrev pub is_empty : BlockReads → Bool
is_empty reads = elim reads.entries [ [] ↦ true | e ∷ more ↦ false ]

abbrev pub reads_len : BlockReads → ℕ
reads_len reads = length reads.entries

-- The `find` of `BlockReads::get`.
unfoldable pub find_read : ReadKey → List (ReadKey × Answer) → Option Answer
find_read key [] = none
find_read key ((k, answer) ∷ more) = if key_eq k key then some answer else find_read key more

unfoldable pub get_read : ReadKey → BlockReads → Option Answer
get_read key reads = find_read key reads.entries

-- The first entry of the key is written over; without one, the entry is added at the end.
unfoldable pub put_read : ReadKey → Answer → List (ReadKey × Answer) → List (ReadKey × Answer)
put_read key answer [] = (key, answer) ∷ []
put_read key answer ((k, old) ∷ more) =
    if key_eq k key then (k, answer) ∷ more else (k, old) ∷ put_read key answer more

unfoldable pub insert_read : ReadKey → Answer → BlockReads → BlockReads
insert_read key answer reads = record { entries = put_read key answer reads.entries }

abbrev pub read_keys : BlockReads → List ReadKey
read_keys reads = map (λ e. e.0) reads.entries

module _ (crc : Crc32) (zstd : Zstd) (scale : Scale BlockReads) where
  abbrev pub decoded_reads :
      Result StoreError (Option (List ℕ)) → Result StoreError (Option BlockReads)
  decoded_reads (ok none) = ok none
  decoded_reads (ok (some payload)) = elim (scale.decode payload) [
    | some reads ↦ ok (some reads)
    | none ↦ err (segment_corrupt not_decoded)
  ]
  decoded_reads (err e) = err e
  decoded_reads panic = panic

  -- `StorageCache::get`
  unfoldable pub get_reads : ℕ → Segments → Result StoreError (Option BlockReads) × Segments
  get_reads block s = (decoded_reads (get crc zstd block s).0, (get crc zstd block s).1)

  -- `StorageCache::put`
  unfoldable pub put_reads : ℕ → BlockReads → Segments → Result StoreError (Unit {0}) × Segments
  put_reads block reads s = put crc zstd block (scale.encode reads) s
