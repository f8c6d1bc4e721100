-- ===== src/Chain/Reads.antt =====
-- The storage reads of a digest, answered from the archive first: crates/pif-chain/src/cache.rs. What the
-- node would answer to a read when it is made is given with the read, so it may change from one read to
-- the next; `none` stands for the run without a client. The mutexes are left out, since no method holds
-- one while it waits.
pub mod Session
pub mod Missing
pub mod Offline
pub mod Replay
mod Tests
use polkadot_indexer_framerw.Common.{
  ℕ, ◌≡◌, Bool, true, false, not, Option, none, some, List, [], ◌∷◌, ◌++◌,
}
use polkadot_indexer_framerw.Common.Result.{Result, ok, err, panic}
use polkadot_indexer_framerw.Store.Error.{StoreError}
use polkadot_indexer_framerw.Store.Scale.{Scale}
use polkadot_indexer_framerw.Store.Segment.Format.{Crc32}
use polkadot_indexer_framerw.Store.Segments.{Segments, Zstd}
use polkadot_indexer_framerw.Store.Reads.{
  Answer, BlockReads, ReadKey, get_read, get_reads, insert_read, no_reads, put_reads,
}

-- `serde_json` on the values that handlers read: what it has written, it reads back.
pub record JsonCodec (Json : Type 0) : Type 0 where
  pub to_vec : Json → Option (List ℕ)
  pub from_slice : List ℕ → Option Json
  pub read_back :
      (json : Json) (bytes : List ℕ) → to_vec json ≡ some bytes → from_slice bytes ≡ some json

-- The errors name the entry that was read.
pub data ReadError : Type 0 where
  storage_not_archived archive_corrupt storage_read : List ℕ → List ℕ → ReadError
  node_failed : ReadError
  archive_failed : StoreError → ReadError

-- The state of a `CachedStorage`, with the segments of its cache.
pub record CachedStorage : Type 0 where
  pub segments : Segments
  pub reads : Option BlockReads
  pub learned : Bool

-- `CachedStorage::new`
abbrev pub new_cached : Segments → CachedStorage
new_cached s = record { segments = s; reads = none; learned = false }

abbrev pub was_fully_cached : CachedStorage → Bool
was_fully_cached c = not c.learned

unfoldable pub has_pallet : Option (List ℕ → Bool) → List ℕ → Bool
has_pallet (some pallet_by_name) pallet = pallet_by_name pallet
has_pallet none pallet = true

-- `join("|")` of the rendered keys.
unfoldable pub render_keys : List (List ℕ) → List ℕ
render_keys [] = []
render_keys (k ∷ []) = k
render_keys (k ∷ l ∷ more) = k ++ (b'|' ∷ render_keys (l ∷ more))

module _ {Rows : Type 0} where
  unfoldable pub iter : Option (Result ReadError Rows) → ReadKey → Result ReadError Rows
  iter none key = err (storage_not_archived key.pallet key.entry)
  iter (some rows) key = rows

abbrev pub loaded_as : Result StoreError (Option BlockReads) → Result ReadError BlockReads
loaded_as (ok none) = ok no_reads
loaded_as (ok (some reads)) = ok reads
loaded_as (err e) = err (archive_failed e)
loaded_as panic = panic

-- The slot after a load: filled, or as empty as before if the archive could not be read.
abbrev pub slot_of : Result ReadError BlockReads → Option BlockReads
slot_of (ok reads) = some reads
slot_of (err e) = none
slot_of panic = none

module _ (crc : Crc32) (zstd : Zstd) (scale : Scale BlockReads) (block : ℕ) where
  -- The reads in the slot, which the first read of the block fills from the archive.
  unfoldable pub load_from :
      Option BlockReads → CachedStorage → Result ReadError BlockReads × CachedStorage
  load_from (some reads) c = (ok reads, c)
  load_from none c =
      let loaded = loaded_as (get_reads crc zstd scale block c.segments).0 in
      let s = (get_reads crc zstd scale block c.segments).1 in
      (loaded, record c { segments = s; reads = slot_of loaded })

  -- `persist`
  unfoldable pub persist_of :
      Bool → Option BlockReads → CachedStorage → Result ReadError (Unit {0}) × CachedStorage
  persist_of false reads c = (ok tt, c)
  persist_of true none c = (ok tt, record c { learned = false })
  persist_of true (some reads) c =
      let (wrote, s) = put_reads crc zstd scale block reads c.segments in
      elim wrote [
        | ok u ↦ (ok tt, record c { segments = s; learned = false })
        | err e ↦ (err (archive_failed e), record c { segments = s })
        | panic ↦ (panic, record c { segments = s })
      ]

  abbrev pub persist : CachedStorage → Result ReadError (Unit {0}) × CachedStorage
  persist c = persist_of c.learned c.reads c

module _ {Json : Type 0} (json : JsonCodec Json) where
  -- An archived answer. An absence that was read is an answer like any other.
  unfoldable pub archived : ReadKey → Answer → Result ReadError (Option Json)
  archived key none = ok none
  archived key (some bytes) = elim (json.from_slice bytes) [
    | some value ↦ ok (some value)
    | none ↦ err (archive_corrupt key.pallet key.entry)
  ]

  -- The answer as it is archived.
  unfoldable pub encoded : ReadKey → Option Json → Result ReadError Answer
  encoded key none = ok none
  encoded key (some value) = elim (json.to_vec value) [
    | some bytes ↦ ok (some bytes)
    | none ↦ err (storage_read key.pallet key.entry)
  ]

  -- The node's answer is recorded, unless it cannot be encoded.
  unfoldable pub learn :
      ReadKey
      → Option Json
      → Result ReadError Answer
      → BlockReads
      → CachedStorage
      → Result ReadError (Option Json) × CachedStorage
  learn key value (ok answer) reads c =
      (ok value, record c { reads = some (insert_read key answer reads); learned = true })
  learn key value (err e) reads c = (err e, c)
  learn key value panic reads c = (panic, c)

  -- A read that the archive does not answer.
  unfoldable pub ask_node :
      Option (Result ReadError (Option Json))
      → ReadKey
      → BlockReads
      → CachedStorage
      → Result ReadError (Option Json) × CachedStorage
  ask_node none key reads c = (err (storage_not_archived key.pallet key.entry), c)
  ask_node (some (ok value)) key reads c = learn key value (encoded key value) reads c
  ask_node (some (err e)) key reads c = (err e, c)
  ask_node (some panic) key reads c = (panic, c)

  unfoldable pub answer_from :
      Option (Result ReadError (Option Json))
      → ReadKey
      → Option Answer
      → BlockReads
      → CachedStorage
      → Result ReadError (Option Json) × CachedStorage
  answer_from client key (some answer) reads c = (archived key answer, c)
  answer_from client key none reads c = ask_node client key reads c

  unfoldable pub fetch_loaded :
      Option (Result ReadError (Option Json))
      → ReadKey
      → Result ReadError BlockReads × CachedStorage
      → Result ReadError (Option Json) × CachedStorage
  fetch_loaded client key (ok reads, c) = answer_from client key (get_read key reads) reads c
  fetch_loaded client key (err e, c) = (err e, c)
  fetch_loaded client key (panic, c) = (panic, c)

module _ {Json : Type 0} (crc : Crc32) (zstd : Zstd) (scale : Scale BlockReads)
    (json : JsonCodec Json) (block : ℕ) where
  unfoldable pub fetch :
      Option (Result ReadError (Option Json))
      → ReadKey
      → CachedStorage
      → Result ReadError (Option Json) × CachedStorage
  fetch client key c = fetch_loaded json client key (load_from crc zstd scale block c.reads c)
