-- ===== src/Chain/Start.antt =====
-- Where the stages of a chain start, and with what: crates/pif-chain/src/pipeline.rs. The rows of one
-- chain are the state; the arithmetic is the wrapping one of a release build, and `none` marks no row.
pub mod Offline
pub mod Resume
pub mod Rewind
mod Tests
use polkadot_indexer_framerw.Common.{
  ℕ, zero, suc, ◌+◌, ◌-◌, ◌%◌, ◌^◌, Bool, true, false, Option, none, some, List, [], ltb, ◌==◌,
  if◌then◌else◌,
}
use polkadot_indexer_framerw.Common.Result.{Result, ok, err, panic}
use polkadot_indexer_framerw.Common.Int.{ℤ, pos, negsuc}
use polkadot_indexer_framerw.Db.Queue.{ChunkRow, i64_max}
use polkadot_indexer_framerw.Db.Watermarks.{
  Watermarks, init_watermarks, load_watermarks, reset_watermarks,
}
use polkadot_indexer_framerw.Chain.Fetch.{as_i64, unbounded_lag}
use polkadot_indexer_framerw.Chain.Digest.{Committed, Header, replay_range, DigestError}

pub data StartError : Type 0 where
  refused_by_database light_client_cannot_backfill chain_not_indexed empty_replay_range : StartError
  unreachable : StartError
  digest_failed : DigestError → StartError

pub record Rows : Type 0 where
  pub marks : Option Watermarks
  pub chunks : List ChunkRow
  pub cursor : Option ℤ

abbrev pub minus_one : ℤ → ℤ
minus_one (pos zero) = negsuc 0
minus_one (pos (suc n)) = pos n
minus_one (negsuc n) = if n == i64_max then pos i64_max else negsuc (suc n)

-- "Everything below `start` is done, and nothing else is."
unfoldable pub before : ℕ → ℤ
before start = minus_one (as_i64 start)

-- `z as u64`
abbrev pub as_u64 : ℤ → ℕ
as_u64 (pos n) = n
as_u64 (negsuc n) = 2 ^ 64 - 1 - n

-- The block behind a watermark or a cursor. Adding before or after the cast is the same, modulo 2^64.
unfoldable pub behind : ℤ → ℕ
behind z = (as_u64 z + 1) % 2 ^ 64

-- `reset_chunks`
abbrev pub reset_chunks : List ChunkRow → List ChunkRow
reset_chunks rows = []

abbrev pub rewound : ℕ → Rows → Bool × Option Watermarks → Result StartError ℕ × Rows
rewound from db (true, marks) =
    (ok from, record db { marks = marks; chunks = reset_chunks db.chunks })
rewound from db (false, marks) = (err refused_by_database, db)

-- The case of `--from`.
unfoldable pub rewind : ℕ → Rows → Result StartError ℕ × Rows
rewind from db = rewound from db (reset_watermarks (before from) db.marks)

abbrev pub seeded : ℕ → Rows → Bool × Option Watermarks → Result StartError ℕ × Rows
seeded start db (true, marks) = (ok start, record db { marks = marks })
seeded start db (false, marks) = (err refused_by_database, db)

abbrev pub first_start : ℕ → Option ℤ → ℕ
first_start start_block none = start_block
first_start start_block (some last_indexed_block) = behind last_indexed_block

abbrev pub resumed : ℕ → Option Watermarks → Rows → Result StartError ℕ × Rows
resumed start_block (some m) db = (ok (behind m.digest), db)
resumed start_block none db =
    let start = first_start start_block db.cursor in
    seeded start db (init_watermarks (before start) db.marks)

unfoldable pub resolve_start : ℕ → Option ℕ → Rows → Result StartError ℕ × Rows
resolve_start start_block (some from) db = rewind from db
resolve_start start_block none db = resumed start_block (load_watermarks db.marks) db

abbrev pub digest_resumed : ℕ → Option Watermarks → ℕ
digest_resumed start_block (some m) = behind m.digest
digest_resumed start_block none = start_block

-- Where `digest_only` starts.
unfoldable pub digest_start : ℕ → Option ℕ → Rows → Result StartError ℕ × Rows
digest_start start_block (some from) db = rewind from db
digest_start start_block none db = (ok (digest_resumed start_block (load_watermarks db.marks)), db)

-- `run` of a light client is refused `--from` before anything else.
unfoldable pub check_from : Bool → Option ℕ → Result StartError (Unit {0})
check_from true from = ok tt
check_from false none = ok tt
check_from false (some from) = err light_client_cannot_backfill

-- The block whose state the handlers are seeded from.
abbrev pub snapshot_at : ℕ → ℕ
snapshot_at start = start - 1

abbrev pub pruned_node_lag : ℕ
pruned_node_lag = 256

unfoldable pub resolve_max_lag : Option ℕ → Bool → ℕ
resolve_max_lag (some configured) all_archive = configured
resolve_max_lag none true = unbounded_lag
resolve_max_lag none false = pruned_node_lag

pub data Reach : Type 0 where
  preferred never : Reach

-- What a run knows of its chain, and the connection, if it has one.
pub record Resolved (Info Client : Type 0) : Type 0 where
  pub info : Info
  pub client : Option Client

abbrev pub replay_outcome :
    Result DigestError (Unit {0}) × Committed → Result StartError (Unit {0}) × Committed
replay_outcome (ok u, db) = (ok u, db)
replay_outcome (err e, db) = (err (digest_failed e), db)
replay_outcome (panic, db) = (panic, db)

module _ {Info Client : Type 0} where
  abbrev pub known_only : Option Info → StartError → Result StartError (Resolved Info Client)
  known_only (some info) e = ok (record { info = info; client = none })
  known_only none e = err e

  -- `resolve`, with what the database holds of the chain and how a connection would go.
  unfoldable pub resolve :
      Option Info
      → Result StartError (Info × Client)
      → Reach
      → Result StartError (Resolved Info Client)
  resolve stored connected never = known_only stored chain_not_indexed
  resolve stored (ok (info, client)) preferred = ok (record { info = info; client = some client })
  resolve stored (err e) preferred = known_only stored e
  resolve stored panic preferred = panic

  abbrev pub replay_resolved :
      (Option Client → ℕ → Option Header)
      → (Option Client → ℕ → Bool)
      → ℕ
      → ℕ
      → ℕ
      → Committed
      → Result StartError (Resolved Info Client)
      → Result StartError (Unit {0}) × Committed
  replay_resolved archive handled batch from to db (ok resolved) =
      replay_outcome (replay_range (archive none) (handled none) batch from to db)
  replay_resolved archive handled batch from to db (err e) = (err e, db)
  replay_resolved archive handled batch from to db panic = (panic, db)

  -- `replay`. The archive and the handlers may use a client, if they are given one.
  unfoldable pub replay :
      Option Info
      → Result StartError (Info × Client)
      → (Option Client → ℕ → Option Header)
      → (Option Client → ℕ → Bool)
      → ℕ
      → ℕ
      → ℕ
      → Committed
      → Result StartError (Unit {0}) × Committed
  replay stored connected archive handled batch from to db =
      if ltb to from
      then (err empty_replay_range, db)
      else replay_resolved archive handled batch from to db (resolve stored connected never)
