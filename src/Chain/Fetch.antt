-- ===== src/Chain/Fetch.antt =====
-- The fetch stage, crates/pif-chain/src/fetch.rs: its brake, and what a worker does with a chunk. The
-- node, the endpoint's pacing and the disk are a parameter of each attempt at a chunk: `reads n` says
-- how far it gets with block `n`. The store is, for each block, the tier that a read finds it on, and
-- whether it is synced to disk.
pub mod Brake
pub mod Archive
pub mod Durable
pub mod Backfill
use polkadot_indexer_framerw.Common.{
  ℕ, zero, suc, ◌+◌, ◌-◌, min, max, Bool, true, false, ◌&&◌, Option, none, some, List, ltb, leb,
  ◌==◌, if◌then◌else◌,
}
use polkadot_indexer_framerw.Store.Layout.{segment_index}
use polkadot_indexer_framerw.Common.Int.{ℤ, pos, negsuc, max_ℤ, min_ℤ, ◌+ℤ◌}
use polkadot_indexer_framerw.Db.Watermarks.{Watermarks, load_watermarks, advance_fetch_watermark}
use polkadot_indexer_framerw.Db.Queue.{
  seed_chunks, reclaim_expired_chunks, Ceiling, release_chunk, fail_chunk, complete_chunk,
  claim_chunk, chunk_counts, contiguous_done_end, i64_max, Chunk, ChunkRow,
}

abbrev pub u64_max : ℕ
u64_max = 18446744073709551615

abbrev pub unbounded_lag : ℕ
unbounded_lag = u64_max

abbrev pub max_chunk_attempts : ℕ
max_chunk_attempts = 5

abbrev pub lease_seconds : ℕ
lease_seconds = 120

pub record Fetch : Type 0 where
  pub max_lag : ℕ
  pub chunk_size : ℕ

-- `x as i64`, of a `u64`.
unfoldable pub as_i64 : ℕ → ℤ
as_i64 n = if leb n i64_max then pos n else negsuc (u64_max - n)

-- `i64::saturating_add`
unfoldable pub saturating_add : ℤ → ℤ → ℤ
saturating_add a b = max_ℤ (negsuc i64_max) (min_ℤ (a +ℤ b) (pos i64_max))

unfoldable pub effective_chunk_size : Fetch → ℕ
effective_chunk_size f =
    if f.max_lag == unbounded_lag then max f.chunk_size 1 else max (min f.chunk_size f.max_lag) 1

unfoldable pub brake_ceiling : Fetch → Option Watermarks → Ceiling
brake_ceiling f marks =
    let digested : ℤ = elim (load_watermarks marks) [ none ↦ negsuc 0 | some m ↦ m.digest ] in
    if f.max_lag == unbounded_lag then none else some (saturating_add digested (as_i64 f.max_lag))

-- Where a read finds a block: not at all, on the hot tier, or on the cold tier only.
pub data Copy : Type 0 where
  absent on_hot on_cold : Copy

abbrev pub is_held : Copy → Bool
is_held absent = false
is_held on_hot = true
is_held on_cold = true

-- How far an attempt gets with a block: it is not acquired or not read, its put fails once the segment's
-- hot files are open, or it is put. (A put that fails earlier changes nothing, like a read.)
pub data Attempt : Type 0 where
  read_fails put_fails put_done : Attempt

-- What the workers of one chain share: the queue and the watermarks in the database, and the store.
pub record Stage : Type 0 where
  pub rows : List ChunkRow
  pub marks : Option Watermarks
  pub segment_size : ℕ
  pub stored : ℕ → Copy
  pub durable : ℕ → Bool

-- What becomes of a block when the segment of another one is opened for appending on the hot tier. The
-- hot file hides a segment that was on the cold tier only.
abbrev pub beside : Copy → Bool → Copy
beside absent same = absent
beside on_hot same = on_hot
beside on_cold true = absent
beside on_cold false = on_cold

unfoldable pub open_hot : ℕ → ℕ → (ℕ → Copy) → ℕ → Copy
open_hot size n stored b = beside (stored b) (segment_index n size == segment_index b size)

unfoldable pub put_block : ℕ → ℕ → (ℕ → Copy) → ℕ → Copy
put_block size n stored b = if n == b then on_hot else open_hot size n stored b

-- The loop of `archive_chunk` over `number ..`, `count` blocks: it stops at the first error, and says
-- whether it met none. Blocks already written stay written.
unfoldable pub archive_from : ℕ → (ℕ → Attempt) → ℕ → ℕ → (ℕ → Copy) → Bool × (ℕ → Copy)
archive_from size reads zero number stored = (true, stored)
archive_from size reads (suc count) number stored = elim (reads number) [
  | read_fails ↦ (false, stored)
  | put_fails ↦ (false, open_hot size number stored)
  | put_done ↦ archive_from size reads count (number + 1) (put_block size number stored)
]

unfoldable pub archive_chunk : ℕ → (ℕ → Attempt) → Chunk → ℕ → (ℕ → Copy) → Bool × (ℕ → Copy)
archive_chunk size reads chunk end stored =
    let last = min chunk.to_block end in
    archive_from size reads (last + 1 - chunk.from_block) chunk.from_block stored

unfoldable pub advance_watermark : Stage → Stage
advance_watermark s = elim (contiguous_done_end s.rows) [
  | none ↦ s
  | some through ↦ record s { marks = (advance_fetch_watermark (pos through) s.marks).1 }
]

-- The head of a worker's loop: the brake, then the claim.
unfoldable pub claim_work : Fetch → (ℕ → Bool) → ℕ → List ℕ → Stage → Option Chunk × Stage
claim_work f locked now url s =
    let (found, rows) = claim_chunk locked now url lease_seconds (brake_ceiling f s.marks) s.rows in
    (found, record s { rows = rows })

-- The rest of the loop, once a chunk is claimed: archive it, then record it, or give it back. `end` is
-- the end of the backfill, and `error` the text of the error, if there is one.
-- An error leaves synced what was, unless the attempt has hidden it.
unfoldable pub work_chunk : (ℕ → Attempt) → ℕ → List ℕ → Chunk → Stage → Stage
work_chunk reads end error chunk s =
    let (ok, stored) = archive_chunk s.segment_size reads chunk end s.stored in
    let synced = record s { stored = stored; durable = λ b. is_held (stored b) } in
    let stopped = record s { stored = stored; durable = λ b. s.durable b && is_held (stored b) } in
    if ok
    then advance_watermark (record synced { rows = complete_chunk chunk.from_block s.rows })
    else if leb max_chunk_attempts chunk.attempts
    then record stopped { rows = fail_chunk chunk.from_block error s.rows }
    else record stopped { rows = release_chunk chunk.from_block error s.rows }

-- What `backfill` does before its workers start: leases that have run out return, and the range is
-- queued, with the outcome of `seed_chunks`. A chunk size that is no positive `i64` queues nothing. The
-- range is one of numbers below 2^63.
unfoldable pub queue_range : Fetch → ℕ → ℕ → ℕ → List ChunkRow → List ChunkRow × Option ℕ
queue_range f now start end rows =
    let swept = (reclaim_expired_chunks now rows).0 in
    elim (as_i64 (effective_chunk_size f)) [
      | pos size ↦ seed_chunks start end size swept
      | negsuc n ↦ (swept, some 0)
    ]

-- A worker that finds nothing to claim stops only when nothing is pending or leased.
abbrev pub stops : List ChunkRow → Bool
stops rows = let (pending, leased, failed) = chunk_counts rows in pending == 0 && leased == 0

-- What `backfill` reports once its workers have stopped: how many chunks failed, if any did.
abbrev pub failed_chunks : List ChunkRow → Option ℕ
failed_chunks rows =
    let (pending, leased, failed) = chunk_counts rows in if ltb 0 failed then some failed else none
