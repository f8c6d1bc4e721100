-- ===== src/Chain/Tests.antt =====
-- A small backfill and a small limiter of crates/pif-chain.
use polkadot_indexer_framerw.Common.{
  ℕ, zero, suc, ◌+◌, ◌-◌, ◌*◌, ◌/◌, ◌≤◌, ◌<◌, min, max, ◌≡◌, refl, ◌≢◌, Bool, true, false, Option,
  none, some, List, [], ◌∷◌, arith, leb, le→leb, length,
}
use polkadot_indexer_framerw.Common.Int.{min_ℤ, pos, negsuc, ◌≤ℤ◌, ◌+ℤ◌}
use polkadot_indexer_framerw.Db.Watermarks.{
  advance_digest_watermark, Watermarks, advance_fetch_watermark,
}
use polkadot_indexer_framerw.Db.Queue.{
  reclaim_expired_chunks, ChunkRow, Chunk, pending, claim_chunk, seed_chunks, seed_loop, i64_max,
  release_chunk, insert_chunk, contiguous_done_end, complete_chunk, update_chunk,
}
use polkadot_indexer_framerw.Db.Queue.Tiling.{Tiled}
use polkadot_indexer_framerw.Db.Queue.Leases.{row_at}
use polkadot_indexer_framerw.Chain.Digest.{
  Header, Committed, replay_range, digest_ready, batches, commit, decode_blocks, write_batch, links,
}
use polkadot_indexer_framerw.Chain.Digest.Linked.{RunUpTo, digest_ready-RunUpTo}
use polkadot_indexer_framerw.Store.Layout.{list_eq, segment_index}
use polkadot_indexer_framerw.Chain.Fetch.{
  queue_range, effective_chunk_size, Fetch, Stage, claim_work, work_chunk, brake_ceiling,
  saturating_add, as_i64, archive_chunk, archive_from, put_block, advance_watermark, open_hot,
  Attempt, Copy, absent, on_hot, put_done, read_fails,
}
use polkadot_indexer_framerw.Chain.Fetch.Archive.{archive_chunk_lem}
use polkadot_indexer_framerw.Chain.Fetch.Brake.{claim_work-bounded, brake_gives_way}
use polkadot_indexer_framerw.Chain.Fetch.Backfill.{
  StageRun, begun, backfill-durable, here, next, claims, works,
}
use polkadot_indexer_framerw.Chain.Limiter.{
  ready, half_open, open_for, refill, second, open_breaker, closed, Breaker, Limiter, Float64,
  failed, poll, new, is_open,
}
use polkadot_indexer_framerw.Chain.Limiter.Keeps.{FloatLaws, WellFormed, started, called, fails}
use polkadot_indexer_framerw.Chain.Limiter.Bounds.{LimiterRun-WellFormed}
use polkadot_indexer_framerw.Chain.Limiter.Outage.{poll-outage}

abbrev fetch : Fetch
fetch = record { max_lag = 10; chunk_size = 2 }

abbrev marks : Watermarks
marks = record { fetch = negsuc 0; digest = negsuc 0; archive = negsuc 0 }

abbrev nobody : ℕ → Bool
nobody n = false

abbrev everything : ℕ → Bool
everything n = true

abbrev all_put : ℕ → Attempt
all_put n = put_done

-- The node answers for block 0 and not for the next one.
abbrev only_first : ℕ → Attempt
only_first zero = put_done
only_first (suc n) = read_fails

abbrev empty_store : ℕ → Copy
empty_store n = absent

-- Blocks 0 to 3 in two chunks.
abbrev start_stage : Stage
start_stage = begun fetch 1000 10 0 3 marks

abbrev first_chunk : Chunk
first_chunk = record { from_block = 0; to_block = 1; attempts = 1 }

claims_first : (claim_work fetch nobody 40 [] start_stage).0 ≡ some first_chunk
unfolding queue_range reclaim_expired_chunks effective_chunk_size claim_work claim_chunk seed_chunks
    seed_loop insert_chunk brake_ceiling saturating_add as_i64
claims_first = refl

abbrev claimed_stage : Stage
claimed_stage = (claim_work fetch nobody 40 [] start_stage).1

-- The first attempt fails, and the chunk returns to the queue.
abbrev released_stage : Stage
released_stage = work_chunk only_first 3 [] first_chunk claimed_stage

abbrev chunk_again : Chunk
chunk_again = record { from_block = 0; to_block = 1; attempts = 2 }

claims_again : (claim_work fetch nobody 50 [] released_stage).0 ≡ some chunk_again
unfolding queue_range reclaim_expired_chunks effective_chunk_size work_chunk archive_chunk
    archive_from put_block open_hot release_chunk update_chunk claim_work claim_chunk seed_chunks
    seed_loop insert_chunk brake_ceiling saturating_add as_i64 segment_index
claims_again = refl

abbrev reclaimed_stage : Stage
reclaimed_stage = (claim_work fetch nobody 50 [] released_stage).1

abbrev worked_stage : Stage
worked_stage = work_chunk all_put 3 [] chunk_again reclaimed_stage

backfill_run : StageRun 0 4 3 (start_stage, []) (worked_stage, [])
backfill_run =
    next
      (next
        (next (next here (claims fetch nobody 40 [] start_stage [] first_chunk claims_first))
          (works only_first [] claimed_stage [] [] first_chunk))
        (claims fetch nobody 50 [] released_stage [] chunk_again claims_again))
      (works all_put [] reclaimed_stage [] [] chunk_again)

abbrev worked_marks : Watermarks
worked_marks = record { fetch = pos 1; digest = negsuc 0; archive = negsuc 0 }

fetch_watermark_after : worked_stage.marks ≡ some worked_marks
unfolding queue_range reclaim_expired_chunks effective_chunk_size work_chunk archive_chunk
    archive_from put_block open_hot release_chunk segment_index advance_watermark
    contiguous_done_end complete_chunk update_chunk advance_fetch_watermark claim_work claim_chunk
    seed_chunks seed_loop insert_chunk brake_ceiling saturating_add as_i64
fetch_watermark_after = refl

chunk_room : 3 + effective_chunk_size fetch ≤ i64_max
unfolding effective_chunk_size
chunk_room = omega arith

backfill-durable_example : worked_stage.durable 1 ≡ true
backfill-durable_example =
    backfill-durable fetch 1000 10 0 3 1 marks worked_marks worked_stage [] (omega arith) chunk_room
      (λ h. omega (arith, h)) backfill_run fetch_watermark_after (omega arith) (omega arith)
      (omega arith)

start_rows-Tiled : Tiled 0 start_stage.rows 4
unfolding queue_range reclaim_expired_chunks effective_chunk_size seed_chunks seed_loop insert_chunk
    as_i64
start_rows-Tiled = (refl, omega arith, (refl, omega arith, refl))

claim_work-bounded_example : pos first_chunk.to_block ≤ℤ negsuc 0 +ℤ pos 10
claim_work-bounded_example =
    claim_work-bounded fetch nobody 40 [] start_stage marks 0 4 first_chunk (omega arith) refl
      start_rows-Tiled claims_first

abbrev one_row : ChunkRow
one_row = record {
  from_block = 5;
  to_block = 6;
  state = pending;
  leased_by = none;
  lease_expires_at = none;
  attempts = 0;
  last_error = none;
}

abbrev waiting_stage : Stage
waiting_stage = record {
  rows = one_row ∷ [];
  marks = some (record { fetch = pos 4; digest = pos 4; archive = pos 0 });
  segment_size = 1000;
  stored = empty_store;
  durable = nobody;
}

waiting_row : row_at 5 waiting_stage.rows ≡ some one_row
unfolding row_at
waiting_row = refl

waiting_size : one_row.to_block < one_row.from_block + effective_chunk_size fetch
unfolding effective_chunk_size
waiting_size = omega arith

brake_gives_way_example : (claim_work fetch nobody 40 [] waiting_stage).0 ≢ none
brake_gives_way_example =
    brake_gives_way fetch nobody 40 [] waiting_stage
      (record { fetch = pos 4; digest = pos 4; archive = pos 0 }) 5 one_row (omega arith)
      (omega arith) refl waiting_row refl refl waiting_size (omega arith) (omega arith)

archive_chunk_example :
    ((archive_chunk 1000 all_put first_chunk 3 empty_store).0 ≡ true
      → 0 ≤ 1
      → 1 ≤ 1
      → 1 ≤ 3
      → (archive_chunk 1000 all_put first_chunk 3 empty_store).1 1 ≡ on_hot)
    × (empty_store 1 ≡ on_hot → (archive_chunk 1000 all_put first_chunk 3 empty_store).1 1 ≡ on_hot)
    × (((n : ℕ) → 0 ≤ n → n ≤ 1 → n ≤ 3 → segment_index n 1000 ≢ segment_index 1 1000)
        → (archive_chunk 1000 all_put first_chunk 3 empty_store).1 1 ≡ empty_store 1)
archive_chunk_example = archive_chunk_lem 1000 all_put first_chunk 3 1 empty_store

-- Whole numbers in place of the floats.
abbrev whole : Float64
whole = record {
  F = ℕ;
  of_u32 = λ n. n;
  plus = λ a b. a + b;
  minus = λ a b. a - b;
  times = λ a b. a * b;
  over = λ a b. a / b;
  least = λ a b. min a b;
  greatest = λ a b. max a b;
  at_most = λ a b. leb a b;
  as_secs_f64 = λ n. n / 1000000000;
  from_secs_f64 = λ n. some (n * 1000000000);
}

whole_laws : FloatLaws whole
whole_laws = record {
  at_most_refl = λ a. ground arith;
  at_most_trans = λ a b c h k. ground arith;
  least_left = λ a b. ground arith;
  least_right = λ a b. ground arith;
  least_glb = λ c a b h k. ground arith;
  greatest_left = λ a b. ground arith;
  greatest_right = λ a b. ground arith;
  greatest_lub = λ a b c h k. ground arith;
  u32_nonneg = λ n. ground arith;
  half_below = λ a h. le→leb (a / 2) a (omega arith);
  step_above = λ a. ground arith;
}

abbrev fresh : Limiter whole
fresh = new whole (some 20) (b'u' ∷ []) 0

LimiterRun-WellFormed_example : WellFormed whole (failed whole 7 fresh)
LimiterRun-WellFormed_example =
    LimiterRun-WellFormed whole whole_laws
      (called (started (some 20) (b'u' ∷ []) 0) (fails 7 fresh))

abbrev tried : ℕ → Breaker → Limiter whole
tried n b = record {
  rate = 4;
  max_rate = 20;
  tokens = 3;
  last_refill = 0;
  consecutive_failures = n;
  breaker = b;
  backoff = second;
  jitter = 9;
}

abbrev two_times : List ℕ
two_times = 1 ∷ 2 ∷ []

tried_shut : is_open whole (tried 4 closed) ≡ false
unfolding is_open
tried_shut = refl

tried_opens : is_open whole (failed whole 7 (tried 4 closed)) ≡ true
unfolding is_open failed open_breaker
tried_opens = refl

poll-outage_example :
    (9 < 7 + second
      → (w : ℕ) × (poll whole 9 (failed whole 7 (tried 4 closed))
          ≡ some (open_for w, failed whole 7 (tried 4 closed))))
    × (7 + 61 * second ≤ 9
        → poll whole 9 (failed whole 7 (tried 4 closed))
          ≡ some (ready, record (failed whole 7 (tried 4 closed)) { breaker = half_open }))
poll-outage_example =
    poll-outage whole 7 9 (tried 4 closed) (omega arith) (omega arith) tried_shut tried_opens

tried_full : leb 1 (refill whole 9 (tried 0 half_open)).tokens ≡ true
unfolding refill
tried_full = refl

-- Blocks whose hash is their number, each a child of the one before.
abbrev toy_archive : ℕ → Option Header
toy_archive n = some (record { hash = n ∷ []; parent = (n - 1) ∷ [] })

abbrev digested_none : Committed
digested_none = record {
  blocks = [];
  marks = some (record { fetch = pos 5; digest = negsuc 0; archive = negsuc 0 });
}

digest_ready-RunUpTo_example :
    RunUpTo
      (pos 5)
      1
      none
      digested_none
      (digest_ready toy_archive everything 2 none 1 none digested_none).1
    × ((stop : ℕ)
        → RunUpTo
            (min_ℤ (pos 5) (pos stop))
            1
            none
            digested_none
            (digest_ready toy_archive everything 2 (some stop) 1 none digested_none).1)
digest_ready-RunUpTo_example =
    digest_ready-RunUpTo toy_archive everything 2 1 none digested_none
      (record { fetch = pos 5; digest = negsuc 0; archive = negsuc 0 }) refl

-- Four blocks in two batches.
replays_four : length (replay_range toy_archive everything 2 1 4 digested_none).1.blocks ≡ 4
unfolding replay_range batches commit decode_blocks write_batch links advance_digest_watermark
    list_eq
replays_four = refl
