-- ===== src/Db/Tests.antt =====
-- A small queue of crates/pif-db, seeded and claimed, and a row of watermarks.
use polkadot_indexer_framerw.Common.{
  ℕ, ◌+◌, ◌≤◌, ◌≡◌, refl, Bool, true, false, none, some, List, [], ◌∷◌, arith,
}
use polkadot_indexer_framerw.Common.Int.{pos, negsuc, ◌≤ℤ◌}
use polkadot_indexer_framerw.Db.Queue.{
  reclaim_expired_chunks, contiguous_done_end, release_chunk, seed_chunks, ChunkState, ChunkRow,
  Chunk, pending, leased, done, claim_chunk,
}
use polkadot_indexer_framerw.Db.Queue.Tiling.{
  release, reclaim, here, next, QueueRun, Tiled, seed_chunks-Tiled, QueueRun-Tiled, ranges,
}
use polkadot_indexer_framerw.Db.Queue.Prefix.{done_at, contiguous_done_end_lem}
use polkadot_indexer_framerw.Db.Queue.Leases.{late_release, row_at}
use polkadot_indexer_framerw.Db.Watermarks.{
  advance_archive_watermark, advance_digest_watermark, advance_fetch_watermark, reset_watermarks,
  Watermarks, init_watermarks,
}
use polkadot_indexer_framerw.Db.Watermarks.Order.{stages_accepted}

abbrev row : ℕ → ℕ → ChunkState → ChunkRow
row from to state = record {
  from_block = from;
  to_block = to;
  state = state;
  leased_by = none;
  lease_expires_at = some 50;
  attempts = 1;
  last_error = none;
}

-- Blocks 0 to 29: a finished chunk, a leased one, a finished one behind it, and one to do.
abbrev queue : List ChunkRow
queue = row 0 9 done ∷ row 10 14 leased ∷ row 15 19 done ∷ row 20 29 pending ∷ []

queue-Tiled : Tiled 0 queue 30
queue-Tiled =
    (refl, omega arith, (refl, omega arith, (refl, omega arith, (refl, omega arith, refl))))

abbrev nobody : ℕ → Bool
nobody n = false

abbrev url : List ℕ
url = b'u' ∷ []

seed_chunks-Tiled_example :
    Tiled 0 (seed_chunks 30 45 10 queue).0 46 × (n : ℕ) × ((seed_chunks 30 45 10 queue).1 ≡ some n)
seed_chunks-Tiled_example =
    seed_chunks-Tiled 0 30 45 10 queue (omega arith) (omega arith) (omega arith) queue-Tiled

abbrev run_once : QueueRun queue (release_chunk 10 url (reclaim_expired_chunks 60 queue).0)
run_once = next (next here (reclaim 60 queue)) (release 10 url (reclaim_expired_chunks 60 queue).0)

QueueRun-Tiled_example :
    Tiled 0 (release_chunk 10 url (reclaim_expired_chunks 60 queue).0) 30
    × (ranges (release_chunk 10 url (reclaim_expired_chunks 60 queue).0) ≡ ranges queue)
QueueRun-Tiled_example = QueueRun-Tiled 0 30 run_once queue-Tiled

contiguous_done_end_example :
    ((e b : ℕ) → contiguous_done_end queue ≡ some e → 0 ≤ b → b ≤ e → done_at b queue ≡ true)
    × ((e : ℕ) → contiguous_done_end queue ≡ some e → (0 ≤ e) × (done_at (e + 1) queue ≡ false))
    × (contiguous_done_end queue ≡ none → done_at 0 queue ≡ false)
contiguous_done_end_example = contiguous_done_end_lem 0 30 queue queue-Tiled (omega arith)

abbrev last_chunk : Chunk
last_chunk = record { from_block = 20; to_block = 29; attempts = 2 }

-- Under a brake at block 25 nothing is claimable.
claims_nothing : (claim_chunk nobody 40 url 120 (some (pos 25)) queue).0 ≡ none
unfolding claim_chunk
claims_nothing = refl

abbrev two_pending : List ChunkRow
two_pending = row 0 9 pending ∷ row 10 19 pending ∷ []

two_pending-Tiled : Tiled 0 two_pending 20
two_pending-Tiled = (refl, omega arith, (refl, omega arith, refl))

abbrev chunk_of : ℕ → ℕ → Chunk
chunk_of from to = record { from_block = from; to_block = to; attempts = 2 }

claims_first : (claim_chunk nobody 40 url 120 none two_pending).0 ≡ some (chunk_of 0 9)
unfolding claim_chunk
claims_first = refl

claims_second :
    (claim_chunk nobody 41 [] 60 none (claim_chunk nobody 40 url 120 none two_pending).1).0
    ≡ some (chunk_of 10 19)
unfolding claim_chunk
claims_second = refl

finished_row : row_at 15 queue ≡ some (row 15 19 done)
unfolding row_at
finished_row = refl

late_release_example : done_at 15 (release_chunk 15 url queue) ≡ false
late_release_example = late_release 0 30 15 url queue (row 15 19 done) queue-Tiled finished_row

abbrev marks : Watermarks
marks = record { fetch = pos 9; digest = pos 4; archive = negsuc 0 }

stages_accepted_example :
    ((init_watermarks (pos 4) (some marks)).0 ≡ true)
    × ((reset_watermarks (pos 4) (some marks)).0 ≡ true)
    × ((advance_fetch_watermark (pos 4) (some marks)).0 ≡ true)
    × ((m : Watermarks)
        → some marks ≡ some m
        → (pos 4 ≤ℤ m.fetch → (advance_digest_watermark (pos 4) (some marks)).0 ≡ true)
          × (pos 4 ≤ℤ m.digest → (advance_archive_watermark (pos 4) (some marks)).0 ≡ true))
stages_accepted_example = stages_accepted (some marks) (pos 4) (omega arith, omega arith)
