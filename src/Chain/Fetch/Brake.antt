-- ===== src/Chain/Fetch/Brake.antt =====
-- The brake of the fetch stage: how far it lets the fetch run ahead, and that it gives way.
use polkadot_indexer_framerw.Common.{
  ℕ, ◌+◌, ◌≤◌, ◌<◌, ◌≡◌, refl, sym, ap, ap₂, ◌∙◌, ◌≢◌, Bool, true, false, none, some, List, arith,
  ◌==◌,
}
use polkadot_indexer_framerw.Common.Int.{ℤ, pos, ◌≤ℤ◌, leb_ℤ, ◌+ℤ◌}
use polkadot_indexer_framerw.Db.Watermarks.{Watermarks}
use polkadot_indexer_framerw.Db.Queue.{is_pending, under_ceiling, Chunk, ChunkRow}
use polkadot_indexer_framerw.Db.Queue.Tiling.{Tiled}
use polkadot_indexer_framerw.Db.Queue.Leases.{claim_chunk-none, claim_chunk-Claims, row_at}
use polkadot_indexer_framerw.Chain.Fetch.{
  lease_seconds, unbounded_lag, effective_chunk_size, claim_chunk, i64_max, as_i64, saturating_add,
  Fetch, Stage, brake_ceiling, claim_work,
}

saturating_add-ℕ :
    (d : ℤ) (n b : ℕ)
    → n ≤ i64_max
    → leb_ℤ (pos b) (saturating_add d (as_i64 n)) ≡ true
    → pos b ≤ℤ d +ℤ pos n
unfolding saturating_add as_i64
saturating_add-ℕ d n b small h = ground arith

saturating_add_reaches :
    (d : ℤ) (n b : ℕ)
    → n ≤ i64_max
    → b ≤ i64_max
    → pos b ≤ℤ d +ℤ pos n
    → leb_ℤ (pos b) (saturating_add d (as_i64 n)) ≡ true
unfolding saturating_add as_i64
saturating_add_reaches d n b small top h = ground arith

-- What the brake lets through: with a `max_lag` that an `i64` holds, a chunk that ends at `b`, or any.
under_brake :
    (f : Fetch) (m : Watermarks) (b : ℕ)
    → f.max_lag ≤ i64_max
    → under_ceiling (brake_ceiling f (some m)) b ≡ true
    → pos b ≤ℤ m.digest +ℤ pos f.max_lag
unfolding brake_ceiling
under_brake f m b small h =
    let bounded : (f.max_lag == unbounded_lag) ≡ false = ground arith in
    saturating_add-ℕ m.digest f.max_lag b small (rw bounded at h)

brake_lets :
    (f : Fetch) (m : Watermarks) (b : ℕ)
    → f.max_lag ≤ i64_max
    → b ≤ i64_max
    → pos b ≤ℤ m.digest +ℤ pos f.max_lag
    → under_ceiling (brake_ceiling f (some m)) b ≡ true
unfolding brake_ceiling
brake_lets f m b small top h =
    let bounded : (f.max_lag == unbounded_lag) ≡ false = ground arith in
    rw bounded (saturating_add_reaches m.digest f.max_lag b small top h)

claim_work-found :
    (f : Fetch) (locked : ℕ → Bool) (now : ℕ) (url : List ℕ) (s : Stage)
    → (claim_work f locked now url s).0
      ≡ (claim_chunk locked now url lease_seconds (brake_ceiling f s.marks) s.rows).0
unfolding claim_work
claim_work-found f locked now url s = refl

-- The fetch never runs further ahead of the digest than it is told to: with a watermark row, a
-- tiled queue and a `max_lag` that an `i64` holds, every chunk that a worker takes ends at most
-- `max_lag` blocks past the last digested one.
pub claim_work-bounded :
    (f : Fetch) (locked : ℕ → Bool) (now : ℕ) (url : List ℕ) (s : Stage) (m : Watermarks)
    (start stop : ℕ) (c : Chunk)
    → f.max_lag ≤ i64_max
    → s.marks ≡ some m
    → Tiled start s.rows stop
    → (claim_work f locked now url s).0 ≡ some c
    → pos c.to_block ≤ℤ m.digest +ℤ pos f.max_lag
claim_work-bounded f locked now url s m start stop c small here t e =
    let ceiling = brake_ceiling f s.marks in
    let k =
      claim_chunk-Claims locked now url lease_seconds ceiling start stop s.rows c t
        (sym (claim_work-found f locked now url s) ∙ e) in
    let row_under : under_ceiling ceiling k.row.to_block ≡ true = ground (arith, k.free) in
    let under : under_ceiling (brake_ceiling f (some m)) c.to_block ≡ true =
      ap₂ (λ w b. under_ceiling (brake_ceiling f w) b) (sym here) k.to_same ∙ row_under in
    under_brake f m c.to_block small under

-- The brake never stops both stages: with a watermark row, and a `max_lag` that is not zero and
-- that an `i64` holds, once the digest has reached the block before a pending chunk of at most
-- the size that the fetch queues, ending within the `i64`s, and no transaction holds its row, a
-- worker is given a chunk.
pub brake_gives_way :
    (f : Fetch) (locked : ℕ → Bool) (now : ℕ) (url : List ℕ) (s : Stage) (m : Watermarks) (from : ℕ)
    (r : ChunkRow)
    → 0 < f.max_lag
    → f.max_lag ≤ i64_max
    → s.marks ≡ some m
    → row_at from s.rows ≡ some r
    → is_pending r.state ≡ true
    → locked r.from_block ≡ false
    → r.to_block < r.from_block + effective_chunk_size f
    → r.to_block ≤ i64_max
    → pos r.from_block ≤ℤ m.digest +ℤ pos 1
    → (claim_work f locked now url s).0 ≢ none
unfolding effective_chunk_size
brake_gives_way f locked now url s m from r some_lag small here at pending free size top reached e =
    let ceiling = brake_ceiling f s.marks in
    let within : pos r.to_block ≤ℤ m.digest +ℤ pos f.max_lag = ground (arith, size, reached) in
    let lets : under_ceiling ceiling r.to_block ≡ true =
      ap (λ w. under_ceiling (brake_ceiling f w) r.to_block) here
      ∙ brake_lets f m r.to_block small top within in
    let refused =
      (claim_chunk-none locked now url lease_seconds ceiling s.rows
          (sym (claim_work-found f locked now url s) ∙ e)).1
        from r at in
    ground (arith, lets, refused)
