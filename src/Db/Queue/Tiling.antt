-- ===== src/Db/Queue/Tiling.antt =====
-- A tiled queue: the chunks follow one another without gap or overlap. Seeding makes one, and no query
-- changes the ranges.
use polkadot_indexer_framerw.Common.{
  ℕ, zero, suc, ◌+◌, ◌-◌, ◌≤◌, ◌<◌, min, ◌≡◌, refl, sym, subst, ◌∙◌, inl, inr, Bool, false, ◌||◌,
  Option, some, List, [], ◌∷◌, ◌++◌, arith, ltb, leb, leb→le, Bool-cases,
}
use polkadot_indexer_framerw.Db.Queue.{
  ChunkRow, new_row, insert_chunk, seed_loop, seed_chunks, claim_chunk, update_chunk,
  complete_chunk, release_chunk, fail_chunk, reclaim_expired_chunks, Ceiling, i64_max,
}

-- The rows cover `start` up to, and not including, `stop`.
abbrev pub Tiled : ℕ → List ChunkRow → ℕ → Type 0
Tiled start [] stop = start ≡ stop
Tiled start (r ∷ rows) stop =
    (r.from_block ≡ start) × (start ≤ r.to_block) × Tiled (r.to_block + 1) rows stop

pub Tiled-le : (start stop : ℕ) (rows : List ChunkRow) → Tiled start rows stop → start ≤ stop
Tiled-le start stop [] t = omega arith
Tiled-le start stop (r ∷ rows) t = omega (arith, Tiled-le (r.to_block + 1) stop rows t.2)

-- Behind the last chunk an insertion appends.
insert_chunk-end :
    (start from to : ℕ) (rows : List ChunkRow)
    → Tiled start rows from
    → insert_chunk from to rows ≡ (rows ++ new_row from to ∷ [], 1)
unfolding insert_chunk
insert_chunk-end start from to [] t = refl
insert_chunk-end start from to (r ∷ rows) t = ground (
  arith,
  insert_chunk-end (r.to_block + 1) from to rows t.2,
  Tiled-le (r.to_block + 1) from rows t.2,
)

Tiled-append :
    (start middle stop : ℕ) (rows : List ChunkRow) (r : ChunkRow)
    → Tiled start rows middle
    → r.from_block ≡ middle
    → middle ≤ r.to_block
    → r.to_block + 1 ≡ stop
    → Tiled start (rows ++ r ∷ []) stop
Tiled-append start middle stop [] r t e le end = (omega arith, omega arith, end)
Tiled-append start middle stop (q ∷ rows) r t e le end =
    (t.0, t.1, Tiled-append (q.to_block + 1) middle stop rows r t.2 e le end)

-- The outcome of seeding: the rows tile the range, and it ended without an overflow.
abbrev pub Seeded : ℕ → ℕ → List ChunkRow × Option ℕ → Type 0
Seeded start stop p = Tiled start p.0 stop × (n : ℕ) × (p.1 ≡ some n)

seed_loop-Tiled :
    (fuel start from to size n : ℕ) (rows : List ChunkRow)
    → 0 < size
    → to + size ≤ i64_max
    → from ≤ to + 1
    → to + 1 - from ≤ fuel
    → Tiled start rows from
    → Seeded start (to + 1) (seed_loop fuel from to size (rows, n))
unfolding seed_loop
seed_loop-Tiled zero start from to size n rows pos room le enough t =
    let e : from ≡ to + 1 = omega arith in (subst (Tiled start rows) e t, n, refl)
seed_loop-Tiled (suc fuel) start from to size n rows pos room le enough t =
    let end = min (from + size - 1) to in
    let grown = insert_chunk-end start from end rows t in
    elim (Bool-cases (leb from to)) [
      | inr past ↦
          rw past (let e : from ≡ to + 1 = ground arith in (subst (Tiled start rows) e t, n, refl))
      | inl more ↦
          let below = leb→le from to more in
          let fits : ltb i64_max (from + size) ≡ false = ground (arith, below, room) in
          let top_fits : ltb i64_max (end + 1) ≡ false = ground (arith, below, room, pos) in
          rw (more, fits, top_fits)
            (rw grown (
              seed_loop-Tiled fuel start (end + 1) to size (n + 1) (rows ++ new_row from end ∷ [])
                pos room (omega arith) (omega arith)
                (Tiled-append start from (end + 1) rows (new_row from end) t refl (omega arith)
                  refl)))
    ]

-- Seeding a range that is not empty behind the end of a tiled queue, with a chunk size that is
-- not zero and an `i64` that holds the sum of the range's end and the chunk size, ends without an
-- overflow and tiles up to the end of the range.
pub seed_chunks-Tiled :
    (start from to size : ℕ) (rows : List ChunkRow)
    → from ≤ to
    → 0 < size
    → to + size ≤ i64_max
    → Tiled start rows from
    → Tiled start (seed_chunks from to size rows).0 (to + 1)
      × (n : ℕ) × ((seed_chunks from to size rows).1 ≡ some n)
unfolding seed_chunks
seed_chunks-Tiled start from to size rows le pos room t =
    let plain : (ltb to from || ltb size 1) ≡ false = ground arith in
    rw plain (
      seed_loop-Tiled (to + 1 - from) start from to size 0 rows pos room (omega arith) (omega arith)
        t)

-- The keys and ranges of the rows.
abbrev pub ranges : List ChunkRow → List (ℕ × ℕ)
ranges [] = []
ranges (r ∷ rows) = (r.from_block, r.to_block) ∷ ranges rows

module _ (f : ChunkRow → ChunkRow) (from : ℕ) where
  ranges-update_chunk :
      ((r : ChunkRow) → ((f r).from_block ≡ r.from_block) × ((f r).to_block ≡ r.to_block))
      → (rows : List ChunkRow) → ranges (update_chunk f from rows) ≡ ranges rows
  unfolding update_chunk
  ranges-update_chunk same [] = refl
  ranges-update_chunk same (r ∷ rows) = ground (arith, same r, ranges-update_chunk same rows)

ranges-claim_chunk :
    (locked : ℕ → Bool) (now : ℕ) (by : List ℕ) (seconds : ℕ) (ceiling : Ceiling)
    (rows : List ChunkRow)
    → ranges (claim_chunk locked now by seconds ceiling rows).1 ≡ ranges rows
unfolding claim_chunk
ranges-claim_chunk locked now by seconds ceiling [] = refl
ranges-claim_chunk locked now by seconds ceiling (r ∷ rows) =
    ground (arith, ranges-claim_chunk locked now by seconds ceiling rows)

ranges-reclaim :
    (now : ℕ) (rows : List ChunkRow) → ranges (reclaim_expired_chunks now rows).0 ≡ ranges rows
unfolding reclaim_expired_chunks
ranges-reclaim now [] = refl
ranges-reclaim now (r ∷ rows) = ground (arith, ranges-reclaim now rows)

-- One query that a worker makes on the queue.
pub data QueueStep : List ChunkRow → List ChunkRow → Type 0 where
  claim :
      (locked : ℕ → Bool) (now : ℕ) (by : List ℕ) (seconds : ℕ) (ceiling : Ceiling)
      (rows : List ChunkRow)
      → QueueStep rows (claim_chunk locked now by seconds ceiling rows).1
  complete : (from : ℕ) (rows : List ChunkRow) → QueueStep rows (complete_chunk from rows)
  release :
      (from : ℕ) (error : List ℕ) (rows : List ChunkRow)
      → QueueStep rows (release_chunk from error rows)
  fail :
      (from : ℕ) (error : List ℕ) (rows : List ChunkRow)
      → QueueStep rows (fail_chunk from error rows)
  reclaim : (now : ℕ) (rows : List ChunkRow) → QueueStep rows (reclaim_expired_chunks now rows).0

-- Any number of queries, of any workers, one after the other.
pub data QueueRun (rows : List ChunkRow) : List ChunkRow → Type 0 where
  here : QueueRun rows rows
  next : {mid last : List ChunkRow} → QueueRun rows mid → QueueStep mid last → QueueRun rows last

pub ranges-QueueStep : {a b : List ChunkRow} → QueueStep a b → ranges b ≡ ranges a
unfolding complete_chunk release_chunk fail_chunk
ranges-QueueStep (claim locked now by seconds ceiling rows) =
    ranges-claim_chunk locked now by seconds ceiling rows
ranges-QueueStep (complete from rows) = ranges-update_chunk _ from (λ r. (refl, refl)) rows
ranges-QueueStep (release from error rows) = ranges-update_chunk _ from (λ r. (refl, refl)) rows
ranges-QueueStep (fail from error rows) = ranges-update_chunk _ from (λ r. (refl, refl)) rows
ranges-QueueStep (reclaim now rows) = ranges-reclaim now rows

pub Tiled-ranges :
    (start stop : ℕ) (a b : List ChunkRow)
    → ranges b ≡ ranges a
    → Tiled start a stop
    → Tiled start b stop
Tiled-ranges start stop [] [] e t = t
Tiled-ranges start stop [] (r ∷ b) e t = cc e
Tiled-ranges start stop (r ∷ a) [] e t = cc e
Tiled-ranges start stop (r ∷ a) (q ∷ b) e t =
    let same : (q.from_block ≡ r.from_block) × (q.to_block ≡ r.to_block) × (ranges b ≡ ranges a) =
      ground arith in
    (
      same.0 ∙ t.0,
      omega arith,
      Tiled-ranges (q.to_block + 1) stop a b same.2
          (subst (λ k. Tiled (k + 1) a stop) (sym same.1) t.2),
    )

-- Whatever the workers do, in whatever order, no chunk is lost, added, merged or moved: the queue has
-- the same keys and ranges in the same order, and one that was seeded for a range still covers it
-- exactly.
pub QueueRun-Tiled :
    {a b : List ChunkRow} (start stop : ℕ)
    → QueueRun a b
    → Tiled start a stop
    → Tiled start b stop × (ranges b ≡ ranges a)
QueueRun-Tiled start stop here t = (t, refl)
QueueRun-Tiled start stop (next {mid = m} {last = b} run step) t =
    let (tiled, same) = QueueRun-Tiled start stop run t in
    (Tiled-ranges start stop m b (ranges-QueueStep step) tiled, ranges-QueueStep step ∙ same)
