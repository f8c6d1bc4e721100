-- ===== src/Db/Queue/Done.antt =====
-- What each query does to the finished blocks.
use polkadot_indexer_framerw.Common.{
  ℕ, zero, suc, ◌+◌, ◌-◌, ◌≤◌, ◌<◌, min, ◌≡◌, refl, sym, ◌∙◌, ◌⊎◌, inl, inr, Bool, true, ◌||◌, some,
  List, [], ◌∷◌, ◌++◌, arith, ltb, leb, ◌==◌, Bool-cases, All, All-append, All-append_left,
  All-append_right,
}
use polkadot_indexer_framerw.Db.Queue.{
  seed_chunks, seed_loop, insert_chunk, update_chunk, complete_chunk, fail_chunk, release_chunk,
  reclaim_expired_chunks, Chunk, ChunkRow, Ceiling, claim_chunk, i64_max,
}
use polkadot_indexer_framerw.Db.Queue.Prefix.{done_at}
use polkadot_indexer_framerw.Db.Queue.Leases.{row_at}
use polkadot_indexer_framerw.Db.Queue.Tiling.{ranges, Tiled}

pub done_at-claim_chunk :
    (locked : ℕ → Bool) (now : ℕ) (by : List ℕ) (seconds : ℕ) (ceiling : Ceiling) (b : ℕ)
    (rows : List ChunkRow)
    → done_at b (claim_chunk locked now by seconds ceiling rows).1 ≡ done_at b rows
unfolding claim_chunk
done_at-claim_chunk locked now by seconds ceiling b [] = refl
done_at-claim_chunk locked now by seconds ceiling b (r ∷ rows) =
    ground (arith, done_at-claim_chunk locked now by seconds ceiling b rows)

pub done_at-reclaim :
    (now b : ℕ) (rows : List ChunkRow)
    → done_at b (reclaim_expired_chunks now rows).0 ≡ done_at b rows
unfolding reclaim_expired_chunks
done_at-reclaim now b [] = refl
done_at-reclaim now b (r ∷ rows) = ground (arith, done_at-reclaim now b rows)

pub done_at-release :
    (from b : ℕ) (error : List ℕ) (rows : List ChunkRow)
    → done_at b (release_chunk from error rows) ≡ true
    → done_at b rows ≡ true
unfolding release_chunk update_chunk
done_at-release from b error [] h = h
done_at-release from b error (r ∷ rows) h = ground (arith, done_at-release from b error rows)

pub done_at-fail :
    (from b : ℕ) (error : List ℕ) (rows : List ChunkRow)
    → done_at b (fail_chunk from error rows) ≡ true
    → done_at b rows ≡ true
unfolding fail_chunk update_chunk
done_at-fail from b error [] h = h
done_at-fail from b error (r ∷ rows) h = ground (arith, done_at-fail from b error rows)

-- A chunk that was handed out of these rows: the row with its key has its range.
abbrev pub Handed : Chunk → List ChunkRow → Type 0
Handed c [] = Unit
Handed c (r ∷ rows) = (r.from_block ≡ c.from_block → r.to_block ≡ c.to_block) × Handed c rows

pub done_at-complete_chunk :
    (c : Chunk) (b : ℕ) (rows : List ChunkRow)
    → Handed c rows
    → done_at b (complete_chunk c.from_block rows) ≡ true
    → (done_at b rows ≡ true) ⊎ ((c.from_block ≤ b) × (b ≤ c.to_block))
unfolding complete_chunk update_chunk
done_at-complete_chunk c b [] k h = inl h
done_at-complete_chunk c b (r ∷ rows) k h = ground (arith, k, done_at-complete_chunk c b rows k.1)

Handed-above :
    (c : Chunk) (start stop : ℕ) (rows : List ChunkRow)
    → Tiled start rows stop
    → c.from_block < start
    → Handed c rows
Handed-above c start stop [] t lt = tt
Handed-above c start stop (r ∷ rows) t lt =
    (λ e. absurd (omega arith), Handed-above c (r.to_block + 1) stop rows t.2 (omega arith))

-- A row found by its key is the only one with it.
pub row_at-Handed :
    (c : Chunk) (start stop : ℕ) (rows : List ChunkRow) (row : ChunkRow)
    → Tiled start rows stop
    → row_at c.from_block rows ≡ some row
    → c.to_block ≡ row.to_block
    → Handed c rows
unfolding row_at
row_at-Handed c start stop [] row t h e = tt
row_at-Handed c start stop (r ∷ rows) row t h e = elim (Bool-cases (r.from_block == c.from_block)) [
  | inl same ↦ (λ k. ground arith, Handed-above c (r.to_block + 1) stop rows t.2 (ground arith))
  | inr other ↦ (
    λ k. absurd (ground arith),
    row_at-Handed c (r.to_block + 1) stop rows row t.2 (ground arith) e,
  )
]

pub Handed-ranges :
    (c : Chunk) (a b : List ChunkRow) → ranges b ≡ ranges a → Handed c a → Handed c b
Handed-ranges c [] [] e k = tt
Handed-ranges c [] (r ∷ b) e k = cc e
Handed-ranges c (r ∷ a) [] e k = cc e
Handed-ranges c (r ∷ a) (q ∷ b) e k =
    let same : (q.from_block ≡ r.from_block) × (q.to_block ≡ r.to_block) × (ranges b ≡ ranges a) =
      ground arith in
    (λ h. same.1 ∙ k.0 (sym same.0 ∙ h), Handed-ranges c a b same.2 k.1)

done_at-insert :
    (from to b : ℕ) (rows : List ChunkRow)
    → done_at b (insert_chunk from to rows).0 ≡ done_at b rows
unfolding insert_chunk
done_at-insert from to b [] = refl
done_at-insert from to b (r ∷ rows) = ground (arith, done_at-insert from to b rows)

done_at-seed_loop :
    (fuel from to size n b : ℕ) (rows : List ChunkRow)
    → done_at b (seed_loop fuel from to size (rows, n)).0 ≡ done_at b rows
unfolding seed_loop
done_at-seed_loop zero from to size n b rows = refl
done_at-seed_loop (suc fuel) from to size n b rows =
    let end = min (from + size - 1) to in
    let grown = insert_chunk from end rows in
    elim (Bool-cases (leb from to)) [
      | inr past ↦ rw past refl
      | inl more ↦ elim (Bool-cases (ltb i64_max (from + size))) [
        | inl over ↦ rw (more, over) refl
        | inr fits ↦ elim (Bool-cases (ltb i64_max (end + 1))) [
          | inl over ↦ rw (more, fits, over) (done_at-insert from end b rows)
          | inr top_fits ↦
              rw (more, fits, top_fits)
                (done_at-seed_loop fuel (end + 1) to size (n + grown.1) b grown.0
                  ∙ done_at-insert from end b rows)
        ]
      ]
    ]

-- Seeding finishes nothing.
pub done_at-seed_chunks :
    (from to size b : ℕ) (rows : List ChunkRow)
    → done_at b (seed_chunks from to size rows).0 ≡ done_at b rows
unfolding seed_chunks
done_at-seed_chunks from to size b rows = elim (Bool-cases (ltb to from || ltb size 1)) [
  | inl nothing ↦ rw nothing refl
  | inr some_work ↦ rw some_work (done_at-seed_loop (to + 1 - from) from to size 0 b rows)
]

-- Chunks that were all handed out of these rows.
abbrev pub AllHanded : List Chunk → List ChunkRow → Type 0
AllHanded held rows = All (λ c. Handed c rows) held

pub AllHanded-ranges :
    (held : List Chunk) (a b : List ChunkRow)
    → ranges b ≡ ranges a
    → AllHanded held a
    → AllHanded held b
AllHanded-ranges [] a b e h = tt
AllHanded-ranges (c ∷ held) a b e h = (Handed-ranges c a b e h.0, AllHanded-ranges held a b e h.1)

pub AllHanded-remove :
    (before after : List Chunk) (c : Chunk) (rows : List ChunkRow)
    → AllHanded (before ++ c ∷ after) rows
    → Handed c rows × AllHanded (before ++ after) rows
AllHanded-remove before after c rows h =
    let rest = All-append_right (λ c. Handed c rows) before (c ∷ after) h in
    let front = All-append_left (λ c. Handed c rows) before (c ∷ after) h in
    (rest.0, All-append (λ c. Handed c rows) before after front rest.1)
