-- ===== src/Db/Queue/Prefix.antt =====
-- `contiguous_done_end` on a tiled queue: the end of the unbroken run of finished chunks.
use polkadot_indexer_framerw.Common.{
  ℕ, ◌+◌, ◌≤◌, ◌<◌, ◌≡◌, refl, sym, ap, ◌∙◌, inl, inr, Bool, true, false, ◌&&◌, ◌||◌, Option, none,
  some, List, [], ◌∷◌, arith, leb, if◌then◌else◌, Option-cases,
}
use polkadot_indexer_framerw.Db.Queue.{
  ChunkRow, is_done, first_open, max_done, i64_max, contiguous_done_end,
}
use polkadot_indexer_framerw.Db.Queue.Tiling.{Tiled, Tiled-le}

-- Whether a finished chunk covers a block.
abbrev pub done_at : ℕ → List ChunkRow → Bool
done_at b [] = false
done_at b (r ∷ rows) =
    (is_done r.state && (leb r.from_block b && leb b r.to_block)) || done_at b rows

-- The end of the leading run of finished chunks.
done_prefix : List ChunkRow → Option ℕ
done_prefix [] = none
done_prefix (r ∷ rows) = elim (done_prefix rows) [
  | none ↦ if is_done r.state then some r.to_block else none
  | some e ↦ if is_done r.state then some e else none
]

limit_of : Option ℕ → ℕ
limit_of none = i64_max
limit_of (some m) = m

first_open-ge :
    (start stop : ℕ) (rows : List ChunkRow) (m : ℕ)
    → Tiled start rows stop
    → first_open rows ≡ some m
    → start ≤ m
unfolding first_open
first_open-ge start stop [] m t e = cc e
first_open-ge start stop (r ∷ rows) m t e = elim (Option-cases (first_open rows)) [
  | inl none_left ↦ ground arith
  | inr (k, found) ↦ ground (arith, first_open-ge (r.to_block + 1) stop rows k t.2 found)
]

max_done-none :
    (limit start stop : ℕ) (rows : List ChunkRow)
    → Tiled start rows stop
    → limit ≤ start
    → max_done limit rows ≡ none
unfolding max_done
max_done-none limit start stop [] t le = refl
max_done-none limit start stop (r ∷ rows) t le =
    ground (arith, max_done-none limit (r.to_block + 1) stop rows t.2)

done_prefix-ge :
    (start stop : ℕ) (rows : List ChunkRow) (e : ℕ)
    → Tiled start rows stop
    → done_prefix rows ≡ some e
    → start ≤ e
unfolding done_prefix
done_prefix-ge start stop [] e t h = cc h
done_prefix-ge start stop (r ∷ rows) e t h = elim (Option-cases (done_prefix rows)) [
  | inl no_more ↦ ground arith
  | inr (k, found) ↦ ground (arith, done_prefix-ge (r.to_block + 1) stop rows k t.2 found)
]

max_done-done_prefix :
    (start stop : ℕ) (rows : List ChunkRow)
    → Tiled start rows stop
    → stop ≤ i64_max
    → max_done (limit_of (first_open rows)) rows ≡ done_prefix rows
unfolding max_done first_open done_prefix limit_of
max_done-done_prefix start stop [] t top = refl
max_done-done_prefix start stop (r ∷ rows) t top =
    let ih = max_done-done_prefix (r.to_block + 1) stop rows t.2 top in
    let le = Tiled-le (r.to_block + 1) stop rows t.2 in
    let none_below = max_done-none r.from_block (r.to_block + 1) stop rows t.2 (omega arith) in
    elim (Option-cases (first_open rows)) [
      | inl no_open ↦ elim (Option-cases (done_prefix rows)) [
        | inl no_more ↦ ground arith
        | inr (e, found) ↦ ground (arith, done_prefix-ge (r.to_block + 1) stop rows e t.2 found)
      ]
      | inr (m, open_at) ↦
          let lo = first_open-ge (r.to_block + 1) stop rows m t.2 open_at in
          elim (Option-cases (done_prefix rows)) [
            | inl no_more ↦ ground arith
            | inr (e, found) ↦ ground (arith, done_prefix-ge (r.to_block + 1) stop rows e t.2 found)
          ]
    ]

contiguous_done_end-eq :
    (start stop : ℕ) (rows : List ChunkRow)
    → Tiled start rows stop
    → stop ≤ i64_max
    → contiguous_done_end rows ≡ done_prefix rows
unfolding contiguous_done_end limit_of
contiguous_done_end-eq start stop rows t top = elim (Option-cases (first_open rows)) [
  | inl e ↦ rw (e, contiguous_done_end) (rw e at (max_done-done_prefix start stop rows t top))
  | inr (m, e) ↦ rw (e, contiguous_done_end) (rw e at (max_done-done_prefix start stop rows t top))
]

done_prefix_sound :
    (start stop b e : ℕ) (rows : List ChunkRow)
    → Tiled start rows stop
    → done_prefix rows ≡ some e
    → start ≤ b
    → b ≤ e
    → done_at b rows ≡ true
unfolding done_prefix
done_prefix_sound start stop b e [] t h lo hi = cc h
done_prefix_sound start stop b e (r ∷ rows) t h lo hi = elim (Option-cases (done_prefix rows)) [
  | inl no_more ↦ ground arith
  | inr (k, found) ↦ ground (arith, done_prefix_sound (r.to_block + 1) stop b k rows t.2 found)
]

pub done_at-below :
    (start stop b : ℕ) (rows : List ChunkRow)
    → Tiled start rows stop
    → b < start
    → done_at b rows ≡ false
done_at-below start stop b [] t h = refl
done_at-below start stop b (r ∷ rows) t h =
    ground (arith, done_at-below (r.to_block + 1) stop b rows t.2)

done_prefix-none :
    (start stop : ℕ) (rows : List ChunkRow)
    → Tiled start rows stop
    → done_prefix rows ≡ none
    → done_at start rows ≡ false
unfolding done_prefix
done_prefix-none start stop [] t h = refl
done_prefix-none start stop (r ∷ rows) t h = elim (Option-cases (done_prefix rows)) [
  | inl no_more ↦ ground (arith, done_at-below (r.to_block + 1) stop start rows t.2)
  | inr (e, found) ↦ ground (arith, done_at-below (r.to_block + 1) stop start rows t.2)
]

done_prefix_end :
    (start stop e : ℕ) (rows : List ChunkRow)
    → Tiled start rows stop
    → done_prefix rows ≡ some e
    → done_at (e + 1) rows ≡ false
unfolding done_prefix
done_prefix_end start stop e [] t h = cc h
done_prefix_end start stop e (r ∷ rows) t h = elim (Option-cases (done_prefix rows)) [
  | inl no_more ↦
      let last : e ≡ r.to_block = ground arith in
      let following : done_at (e + 1) rows ≡ false =
        ap (λ (k : ℕ). done_at (k + 1) rows) last
        ∙ done_prefix-none (r.to_block + 1) stop rows t.2 no_more in
      ground (arith, following)
  | inr (k, found) ↦
      let same : k ≡ e = ground arith in
      let lo = done_prefix-ge (r.to_block + 1) stop rows k t.2 found in
      ground (arith, done_prefix_end (r.to_block + 1) stop e rows t.2 (found ∙ ap some same))
]

-- On a queue that tiles the blocks from `start` on, up to at most the largest `i64`, the end that
-- is reported is the end of the unbroken run of finished chunks: every block from `start` to it
-- lies in a finished chunk, and the next block does not. When no end is reported, `start` itself
-- is not finished.
pub contiguous_done_end_lem :
    (start stop : ℕ) (rows : List ChunkRow)
    → Tiled start rows stop
    → stop ≤ i64_max
    → ((e b : ℕ) → contiguous_done_end rows ≡ some e → start ≤ b → b ≤ e → done_at b rows ≡ true)
      × ((e : ℕ) → contiguous_done_end rows ≡ some e → (start ≤ e) × (done_at (e + 1) rows ≡ false))
      × (contiguous_done_end rows ≡ none → done_at start rows ≡ false)
contiguous_done_end_lem start stop rows t top =
    let same = contiguous_done_end-eq start stop rows t top in
    (
      λ e b h lo hi. done_prefix_sound start stop b e rows t (sym same ∙ h) lo hi,
      λ e h. (
        done_prefix-ge start stop rows e t (sym same ∙ h),
        done_prefix_end start stop e rows t (sym same ∙ h),
      ),
      λ h. done_prefix-none start stop rows t (sym same ∙ h),
    )
