-- ===== src/Chain/Fetch/Durable.antt =====
-- The fetch watermark and the disk: what the workers of a backfill of `start ..= end` keep true.
use polkadot_indexer_framerw.Common.{
  ℕ, ◌≤◌, ◌≡◌, refl, sym, ap, subst, inl, inr, Bool, true, false, ◌&&◌, some, List, arith,
  Option-cases,
}
use polkadot_indexer_framerw.Common.Int.{ℤ, pos, ◌≤ℤ◌}
use polkadot_indexer_framerw.Db.Watermarks.{advance_digest_watermark, Watermarks}
use polkadot_indexer_framerw.Db.Queue.{
  contiguous_done_end, i64_max, complete_chunk, Chunk, ChunkRow,
}
use polkadot_indexer_framerw.Db.Queue.Tiling.{
  complete, ranges-QueueStep, Tiled-ranges, ranges, Tiled,
}
use polkadot_indexer_framerw.Db.Queue.Done.{done_at-complete_chunk, Handed}
use polkadot_indexer_framerw.Db.Queue.Prefix.{contiguous_done_end_lem, done_at}
use polkadot_indexer_framerw.Chain.Fetch.Archive.{fetch_of-digest, fetch_of-advance, is_cold}
use polkadot_indexer_framerw.Chain.Fetch.{
  advance_watermark, Stage, Copy, absent, on_hot, on_cold, is_held,
}

first_holds : (a b : Bool) → (a && b) ≡ true → a ≡ true
first_holds a b e = ground arith

held_warm : (x : Copy) → is_held x ≡ true → is_cold x ≡ false → x ≡ on_hot
held_warm absent h w = absurd (ground (arith, h))
held_warm on_hot h w = refl
held_warm on_cold h w = absurd (ground (arith, w))

module _ (start stop end : ℕ) where
  -- The finished chunks and the fetch watermark tell the truth about the disk, up to `end`.
  pub record Durable (s : Stage) : Type 0 where
    pub tiled : Tiled start s.rows stop
    pub put : (b : ℕ) → s.durable b ≡ true → s.stored b ≡ on_hot
    pub warm : (b : ℕ) → is_cold (s.stored b) ≡ false
    pub finished : (b : ℕ) → b ≤ end → done_at b s.rows ≡ true → s.durable b ≡ true
    pub marked :
        (b : ℕ) (m : Watermarks)
        → s.marks ≡ some m
        → start ≤ b
        → b ≤ end
        → pos b ≤ℤ m.fetch
        → s.durable b ≡ true

  pub Durable-rows :
      (s : Stage) (rows : List ChunkRow)
      → ranges rows ≡ ranges s.rows
      → ((b : ℕ) → done_at b rows ≡ true → done_at b s.rows ≡ true)
      → Durable s
      → Durable (record s { rows = rows })
  Durable-rows s rows same less d = record {
    tiled = Tiled-ranges start stop s.rows rows same d.tiled;
    put = d.put;
    warm = d.warm;
    finished = λ b le h. d.finished b le (less b h);
    marked = d.marked;
  }

  pub Durable-digest :
      (to : ℤ) (s : Stage)
      → Durable s
      → Durable (record s { marks = (advance_digest_watermark to s.marks).1 })
  Durable-digest to s d = record {
    tiled = d.tiled;
    put = d.put;
    warm = d.warm;
    finished = d.finished;
    marked = λ b m e lo hi le.
        let (k, was, same) = fetch_of-digest to s.marks m e in
        d.marked b k was lo hi (subst (λ x. pos b ≤ℤ x) (sym same) le);
  }

  -- An attempt that ends with an error: blocks on the hot tier are still there.
  pub Durable-stopped :
      (s : Stage) (stored : ℕ → Copy)
      → ((b : ℕ) → s.stored b ≡ on_hot → stored b ≡ on_hot)
      → ((b : ℕ) → is_cold (stored b) ≡ false)
      → Durable s
      → Durable (record s { stored = stored; durable = λ b. s.durable b && is_held (stored b) })
  Durable-stopped s stored more none_cold d =
      let still : (b : ℕ) → s.durable b ≡ true → (s.durable b && is_held (stored b)) ≡ true =
        λ b h. rw (h, more b (d.put b h)) refl in
      record {
        tiled = d.tiled;
        put = λ b h. more b (d.put b (first_holds (s.durable b) (is_held (stored b)) h));
        warm = none_cold;
        finished = λ b le h. still b (d.finished b le h);
        marked = λ b m e lo hi le. still b (d.marked b m e lo hi le);
      }

  -- The blocks that an attempt leaves on the disks, once they are synced.
  pub Durable-synced :
      (s : Stage) (stored : ℕ → Copy)
      → ((b : ℕ) → s.stored b ≡ on_hot → stored b ≡ on_hot)
      → ((b : ℕ) → is_cold (stored b) ≡ false)
      → Durable s
      → Durable (record s { stored = stored; durable = λ b. is_held (stored b) })
  Durable-synced s stored more none_cold d =
      let still : (b : ℕ) → s.durable b ≡ true → is_held (stored b) ≡ true =
        λ b h. ap is_held (more b (d.put b h)) in
      record {
        tiled = d.tiled;
        put = λ b h. held_warm (stored b) h (none_cold b);
        warm = none_cold;
        finished = λ b le h. still b (d.finished b le h);
        marked = λ b m e lo hi le. still b (d.marked b m e lo hi le);
      }

  pub Durable-complete :
      (c : Chunk) (s : Stage)
      → Handed c s.rows
      → ((b : ℕ) → c.from_block ≤ b → b ≤ c.to_block → b ≤ end → s.durable b ≡ true)
      → Durable s
      → Durable (record s { rows = complete_chunk c.from_block s.rows })
  Durable-complete c s k kept d = record {
    tiled =
        Tiled-ranges start stop s.rows (complete_chunk c.from_block s.rows)
          (ranges-QueueStep (complete c.from_block s.rows)) d.tiled;
    put = d.put;
    warm = d.warm;
    finished = λ b le h. elim (done_at-complete_chunk c b s.rows k h) [
      | inl was ↦ d.finished b le was
      | inr within ↦ kept b within.0 within.1 le
    ];
    marked = d.marked;
  }

  pub Durable-advance : (s : Stage) → stop ≤ i64_max → Durable s → Durable (advance_watermark s)
  unfolding advance_watermark
  Durable-advance s top d = elim (Option-cases (contiguous_done_end s.rows)) [
    | inl nothing ↦ rw (nothing, advance_watermark) d
    | inr (through, found) ↦
        rw (found, advance_watermark)
          (record {
            tiled = d.tiled;
            put = d.put;
            warm = d.warm;
            finished = d.finished;
            marked = λ b m e lo hi le. elim (fetch_of-advance (pos through) s.marks m b e le) [
              | inl new ↦ d.finished b hi (
                  (contiguous_done_end_lem start stop s.rows d.tiled top).0 through b found lo
                    (omega (arith, new)))
              | inr (k, was, old) ↦ d.marked b k was lo hi old
            ];
          })
  ]
