-- ===== src/Chain/Fetch/Backfill.antt =====
-- A backfill: every step that its workers take, and what stays true of the watermark and the disk.
use polkadot_indexer_framerw.Common.{
  ℕ, ◌+◌, ◌≤◌, ◌<◌, ◌≡◌, refl, sym, ap, subst, ◌∙◌, inl, inr, Bool, true, false, ◌&&◌, some, List,
  [], ◌∷◌, ◌++◌, arith, leb, Bool-cases, some_inj,
}
use polkadot_indexer_framerw.Common.Int.{ℤ, pos, ◌≤ℤ◌}
use polkadot_indexer_framerw.Db.Watermarks.{Watermarks, advance_digest_watermark}
use polkadot_indexer_framerw.Db.Queue.{
  Chunk, complete_chunk, seed_chunks, reclaim_expired_chunks, claim_chunk, i64_max,
}
use polkadot_indexer_framerw.Db.Queue.Tiling.{
  Tiled, complete, QueueStep, ranges-QueueStep, seed_chunks-Tiled, ranges,
}
use polkadot_indexer_framerw.Db.Queue.Leases.{claim_chunk-Claims}
use polkadot_indexer_framerw.Db.Queue.Done.{
  done_at-release, done_at-fail, row_at-Handed, done_at-reclaim, done_at-claim_chunk,
  AllHanded-remove, done_at-seed_chunks, AllHanded-ranges, Handed-ranges, AllHanded, Handed,
}
use polkadot_indexer_framerw.Db.Queue.Prefix.{done_at}
use polkadot_indexer_framerw.Chain.Fetch.{
  as_i64, effective_chunk_size, queue_range, release_chunk, fail_chunk, max_chunk_attempts,
  lease_seconds, brake_ceiling, Stage, Fetch, archive_chunk, claim_work, work_chunk, Attempt,
  absent, on_hot, is_held,
}
use polkadot_indexer_framerw.Chain.Fetch.Durable.{
  Durable-digest, Durable-rows, Durable-advance, Durable-synced, Durable-complete, Durable-stopped,
  Durable,
}
use polkadot_indexer_framerw.Chain.Fetch.Archive.{
  rows-advance, archive_chunk_lem, archive_chunk_warm, is_cold,
}

module _ (start stop end : ℕ) where
  -- What happens to the stage during a backfill: a worker takes work, a worker finishes with a chunk
  -- that it was handed, at whatever time, leases run out, and the digest moves on.
  pub data StageStep : Stage × List Chunk → Stage × List Chunk → Type 0 where
    claims :
        (f : Fetch) (locked : ℕ → Bool) (now : ℕ) (url : List ℕ) (s : Stage) (held : List Chunk)
        (c : Chunk)
        → (claim_work f locked now url s).0 ≡ some c
        → StageStep (s, held) ((claim_work f locked now url s).1, c ∷ held)
    works :
        (reads : ℕ → Attempt) (error : List ℕ) (s : Stage) (before after : List Chunk) (c : Chunk)
        → StageStep (s, before ++ c ∷ after) (work_chunk reads end error c s, before ++ after)
    reclaims :
        (now : ℕ) (s : Stage) (held : List Chunk)
        → StageStep (s, held) (record s { rows = (reclaim_expired_chunks now s.rows).0 }, held)
    digests :
        (to : ℤ) (s : Stage) (held : List Chunk)
        → StageStep (s, held) (record s { marks = (advance_digest_watermark to s.marks).1 }, held)

  work_chunk-Durable :
      (reads : ℕ → Attempt) (error : List ℕ) (c : Chunk) (s : Stage)
      → stop ≤ i64_max
      → Handed c s.rows
      → Durable start stop end s
      → Durable start stop end (work_chunk reads end error c s)
        × (ranges (work_chunk reads end error c s).rows ≡ ranges s.rows)
  unfolding work_chunk
  work_chunk-Durable reads error c s top k d =
      let size = s.segment_size in
      let stored = (archive_chunk size reads c end s.stored).1 in
      let more : (b : ℕ) → s.stored b ≡ on_hot → stored b ≡ on_hot =
        λ b. (archive_chunk_lem size reads c end b s.stored).1 in
      let none_cold : (b : ℕ) → is_cold (stored b) ≡ false =
        λ b. archive_chunk_warm size reads c end b s.stored (d.warm b) in
      let stopped : Stage = record s {
        stored = stored;
        durable = λ b. s.durable b && is_held (stored b);
      } in
      let put = Durable-stopped start stop end s stored more none_cold d in
      elim (Bool-cases (archive_chunk size reads c end s.stored).0) [
        | inl ok ↦
            let synced : Stage = record s { stored = stored; durable = λ b. is_held (stored b) } in
            let completed : Stage = record synced { rows = complete_chunk c.from_block s.rows } in
            let whole =
              Durable-complete start stop end c synced k
                (λ b lo hi le.
                  ap is_held ((archive_chunk_lem size reads c end b s.stored).0 ok lo hi le))
                (Durable-synced start stop end s stored more none_cold d) in
            rw (ok, work_chunk)
              (
                Durable-advance start stop end completed top whole,
                ap ranges (rows-advance completed)
                    ∙ ranges-QueueStep (complete c.from_block s.rows),
              )
        | inr failed ↦ elim (Bool-cases (leb max_chunk_attempts c.attempts)) [
          | inl enough ↦
              let same = ranges-QueueStep (QueueStep.fail c.from_block error s.rows) in
              rw (failed, enough, work_chunk)
                (
                  Durable-rows start stop end stopped (fail_chunk c.from_block error s.rows) same
                      (λ b. done_at-fail c.from_block b error s.rows) put,
                  same,
                )
          | inr more ↦
              let same = ranges-QueueStep (QueueStep.release c.from_block error s.rows) in
              rw (failed, more, work_chunk)
                (
                  Durable-rows start stop end stopped (release_chunk c.from_block error s.rows) same
                      (λ b. done_at-release c.from_block b error s.rows) put,
                  same,
                )
        ]
      ]

  claim_work-Durable :
      (f : Fetch) (locked : ℕ → Bool) (now : ℕ) (url : List ℕ) (s : Stage) (c : Chunk)
      → (claim_work f locked now url s).0 ≡ some c
      → Durable start stop end s
      → Durable start stop end (claim_work f locked now url s).1
        × (ranges (claim_work f locked now url s).1.rows ≡ ranges s.rows)
        × Handed c s.rows
  unfolding claim_work
  claim_work-Durable f locked now url s c e d =
      let ceiling = brake_ceiling f s.marks in
      let k =
        claim_chunk-Claims locked now url lease_seconds ceiling start stop s.rows c d.tiled e in
      let same = ranges-QueueStep (QueueStep.claim locked now url lease_seconds ceiling s.rows) in
      (
        Durable-rows start stop end s (claim_chunk locked now url lease_seconds ceiling s.rows).1
            same
            (λ b h. sym (done_at-claim_chunk locked now url lease_seconds ceiling b s.rows) ∙ h) d,
        same,
        row_at-Handed c start stop s.rows k.row d.tiled k.found k.to_same,
      )

  -- The stage tells the truth about the disk, and every chunk that a worker holds is one of its chunks.
  abbrev pub Sound : Stage × List Chunk → Type 0
  Sound p = Durable start stop end p.0 × AllHanded p.1 p.0.rows

  StageStep-Sound : {p q : Stage × List Chunk} → stop ≤ i64_max → StageStep p q → Sound p → Sound q
  StageStep-Sound top (claims f locked now url s held c e) (d, h) =
      let (d', same, handed) = claim_work-Durable f locked now url s c e d in
      let rows' = (claim_work f locked now url s).1.rows in
      (d', (Handed-ranges c s.rows rows' same handed, AllHanded-ranges held s.rows rows' same h))
  StageStep-Sound top (works reads error s before after c) (d, h) =
      let (k, rest) = AllHanded-remove before after c s.rows h in
      let (d', same) = work_chunk-Durable reads error c s top k d in
      (
        d',
        AllHanded-ranges (before ++ after) s.rows (work_chunk reads end error c s).rows same rest,
      )
  StageStep-Sound top (reclaims now s held) (d, h) =
      let rows' = (reclaim_expired_chunks now s.rows).0 in
      let same = ranges-QueueStep (QueueStep.reclaim now s.rows) in
      (
        Durable-rows start stop end s rows' same (λ b e. sym (done_at-reclaim now b s.rows) ∙ e) d,
        AllHanded-ranges held s.rows rows' same h,
      )
  StageStep-Sound top (digests to s held) (d, h) = (Durable-digest start stop end to s d, h)

  -- Any number of such steps, of any workers.
  pub data StageRun (p : Stage × List Chunk) : Stage × List Chunk → Type 0 where
    here : StageRun p p
    next : {q r : Stage × List Chunk} → StageRun p q → StageStep q r → StageRun p r

  StageRun-Sound : {p q : Stage × List Chunk} → stop ≤ i64_max → Sound p → StageRun p q → Sound q
  StageRun-Sound top h here = h
  StageRun-Sound {p} top h (next {q = mid} run step) =
      StageStep-Sound {p = mid} top step (StageRun-Sound {p = p} {q = mid} top h run)

-- The stage when a backfill of `start ..= end` begins on an empty queue and an empty store.
abbrev pub begun : Fetch → ℕ → ℕ → ℕ → ℕ → Watermarks → Stage
begun f size now start end m = record {
  rows = (queue_range f now start end []).0;
  marks = some m;
  segment_size = size;
  stored = λ b. absent;
  durable = λ b. false;
}

as_i64_small : (n : ℕ) → n ≤ i64_max → as_i64 n ≡ pos n
unfolding as_i64
as_i64_small n small = ground arith

effective_chunk_size-positive : (f : Fetch) → 0 < effective_chunk_size f
unfolding effective_chunk_size
effective_chunk_size-positive f = ground arith

queue_range-seeds :
    (f : Fetch) (now start end : ℕ)
    → effective_chunk_size f ≤ i64_max
    → queue_range f now start end [] ≡ seed_chunks start end (effective_chunk_size f) []
unfolding queue_range reclaim_expired_chunks
queue_range-seeds f now start end small =
    rw (as_i64_small (effective_chunk_size f) small, queue_range) refl

begun-Durable :
    (f : Fetch) (size now start end : ℕ) (m : Watermarks)
    → start ≤ end
    → end + effective_chunk_size f ≤ i64_max
    → ¬ (pos start ≤ℤ m.fetch)
    → Durable start (end + 1) end (begun f size now start end m)
begun-Durable f size now start end m le room before =
    let seeded = ap (λ p. p.0) (queue_range-seeds f now start end (omega (arith, room))) in
    record {
      tiled =
          subst (λ rows. Tiled start rows (end + 1)) (sym seeded)
            (seed_chunks-Tiled start start end (effective_chunk_size f) [] le
              (effective_chunk_size-positive f) room refl).0;
      put = λ k h. cc h;
      warm = λ k. refl;
      finished = λ k k_le h. absurd (
          cc (
            done_at-seed_chunks start end (effective_chunk_size f) k [],
            ap (done_at k) seeded,
            h,
          ));
      marked = λ k w e k_lo k_hi k_le.
          let same : m ≡ w = some_inj e in
          absurd
            (before (omega (arith, subst (λ (x : Watermarks). pos k ≤ℤ x.fetch) (sym same) k_le)));
    }

-- The fetch watermark never names a block that the disk does not hold. Start a backfill of `start ..=
-- end` on an empty queue and an empty store, with a watermark below `start` and an end that leaves room
-- for a chunk in an `i64`, and let any workers claim chunks, archive them with or without errors, each
-- attempt with its own, finish them late or not at all, let leases run out and the digest move, but no
-- segment leave the hot tier: at every moment each block from `start` to `end` that the fetch watermark
-- has passed is durable.
pub backfill-durable :
    (f : Fetch) (size now start end b : ℕ) (m m' : Watermarks) (s : Stage) (held : List Chunk)
    → start ≤ end
    → end + effective_chunk_size f ≤ i64_max
    → ¬ (pos start ≤ℤ m.fetch)
    → StageRun start (end + 1) end (begun f size now start end m, []) (s, held)
    → s.marks ≡ some m'
    → start ≤ b
    → b ≤ end
    → pos b ≤ℤ m'.fetch
    → s.durable b ≡ true
backfill-durable f size now start end b m m' s held le room before run at lo hi passed =
    let first = begun-Durable f size now start end m le room before in
    let positive = effective_chunk_size-positive f in
    (StageRun-Sound start (end + 1) end (omega (arith, room, positive)) (first, tt) run).0.marked b
      m' at lo hi passed
