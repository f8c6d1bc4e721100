-- ===== src/Chain/Start/Rewind.antt =====
-- Starting again from an earlier block.
use polkadot_indexer_framerw.Common.{
  ℕ, zero, suc, ◌+◌, ◌-◌, ◌≤◌, ◌≡◌, refl, sym, ap, subst, Bool, true, Option, none, some, List, [],
  arith,
}
use polkadot_indexer_framerw.Common.Result.{ok}
use polkadot_indexer_framerw.Common.Int.{ℤ, pos, negsuc, ◌≤ℤ◌, min_ℤ}
use polkadot_indexer_framerw.Db.Queue.{i64_max}
use polkadot_indexer_framerw.Db.Watermarks.{Watermarks, reset_watermarks, written, ordered}
use polkadot_indexer_framerw.Chain.Fetch.{as_i64}
use polkadot_indexer_framerw.Chain.Digest.{Committed, Header, digest_ready, digest_up_to, batches}
use polkadot_indexer_framerw.Chain.Start.{Rows, before, digest_start, rewind, rewound}
use polkadot_indexer_framerw.Chain.Reads.{fetch}

-- The row says that everything below `start` is done and nothing else is.
pub record StartsAt (start : ℕ) (marks : Option Watermarks) : Type 0 where
  pub row : Watermarks
  pub there : marks ≡ some row
  pub digested : row.digest ≡ before start
  pub fetched : row.fetch ≡ before start
  pub archived : row.archive ≤ℤ before start

pub min_ℤ-le : (a to : ℤ) → min_ℤ a to ≤ℤ to
min_ℤ-le a to = ground arith

pub ordered-reset :
    (a to : ℤ) → ordered (record { fetch = to; digest = to; archive = min_ℤ a to }) ≡ true
ordered-reset a to = ground arith

pub written-ordered :
    (row : Option Watermarks) (m : Watermarks) → ordered m ≡ true → written row m ≡ (true, some m)
written-ordered row m e = rw e refl

reset-row :
    (to : ℤ) (marks : Option Watermarks)
    → (a : ℤ) × (reset_watermarks to marks
        ≡ (true, some (record { fetch = to; digest = to; archive = min_ℤ a to })))
unfolding reset_watermarks
reset-row to none = (pos 0, written-ordered none _ (ordered-reset (pos 0) to))
reset-row to (some m) = (m.archive, written-ordered (some m) _ (ordered-reset m.archive to))

-- A rewind is never refused by the table's check, whatever the row was. It returns the block that was
-- asked for, the row then says that everything below it is done and nothing else is, and the work queue
-- is empty.
pub rewind-StartsAt :
    (from : ℕ) (db : Rows)
    → (marks : Option Watermarks) × (rewind from db
        ≡ (ok from, record db { marks = marks; chunks = [] }))
      × StartsAt from marks
unfolding rewind
rewind-StartsAt from db =
    let (a, reset) = reset-row (before from) db.marks in
    let row : Watermarks = record {
      fetch = before from;
      digest = before from;
      archive = min_ℤ a (before from);
    } in
    (
      some row,
      ap (rewound from db) reset,
      record {
        row = row;
        there = refl;
        digested = refl;
        fetched = refl;
        archived = min_ℤ-le a (before from);
      },
    )

min_ℤ-le_first : (a b : ℤ) → min_ℤ a b ≤ℤ a
min_ℤ-le_first a b = ground arith

refl_le : (a : ℤ) → a ≤ℤ a
refl_le a = ground arith

none_left : (l next : ℕ) → next ≤ i64_max → pos l ≤ℤ before next → l + 1 - next ≡ 0
unfolding before as_i64
none_left l zero small le = absurd (ground (arith, le))
none_left l (suc n) small le = ground (arith, le, small)

-- Nothing is digested up to a block before the next one.
digest_up_to-before :
    (archive : ℕ → Option Header) (handled : ℕ → Bool) (last : ℤ) (batch next : ℕ)
    (link : Option (List ℕ)) (db : Committed)
    → last ≤ℤ before next
    → next ≤ i64_max
    → digest_up_to archive handled last batch next link db ≡ (ok tt, db)
unfolding digest_up_to batches
digest_up_to-before archive handled (pos l) batch next link db le small =
    rw (none_left l next small le) refl
digest_up_to-before archive handled (negsuc l) batch next link db le small = refl

ready_before :
    (stop_at : Option ℕ) (fetch : ℤ) (start : ℕ)
    → fetch ≡ before start
    → elim stop_at [ none ↦ fetch | some stop ↦ min_ℤ fetch (pos stop) ] ≤ℤ before start
ready_before none fetch start e = subst (λ z. fetch ≤ℤ z) e (refl_le fetch)
ready_before (some stop) fetch start e =
    subst (λ z. min_ℤ fetch (pos stop) ≤ℤ z) e (min_ℤ-le_first fetch (pos stop))

-- `pif digest --from` by itself: the rewind moves the fetch watermark back as well, so that a turn of
-- the digest's loop finds nothing ready and commits nothing, with any archive, any handlers, any
-- `stop_at` and any batch, for a block number that an `i64` holds.
pub digest_from-idle :
    (archive : ℕ → Option Header) (handled : ℕ → Bool) (batch start_block from : ℕ)
    (stop_at : Option ℕ) (link : Option (List ℕ)) (blocks : List (ℕ × Header)) (db : Rows)
    → from ≤ i64_max
    → (after : Rows) × (digest_start start_block (some from) db ≡ (ok from, after))
      × (digest_ready archive handled batch stop_at from link
            (record { blocks = blocks; marks = after.marks })
          ≡ (ok tt, record { blocks = blocks; marks = after.marks }))
unfolding digest_start digest_ready
digest_from-idle archive handled batch start_block from stop_at link blocks db small =
    let (marks, done, at) = rewind-StartsAt from db in
    (
      record db { marks = marks; chunks = [] },
      done,
      subst
          (λ row.
            digest_ready archive handled batch stop_at from link
              (record { blocks = blocks; marks = row })
            ≡ (ok tt, record { blocks = blocks; marks = row }))
          (sym at.there)
          (digest_up_to-before archive handled
            (elim stop_at [ none ↦ at.row.fetch | some stop ↦ min_ℤ at.row.fetch (pos stop) ]) batch
            from link (record { blocks = blocks; marks = some at.row })
            (ready_before stop_at at.row.fetch from at.fetched) small),
    )
