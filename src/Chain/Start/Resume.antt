-- ===== src/Chain/Start/Resume.antt =====
-- Where a run starts, and where the next one resumes.
use polkadot_indexer_framerw.Common.{
  ℕ, zero, suc, ◌≤◌, ◌≡◌, refl, ap, ◌∙◌, inl, inr, true, Option, none, some, [], arith,
  Option-cases,
}
use polkadot_indexer_framerw.Common.Result.{ok}
use polkadot_indexer_framerw.Common.Int.{pos}
use polkadot_indexer_framerw.Db.Queue.{i64_max}
use polkadot_indexer_framerw.Db.Watermarks.{Watermarks, init_watermarks, seeded_at}
use polkadot_indexer_framerw.Chain.Fetch.{as_i64}
use polkadot_indexer_framerw.Chain.Start.{
  Rows, before, behind, first_start, resolve_start, resumed, seeded,
}
use polkadot_indexer_framerw.Chain.Start.Rewind.{
  StartsAt, rewind-StartsAt, written-ordered, min_ℤ-le,
}

-- The block behind the last one before `start` is `start`, at the genesis block too.
pub behind-before : (start : ℕ) → start ≤ i64_max → behind (before start) ≡ start
unfolding behind before as_i64
behind-before zero small = refl
behind-before (suc n) small = ground (arith, small)

-- Where a run without `--from` resumes from a row.
resolve_start-StartsAt :
    (start_block start : ℕ) (db : Rows)
    → start ≤ i64_max
    → StartsAt start db.marks
    → resolve_start start_block none db ≡ (ok start, db)
unfolding resolve_start
resolve_start-StartsAt start_block start db small at =
    ap (λ row. resumed start_block row db) at.there
    ∙ ap (λ d. (ok (behind d), db)) at.digested
    ∙ ap (λ n. (ok n, db)) (behind-before start small)

init_watermarks-StartsAt :
    (start : ℕ)
    → (m : Watermarks) × (init_watermarks (before start) none ≡ (true, some m))
      × StartsAt start (some m)
unfolding init_watermarks
init_watermarks-StartsAt start = (
  seeded_at (before start),
  written-ordered none (seeded_at (before start)) (ground arith),
  record {
    row = seeded_at (before start);
    there = refl;
    digested = refl;
    fetched = refl;
    archived = min_ℤ-le (pos 0) (before start);
  },
)

-- The start of a chain that has no row of watermarks.
seeded-again :
    (start_block : ℕ) (db : Rows)
    → first_start start_block db.cursor ≤ i64_max
    → db.marks ≡ none
    → (start : ℕ) × (after : Rows) × (resolve_start start_block none db ≡ (ok start, after))
      × (resolve_start start_block none after ≡ (ok start, after))
unfolding resolve_start
seeded-again start_block db small gone =
    let start = first_start start_block db.cursor in
    let (m, taken, at) = init_watermarks-StartsAt start in
    let after : Rows = record db { marks = some m } in
    (
      start,
      after,
      ap (λ row. resumed start_block row db) gone
          ∙ ap (λ row. seeded start db (init_watermarks (before start) row)) gone
          ∙ ap (seeded start db) taken,
      resolve_start-StartsAt start_block start after small at,
    )

-- With block numbers that an `i64` holds, a run of the pipeline always gets a block to start at, from
-- `--from`, from the watermarks, from the cursor or from the configuration; and a restart without
-- `--from`, from the rows that it leaves, starts at the same block and changes nothing.
pub resolve_start-again :
    (start_block : ℕ) (from : Option ℕ) (db : Rows)
    → first_start start_block db.cursor ≤ i64_max
    → ((n : ℕ) → from ≡ some n → n ≤ i64_max)
    → (start : ℕ) × (after : Rows) × (resolve_start start_block from db ≡ (ok start, after))
      × (resolve_start start_block none after ≡ (ok start, after))
unfolding resolve_start
resolve_start-again start_block (some n) db small bound =
    let (marks, done, at) = rewind-StartsAt n db in
    (
      n,
      record db { marks = marks; chunks = [] },
      done,
      resolve_start-StartsAt start_block n (record db { marks = marks; chunks = [] }) (bound n refl)
          at,
    )
resolve_start-again start_block none db small bound = elim (Option-cases db.marks) [
  | inl gone ↦ seeded-again start_block db small gone
  | inr (m, there) ↦ (
    behind m.digest,
    db,
    ap (λ row. resumed start_block row db) there,
    ap (λ row. resumed start_block row db) there,
  )
]
