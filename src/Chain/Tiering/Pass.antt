-- ===== src/Chain/Tiering/Pass.antt =====
-- `pass` of crates/pif-chain/src/tiering.rs: one round over all the archives of a chain, of which the
-- block archive moves the watermark.
use polkadot_indexer_framerw.Common.{
  Bool, true, false, Option, none, some, List, [], ◌∷◌, if◌then◌else◌,
}
use polkadot_indexer_framerw.Common.Int.{ℤ, pos, leb_ℤ}
use polkadot_indexer_framerw.Common.Result.{Result, ok, err, panic}
use polkadot_indexer_framerw.Db.Watermarks.{Watermarks, advance_archive_watermark}
use polkadot_indexer_framerw.Chain.Tiering.{
  OnDigest, SegmentRecord, Tiering, TieringError, TieringReport, archive_it, db_error, delete_it,
  keep_it, tier_archive,
}
use polkadot_indexer_framerw.Store.Segments.{Segments}

-- An archive, and whether it is the one of the blocks.
pub record Archive : Type 0 where
  pub is_blocks : Bool
  pub store : Segments

pub record PassWorld : Type 0 where
  pub archives : List Archive
  pub rows : List SegmentRecord
  pub marks : Option Watermarks

abbrev pub any_cold : List Archive → Bool
any_cold [] = false
any_cold (archive ∷ archives) = elim archive.store.cold [
  | none ↦ any_cold archives
  | some cold ↦ true
]

unfoldable pub enabled : OnDigest → List Archive → Bool
enabled keep_it archives = false
enabled delete_it archives = true
enabled archive_it archives = any_cold archives

-- The watermark's statement, if there is one to make, with whether the database took it: it can fail
-- for the database (`answers`), and by the table's ordering check.
abbrev pub advanced : Bool → Option ℤ → Bool → Option Watermarks → Bool × Option Watermarks
advanced true (some to) true marks = advance_archive_watermark to marks
advanced true (some to) false marks = (false, marks)
advanced true none answers marks = (true, marks)
advanced false moved answers marks = (true, marks)

abbrev pub reported : Bool → Option ℤ → TieringReport → TieringReport
reported true (some to) report = record report { archive_watermark = some to }
reported true none report = report
reported false moved report = report

abbrev pub with_archive :
    Archive
    → Result TieringError TieringReport × PassWorld
    → Result TieringError TieringReport × PassWorld
with_archive archive (done, world) = (done, record world { archives = archive ∷ world.archives })

-- The loop over the archives.
unfoldable pub tier_all :
    Tiering
    → ℤ
    → List Archive
    → List SegmentRecord
    → Option Watermarks
    → TieringReport
    → Result TieringError TieringReport × PassWorld
tier_all tiering digested [] rows marks report =
    (ok report, record { archives = []; rows = rows; marks = marks })
tier_all tiering digested (archive ∷ archives) rows marks report =
    let (done, st) =
      tier_archive tiering digested
        (record { store = archive.store; rows = rows; report = report }) in
    let archive' : Archive = record archive { store = st.store } in
    let stopped : PassWorld = record {
      archives = archive' ∷ archives;
      rows = st.rows;
      marks = marks;
    } in
    elim done [
      | ok moved ↦
          let (took, marks') = advanced archive.is_blocks moved tiering.db_advances marks in
          elim took [
            | true ↦ with_archive archive' (
                tier_all tiering digested archives st.rows marks'
                  (reported archive.is_blocks moved st.report))
            | false ↦ (err db_error, stopped)
          ]
      | err e ↦ (err e, stopped)
      | panic ↦ (panic, stopped)
    ]

abbrev pub no_report : TieringReport
no_report = record { segments = 0; freed = 0; archive_watermark = none }

-- The pass from the query for the watermarks on, by whether the database answers it.
unfoldable pub loaded_pass :
    Tiering → PassWorld → Bool → Result TieringError TieringReport × PassWorld
loaded_pass tiering world false = (err db_error, world)
loaded_pass tiering world true = elim world.marks [
  | none ↦ (ok no_report, world)
  | some marks ↦
      if leb_ℤ (pos 0) marks.digest
      then tier_all tiering marks.digest world.archives world.rows (some marks) no_report
      else (ok no_report, world)
]

unfoldable pub pass : Tiering → PassWorld → Result TieringError TieringReport × PassWorld
pass tiering world =
    if enabled tiering.on_digest world.archives
    then loaded_pass tiering world tiering.db_loads
    else (ok no_report, world)
