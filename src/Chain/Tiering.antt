-- ===== src/Chain/Tiering.antt =====
-- The tiering task of one chain, crates/pif-chain/src/tiering.rs, with the rows of the table `segments`
-- (`record_segment` and `forget_segment` of crates/pif-db/src/repo.rs). Times are numbers of one clock.
-- Whether the database answers a statement is a parameter, by the segment it is about.
pub mod Keeps
pub mod Leaving
pub mod Loop
pub mod Pass
pub mod Prefix
pub mod Refused
pub mod Rows
mod Tests
use polkadot_indexer_framerw.Common.{
  ℕ, ◌+◌, ◌-◌, Bool, true, false, ◌&&◌, ◌||◌, not, Option, none, some, List, [], ◌∷◌, leb, ◌==◌,
  if◌then◌else◌,
}
use polkadot_indexer_framerw.Chain.Fetch.{as_i64}
use polkadot_indexer_framerw.Common.Int.{ℤ, leb_ℤ}
use polkadot_indexer_framerw.Common.Result.{Result, ok, err, panic}
use polkadot_indexer_framerw.Store.Error.{StoreError}
use polkadot_indexer_framerw.Store.Segment.Format.{Crc32}
use polkadot_indexer_framerw.Store.Segments.Tiers.{
  Media, SegmentSpan, Tiered, copy_to_cold, drop_hot, hot_segments,
}
use polkadot_indexer_framerw.Store.Segments.{Segments, Tier}

pub data OnDigest : Type 0 where
  archive_it keep_it delete_it : OnDigest

pub data TieringError : Type 0 where
  store_error : StoreError → TieringError
  db_error : TieringError

pub record SegmentRecord : Type 0 where
  pub from_block : ℤ
  pub to_block : ℤ
  pub bytes : ℤ
  pub checksum : List ℕ

abbrev pub eq_ℤ : ℤ → ℤ → Bool
eq_ℤ a b = leb_ℤ a b && leb_ℤ b a

-- `INSERT … ON CONFLICT (chain_id, from_block) DO UPDATE` of a row for the cold tier.
unfoldable pub record_segment : SegmentRecord → List SegmentRecord → List SegmentRecord
record_segment row [] = row ∷ []
record_segment row (other ∷ rows) =
    let behind = record_segment row rows in
    if eq_ℤ other.from_block row.from_block then row ∷ rows else other ∷ behind

unfoldable pub forget_segment : ℤ → List SegmentRecord → List SegmentRecord
forget_segment from [] = []
forget_segment from (row ∷ rows) =
    let behind = forget_segment from rows in
    if eq_ℤ row.from_block from then behind else row ∷ behind

pub record TieringReport : Type 0 where
  pub segments : ℕ
  pub freed : ℕ
  pub archive_watermark : Option ℤ

abbrev pub moved_nothing : TieringReport → Bool
moved_nothing report = report.segments == 0

-- `Tiering`, with the world around it: the disks, the clock, the file times, and what the
-- database answers: the statements about a segment, the query for the watermarks, and the statement that
-- moves them.
pub record Tiering : Type 0 where
  pub on_digest : OnDigest
  pub retention : ℕ
  pub crc : Crc32
  pub media : Media
  pub now : ℕ
  pub modified : List ℕ → Option ℕ
  pub db_takes : ℕ → Bool
  pub db_loads : Bool
  pub db_advances : Bool

-- What the pass over one archive changes.
pub record PassState : Type 0 where
  pub store : Segments
  pub rows : List SegmentRecord
  pub report : TieringReport

unfoldable pub retained_long_enough : Tiering → SegmentSpan → Bool
retained_long_enough tiering span = tiering.retention == 0 || elim span.modified [
  | none ↦ true
  | some modified ↦ leb modified tiering.now && leb tiering.retention (tiering.now - modified)
]

abbrev pub freeing : ℕ → PassState → PassState
freeing n st = record st { report = record (st.report) { freed = st.report.freed + n } }

abbrev pub in_store :
    Result StoreError ℕ × Segments → PassState → Result TieringError (Unit {0}) × PassState
in_store (ok n, s) st = (ok tt, freeing n (record st { store = s }))
in_store (err e, s) st = (err (store_error e), record st { store = s })
in_store (panic, s) st = (panic, record st { store = s })

abbrev pub cold_row : Tiered → SegmentRecord
cold_row tiered = record {
  from_block = as_i64 tiered.span.from_block;
  to_block = as_i64 tiered.span.to_block;
  bytes = as_i64 tiered.bytes;
  checksum = tiered.checksum;
}

-- `OnDigest::Archive`: copy, then record, then remove.
unfoldable pub archive_segment :
    Tiering → SegmentSpan → PassState → Result TieringError (Unit {0}) × PassState
archive_segment tiering span st =
    let (done, s) = copy_to_cold tiering.crc tiering.media span.index st.store in
    let st' : PassState = record st { store = s } in
    elim done [
      | ok tiered ↦
          if tiering.db_takes span.index
          then in_store (drop_hot tiering.media span.index s)
              (record st' { rows = record_segment (cold_row tiered) st.rows })
          else (err db_error, st')
      | err e ↦ (err (store_error e), st')
      | panic ↦ (panic, st')
    ]

-- `OnDigest::Delete`: remove, then forget.
unfoldable pub delete_segment :
    Tiering → SegmentSpan → PassState → Result TieringError (Unit {0}) × PassState
delete_segment tiering span st =
    let (done, st') = in_store (drop_hot tiering.media span.index st.store) st in
    elim done [
      | ok u ↦
          if tiering.db_takes span.index
          then (ok tt, record st' { rows = forget_segment (as_i64 span.from_block) st'.rows })
          else (err db_error, st')
      | err e ↦ (err e, st')
      | panic ↦ (panic, st')
    ]

-- Whether the loop goes on to this segment.
unfoldable pub eligible : Tiering → ℤ → SegmentSpan → Bool
eligible tiering digested span =
    leb_ℤ (as_i64 span.to_block) digested && retained_long_enough tiering span

unfoldable pub move_by :
    OnDigest → Tiering → SegmentSpan → PassState → Result TieringError (Unit {0}) × PassState
move_by archive_it tiering span st = archive_segment tiering span st
move_by delete_it tiering span st = delete_segment tiering span st
move_by keep_it tiering span st = (ok tt, st)

abbrev pub move_segment :
    Tiering → SegmentSpan → PassState → Result TieringError (Unit {0}) × PassState
move_segment tiering span st = move_by tiering.on_digest tiering span st

abbrev pub keeps : OnDigest → Bool
keeps keep_it = true
keeps archive_it = false
keeps delete_it = false

abbrev pub counting : PassState → PassState
counting st = record st { report = record (st.report) { segments = st.report.segments + 1 } }

-- The loop of `tier_archive`.
unfoldable pub tier_segments :
    Tiering
    → ℤ
    → List SegmentSpan
    → PassState
    → Option ℤ
    → Result TieringError (Option ℤ) × PassState
tier_segments tiering digested [] st highest = (ok highest, st)
tier_segments tiering digested (span ∷ spans) st highest =
    elim (eligible tiering digested span && not (keeps tiering.on_digest)) [
      | false ↦ (ok highest, st)
      | true ↦
          let (done, st') = move_segment tiering span st in
          elim done [
            | ok u ↦
                tier_segments tiering digested spans (counting st') (some (as_i64 span.to_block))
            | err e ↦ (err e, st')
            | panic ↦ (panic, st')
          ]
    ]

abbrev pub stays_hot : OnDigest → Option Tier → Bool
stays_hot archive_it none = true
stays_hot archive_it (some cold) = false
stays_hot keep_it cold = false
stays_hot delete_it cold = false

unfoldable pub tier_archive : Tiering → ℤ → PassState → Result TieringError (Option ℤ) × PassState
tier_archive tiering digested st =
    if stays_hot tiering.on_digest st.store.cold
    then (ok none, st)
    else tier_segments tiering digested (hot_segments tiering.modified st.store) st none
