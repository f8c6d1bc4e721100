-- ===== src/Store/Segments/Contiguous.antt =====
-- `contiguous_end` of crates/pif-store/src/segstore.rs: how far the numbers from a first one on are all
-- there, found by walking through the segments.
pub mod Found
pub mod Runs
pub mod Whole
use polkadot_indexer_framerw.Common.{
  ℕ, zero, suc, ◌+◌, ◌-◌, ◌^◌, true, false, Option, none, some, leb, ◌==◌,
}
use polkadot_indexer_framerw.Common.Result.{Result, ok, err, panic}
use polkadot_indexer_framerw.Common.Map.{Map, contains}
use polkadot_indexer_framerw.Store.Error.{StoreError}
use polkadot_indexer_framerw.Store.Layout.{segment_index, segment_end}
use polkadot_indexer_framerw.Store.Segment.Reader.{Located, refresh}
use polkadot_indexer_framerw.Store.Segments.{Segments, open_slot, slot_files, CachedReader}

-- The inner loop: the first number from `n` on, within the next `k`, that is not in the map.
unfoldable pub run_end : ℕ → ℕ → Map Located → ℕ
run_end zero n index = n
run_end (suc k) n index = elim (contains n index) [ true ↦ run_end k (n + 1) index | false ↦ n ]

-- The closure with the reader of the segment: topped up, then walked through up to `stop`.
unfoldable pub run_in : ℕ → ℕ → CachedReader → Segments → Result StoreError (Option ℕ) × Segments
run_in stop number r s =
    let (done, inner) = refresh (slot_files r s) r.inner in
    let s' : Segments = record s { reader = some (record r { inner = inner }) } in
    elim done [
      | ok u ↦ (ok (some (run_end (stop + 1 - number) number inner.index)), s')
      | err e ↦ (err e, s')
      | panic ↦ (panic, s')
    ]

-- That closure under `with_reader`.
unfoldable pub find_run : ℕ → Segments → Result StoreError (Option ℕ) × Segments
find_run number s =
    let index = segment_index number s.segment_size in
    let (slot, s') = open_slot index s in
    elim slot [
      | ok opened ↦ elim opened [
        | none ↦ (ok none, s')
        | some r ↦ run_in (segment_end index s.segment_size) number r s'
      ]
      | err e ↦ (err e, s')
      | panic ↦ (panic, s')
    ]

-- The end of a round, from what was found in its segment; `go_on` is the next round.
abbrev pub after_run :
    (ℕ → Option ℕ → Segments → Result StoreError (Option ℕ) × Segments)
    → ℕ
    → Option ℕ
    → ℕ
    → Result StoreError (Option ℕ) × Segments
    → Result StoreError (Option ℕ) × Segments
after_run go_on number last stop (ok none, s) = (ok last, s)
after_run go_on number last stop (ok (some next_number), s) = elim (next_number == number) [
  | true ↦ (ok last, s)
  | false ↦ elim (leb next_number stop) [
    | true ↦ (ok (some (next_number - 1)), s)
    | false ↦ go_on next_number (some (next_number - 1)) s
  ]
]
after_run go_on number last stop (err e, s) = (err e, s)
after_run go_on number last stop (panic, s) = (panic, s)

-- The outer loop: one segment in each round.
unfoldable pub contiguous_from :
    ℕ → ℕ → Option ℕ → Segments → Result StoreError (Option ℕ) × Segments
contiguous_from zero number last s = (ok last, s)
contiguous_from (suc fuel) number last s =
    after_run (contiguous_from fuel) number last
      (segment_end (segment_index number s.segment_size) s.segment_size) (find_run number s)

unfoldable pub contiguous_end : ℕ → Segments → Result StoreError (Option ℕ) × Segments
contiguous_end from s = contiguous_from (2 ^ 64 - from + 1) from none s
