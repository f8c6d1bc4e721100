-- ===== src/Store/Segments/First.antt =====
-- `first_number` of crates/pif-store/src/segstore.rs, and the range that `store_status` of
-- crates/pif-chain/src/pipeline.rs reports as replayable. A name that both tiers list counts once for the
-- lowest index, as it would twice.
pub mod Listing
pub mod Lowest
use polkadot_indexer_framerw.Common.{
  ℕ, ◌+◌, ◌≤◌, ◌<◌, min, ◌≡◌, refl, sym, ap, subst, ◌∙◌, ◌⊎◌, inl, inr, Bool, true, false, Option,
  none, some, List, [], ◌∷◌, ◌++◌, Option-cases,
}
use polkadot_indexer_framerw.Common.Result.{Result, ok, err, panic}
use polkadot_indexer_framerw.Common.Map.{Map}
use polkadot_indexer_framerw.Store.Error.{StoreError}
use polkadot_indexer_framerw.Store.Layout.{seg_suffix, segment_index, stem_start, strip_suffix}
use polkadot_indexer_framerw.Store.Segment.{magic_len}
use polkadot_indexer_framerw.Store.Segment.Format.{Crc32, Log}
use polkadot_indexer_framerw.Store.Segment.Located.{index_from}
use polkadot_indexer_framerw.Store.Segment.Reader.{Located, SegmentReader, refresh}
use polkadot_indexer_framerw.Store.Segments.{CachedReader, Segments, Tier, open_slot, slot_files}
use polkadot_indexer_framerw.Store.Segments.Tiers.{listing}
use polkadot_indexer_framerw.Store.Segments.Holding.{reader_at}
use polkadot_indexer_framerw.Store.Segments.Getting.{Shows-open, reading}
use polkadot_indexer_framerw.Store.Segments.Contiguous.{contiguous_end}
use polkadot_indexer_framerw.Store.Segments.Contiguous.Runs.{
  Known, KnownAt, Known-none, Known-reading, open_slot-absent, refresh-shown, stored_in,
}
use polkadot_indexer_framerw.Store.Segments.Contiguous.Found.{RunsTo}
use polkadot_indexer_framerw.Store.Segments.Contiguous.Whole.{LogsEnd, contiguous_end-RunsTo}

abbrev pub from_index : ℕ → Option (List ℕ) → Option ℕ → Option ℕ
from_index size (some stem) (some from) = some (segment_index from size)
from_index size (some stem) none = none
from_index size none from = none

abbrev pub or_lower : Option ℕ → Option ℕ → Option ℕ
or_lower none lowest = lowest
or_lower (some index) none = some index
or_lower (some index) (some lowest) = some (min lowest index)

-- The lowest segment whose `.seg` file is listed.
unfoldable pub lowest_index : ℕ → List (List ℕ) → Option ℕ
lowest_index size [] = none
lowest_index size (name ∷ names) =
    or_lower (from_index size (strip_suffix name seg_suffix) (stem_start name))
      (lowest_index size names)

abbrev pub cold_listing : ℕ → Option Tier → List (List ℕ)
cold_listing size none = []
cold_listing size (some tier) = listing size tier

-- `for_each_segment`: the hot tier's names, then the cold one's.
abbrev pub all_names : Segments → List (List ℕ)
all_names s = listing s.segment_size s.hot ++ cold_listing s.segment_size s.cold

abbrev pub first_key : Map Located → Option ℕ
first_key [] = none
first_key ((number, at) ∷ more) = some number

-- The closure with the reader of the segment.
abbrev pub first_of :
    CachedReader
    → Segments
    → Result StoreError (Unit {0}) × SegmentReader
    → Result StoreError (Option ℕ) × Segments
first_of r s (ok u, inner) =
    (ok (first_key inner.index), record s { reader = some (record r { inner = inner }) })
first_of r s (err e, inner) = (err e, record s { reader = some (record r { inner = inner }) })
first_of r s (panic, inner) = (panic, record s { reader = some (record r { inner = inner }) })

abbrev pub first_slot :
    Result StoreError (Option CachedReader) × Segments → Result StoreError (Option ℕ) × Segments
first_slot (ok (some r), s) = first_of r s (refresh (slot_files r s) r.inner)
first_slot (ok none, s) = (ok none, s)
first_slot (err e, s) = (err e, s)
first_slot (panic, s) = (panic, s)

abbrev pub first_in : Option ℕ → Segments → Result StoreError (Option ℕ) × Segments
first_in none s = (ok none, s)
first_in (some index) s = first_slot (open_slot index s)

unfoldable pub first_number : Segments → Result StoreError (Option ℕ) × Segments
first_number s = first_in (lowest_index s.segment_size (all_names s)) s

abbrev pub to_last : ℕ → Result StoreError (Option ℕ) → Result StoreError (Option (ℕ × ℕ))
to_last first (ok (some last)) = ok (some (first, last))
to_last first (ok none) = ok none
to_last first (err e) = err e
to_last first panic = panic

abbrev pub run_from :
    Result StoreError (Option ℕ) × Segments → Result StoreError (Option (ℕ × ℕ)) × Segments
run_from (ok (some first), s) =
    (to_last first (contiguous_end first s).0, (contiguous_end first s).1)
run_from (ok none, s) = (ok none, s)
run_from (err e, s) = (err e, s)
run_from (panic, s) = (panic, s)

-- The `replayable` of `store_status`.
unfoldable pub replayable : Segments → Result StoreError (Option (ℕ × ℕ)) × Segments
replayable s = run_from (first_number s)

-- The first number of the segment with this index, from its log.
abbrev pub logged_first : Option (Log × Bool) → Option ℕ
logged_first none = none
logged_first (some (log, hot)) = first_key (index_from magic_len log [])

abbrev pub first_logged : (ℕ → Option (Log × Bool)) → Option ℕ → Option ℕ
first_logged logs none = none
first_logged logs (some i) = logged_first (logs i)

module _ (crc : Crc32) (logs : ℕ → Option (Log × Bool)) (size : ℕ) where
  pub first_in-Known :
      (index : Option ℕ) (s : Segments)
      → Known crc logs size s
      → (s' : Segments) × (first_in index s ≡ (ok (first_logged logs index), s'))
        × Known crc logs size s'
  first_in-Known none s h = (s, refl, h)
  first_in-Known (some i) s h = elim (Option-cases (logs i)) [
    | inl e ↦
        let gone = subst (λ o. KnownAt crc o i s) e (h.at i) in
        (
          record s { reader = none },
          ap first_slot (open_slot-absent crc logs size s i gone.0 gone.1)
              ∙ ap (λ o. (ok (logged_first o), record s { reader = none })) (sym e),
          Known-none crc logs size s i h,
        )
    | inr ((log, hot), e) ↦
        let shown = subst (λ o. KnownAt crc o i s) e (h.at i) in
        let r = reader_at i log hot in
        let s' = reading r s in
        (
          s',
          ap first_slot (Shows-open crc i log hot s shown)
              ∙ ap (first_of r s') (refresh-shown crc logs size s i log hot shown)
              ∙ ap (λ o. (ok (logged_first o), s')) (sym e),
          Known-reading crc logs size s i log hot e h,
        )
  ]

-- What `replayable` returns, from a first number: nothing where that number is not stored, and otherwise
-- the run of stored numbers from it on.
abbrev pub ReplaysFrom : (ℕ → Bool) → Option ℕ → Option (ℕ × ℕ) → Type 0
ReplaysFrom stored none to = to ≡ none
ReplaysFrom stored (some a) to =
    ((stored a ≡ false) × (to ≡ none))
    ⊎ ((b : ℕ) × (a ≤ b)
        × (to ≡ some (a, b))
        × ((m : ℕ) → a ≤ m → m ≤ b → stored m ≡ true)
        × (stored (b + 1) ≡ false))

module _ (crc : Crc32) (logs : ℕ → Option (Log × Bool)) (size : ℕ) where
  to_last-ReplaysFrom :
      (a : ℕ) (last : Option ℕ)
      → RunsTo (stored_in logs size) a none last
      → (to : Option (ℕ × ℕ)) × (to_last a (ok last) ≡ ok to)
        × ReplaysFrom (stored_in logs size) (some a) to
  to_last-ReplaysFrom a last (inl (away, e)) =
      (none, ap (λ l. to_last a (ok l)) e, inl (away, refl))
  to_last-ReplaysFrom a last (inr (b, le, e, all, past)) =
      (some (a, b), ap (λ l. to_last a (ok l)) e, inr (b, le, refl, all, past))

  pub run_from-ReplaysFrom :
      (first : Option ℕ) (s : Segments)
      → 0 < size
      → LogsEnd crc logs size
      → Known crc logs size s
      → (to : Option (ℕ × ℕ)) × ((run_from (ok first, s)).0 ≡ ok to)
        × ReplaysFrom (stored_in logs size) first to
  run_from-ReplaysFrom none s positive end known = (none, refl, refl)
  run_from-ReplaysFrom (some a) s positive end known =
      let (last, done, runs) = contiguous_end-RunsTo crc logs size a s positive end known in
      let (to, e, replays) = to_last-ReplaysFrom a last runs in
      (to, ap (to_last a) done ∙ e, replays)
