-- ===== src/Store/Segments/Tests.antt =====
-- A small store with one segment on the hot tier, and one whose segment is on the cold tier.
use polkadot_indexer_framerw.Common.{
  read_at, ℕ, ◌≡◌, refl, subst, ◌≢◌, inl, inr, Bool, true, false, Option, none, some, [], ◌∷◌,
  arith, ◌==◌, if◌then◌else◌, Bool-cases,
}
use polkadot_indexer_framerw.Common.Result.{ok}
use polkadot_indexer_framerw.Common.Map.{lookup, contains, insert}
use polkadot_indexer_framerw.Store.Segment.Format.{Log, Fits}
use polkadot_indexer_framerw.Store.Segments.Holding.{disk_with}
use polkadot_indexer_framerw.Store.Segments.{
  Segments, cold_at, decompressed, disk_at, get, locate, locate_in, put, open_slot,
}
use polkadot_indexer_framerw.Store.Segments.Getting.{Shows}
use polkadot_indexer_framerw.Store.Segment.Located.{latest}
use polkadot_indexer_framerw.Store.Segments.Around.{put-get, put-get_cold}
use polkadot_indexer_framerw.Store.Layout.{segment_index, segment_end, segment_start}
use polkadot_indexer_framerw.Store.Segments.Contiguous.Runs.{Known, KnownAt, stored_in}
use polkadot_indexer_framerw.Store.Segments.Contiguous.Whole.{LogsEnd, contiguous_end-RunsTo}
use polkadot_indexer_framerw.Store.Segments.Contiguous.Found.{RunsTo}
use polkadot_indexer_framerw.Store.Segment.Reader.{
  check_header, open_reader, parse_entries, refresh, refresh_index,
}
use polkadot_indexer_framerw.Store.Segments.Contiguous.{
  contiguous_end, contiguous_from, find_run, run_end, run_in,
}
use polkadot_indexer_framerw.Store.Sample.{
  toy, plain, one_block, hot_store, one_block-Fits, hot_store-HotLog,
}

abbrev two_blocks : Log
two_blocks = (5, 1 ∷ 2 ∷ []) ∷ (6, 9 ∷ []) ∷ []

two_blocks-Fits : Fits two_blocks
two_blocks-Fits = record {
  items = ((omega arith, omega arith), ((omega arith, omega arith), tt));
  size = omega arith;
}

abbrev cold_store : Segments
cold_store = record {
  segment_size = 1000;
  hot = [];
  cold = some ((0, disk_with toy one_block [] []) ∷ []);
  writer = none;
  reader = none;
}

cold_store-Shows : Shows toy (segment_index 6 1000) one_block false cold_store
unfolding segment_index disk_at lookup locate locate_in cold_at
cold_store-Shows = record {
  junk = [];
  torn = [];
  located = refl;
  stored = refl;
  cut = omega arith;
  fits = one_block-Fits;
  reader = inl refl;
}

put-get_example :
    (t : Segments) × (put toy plain 6 (9 ∷ []) hot_store ≡ (ok tt, t))
    × ((get toy plain 6 t).0 ≡ ok (some (9 ∷ [])))
    × ((k : ℕ) (other : Log) (hot : Bool)
        → k ≢ 6
        → Shows toy (segment_index k 1000) other hot hot_store
        → (get toy plain k t).0 ≡ (get toy plain k hot_store).0)
put-get_example = put-get toy plain 6 (9 ∷ []) one_block hot_store hot_store-HotLog (record {
  items = ((omega arith, omega arith), ((omega arith, omega arith), tt));
  size = omega arith;
})

put-get_cold_example :
    (t : Segments) × (put toy plain 6 (9 ∷ []) cold_store ≡ (ok tt, t))
    × ((get toy plain 6 t).0 ≡ ok (some (9 ∷ [])))
    × ((k : ℕ)
        → k ≢ 6
        → segment_index 6 1000 ≡ segment_index k 1000
        → ((get toy plain k cold_store).0 ≡ decompressed toy plain (ok (latest k one_block)))
          × ((get toy plain k t).0 ≡ ok none))
unfolding disk_at lookup
put-get_cold_example =
    put-get_cold toy plain 6 (9 ∷ []) one_block cold_store cold_store-Shows refl refl
      (record { items = ((omega arith, omega arith), tt); size = omega arith })

-- The numbers 5 and 6, and nothing else.
abbrev run_store : Segments
run_store = record hot_store { hot = (0, disk_with toy two_blocks [] []) ∷ [] }

abbrev run_logs : ℕ → Option (Log × Bool)
run_logs i = if i == 0 then some (two_blocks, true) else none

away_locate : (i : ℕ) → (i == 0) ≡ false → locate i run_store ≡ none
unfolding disk_at lookup locate locate_in cold_at
away_locate i away = ground (arith, away)

run_store-Known : Known toy run_logs 1000 run_store
unfolding disk_at lookup locate locate_in cold_at
run_store-Known = record {
  same_size = refl;
  at = λ i. elim (Bool-cases (i == 0)) [
    | inl same ↦
        let is : 0 ≡ i = ground (arith, same) in
        subst (λ j. KnownAt toy (run_logs j) j run_store) is
          (record {
            junk = [];
            torn = [];
            located = refl;
            stored = refl;
            cut = omega arith;
            fits = two_blocks-Fits;
            reader = inl refl;
          })
    | inr away ↦ rw away (away_locate i away, refl)
  ];
}

run_logs-LogsEnd : LogsEnd toy run_logs 1000
run_logs-LogsEnd i shown e = ground arith

contiguous_end-RunsTo_example :
    (to : Option ℕ) × ((contiguous_end 5 run_store).0 ≡ ok to)
    × RunsTo (stored_in run_logs 1000) 5 none to
contiguous_end-RunsTo_example =
    contiguous_end-RunsTo toy run_logs 1000 5 run_store (omega arith) run_logs-LogsEnd
      run_store-Known

run_ends : (contiguous_end 5 run_store).0 ≡ ok (some 6)
unfolding contiguous_end contiguous_from find_run run_in run_end open_slot locate locate_in disk_at
    lookup open_reader refresh refresh_index parse_entries segment_index segment_start segment_end
    contains insert read_at check_header
run_ends = refl
