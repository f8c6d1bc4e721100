-- ===== src/Chain/Tiering/Tests.antt =====
-- A pass over a store with one segment.
use polkadot_indexer_framerw.Common.{
  ℕ, ◌+◌, ◌*◌, ◌%◌, ◌^◌, ◌≤◌, ◌≡◌, refl, ◌≢◌, ◌⊎◌, inl, true, false, none, some, [], ◌∷◌, arith,
  length,
}
use polkadot_indexer_framerw.Common.Int.{ℤ, pos, ◌≤ℤ◌}
use polkadot_indexer_framerw.Common.Result.{ok, err}
use polkadot_indexer_framerw.Common.Map.{lookup}
use polkadot_indexer_framerw.Store.Layout.{
  strip_suffix, segment_stem, segment_start, segment_end, stem_start, parse_u64, segment_index,
}
use polkadot_indexer_framerw.Chain.Tiering.Rows.{record_segment-twice}
use polkadot_indexer_framerw.Chain.Fetch.{as_i64}
use polkadot_indexer_framerw.Store.Segment.Format.{Crc32, Log}
use polkadot_indexer_framerw.Store.Segments.Moving.{Faithful}
use polkadot_indexer_framerw.Store.Segments.Tiers.{
  Media, read_back, copied, copy_into, copy_sidecar, copy_to_cold, copy_verified, drop_hot, dropped,
  hot_segments, insert_span, listing, remove, sort_spans, span_of_name, spans_of_names, SegmentSpan,
}
use polkadot_indexer_framerw.Chain.Tiering.{
  PassState, Tiering, archive_it, tier_archive, archive_segment, eligible, move_by,
  retained_long_enough, tier_segments, db_error,
}
use polkadot_indexer_framerw.Store.Segments.Getting.{Shows}
use polkadot_indexer_framerw.Store.Segments.{Segments, Zstd, disk_at, get, locate, locate_in}
use polkadot_indexer_framerw.Store.Segments.Holding.{disk_with}
use polkadot_indexer_framerw.Chain.Tiering.Keeps.{tier_archive-get}
use polkadot_indexer_framerw.Chain.Tiering.Prefix.{tier_archive-moves_prefix}
use polkadot_indexer_framerw.Chain.Tiering.Pass.{PassWorld, enabled, loaded_pass, pass, tier_all}
use polkadot_indexer_framerw.Chain.Tiering.Refused.{pass-db_error}

abbrev toy : Crc32
toy = record { hash = λ bytes. length bytes % 4294967296; hash-lt = λ bytes. omega arith }

abbrev plain : Zstd
plain = record { encode = λ p. p; decode = λ p. some p; decode-encode = λ p. refl }

abbrev good_media : Media
good_media = record {
  landing = λ index is_seg bytes. read_back bytes;
  unlinks = λ index is_seg. true;
}

good_media-Faithful : Faithful toy good_media
good_media-Faithful = record { detects = λ i f bytes installed e same. ground arith }

abbrev archiving : Tiering
archiving = record {
  on_digest = archive_it;
  retention = 10;
  crc = toy;
  media = good_media;
  now = 100;
  modified = λ name. some 5;
  db_takes = λ index. true;
  db_loads = true;
  db_advances = true;
}

abbrev one_block : Log
one_block = (5, 1 ∷ 2 ∷ []) ∷ []

abbrev start : PassState
start = record {
  store = record {
    segment_size = 1000;
    hot = (0, disk_with toy one_block [] []) ∷ [];
    cold = some [];
    writer = none;
    reader = none;
  };
  rows = [];
  report = record { segments = 0; freed = 0; archive_watermark = none };
}

start-Shows : Shows toy (segment_index 5 1000) one_block true (start.store)
unfolding segment_index disk_at lookup locate locate_in
start-Shows = record {
  junk = [];
  torn = [];
  located = refl;
  stored = refl;
  cut = omega arith;
  fits = record { items = ((omega arith, omega arith), tt); size = omega arith };
  reader = inl refl;
}

tier_archive-get_example :
    (get toy plain 5 (tier_archive archiving (pos 2000) start).1.store).0
    ≡ (get toy plain 5 (start.store)).0
tier_archive-get_example =
    tier_archive-get archiving (pos 2000) start plain 5 one_block true refl good_media-Faithful
      start-Shows

start-passes : (tier_archive archiving (pos 2000) start).0 ≡ ok (some (pos 999))
unfolding tier_archive tier_segments move_by archive_segment copy_to_cold copy_into copied
    copy_verified copy_sidecar drop_hot dropped remove disk_at lookup hot_segments sort_spans
    insert_span listing spans_of_names span_of_name eligible retained_long_enough strip_suffix
    segment_stem segment_start segment_end stem_start parse_u64 as_i64 segment_index
start-passes = refl

tier_archive-moves_prefix_example :
    (some (pos 999) ≡ none)
    ⊎ ((b : ℤ) × (some (pos 999) ≡ some b)
        × (b ≤ℤ pos 2000)
        × ((m : ℕ) × (b ≡ as_i64 (segment_end m 1000)))
        × ((number : ℕ)
            → segment_index number 1000 * 1000 + 1000 ≤ 2 ^ 63
            → pos number ≤ℤ b
            → (disk_at
                (segment_index number 1000)
                (tier_archive archiving (pos 2000) start).1.store.hot).seg
              ≡ none))
tier_archive-moves_prefix_example =
    tier_archive-moves_prefix archiving (pos 2000) start (some (pos 999)) (omega arith) start-passes

-- The database refuses the statements about segments.
abbrev refused : Tiering
refused = record archiving { db_takes = λ index. false }

abbrev one_archive : PassWorld
one_archive = record {
  archives = (record { is_blocks = true; store = start.store }) ∷ [];
  rows = [];
  marks = some (record { fetch = pos 3000; digest = pos 2000; archive = pos 0 });
}

pass-refused : (pass refused one_archive).0 ≡ err db_error
unfolding pass loaded_pass enabled tier_all tier_archive tier_segments move_by archive_segment
    copy_to_cold copy_into copied copy_verified copy_sidecar drop_hot dropped remove disk_at lookup
    hot_segments sort_spans insert_span listing spans_of_names span_of_name eligible
    retained_long_enough strip_suffix segment_stem segment_start segment_end stem_start parse_u64
    as_i64 segment_index
pass-refused = refl

pass-db_error_example : (pass archiving one_archive).0 ≢ err db_error
pass-db_error_example =
    pass-db_error archiving one_archive (omega arith, tt) (omega arith, omega arith) refl refl
      (λ i. refl)

abbrev hot_span : SegmentSpan
hot_span = record { index = 0; from_block = 0; to_block = 999; modified = none }

-- The read cache has another payload for the same block.
abbrev cache_log : Log
cache_log = (5, 7 ∷ 8 ∷ 9 ∷ []) ∷ []

abbrev cache : Segments
cache = record (start.store) { hot = (0, disk_with toy cache_log [] []) ∷ [] }

abbrev cached : PassState
cached = record {
  store = cache;
  rows = (archive_segment archiving hot_span start).1.rows;
  report = start.report;
}

archives_blocks : (archive_segment archiving hot_span start).0 ≡ ok tt
unfolding archive_segment copy_to_cold copy_into copied copy_verified copy_sidecar drop_hot dropped
    remove disk_at lookup
archives_blocks = refl

archives_cache : (archive_segment archiving hot_span cached).0 ≡ ok tt
unfolding archive_segment copy_to_cold copy_into copied copy_verified copy_sidecar drop_hot dropped
    remove disk_at lookup
archives_cache = refl

record_segment-twice_example :
    (archive_segment archiving hot_span cached).1.rows
    ≡ (archive_segment archiving hot_span
        (record { store = cache; rows = []; report = start.report })).1.rows
record_segment-twice_example =
    record_segment-twice archiving hot_span hot_span start cache (start.report) refl refl
      archives_blocks archives_cache
