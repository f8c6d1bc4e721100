-- ===== src/Store/Segments/Tiers.antt =====
-- Moving segments between the tiers: crates/pif-store/src/cold.rs, with `hot_segments`, `copy_to_cold`
-- and `drop_hot` of crates/pif-store/src/segstore.rs. What the disks do is a parameter; flushing a
-- writer's handle and listing a directory are taken to succeed.
use polkadot_indexer_framerw.Common.{
  ℕ, ◌+◌, ◌/◌, ◌%◌, Bool, true, false, Option, none, some, List, [], ◌∷◌, ◌++◌, leb, ◌==◌,
  if◌then◌else◌, length,
}
use polkadot_indexer_framerw.Store.Segment.Format.{Crc32}
use polkadot_indexer_framerw.Common.Result.{Result, ok, err, panic}
use polkadot_indexer_framerw.Common.Map.{insert}
use polkadot_indexer_framerw.Store.Error.{
  io, segment_corrupt, copy_mismatch, no_cold_tier, StoreError,
}
use polkadot_indexer_framerw.Store.Layout.{
  strip_suffix, stem_start, seg_suffix, idx_suffix, segment_end, segment_index, segment_start,
  segment_stem,
}
use polkadot_indexer_framerw.Store.Segment.{Disk}
use polkadot_indexer_framerw.Store.Segments.{
  Segments, Tier, disk_at, reader_for, writer_for, CachedReader,
}
use polkadot_indexer_framerw.Store.Segment.Files.{idx_bytes, seg_bytes}
use polkadot_indexer_framerw.Store.Segment.Writer.{SegmentWriter}

-- What becomes of bytes that are copied: nothing under the final name, or a file that cannot be read
-- back, or one that can.
pub data Landing : Type 0 where
  not_installed : Landing
  not_read_back : List ℕ → Landing
  read_back : List ℕ → Landing

-- What the disks do with the `.seg` (`true`) or `.idx` file of a segment.
pub record Media : Type 0 where
  pub landing : ℕ → Bool → List ℕ → Landing
  pub unlinks : ℕ → Bool → Bool

-- The copy with its length and checksum, and the file under the destination's name.
unfoldable pub copy_verified :
    Crc32
    → (List ℕ → Landing)
    → Option (List ℕ)
    → Option (List ℕ)
    → Result StoreError (ℕ × ℕ) × Option (List ℕ)
copy_verified crc landing src dst = elim src [
  | none ↦ (err io, dst)
  | some bytes ↦ elim (landing bytes) [
    | not_installed ↦ (err io, dst)
    | not_read_back installed ↦ (err io, some installed)
    | read_back installed ↦
        if crc.hash installed == crc.hash bytes
        then (ok (length bytes, crc.hash bytes), some installed)
        else (err (segment_corrupt copy_mismatch), some installed)
  ]
]

-- The bytes reclaimed, and the file that is left.
unfoldable pub remove : Bool → Option (List ℕ) → Result StoreError ℕ × Option (List ℕ)
remove unlinks none = (ok 0, none)
remove unlinks (some bytes) = if unlinks then (ok (length bytes), none) else (err io, some bytes)

pub record SegmentSpan : Type 0 where
  pub index : ℕ
  pub from_block : ℕ
  pub to_block : ℕ
  pub modified : Option ℕ

pub record Tiered : Type 0 where
  pub span : SegmentSpan
  pub bytes : ℕ
  pub checksum : List ℕ

abbrev pub span_at : ℕ → ℕ → Option ℕ → SegmentSpan
span_at size index modified = record {
  index = index;
  from_block = segment_start index size;
  to_block = segment_end index size;
  modified = modified;
}

-- `to_be_bytes` of a `u32`
abbrev pub be_bytes : ℕ → List ℕ
be_bytes n = (n / 16777216) % 256 ∷ (n / 65536) % 256 ∷ (n / 256) % 256 ∷ n % 256 ∷ []

-- The names in the directory of a tier.
unfoldable pub listing : ℕ → Tier → List (List ℕ)
listing size [] = []
listing size ((index, disk) ∷ tier) =
    elim disk.seg [ none ↦ [] | some bytes ↦ (segment_stem index size ++ seg_suffix) ∷ [] ]
    ++ (elim disk.idx [ none ↦ [] | some bytes ↦ (segment_stem index size ++ idx_suffix) ∷ [] ]
        ++ listing size tier)

-- The span that a name stands for, unless it is no segment's.
unfoldable pub span_of_name : ℕ → (List ℕ → Option ℕ) → List ℕ → Option SegmentSpan
span_of_name size modified name = elim (strip_suffix name seg_suffix) [
  | none ↦ none
  | some stem ↦ elim (stem_start name) [
    | none ↦ none
    | some from ↦ some (span_at size (segment_index from size) (modified name))
  ]
]

unfoldable pub spans_of_names : ℕ → (List ℕ → Option ℕ) → List (List ℕ) → List SegmentSpan
spans_of_names size modified [] = []
spans_of_names size modified (name ∷ names) =
    let spans = spans_of_names size modified names in
    elim (span_of_name size modified name) [ none ↦ spans | some span ↦ span ∷ spans ]

-- A stable sort by the index.
unfoldable pub insert_span : SegmentSpan → List SegmentSpan → List SegmentSpan
insert_span span [] = span ∷ []
insert_span span (other ∷ spans) =
    let behind = insert_span span spans in
    if leb span.index other.index then span ∷ other ∷ spans else other ∷ behind

unfoldable pub sort_spans : List SegmentSpan → List SegmentSpan
sort_spans [] = []
sort_spans (span ∷ spans) = insert_span span (sort_spans spans)

unfoldable pub hot_segments : (List ℕ → Option ℕ) → Segments → List SegmentSpan
hot_segments modified s =
    sort_spans (spans_of_names s.segment_size modified (listing s.segment_size s.hot))

-- The sidecar is copied if there is one.
unfoldable pub copy_sidecar :
    Crc32
    → (List ℕ → Landing)
    → Option (List ℕ)
    → Option (List ℕ)
    → Result StoreError ℕ × Option (List ℕ)
copy_sidecar crc landing none dst = (ok 0, dst)
copy_sidecar crc landing (some bytes) dst =
    let (done, idx) = copy_verified crc landing (some bytes) dst in
    (elim done [ ok copied ↦ ok copied.0 | err e ↦ err e | panic ↦ panic ], idx)

abbrev pub with_cold : ℕ → Disk → Tier → Segments → Segments
with_cold index disk cold s = record s { cold = some (insert index disk cold) }

abbrev pub with_hot : ℕ → Disk → Segments → Segments
with_hot index disk s = record s { hot = insert index disk s.hot }

-- `copy_to_cold`, from how the copies of the two files went; the second is made if the first succeeds.
unfoldable pub copied :
    ℕ
    → Tier
    → Segments
    → Result StoreError (ℕ × ℕ) × Option (List ℕ)
    → Result StoreError ℕ × Option (List ℕ)
    → Result StoreError Tiered × Segments
copied index cold s (seg_done, seg) (idx_done, idx) =
    let half = with_cold index (record { seg = seg; idx = (disk_at index cold).idx }) cold s in
    let whole = with_cold index (record { seg = seg; idx = idx }) cold s in
    elim seg_done [
      | ok (seg_bytes, checksum) ↦ elim idx_done [
        | ok idx_bytes ↦ (
          ok (record {
            span = span_at s.segment_size index none;
            bytes = seg_bytes + idx_bytes;
            checksum = be_bytes checksum;
          }),
          whole,
        )
        | err e ↦ (err e, whole)
        | panic ↦ (panic, whole)
      ]
      | err e ↦ (err e, half)
      | panic ↦ (panic, half)
    ]

unfoldable pub copy_into :
    Crc32 → Media → ℕ → Segments → Option Tier → Result StoreError Tiered × Segments
copy_into crc media index s none = (err no_cold_tier, s)
copy_into crc media index s (some cold) =
    let src = disk_at index s.hot in
    let dst = disk_at index cold in
    copied index cold s (copy_verified crc (media.landing index true) src.seg dst.seg)
      (copy_sidecar crc (media.landing index false) src.idx dst.idx)

unfoldable pub copy_to_cold : Crc32 → Media → ℕ → Segments → Result StoreError Tiered × Segments
copy_to_cold crc media index s = copy_into crc media index s s.cold

-- The slots without any handle on the segment.
abbrev pub reader_without : ℕ → Option CachedReader → Option CachedReader
reader_without index slot = elim (reader_for index slot) [ none ↦ slot | some r ↦ none ]

abbrev pub writer_without : ℕ → Option (ℕ × SegmentWriter) → Option (ℕ × SegmentWriter)
writer_without index slot = elim (writer_for index slot) [ none ↦ slot | some w ↦ none ]

abbrev pub without_handles : ℕ → Segments → Segments
without_handles index s = record s {
  writer = writer_without index s.writer;
  reader = reader_without index s.reader;
}

-- `drop_hot`, from how the removals went; the second is made if the first succeeds.
unfoldable pub dropped :
    ℕ
    → Segments
    → Result StoreError ℕ × Option (List ℕ)
    → Result StoreError ℕ × Option (List ℕ)
    → Result StoreError ℕ × Segments
dropped index s (seg_done, seg) (idx_done, idx) =
    let half = with_hot index (record { seg = seg; idx = (disk_at index s.hot).idx }) s in
    let whole = with_hot index (record { seg = seg; idx = idx }) s in
    elim seg_done [
      | ok seg_freed ↦ elim idx_done [
        | ok idx_freed ↦ (ok (seg_freed + idx_freed), whole)
        | err e ↦ (err e, whole)
        | panic ↦ (panic, whole)
      ]
      | err e ↦ (err e, half)
      | panic ↦ (panic, half)
    ]

unfoldable pub drop_hot : Media → ℕ → Segments → Result StoreError ℕ × Segments
drop_hot media index s =
    let src = disk_at index s.hot in
    dropped index (without_handles index s) (remove (media.unlinks index true) src.seg)
      (remove (media.unlinks index false) src.idx)
