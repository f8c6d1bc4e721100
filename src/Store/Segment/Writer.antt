-- ===== src/Store/Segment/Writer.antt =====
-- `SegmentWriter` of crates/pif-store/src/segment.rs: opening a segment for appending, which drops
-- what an interrupted append has left, and appending one frame and its index entry.
use polkadot_indexer_framerw.Common.{
  read_at, ℕ, zero, suc, ◌+◌, ◌-◌, ◌*◌, ◌/◌, ◌%◌, ◌^◌, none, some, List, ltb, leb, ◌==◌,
  if◌then◌else◌, length, take, drop, from_le,
}
use polkadot_indexer_framerw.Common.Result.{Result, ok, err, panic, ◌>>=◌}
use polkadot_indexer_framerw.Store.Error.{StoreError, io, segment_corrupt, exceeds_four_gib}
use polkadot_indexer_framerw.Store.Segment.{
  File, Disk, open_rw, write_all, set_len, seek, init_or_check_magic, frame_bytes, idx_entry,
  seg_magic, idx_magic, magic_len, idx_entry_len,
}
use polkadot_indexer_framerw.Store.Segment.Format.{Crc32}

-- `end` is where the next frame goes, and `frames` counts those that are indexed.
pub record SegmentWriter : Type 0 where
  pub seg : File
  pub idx : File
  pub end : ℕ
  pub frames : ℕ

abbrev disk_of : File → File → Disk
disk_of seg idx = record { seg = some seg.bytes; idx = some idx.bytes }

-- The number, the offset and the frame length of the `n`th entry.
unfoldable pub read_idx_entry : File → ℕ → Result StoreError (ℕ × ℕ × ℕ)
read_idx_entry idx n = elim (read_at (magic_len + n * idx_entry_len) idx_entry_len idx.bytes) [
  | some entry ↦
      ok (from_le (take 8 entry), from_le (take 8 (drop 8 entry)), from_le (take 4 (drop 16 entry)))
  | none ↦ err io
]

-- Where the frame of the last entry ends; the sum is a `u64`.
unfoldable pub last_end : File → ℕ → Result StoreError ℕ
unfolding read_idx_entry
last_end idx zero = ok magic_len
last_end idx (suc n) = do (number, offset, len) ← read_idx_entry idx n; ok ((offset + len) % 2 ^ 64)

-- `(idx_len - MAGIC_LEN) / IDX_ENTRY_LEN`
abbrev pub complete_entries : File → ℕ
complete_entries idx = (length idx.bytes - magic_len) / idx_entry_len

-- A torn index entry is discarded whole.
unfoldable pub trim_index : ℕ → File → File
trim_index indexed_len idx =
    if length idx.bytes == indexed_len then idx else set_len indexed_len idx

-- A frame that is not indexed is discarded.
unfoldable pub trim_segment : ℕ → File → File
trim_segment end seg = if ltb end (length seg.bytes) then set_len end seg else seg

-- `open`, once the index is trimmed to `frames` entries and the end of the last frame is known.
unfoldable pub seek_to_end :
    ℕ → File → File → Result StoreError ℕ → Result StoreError SegmentWriter × Disk
seek_to_end frames seg idx (ok end) =
    let seg' = trim_segment end seg in
    (
      ok (record {
        seg = seek end seg';
        idx = seek (magic_len + frames * idx_entry_len) idx;
        end = end;
        frames = frames;
      }),
      disk_of seg' idx,
    )
seek_to_end frames seg idx (err e) = (err e, disk_of seg idx)
seek_to_end frames seg idx panic = (panic, disk_of seg idx)

-- `open`, once both headers are there.
unfoldable pub recover : File → File → Result StoreError SegmentWriter × Disk
recover seg idx =
    let frames = complete_entries idx in
    let idx' = trim_index (magic_len + frames * idx_entry_len) idx in
    seek_to_end frames seg idx' (last_end idx' frames)

-- `SegmentWriter::open`: the writer, and the files as the call leaves them, failing or not.
unfoldable pub open_writer : Disk → Result StoreError SegmentWriter × Disk
open_writer disk =
    let seg = open_rw disk.seg in
    let idx = open_rw disk.idx in
    elim (init_or_check_magic seg_magic seg) [
      | ok seg' ↦ elim (init_or_check_magic idx_magic idx) [
        | ok idx' ↦ recover seg' idx'
        | err e ↦ (err e, disk_of seg' idx)
        | panic ↦ (panic, disk_of seg' idx)
      ]
      | err e ↦ (err e, disk_of seg idx)
      | panic ↦ (panic, disk_of seg idx)
    ]

-- `append`, once the frame is built: it is written first, then its length has to be a `u32` (an
-- `expect`), then the index entry is written.
unfoldable pub write_frame :
    ℕ → List ℕ → SegmentWriter → Result StoreError (Unit {0}) × SegmentWriter
write_frame number frame w =
    let seg = write_all frame w.seg in
    if leb (2 ^ 32) (length frame) then (panic, record w { seg = seg }) else (
      ok tt,
      record {
        seg = seg;
        idx = write_all (idx_entry number w.end (length frame)) w.idx;
        end = (w.end + length frame) % 2 ^ 64;
        frames = (w.frames + 1) % 2 ^ 64;
      },
    )

module _ (crc : Crc32) where
  -- `SegmentWriter::append`
  unfoldable pub append : ℕ → List ℕ → SegmentWriter → Result StoreError (Unit {0}) × SegmentWriter
  append number payload w =
      if leb (2 ^ 32) (length payload)
      then (err (segment_corrupt exceeds_four_gib), w)
      else write_frame number (frame_bytes (crc.hash payload) number payload) w
