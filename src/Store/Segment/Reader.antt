-- ===== src/Store/Segment/Reader.antt =====
-- `SegmentReader` of crates/pif-store/src/segment.rs: the map from block numbers to frames, how it is
-- topped up from the index or from the frames themselves, and reading one payload back.
use polkadot_indexer_framerw.Common.{
  read_at, ℕ, zero, suc, ◌+◌, ◌-◌, ◌*◌, ◌/◌, ◌^◌, Bool, true, false, not, Option, none, some, List,
  [], ltb, leb, ◌==◌, if◌then◌else◌, length, take, drop, from_le,
}
use polkadot_indexer_framerw.Common.Result.{Result, ok, err, panic, ◌>>=◌, ◌>>◌}
use polkadot_indexer_framerw.Common.Map.{Map, lookup, insert, contains, keys}
use polkadot_indexer_framerw.Store.Error.{
  StoreError, io, segment_corrupt, absurd_frame, unreadable, wrong_number, wrong_length,
  checksum_mismatch,
}
use polkadot_indexer_framerw.Store.Segment.{
  idx_magic, frame_header_len, magic_len, seg_magic, Disk, check_magic, idx_entry_len,
}
use polkadot_indexer_framerw.Store.Segment.Format.{Crc32}

-- A frame's offset in its segment, and its length with the header.
abbrev pub Located : Type 0
Located = ℕ × ℕ

-- What the two files hold at the time of a call; the reader's handles see every write.
pub record Files : Type 0 where
  pub seg : List ℕ
  pub idx : List ℕ

-- `has_idx` says whether there was an index file. `cursor` counts bytes of the index that are parsed
-- or, without one, bytes of the segment that are scanned.
pub record SegmentReader : Type 0 where
  pub has_idx : Bool
  pub index : Map Located
  pub cursor : ℕ

-- One entry per 20 bytes of the buffer.
unfoldable pub parse_entries : ℕ → List ℕ → Map Located → Map Located
parse_entries zero buf index = index
parse_entries (suc k) buf index = parse_entries k (drop idx_entry_len buf) (
    insert (from_le (take 8 buf)) (from_le (take 8 (drop 8 buf)), from_le (take 4 (drop 16 buf)))
      index)

-- `refresh` with an index: the complete entries behind the cursor.
unfoldable pub refresh_index : List ℕ → SegmentReader → Result StoreError (Unit {0}) × SegmentReader
refresh_index idx r =
    let complete = magic_len + (length idx - magic_len) / idx_entry_len * idx_entry_len in
    if ltb (length idx) magic_len
    then (panic, r)
    else if ltb r.cursor complete
    then elim (read_at r.cursor (complete - r.cursor) idx) [
      | some buf ↦ (
        ok tt,
        record r {
          index = parse_entries (length buf / idx_entry_len) buf r.index;
          cursor = complete;
        },
      )
      | none ↦ (err io, r)
    ]
    else (ok tt, r)

-- One round of the scan at `offset`: nothing more to read, a frame, or a frame of 4 GiB and more.
pub data Scanned : Type 0 where
  stop : Scanned
  found : ℕ → ℕ → Scanned
  absurd_length : Scanned

unfoldable pub scan_step : List ℕ → ℕ → Scanned
scan_step seg offset = elim (read_at offset frame_header_len seg) [
  | none ↦ stop
  | some header ↦
      let frame_len = frame_header_len + from_le (take 4 (drop 8 header)) in
      if ltb (length seg) (offset + frame_len)
      then stop
      else if leb (2 ^ 32) frame_len
      then absurd_length
      else found (from_le (take 8 header)) frame_len
]

-- `scan_from_cursor`. Each round moves at least a header's length ahead, so the length of the segment
-- is fuel enough. After an error the frames found so far stay in the map.
unfoldable pub scan : ℕ → List ℕ → ℕ → SegmentReader → Result StoreError (Unit {0}) × SegmentReader
scan zero seg offset r = (ok tt, record r { cursor = offset })
scan (suc fuel) seg offset r = elim (scan_step seg offset) [
  | stop ↦ (ok tt, record r { cursor = offset })
  | found number frame_len ↦
      scan fuel seg (offset + frame_len)
        (record r { index = insert number (offset, frame_len) r.index })
  | absurd_length ↦ (err (segment_corrupt absurd_frame), r)
]

unfoldable pub refresh : Files → SegmentReader → Result StoreError (Unit {0}) × SegmentReader
refresh files r =
    if r.has_idx then refresh_index files.idx r else scan (length files.seg) files.seg r.cursor r

-- The segment's bytes with the checks of the header, for `SegmentReader::open`.
unfoldable pub check_header : List ℕ → List ℕ → Result StoreError (Unit {0})
unfolding check_magic
check_header magic bytes = do checked ← check_magic magic (record { bytes = bytes; pos = 0 }); ok tt

abbrev new_reader : Bool → SegmentReader
new_reader has_idx = record { has_idx = has_idx; index = []; cursor = magic_len }

-- The last step of `open`: the first refresh.
abbrev opened :
    Result StoreError (Unit {0}) × SegmentReader → Result StoreError (Option SegmentReader)
opened (ok u, r) = ok (some r)
opened (err e, r) = err e
opened (panic, r) = panic

-- `SegmentReader::open`; no segment file is no reader.
unfoldable pub open_reader : Disk → Result StoreError (Option SegmentReader)
open_reader disk = elim disk.seg [
  | none ↦ ok none
  | some seg ↦ do
    check_header seg_magic seg
    elim disk.idx [
      | none ↦ opened (refresh (record { seg = seg; idx = [] }) (new_reader false))
      | some idx ↦ do
        check_header idx_magic idx
        opened (refresh (record { seg = seg; idx = idx }) (new_reader true))
    ]
]

module _ (crc : Crc32) where
  -- The checks on a frame that was read for block `number`; a short frame is an index out of range.
  unfoldable pub check_frame : ℕ → List ℕ → Result StoreError (Option (List ℕ))
  check_frame number frame =
      let payload = drop frame_header_len frame in
      if ltb (length frame) frame_header_len
      then panic
      else if not (from_le (take 8 frame) == number)
      then err (segment_corrupt wrong_number)
      else if not (length payload == from_le (take 4 (drop 8 frame)))
      then err (segment_corrupt wrong_length)
      else if not (crc.hash payload == from_le (take 4 (drop 12 frame)))
      then err (segment_corrupt checksum_mismatch)
      else ok (some payload)

  unfoldable pub read_located : List ℕ → ℕ → Option Located → Result StoreError (Option (List ℕ))
  read_located seg number none = ok none
  read_located seg number (some (offset, len)) = elim (read_at offset len seg) [
    | none ↦ err (segment_corrupt unreadable)
    | some frame ↦ check_frame number frame
  ]

  abbrev read_refreshed :
      Files
      → ℕ
      → Result StoreError (Unit {0}) × SegmentReader
      → Result StoreError (Option (List ℕ)) × SegmentReader
  read_refreshed files number (ok u, r) = (read_located files.seg number (lookup number r.index), r)
  read_refreshed files number (err e, r) = (err e, r)
  read_refreshed files number (panic, r) = (panic, r)

  -- `SegmentReader::read`: a number that is not in the map gets one refresh.
  unfoldable pub read :
      Files → ℕ → SegmentReader → Result StoreError (Option (List ℕ)) × SegmentReader
  read files number r =
      if contains number r.index
      then (read_located files.seg number (lookup number r.index), r)
      else read_refreshed files number (refresh files r)

-- `numbers`, in order.
abbrev pub numbers : SegmentReader → List ℕ
numbers r = keys r.index
