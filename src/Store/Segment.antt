-- ===== src/Store/Segment.antt =====
-- crates/pif-store/src/segment.rs: the format of the segment file and of its index, the files that
-- they are written to, and the checks of their headers.
pub mod Format
pub mod Files
pub mod Writer
pub mod Recovery
pub mod Reader
pub mod Located
pub mod Reading
pub mod Scanning
pub mod Checks
use polkadot_indexer_framerw.Common.{
  ℕ, ◌+◌, ◌-◌, Bool, true, false, ◌&&◌, Option, none, some, List, [], ◌∷◌, ◌++◌, ◌==◌,
  if◌then◌else◌, length, take, drop, replicate, le_bytes,
}
use polkadot_indexer_framerw.Common.Result.{Result, ok, err}
use polkadot_indexer_framerw.Store.Error.{StoreError, segment_corrupt, too_short, bad_magic}

-- `PIFSEG\x00\x01`
abbrev pub seg_magic : List ℕ
seg_magic = 80 ∷ 73 ∷ 70 ∷ 83 ∷ 69 ∷ 71 ∷ 0 ∷ 1 ∷ []

-- `PIFIDX\x00\x01`
abbrev pub idx_magic : List ℕ
idx_magic = 80 ∷ 73 ∷ 70 ∷ 73 ∷ 68 ∷ 88 ∷ 0 ∷ 1 ∷ []

abbrev pub magic_len : ℕ
magic_len = 8

abbrev pub frame_header_len : ℕ
frame_header_len = 16

abbrev pub idx_entry_len : ℕ
idx_entry_len = 20

-- A file that is open for reading and writing: what it holds, and where the next write goes.
pub record File : Type 0 where
  pub bytes : List ℕ
  pub pos : ℕ

-- The pair of files of one segment on disk; `none` is a file that does not exist.
pub record Disk : Type 0 where
  pub seg : Option (List ℕ)
  pub idx : Option (List ℕ)

-- `open_rw`: created when it is not there, never truncated.
abbrev pub open_rw : Option (List ℕ) → File
open_rw none = record { bytes = []; pos = 0 }
open_rw (some bytes) = record { bytes = bytes; pos = 0 }

-- Behind the end of a file a write leaves a gap of zeros.
unfoldable pub write_all : List ℕ → File → File
write_all new f = record {
  bytes =
      take f.pos f.bytes
      ++ (replicate (f.pos - length f.bytes) 0 ++ (new ++ drop (f.pos + length new) f.bytes));
  pos = f.pos + length new;
}

unfoldable pub set_len : ℕ → File → File
set_len n f = record f { bytes = take n f.bytes ++ replicate (n - length f.bytes) 0 }

abbrev pub seek : ℕ → File → File
seek n f = record f { pos = n }

abbrev pub bytes_eq : List ℕ → List ℕ → Bool
bytes_eq [] [] = true
bytes_eq (x ∷ xs) (y ∷ ys) = (x == y) && bytes_eq xs ys
bytes_eq [] (y ∷ ys) = false
bytes_eq (x ∷ xs) [] = false

-- The read leaves the file's position behind the magic.
unfoldable pub check_magic : List ℕ → File → Result StoreError File
check_magic magic f =
    if length (take 8 f.bytes) == 8
    then (if bytes_eq (take 8 f.bytes) magic
        then ok (seek 8 f)
        else err (segment_corrupt bad_magic))
    else err (segment_corrupt too_short)

unfoldable pub init_or_check_magic : List ℕ → File → Result StoreError File
unfolding check_magic write_all
init_or_check_magic magic f =
    if length f.bytes == 0 then ok (write_all magic f) else check_magic magic f

-- One frame, `[number u64][payload_len u32][crc32 u32][payload]`.
abbrev pub frame_bytes : ℕ → ℕ → List ℕ → List ℕ
frame_bytes crc number payload =
    le_bytes 8 number ++ (le_bytes 4 (length payload) ++ (le_bytes 4 crc ++ payload))

-- One index entry, `[number u64][offset u64][frame_len u32]`.
abbrev pub idx_entry : ℕ → ℕ → ℕ → List ℕ
idx_entry number offset frame_len = le_bytes 8 number ++ (le_bytes 8 offset ++ le_bytes 4 frame_len)
