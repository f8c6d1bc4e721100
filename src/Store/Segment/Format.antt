-- ===== src/Store/Segment/Format.antt =====
-- The log that a pair of segment files stands for, the bytes that represent it, and the reads that
-- get a frame and an entry back from those bytes.
use polkadot_indexer_framerw.Common.{
  ℕ, ◌+◌, ◌*◌, ◌^◌, ◌≤◌, ◌<◌, ◌≡◌, refl, sym, ap, ◌∙◌, List, [], ◌∷◌, ◌++◌, append_assoc, arith,
  length, All, length-append, le_bytes, length-le_bytes,
}
use polkadot_indexer_framerw.Store.Segment.{
  frame_bytes, idx_entry, magic_len, frame_header_len, idx_entry_len,
}

-- The numbered payloads that were appended, the oldest first.
abbrev pub Log : Type 0
Log = List (ℕ × List ℕ)

-- What `crc32fast` promises: a checksum of 32 bits.
pub record Crc32 : Type 0 where
  pub hash : List ℕ → ℕ
  pub hash-lt : (bytes : List ℕ) → hash bytes < 2 ^ 32

-- A number that is a `u64`, with a frame whose length is a `u32`.
abbrev pub ItemFits : ℕ × List ℕ → Type 0
ItemFits (number, payload) = (number < 2 ^ 64) × (length payload + frame_header_len < 2 ^ 32)

module _ (crc : Crc32) where
  abbrev pub frame : ℕ → List ℕ → List ℕ
  frame number payload = frame_bytes (crc.hash payload) number payload

  abbrev pub frames : Log → List ℕ
  frames [] = []
  frames ((number, payload) ∷ log) = frame number payload ++ frames log

-- The index of a log whose first frame stands at `offset`.
abbrev pub entries : ℕ → Log → List ℕ
entries offset [] = []
entries offset ((number, payload) ∷ log) =
    idx_entry number offset (frame_header_len + length payload)
    ++ entries (offset + (frame_header_len + length payload)) log

-- The segment file ends at this offset.
abbrev pub end_of : ℕ → Log → ℕ
end_of offset [] = offset
end_of offset ((number, payload) ∷ log) = end_of (offset + (frame_header_len + length payload)) log

-- Every item fits its fields, and the file's length fits a `u64`.
pub record Fits (log : Log) : Type 0 where
  pub items : All ItemFits log
  pub size : end_of magic_len log < 2 ^ 64

pub length-frame :
    (crc : Crc32) (number : ℕ) (payload : List ℕ)
    → length (frame crc number payload) ≡ frame_header_len + length payload
length-frame crc number payload = omega (
  arith,
  length-append (le_bytes 8 number)
      (le_bytes 4 (length payload) ++ (le_bytes 4 (crc.hash payload) ++ payload)),
  length-append (le_bytes 4 (length payload)) (le_bytes 4 (crc.hash payload) ++ payload),
  length-append (le_bytes 4 (crc.hash payload)) payload,
  length-le_bytes 8 number,
)

pub length-idx_entry :
    (number offset len : ℕ) → length (idx_entry number offset len) ≡ idx_entry_len
length-idx_entry number offset len = omega arith

pub length-entries :
    (offset : ℕ) (log : Log) → length (entries offset log) ≡ idx_entry_len * length log
length-entries offset [] = refl
length-entries offset ((number, payload) ∷ log) = omega (
  arith,
  length-append (idx_entry number offset (frame_header_len + length payload))
      (entries (offset + (frame_header_len + length payload)) log),
  length-entries (offset + (frame_header_len + length payload)) log,
)

pub length-frames :
    (crc : Crc32) (offset : ℕ) (log : Log) → offset + length (frames crc log) ≡ end_of offset log
length-frames crc offset [] = omega arith
length-frames crc offset ((number, payload) ∷ log) = omega (
  arith,
  length-append (frame crc number payload) (frames crc log),
  length-frame crc number payload,
  length-frames crc (offset + (frame_header_len + length payload)) log,
)

pub end_of-append :
    (offset : ℕ) (xs ys : Log) → end_of offset (xs ++ ys) ≡ end_of (end_of offset xs) ys
end_of-append offset [] ys = refl
end_of-append offset ((n, p) ∷ xs) ys = end_of-append (offset + (frame_header_len + length p)) xs ys

pub end_of-ge :
    (offset : ℕ) (log : Log) → offset + frame_header_len * length log ≤ end_of offset log
end_of-ge offset [] = omega arith
end_of-ge offset ((n, p) ∷ log) =
    omega (arith, end_of-ge (offset + (frame_header_len + length p)) log)

pub frames-append :
    (crc : Crc32) (xs ys : Log) → frames crc (xs ++ ys) ≡ frames crc xs ++ frames crc ys
frames-append crc [] ys = refl
frames-append crc ((n, p) ∷ xs) ys =
    ap (λ l. frame crc n p ++ l) (frames-append crc xs ys)
    ∙ sym (append_assoc (frame crc n p) (frames crc xs) (frames crc ys))

pub entries-append :
    (offset : ℕ) (xs ys : Log)
    → entries offset (xs ++ ys) ≡ entries offset xs ++ entries (end_of offset xs) ys
entries-append offset [] ys = refl
entries-append offset ((n, p) ∷ xs) ys =
    ap (λ l. idx_entry n offset (frame_header_len + length p) ++ l)
      (entries-append (offset + (frame_header_len + length p)) xs ys)
    ∙ sym (
        append_assoc (idx_entry n offset (frame_header_len + length p))
          (entries (offset + (frame_header_len + length p)) xs)
          (entries (end_of (offset + (frame_header_len + length p)) xs) ys))
