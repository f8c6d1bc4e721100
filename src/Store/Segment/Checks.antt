-- ===== src/Store/Segment/Checks.antt =====
-- The checks on a frame: what was written passes them, and only what could have been written does.
use polkadot_indexer_framerw.Common.{
  read_at, ℕ, ◌+◌, ◌≤◌, ◌≡◌, refl, sym, ap, subst, ◌∙◌, inl, inr, Option, none, some, List, ◌++◌,
  arith, Bool-cases, Option-cases, length, take, drop, All, take-append-drop, length-take,
  length-drop, drop-drop, All-append_left, All-append_right, le_bytes, from_le, IsByte,
  from_le-le_bytes, le_bytes-from_le, read_at_sound,
}
use polkadot_indexer_framerw.Common.Result.{ok}
use polkadot_indexer_framerw.Store.Segment.{frame_header_len}
use polkadot_indexer_framerw.Store.Segment.Format.{length-frame, Crc32, ItemFits, frame}
use polkadot_indexer_framerw.Store.Segment.Reader.{
  check_frame, read_located, Located, Files, SegmentReader, read, refresh,
}
use polkadot_indexer_framerw.Common.Map.{lookup, contains}

pub check_frame-frame :
    (crc : Crc32) (n : ℕ) (p : List ℕ)
    → ItemFits (n, p)
    → check_frame crc n (frame crc n p) ≡ ok (some p)
unfolding check_frame
check_frame-frame crc n p fits = ground (
  arith,
  length-frame crc n p,
  from_le-le_bytes 8 n (omega arith),
  from_le-le_bytes 4 (length p) (omega arith),
  from_le-le_bytes 4 (crc.hash p) (omega (arith, crc.hash-lt p)),
)

-- A field is the little-endian form of the number that it is read as.
field-le_bytes :
    (k : ℕ) (bytes : List ℕ)
    → All IsByte bytes
    → k ≤ length bytes
    → le_bytes k (from_le (take k bytes)) ++ drop k bytes ≡ bytes
field-le_bytes k bytes h enough =
    let len : length (take k bytes) ≡ k = omega (arith, length-take k bytes) in
    let front : All IsByte (take k bytes) =
      All-append_left IsByte (take k bytes) (drop k bytes)
        (subst (All IsByte) (sym (take-append-drop k bytes)) h) in
    ap (λ l. l ++ drop k bytes)
      ((λ i. le_bytes (sym len i) (from_le (take k bytes))) ∙ le_bytes-from_le (take k bytes) front)
    ∙ take-append-drop k bytes

bytes_behind : (k : ℕ) (bytes : List ℕ) → All IsByte bytes → All IsByte (drop k bytes)
bytes_behind k bytes h =
    All-append_right IsByte (take k bytes) (drop k bytes)
      (subst (All IsByte) (sym (take-append-drop k bytes)) h)

-- What the checks compare, for a frame that passes them.
check_frame_facts :
    (crc : Crc32) (n : ℕ) (bytes p : List ℕ)
    → check_frame crc n bytes ≡ ok (some p)
    → (frame_header_len ≤ length bytes)
      × (from_le (take 8 bytes) ≡ n)
      × (from_le (take 4 (drop 8 bytes)) ≡ length p)
      × (from_le (take 4 (drop 12 bytes)) ≡ crc.hash p)
      × (drop frame_header_len bytes ≡ p)
unfolding check_frame
check_frame_facts crc n bytes p e = ground arith

-- A frame that passes the checks for a number is the frame of that number with the payload that is
-- returned, checksum included.
check_frame_sound :
    (crc : Crc32) (n : ℕ) (bytes p : List ℕ)
    → All IsByte bytes
    → check_frame crc n bytes ≡ ok (some p)
    → bytes ≡ frame crc n p
check_frame_sound crc n bytes p h e =
    let f = check_frame_facts crc n bytes p e in
    let d12 = drop-drop 4 8 12 bytes refl in
    let d16 = drop-drop 4 12 16 bytes refl in
    let b8 : All IsByte (drop 8 bytes) = bytes_behind 8 bytes h in
    let b12 : All IsByte (drop 12 bytes) = bytes_behind 12 bytes h in
    let s8 = field-le_bytes 8 bytes h (omega arith) in
    let s12 = field-le_bytes 4 (drop 8 bytes) b8 (omega (arith, length-drop 8 bytes)) in
    let s16 = field-le_bytes 4 (drop 12 bytes) b12 (omega (arith, length-drop 12 bytes)) in
    sym s8
    ∙ (λ i. le_bytes 8 (f.1 i) ++ sym s12 i)
    ∙ (λ i. le_bytes 8 n ++ (le_bytes 4 (f.2 i) ++ (d12 ∙ sym s16) i))
    ∙ (λ i. le_bytes 8 n ++ (le_bytes 4 (length p) ++ (le_bytes 4 (f.3 i) ++ (d16 ∙ f.4) i)))

-- The bytes of one frame, somewhere in a segment.
abbrev pub HoldsFrame : Crc32 → List ℕ → ℕ → List ℕ → Type 0
HoldsFrame crc seg n p =
    (at : ℕ) × (read_at at (frame_header_len + length p) seg ≡ some (frame crc n p))

read_located_sound :
    (crc : Crc32) (seg : List ℕ) (n : ℕ) (where_at : Option Located) (p : List ℕ)
    → All IsByte seg
    → read_located crc seg n where_at ≡ ok (some p)
    → HoldsFrame crc seg n p
unfolding read_located
read_located_sound crc seg n none p h e = cc
read_located_sound crc seg n (some (at, len)) p h e = elim (Option-cases (read_at at len seg)) [
  | inl lost ↦ cc lost
  | inr (bytes, found) ↦
      let (size, ok_bytes) = read_at_sound at len seg bytes h found in
      let whole : bytes ≡ frame crc n p = check_frame_sound crc n bytes p ok_bytes (ground arith) in
      let len_eq : len ≡ frame_header_len + length p =
        sym size ∙ ap length whole ∙ length-frame crc n p in
      (at, (λ i. read_at at (sym len_eq i) seg) ∙ found ∙ ap some whole)
]

-- Whatever bytes the files hold and however the reader's map was made, a payload that a read returns for
-- a number stands in the segment in a frame of that number, with the right length and checksum.
pub read_sound :
    (crc : Crc32) (files : Files) (n : ℕ) (r : SegmentReader) (p : List ℕ)
    → All IsByte files.seg
    → (read crc files n r).0 ≡ ok (some p)
    → HoldsFrame crc files.seg n p
unfolding read
read_sound crc files n r p h e = elim (Bool-cases (contains n r.index)) [
  | inl here ↦ read_located_sound crc files.seg n (lookup n r.index) p h (ground arith)
  | inr away ↦
      read_located_sound crc files.seg n (lookup n (refresh files r).1.index) p h (ground arith)
]
