-- ===== src/Store/Segment/Scanning.antt =====
-- Scanning the frames when the index is lost: the frames alone describe the segment.
use polkadot_indexer_framerw.Common.{
  read_at, ℕ, zero, suc, ◌+◌, ◌-◌, ◌^◌, ◌<◌, ◌≡◌, refl, sym, ap, subst, ◌∙◌, inl, inr, Bool, false,
  none, some, List, [], ◌∷◌, ◌++◌, append_assoc, append-nil, arith, ltb, if◌then◌else◌, ltb→lt,
  Bool-cases, length, take, drop, All, length-append, length-take, All-append_right, take-append_ge,
  le_bytes, from_le, from_le-le_bytes, read_at-append, read_at-short,
}
use polkadot_indexer_framerw.Common.Map.{Map, insert}
use polkadot_indexer_framerw.Common.Result.{ok}
use polkadot_indexer_framerw.Store.Segment.{seg_magic, magic_len, frame_header_len}
use polkadot_indexer_framerw.Store.Segment.Format.{
  end_of-append, frames-append, Crc32, Log, ItemFits, frame, frames, end_of, end_of-ge,
  length-frame,
}
use polkadot_indexer_framerw.Store.Segment.Reader.{
  open_reader, Files, Located, SegmentReader, found, stop, scan_step, scan, refresh, read,
}
use polkadot_indexer_framerw.Store.Segment.Located.{index_from-append, index_from, latest}
use polkadot_indexer_framerw.Store.Segment.Files.{length-seg_bytes, seg_bytes}
use polkadot_indexer_framerw.Store.Segment.Reading.{header_ok, read-up_to_date}

-- What an interrupted append leaves behind the last frame: the front of a frame, possibly nothing.
pub record TornFrame (crc : Crc32) (torn : List ℕ) : Type 0 where
  pub number : ℕ
  pub payload : List ℕ
  pub fits : ItemFits (number, payload)
  pub written : ℕ
  pub unfinished : written < frame_header_len + length payload
  pub front : torn ≡ take written (frame crc number payload)

abbrev header : Crc32 → ℕ → List ℕ → List ℕ
header crc n p = le_bytes 8 n ++ (le_bytes 4 (length p) ++ le_bytes 4 (crc.hash p))

module _ (seg h : List ℕ) (at : ℕ) {n len : ℕ} where
  scan_step-eq :
      read_at at frame_header_len seg ≡ some h
      → from_le (take 8 h) ≡ n
      → from_le (take 4 (drop 8 h)) ≡ len
      → len + frame_header_len < 2 ^ 32
      → scan_step seg at ≡ (
          if ltb (length seg) (at + (frame_header_len + len))
          then stop
          else found n (frame_header_len + len))
  unfolding scan_step
  scan_step-eq e en el small = rw (e, scan_step, en, el) (ground arith)

ltb_shift :
    (a b c t : ℕ) → t ≡ a + (frame_header_len + b) → ltb t (a + (frame_header_len + c)) ≡ ltb b c
ltb_shift a b c t e = ground arith

scan_step-short :
    (pre torn : List ℕ)
    → length torn < frame_header_len
    → scan_step (pre ++ torn) (length pre) ≡ stop
unfolding scan_step
scan_step-short pre torn short = rw (read_at-short pre torn 16 short, scan_step)

scan_step-header :
    (crc : Crc32) (n : ℕ) (p pre rest : List ℕ)
    → ItemFits (n, p)
    → scan_step (pre ++ (header crc n p ++ rest)) (length pre)
      ≡ (if ltb (length rest) (length p) then stop else found n (frame_header_len + length p))
scan_step-header crc n p pre rest fits =
    scan_step-eq (pre ++ (header crc n p ++ rest)) (header crc n p) (length pre)
      (read_at-append pre (header crc n p) rest) (from_le-le_bytes 8 n (omega arith))
      (from_le-le_bytes 4 (length p) (omega arith)) (omega arith)
    ∙ ap (λ (b : Bool). if b then stop else found n (frame_header_len + length p))
        (ltb_shift (length pre) (length rest) (length p) (length (pre ++ (header crc n p ++ rest)))
          (omega (
            arith,
            length-append pre (header crc n p ++ rest),
            length-append (header crc n p) rest,
          )))

-- An interrupted append ends the scan.
scan_step-torn :
    (crc : Crc32) (pre torn : List ℕ)
    → TornFrame crc torn
    → scan_step (pre ++ torn) (length pre) ≡ stop
scan_step-torn crc pre torn t =
    let whole = frame crc t.number t.payload in
    let len = length-take t.written whole in
    let size : length torn ≡ length (take t.written whole) = ap length t.front in
    elim (Bool-cases (ltb t.written frame_header_len)) [
      | inl small ↦
          scan_step-short pre torn (omega (arith, ltb→lt t.written frame_header_len small))
      | inr large ↦
          let k = t.written - frame_header_len in
          let part : torn ≡ header crc t.number t.payload ++ take k t.payload =
            t.front
            ∙ take-append_ge (header crc t.number t.payload) t.payload t.written (ground arith) in
          rw part (
            scan_step-header crc t.number t.payload pre (take k t.payload) t.fits
            ∙ ground (arith, length-take k t.payload))
    ]

-- The scan walks the frames of a log and stops behind the last one.
scan-frames :
    (crc : Crc32) (log : Log) (fuel at c : ℕ) (pre torn : List ℕ) (m : Map Located)
    → length log < fuel
    → at ≡ length pre
    → All ItemFits log
    → TornFrame crc torn
    → scan fuel
        (pre ++ (frames crc log ++ torn))
        at
        (record { has_idx = false; index = m; cursor = c })
      ≡ (ok tt, record { has_idx = false; index = index_from at log m; cursor = end_of at log })
unfolding scan index_from
scan-frames crc log zero at c pre torn m enough here items t = absurd (omega arith)
scan-frames crc [] (suc fuel) at c pre torn m enough here items t =
    rw here (rw (scan_step-torn crc pre torn t, scan))
scan-frames crc ((n, p) ∷ log) (suc fuel) at c pre torn m enough here items t =
    let split : pre ++ (frame crc n p ++ frames crc log ++ torn)
        ≡ (pre ++ frame crc n p) ++ (frames crc log ++ torn) =
      ap (λ l. pre ++ l) (append_assoc (frame crc n p) (frames crc log) torn)
      ∙ sym (append_assoc pre (frame crc n p) (frames crc log ++ torn)) in
    let next = at + (frame_header_len + length p) in
    let there : next ≡ length (pre ++ frame crc n p) =
      omega (arith, length-append pre (frame crc n p), length-frame crc n p) in
    let step : scan_step (pre ++ (frame crc n p ++ frames crc log ++ torn)) at
        ≡ found n (frame_header_len + length p) =
      (λ i. scan_step (pre ++ append_assoc (frame crc n p) (frames crc log) torn i) (here i))
      ∙ scan_step-header crc n p pre (p ++ (frames crc log ++ torn)) items.0
      ∙ ground (arith, length-append p (frames crc log ++ torn)) in
    rw (step, scan)
      (rw split (
        scan-frames crc log fuel next c (pre ++ frame crc n p) torn
          (insert n (at, frame_header_len + length p) m) (omega arith) there items.1 t))

-- The reader that has scanned the frames of a log.
abbrev pub scanner_of : Log → SegmentReader
scanner_of log = record {
  has_idx = false;
  index = index_from magic_len log [];
  cursor = end_of magic_len log;
}

-- The files of a segment whose index is lost.
abbrev pub lost_index : Crc32 → Log → List ℕ → Files
lost_index crc log torn = record { seg = seg_bytes crc log ++ torn; idx = [] }

-- A refresh without an index takes in the frames behind the last one it has seen.
refresh-scanner_of :
    (crc : Crc32) (log more : Log) (torn : List ℕ)
    → All ItemFits (log ++ more)
    → TornFrame crc torn
    → refresh (lost_index crc (log ++ more) torn) (scanner_of log)
      ≡ (ok tt, scanner_of (log ++ more))
unfolding refresh
refresh-scanner_of crc log more torn items t =
    let rest = frames crc more ++ torn in
    let split : seg_bytes crc (log ++ more) ++ torn ≡ seg_bytes crc log ++ rest =
      ap (λ l. seg_magic ++ (l ++ torn)) (frames-append crc log more)
      ∙ ap (λ l. seg_magic ++ l) (append_assoc (frames crc log) (frames crc more) torn) in
    let enough : length more < length (seg_bytes crc (log ++ more) ++ torn) = omega (
      arith,
      length-append (seg_bytes crc (log ++ more)) torn,
      length-seg_bytes crc (log ++ more),
      end_of-ge magic_len (log ++ more),
      length-append log more,
    ) in
    (λ i.
      scan (length (seg_bytes crc (log ++ more) ++ torn)) (split i) (end_of magic_len log)
        (scanner_of log))
    ∙ scan-frames crc more (length (seg_bytes crc (log ++ more) ++ torn)) (end_of magic_len log)
        (end_of magic_len log) (seg_bytes crc log) torn (index_from magic_len log []) enough
        (sym (length-seg_bytes crc log)) (All-append_right ItemFits log more items) t
    ∙ (λ i. (
      ok tt,
      record {
        has_idx = false;
        index = sym (index_from-append magic_len log more []) i;
        cursor = sym (end_of-append magic_len log more) i;
      },
    ))

-- When the index file is gone and the segment holds the frames of a log whose items fit their
-- fields, with possibly the front of one more frame behind them, opening the segment succeeds
-- with a reader that has scanned all the frames, and a read by it returns the newest payload of a
-- number, or nothing when there is none.
pub lost_index_lem :
    (crc : Crc32) (log : Log) (torn : List ℕ) (n : ℕ)
    → All ItemFits log
    → TornFrame crc torn
    → (open_reader (record { seg = some (seg_bytes crc log ++ torn); idx = none })
        ≡ ok (some (scanner_of log)))
      × (read crc (lost_index crc log torn) n (scanner_of log)
          ≡ (ok (latest n log), scanner_of log))
lost_index_lem crc log torn n items t = (
  unfold open_reader index_from in (rw (header_ok (frames crc log ++ torn), first)),
  read-up_to_date crc (lost_index crc log torn) log torn n (scanner_of log) refl refl
      (subst (λ l. refresh (lost_index crc l torn) (scanner_of log) ≡ (ok tt, scanner_of l))
        (append-nil log)
        (refresh-scanner_of crc log [] torn (subst (All ItemFits) (sym (append-nil log)) items) t))
      items,
)
  where
    first :
        refresh
          (lost_index crc log torn)
          (record { has_idx = false; index = []; cursor = magic_len })
        ≡ (ok tt, scanner_of log)
    first = unfold index_from in (refresh-scanner_of crc [] log torn items t)
