-- ===== src/Store/Segment/Recovery.antt =====
-- What opening a segment for appending gives, also after a crash in the middle of an append.
use polkadot_indexer_framerw.Common.{
  read_at, ℕ, suc, ◌+◌, ◌-◌, ◌*◌, ◌/◌, ◌^◌, ◌≤◌, ◌<◌, ◌≡◌, refl, sym, ap, subst, ◌∙◌, ◌≢◌, inl, inr,
  none, some, List, [], ◌∷◌, ◌++◌, append-nil, arith, length, take, drop, All, length-append,
  All-append_right, from_le, from_le-le_bytes, read_at-append,
}
use polkadot_indexer_framerw.Common.Result.{panic, ok}
use polkadot_indexer_framerw.Store.Segment.{
  idx_entry, idx_magic, magic_len, idx_entry_len, frame_header_len, File, write_all,
  init_or_check_magic, seg_magic,
}
use polkadot_indexer_framerw.Store.Segment.Format.{
  frame, entries, Crc32, Log, ItemFits, frames, end_of, entries-append, Fits, end_of-append,
  length-frame, end_of-ge, length-idx_entry, frames-append,
}
use polkadot_indexer_framerw.Store.Segment.Files.{
  seg_bytes, idx_bytes, length-idx_bytes, disk_of_log, Log-cases, length-seg_bytes, set_len-append,
  write_all_end,
}
use polkadot_indexer_framerw.Store.Segment.Writer.{
  recover, open_writer, append, SegmentWriter, last_end, read_idx_entry, trim_segment, trim_index,
  seek_to_end, write_frame,
}

-- The writer that stands at the end of a log.
abbrev pub writer_of : Crc32 → Log → SegmentWriter
writer_of crc log = record {
  seg = record { bytes = seg_bytes crc log; pos = end_of magic_len log };
  idx = record { bytes = idx_bytes log; pos = magic_len + length log * idx_entry_len };
  end = end_of magic_len log;
  frames = length log;
}

u32_u64 : (n : ℕ) → n < 2 ^ 32 → n < 256 ^ 4
u32_u64 n h = omega arith

-- The fields of an entry.
pub entry_fields :
    (n o l : ℕ)
    → n < 2 ^ 64
    → o < 2 ^ 64
    → l < 2 ^ 32
    → (from_le (take 8 (idx_entry n o l)) ≡ n)
      × (from_le (take 8 (drop 8 (idx_entry n o l))) ≡ o)
      × (from_le (take 4 (drop 16 (idx_entry n o l))) ≡ l)
entry_fields n o l hn ho hl = (
  from_le-le_bytes 8 n (omega arith),
  from_le-le_bytes 8 o (omega arith),
  from_le-le_bytes 4 l (omega arith),
)

module _ (f : File) (k : ℕ) (entry : List ℕ) {n o l : ℕ} where
  read_idx_entry-eq :
      read_at (magic_len + k * idx_entry_len) idx_entry_len f.bytes ≡ some entry
      → (from_le (take 8 entry) ≡ n)
        × (from_le (take 8 (drop 8 entry)) ≡ o)
        × (from_le (take 4 (drop 16 entry)) ≡ l)
      → read_idx_entry f k ≡ ok (n, o, l)
  unfolding read_idx_entry
  read_idx_entry-eq = λ found fields. rw (found, read_idx_entry) (cc)

last_end-eq :
    (f : File) (k : ℕ) {n o l : ℕ}
    → read_idx_entry f k ≡ ok (n, o, l)
    → o + l < 2 ^ 64
    → last_end f (suc k) ≡ ok (o + l)
unfolding last_end
last_end-eq f k e h = ground arith

last_end-append :
    (front : Log) (n : ℕ) (p : List ℕ) (pos : ℕ)
    → ItemFits (n, p)
    → end_of magic_len front + (frame_header_len + length p) < 2 ^ 64
    → last_end (record { bytes = idx_bytes (front ++ (n, p) ∷ []); pos = pos }) (suc (length front))
      ≡ ok (end_of magic_len front + (frame_header_len + length p))
last_end-append front n p pos fits size =
    let o = end_of magic_len front in
    let l = frame_header_len + length p in
    let entry = idx_entry n o l in
    let at : magic_len + length front * idx_entry_len ≡ length (idx_bytes front) =
      omega (arith, length-idx_bytes front) in
    let whole : idx_bytes (front ++ (n, p) ∷ []) ≡ idx_bytes front ++ (entry ++ []) =
      ap (λ l. idx_magic ++ l) (entries-append magic_len front ((n, p) ∷ [])) in
    let file : List ℕ → File = λ b. record { bytes = b; pos = pos } in
    let found : read_at (magic_len + length front * idx_entry_len) idx_entry_len
          (idx_bytes (front ++ (n, p) ∷ []))
        ≡ some entry =
      cc (at, whole, read_at-append (idx_bytes front) entry []) in
    last_end-eq (file (idx_bytes (front ++ (n, p) ∷ []))) (length front)
      (read_idx_entry-eq (file (idx_bytes (front ++ (n, p) ∷ []))) (length front) entry found
        (entry_fields n o l fits.0 (omega arith) (omega arith)))
      size

trim_index-append :
    (front back : List ℕ) (n q : ℕ)
    → n ≡ length front
    → trim_index n (record { bytes = front ++ back; pos = q }) ≡ record { bytes = front; pos = q }
unfolding trim_index
trim_index-append front [] n q e = rw append-nil (ground arith)
trim_index-append front (b ∷ back) n q e =
    ground (arith, set_len-append front (b ∷ back) n q e, length-append front (b ∷ back))

trim_segment-append :
    (front back : List ℕ) (n q : ℕ)
    → n ≡ length front
    → trim_segment n (record { bytes = front ++ back; pos = q }) ≡ record { bytes = front; pos = q }
unfolding trim_segment
trim_segment-append front [] n q e = rw append-nil (ground arith)
trim_segment-append front (b ∷ back) n q e =
    ground (arith, set_len-append front (b ∷ back) n q e, length-append front (b ∷ back))

last_end-snoc :
    (log front : Log) (n : ℕ) (p : List ℕ) (pos : ℕ)
    → Fits log
    → log ≡ front ++ (n, p) ∷ []
    → last_end (record { bytes = idx_bytes log; pos = pos }) (length log)
      ≡ ok (end_of magic_len log)
last_end-snoc log front n p pos fits e =
    let count : length log ≡ suc (length front) =
      omega (arith, ap length e, length-append front ((n, p) ∷ [])) in
    let end : end_of magic_len log ≡ end_of magic_len front + (frame_header_len + length p) =
      ap (end_of magic_len) e ∙ end_of-append magic_len front ((n, p) ∷ []) in
    let whole =
      last_end-append front n p pos
        (All-append_right ItemFits front ((n, p) ∷ []) (subst (All ItemFits) e fits.items)).0
        (omega arith) in
    rw count (rw end (rw e whole))

last_end-idx_bytes :
    (log : Log) (pos : ℕ)
    → Fits log
    → last_end (record { bytes = idx_bytes log; pos = pos }) (length log)
      ≡ ok (end_of magic_len log)
last_end-idx_bytes log pos fits = elim (Log-cases log) [
  | inl e ↦ rw e (unfold last_end in refl)
  | inr (front, n, p, e) ↦ last_end-snoc log front n p pos fits e
]

-- The last step of opening: whatever stands past the index's last complete entry is dropped.
recover-append :
    (crc : Crc32) (log : Log) (junk torn : List ℕ) (p q : ℕ)
    → Fits log
    → length torn < idx_entry_len
    → recover
        (record { bytes = seg_bytes crc log ++ junk; pos = p })
        (record { bytes = idx_bytes log ++ torn; pos = q })
      ≡ (ok (writer_of crc log), disk_of_log crc log)
unfolding recover seek_to_end
recover-append crc log junk torn p q fits cut =
    let count : (length (idx_bytes log ++ torn) - magic_len) / idx_entry_len ≡ length log =
      omega (arith, length-append (idx_bytes log) torn, length-idx_bytes log) in
    rw count (
      rw
        (trim_index-append (idx_bytes log) torn (magic_len + length log * idx_entry_len) q
          (sym (length-idx_bytes log)))
        (rw (last_end-idx_bytes log q fits) (
          rw
            (trim_segment-append (seg_bytes crc log) junk (end_of magic_len log) p
              (sym (length-seg_bytes crc log)))
            refl)))

-- A file with the right header passes the check.
header-seg :
    (rest : List ℕ)
    → init_or_check_magic seg_magic (record { bytes = seg_magic ++ rest; pos = 0 })
      ≡ ok (record { bytes = seg_magic ++ rest; pos = 8 })
unfolding init_or_check_magic
header-seg rest = ground arith

header-idx :
    (rest : List ℕ)
    → init_or_check_magic idx_magic (record { bytes = idx_magic ++ rest; pos = 0 })
      ≡ ok (record { bytes = idx_magic ++ rest; pos = 8 })
unfolding init_or_check_magic
header-idx rest = ground arith

-- Opening a segment for appending, when the files hold a log that fits their fields, followed by any
-- bytes in the segment and by less than one entry in the index: the call succeeds, the writer stands at
-- the end of the indexed log, and both files then hold that log and nothing else.
pub open_writer-recovers :
    (crc : Crc32) (log : Log) (junk torn : List ℕ)
    → Fits log
    → length torn < idx_entry_len
    → open_writer
        (record { seg = some (seg_bytes crc log ++ junk); idx = some (idx_bytes log ++ torn) })
      ≡ (ok (writer_of crc log), disk_of_log crc log)
unfolding open_writer
open_writer-recovers crc log junk torn fits cut =
    rw
      (header-seg (frames crc log ++ junk), open_writer, header-idx (entries magic_len log ++ torn))
      (recover-append crc log junk torn 8 8 fits cut)

-- A segment that does not exist yet is created empty.
pub open_writer_fresh :
    (crc : Crc32)
    → open_writer (record { seg = none; idx = none }) ≡ (ok (writer_of crc []), disk_of_log crc [])
unfolding open_writer init_or_check_magic write_all recover seek_to_end trim_index trim_segment
    last_end
open_writer_fresh crc = refl

module _ (n : ℕ) (new seg idx : List ℕ) (e k q : ℕ) where
  write_frame-end :
      e ≡ length seg
      → q ≡ length idx
      → length new < 2 ^ 32
      → e + length new < 2 ^ 64
      → k + 1 < 2 ^ 64
      → write_frame n new (record {
        seg = record { bytes = seg; pos = e };
        idx = record { bytes = idx; pos = q };
        end = e;
        frames = k;
      })
        ≡ (
          ok tt,
          record {
            seg = record { bytes = seg ++ new; pos = e + length new };
            idx = record { bytes = idx ++ idx_entry n e (length new); pos = q + idx_entry_len };
            end = e + length new;
            frames = k + 1;
          },
        )
  unfolding write_frame
  write_frame-end he hq small fits count = ground (
    arith,
    write_all_end new seg e he,
    write_all_end (idx_entry n e (length new)) idx q hq,
    length-idx_entry n e (length new),
  )

append-eq :
    (crc : Crc32) (n : ℕ) (p : List ℕ) (w : SegmentWriter)
    → length p < 2 ^ 32
    → append crc n p w ≡ write_frame n (frame crc n p) w
unfolding append
append-eq crc n p w small = ground arith

-- An append by the writer that stands at the end of a log succeeds and leaves the writer, with its files,
-- at the end of that log with the item added, when the longer log still fits the fields of the files.
pub append-writer_of :
    (crc : Crc32) (log : Log) (n : ℕ) (p : List ℕ)
    → Fits (log ++ (n, p) ∷ [])
    → append crc n p (writer_of crc log) ≡ (ok tt, writer_of crc (log ++ (n, p) ∷ []))
append-writer_of crc log n p fits =
    let item : Log = (n, p) ∷ [] in
    let small = (All-append_right ItemFits log item fits.items).0 in
    let len = length-frame crc n p in
    let end : end_of magic_len log + length (frame crc n p) ≡ end_of magic_len (log ++ item) =
      omega (arith, end_of-append magic_len log item, len) in
    let seg : seg_bytes crc log ++ frame crc n p ≡ seg_bytes crc (log ++ item) =
      ap (λ l. seg_magic ++ l)
        (ap (λ l. frames crc log ++ l) (sym (append-nil (frame crc n p)))
          ∙ sym (frames-append crc log item)) in
    let idx : idx_bytes log ++ idx_entry n (end_of magic_len log) (length (frame crc n p))
        ≡ idx_bytes (log ++ item) =
      ap (λ l. idx_magic ++ l)
        (ap (λ l. entries magic_len log ++ idx_entry n (end_of magic_len log) l) len
          ∙ ap (λ l. entries magic_len log ++ l)
              (sym (append-nil (idx_entry n (end_of magic_len log) (frame_header_len + length p))))
          ∙ sym (entries-append magic_len log item)) in
    let count : length log + 1 ≡ length (log ++ item) = omega (arith, length-append log item) in
    let pos : magic_len + length log * idx_entry_len + idx_entry_len
        ≡ magic_len + length (log ++ item) * idx_entry_len =
      omega (arith, count) in
    let wrote =
      write_frame-end n (frame crc n p) (seg_bytes crc log) (idx_bytes log) (end_of magic_len log)
        (length log) (magic_len + length log * idx_entry_len) (sym (length-seg_bytes crc log))
        (sym (length-idx_bytes log)) (omega arith) (omega arith)
        (omega (arith, end_of-ge magic_len log)) in
    append-eq crc n p (writer_of crc log) (omega arith) ∙ wrote ∙ λ i. (
      ok tt,
      record {
        seg = record { bytes = seg i; pos = end i };
        idx = record { bytes = idx i; pos = pos i };
        end = end i;
        frames = count i;
      },
    )

-- A payload whose frame is too long for a `u32` is never indexed: the call does not succeed, and the
-- index, the end of the segment and the count of frames stay as they were.
pub append_oversized :
    (crc : Crc32) (n : ℕ) (p : List ℕ) (w : SegmentWriter)
    → 2 ^ 32 ≤ length p + frame_header_len
    → ((append crc n p w).0 ≢ ok tt)
      × ((append crc n p w).1.idx ≡ w.idx)
      × ((append crc n p w).1.end ≡ w.end)
      × ((append crc n p w).1.frames ≡ w.frames)
unfolding append write_frame
append_oversized crc n p w big = ground (arith, length-frame crc n p)

-- With a payload that fits a `u32` and a frame that does not, the call panics, and the frame has been
-- written to the segment by then.
pub append_panics :
    (crc : Crc32) (n : ℕ) (p : List ℕ) (w : SegmentWriter)
    → length p < 2 ^ 32
    → 2 ^ 32 ≤ length p + frame_header_len
    → append crc n p w ≡ (panic, record w { seg = write_all (frame crc n p) w.seg })
unfolding append write_frame
append_panics crc n p w small big = ground (arith, length-frame crc n p)
