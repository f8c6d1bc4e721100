-- ===== src/Store/Segment/Reading.antt =====
-- Reading through an index: a reader that has followed a log returns the newest payload of a number.
use polkadot_indexer_framerw.Common.{
  read_at, ℕ, ◌+◌, ◌-◌, ◌*◌, ◌/◌, ◌≤◌, ◌<◌, ◌≡◌, refl, sym, ap, subst, ◌∙◌, ◌⊎◌, inl, inr, true,
  false, none, some, List, [], ◌∷◌, ◌++◌, append_assoc, append-nil, arith, length, All,
  length-append, All-append_right, read_at-append,
}
use polkadot_indexer_framerw.Common.Result.{ok}
use polkadot_indexer_framerw.Common.Map.{Map, lookup, contains}
use polkadot_indexer_framerw.Store.Segment.{
  seg_magic, idx_magic, magic_len, idx_entry_len, frame_header_len,
}
use polkadot_indexer_framerw.Store.Segment.Format.{
  Crc32, Log, Fits, ItemFits, frame, frames, entries, end_of, entries-append, end_of-append,
  length-entries,
}
use polkadot_indexer_framerw.Store.Segment.Files.{seg_bytes, idx_bytes, length-idx_bytes}
use polkadot_indexer_framerw.Store.Segment.Reader.{
  SegmentReader, Files, Located, parse_entries, refresh_index, refresh, read_located, read,
  open_reader, check_header,
}
use polkadot_indexer_framerw.Store.Segment.Located.{
  latest, index_from, index_from-append, parse_entries-entries, lookup-latest, latest-ItemFits,
}
use polkadot_indexer_framerw.Store.Segment.Checks.{check_frame-frame}

-- The reader that has parsed the index of a log.
abbrev pub reader_of : Log → SegmentReader
reader_of log = record {
  has_idx = true;
  index = index_from magic_len log [];
  cursor = magic_len + length log * idx_entry_len;
}

-- Both files of a log, the segment with anything behind its frames and the index with part of an
-- entry behind its entries.
abbrev pub files_of : Crc32 → Log → List ℕ → List ℕ → Files
files_of crc log junk torn = record { seg = seg_bytes crc log ++ junk; idx = idx_bytes log ++ torn }

-- The part of the index behind the entries of `log`.
read_at-more :
    (log more : Log) (torn : List ℕ)
    → read_at
        (magic_len + length log * idx_entry_len)
        (length more * idx_entry_len)
        (idx_bytes (log ++ more) ++ torn)
      ≡ some (entries (end_of magic_len log) more)
read_at-more log more torn =
    let at = length-idx_bytes log in
    let len = length-entries (end_of magic_len log) more in
    let whole : idx_bytes (log ++ more) ++ torn
        ≡ idx_bytes log ++ (entries (end_of magic_len log) more ++ torn) =
      ap (λ l. idx_magic ++ (l ++ torn)) (entries-append magic_len log more)
      ∙ ap (λ l. idx_magic ++ l)
          (append_assoc (entries magic_len log) (entries (end_of magic_len log) more) torn) in
    let len' : length more * idx_entry_len ≡ length (entries (end_of magic_len log) more) =
      omega (arith, len) in
    (λ i. read_at (sym at i) (len' i) (whole i))
    ∙ read_at-append (idx_bytes log) (entries (end_of magic_len log) more) torn

parse-more :
    (log more : Log)
    → Fits (log ++ more)
    → parse_entries
        (length (entries (end_of magic_len log) more) / idx_entry_len)
        (entries (end_of magic_len log) more)
        (index_from magic_len log [])
      ≡ index_from magic_len (log ++ more) []
parse-more log more fits =
    let count : length (entries (end_of magic_len log) more) / idx_entry_len ≡ length more =
      omega (arith, length-entries (end_of magic_len log) more) in
    (λ i.
      parse_entries (count i) (sym (append-nil (entries (end_of magic_len log) more)) i)
        (index_from magic_len log []))
    ∙ parse_entries-entries (end_of magic_len log) more [] (index_from magic_len log [])
        (All-append_right ItemFits log more fits.items)
        (omega (arith, fits.size, end_of-append magic_len log more))
    ∙ sym (index_from-append magic_len log more [])

parse_none :
    (log more : Log)
    → (parse_entries
          (length (entries (end_of magic_len log) more) / idx_entry_len)
          (entries (end_of magic_len log) more)
          (index_from magic_len log [])
        ≡ index_from magic_len log [])
      ⊎ (0 < length more * idx_entry_len)
unfolding parse_entries
parse_none log [] = inl refl
parse_none log (x ∷ more) = inr (omega arith)

-- One refresh over index bytes of which the first `c + d` are complete entries.
module _ (idx buf : List ℕ) (m : Map Located) (c d : ℕ) where
  refresh_index-eq :
      magic_len ≤ length idx
      → magic_len + (length idx - magic_len) / idx_entry_len * idx_entry_len ≡ c + d
      → read_at c d idx ≡ some buf
      → parse_entries (length buf / idx_entry_len) buf m ≡ m ⊎ (0 < d)
      → refresh_index idx (record { has_idx = true; index = m; cursor = c }) ≡ (
        ok tt,
        record {
          has_idx = true;
          index = parse_entries (length buf / idx_entry_len) buf m;
          cursor = c + d;
        },
      )
  unfolding refresh_index
  refresh_index-eq header complete found same =
      let rest : magic_len + (length idx - magic_len) / idx_entry_len * idx_entry_len - c ≡ d =
        omega arith in
      ground (arith, ap (λ (k : ℕ). read_at c k idx) rest)

-- A reader that has followed a log, refreshed on files that by now hold that log and more items,
-- all fitting their fields, has followed the longer log. Behind the items the segment may hold
-- any bytes, and the index less than one entry.
pub refresh-reader_of :
    (crc : Crc32) (log more : Log) (junk torn : List ℕ)
    → Fits (log ++ more)
    → length torn < idx_entry_len
    → refresh (files_of crc (log ++ more) junk torn) (reader_of log)
      ≡ (ok tt, reader_of (log ++ more))
unfolding refresh
refresh-reader_of crc log more junk torn fits cut =
    let size = length-idx_bytes (log ++ more) in
    let len = length-append (idx_bytes (log ++ more)) torn in
    let both = length-append log more in
    let end : magic_len + length log * idx_entry_len + length more * idx_entry_len
        ≡ magic_len + length (log ++ more) * idx_entry_len =
      omega arith in
    refresh_index-eq (idx_bytes (log ++ more) ++ torn) (entries (end_of magic_len log) more)
      (index_from magic_len log []) (magic_len + length log * idx_entry_len)
      (length more * idx_entry_len) (omega arith) (omega arith) (read_at-more log more torn)
      (parse_none log more)
    ∙ λ i. (ok tt, record { has_idx = true; index = parse-more log more fits i; cursor = end i })

pub contains-none : (n : ℕ) (m : Map Located) → lookup n m ≡ none → contains n m ≡ false
unfolding contains
contains-none n m e = rw (e, contains)

pub contains-some :
    (n : ℕ) (m : Map Located) {l : Located} → lookup n m ≡ some l → contains n m ≡ true
unfolding contains
contains-some n m e = rw (e, contains)

-- Reading with a map that is up to date: a number that is not there costs one refresh, which finds
-- nothing new.
module _ (crc : Crc32) (files : Files) (log : Log) (post : List ℕ) (n : ℕ) (r : SegmentReader) where
  pub read-up_to_date :
      files.seg ≡ seg_magic ++ (frames crc log ++ post)
      → r.index ≡ index_from magic_len log []
      → refresh files r ≡ (ok tt, r)
      → All ItemFits log
      → read crc files n r ≡ (ok (latest n log), r)
  unfolding read read_located
  read-up_to_date seg index still items = elim (lookup-latest crc n log post) [
    | inl (away, absent) ↦
        let l : lookup n r.index ≡ none = ap (lookup n) index ∙ away in
        rw (contains-none n r.index l, still, l, absent)
    | inr (o, p, there, newest, bytes) ↦
        let l : lookup n r.index ≡ some (o, frame_header_len + length p) =
          ap (lookup n) index ∙ there in
        let b : read_at o (frame_header_len + length p) files.seg ≡ some (frame crc n p) =
          ap (read_at o (frame_header_len + length p)) seg ∙ bytes in
        rw (
          contains-some n r.index l,
          l,
          read_located,
          b,
          newest,
          check_frame-frame crc n p (latest-ItemFits n log p items newest),
        )
  ]

-- A reader that has followed the log of the files, which fits their fields, returns the newest
-- payload that was appended under a number, or nothing when there is none, and is left as it was.
-- Behind the items the segment may hold any bytes, and the index less than one entry.
pub read-reader_of :
    (crc : Crc32) (log : Log) (junk torn : List ℕ) (n : ℕ)
    → Fits log
    → length torn < idx_entry_len
    → read crc (files_of crc log junk torn) n (reader_of log) ≡ (ok (latest n log), reader_of log)
read-reader_of crc log junk torn n fits cut =
    read-up_to_date crc (files_of crc log junk torn) log junk n (reader_of log) refl refl
      (subst (λ l. refresh (files_of crc l junk torn) (reader_of log) ≡ (ok tt, reader_of l))
        (append-nil log)
        (refresh-reader_of crc log [] junk torn (subst Fits (sym (append-nil log)) fits) cut))
      fits.items

pub header_ok : (rest : List ℕ) → check_header seg_magic (seg_magic ++ rest) ≡ ok tt
unfolding check_header
header_ok rest = refl

idx_header_ok : (rest : List ℕ) → check_header idx_magic (idx_magic ++ rest) ≡ ok tt
unfolding check_header
idx_header_ok rest = refl

-- Opening the files of a log that fits their fields for reading succeeds, with a reader that has
-- followed the whole log. Behind the items the segment may hold any bytes, and the index less
-- than one entry.
pub open_reader-reader_of :
    (crc : Crc32) (log : Log) (junk torn : List ℕ)
    → Fits log
    → length torn < idx_entry_len
    → open_reader
        (record { seg = some (seg_bytes crc log ++ junk); idx = some (idx_bytes log ++ torn) })
      ≡ ok (some (reader_of log))
unfolding open_reader index_from
open_reader-reader_of crc log junk torn fits cut =
    let first : refresh (files_of crc log junk torn) (reader_of []) ≡ (ok tt, reader_of log) =
      refresh-reader_of crc [] log junk torn fits cut in
    rw (header_ok (frames crc log ++ junk), idx_header_ok (entries magic_len log ++ torn), first)
