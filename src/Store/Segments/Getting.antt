-- ===== src/Store/Segments/Getting.antt =====
-- Reading a record: what `get` answers from the log of its segment, on either tier, and around a put.
use polkadot_indexer_framerw.Common.{
  ℕ, ◌<◌, ◌≡◌, refl, ap, ◌∙◌, ◌⊎◌, inl, inr, Bool, true, Option, none, some, List, arith,
  if◌then◌else◌, length,
}
use polkadot_indexer_framerw.Store.Segment.Format.{Crc32, Log, Fits}
use polkadot_indexer_framerw.Store.Segment.Reader.{open_reader, SegmentReader, read}
use polkadot_indexer_framerw.Store.Layout.{segment_index}
use polkadot_indexer_framerw.Store.Segment.{Disk, idx_entry_len}
use polkadot_indexer_framerw.Common.Result.{ok}
use polkadot_indexer_framerw.Store.Segments.{
  Segments, CachedReader, Zstd, locate, slot_files, reader_for, open_slot, get, read_record,
  decompressed, disk_at, files_of_disk, locate_in, cold_at,
}
use polkadot_indexer_framerw.Store.Segments.Holding.{disk_with, reader_at, HotLog}
use polkadot_indexer_framerw.Store.Segment.Reading.{
  files_of, open_reader-reader_of, read-reader_of, reader_of,
}
use polkadot_indexer_framerw.Store.Segment.Located.{latest}

pub record Shows (crc : Crc32) (i : ℕ) (log : Log) (hot : Bool) (s : Segments) : Type 0 where
  pub junk : List ℕ
  pub torn : List ℕ
  pub located : locate i s ≡ some (disk_with crc log junk torn, hot)
  pub stored : slot_files (reader_at i log hot) s ≡ files_of crc log junk torn
  pub cut : length torn < idx_entry_len
  pub fits : Fits log
  pub reader : (reader_for i s.reader ≡ none) ⊎ (reader_for i s.reader ≡ some (reader_at i log hot))

reader_for-some :
    (i : ℕ) (slot : Option CachedReader) (r : CachedReader)
    → reader_for i slot ≡ some r
    → slot ≡ some r
reader_for-some i none r e = ground arith
reader_for-some i (some q) r e = ground arith

-- The store with this reader in the slot.
abbrev pub reading : CachedReader → Segments → Segments
reading r s = record s { reader = some r }

module _ (i : ℕ) (s : Segments) (r : CachedReader) where
  open_slot-has : reader_for i s.reader ≡ some r → open_slot i s ≡ (ok (some r), reading r s)
  unfolding open_slot
  open_slot-has e =
      rw (e, open_slot) (λ k. (ok (some r), record s { reader = reader_for-some i s.reader r e k }))

module _ (i : ℕ) (s : Segments) (disk : Disk) (hot : Bool) (inner : SegmentReader) where
  open_slot-opens :
      reader_for i s.reader ≡ none
      → locate i s ≡ some (disk, hot)
      → open_reader disk ≡ ok (some inner)
      → open_slot i s ≡ (
        ok (some (record { index = i; inner = inner; hot = hot })),
        reading (record { index = i; inner = inner; hot = hot }) s,
      )
  unfolding open_slot
  open_slot-opens shut there opened = rw (shut, there, opened, open_slot) refl

module _ (crc : Crc32) (i : ℕ) (log : Log) (hot : Bool) (s : Segments) where
  pub Shows-open :
      Shows crc i log hot s
      → open_slot i s ≡ (ok (some (reader_at i log hot)), reading (reader_at i log hot) s)
  Shows-open h = elim h.reader [
    | inl shut ↦
        open_slot-opens i s (disk_with crc log h.junk h.torn) hot (reader_of log) shut h.located
          (open_reader-reader_of crc log h.junk h.torn h.fits h.cut)
    | inr there ↦ open_slot-has i s (reader_at i log hot) there
  ]

module _ (crc : Crc32) (zstd : Zstd) where
  get-opened :
      (n : ℕ) (r : CachedReader) (s s' : Segments)
      → open_slot (segment_index n s.segment_size) s ≡ (ok (some r), s')
      → get crc zstd n s ≡ read_record crc zstd n r s'
  unfolding get
  get-opened n r s s' done = rw (ap (λ p. p.0) done, ap (λ p. p.1) done, get) refl

  read_record-found :
      (n : ℕ) (r : CachedReader) (s : Segments) (found : Option (List ℕ))
      → read crc (slot_files r s) n r.inner ≡ (ok found, r.inner)
      → read_record crc zstd n r s ≡ (decompressed crc zstd (ok found), reading r s)
  unfolding read_record
  read_record-found n r s found done = rw (ap (λ p. p.0) done, ap (λ p. p.1) done, read_record) refl

  -- Reading a number of a segment that a tier shows with this log gives the newest payload under
  -- that number, decompressed; only the reader's slot changes.
  pub get-Shows :
      (n : ℕ) (log : Log) (hot : Bool) (s : Segments)
      → Shows crc (segment_index n s.segment_size) log hot s
      → get crc zstd n s ≡ (
        decompressed crc zstd (ok (latest n log)),
        reading (reader_at (segment_index n s.segment_size) log hot) s,
      )
  get-Shows n log hot s h =
      let r = reader_at (segment_index n s.segment_size) log hot in
      get-opened n r s (reading r s) (Shows-open crc (segment_index n s.segment_size) log hot s h)
      ∙ read_record-found n r (reading r s) (latest n log) (
          ap (λ f. read crc f n (reader_of log)) h.stored
          ∙ read-reader_of crc log h.junk h.torn n h.fits h.cut)

-- A hot log is shown to readers, on the hot tier.
pub HotLog-Shows :
    (crc : Crc32) (i : ℕ) (log : Log) (s : Segments) → HotLog crc i log s → Shows crc i log true s
unfolding locate locate_in
HotLog-Shows crc i log s h = record {
  junk = h.junk;
  torn = h.torn;
  located = ap (λ d. locate_in d (cold_at i s.cold)) h.disk;
  stored = ap files_of_disk h.disk;
  cut = h.cut;
  fits = h.fits;
  reader = h.reader;
}

module _ (crc : Crc32) (j : ℕ) (log : Log) (s t : Segments) where
  -- What a tier shows is not changed where the files are the same and no other reader comes in.
  pub Shows-same :
      (hot : Bool)
      → disk_at j t.hot ≡ disk_at j s.hot
      → cold_at j t.cold ≡ cold_at j s.cold
      → (reader_for j t.reader ≡ none) ⊎ (reader_for j t.reader ≡ reader_for j s.reader)
      → Shows crc j log hot s
      → Shows crc j log hot t
  unfolding locate
  Shows-same hot same cold readers h = record {
    junk = h.junk;
    torn = h.torn;
    located = (λ k. locate_in (same k) (cold k)) ∙ h.located;
    stored = (λ k. files_of_disk (if hot then same k else cold k)) ∙ h.stored;
    cut = h.cut;
    fits = h.fits;
    reader = elim readers [
      | inl gone ↦ inl gone
      | inr e ↦ elim h.reader [ inl e' ↦ inl (e ∙ e') | inr e' ↦ inr (e ∙ e') ]
    ];
  }
