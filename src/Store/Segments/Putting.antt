-- ===== src/Store/Segments/Putting.antt =====
-- Putting a record: the log of its segment grows by it, and every handle follows.
use polkadot_indexer_framerw.Common.{
  ℕ, ◌≡◌, refl, sym, ap, ◌∙◌, ◌≢◌, ◌⊎◌, inl, inr, true, false, Option, none, some, List, [], ◌∷◌,
  ◌++◌, arith, ==_refl,
}
use polkadot_indexer_framerw.Common.Result.{ok}
use polkadot_indexer_framerw.Common.Map.{insert}
use polkadot_indexer_framerw.Store.Layout.{segment_index}
use polkadot_indexer_framerw.Store.Segment.Format.{Crc32, Log, Fits}
use polkadot_indexer_framerw.Store.Segment.Files.{disk_of_log}
use polkadot_indexer_framerw.Store.Segment.Writer.{SegmentWriter, append}
use polkadot_indexer_framerw.Store.Segment.Recovery.{writer_of, append-writer_of}
use polkadot_indexer_framerw.Store.Segment.Reader.{SegmentReader, refresh}
use polkadot_indexer_framerw.Store.Segment.Reading.{reader_of, refresh-reader_of}
use polkadot_indexer_framerw.Store.Segments.{
  no_files, files_of_disk, Segments, CachedReader, Zstd, disk_at, writer_for, reader_for, put,
  append_record, top_up, ready_writer,
}
use polkadot_indexer_framerw.Store.Segments.Holding.{
  absent-Ready, HotLog-Ready, disk_at-other, disk_at-insert_self, open_reader_at, disk_with-nil,
  HotLog, Ready,
}

-- The store after an append to the files of a segment.
abbrev pub appended : ℕ → SegmentWriter → Segments → Segments
appended i w s = record s {
  hot = insert i (record { seg = some w.seg.bytes; idx = some w.idx.bytes }) s.hot;
  writer = some (i, w);
}

module _ (crc : Crc32) (zstd : Zstd) where
  append_record-ok :
      (i n : ℕ) (c : List ℕ) (w w' : SegmentWriter) (s : Segments)
      → append crc n c w ≡ (ok tt, w')
      → append_record crc zstd i n c w s ≡ top_up i (appended i w' s)
  unfolding append_record
  append_record-ok i n c w w' s done =
      rw (ap (λ p. p.0) done, ap (λ p. p.1) done, append_record) refl

  put-ready :
      (n : ℕ) (p : List ℕ) (w : SegmentWriter) (s s' : Segments)
      → ready_writer (segment_index n s.segment_size) s ≡ (ok w, s')
      → put crc zstd n p s
        ≡ append_record crc zstd (segment_index n s.segment_size) n (zstd.encode p) w s'
  unfolding put
  put-ready n p w s s' done = rw (ap (λ p. p.0) done, ap (λ p. p.1) done, put) refl

-- Reading on through the files of a longer log.
refresh-more :
    (crc : Crc32) (log more : Log)
    → Fits (log ++ more)
    → refresh (files_of_disk (disk_of_log crc (log ++ more))) (reader_of log)
      ≡ (ok tt, reader_of (log ++ more))
refresh-more crc log more fits =
    ap (λ d. refresh (files_of_disk d) (reader_of log)) (sym (disk_with-nil crc (log ++ more)))
    ∙ refresh-reader_of crc log more [] [] fits (omega arith)

module _ (i : ℕ) (s : Segments) where
  top_up-none : reader_for i s.reader ≡ none → top_up i s ≡ (ok tt, s)
  unfolding top_up
  top_up-none e = rw (e, top_up) refl

  top_up-hot :
      (r r' : SegmentReader)
      → reader_for i s.reader ≡ some (record { index = i; inner = r; hot = true })
      → refresh (files_of_disk (disk_at i s.hot)) r ≡ (ok tt, r')
      → top_up i s
        ≡ (ok tt, record s { reader = some (record { index = i; inner = r'; hot = true }) })
  unfolding top_up
  top_up-hot r r' e done = rw (e, ap (λ p. p.0) done, ap (λ p. p.1) done, top_up) refl

  top_up-cold :
      (r : CachedReader)
      → reader_for i s.reader ≡ some r
      → r.hot ≡ false
      → top_up i s ≡ (ok tt, record s { reader = none })
  unfolding top_up
  top_up-cold r e cold = rw (e, cold, top_up) refl

-- The readers that a put may meet in the slot.
abbrev pub SlotFits : ℕ → Log → Segments → Type 0
SlotFits i log s =
    (reader_for i s.reader ≡ none)
    ⊎ (reader_for i s.reader ≡ some (open_reader_at i log))
    ⊎ ((r : CachedReader) × (reader_for i s.reader ≡ some r) × (r.hot ≡ false))

-- The store after a put into segment `i`, which then holds `log`.
pub record Put (crc : Crc32) (i : ℕ) (log : Log) (s t : Segments) : Type 0 where
  pub held : HotLog crc i log t
  pub same_cold : t.cold ≡ s.cold
  pub same_size : t.segment_size ≡ s.segment_size
  pub others : (j : ℕ) → i ≢ j → disk_at j t.hot ≡ disk_at j s.hot
  pub writers : (j : ℕ) → i ≢ j → writer_for j t.writer ≡ none
  pub readers :
      (j : ℕ)
      → i ≢ j
      → (reader_for j t.reader ≡ none) ⊎ (reader_for j t.reader ≡ reader_for j s.reader)

module _ (crc : Crc32) (i : ℕ) (log : Log) (s s' : Segments) where
  -- The store between the append and the topping up of the reader.
  abbrev between : Segments
  between = appended i (writer_of crc log) s'

  between-disk : disk_at i between.hot ≡ disk_of_log crc log
  between-disk = disk_at-insert_self i (disk_of_log crc log) s'.hot

  between-Put :
      (slot : Option CachedReader)
      → Fits log
      → s'.cold ≡ s.cold
      → s'.segment_size ≡ s.segment_size
      → ((j : ℕ) → i ≢ j → disk_at j s'.hot ≡ disk_at j s.hot)
      → ((reader_for i slot ≡ none) ⊎ (reader_for i slot ≡ some (open_reader_at i log)))
      → ((j : ℕ) → i ≢ j → (reader_for j slot ≡ none) ⊎ (reader_for j slot ≡ reader_for j s.reader))
      → Put crc i log s (record between { reader = slot })
  between-Put slot fits cold size others own readers = record {
    held = record {
      junk = [];
      torn = [];
      disk = between-disk ∙ sym (disk_with-nil crc log);
      cut = omega arith;
      fits = fits;
      writer = inr (rw (==_refl i), refl, refl);
      reader = own;
    };
    same_cold = cold;
    same_size = size;
    others = λ j ne. disk_at-other i s j (disk_of_log crc log) s'.hot ne ∙ others j ne;
    writers = λ j ne. ground arith;
    readers = readers;
  }

reader_for-index :
    (i j : ℕ) (slot : Option CachedReader) (r : CachedReader)
    → i ≢ j
    → reader_for i slot ≡ some r
    → reader_for j slot ≡ none
reader_for-index i j none r ne e = refl
reader_for-index i j (some q) r ne e = ground arith

module _ (crc : Crc32) (i n : ℕ) (c : List ℕ) (log : Log) (s s' : Segments) where
  -- The append and the topping up, from a store whose writer is ready.
  append_record-Put :
      Ready crc i log s s'
      → Fits (log ++ (n, c) ∷ [])
      → SlotFits i log s
      → (zstd : Zstd)
      → (t : Segments) × (append_record crc zstd i n c (writer_of crc log) s' ≡ (ok tt, t))
        × Put crc i (log ++ (n, c) ∷ []) s t
  append_record-Put ready fits slot zstd =
      let log' = log ++ (n, c) ∷ [] in
      let mid = between crc i log' s s' in
      let put_of = between-Put crc i log' s s' in
      let wrote =
        append_record-ok crc zstd i n c (writer_of crc log) (writer_of crc log') s'
          (append-writer_of crc log n c fits) in
      let slot_same : (j : ℕ) → reader_for j s'.reader ≡ reader_for j s.reader =
        λ j. ap (reader_for j) ready.same_reader in
      elim slot [
        | inl none_open ↦ (
          mid,
          wrote ∙ top_up-none i mid (slot_same i ∙ none_open),
          put_of s'.reader fits ready.same_cold ready.same_size ready.others
              (inl (slot_same i ∙ none_open)) (λ j ne. inr (slot_same j)),
        )
        | inr (inl hot_open) ↦
            let r : CachedReader = open_reader_at i log' in
            (
              record mid { reader = some r },
              wrote
                  ∙ top_up-hot i mid (reader_of log) (reader_of log') (slot_same i ∙ hot_open) (
                      ap (λ d. refresh (files_of_disk d) (reader_of log))
                        (between-disk crc i log' s s')
                      ∙ refresh-more crc log ((n, c) ∷ []) fits),
              put_of (some r) fits ready.same_cold ready.same_size ready.others
                  (inr (rw (==_refl i))) (λ j ne. inl (ground arith)),
            )
        | inr (inr (r, cold_open, is_cold)) ↦ (
          record mid { reader = none },
          wrote ∙ top_up-cold i mid r (slot_same i ∙ cold_open) is_cold,
          put_of none fits ready.same_cold ready.same_size ready.others (inl refl)
              (λ j ne. inl refl),
        )
      ]

module _ (crc : Crc32) (zstd : Zstd) where
  -- A put into a segment that the hot tier holds adds the record to its log.
  pub put-HotLog :
      (n : ℕ) (p : List ℕ) (log : Log) (s : Segments)
      → HotLog crc (segment_index n s.segment_size) log s
      → Fits (log ++ (n, zstd.encode p) ∷ [])
      → (t : Segments) × (put crc zstd n p s ≡ (ok tt, t))
        × Put crc (segment_index n s.segment_size) (log ++ (n, zstd.encode p) ∷ []) s t
  put-HotLog n p log s h fits =
      let i = segment_index n s.segment_size in
      let (s', ready) = HotLog-Ready crc i log s h in
      let slot : SlotFits i log s = elim h.reader [ inl e ↦ inl e | inr e ↦ inr (inl e) ] in
      let (t, wrote, after) =
        append_record-Put crc i n (zstd.encode p) log s s' ready fits slot zstd in
      (t, put-ready crc zstd n p (writer_of crc log) s s' ready.done ∙ wrote, after)

  -- A put into a segment that the hot tier does not hold starts an empty log there.
  pub put-absent :
      (n : ℕ) (p : List ℕ) (s : Segments)
      → writer_for (segment_index n s.segment_size) s.writer ≡ none
      → disk_at (segment_index n s.segment_size) s.hot ≡ no_files
      → ((reader_for (segment_index n s.segment_size) s.reader ≡ none)
          ⊎ ((r : CachedReader) × (reader_for (segment_index n s.segment_size) s.reader ≡ some r)
              × (r.hot ≡ false)))
      → Fits ((n, zstd.encode p) ∷ [])
      → (t : Segments) × (put crc zstd n p s ≡ (ok tt, t))
        × Put crc (segment_index n s.segment_size) ((n, zstd.encode p) ∷ []) s t
  put-absent n p s shut gone slot fits =
      let i = segment_index n s.segment_size in
      let (s', ready) = absent-Ready crc i s shut gone in
      let slot' : SlotFits i [] s = elim slot [ inl e ↦ inl e | inr e ↦ inr (inr e) ] in
      let (t, wrote, after) =
        append_record-Put crc i n (zstd.encode p) [] s s' ready fits slot' zstd in
      (t, put-ready crc zstd n p (writer_of crc []) s s' ready.done ∙ wrote, after)

-- Another hot segment keeps its log.
pub Put-other :
    (crc : Crc32) (i j : ℕ) (log other : Log) (s t : Segments)
    → Put crc i log s t
    → i ≢ j
    → HotLog crc j other s
    → HotLog crc j other t
Put-other crc i j log other s t p ne h = record {
  junk = h.junk;
  torn = h.torn;
  disk = p.others j ne ∙ h.disk;
  cut = h.cut;
  fits = h.fits;
  writer = inl (p.writers j ne);
  reader = elim (p.readers j ne) [
    | inl gone ↦ inl gone
    | inr same ↦ elim h.reader [ inl e ↦ inl (same ∙ e) | inr e ↦ inr (same ∙ e) ]
  ];
}
