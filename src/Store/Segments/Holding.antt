-- ===== src/Store/Segments/Holding.antt =====
-- What a hot segment of the store holds: a log, which its files, and the handles that are open on them,
-- all stand for.
use polkadot_indexer_framerw.Common.{
  ℕ, ◌<◌, ◌≡◌, refl, sym, ap, ◌∙◌, ◌≢◌, ◌⊎◌, inl, inr, Bool, true, none, some, List, [], ◌∷◌, ◌++◌,
  append-nil, arith, ◌==◌, if◌then◌else◌, ==_refl, length,
}
use polkadot_indexer_framerw.Common.Result.{ok}
use polkadot_indexer_framerw.Common.Map.{insert, lookup-insert}
use polkadot_indexer_framerw.Store.Segment.{Disk, idx_entry_len}
use polkadot_indexer_framerw.Store.Segment.Format.{Crc32, Log, Fits}
use polkadot_indexer_framerw.Store.Segment.Files.{seg_bytes, idx_bytes, disk_of_log}
use polkadot_indexer_framerw.Store.Segment.Writer.{SegmentWriter, open_writer}
use polkadot_indexer_framerw.Store.Segment.Recovery.{
  open_writer_fresh, writer_of, open_writer-recovers,
}
use polkadot_indexer_framerw.Store.Segment.Reading.{reader_of}
use polkadot_indexer_framerw.Store.Segment.Located.{latest}
use polkadot_indexer_framerw.Store.Segments.{
  no_files, ready_writer, Segments, CachedReader, Tier, disk_at, writer_for, reader_for,
}

pub disk_at-insert :
    (i j : ℕ) (disk : Disk) (tier : Tier)
    → disk_at j (insert i disk tier) ≡ (if i == j then disk else disk_at j tier)
unfolding disk_at
disk_at-insert i j disk tier = ground (arith, lookup-insert tier i disk j)

pub disk_at-insert_self :
    (i : ℕ) (disk : Disk) (tier : Tier) → disk_at i (insert i disk tier) ≡ disk
disk_at-insert_self i disk tier = disk_at-insert i i disk tier ∙ rw (==_refl i)

pub latest-append :
    (k n : ℕ) (log : Log) (c : List ℕ)
    → latest k (log ++ (n, c) ∷ []) ≡ (if n == k then some c else latest k log)
unfolding latest
latest-append k n [] c = refl
latest-append k n ((m, d) ∷ log) c = ground (arith, latest-append k n log c)

-- The files of a log, with what a crash may have left behind it.
abbrev pub disk_with : Crc32 → Log → List ℕ → List ℕ → Disk
disk_with crc log junk torn = record {
  seg = some (seg_bytes crc log ++ junk);
  idx = some (idx_bytes log ++ torn);
}

pub disk_with-nil : (crc : Crc32) (log : Log) → disk_with crc log [] [] ≡ disk_of_log crc log
disk_with-nil crc log = λ i. record {
  seg = some (append-nil (seg_bytes crc log) i);
  idx = some (append-nil (idx_bytes log) i);
}

abbrev pub open_reader_at : ℕ → Log → CachedReader
open_reader_at i log = record { index = i; inner = reader_of log; hot = true }

abbrev pub reader_at : ℕ → Log → Bool → CachedReader
reader_at i log hot = record { index = i; inner = reader_of log; hot = hot }

module _ (i : ℕ) (s : Segments) where
  ready_writer-opens :
      (w : SegmentWriter) (d : Disk)
      → writer_for i s.writer ≡ none
      → open_writer (disk_at i s.hot) ≡ (ok w, d)
      → ready_writer i s ≡ (ok w, record s { hot = insert i d s.hot; writer = some (i, w) })
  unfolding ready_writer
  ready_writer-opens w d shut opened =
      rw (shut, ap (λ p. p.0) opened, ap (λ p. p.1) opened, ready_writer) refl

  ready_writer-has :
      (w : SegmentWriter) → writer_for i s.writer ≡ some w → ready_writer i s ≡ (ok w, s)
  unfolding ready_writer
  ready_writer-has w open_already = rw (open_already, ready_writer) refl

  pub disk_at-other :
      (j : ℕ) (d : Disk) (tier : Tier) → i ≢ j → disk_at j (insert i d tier) ≡ disk_at j tier
  disk_at-other j d tier ne = ground (arith, disk_at-insert i j d tier)

module _ (crc : Crc32) where
  pub record HotLog (i : ℕ) (log : Log) (s : Segments) : Type 0 where
    pub junk : List ℕ
    pub torn : List ℕ
    pub disk : disk_at i s.hot ≡ disk_with crc log junk torn
    pub cut : length torn < idx_entry_len
    pub fits : Fits log
    pub writer :
        (writer_for i s.writer ≡ none)
        ⊎ ((writer_for i s.writer ≡ some (writer_of crc log)) × (junk ≡ []) × (torn ≡ []))
    pub reader :
        (reader_for i s.reader ≡ none) ⊎ (reader_for i s.reader ≡ some (open_reader_at i log))

  -- The store once a writer of the segment is ready.
  pub record Ready (i : ℕ) (log : Log) (s s' : Segments) : Type 0 where
    pub done : ready_writer i s ≡ (ok (writer_of crc log), s')
    pub same_reader : s'.reader ≡ s.reader
    pub same_cold : s'.cold ≡ s.cold
    pub same_size : s'.segment_size ≡ s.segment_size
    pub others : (j : ℕ) → i ≢ j → disk_at j s'.hot ≡ disk_at j s.hot

  Ready-opens :
      (i : ℕ) (w : SegmentWriter) (d : Disk) (log : Log) (s : Segments)
      → writer_of crc log ≡ w
      → writer_for i s.writer ≡ none
      → open_writer (disk_at i s.hot) ≡ (ok w, d)
      → Ready i log s (record s { hot = insert i d s.hot; writer = some (i, w) })
  Ready-opens i w d log s same shut opened = record {
    done = ready_writer-opens i s w d shut opened ∙ λ k.
        (ok (sym same k), record s { hot = insert i d s.hot; writer = some (i, w) });
    same_reader = refl;
    same_cold = refl;
    same_size = refl;
    others = λ j ne. disk_at-other i s j d s.hot ne;
  }

  -- A segment that is held, or that does not exist yet, gets a writer at the end of its log.
  pub HotLog-Ready :
      (i : ℕ) (log : Log) (s : Segments) → HotLog i log s → (s' : Segments) × Ready i log s s'
  HotLog-Ready i log s h = elim h.writer [
    | inl shut ↦ (
      _,
      Ready-opens i (writer_of crc log) (disk_of_log crc log) log s refl shut
          (ap open_writer h.disk ∙ open_writer-recovers crc log h.junk h.torn h.fits h.cut),
    )
    | inr already ↦ (
      s,
      record {
        done = ready_writer-has i s (writer_of crc log) already.0;
        same_reader = refl;
        same_cold = refl;
        same_size = refl;
        others = λ j ne. refl;
      },
    )
  ]

  pub absent-Ready :
      (i : ℕ) (s : Segments)
      → writer_for i s.writer ≡ none
      → disk_at i s.hot ≡ no_files
      → (s' : Segments) × Ready i [] s s'
  absent-Ready i s shut gone = (
    _,
    Ready-opens i (writer_of crc []) (disk_of_log crc []) [] s refl shut
        (ap open_writer gone ∙ open_writer_fresh crc),
  )
