-- ===== src/Chain/Tiering/Rows.antt =====
-- The rows of the table `segments`, which the archives of a chain share.
use polkadot_indexer_framerw.Common.{
  ℕ, ◌≡◌, refl, sym, ap, ◌∙◌, inl, inr, true, false, Option, none, some, List, [], ◌∷◌, arith,
  Bool-cases,
}
use polkadot_indexer_framerw.Common.Int.{ℤ}
use polkadot_indexer_framerw.Common.Result.{Result, ok, err, panic, Result-cases, ok_inj}
use polkadot_indexer_framerw.Store.Error.{StoreError}
use polkadot_indexer_framerw.Store.Segment.Format.{Crc32}
use polkadot_indexer_framerw.Chain.Tiering.{
  record_segment, SegmentRecord, cold_row, eq_ℤ, PassState, Tiering, TieringReport, archive_segment,
  in_store,
}
use polkadot_indexer_framerw.Store.Segments.{Segments, Tier, disk_at}
use polkadot_indexer_framerw.Store.Segments.Tiers.{
  Media, SegmentSpan, Tiered, copied, copy_into, copy_sidecar, copy_to_cold, copy_verified,
  drop_hot, span_at,
}
use polkadot_indexer_framerw.Chain.Fetch.{as_i64}

eq_ℤ-refl : (a : ℤ) → eq_ℤ a a ≡ true
eq_ℤ-refl a = ground arith

record_segment-hit :
    (r row : SegmentRecord) (rows : List SegmentRecord)
    → eq_ℤ row.from_block r.from_block ≡ true
    → record_segment r (row ∷ rows) ≡ r ∷ rows
unfolding record_segment
record_segment-hit r row rows e = rw (record_segment, e) refl

record_segment-miss :
    (r row : SegmentRecord) (rows : List SegmentRecord)
    → eq_ℤ row.from_block r.from_block ≡ false
    → record_segment r (row ∷ rows) ≡ row ∷ record_segment r rows
unfolding record_segment
record_segment-miss r row rows e = rw (record_segment, e) refl

record_segment-again :
    (a b : SegmentRecord) (rows : List SegmentRecord)
    → a.from_block ≡ b.from_block
    → record_segment b (record_segment a rows) ≡ record_segment b rows
unfolding record_segment
record_segment-again a b [] same =
    record_segment-hit b a [] (ap (λ k. eq_ℤ a.from_block k) (sym same) ∙ eq_ℤ-refl a.from_block)
record_segment-again a b (row ∷ rows) same =
    let as_b : eq_ℤ row.from_block a.from_block ≡ eq_ℤ row.from_block b.from_block =
      ap (eq_ℤ row.from_block) same in
    elim (Bool-cases (eq_ℤ row.from_block a.from_block)) [
      | inl hit ↦
          ap (record_segment b) (record_segment-hit a row rows hit)
          ∙ record_segment-hit b a rows
              (ap (λ k. eq_ℤ a.from_block k) (sym same) ∙ eq_ℤ-refl a.from_block)
          ∙ sym (record_segment-hit b row rows (sym as_b ∙ hit))
      | inr miss ↦
          ap (record_segment b) (record_segment-miss a row rows miss)
          ∙ record_segment-miss b row (record_segment a rows) (sym as_b ∙ miss)
          ∙ ap (λ l. row ∷ l) (record_segment-again a b rows same)
          ∙ sym (record_segment-miss b row rows (sym as_b ∙ miss))
    ]

-- A copy that succeeds says which segment it copied.
copied-span :
    (index : ℕ) (tier : Tier) (s : Segments) (seg_done : Result StoreError (ℕ × ℕ))
    (seg : Option (List ℕ)) (idx_done : Result StoreError ℕ) (idx : Option (List ℕ))
    (tiered : Tiered)
    → (copied index tier s (seg_done, seg) (idx_done, idx)).0 ≡ ok tiered
    → span_at s.segment_size index none ≡ tiered.span
unfolding copied
copied-span index tier s (ok (n, sum)) seg (ok m) idx tiered e =
    ap (λ (x : Tiered). x.span) (ok_inj refl e)
copied-span index tier s (ok (n, sum)) seg (err x) idx tiered e = absurd (ground (arith, e))
copied-span index tier s (ok (n, sum)) seg panic idx tiered e = absurd (ground (arith, e))
copied-span index tier s (err x) seg idx_done idx tiered e = absurd (ground (arith, e))
copied-span index tier s panic seg idx_done idx tiered e = absurd (ground (arith, e))

copy_into-span :
    (crc : Crc32) (media : Media) (index : ℕ) (s : Segments) (tier : Option Tier) (tiered : Tiered)
    → (copy_into crc media index s tier).0 ≡ ok tiered
    → span_at s.segment_size index none ≡ tiered.span
unfolding copy_into
copy_into-span crc media index s none tiered e = absurd (ground (arith, e))
copy_into-span crc media index s (some tier) tiered e =
    let seg_copy =
      copy_verified crc (media.landing index true) (disk_at index s.hot).seg
        (disk_at index tier).seg in
    let idx_copy =
      copy_sidecar crc (media.landing index false) (disk_at index s.hot).idx
        (disk_at index tier).idx in
    copied-span index tier s seg_copy.0 seg_copy.1 idx_copy.0 idx_copy.1 tiered e

copy_to_cold-span :
    (crc : Crc32) (media : Media) (index : ℕ) (s : Segments) (tiered : Tiered)
    → (copy_to_cold crc media index s).0 ≡ ok tiered
    → span_at s.segment_size index none ≡ tiered.span
unfolding copy_to_cold
copy_to_cold-span crc media index s tiered e = copy_into-span crc media index s s.cold tiered e

in_store-rows :
    (done : Result StoreError ℕ × Segments) (st : PassState) → (in_store done st).1.rows ≡ st.rows
in_store-rows (ok n, s) st = refl
in_store-rows (err e, s) st = refl
in_store-rows (panic, s) st = refl

module _ (tiering : Tiering) (span : SegmentSpan) (st : PassState) where
  abbrev copying : Result StoreError Tiered × Segments
  copying = copy_to_cold tiering.crc tiering.media span.index st.store

  archive_segment-rows :
      (tiered : Tiered)
      → copying.0 ≡ ok tiered
      → tiering.db_takes span.index ≡ true
      → (archive_segment tiering span st).1.rows ≡ record_segment (cold_row tiered) st.rows
  unfolding archive_segment
  archive_segment-rows tiered is takes =
      rw (archive_segment, is, takes)
        (in_store-rows (drop_hot tiering.media span.index copying.1) _)

  -- A segment that is archived has been copied, and the database has taken its row.
  archive_segment-took :
      (archive_segment tiering span st).0 ≡ ok tt
      → (tiered : Tiered) × (copying.0 ≡ ok tiered) × (tiering.db_takes span.index ≡ true)
  unfolding archive_segment
  archive_segment-took e = elim (Result-cases copying.0) [
    | inl (tiered, is) ↦ elim (Bool-cases (tiering.db_takes span.index)) [
      | inl takes ↦ (tiered, is, takes)
      | inr refuses ↦ absurd (ground (arith, rw (is, refuses, archive_segment) at e))
    ]
    | inr (inl (x, is)) ↦ absurd (ground (arith, rw (is, archive_segment) at e))
    | inr (inr is) ↦ absurd (ground (arith, rw (is, archive_segment) at e))
  ]

-- The archives of a chain share the table. When a segment of the blocks is archived, and then the segment
-- of the same index of the read cache, whose segments have the same size, the table is as if the
-- blocks' segment had never been recorded.
pub record_segment-twice :
    (tiering : Tiering) (span span' : SegmentSpan) (blocks : PassState) (storage : Segments)
    (report : TieringReport)
    → span.index ≡ span'.index
    → blocks.store.segment_size ≡ storage.segment_size
    → (archive_segment tiering span blocks).0 ≡ ok tt
    → (archive_segment tiering span' (record {
      store = storage;
      rows = (archive_segment tiering span blocks).1.rows;
      report = report;
    })).0
      ≡ ok tt
    → (archive_segment tiering span' (record {
      store = storage;
      rows = (archive_segment tiering span blocks).1.rows;
      report = report;
    })).1.rows
      ≡ (archive_segment tiering span'
          (record { store = storage; rows = blocks.rows; report = report })).1.rows
record_segment-twice tiering span span' blocks storage report index size e e' =
    let recorded : PassState = record {
      store = storage;
      rows = (archive_segment tiering span blocks).1.rows;
      report = report;
    } in
    let never : PassState = record { store = storage; rows = blocks.rows; report = report } in
    let (a, copied_a, takes_a) = archive_segment-took tiering span blocks e in
    let (b, copied_b, takes_b) = archive_segment-took tiering span' recorded e' in
    let span_a = copy_to_cold-span tiering.crc tiering.media span.index blocks.store a copied_a in
    let span_b = copy_to_cold-span tiering.crc tiering.media span'.index storage b copied_b in
    let key : a.span.from_block ≡ b.span.from_block =
      ap (λ (x : SegmentSpan). x.from_block) (sym span_a)
      ∙ (λ i. (span_at (size i) (index i) none).from_block)
      ∙ ap (λ (x : SegmentSpan). x.from_block) span_b in
    archive_segment-rows tiering span' recorded b copied_b takes_b
    ∙ ap (record_segment (cold_row b)) (archive_segment-rows tiering span blocks a copied_a takes_a)
    ∙ record_segment-again (cold_row a) (cold_row b) blocks.rows (ap as_i64 key)
    ∙ sym (archive_segment-rows tiering span' never b copied_b takes_b)
