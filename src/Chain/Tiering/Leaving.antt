-- ===== src/Chain/Tiering/Leaving.antt =====
-- A move that succeeds takes its segment off the hot tier, and no other.
use polkadot_indexer_framerw.Common.{
  ℕ, ◌≡◌, refl, sym, ap, subst, ◌∙◌, ◌≢◌, inl, inr, false, none, arith, Bool-cases,
}
use polkadot_indexer_framerw.Common.Result.{Result, ok, err, panic, Result-cases}
use polkadot_indexer_framerw.Store.Error.{StoreError}
use polkadot_indexer_framerw.Chain.Tiering.{
  record_segment, OnDigest, PassState, Tiering, archive_it, archive_segment, cold_row, delete_it,
  delete_segment, in_store, keep_it, keeps, move_by,
}
use polkadot_indexer_framerw.Store.Segments.Tiers.{SegmentSpan, copy_to_cold, drop_hot}
use polkadot_indexer_framerw.Store.Segments.{Segments, disk_at}
use polkadot_indexer_framerw.Chain.Tiering.Keeps.{in_store-store}
use polkadot_indexer_framerw.Store.Segments.Kept.{copy_to_cold-After}
use polkadot_indexer_framerw.Store.Segments.Moved.{drop_hot-After, drop_hot-gone}

-- A segment has left the hot tier, and no other.
pub record LeavesHot (i : ℕ) (s t : Segments) : Type 0 where
  pub same_size : t.segment_size ≡ s.segment_size
  pub others : (j : ℕ) → i ≢ j → disk_at j t.hot ≡ disk_at j s.hot
  pub gone : (disk_at i t.hot).seg ≡ none

in_store-ok :
    (done : Result StoreError ℕ × Segments) (st : PassState) (u : Unit {0})
    → (in_store done st).0 ≡ ok u
    → (n : ℕ) × (done.0 ≡ ok n)
in_store-ok (ok n, s) st u e = (n, refl)
in_store-ok (err e', s) st u e = absurd (ground arith)
in_store-ok (panic, s) st u e = absurd (ground arith)

module _ (tiering : Tiering) (span : SegmentSpan) (st : PassState) (u : Unit {0}) where
  abbrev copied_store : Segments
  copied_store = (copy_to_cold tiering.crc tiering.media span.index st.store).1

  archive_segment-ok :
      (archive_segment tiering span st).0 ≡ ok u
      → ((n : ℕ) × ((drop_hot tiering.media span.index copied_store).0 ≡ ok n))
        × ((archive_segment tiering span st).1.store
            ≡ (drop_hot tiering.media span.index copied_store).1)
  unfolding archive_segment
  archive_segment-ok e =
      elim (Result-cases (copy_to_cold tiering.crc tiering.media span.index st.store).0) [
        | inl (tiered, is) ↦ elim (Bool-cases (tiering.db_takes span.index)) [
          | inl takes ↦
              let removal = drop_hot tiering.media span.index copied_store in
              let after : PassState = record st {
                store = copied_store;
                rows = record_segment (cold_row tiered) st.rows;
              } in
              let went : archive_segment tiering span st ≡ in_store removal after =
                rw (archive_segment, is, takes) refl in
              (
                in_store-ok removal after u (sym (ap (λ p. p.0) went) ∙ e),
                ap (λ p. p.1.store) went ∙ in_store-store removal after,
              )
          | inr refuses ↦ absurd (ground (arith, is, refuses))
        ]
        | inr (inl (error, is)) ↦ absurd (ground (arith, is))
        | inr (inr is) ↦ absurd (ground (arith, is))
      ]

  delete_segment-ok :
      (delete_segment tiering span st).0 ≡ ok u
      → ((n : ℕ) × ((drop_hot tiering.media span.index st.store).0 ≡ ok n))
        × ((delete_segment tiering span st).1.store
            ≡ (drop_hot tiering.media span.index st.store).1)
  unfolding delete_segment
  delete_segment-ok e =
      let removal = drop_hot tiering.media span.index st.store in
      elim (Result-cases (in_store removal st).0) [
        | inl (v, is) ↦ elim (Bool-cases (tiering.db_takes span.index)) [
          | inl takes ↦ (
            in_store-ok removal st v is,
            rw (delete_segment, is, takes) (in_store-store removal st),
          )
          | inr refuses ↦ absurd (ground (arith, is, refuses))
        ]
        | inr (inl (error, is)) ↦ absurd (ground (arith, is))
        | inr (inr is) ↦ absurd (ground (arith, is))
      ]

  dropped-LeavesHot :
      (s t : Segments) (n : ℕ)
      → (drop_hot tiering.media span.index s).0 ≡ ok n
      → t ≡ (drop_hot tiering.media span.index s).1
      → LeavesHot span.index s t
  dropped-LeavesHot s t n e is =
      let after = drop_hot-After tiering.crc tiering.media span.index s in
      subst (LeavesHot span.index s) (sym is) (record {
        same_size = after.same_size;
        others = after.others;
        gone = drop_hot-gone tiering.crc tiering.media span.index s n e;
      })

  pub move_by-LeavesHot :
      (o : OnDigest)
      → keeps o ≡ false
      → (move_by o tiering span st).0 ≡ ok u
      → LeavesHot span.index st.store (move_by o tiering span st).1.store
  unfolding move_by
  move_by-LeavesHot archive_it k e =
      let went = archive_segment-ok e in
      let copy = copy_to_cold-After tiering.crc tiering.media span.index st.store in
      let left = dropped-LeavesHot copied_store _ went.0.0 went.0.1 went.1 in
      record {
        same_size = left.same_size ∙ copy.same_size;
        others = λ j ne. left.others j ne ∙ ap (disk_at j) copy.same_hot;
        gone = left.gone;
      }
  move_by-LeavesHot delete_it k e =
      let went = delete_segment-ok e in dropped-LeavesHot st.store _ went.0.0 went.0.1 went.1
  move_by-LeavesHot keep_it k e = absurd (ground arith)
