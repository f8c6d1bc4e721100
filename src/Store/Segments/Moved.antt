-- ===== src/Store/Segments/Moved.antt =====
-- One segment copied and removed: what every tier shows of every segment.
use polkadot_indexer_framerw.Common.{
  ℕ, ◌≡◌, refl, sym, ap, subst, ◌∙◌, ◌≢◌, ◌⊎◌, inl, inr, Bool, true, false, Option, none, some,
  List, arith, length,
}
use polkadot_indexer_framerw.Common.Result.{Result, ok, err, panic}
use polkadot_indexer_framerw.Store.Error.{StoreError, io}
use polkadot_indexer_framerw.Store.Segment.Format.{Crc32, Log}
use polkadot_indexer_framerw.Store.Segment.{Disk}
use polkadot_indexer_framerw.Store.Segments.Tiers.{
  Media, drop_hot, dropped, remove, with_hot, without_handles, reader_without,
}
use polkadot_indexer_framerw.Store.Segments.{
  Segments, cold_at, disk_at, reader_for, CachedReader, locate,
}
use polkadot_indexer_framerw.Store.Segments.Getting.{Shows, Shows-same}
use polkadot_indexer_framerw.Store.Segments.Kept.{
  copy_to_cold-absent, copy_to_cold-After, Shows-hot, after_copy, located_cold, Shows-moved,
}
use polkadot_indexer_framerw.Store.Segments.Holding.{disk_at-insert_self, disk_at-other, disk_with}
use native.Mathlib.Decide.{ℕ_discrete}

reader_without-other :
    (i j : ℕ) (slot : Option CachedReader)
    → (reader_for j (reader_without i slot) ≡ none)
      ⊎ (reader_for j (reader_without i slot) ≡ reader_for j slot)
reader_without-other i j none = inl refl
reader_without-other i j (some r) = ground arith

reader_without-own :
    (i : ℕ) (slot : Option CachedReader) → reader_for i (reader_without i slot) ≡ none
reader_without-own i none = refl
reader_without-own i (some r) = ground arith

module _ (crc : Crc32) (media : Media) (i : ℕ) (s : Segments) where
  -- A copy, whatever comes of it, changes nothing that is shown.
  pub copy_to_cold-Shows :
      (j : ℕ) (log : Log) (hot : Bool)
      → Shows crc j log hot s
      → Shows crc j log hot (after_copy crc media i s)
  unfolding locate
  copy_to_cold-Shows j log true h =
      let after = copy_to_cold-After crc media i s in
      Shows-hot crc j log s (after_copy crc media i s) (ap (disk_at j) after.same_hot)
        (inr (ap (reader_for j) after.same_reader)) h
  copy_to_cold-Shows j log false h =
      let after = copy_to_cold-After crc media i s in
      let t = after_copy crc media i s in
      let disk = disk_with crc log h.junk h.torn in
      let gone = (located_cold (disk_at j s.hot) (cold_at j s.cold) disk h.located).0 in
      let cold : cold_at j t.cold ≡ cold_at j s.cold = elim (ℕ_discrete i j) [
        | yes e ↦
            subst (λ k. cold_at k t.cold ≡ cold_at k s.cold) e
              (copy_to_cold-absent crc media i s (ap (λ k. (disk_at k s.hot).seg) e ∙ gone)).1
        | no ne ↦ after.others j ne
      ] in
      Shows-same crc j log s t false (ap (disk_at j) after.same_hot) cold
        (inr (ap (reader_for j) after.same_reader)) h

  -- The store after a removal, whatever came of it.
  pub record AfterDrop (t : Segments) : Type 0 where
    pub same_size : t.segment_size ≡ s.segment_size
    pub same_cold : t.cold ≡ s.cold
    pub others : (j : ℕ) → i ≢ j → disk_at j t.hot ≡ disk_at j s.hot
    pub own : (disk_at i t.hot ≡ disk_at i s.hot) ⊎ ((disk_at i t.hot).seg ≡ none)
    pub same_slot : t.reader ≡ (without_handles i s).reader

  with_hot-AfterDrop :
      (d : Disk)
      → (d ≡ disk_at i s.hot) ⊎ (d.seg ≡ none)
      → AfterDrop (with_hot i d (without_handles i s))
  with_hot-AfterDrop d own = record {
    same_size = refl;
    same_cold = refl;
    others = λ j ne. disk_at-other i s j d s.hot ne;
    own = elim own [
      | inl e ↦ inl (disk_at-insert_self i d s.hot ∙ e)
      | inr e ↦ inr (ap (λ d. d.seg) (disk_at-insert_self i d s.hot) ∙ e)
    ];
    same_slot = refl;
  }

  dropped-AfterDrop :
      (seg idx : Result StoreError ℕ × Option (List ℕ))
      → (((n : ℕ) × (seg.0 ≡ ok n)) × (seg.1 ≡ none))
        ⊎ (((e : StoreError) × (seg.0 ≡ err e)) × (seg.1 ≡ (disk_at i s.hot).seg))
      → AfterDrop (dropped i (without_handles i s) seg idx).1
  unfolding dropped
  dropped-AfterDrop (ok n, seg) (ok m, idx) (inl removed) = with_hot-AfterDrop _ (inr removed.1)
  dropped-AfterDrop (ok n, seg) (err e, idx) (inl removed) = with_hot-AfterDrop _ (inr removed.1)
  dropped-AfterDrop (ok n, seg) (panic, idx) (inl removed) = with_hot-AfterDrop _ (inr removed.1)
  dropped-AfterDrop (err e, seg) (d, idx) (inr kept) =
      with_hot-AfterDrop _ (inl (λ k. record { seg = kept.1 k; idx = (disk_at i s.hot).idx }))
  dropped-AfterDrop (ok n, seg) (d, idx) (inr kept) = absurd (ground (arith, kept.0.1))
  dropped-AfterDrop (err e, seg) (d, idx) (inl removed) = absurd (ground (arith, removed.0.1))
  dropped-AfterDrop (panic, seg) (d, idx) (inl removed) = absurd (ground (arith, removed.0.1))
  dropped-AfterDrop (panic, seg) (d, idx) (inr kept) = absurd (ground (arith, kept.0.1))

  remove-cases :
      (unlinks : Bool) (file : Option (List ℕ))
      → (((n : ℕ) × ((remove unlinks file).0 ≡ ok n)) × ((remove unlinks file).1 ≡ none))
        ⊎ (((e : StoreError) × ((remove unlinks file).0 ≡ err e))
            × ((remove unlinks file).1 ≡ file))
  unfolding remove
  remove-cases unlinks none = inl ((0, refl), refl)
  remove-cases true (some bytes) = inl ((length bytes, refl), refl)
  remove-cases false (some bytes) = inr ((io, refl), refl)

  pub drop_hot-After : AfterDrop (drop_hot media i s).1
  unfolding drop_hot
  drop_hot-After = dropped-AfterDrop _ _ (remove-cases (media.unlinks i true) (disk_at i s.hot).seg)

  -- A removal of a segment that is shown hot and copied, and whatever comes of it, leaves every segment
  -- shown on some tier with the log it had.
  pub drop_hot-Shows :
      (j : ℕ) (log : Log) (hot : Bool)
      → ((h : Shows crc i log true s) → cold_at i s.cold ≡ disk_with crc log h.junk h.torn)
      → (i ≢ j) ⊎ ((i ≡ j) × (hot ≡ true))
      → Shows crc j log hot s
      → (hot' : Bool) × Shows crc j log hot' (drop_hot media i s).1
  drop_hot-Shows j log hot copied_it (inl ne) h =
      let after = drop_hot-After in
      let slots = reader_without-other i j s.reader in
      (
        hot,
        Shows-same crc j log s (drop_hot media i s).1 hot (after.others j ne)
            (ap (cold_at j) after.same_cold)
            (elim slots [
              | inl e ↦ inl (ap (reader_for j) after.same_slot ∙ e)
              | inr e ↦ inr (ap (reader_for j) after.same_slot ∙ e)
            ])
            h,
      )
  drop_hot-Shows j log hot copied_it (inr (same, is_hot)) h =
      let t = (drop_hot media i s).1 in
      let after = drop_hot-After in
      let h' : Shows crc i log true s =
        subst (λ (b : Bool). Shows crc i log b s) is_hot
          (subst (λ k. Shows crc k log hot s) (sym same) h) in
      let shut : reader_for i t.reader ≡ none =
        ap (reader_for i) after.same_slot ∙ reader_without-own i s.reader in
      let found : (hot' : Bool) × Shows crc i log hot' t = elim after.own [
        | inl e ↦ (true, Shows-hot crc i log s t e (inl shut) h')
        | inr gone ↦ (
          false,
          Shows-moved crc i log s t h' gone (ap (cold_at i) after.same_cold ∙ copied_it h') shut,
        )
      ] in
      (found.0, subst (λ k. Shows crc k log found.0 t) same found.1)

  dropped-gone :
      (seg idx : Result StoreError ℕ × Option (List ℕ)) (n : ℕ)
      → (((n : ℕ) × (seg.0 ≡ ok n)) × (seg.1 ≡ none))
        ⊎ (((e : StoreError) × (seg.0 ≡ err e)) × (seg.1 ≡ (disk_at i s.hot).seg))
      → (dropped i (without_handles i s) seg idx).0 ≡ ok n
      → (disk_at i (dropped i (without_handles i s) seg idx).1.hot).seg ≡ none
  unfolding dropped
  dropped-gone (ok m, seg) (ok k, idx) n (inl removed) e =
      ap (λ d. d.seg) (disk_at-insert_self i (record { seg = seg; idx = idx }) s.hot) ∙ removed.1
  dropped-gone (ok m, seg) (err e', idx) n (inl removed) e = absurd (ground arith)
  dropped-gone (ok m, seg) (panic, idx) n (inl removed) e = absurd (ground arith)
  dropped-gone (err e', seg) (d, idx) n c e = absurd (ground arith)
  dropped-gone (panic, seg) (d, idx) n c e = absurd (ground arith)
  dropped-gone (ok m, seg) (d, idx) n (inr kept) e = absurd (ground (arith, kept.0.1))

  -- A removal that succeeds has taken the segment file away.
  pub drop_hot-gone :
      (n : ℕ) → (drop_hot media i s).0 ≡ ok n → (disk_at i (drop_hot media i s).1.hot).seg ≡ none
  unfolding drop_hot
  drop_hot-gone n e =
      dropped-gone _ _ n (remove-cases (media.unlinks i true) (disk_at i s.hot).seg) e
