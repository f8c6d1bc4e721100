-- ===== src/Chain/Tiering/Keeps.antt =====
-- What a tiering pass in archive mode keeps: every record reads as it did.
use polkadot_indexer_framerw.Common.{
  ℕ, ◌≡◌, refl, sym, ap, subst, ◌∙◌, ◌≢◌, ◌⊎◌, inl, inr, Bool, true, ◌&&◌, not, Option, none, some,
  List, [], ◌∷◌, arith, if◌then◌else◌, Bool-cases,
}
use polkadot_indexer_framerw.Common.Int.{ℤ}
use polkadot_indexer_framerw.Common.Result.{Result, ok, err, panic, Result-cases}
use polkadot_indexer_framerw.Store.Error.{StoreError}
use polkadot_indexer_framerw.Store.Segment.Format.{Crc32, Log}
use polkadot_indexer_framerw.Store.Segments.Moving.{Faithful}
use polkadot_indexer_framerw.Chain.Tiering.{
  PassState, Tiering, archive_segment, in_store, archive_it, counting, eligible, keeps,
  move_segment, tier_segments, move_by, stays_hot, tier_archive,
}
use polkadot_indexer_framerw.Store.Segments.Tiers.{
  SegmentSpan, Tiered, copy_to_cold, drop_hot, hot_segments,
}
use polkadot_indexer_framerw.Store.Segments.{Segments, cold_at, disk_at, locate, Zstd, get}
use polkadot_indexer_framerw.Store.Segments.Getting.{Shows, get-Shows}
use polkadot_indexer_framerw.Store.Segments.Moved.{
  drop_hot-After, drop_hot-Shows, copy_to_cold-Shows,
}
use polkadot_indexer_framerw.Store.Segments.Holding.{disk_with}
use polkadot_indexer_framerw.Store.Segments.Kept.{
  copy_to_cold-absent, located_cold, copy_to_cold-After, copy_to_cold-same, located_hot,
}
use polkadot_indexer_framerw.Store.Layout.{segment_index}
use polkadot_indexer_framerw.Chain.Tiering.Loop.{tier_segments-moves, tier_segments-stops}
use polkadot_indexer_framerw.Chain.Fetch.{as_i64}
use polkadot_indexer_framerw.Chain.Limiter.{failed}
use native.Mathlib.Decide.{ℕ_discrete}

pub in_store-store :
    (done : Result StoreError ℕ × Segments) (st : PassState) → (in_store done st).1.store ≡ done.1
in_store-store (ok n, s) st = refl
in_store-store (err e, s) st = refl
in_store-store (panic, s) st = refl

module _ (tiering : Tiering) (span : SegmentSpan) (st : PassState) where
  abbrev copy : Result StoreError Tiered × Segments
  copy = copy_to_cold tiering.crc tiering.media span.index st.store

  -- A segment's files are removed only after a copy that succeeded.
  archive_segment-store :
      ((archive_segment tiering span st).1.store ≡ copy.1)
      ⊎ ((tiered : Tiered) × (copy.0 ≡ ok tiered)
          × ((archive_segment tiering span st).1.store
              ≡ (drop_hot tiering.media span.index copy.1).1))
  unfolding archive_segment
  archive_segment-store = elim (Result-cases copy.0) [
    | inl (tiered, e) ↦ elim (Bool-cases (tiering.db_takes span.index)) [
      | inl takes ↦ inr (
        tiered,
        e,
        rw (archive_segment, e, takes)
            (in_store-store (drop_hot tiering.media span.index copy.1) _),
      )
      | inr refuses ↦ inl (rw (archive_segment, e, refuses) refl)
    ]
    | inr (inl (e, is)) ↦ inl (rw (archive_segment, is) refl)
    | inr (inr is) ↦ inl (rw (archive_segment, is) refl)
  ]

  archive_segment-Shows :
      (j : ℕ) (log : Log) (hot : Bool)
      → Faithful tiering.crc tiering.media
      → Shows tiering.crc j log hot st.store
      → (hot' : Bool) × Shows tiering.crc j log hot' (archive_segment tiering span st).1.store
  unfolding locate
  archive_segment-Shows j log hot good h =
      let crc = tiering.crc in
      let media = tiering.media in
      let i = span.index in
      let s = st.store in
      let s' = copy.1 in
      let h' = copy_to_cold-Shows crc media i s j log hot h in
      elim archive_segment-store [
        | inl e ↦ (hot, subst (Shows crc j log hot) (sym e) h')
        | inr (tiered, done, e) ↦
            let same : (g : Shows crc i log true s')
                → cold_at i s'.cold ≡ disk_with crc log g.junk g.torn =
              λ g.
                let disk = disk_with crc log g.junk g.torn in
                copy_to_cold-same crc media i s _ _ tiered good
                  (ap (disk_at i) (sym (copy_to_cold-After crc media i s).same_hot)
                    ∙ located_hot (disk_at i s'.hot) (cold_at i s'.cold) disk g.located)
                  done in
            let where_is : (i ≢ j) ⊎ ((i ≡ j) × (hot ≡ true)) = elim (ℕ_discrete i j) [
              | no ne ↦ inl ne
              | yes is ↦ elim (Bool-cases hot) [
                | inl hot_is ↦ inr (is, hot_is)
                | inr cold_is ↦
                    let gone =
                      located_cold (disk_at j s.hot) (cold_at j s.cold)
                        (disk_with crc log h.junk h.torn)
                        (h.located
                          ∙ ap (λ (b : Bool). some (disk_with crc log h.junk h.torn, b)) cold_is) in
                    let failed =
                      copy_to_cold-absent crc media i s
                        (ap (λ k. (disk_at k s.hot).seg) is ∙ gone.0) in
                    absurd (ground (arith, sym failed.0.1 ∙ done))
              ]
            ] in
            let kept = drop_hot-Shows crc media i s' j log hot same where_is h' in
            (kept.0, subst (Shows crc j log kept.0) (sym e) kept.1)
      ]

  archive_segment-size :
      (archive_segment tiering span st).1.store.segment_size ≡ st.store.segment_size
  archive_segment-size =
      let crc = tiering.crc in
      let copied_size = (copy_to_cold-After crc tiering.media span.index st.store).same_size in
      elim archive_segment-store [
        | inl e ↦ ap (λ s. s.segment_size) e ∙ copied_size
        | inr (tiered, done, e) ↦
            ap (λ s. s.segment_size) e
            ∙ (drop_hot-After crc tiering.media span.index copy.1).same_size
            ∙ copied_size
      ]

-- What is shown of one store is shown of the other, on whichever tier.
record KeepsShows (crc : Crc32) (s t : Segments) : Type 0 where
  pub same_size : t.segment_size ≡ s.segment_size
  pub shows :
      (j : ℕ) (log : Log) (hot : Bool)
      → Shows crc j log hot s
      → (hot' : Bool) × Shows crc j log hot' t

KeepsShows-refl : (crc : Crc32) (s : Segments) → KeepsShows crc s s
KeepsShows-refl crc s = record { same_size = refl; shows = λ j log hot h. (hot, h) }

KeepsShows-trans :
    (crc : Crc32) (s t u : Segments) → KeepsShows crc s t → KeepsShows crc t u → KeepsShows crc s u
KeepsShows-trans crc s t u k l = record {
  same_size = l.same_size ∙ k.same_size;
  shows = λ j log hot h. let there = k.shows j log hot h in l.shows j log there.0 there.1;
}

module _ (tiering : Tiering) (digested : ℤ) where
  move_segment-archive :
      (span : SegmentSpan) (st : PassState)
      → tiering.on_digest ≡ archive_it
      → move_segment tiering span st ≡ archive_segment tiering span st
  unfolding move_by
  move_segment-archive span st e = ap (λ o. move_by o tiering span st) e

  tier_segments-KeepsShows :
      (spans : List SegmentSpan) (st : PassState) (highest : Option ℤ)
      → tiering.on_digest ≡ archive_it
      → Faithful tiering.crc tiering.media
      → KeepsShows tiering.crc st.store (tier_segments tiering digested spans st highest).1.store
  unfolding tier_segments
  tier_segments-KeepsShows [] st highest e good = KeepsShows-refl tiering.crc st.store
  tier_segments-KeepsShows (span ∷ spans) st highest e good =
      let crc = tiering.crc in
      let st' = (move_segment tiering span st).1 in
      let same = move_segment-archive span st e in
      let one : KeepsShows crc st.store st'.store =
        subst (λ p. KeepsShows crc st.store p.1.store) (sym same)
          (record {
            same_size = archive_segment-size tiering span st;
            shows = λ j log hot h. archive_segment-Shows tiering span st j log hot good h;
          }) in
      elim (Bool-cases (eligible tiering digested span && not (keeps tiering.on_digest))) [
        | inr stop ↦
            subst (λ p. KeepsShows crc st.store p.1.store)
              (sym (tier_segments-stops tiering digested span spans st highest stop))
              (KeepsShows-refl crc st.store)
        | inl go ↦ elim (tier_segments-moves tiering digested span spans st highest go) [
          | inl (moved, goes_on) ↦
              subst (λ p. KeepsShows crc st.store p.1.store) (sym goes_on)
                (KeepsShows-trans crc st.store st'.store _ one (
                  tier_segments-KeepsShows spans (counting st') (some (as_i64 span.to_block)) e
                    good))
          | inr (ends, failed) ↦ subst (λ p. KeepsShows crc st.store p.store) (sym ends) one
        ]
      ]

  tier_archive-KeepsShows :
      (st : PassState)
      → tiering.on_digest ≡ archive_it
      → Faithful tiering.crc tiering.media
      → KeepsShows tiering.crc st.store (tier_archive tiering digested st).1.store
  unfolding tier_archive
  tier_archive-KeepsShows st e good =
      elim (Bool-cases (stays_hot tiering.on_digest st.store.cold)) [
        | inl stays ↦
            subst
              (λ (b : Bool).
                KeepsShows tiering.crc st.store
                  (if b
                    then (ok none, st)
                    else tier_segments tiering digested (hot_segments tiering.modified st.store) st
                        none).1.store)
              (sym stays) (KeepsShows-refl tiering.crc st.store)
        | inr moves ↦
            subst
              (λ (b : Bool).
                KeepsShows tiering.crc st.store
                  (if b
                    then (ok none, st)
                    else tier_segments tiering digested (hot_segments tiering.modified st.store) st
                        none).1.store)
              (sym moves)
              (tier_segments-KeepsShows (hot_segments tiering.modified st.store) st none e good)
      ]

-- With a digest policy that archives, on a cold disk whose damage the checksum detects, a pass over one
-- archive keeps every record readable, whatever the pass comes to: it may end early, or fail in
-- copying, in recording or in removing. A number whose segment a tier shows reads afterwards as it
-- read before.
pub tier_archive-get :
    (tiering : Tiering) (digested : ℤ) (st : PassState) (zstd : Zstd) (n : ℕ) (log : Log)
    (hot : Bool)
    → tiering.on_digest ≡ archive_it
    → Faithful tiering.crc tiering.media
    → Shows tiering.crc (segment_index n st.store.segment_size) log hot st.store
    → (get tiering.crc zstd n (tier_archive tiering digested st).1.store).0
      ≡ (get tiering.crc zstd n st.store).0
tier_archive-get tiering digested st zstd n log hot e good h =
    let crc = tiering.crc in
    let t = (tier_archive tiering digested st).1.store in
    let k = tier_archive-KeepsShows tiering digested st e good in
    let i = segment_index n st.store.segment_size in
    let i' = segment_index n t.segment_size in
    let there = k.shows i log hot h in
    let shown : Shows crc i' log there.0 t =
      subst (λ z. Shows crc (segment_index n z) log there.0 t) (sym k.same_size) there.1 in
    ap (λ r. r.0) (get-Shows crc zstd n log there.0 t shown)
    ∙ sym (ap (λ r. r.0) (get-Shows crc zstd n log hot st.store h))
