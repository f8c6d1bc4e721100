-- ===== src/Store/Segments/Listed.antt =====
-- The listing of the hot tier: every segment there, in the order of its blocks.
use polkadot_indexer_framerw.Common.{
  ℕ, ◌+◌, ◌*◌, ◌^◌, ◌≤◌, ◌<◌, ◌≡◌, refl, sym, ap, subst, ◌∙◌, ◌≢◌, ◌⊎◌, inl, inr, Option, none,
  some, List, [], ◌∷◌, ◌++◌, arith, Option-cases, All,
}
use polkadot_indexer_framerw.Store.Layout.Names.{strip_suffix-append, stem_start-segment_stem}
use polkadot_indexer_framerw.Store.Layout.Ranges.{segment_partition, start-eq, end-eq}
use polkadot_indexer_framerw.Common.Map.{lookup}
use polkadot_indexer_framerw.Store.Layout.{
  segment_index, segment_start, segment_end, seg_suffix, idx_suffix, segment_stem, strip_suffix,
  stem_start,
}
use polkadot_indexer_framerw.Store.Segment.{Disk}
use polkadot_indexer_framerw.Store.Segments.Tiers.{
  hot_segments, SegmentSpan, listing, span_at, span_of_name, spans_of_names,
}
use polkadot_indexer_framerw.Store.Segments.{Segments, disk_at, Tier}
use polkadot_indexer_framerw.Store.Segments.Sorted.{
  sort_spans-All, Ascending, HasSpan, SpanFits, sort_spans-Ascending, sort_spans-HasSpan,
}
use native.Mathlib.Decide.{ℕ_discrete}

pub lookup-own :
    (k i : ℕ) (w : Disk) (tier : Tier) (disk : Disk)
    → k ≡ i
    → lookup i ((k, w) ∷ tier) ≡ some disk
    → w ≡ disk
unfolding lookup
lookup-own k i w tier disk same e = ground arith

pub lookup-later :
    (k i : ℕ) (w : Disk) (tier : Tier) (disk : Disk)
    → k ≢ i
    → lookup i ((k, w) ∷ tier) ≡ some disk
    → lookup i tier ≡ some disk
unfolding lookup
lookup-later k i w tier disk ne e = ground arith

pub segment_start-le :
    (i size : ℕ)
    → 0 < size
    → i * size + size ≤ 2 ^ 64
    → (segment_start i size ≤ segment_start i size) × (segment_start i size ≤ segment_end i size)
segment_start-le i size positive small =
    (omega arith, omega (arith, start-eq i size (omega arith), end-eq i size positive small))

module _ (size : ℕ) (modified : List ℕ → Option ℕ) where
  span_of_name-SpanFits :
      (name : List ℕ) (span : SegmentSpan)
      → span_of_name size modified name ≡ some span
      → SpanFits size span
  unfolding span_of_name
  span_of_name-SpanFits name span e = elim (Option-cases (strip_suffix name seg_suffix)) [
    | inl gone ↦ ground arith
    | inr (stem, is) ↦ elim (Option-cases (stem_start name)) [
      | inl gone ↦ ground arith
      | inr (from, is') ↦ ground arith
    ]
  ]

  spans_of_names-SpanFits :
      (names : List (List ℕ)) → All (SpanFits size) (spans_of_names size modified names)
  unfolding spans_of_names
  spans_of_names-SpanFits [] = tt
  spans_of_names-SpanFits (name ∷ names) = elim (Option-cases (span_of_name size modified name)) [
    | inl gone ↦ rw (spans_of_names, gone) (spans_of_names-SpanFits names)
    | inr (span, is) ↦
        rw (spans_of_names, is) (span_of_name-SpanFits name span is, spans_of_names-SpanFits names)
  ]

  spans_of_names-append :
      (names more : List (List ℕ))
      → spans_of_names size modified (names ++ more)
        ≡ spans_of_names size modified names ++ spans_of_names size modified more
  unfolding spans_of_names
  spans_of_names-append [] more = refl
  spans_of_names-append (name ∷ names) more =
      elim (Option-cases (span_of_name size modified name)) [
        | inl gone ↦ rw (spans_of_names, gone) (spans_of_names-append names more)
        | inr (span, is) ↦
            rw (spans_of_names, is) (ap (λ l. span ∷ l) (spans_of_names-append names more))
      ]

  spans_of_names-one :
      (name : List ℕ) (span : SegmentSpan)
      → span_of_name size modified name ≡ some span
      → spans_of_names size modified (name ∷ []) ≡ span ∷ []
  unfolding spans_of_names
  spans_of_names-one name span e = rw (spans_of_names, e) refl

  HasSpan-append :
      (i : ℕ) (xs ys : List SegmentSpan) → HasSpan i xs ⊎ HasSpan i ys → HasSpan i (xs ++ ys)
  HasSpan-append i [] ys (inl h) = absurd h
  HasSpan-append i [] ys (inr h) = h
  HasSpan-append i (x ∷ xs) ys (inl (inl h)) = inl h
  HasSpan-append i (x ∷ xs) ys (inl (inr h)) = inr (HasSpan-append i xs ys (inl h))
  HasSpan-append i (x ∷ xs) ys (inr h) = inr (HasSpan-append i xs ys (inr h))

  span_of_name-some :
      (name stem : List ℕ) (from : ℕ)
      → strip_suffix name seg_suffix ≡ some stem
      → stem_start name ≡ some from
      → span_of_name size modified name
        ≡ some (span_at size (segment_index from size) (modified name))
  unfolding span_of_name
  span_of_name-some name stem from e e' = rw (span_of_name, e, e') refl

  -- The name of a segment file is listed as that segment.
  span_of_name-segment_stem :
      (i : ℕ)
      → 0 < size
      → i * size + size ≤ 2 ^ 64
      → span_of_name size modified (segment_stem i size ++ seg_suffix)
        ≡ some (span_at size i (modified (segment_stem i size ++ seg_suffix)))
  span_of_name-segment_stem i positive small =
      let name = segment_stem i size ++ seg_suffix in
      let back : segment_index (segment_start i size) size ≡ i =
        (segment_partition (segment_start i size) size i positive small).0
          (segment_start-le i size positive small) in
      span_of_name-some name (segment_stem i size) (segment_start i size)
        (strip_suffix-append (segment_stem i size) seg_suffix) (stem_start-segment_stem i size)
      ∙ ap (λ k. some (span_at size k (modified name))) back

  spans_of_names-listing :
      (i : ℕ) (tier : Tier) (disk : Disk) (bytes : List ℕ)
      → 0 < size
      → i * size + size ≤ 2 ^ 64
      → lookup i tier ≡ some disk
      → disk.seg ≡ some bytes
      → HasSpan i (spans_of_names size modified (listing size tier))
  unfolding listing lookup spans_of_names
  spans_of_names-listing i [] disk bytes positive small e held = absurd (ground arith)
  spans_of_names-listing i ((k, w) ∷ tier) disk bytes positive small e held =
      let seg_names : List (List ℕ) = elim w.seg [
        | none ↦ []
        | some b ↦ (segment_stem k size ++ seg_suffix) ∷ []
      ] in
      let idx_names : List (List ℕ) = elim w.idx [
        | none ↦ []
        | some b ↦ (segment_stem k size ++ idx_suffix) ∷ []
      ] in
      let rest = listing size tier in
      let split : spans_of_names size modified (seg_names ++ (idx_names ++ rest))
          ≡ spans_of_names size modified seg_names
            ++ (spans_of_names size modified idx_names ++ spans_of_names size modified rest) =
        spans_of_names-append seg_names (idx_names ++ rest)
        ∙ ap (λ l. spans_of_names size modified seg_names ++ l)
            (spans_of_names-append idx_names rest) in
      subst (HasSpan i) (sym split) (elim (ℕ_discrete k i) [
        | yes same ↦
            let own : w.seg ≡ some bytes =
              ap (λ d. d.seg) (lookup-own k i w tier disk same e) ∙ held in
            HasSpan-append i (spans_of_names size modified seg_names) _ (
              inl (
                rw own (
                  subst (HasSpan i)
                    (sym (
                      spans_of_names-one (segment_stem k size ++ seg_suffix)
                        (span_at size k (modified (segment_stem k size ++ seg_suffix)))
                        (span_of_name-segment_stem k positive
                          (subst (λ n. n * size + size ≤ 2 ^ 64) (sym same) small))))
                    (inl same))))
        | no ne ↦ HasSpan-append i (spans_of_names size modified seg_names) _ (
            inr (
              HasSpan-append i (spans_of_names size modified idx_names) _ (
                inr (
                  spans_of_names-listing i tier disk bytes positive small
                    (lookup-later k i w tier disk ne e) held))))
      ])

-- Every segment file on the hot tier is in the listing, in the order of the blocks, with its range.
pub hot_segments-HasSpan :
    (modified : List ℕ → Option ℕ) (s : Segments) (i : ℕ) (bytes : List ℕ)
    → 0 < s.segment_size
    → i * s.segment_size + s.segment_size ≤ 2 ^ 64
    → (disk_at i s.hot).seg ≡ some bytes
    → HasSpan i (hot_segments modified s)
unfolding hot_segments disk_at
hot_segments-HasSpan modified s i bytes positive small e = elim (Option-cases (lookup i s.hot)) [
  | inl gone ↦ absurd (ground (arith, gone))
  | inr (disk, is) ↦
      sort_spans-HasSpan i (spans_of_names s.segment_size modified (listing s.segment_size s.hot)) (
        spans_of_names-listing s.segment_size modified i s.hot disk bytes positive small is
          (ground (arith, is)))
]

pub hot_segments-Ascending :
    (modified : List ℕ → Option ℕ) (s : Segments)
    → Ascending (hot_segments modified s) × All (SpanFits s.segment_size) (hot_segments modified s)
unfolding hot_segments
hot_segments-Ascending modified s =
    let spans = spans_of_names s.segment_size modified (listing s.segment_size s.hot) in
    (
      sort_spans-Ascending spans,
      sort_spans-All (SpanFits s.segment_size) spans
          (spans_of_names-SpanFits s.segment_size modified (listing s.segment_size s.hot)),
    )
