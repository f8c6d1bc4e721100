-- ===== src/Store/Segments/Sorted.antt =====
-- The order of a listing: sorting keeps the spans, and puts them in the order of their index.
use polkadot_indexer_framerw.Common.{
  ℕ, ◌≤◌, ◌≡◌, ◌⊎◌, inl, inr, List, [], ◌∷◌, arith, leb, Bool-cases, All,
}
use polkadot_indexer_framerw.Store.Layout.{segment_end}
use polkadot_indexer_framerw.Store.Segments.Tiers.{SegmentSpan, insert_span, sort_spans}

-- Whether a segment is among the spans.
abbrev pub HasSpan : ℕ → List SegmentSpan → Type 0
HasSpan i [] = ⊥
HasSpan i (span ∷ spans) = (span.index ≡ i) ⊎ HasSpan i spans

-- The spans from an index on, in order.
abbrev pub Ascending : List SegmentSpan → Type 0
Ascending [] = Unit
Ascending (span ∷ spans) =
    All (λ (other : SegmentSpan). span.index ≤ other.index) spans × Ascending spans

-- A span as the layout has it.
abbrev pub SpanFits : ℕ → SegmentSpan → Type 0
SpanFits size span = span.to_block ≡ segment_end span.index size

insert_span-All :
    (P : SegmentSpan → Type 0) (span : SegmentSpan) (spans : List SegmentSpan)
    → P span
    → All P spans
    → All P (insert_span span spans)
unfolding insert_span
insert_span-All P span [] p ps = (p, tt)
insert_span-All P span (other ∷ spans) p ps = elim (Bool-cases (leb span.index other.index)) [
  | inl le ↦ rw (insert_span, le) (p, ps)
  | inr gt ↦ rw (insert_span, gt) (ps.0, insert_span-All P span spans p ps.1)
]

pub sort_spans-All :
    (P : SegmentSpan → Type 0) (spans : List SegmentSpan) → All P spans → All P (sort_spans spans)
unfolding sort_spans
sort_spans-All P [] ps = tt
sort_spans-All P (span ∷ spans) ps =
    insert_span-All P span (sort_spans spans) ps.0 (sort_spans-All P spans ps.1)

All-le :
    (a b : ℕ) (spans : List SegmentSpan)
    → a ≤ b
    → All (λ (other : SegmentSpan). b ≤ other.index) spans
    → All (λ (other : SegmentSpan). a ≤ other.index) spans
All-le a b [] le h = tt
All-le a b (other ∷ spans) le h = (omega (arith, h.0), All-le a b spans le h.1)

insert_span-Ascending :
    (span : SegmentSpan) (spans : List SegmentSpan)
    → Ascending spans
    → Ascending (insert_span span spans)
unfolding insert_span
insert_span-Ascending span [] h = (tt, tt)
insert_span-Ascending span (other ∷ spans) h = elim (Bool-cases (leb span.index other.index)) [
  | inl le ↦
      let ordered : span.index ≤ other.index = ground arith in
      rw (insert_span, le) ((ordered, All-le span.index other.index spans ordered h.0), h)
  | inr gt ↦
      let ordered : other.index ≤ span.index = ground arith in
      rw (insert_span, gt)
        (
          insert_span-All (λ (next_one : SegmentSpan). other.index ≤ next_one.index) span spans
              ordered h.0,
          insert_span-Ascending span spans h.1,
        )
]

pub sort_spans-Ascending : (spans : List SegmentSpan) → Ascending (sort_spans spans)
unfolding sort_spans
sort_spans-Ascending [] = tt
sort_spans-Ascending (span ∷ spans) =
    insert_span-Ascending span (sort_spans spans) (sort_spans-Ascending spans)

insert_span-HasSpan :
    (i : ℕ) (span : SegmentSpan) (spans : List SegmentSpan)
    → (span.index ≡ i) ⊎ HasSpan i spans
    → HasSpan i (insert_span span spans)
unfolding insert_span
insert_span-HasSpan i span [] h = h
insert_span-HasSpan i span (other ∷ spans) h = elim (Bool-cases (leb span.index other.index)) [
  | inl le ↦ rw (insert_span, le) h
  | inr gt ↦
      rw (insert_span, gt)
        (elim h [
          | inl own ↦ inr (insert_span-HasSpan i span spans (inl own))
          | inr (inl first) ↦ inl first
          | inr (inr later) ↦ inr (insert_span-HasSpan i span spans (inr later))
        ])
]

pub sort_spans-HasSpan :
    (i : ℕ) (spans : List SegmentSpan) → HasSpan i spans → HasSpan i (sort_spans spans)
unfolding sort_spans
sort_spans-HasSpan i [] h = absurd h
sort_spans-HasSpan i (span ∷ spans) h =
    insert_span-HasSpan i span (sort_spans spans)
      (elim h [ inl own ↦ inl own | inr later ↦ inr (sort_spans-HasSpan i spans later) ])
