-- ===== src/Chain/Tiering/Prefix.antt =====
-- What a tiering pass moves: a prefix of the hot segments, no further than the digest.
use polkadot_indexer_framerw.Common.{
  ℕ, ◌+◌, ◌-◌, ◌*◌, ◌^◌, ◌≤◌, ◌<◌, ◌≡◌, refl, sym, ap, subst, ◌∙◌, ◌⊎◌, inl, inr, Bool, true, false,
  ◌&&◌, not, Option, none, some, List, [], ◌∷◌, arith, Bool-cases, Option-cases, All,
}
use polkadot_indexer_framerw.Common.Int.{ℤ, pos, ◌≤ℤ◌, leb_ℤ}
use polkadot_indexer_framerw.Common.Result.{ok}
use polkadot_indexer_framerw.Chain.Tiering.{
  PassState, Tiering, keeps, counting, eligible, move_segment, tier_segments, retained_long_enough,
  stays_hot, tier_archive,
}
use polkadot_indexer_framerw.Store.Segments.Tiers.{SegmentSpan, hot_segments}
use polkadot_indexer_framerw.Store.Segments.{Segments, disk_at}
use polkadot_indexer_framerw.Store.Segments.Sorted.{Ascending, HasSpan, SpanFits}
use polkadot_indexer_framerw.Store.Segments.Listed.{hot_segments-Ascending, hot_segments-HasSpan}
use polkadot_indexer_framerw.Db.Watermarks.{ordered}
use polkadot_indexer_framerw.Store.Layout.{segment_end, segment_index, segment_start}
use polkadot_indexer_framerw.Chain.Fetch.{as_i64}
use polkadot_indexer_framerw.Chain.Tiering.Loop.{tier_segments-moves, tier_segments-stops}
use polkadot_indexer_framerw.Store.Layout.Ranges.{end-eq, segment_partition, start-eq}
use polkadot_indexer_framerw.Chain.Tiering.Leaving.{LeavesHot, move_by-LeavesHot}
use native.Mathlib.Decide.{ℕ_discrete}

first_true : (a b : Bool) → (a && b) ≡ true → a ≡ true
first_true a b e = ground arith

leb_ℤ-le : (a b : ℤ) → leb_ℤ a b ≡ true → a ≤ℤ b
leb_ℤ-le a b e = ground arith

-- A segment lies above the segments that were moved, of which the last ended at `highest`.
abbrev Above : ℕ → ℕ → Option ℤ → Type 0
Above size i highest =
    (highest ≡ none) ⊎ ((m : ℕ) × (m < i) × (highest ≡ some (as_i64 (segment_end m size))))

-- Before a round of the loop: the segments that are still hot come in the rest of the listing, and
-- above what was moved.
abbrev Remaining : ℕ → List SegmentSpan → Segments → Option ℤ → Type 0
Remaining size spans s highest =
    (i : ℕ) (bytes : List ℕ)
    → i * size + size ≤ 2 ^ 63
    → (disk_at i s.hot).seg ≡ some bytes
    → HasSpan i spans × Above size i highest

HasSpan-le :
    (i m : ℕ) (spans : List SegmentSpan)
    → All (λ (other : SegmentSpan). m ≤ other.index) spans
    → HasSpan i spans
    → m ≤ i
HasSpan-le i m [] le h = absurd h
HasSpan-le i m (span ∷ spans) le (inl own) = omega (arith, le.0, own)
HasSpan-le i m (span ∷ spans) le (inr later) = HasSpan-le i m spans le.1 later

Remaining-moves :
    (size : ℕ) (span : SegmentSpan) (spans : List SegmentSpan) (s t : Segments) (highest : Option ℤ)
    → Ascending (span ∷ spans)
    → SpanFits size span
    → LeavesHot span.index s t
    → Remaining size (span ∷ spans) s highest
    → Remaining size spans t (some (as_i64 span.to_block))
Remaining-moves size span spans s t highest ordered fits left before i bytes small e =
    elim (ℕ_discrete span.index i) [
      | yes same ↦
          absurd
            (ground (arith, sym (subst (λ k. (disk_at k t.hot).seg ≡ none) same left.gone) ∙ e))
      | no ne ↦ elim (before i bytes small (sym (ap (λ d. d.seg) (left.others i ne)) ∙ e)).0 [
        | inl own ↦ absurd (ne own)
        | inr later ↦
            let le = HasSpan-le i span.index spans ordered.0 later in
            (later, inr (span.index, ground (arith, le, ne), ap (λ b. some (as_i64 b)) fits))
      ]
    ]

-- A pass ends with nothing moved, or with the end of a segment that the digest has reached.
abbrev Reached : ℤ → ℕ → Option ℤ → Type 0
Reached digested size to =
    (to ≡ none)
    ⊎ ((b : ℤ) × (to ≡ some b) × (b ≤ℤ digested) × ((m : ℕ) × (b ≡ as_i64 (segment_end m size))))

module _ (tiering : Tiering) (digested : ℤ) (size : ℕ) where
  -- What the loop ends with.
  record Ends (t : Segments) (to : Option ℤ) : Type 0 where
    pub above :
        (i : ℕ) (bytes : List ℕ)
        → i * size + size ≤ 2 ^ 63
        → (disk_at i t.hot).seg ≡ some bytes
        → Above size i to
    pub bounded : Reached digested size to

  keeps-false : (a b : Bool) → (a && not b) ≡ true → (a ≡ true) × (b ≡ false)
  keeps-false a b e = ground arith

  eligible-le :
      (span : SegmentSpan)
      → eligible tiering digested span ≡ true
      → as_i64 span.to_block ≤ℤ digested
  unfolding eligible
  eligible-le span e =
      leb_ℤ-le (as_i64 span.to_block) digested
        (first_true (leb_ℤ (as_i64 span.to_block) digested) (retained_long_enough tiering span) e)

  tier_segments-Ends :
      (spans : List SegmentSpan) (st : PassState) (highest to : Option ℤ)
      → Ascending spans
      → All (SpanFits size) spans
      → Remaining size spans st.store highest
      → Reached digested size highest
      → (tier_segments tiering digested spans st highest).0 ≡ ok to
      → Ends (tier_segments tiering digested spans st highest).1.store to
  unfolding tier_segments
  tier_segments-Ends [] st highest to ordered fits before low e =
      let same : highest ≡ to = ground arith in
      record {
        above = λ i bytes small hot. subst (Above size i) same (before i bytes small hot).1;
        bounded = subst (Reached digested size) same low;
      }
  tier_segments-Ends (span ∷ spans) st highest to ordered fits before low e =
      elim (Bool-cases (eligible tiering digested span && not (keeps tiering.on_digest))) [
        | inr stop ↦
            let stops = tier_segments-stops tiering digested span spans st highest stop in
            let same : highest ≡ to = ground (arith, sym (ap (λ p. p.0) stops) ∙ e) in
            subst (λ p. Ends p.1.store to) (sym stops)
              (record {
                above = λ i bytes small hot. subst (Above size i) same (before i bytes small hot).1;
                bounded = subst (Reached digested size) same low;
              })
        | inl go ↦ elim (tier_segments-moves tiering digested span spans st highest go) [
          | inr ended ↦ absurd (ended.1 to e)
          | inl (moved, goes_on) ↦
              let st' = (move_segment tiering span st).1 in
              let (can, active) =
                keeps-false (eligible tiering digested span) (keeps tiering.on_digest) go in
              let left = move_by-LeavesHot tiering span st tt tiering.on_digest active moved in
              subst (λ p. Ends p.1.store to) (sym goes_on)
                (tier_segments-Ends spans (counting st') (some (as_i64 span.to_block)) to ordered.1
                  fits.1
                  (Remaining-moves size span spans st.store st'.store highest ordered fits.0 left
                    before)
                  (inr (
                    as_i64 span.to_block,
                    refl,
                    eligible-le span can,
                    (span.index, ap as_i64 fits.0),
                  ))
                  (sym (ap (λ p. p.0) goes_on) ∙ e))
        ]
      ]

as_i64-small : (n : ℕ) → n < 2 ^ 63 → as_i64 n ≡ pos n
unfolding as_i64
as_i64-small n small = ground arith

some-eq : (a b : ℤ) → some a ≡ some b → a ≡ b
some-eq a b e = ground arith

-- When the blocks end at an `i64` with room, a segment that lies above another lies behind its end.
Above-behind :
    (size i b : ℕ) (to : ℤ)
    → 0 < size
    → i * size + size ≤ 2 ^ 63
    → segment_index b size ≡ i
    → Above size i (some to)
    → pos b ≤ℤ to
    → ⊥
Above-behind size i b to positive small is (inl e) le = ground arith
Above-behind size i b to positive small is (inr (m, below, e)) le =
    let lower : m * size + size ≤ i * size = grind arith in
    let stop : segment_end m size ≡ m * size + size - 1 =
      end-eq m size positive (omega (arith, lower, small)) in
    let value : to ≡ pos (m * size + size - 1) =
      some-eq to (as_i64 (segment_end m size)) e
      ∙ ap as_i64 stop
      ∙ as_i64-small (m * size + size - 1) (omega (arith, lower, small, positive)) in
    let start : segment_start i size ≤ b =
      ((segment_partition b size i positive (omega (arith, small))).1 is).0 in
    let at = start-eq i size (omega (arith, small)) in
    ground (arith, value, start, at, lower, positive, le)

tier_archive-Ends :
    (tiering : Tiering) (digested : ℤ) (st : PassState) (to : Option ℤ)
    → 0 < st.store.segment_size
    → (tier_archive tiering digested st).0 ≡ ok to
    → (to ≡ none)
      ⊎ Ends tiering digested st.store.segment_size (tier_archive tiering digested st).1.store to
unfolding tier_archive
tier_archive-Ends tiering digested st to positive e =
    let size = st.store.segment_size in
    let spans = hot_segments tiering.modified st.store in
    let loop = tier_segments tiering digested spans st none in
    elim (Bool-cases (stays_hot tiering.on_digest st.store.cold)) [
      | inl stays ↦ inl (ground (arith, stays))
      | inr moves ↦
          let went : tier_archive tiering digested st ≡ loop = rw (tier_archive, moves) refl in
          let listed = hot_segments-Ascending tiering.modified st.store in
          inr (
            subst (λ p. Ends tiering digested size p.1.store to) (sym went)
              (tier_segments-Ends tiering digested size spans st none to listed.0 listed.1
                (λ i bytes small hot. (
                  hot_segments-HasSpan tiering.modified st.store i bytes positive
                      (omega (arith, small)) hot,
                  inl refl,
                ))
                (inl refl) (sym (ap (λ p. p.0) went) ∙ e)))
    ]

-- A pass over an archive with segments of a size that is not zero, when it succeeds, returns nothing
-- or the end of a segment, as an `i64`, that the digest has reached. No block up to that end is on the
-- hot tier afterwards, when its own segment ends below 2^63.
pub tier_archive-moves_prefix :
    (tiering : Tiering) (digested : ℤ) (st : PassState) (to : Option ℤ)
    → 0 < st.store.segment_size
    → (tier_archive tiering digested st).0 ≡ ok to
    → (to ≡ none)
      ⊎ ((b : ℤ) × (to ≡ some b)
          × (b ≤ℤ digested)
          × ((m : ℕ) × (b ≡ as_i64 (segment_end m st.store.segment_size)))
          × ((number : ℕ)
              → segment_index number st.store.segment_size * st.store.segment_size
                  + st.store.segment_size
                ≤ 2 ^ 63
              → pos number ≤ℤ b
              → (disk_at
                  (segment_index number st.store.segment_size)
                  (tier_archive tiering digested st).1.store.hot).seg
                ≡ none))
tier_archive-moves_prefix tiering digested st to positive e =
    let size = st.store.segment_size in
    let t = (tier_archive tiering digested st).1.store in
    elim (tier_archive-Ends tiering digested st to positive e) [
      | inl nothing ↦ inl nothing
      | inr ends ↦ elim ends.bounded [
        | inl nothing ↦ inl nothing
        | inr (b, is, low, last) ↦ inr (
          b,
          is,
          low,
          last,
          λ number small le.
              let i = segment_index number size in
              elim (Option-cases (disk_at i t.hot).seg) [
                | inl gone ↦ gone
                | inr (bytes, hot) ↦ absurd (
                    Above-behind size i number b positive small refl
                      (subst (Above size i) is (ends.above i bytes small hot)) le)
              ],
        )
      ]
    ]
