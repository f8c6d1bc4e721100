-- ===== src/Chain/Tiering/Loop.antt =====
-- The rounds of the loop over an archive's hot segments.
use polkadot_indexer_framerw.Common.{
  ◌≡◌, refl, ap, ◌≢◌, ◌⊎◌, inl, inr, true, false, ◌&&◌, not, Option, some, List, ◌∷◌, arith,
}
use polkadot_indexer_framerw.Common.Int.{ℤ}
use polkadot_indexer_framerw.Common.Result.{ok, err, panic, Result-cases}
use polkadot_indexer_framerw.Chain.Tiering.{
  PassState, Tiering, TieringError, counting, eligible, keeps, move_segment, tier_segments,
}
use polkadot_indexer_framerw.Store.Segments.Tiers.{SegmentSpan}
use polkadot_indexer_framerw.Chain.Fetch.{as_i64}

module _ (tiering : Tiering) (digested : ℤ) where
  pub tier_segments-stops :
      (span : SegmentSpan) (spans : List SegmentSpan) (st : PassState) (highest : Option ℤ)
      → (eligible tiering digested span && not (keeps tiering.on_digest)) ≡ false
      → tier_segments tiering digested (span ∷ spans) st highest ≡ (ok highest, st)
  unfolding tier_segments
  tier_segments-stops span spans st highest e = rw (tier_segments, e) refl

  module _ (span : SegmentSpan) (spans : List SegmentSpan) (st : PassState) (highest : Option ℤ)
      (go : (eligible tiering digested span && not (keeps tiering.on_digest)) ≡ true) where
    pub tier_segments-err :
        (e : TieringError)
        → (move_segment tiering span st).0 ≡ err e
        → tier_segments tiering digested (span ∷ spans) st highest
          ≡ (err e, (move_segment tiering span st).1)
    unfolding tier_segments
    tier_segments-err e is = rw (tier_segments, go, is) refl

    pub tier_segments-panic :
        (move_segment tiering span st).0 ≡ panic
        → tier_segments tiering digested (span ∷ spans) st highest
          ≡ (panic, (move_segment tiering span st).1)
    unfolding tier_segments
    tier_segments-panic is = rw (tier_segments, go, is) refl

    pub tier_segments-ok :
        (u : Unit {0})
        → (move_segment tiering span st).0 ≡ ok u
        → tier_segments tiering digested (span ∷ spans) st highest
          ≡ tier_segments tiering digested spans
              (counting (move_segment tiering span st).1)
              (some (as_i64 span.to_block))
    unfolding tier_segments
    tier_segments-ok u is = rw (tier_segments, go, is) refl

    -- A pass goes on after a move that succeeds, and ends with any other.
    pub tier_segments-moves :
        (((move_segment tiering span st).0 ≡ ok tt)
          × (tier_segments tiering digested (span ∷ spans) st highest
              ≡ tier_segments tiering digested spans
                  (counting (move_segment tiering span st).1)
                  (some (as_i64 span.to_block))))
        ⊎ (((tier_segments tiering digested (span ∷ spans) st highest).1
              ≡ (move_segment tiering span st).1)
            × ((to : Option ℤ)
                → (tier_segments tiering digested (span ∷ spans) st highest).0 ≢ ok to))
    tier_segments-moves = elim (Result-cases (move_segment tiering span st).0) [
      | inl (u, is) ↦ inl (is, tier_segments-ok u is)
      | inr (inl (e, is)) ↦ inr (
        ap (λ p. p.1) (tier_segments-err e is),
        λ to d. ground (arith, ap (λ p. p.0) (tier_segments-err e is)),
      )
      | inr (inr is) ↦ inr (
        ap (λ p. p.1) (tier_segments-panic is),
        λ to d. ground (arith, ap (λ p. p.0) (tier_segments-panic is)),
      )
    ]
