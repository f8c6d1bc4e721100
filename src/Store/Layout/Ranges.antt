-- ===== src/Store/Layout/Ranges.antt =====
-- The ranges of segments: aligned, of one size, and a partition of the block numbers.
use polkadot_indexer_framerw.Common.{ℕ, ◌+◌, ◌-◌, ◌*◌, ◌/◌, ◌^◌, ◌≤◌, ◌<◌, ◌≡◌, ap, ◌↔◌, arith}
use polkadot_indexer_framerw.Store.Layout.{segment_index, segment_start, segment_end}

-- A quotient by the bounds of its interval.
div_unique : (n d q : ℕ) → 0 < d → q * d ≤ n → n < q * d + d → n / d ≡ q
div_unique n d q h lo hi = grind arith

div_bounds : (n d : ℕ) → 0 < d → (n / d * d ≤ n) × (n < n / d * d + d)
div_bounds n d h = grind arith

pub start-eq : (index size : ℕ) → index * size < 2 ^ 64 → segment_start index size ≡ index * size
unfolding segment_start
start-eq index size h = omega arith

pub end-eq :
    (index size : ℕ)
    → 0 < size
    → index * size + size ≤ 2 ^ 64
    → segment_end index size ≡ index * size + size - 1
unfolding segment_end segment_start
end-eq index size pos fits = omega arith

-- With a segment size that is not zero, a block lies in exactly one segment: the one that
-- `segment_index` names, as long as that segment ends within the `u64`s.
pub segment_partition :
    (number size index : ℕ)
    → 0 < size
    → index * size + size ≤ 2 ^ 64
    → ((segment_start index size ≤ number) × (number ≤ segment_end index size))
      ↔ (segment_index number size ≡ index)
unfolding segment_index
segment_partition number size index pos fits =
    let s = start-eq index size (omega arith) in
    let e = end-eq index size pos fits in
    let b = div_bounds number size pos in
    (
      λ h. div_unique number size index pos (omega (arith, h.0, s)) (omega (arith, h.1, e)),
      λ q.
          let p : number / size * size ≡ index * size = ap (λ (k : ℕ). k * size) q in
          (omega (arith, s, b.0), omega (arith, e, b.1)),
    )
