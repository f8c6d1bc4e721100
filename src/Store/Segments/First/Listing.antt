-- ===== src/Store/Segments/First/Listing.antt =====
-- The names that a tier lists, the segments that they stand for, and the lowest of these, as
-- `first_number` of crates/pif-store/src/segstore.rs finds it.
use polkadot_indexer_framerw.Common.{
  ℕ, ◌+◌, ◌-◌, ◌*◌, ◌^◌, ◌≤◌, ◌<◌, min, ◌≡◌, refl, sym, ap, subst, ◌∙◌, ◌⊎◌, inl, inr, Option, none,
  some, List, [], ◌∷◌, ◌++◌, arith, leb, Bool-cases, Option-cases, some_inj, length, All,
  length-append, drop-append,
}
use polkadot_indexer_framerw.Common.Map.{lookup}
use polkadot_indexer_framerw.Store.Layout.{
  idx_suffix, list_eq, seg_suffix, segment_index, segment_start, segment_stem, stem_start,
  strip_suffix,
}
use polkadot_indexer_framerw.Store.Layout.Names.{strip_suffix-append, stem_start-segment_stem}
use polkadot_indexer_framerw.Store.Layout.Ranges.{segment_partition}
use polkadot_indexer_framerw.Store.Segment.{Disk}
use polkadot_indexer_framerw.Store.Segments.{Tier, cold_at, disk_at}
use polkadot_indexer_framerw.Store.Segments.Tiers.{listing}
use polkadot_indexer_framerw.Store.Segments.Listed.{lookup-later, lookup-own, segment_start-le}
use polkadot_indexer_framerw.Store.Segments.First.{cold_listing, from_index, lowest_index, or_lower}
use native.Mathlib.Decide.{ℕ_discrete}

-- The segment that a file name stands for, if it is one of a `.seg` file.
abbrev pub index_of : ℕ → List ℕ → Option ℕ
index_of size name = from_index size (strip_suffix name seg_suffix) (stem_start name)

abbrev pub Lists : ℕ → ℕ → List (List ℕ) → Type 0
Lists size j [] = ⊥
Lists size j (name ∷ names) = (index_of size name ≡ some j) ⊎ Lists size j names

-- What the lowest index of some names is.
abbrev pub Lowest : ℕ → List (List ℕ) → Option ℕ → Type 0
Lowest size names lowest =
    ((lowest ≡ none) × ((j : ℕ) → ¬ Lists size j names))
    ⊎ ((i : ℕ) × (lowest ≡ some i) × Lists size i names × ((j : ℕ) → Lists size j names → i ≤ j))

module _ (size : ℕ) where
  Lowest-skip :
      (name : List ℕ) (names : List (List ℕ)) (lowest : Option ℕ)
      → index_of size name ≡ none
      → Lowest size names lowest
      → Lowest size (name ∷ names) lowest
  Lowest-skip name names lowest skip (inl (e, nobody)) =
      inl
        (e, λ j h. elim h [ inl own ↦ ground (arith, sym skip ∙ own) | inr later ↦ nobody j later ])
  Lowest-skip name names lowest skip (inr (i, e, has, least)) = inr (
    i,
    e,
    inr has,
    λ j h. elim h [ inl own ↦ absurd (ground (arith, sym skip ∙ own)) | inr later ↦ least j later ],
  )

  Lowest-with :
      (name : List ℕ) (names : List (List ℕ)) (k : ℕ) (lowest : Option ℕ)
      → index_of size name ≡ some k
      → Lowest size names lowest
      → Lowest size (name ∷ names) (or_lower (some k) lowest)
  Lowest-with name names k lowest is (inl (e, nobody)) = inr (
    k,
    ap (or_lower (some k)) e,
    inl is,
    λ j h. elim h [
      | inl own ↦ let same : k ≡ j = some_inj (sym is ∙ own) in omega (arith, same)
      | inr later ↦ absurd (nobody j later)
    ],
  )
  Lowest-with name names k lowest is (inr (i, e, has, least)) = inr (
    min i k,
    ap (or_lower (some k)) e,
    elim (Bool-cases (leb k i)) [
      | inl below ↦ let same : k ≡ min i k = ground (arith, below) in inl (is ∙ ap some same)
      | inr above ↦
          let same : i ≡ min i k = ground (arith, above) in
          inr (subst (λ x. Lists size x names) same has)
    ],
    λ j h. elim h [
      | inl own ↦ let same : k ≡ j = some_inj (sym is ∙ own) in omega (arith, same)
      | inr later ↦ omega (arith, least j later)
    ],
  )

  pub lowest_index-Lowest : (names : List (List ℕ)) → Lowest size names (lowest_index size names)
  unfolding lowest_index
  lowest_index-Lowest [] = inl (refl, λ j h. h)
  lowest_index-Lowest (name ∷ names) = elim (Option-cases (index_of size name)) [
    | inl skip ↦
        subst (λ o. Lowest size (name ∷ names) (or_lower o (lowest_index size names))) (sym skip)
          (Lowest-skip name names (lowest_index size names) skip (lowest_index-Lowest names))
    | inr (k, is) ↦
        subst (λ o. Lowest size (name ∷ names) (or_lower o (lowest_index size names))) (sym is)
          (Lowest-with name names k (lowest_index size names) is (lowest_index-Lowest names))
  ]

  pub Lists-append :
      (j : ℕ) (xs ys : List (List ℕ)) → Lists size j xs ⊎ Lists size j ys → Lists size j (xs ++ ys)
  Lists-append j [] ys (inl h) = absurd h
  Lists-append j [] ys (inr h) = h
  Lists-append j (x ∷ xs) ys (inl (inl h)) = inl h
  Lists-append j (x ∷ xs) ys (inl (inr h)) = inr (Lists-append j xs ys (inl h))
  Lists-append j (x ∷ xs) ys (inr h) = inr (Lists-append j xs ys (inr h))

  pub Lists-split :
      (j : ℕ) (xs ys : List (List ℕ)) → Lists size j (xs ++ ys) → Lists size j xs ⊎ Lists size j ys
  Lists-split j [] ys h = inr h
  Lists-split j (x ∷ xs) ys (inl h) = inl (inl h)
  Lists-split j (x ∷ xs) ys (inr h) = elim (Lists-split j xs ys h) [
    | inl l ↦ inl (inr l)
    | inr r ↦ inr r
  ]

  index_of-seg :
      (k : ℕ)
      → 0 < size
      → k * size + size ≤ 2 ^ 64
      → index_of size (segment_stem k size ++ seg_suffix) ≡ some k
  index_of-seg k positive small =
      let back : segment_index (segment_start k size) size ≡ k =
        (segment_partition (segment_start k size) size k positive small).0
          (segment_start-le k size positive small) in
      (λ t.
        from_index size (strip_suffix-append (segment_stem k size) seg_suffix t)
          (stem_start-segment_stem k size t))
      ∙ ap some back

  strip_suffix-idx : (stem : List ℕ) → strip_suffix (stem ++ idx_suffix) seg_suffix ≡ none
  unfolding strip_suffix list_eq
  strip_suffix-idx stem =
      let n : length (stem ++ idx_suffix) - length seg_suffix ≡ length stem =
        omega (arith, length-append stem idx_suffix) in
      rw n (rw (drop-append stem idx_suffix) (ground arith))

  index_of-idx : (k : ℕ) → index_of size (segment_stem k size ++ idx_suffix) ≡ none
  index_of-idx k =
      ap (λ stem. from_index size stem (stem_start (segment_stem k size ++ idx_suffix)))
        (strip_suffix-idx (segment_stem k size))

  abbrev pub seg_names : ℕ → Disk → List (List ℕ)
  seg_names k w = elim w.seg [ none ↦ [] | some bytes ↦ (segment_stem k size ++ seg_suffix) ∷ [] ]

  abbrev pub idx_names : ℕ → Disk → List (List ℕ)
  idx_names k w = elim w.idx [ none ↦ [] | some bytes ↦ (segment_stem k size ++ idx_suffix) ∷ [] ]

  idx_names-none : (j k : ℕ) (w : Disk) → ¬ Lists size j (idx_names k w)
  idx_names-none j k w h = elim (Option-cases w.idx) [
    | inl gone ↦ rw gone at h
    | inr (bytes, is) ↦
        let own : Lists size j ((segment_stem k size ++ idx_suffix) ∷ []) = rw is at h in
        elim own [ inl e ↦ ground (arith, sym (index_of-idx k) ∙ e) | inr past ↦ past ]
  ]

  -- What is listed is a segment file.
  pub listing-Lists :
      (j : ℕ) (whole tier : Tier)
      → 0 < size
      → All
          (λ (e : ℕ × Disk).
            (disk_at e.0 whole ≡ e.1)
            × ((b : List ℕ) → e.1.seg ≡ some b → e.0 * size + size ≤ 2 ^ 64))
          tier
      → Lists size j (listing size tier)
      → (bytes : List ℕ) × ((disk_at j whole).seg ≡ some bytes)
  unfolding listing
  listing-Lists j whole [] positive all h = absurd h
  listing-Lists j whole ((k, w) ∷ tier) positive all h =
      elim (Lists-split j (seg_names k w) (idx_names k w ++ listing size tier) h) [
        | inl own ↦ elim (Option-cases w.seg) [
          | inl gone ↦ absurd (rw gone at own)
          | inr (bytes, is) ↦
              let named : Lists size j ((segment_stem k size ++ seg_suffix) ∷ []) = rw is at own in
              elim named [
                | inl e ↦
                    let same : k ≡ j =
                      some_inj (sym (index_of-seg k positive (all.0.1 bytes is)) ∙ e) in
                    (
                      bytes,
                      subst (λ x. (disk_at x whole).seg ≡ some bytes) same
                          (ap (λ (d : Disk). d.seg) all.0.0 ∙ is),
                    )
                | inr past ↦ absurd past
              ]
        ]
        | inr more ↦ elim (Lists-split j (idx_names k w) (listing size tier) more) [
          | inl idx ↦ absurd (idx_names-none j k w idx)
          | inr later ↦ listing-Lists j whole tier positive all.1 later
        ]
      ]

  -- A segment file is listed.
  Lists-listing :
      (i : ℕ) (tier : Tier) (disk : Disk) (bytes : List ℕ)
      → 0 < size
      → i * size + size ≤ 2 ^ 64
      → lookup i tier ≡ some disk
      → disk.seg ≡ some bytes
      → Lists size i (listing size tier)
  unfolding listing lookup
  Lists-listing i [] disk bytes positive small e held = absurd (ground arith)
  Lists-listing i ((k, w) ∷ tier) disk bytes positive small e held = elim (ℕ_discrete k i) [
    | yes same ↦
        let own : w.seg ≡ some bytes = ap (λ d. d.seg) (lookup-own k i w tier disk same e) ∙ held in
        rw (listing, own)
          (inl (
            index_of-seg k positive (subst (λ n. n * size + size ≤ 2 ^ 64) (sym same) small)
            ∙ ap some same))
    | no ne ↦ Lists-append i (seg_names k w) _ (
        inr (
          Lists-append i (idx_names k w) _ (
            inr (
              Lists-listing i tier disk bytes positive small (lookup-later k i w tier disk ne e)
                held))))
  ]

  pub tier-Lists :
      (i : ℕ) (tier : Tier) (bytes : List ℕ)
      → 0 < size
      → i * size + size ≤ 2 ^ 64
      → (disk_at i tier).seg ≡ some bytes
      → Lists size i (listing size tier)
  unfolding disk_at
  tier-Lists i tier bytes positive small e = elim (Option-cases (lookup i tier)) [
    | inl gone ↦ absurd (ground (arith, gone))
    | inr (disk, is) ↦ Lists-listing i tier disk bytes positive small is (ground (arith, is))
  ]

  pub cold-Lists :
      (i : ℕ) (cold : Option Tier) (bytes : List ℕ)
      → 0 < size
      → i * size + size ≤ 2 ^ 64
      → (cold_at i cold).seg ≡ some bytes
      → Lists size i (cold_listing size cold)
  unfolding cold_at
  cold-Lists i none bytes positive small e = absurd (ground (arith, e))
  cold-Lists i (some tier) bytes positive small e = tier-Lists i tier bytes positive small e

  pub with_bounds :
      (whole tier : Tier)
      → ((k : ℕ) (b : List ℕ) → (disk_at k whole).seg ≡ some b → k * size + size ≤ 2 ^ 64)
      → All (λ (e : ℕ × Disk). disk_at e.0 whole ≡ e.1) tier
      → All
          (λ (e : ℕ × Disk).
            (disk_at e.0 whole ≡ e.1)
            × ((b : List ℕ) → e.1.seg ≡ some b → e.0 * size + size ≤ 2 ^ 64))
          tier
  with_bounds whole [] bound all = tt
  with_bounds whole ((k, w) ∷ tier) bound all = (
    (all.0, λ b is. bound k b (ap (λ (d : Disk). d.seg) all.0 ∙ is)),
    with_bounds whole tier bound all.1,
  )
