-- ===== src/Chain/Fetch/Archive.antt =====
-- The blocks that a chunk puts into the store, and the fetch watermark that the queries leave.
use polkadot_indexer_framerw.Common.{
  ℕ, zero, suc, ◌+◌, ◌≤◌, ◌<◌, ◌≡◌, refl, sym, ap, subst, ◌∙◌, ◌≢◌, ◌⊎◌, inl, inr, Bool, true,
  false, Option, none, some, arith, ◌==◌, Bool-cases, Option-cases, some_inj,
}
use polkadot_indexer_framerw.Common.Int.{ℤ, pos, ◌≤ℤ◌, max_ℤ, leb_ℤ}
use polkadot_indexer_framerw.Db.Watermarks.{
  Watermarks, advance_fetch_watermark, advance_digest_watermark, ordered,
}
use polkadot_indexer_framerw.Db.Queue.{Chunk}
use polkadot_indexer_framerw.Store.Layout.{segment_index}
use native.Mathlib.Decide.{ℕ_discrete}
use polkadot_indexer_framerw.Chain.Fetch.{
  contiguous_done_end, Stage, put_block, Copy, absent, on_hot, on_cold, Attempt, read_fails,
  put_fails, put_done, beside, open_hot, advance_watermark, archive_from, archive_chunk,
}

-- A block that is on the cold tier.
abbrev pub is_cold : Copy → Bool
is_cold absent = false
is_cold on_hot = false
is_cold on_cold = true

beside-apart : (x : Copy) → beside x false ≡ x
beside-apart absent = refl
beside-apart on_hot = refl
beside-apart on_cold = refl

beside-warm : (x : Copy) (same : Bool) → is_cold x ≡ false → is_cold (beside x same) ≡ false
beside-warm absent same h = refl
beside-warm on_hot same h = refl
beside-warm on_cold same h = absurd (ground (arith, h))

module _ (size n b : ℕ) (stored : ℕ → Copy) where
  open_hot-hot : stored b ≡ on_hot → open_hot size n stored b ≡ on_hot
  unfolding open_hot
  open_hot-hot h = ap (λ x. beside x (segment_index n size == segment_index b size)) h

  open_hot-apart :
      (segment_index n size == segment_index b size) ≡ false → open_hot size n stored b ≡ stored b
  unfolding open_hot
  open_hot-apart apart = ap (beside (stored b)) apart ∙ beside-apart (stored b)

  open_hot-warm : is_cold (stored b) ≡ false → is_cold (open_hot size n stored b) ≡ false
  unfolding open_hot
  open_hot-warm h = beside-warm (stored b) (segment_index n size == segment_index b size) h

  put_block-hot : stored b ≡ on_hot → put_block size n stored b ≡ on_hot
  unfolding put_block
  put_block-hot h = elim (Bool-cases (n == b)) [
    | inl own ↦ rw own refl
    | inr other ↦ rw other (open_hot-hot h)
  ]

  put_block-apart :
      (segment_index n size == segment_index b size) ≡ false → put_block size n stored b ≡ stored b
  unfolding put_block
  put_block-apart apart = elim (Bool-cases (n == b)) [
    | inl own ↦
        let same : segment_index n size ≡ segment_index b size =
          ap (λ k. segment_index k size) (ground (arith, own)) in
        absurd (ground (arith, same, apart))
    | inr other ↦ rw other (open_hot-apart apart)
  ]

  put_block-warm : is_cold (stored b) ≡ false → is_cold (put_block size n stored b) ≡ false
  unfolding put_block
  put_block-warm h = elim (Bool-cases (n == b)) [
    | inl own ↦ rw own refl
    | inr other ↦ rw other (open_hot-warm h)
  ]

put_block-own : (size n : ℕ) (stored : ℕ → Copy) → put_block size n stored n ≡ on_hot
unfolding put_block
put_block-own size n stored = let own : (n == n) ≡ true = ground arith in rw own refl

Attempt-cases : (a : Attempt) → (a ≡ read_fails) ⊎ ((a ≡ put_fails) ⊎ (a ≡ put_done))
Attempt-cases read_fails = inl refl
Attempt-cases put_fails = inr (inl refl)
Attempt-cases put_done = inr (inr refl)

module _ (size : ℕ) (reads : ℕ → Attempt) where
  -- What every put and every opening of a segment keeps for a block, the loop keeps.
  archive_from_keeps :
      (b : ℕ) (P : Copy → Type 0) (within : ℕ → Type 0)
      → ((n : ℕ) (stored : ℕ → Copy) → within n → P (stored b) → P (open_hot size n stored b))
      → ((n : ℕ) (stored : ℕ → Copy) → within n → P (stored b) → P (put_block size n stored b))
      → (count number : ℕ) (stored : ℕ → Copy)
      → ((n : ℕ) → number ≤ n → n < number + count → within n)
      → P (stored b)
      → P ((archive_from size reads count number stored).1 b)
  unfolding archive_from
  archive_from_keeps b P within opens puts zero number stored inside h = h
  archive_from_keeps b P within opens puts (suc count) number stored inside h =
      let at = inside number (omega arith) (omega arith) in
      elim (Attempt-cases (reads number)) [
        | inl is ↦ rw (is, archive_from) h
        | inr (inl is) ↦ rw (is, archive_from) (opens number stored at h)
        | inr (inr is) ↦
            rw (is, archive_from)
              (archive_from_keeps b P within opens puts count (number + 1)
                (put_block size number stored)
                (λ n lo hi. inside n (omega (arith, lo)) (omega (arith, hi)))
                (puts number stored at h))
      ]

  archive_from_hot :
      (count number b : ℕ) (stored : ℕ → Copy)
      → stored b ≡ on_hot
      → (archive_from size reads count number stored).1 b ≡ on_hot
  archive_from_hot count number b stored =
      archive_from_keeps b (λ x. x ≡ on_hot) (λ n. Unit {0})
        (λ n stored at. open_hot-hot size n b stored) (λ n stored at. put_block-hot size n b stored)
        count number stored (λ n lo hi. tt)

  archive_from_stores :
      (count number b : ℕ) (stored : ℕ → Copy)
      → (archive_from size reads count number stored).0 ≡ true
      → number ≤ b
      → b < number + count
      → (archive_from size reads count number stored).1 b ≡ on_hot
  unfolding archive_from
  archive_from_stores zero number b stored ok lo hi = absurd (omega arith)
  archive_from_stores (suc count) number b stored ok lo hi = elim (Attempt-cases (reads number)) [
    | inl is ↦ absurd (ground (arith, rw (is, archive_from) at ok))
    | inr (inl is) ↦ absurd (ground (arith, rw (is, archive_from) at ok))
    | inr (inr is) ↦
        rw (is, archive_from)
          (elim (ℕ_discrete number b) [
            | yes own ↦ archive_from_hot count (number + 1) b (put_block size number stored) (
                subst (λ k. put_block size number stored k ≡ on_hot) own
                  (put_block-own size number stored))
            | no other ↦
                archive_from_stores count (number + 1) b (put_block size number stored)
                  (rw (is, archive_from) at ok) (ground (arith, lo, other)) (omega (arith, hi))
          ])
  ]

-- A chunk that is archived without an error has all its blocks up to `end` on the hot tier. Error or
-- not, a block that was on the hot tier stays there, and a block in whose segment the chunk has no
-- number up to `end` is found where it was, or not at all, as before.
pub archive_chunk_lem :
    (size : ℕ) (reads : ℕ → Attempt) (c : Chunk) (end b : ℕ) (stored : ℕ → Copy)
    → ((archive_chunk size reads c end stored).0 ≡ true
        → c.from_block ≤ b
        → b ≤ c.to_block
        → b ≤ end
        → (archive_chunk size reads c end stored).1 b ≡ on_hot)
      × (stored b ≡ on_hot → (archive_chunk size reads c end stored).1 b ≡ on_hot)
      × (((n : ℕ)
            → c.from_block ≤ n
            → n ≤ c.to_block
            → n ≤ end
            → segment_index n size ≢ segment_index b size)
          → (archive_chunk size reads c end stored).1 b ≡ stored b)
unfolding archive_chunk
archive_chunk_lem size reads c end b stored = (
  λ ok lo hi le. archive_from_stores size reads _ c.from_block b stored ok lo (omega arith),
  archive_from_hot size reads _ c.from_block b stored,
  λ apart.
      archive_from_keeps size reads b (λ x. x ≡ stored b)
        (λ n. (segment_index n size == segment_index b size) ≡ false)
        (λ n stored' at same. open_hot-apart size n b stored' at ∙ same)
        (λ n stored' at same. put_block-apart size n b stored' at ∙ same) _ c.from_block stored
        (λ n lo hi.
          let other = apart n (omega arith) (omega (arith, lo, hi)) (omega (arith, lo, hi)) in
          ground (arith, other))
        refl,
)

-- No attempt puts a block on the cold tier.
pub archive_chunk_warm :
    (size : ℕ) (reads : ℕ → Attempt) (c : Chunk) (end b : ℕ) (stored : ℕ → Copy)
    → is_cold (stored b) ≡ false
    → is_cold ((archive_chunk size reads c end stored).1 b) ≡ false
unfolding archive_chunk
archive_chunk_warm size reads c end b stored =
    archive_from_keeps size reads b (λ x. is_cold x ≡ false) (λ n. Unit {0})
      (λ n stored at. open_hot-warm size n b stored) (λ n stored at. put_block-warm size n b stored)
      _ c.from_block stored (λ n lo hi. tt)

pub fetch_of-advance :
    (to : ℤ) (row : Option Watermarks) (m : Watermarks) (b : ℕ)
    → (advance_fetch_watermark to row).1 ≡ some m
    → pos b ≤ℤ m.fetch
    → (pos b ≤ℤ to) ⊎ ((k : Watermarks) × (row ≡ some k) × (pos b ≤ℤ k.fetch))
unfolding advance_fetch_watermark
fetch_of-advance to none m b e le = cc e
fetch_of-advance to (some k) m b e le = elim (Bool-cases (leb_ℤ k.fetch to)) [
  | inl grows ↦ elim (Bool-cases (ordered (record k { fetch = max_ℤ k.fetch to }))) [
    | inl taken ↦
        let same : max_ℤ k.fetch to ≡ m.fetch =
          ap (λ (x : Watermarks). x.fetch) (some_inj (rw taken at e)) in
        inl (ground (arith, same, grows))
    | inr refused ↦
        let same : k ≡ m = some_inj (rw refused at e) in
        inr (k, refl, subst (λ (x : Watermarks). pos b ≤ℤ x.fetch) (sym same) le)
  ]
  | inr kept ↦ elim (Bool-cases (ordered (record k { fetch = max_ℤ k.fetch to }))) [
    | inl taken ↦
        let same : max_ℤ k.fetch to ≡ m.fetch =
          ap (λ (x : Watermarks). x.fetch) (some_inj (rw taken at e)) in
        inr (k, refl, ground (arith, same, kept))
    | inr refused ↦
        let same : k ≡ m = some_inj (rw refused at e) in
        inr (k, refl, subst (λ (x : Watermarks). pos b ≤ℤ x.fetch) (sym same) le)
  ]
]

pub fetch_of-digest :
    (to : ℤ) (row : Option Watermarks) (m : Watermarks)
    → (advance_digest_watermark to row).1 ≡ some m
    → (k : Watermarks) × (row ≡ some k) × (k.fetch ≡ m.fetch)
unfolding advance_digest_watermark
fetch_of-digest to none m e = cc e
fetch_of-digest to (some k) m e =
    elim (Bool-cases (ordered (record k { digest = max_ℤ k.digest to }))) [
      | inl taken ↦ (k, refl, ap (λ (x : Watermarks). x.fetch) (some_inj (rw taken at e)))
      | inr refused ↦ (k, refl, ap (λ (x : Watermarks). x.fetch) (some_inj (rw refused at e)))
    ]

pub rows-advance : (s : Stage) → (advance_watermark s).rows ≡ s.rows
unfolding advance_watermark
rows-advance s = elim (Option-cases (contiguous_done_end s.rows)) [
  | inl nothing ↦ rw (nothing, advance_watermark) refl
  | inr (through, found) ↦ rw (found, advance_watermark) refl
]
