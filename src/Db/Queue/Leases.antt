-- ===== src/Db/Queue/Leases.antt =====
-- Leases: what a claim takes, and who can hold a chunk at the same time.
use polkadot_indexer_framerw.Common.{
  ℕ, ◌+◌, ◌<◌, ◌≡◌, refl, sym, ap, subst, ◌∙◌, ◌≢◌, inl, inr, Bool, true, false, Option, none, some,
  List, [], ◌∷◌, arith, ◌==◌, if◌then◌else◌, Bool-cases, some_inj,
}
use polkadot_indexer_framerw.Db.Queue.{
  ChunkRow, Chunk, claim_chunk, claimable, Ceiling, leased_row, reclaim_expired_chunks,
  release_chunk, update_chunk, expired, pending, leased,
}
use polkadot_indexer_framerw.Db.Queue.Tiling.{release, claim, here, next, QueueRun-Tiled, Tiled}
use polkadot_indexer_framerw.Db.Queue.Prefix.{done_at-below, done_at}

-- The row with a key.
unfoldable pub row_at : ℕ → List ChunkRow → Option ChunkRow
row_at from [] = none
row_at from (r ∷ rows) = if r.from_block == from then some r else row_at from rows

row_at-below :
    (start stop from : ℕ) (rows : List ChunkRow)
    → Tiled start rows stop
    → from < start
    → row_at from rows ≡ none
unfolding row_at
row_at-below start stop from [] t h = refl
row_at-below start stop from (r ∷ rows) t h =
    ground (arith, row_at-below (r.to_block + 1) stop from rows t.2)

module _ (locked : ℕ → Bool) (now : ℕ) (by : List ℕ) (seconds : ℕ) (ceiling : Ceiling) where
  -- What a claim does: it takes the lowest claimable row, and leases it until `now + seconds`, or there
  -- is none and nothing changes.
  pub record Claims (rows rows' : List ChunkRow) (c : Chunk) : Type 0 where
    pub row : ChunkRow
    pub found : row_at c.from_block rows ≡ some row
    pub free : claimable locked ceiling row ≡ true
    pub to_same : c.to_block ≡ row.to_block
    pub counted : c.attempts ≡ row.attempts + 1
    pub held : row_at c.from_block rows' ≡ some (leased_row by seconds now row)
    pub lowest :
        (from : ℕ) (r : ChunkRow)
        → from < c.from_block
        → row_at from rows ≡ some r
        → claimable locked ceiling r ≡ false
    pub others : (from : ℕ) → from ≢ c.from_block → row_at from rows' ≡ row_at from rows

  abbrev taken : ChunkRow → Chunk
  taken r = record { from_block = r.from_block; to_block = r.to_block; attempts = r.attempts + 1 }

  claim-free :
      (r : ChunkRow) (rows : List ChunkRow)
      → claimable locked ceiling r ≡ true
      → claim_chunk locked now by seconds ceiling (r ∷ rows)
        ≡ (some (taken r), leased_row by seconds now r ∷ rows)
  unfolding claim_chunk
  claim-free r rows e = rw (e, claim_chunk)

  claim-not_free :
      (r : ChunkRow) (rows : List ChunkRow)
      → claimable locked ceiling r ≡ false
      → claim_chunk locked now by seconds ceiling (r ∷ rows) ≡ (
        (claim_chunk locked now by seconds ceiling rows).0,
        r ∷ (claim_chunk locked now by seconds ceiling rows).1,
      )
  unfolding claim_chunk
  claim-not_free r rows e = rw (e, claim_chunk)

  Claims-here :
      (start stop : ℕ) (r : ChunkRow) (rows : List ChunkRow)
      → Tiled start (r ∷ rows) stop
      → claimable locked ceiling r ≡ true
      → Claims (r ∷ rows) (leased_row by seconds now r ∷ rows) (taken r)
  unfolding row_at
  Claims-here start stop r rows t free = record {
    row = r;
    found = ground arith;
    free = free;
    to_same = refl;
    counted = refl;
    held = ground arith;
    lowest = λ from q lt at.
        let away = row_at-below (r.to_block + 1) stop from rows t.2 (omega arith) in
        absurd (ground arith);
    others = λ from ne. ground arith;
  }

  Claims-there :
      (start stop : ℕ) (r : ChunkRow) (rows rows' : List ChunkRow) (c : Chunk)
      → Tiled start (r ∷ rows) stop
      → claimable locked ceiling r ≡ false
      → Claims rows rows' c
      → Claims (r ∷ rows) (r ∷ rows') c
  unfolding row_at
  Claims-there start stop r rows rows' c t not_free k =
      let apart : r.from_block ≡ c.from_block → ⊥ = λ e.
        let away = row_at-below (r.to_block + 1) stop c.from_block rows t.2 (omega arith) in
        cc (k.found, away) in
      record {
        row = k.row;
        found = ground (arith, k.found);
        free = k.free;
        to_same = k.to_same;
        counted = k.counted;
        held = ground (arith, k.held);
        lowest = λ from q lt at. elim (Bool-cases (r.from_block == from)) [
          | inl same ↦
              let same_row : r ≡ q = ground arith in
              subst (λ (x : ChunkRow). claimable locked ceiling x ≡ false) same_row not_free
          | inr other ↦ k.lowest from q lt (ground arith)
        ];
        others = λ from ne. ground (arith, k.others from ne);
      }

  pub claim_chunk-Claims :
      (start stop : ℕ) (rows : List ChunkRow) (c : Chunk)
      → Tiled start rows stop
      → (claim_chunk locked now by seconds ceiling rows).0 ≡ some c
      → Claims rows (claim_chunk locked now by seconds ceiling rows).1 c
  claim_chunk-Claims start stop [] c t e = unfold claim_chunk in (cc e)
  claim_chunk-Claims start stop (r ∷ rows) c t e = elim (Bool-cases (claimable locked ceiling r)) [
    | inl free ↦
        let same : taken r ≡ c = some_inj (sym (ap (λ p. p.0) (claim-free r rows free)) ∙ e) in
        rw (claim-free r rows free) (
          subst (Claims (r ∷ rows) (leased_row by seconds now r ∷ rows)) same
            (Claims-here start stop r rows t free))
    | inr not_free ↦ rw (claim-not_free r rows not_free) (
        Claims-there start stop r rows (claim_chunk locked now by seconds ceiling rows).1 c t
          not_free
          (claim_chunk-Claims (r.to_block + 1) stop rows c t.2
            (sym (ap (λ p. p.0) (claim-not_free r rows not_free)) ∙ e)))
  ]

  -- A claim that returns nothing changes nothing, and no row that a key finds was claimable.
  pub claim_chunk-none :
      (rows : List ChunkRow)
      → (claim_chunk locked now by seconds ceiling rows).0 ≡ none
      → ((claim_chunk locked now by seconds ceiling rows).1 ≡ rows)
        × ((from : ℕ) (r : ChunkRow)
            → row_at from rows ≡ some r
            → claimable locked ceiling r ≡ false)
  unfolding row_at
  claim_chunk-none [] e = (unfold claim_chunk in refl, λ from r h. cc h)
  claim_chunk-none (q ∷ rows) e = elim (Bool-cases (claimable locked ceiling q)) [
    | inl free ↦ cc (claim-free q rows free)
    | inr not_free ↦
        let ih = claim_chunk-none rows (sym (ap (λ p. p.0) (claim-not_free q rows not_free)) ∙ e) in
        (
          rw (claim-not_free q rows not_free) (ap (λ l. q ∷ l) ih.0),
          λ from r h. elim (Bool-cases (q.from_block == from)) [
            | inl same ↦
                let same_row : q ≡ r = ground arith in
                subst (λ (x : ChunkRow). claimable locked ceiling x ≡ false) same_row not_free
            | inr other ↦ ih.1 from r (ground arith)
          ],
        )
  ]

-- Two claims on a tiled queue, one straight after the other, of any workers with any brakes, hand out
-- different chunks.
pub claim_twice :
    (locked locked' : ℕ → Bool) (now now' : ℕ) (by by' : List ℕ) (seconds seconds' : ℕ)
    (ceiling ceiling' : Ceiling) (start stop : ℕ) (rows : List ChunkRow) (c d : Chunk)
    → Tiled start rows stop
    → (claim_chunk locked now by seconds ceiling rows).0 ≡ some c
    → (claim_chunk locked' now' by' seconds' ceiling'
        (claim_chunk locked now by seconds ceiling rows).1).0
      ≡ some d
    → c.from_block ≢ d.from_block
claim_twice locked locked' now now' by by' seconds seconds' ceiling ceiling' start stop rows c d t e
      e' same =
    let rows' = (claim_chunk locked now by seconds ceiling rows).1 in
    let k = claim_chunk-Claims locked now by seconds ceiling start stop rows c t e in
    let t' : Tiled start rows' stop =
      (QueueRun-Tiled start stop (next here (claim locked now by seconds ceiling rows)) t).0 in
    let k' = claim_chunk-Claims locked' now' by' seconds' ceiling' start stop rows' d t' e' in
    let row_same : leased_row by seconds now k.row ≡ k'.row =
      some_inj (sym k.held ∙ ap (λ n. row_at n rows') same ∙ k'.found) in
    let state : k'.row.state ≡ leased = ap (λ (r : ChunkRow). r.state) (sym row_same) in
    ground (arith, state, k'.free)

abbrev pub reclaimed : ℕ → ChunkRow → ChunkRow
reclaimed now r =
    if expired now r
    then record r { state = pending; leased_by = none; lease_expires_at = none }
    else r

-- A sweep puts back to pending exactly the leased rows whose lease has run out, and leaves every other row
-- as it is.
pub row_at-reclaim :
    (now from : ℕ) (rows : List ChunkRow)
    → row_at from (reclaim_expired_chunks now rows).0
      ≡ (elim (row_at from rows) [ none ↦ none | some r ↦ some (reclaimed now r) ])
unfolding row_at reclaim_expired_chunks
row_at-reclaim now from [] = refl
row_at-reclaim now from (r ∷ rows) = ground (arith, row_at-reclaim now from rows)

-- Releasing a chunk that is on a tiled queue leaves its first block unfinished, also when the row is done:
-- a worker that fails after its lease ran out takes back a chunk that another worker has finished.
pub late_release :
    (start stop from : ℕ) (error : List ℕ) (rows : List ChunkRow) (r : ChunkRow)
    → Tiled start rows stop
    → row_at from rows ≡ some r
    → done_at from (release_chunk from error rows) ≡ false
unfolding release_chunk update_chunk row_at
late_release start stop from error [] r t e = cc e
late_release start stop from error (q ∷ rows) r t e = elim (Bool-cases (q.from_block == from)) [
  | inl same ↦
      let t' : Tiled (q.to_block + 1) (release_chunk from error rows) stop =
        (QueueRun-Tiled (q.to_block + 1) stop (next here (release from error rows)) t.2).0 in
      ground (arith, done_at-below (q.to_block + 1) stop from (release_chunk from error rows) t')
  | inr other ↦
      let away = row_at-below (q.to_block + 1) stop from rows t.2 in
      ground (arith, late_release (q.to_block + 1) stop from error rows r t.2)
]
