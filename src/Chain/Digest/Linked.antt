-- ===== src/Chain/Digest/Linked.antt =====
-- What the digest commits: an unbroken run of blocks, each linked to the one before.
use polkadot_indexer_framerw.Common.{
  ℕ, zero, suc, ◌+◌, ◌-◌, ◌≤◌, min, max, ◌≡◌, refl, sym, ap, subst, ◌∙◌, ◌≢◌, ◌⊎◌, inl, inr, Bool,
  true, Option, none, some, List, [], ◌∷◌, ◌++◌, append_assoc, append-nil, arith, leb, Bool-cases,
  Option-cases, some_inj, length, length-append,
}
use polkadot_indexer_framerw.Common.Result.{Result, ok, err, panic}
use polkadot_indexer_framerw.Common.Int.{ℤ, pos, negsuc, ◌≤ℤ◌, min_ℤ}
use polkadot_indexer_framerw.Db.Watermarks.{Watermarks, advance_digest_watermark}
use polkadot_indexer_framerw.Chain.Digest.{
  digest_up_to, digest_ready, refused, pos, advance_digest_watermark, handler_failed, Watermarks,
  Header, DigestError, Committed, links, last_block, decode_blocks, write_batch, commit, batches,
  replay_range, all_handled,
}

-- Blocks numbered from `number` on, the first one a child of `link`, each other one of its predecessor.
abbrev pub Linked : ℕ → Option (List ℕ) → List (ℕ × Header) → Type 0
Linked number link [] = Unit
Linked number link ((n, h) ∷ blocks) =
    (n ≡ number) × (links link h ≡ true) × Linked (number + 1) (some h.hash) blocks

-- The hash that the next block has to name as its parent.
abbrev tip : Option (List ℕ) → List (ℕ × Header) → Option (List ℕ)
tip link [] = link
tip link ((n, h) ∷ blocks) = tip (some h.hash) blocks

Linked-append :
    (number : ℕ) (link : Option (List ℕ)) (xs ys : List (ℕ × Header)) (k : ℕ)
    → k ≡ number + length xs
    → Linked number link xs
    → Linked k (tip link xs) ys
    → Linked number link (xs ++ ys)
Linked-append number link [] ys k e h h' =
    let same : k ≡ number = omega arith in subst (λ n. Linked n link ys) same h'
Linked-append number link ((n, x) ∷ xs) ys k e h h' =
    (h.0, h.1, Linked-append (number + 1) (some x.hash) xs ys k (omega arith) h.2 h')

tip-last_block :
    (link : Option (List ℕ)) (blocks : List (ℕ × Header)) (n : ℕ) (h : Header)
    → last_block blocks ≡ some (n, h)
    → tip link blocks ≡ some h.hash
tip-last_block link [] n h e = cc e
tip-last_block link ((k, x) ∷ []) n h e = ap (λ (b : ℕ × Header). some b.1.hash) (some_inj e)
tip-last_block link ((k, x) ∷ (j, y) ∷ blocks) n h e =
    tip-last_block (some x.hash) ((j, y) ∷ blocks) n h e

Result-cases :
    {A : Type 0} (r : Result DigestError A)
    → ((a : A) × (r ≡ ok a)) ⊎ ((e : DigestError) × (r ≡ err e)) ⊎ (r ≡ panic)
Result-cases (ok a) = inl (a, refl)
Result-cases (err e) = inr (inl (e, refl))
Result-cases panic = inr (inr refl)

ok_inj : {A : Type 0} {a b : A} → ◌≡◌ {A = Result DigestError A} (ok a) (ok b) → a ≡ b
ok_inj {A} {a} {b} e =
    ap (λ (r : Result DigestError A). elim r [ ok x ↦ x | err x ↦ a | panic ↦ a ]) e

-- What a row of batches leaves behind: `new` is what it has committed.
abbrev pub Digested :
    ℕ → ℕ → Option (List ℕ) → Committed → Result DigestError (Unit {0}) × Committed → Type 0
Digested next last link db (result, db') =
    (new : List (ℕ × Header)) × (db'.blocks ≡ db.blocks ++ new)
    × Linked next link new
    × (length new ≤ last + 1 - next)
    × ((result ≢ ok tt) ⊎ (length new ≡ last + 1 - next))

-- A run of new blocks that stays at or below a bound.
abbrev pub RunUpTo : ℤ → ℕ → Option (List ℕ) → Committed → Committed → Type 0
RunUpTo last next link db db' =
    (new : List (ℕ × Header)) × (db'.blocks ≡ db.blocks ++ new)
    × Linked next link new
    × ((length new ≡ 0) ⊎ (pos (next + length new - 1) ≤ℤ last))

module _ (archive : ℕ → Option Header) (handled : ℕ → Bool) where
  decode_blocks-Linked :
      (count number : ℕ) (link : Option (List ℕ)) (blocks : List (ℕ × Header))
      → decode_blocks archive handled count number link ≡ ok blocks
      → Linked number link blocks × (length blocks ≡ count)
  unfolding decode_blocks
  decode_blocks-Linked zero number link blocks e =
      let none_left : [] ≡ blocks = ok_inj e in
      subst (λ l. Linked number link l × (length l ≡ 0)) none_left (tt, refl)
  decode_blocks-Linked (suc count) number link blocks e = elim (Option-cases (archive number)) [
    | inl missing ↦ cc (rw (missing, decode_blocks) at e)
    | inr (h, found) ↦ elim (Bool-cases (links link h)) [
      | inr broken ↦ cc (rw (found, broken, decode_blocks) at e)
      | inl linked ↦
          elim (Result-cases (decode_blocks archive handled count (number + 1) (some h.hash))) [
            | inl (rest, decoded) ↦
                let same : (number, h) ∷ rest ≡ blocks =
                  ok_inj (rw (found, linked, decoded, decode_blocks) at e) in
                let ih = decode_blocks-Linked count (number + 1) (some h.hash) rest decoded in
                subst (λ l. Linked number link l × (length l ≡ suc count)) same
                  ((refl, linked, ih.0), omega (arith, ih.1))
            | inr (inl (x, failed)) ↦ cc (rw (found, linked, failed, decode_blocks) at e)
            | inr (inr failed) ↦ cc (rw (found, linked, failed, decode_blocks) at e)
          ]
    ]
  ]

  -- A commit adds the whole batch or nothing.
  commit-cases :
      (from to : ℕ) (link : Option (List ℕ)) (db : Committed)
      → ((hash : List ℕ) × (new : List (ℕ × Header)) × (marks : Option Watermarks) × (commit archive
              handled from to link db
            ≡ (ok hash, record { blocks = db.blocks ++ new; marks = marks }))
          × Linked from link new
          × (length new ≡ to + 1 - from)
          × (tip link new ≡ some hash))
        ⊎ ((e : DigestError) × (commit archive handled from to link db ≡ (err e, db)))
        ⊎ (commit archive handled from to link db ≡ (panic, db))
  unfolding commit write_batch
  commit-cases from to link db =
      elim (Result-cases (decode_blocks archive handled (to + 1 - from) from link)) [
        | inr (inl (e, failed)) ↦ inr (inl (e, rw (failed, commit) refl))
        | inr (inr failed) ↦ inr (inr (rw (failed, commit) refl))
        | inl (blocks, decoded) ↦ elim (Bool-cases (all_handled archive handled blocks)) [
          | inr refuses ↦
              inr (inl (handler_failed, rw (decoded, refuses, commit, write_batch) refl))
          | inl handles ↦ elim (Option-cases (last_block blocks)) [
            | inl empty ↦ inr (inr (rw (decoded, handles, empty, commit, write_batch) refl))
            | inr ((n, h), last) ↦ elim (Bool-cases (advance_digest_watermark (pos n) db.marks).0) [
              | inr check ↦
                  inr (inl (refused, rw (decoded, handles, last, check, commit, write_batch) refl))
              | inl taken ↦
                  let good = decode_blocks-Linked (to + 1 - from) from link blocks decoded in
                  inl (
                    h.hash,
                    blocks,
                    (advance_digest_watermark (pos n) db.marks).1,
                    rw (decoded, handles, last, taken, commit, write_batch) refl,
                    good.0,
                    good.1,
                    tip-last_block link blocks n h last,
                  )
            ]
          ]
        ]
      ]

  batches-Digested :
      (fuel batch next last : ℕ) (link : Option (List ℕ)) (db : Committed)
      → last + 1 - next ≤ fuel
      → Digested next last link db (batches archive handled fuel batch next last link db)
  unfolding batches
  batches-Digested zero batch next last link db enough =
      ([], sym (append-nil db.blocks), tt, omega arith, inr (omega arith))
  batches-Digested (suc fuel) batch next last link db enough = elim (Bool-cases (leb next last)) [
    | inr past ↦
        rw (past, batches) ([], sym (append-nil db.blocks), tt, omega arith, inr (ground arith))
    | inl more ↦
        let end = min (next + max batch 1 - 1) last in
        elim (commit-cases next end link db) [
          | inl (hash, new, marks, done, linked, size, at_tip) ↦
              let db' : Committed = record { blocks = db.blocks ++ new; marks = marks } in
              let here : end + 1 ≡ next + length new = ground (arith, size) in
              let (rest, added, linked', most, all) =
                batches-Digested fuel batch (end + 1) last (some hash) db' (ground arith) in
              rw (more, batches, ap (λ p. p.0) done, ap (λ p. p.1) done)
                (
                  new ++ rest,
                  added ∙ append_assoc db.blocks new rest,
                  Linked-append next link new rest (end + 1) here linked
                      (subst (λ t. Linked (end + 1) t rest) (sym at_tip) linked'),
                  ground (arith, length-append new rest, most, here),
                  (elim all [
                    | inl fails ↦ inl fails
                    | inr whole ↦ inr (ground (arith, length-append new rest, whole, here))
                  ]),
                )
          | inr (inl (e, failed)) ↦
              rw (more, batches, ap (λ p. p.0) failed, ap (λ p. p.1) failed)
                ([], sym (append-nil db.blocks), tt, omega arith, inl (λ k. cc k))
          | inr (inr failed) ↦
              rw (more, batches, ap (λ p. p.0) failed, ap (λ p. p.1) failed)
                ([], sym (append-nil db.blocks), tt, omega arith, inl (λ k. cc k))
        ]
  ]

  -- A replay of `from ..= to` commits blocks that follow one another from `from` on, each one naming its
  -- predecessor's hash as its parent, and no block past `to`; an error leaves the part before it. When
  -- it succeeds, it has committed the whole range.
  pub replay_range-Digested :
      (batch from to : ℕ) (db : Committed)
      → Digested from to none db (replay_range archive handled batch from to db)
  unfolding replay_range
  replay_range-Digested batch from to db =
      batches-Digested (to + 1 - from) batch from to none db (omega arith)

  digest_up_to-RunUpTo :
      (last : ℤ) (batch next : ℕ) (link : Option (List ℕ)) (db : Committed)
      → RunUpTo last next link db (digest_up_to archive handled last batch next link db).1
  unfolding digest_up_to
  digest_up_to-RunUpTo (pos last) batch next link db =
      let (new, added, linked, most, all) =
        batches-Digested (last + 1 - next) batch next last link db (omega arith) in
      (new, added, linked, ground (arith, most))
  digest_up_to-RunUpTo (negsuc n) batch next link db =
      ([], sym (append-nil db.blocks), tt, inl refl)

  -- With a watermark row, one turn of the digest's loop commits a linked run of blocks, from `next`
  -- on, and every block that it commits lies at or below the fetch watermark, and at or below
  -- `stop_at` if there is one.
  pub digest_ready-RunUpTo :
      (batch next : ℕ) (link : Option (List ℕ)) (db : Committed) (m : Watermarks)
      → db.marks ≡ some m
      → RunUpTo m.fetch next link db (digest_ready archive handled batch none next link db).1
        × ((stop : ℕ)
            → RunUpTo
                (min_ℤ m.fetch (pos stop))
                next
                link
                db
                (digest_ready archive handled batch (some stop) next link db).1)
  unfolding digest_ready
  digest_ready-RunUpTo batch next link db m here =
      let ready : Option Watermarks → ℤ = λ w. elim w [ none ↦ negsuc 0 | some k ↦ k.fetch ] in
      (
        subst
            (λ w.
              RunUpTo m.fetch next link db
                (digest_up_to archive handled (ready w) batch next link db).1)
            (sym here) (digest_up_to-RunUpTo m.fetch batch next link db),
        λ stop.
            subst
              (λ w.
                RunUpTo (min_ℤ m.fetch (pos stop)) next link db
                  (digest_up_to archive handled (min_ℤ (ready w) (pos stop)) batch next link db).1)
              (sym here) (digest_up_to-RunUpTo (min_ℤ m.fetch (pos stop)) batch next link db),
      )
