-- ===== src/Chain/Tiering/Refused.antt =====
-- What the database can refuse a tiering pass, and what it cannot.
use polkadot_indexer_framerw.Common.{
  ℕ, ◌<◌, ◌≡◌, refl, sym, ap, subst, ◌∙◌, ◌≢◌, ◌⊎◌, inl, inr, Bool, true, false, ◌&&◌, not, Option,
  none, some, List, [], ◌∷◌, arith, Bool-cases, Option-cases, All,
}
use polkadot_indexer_framerw.Common.Int.{ℤ, pos, ◌≤ℤ◌, leb_ℤ, max_ℤ}
use polkadot_indexer_framerw.Common.Result.{Result, ok, err, panic, Result-cases}
use polkadot_indexer_framerw.Store.Error.{StoreError}
use polkadot_indexer_framerw.Db.Watermarks.{Watermarks, advance_archive_watermark, RowOrdered}
use polkadot_indexer_framerw.Chain.Tiering.{
  record_segment, OnDigest, PassState, SegmentRecord, Tiering, archive_it, archive_segment,
  cold_row, counting, db_error, delete_it, delete_segment, eligible, in_store, keep_it, keeps,
  move_by, move_segment, tier_segments, stays_hot, tier_archive, TieringError, TieringReport,
}
use polkadot_indexer_framerw.Store.Segments.Tiers.{
  SegmentSpan, copy_to_cold, drop_hot, hot_segments,
}
use polkadot_indexer_framerw.Store.Segments.{Segments}
use polkadot_indexer_framerw.Chain.Fetch.{as_i64}
use polkadot_indexer_framerw.Chain.Tiering.Loop.{
  tier_segments-err, tier_segments-ok, tier_segments-panic, tier_segments-stops,
}
use polkadot_indexer_framerw.Chain.Tiering.Pass.{
  advanced, Archive, PassWorld, enabled, no_report, pass, loaded_pass, reported, tier_all,
}
use polkadot_indexer_framerw.Chain.Tiering.Prefix.{tier_archive-moves_prefix}

in_store-db :
    (done : Result StoreError ℕ × Segments) (st : PassState) → (in_store done st).0 ≢ err db_error
in_store-db (ok n, s) st e = ground arith
in_store-db (err e', s) st e = ground arith
in_store-db (panic, s) st e = ground arith

module _ (tiering : Tiering) (span : SegmentSpan) (st : PassState) where
  move_by-db_error :
      (o : OnDigest)
      → (move_by o tiering span st).0 ≡ err db_error
      → tiering.db_takes span.index ≡ false
  unfolding move_by archive_segment delete_segment
  move_by-db_error archive_it e = elim (Bool-cases (tiering.db_takes span.index)) [
    | inr refuses ↦ refuses
    | inl takes ↦
        elim (Result-cases (copy_to_cold tiering.crc tiering.media span.index st.store).0) [
          | inl (tiered, is) ↦
              let after : PassState = record st {
                store = (copy_to_cold tiering.crc tiering.media span.index st.store).1;
                rows = record_segment (cold_row tiered) st.rows;
              } in
              let removal = drop_hot tiering.media span.index after.store in
              let went : archive_segment tiering span st ≡ in_store removal after =
                rw (archive_segment, is, takes) refl in
              absurd (in_store-db removal after (sym (ap (λ p. p.0) went) ∙ e))
          | inr (inl (e', is)) ↦ absurd (ground (arith, is))
          | inr (inr is) ↦ absurd (ground (arith, is))
        ]
  ]
  move_by-db_error delete_it e = elim (Bool-cases (tiering.db_takes span.index)) [
    | inr refuses ↦ refuses
    | inl takes ↦
        let removal = drop_hot tiering.media span.index st.store in
        elim (Result-cases (in_store removal st).0) [
          | inl (v, is) ↦ absurd (ground (arith, is, takes))
          | inr (inl (e', is)) ↦
              absurd (in_store-db removal st (is ∙ ap (λ x. err x) (ground (arith, is))))
          | inr (inr is) ↦ absurd (ground (arith, is))
        ]
  ]
  move_by-db_error keep_it e = absurd (ground arith)

module _ (tiering : Tiering) (digested : ℤ) where
  tier_segments-db_error :
      (spans : List SegmentSpan) (st : PassState) (highest : Option ℤ)
      → (tier_segments tiering digested spans st highest).0 ≡ err db_error
      → (i : ℕ) × (tiering.db_takes i ≡ false)
  unfolding tier_segments
  tier_segments-db_error [] st highest e = absurd (ground arith)
  tier_segments-db_error (span ∷ spans) st highest e =
      elim (Bool-cases (eligible tiering digested span && not (keeps tiering.on_digest))) [
        | inr stop ↦ absurd (
            ground (
              arith,
              sym (ap (λ p. p.0) (tier_segments-stops tiering digested span spans st highest stop))
                  ∙ e,
            ))
        | inl go ↦ elim (Result-cases (move_segment tiering span st).0) [
          | inl (u, is) ↦
              tier_segments-db_error spans (counting (move_segment tiering span st).1)
                (some (as_i64 span.to_block))
                (sym (
                    ap (λ p. p.0) (tier_segments-ok tiering digested span spans st highest go u is))
                  ∙ e)
          | inr (inl (e', is)) ↦ (
            span.index,
            move_by-db_error tiering span st tiering.on_digest (
                is
                ∙ ap (λ x. err x)
                    (ground (
                      arith,
                      sym (
                            ap (λ p. p.0)
                              (tier_segments-err tiering digested span spans st highest go e' is))
                          ∙ e,
                    ))),
          )
          | inr (inr is) ↦ absurd (
              ground (
                arith,
                sym (
                      ap (λ p. p.0)
                        (tier_segments-panic tiering digested span spans st highest go is))
                    ∙ e,
              ))
        ]
      ]

  tier_archive-db_error :
      (st : PassState)
      → (tier_archive tiering digested st).0 ≡ err db_error
      → (i : ℕ) × (tiering.db_takes i ≡ false)
  unfolding tier_archive
  tier_archive-db_error st e = elim (Bool-cases (stays_hot tiering.on_digest st.store.cold)) [
    | inl stays ↦ absurd (ground (arith, stays))
    | inr moves ↦
        let spans = hot_segments tiering.modified st.store in
        let went : tier_archive tiering digested st ≡ tier_segments tiering digested spans st none =
          rw (tier_archive, moves) refl in
        tier_segments-db_error spans st none (sym (ap (λ p. p.0) went) ∙ e)
  ]

-- A row that has its order keeps it, and its digest mark, when the archive mark moves up to a block that
-- the digest has reached; and the table takes that.
advanced-Ordered :
    (is_blocks : Bool) (moved : Option ℤ) (answers : Bool) (m : Watermarks)
    → answers ≡ true
    → RowOrdered (some m)
    → (moved ≡ none) ⊎ ((b : ℤ) × (moved ≡ some b) × (b ≤ℤ m.digest))
    → ((advanced is_blocks moved answers (some m)).0 ≡ true)
      × ((m' : Watermarks) × ((advanced is_blocks moved answers (some m)).1 ≡ some m')
          × (m'.digest ≡ m.digest)
          × RowOrdered (some m'))
unfolding advance_archive_watermark
advanced-Ordered false moved answers m agrees order low = (refl, (m, refl, refl, order))
advanced-Ordered true none answers m agrees order low = (refl, (m, refl, refl, order))
advanced-Ordered true (some to) false m agrees order low = absurd (ground (arith, agrees))
advanced-Ordered true (some to) true m agrees order (inl e) = absurd (ground arith)
advanced-Ordered true (some to) true m agrees order (inr (b, e, le)) =
    let top = max_ℤ m.archive to in
    let below : top ≤ℤ m.digest = ground (arith, e, le) in
    let checks : (leb_ℤ top m.digest && leb_ℤ m.digest m.fetch) ≡ true = ground (arith, below) in
    (rw checks refl, (record m { archive = top }, rw checks refl, refl, (below, order.1)))

module _ (tiering : Tiering) (digested : ℤ) (archive : Archive) (archives : List Archive)
    (rows : List SegmentRecord) (m : Watermarks) (report : TieringReport) where
  abbrev first_pass : Result TieringError (Option ℤ) × PassState
  first_pass =
      tier_archive tiering digested (record { store = archive.store; rows = rows; report = report })

  tier_all-ok :
      (moved : Option ℤ)
      → first_pass.0 ≡ ok moved
      → (advanced archive.is_blocks moved tiering.db_advances (some m)).0 ≡ true
      → (tier_all tiering digested (archive ∷ archives) rows (some m) report).0
        ≡ (tier_all tiering digested archives first_pass.1.rows
            (advanced archive.is_blocks moved tiering.db_advances (some m)).1
            (reported archive.is_blocks moved first_pass.1.report)).0
  unfolding tier_all
  tier_all-ok moved is took = rw (tier_all, is, took) refl

  tier_all-err :
      (e : TieringError)
      → first_pass.0 ≡ err e
      → (tier_all tiering digested (archive ∷ archives) rows (some m) report).0 ≡ err e
  unfolding tier_all
  tier_all-err e is = rw (tier_all, is) refl

  tier_all-panic :
      first_pass.0 ≡ panic
      → (tier_all tiering digested (archive ∷ archives) rows (some m) report).0 ≡ panic
  unfolding tier_all
  tier_all-panic is = rw (tier_all, is) refl

-- Whether every archive of a list has segments of some size.
abbrev pub AllSized : List Archive → Type 0
AllSized archives = All (λ (archive : Archive). 0 < archive.store.segment_size) archives

bounded_by :
    (tiering : Tiering) (digested : ℤ) (st : PassState) (to : Option ℤ)
    → 0 < st.store.segment_size
    → (tier_archive tiering digested st).0 ≡ ok to
    → (to ≡ none) ⊎ ((b : ℤ) × (to ≡ some b) × (b ≤ℤ digested))
bounded_by tiering digested st to positive e =
    elim (tier_archive-moves_prefix tiering digested st to positive e) [
      | inl nothing ↦ inl nothing
      | inr (b, is, low, last, rest) ↦ inr (b, is, low)
    ]

tier_all-db_error :
    (tiering : Tiering) (digested : ℤ) (archives : List Archive) (rows : List SegmentRecord)
    (m : Watermarks) (report : TieringReport)
    → AllSized archives
    → tiering.db_advances ≡ true
    → m.digest ≡ digested
    → RowOrdered (some m)
    → (tier_all tiering digested archives rows (some m) report).0 ≡ err db_error
    → (i : ℕ) × (tiering.db_takes i ≡ false)
unfolding tier_all
tier_all-db_error tiering digested [] rows m report sized agrees at order e = absurd (ground arith)
tier_all-db_error tiering digested (archive ∷ archives) rows m report sized agrees at order e =
    let one = first_pass tiering digested archive archives rows m report in
    let st : PassState = record { store = archive.store; rows = rows; report = report } in
    elim (Result-cases one.0) [
      | inl (moved, is) ↦
          let low =
            subst (λ d. (moved ≡ none) ⊎ ((b : ℤ) × (moved ≡ some b) × (b ≤ℤ d))) (sym at)
              (bounded_by tiering digested st moved sized.0 is) in
          let (took, (m', next_row, same, order')) =
            advanced-Ordered archive.is_blocks moved tiering.db_advances m agrees order low in
          let report' = reported archive.is_blocks moved one.1.report in
          tier_all-db_error tiering digested archives one.1.rows m' report' sized.1 agrees
            (same ∙ at) order'
            (sym (
                tier_all-ok tiering digested archive archives rows m report moved is took
                ∙ ap (λ row. (tier_all tiering digested archives one.1.rows row report').0)
                    next_row)
              ∙ e)
      | inr (inl (e', is)) ↦ tier_archive-db_error tiering digested st (
          is
          ∙ ap (λ x. err x)
              (ground (
                arith,
                sym (tier_all-err tiering digested archive archives rows m report e' is) ∙ e,
              )))
      | inr (inr is) ↦ absurd (
          ground
            (arith, sym (tier_all-panic tiering digested archive archives rows m report is) ∙ e))
    ]

-- The table's ordering check never stops a pass: over archives whose segments have a size, with
-- watermarks that are in order and a database that answers every query and statement that the pass
-- makes, no pass ends with an error of the database.
pub pass-db_error :
    (tiering : Tiering) (world : PassWorld)
    → AllSized world.archives
    → RowOrdered world.marks
    → tiering.db_loads ≡ true
    → tiering.db_advances ≡ true
    → ((i : ℕ) → tiering.db_takes i ≡ true)
    → (pass tiering world).0 ≢ err db_error
unfolding pass loaded_pass
pass-db_error tiering world sized order loads agrees takes e =
    elim (Bool-cases (enabled tiering.on_digest world.archives)) [
      | inr off ↦ absurd (ground (arith, rw (off, pass) at e))
      | inl on ↦
          let went : pass tiering world ≡ loaded_pass tiering world true =
            (rw (pass, on) refl) ∙ ap (loaded_pass tiering world) loads in
          let e' : (loaded_pass tiering world true).0 ≡ err db_error =
            sym (ap (λ p. p.0) went) ∙ e in
          elim (Option-cases world.marks) [
            | inl gone ↦ absurd (ground (arith, rw (gone, loaded_pass) at e'))
            | inr (m, is) ↦ elim (Bool-cases (leb_ℤ (pos 0) m.digest)) [
              | inr early ↦ absurd (ground (arith, rw (is, early, loaded_pass) at e'))
              | inl begun ↦
                  let (i, refuses) =
                    tier_all-db_error tiering m.digest world.archives world.rows m no_report sized
                      agrees refl (subst RowOrdered is order) (rw (is, begun, loaded_pass) at e') in
                  absurd (ground (arith, takes i, refuses))
            ]
          ]
    ]
