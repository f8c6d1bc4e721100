-- ===== src/Store/Segments/Contiguous/Found.antt =====
-- What `contiguous_end` returns: the end of the unbroken run of stored numbers.
use polkadot_indexer_framerw.Common.{
  ℕ, suc, ◌+◌, ◌-◌, ◌≤◌, ◌<◌, ◌≡◌, refl, sym, ap, subst, ◌∙◌, ◌⊎◌, inl, inr, Bool, true, false,
  Option, none, some, [], arith, ltb, Bool-cases, Option-cases,
}
use polkadot_indexer_framerw.Common.Result.{ok}
use polkadot_indexer_framerw.Common.Map.{contains}
use polkadot_indexer_framerw.Store.Layout.{segment_index, segment_end}
use polkadot_indexer_framerw.Store.Segment.{magic_len}
use polkadot_indexer_framerw.Store.Segment.Format.{Crc32, Log}
use polkadot_indexer_framerw.Store.Segments.{open_slot, CachedReader, Segments, slot_files}
use polkadot_indexer_framerw.Store.Segments.Contiguous.Runs.{
  contains-latest, has_number, stored_in, Known, Known-none, Known-reading, KnownAt,
  open_slot-absent, refresh-shown,
}
use polkadot_indexer_framerw.Store.Segments.Contiguous.{
  contiguous_from, run_end, find_run, run_in, after_run,
}
use polkadot_indexer_framerw.Store.Segment.Located.{index_from}
use polkadot_indexer_framerw.Store.Segment.Reader.{refresh}
use polkadot_indexer_framerw.Store.Segments.Holding.{reader_at}
use polkadot_indexer_framerw.Store.Segments.Getting.{reading, Shows-open}

-- The run of stored numbers from `number` on: empty, or with a last number.
abbrev pub RunsTo : (ℕ → Bool) → ℕ → Option ℕ → Option ℕ → Type 0
RunsTo stored number last result =
    ((stored number ≡ false) × (result ≡ last))
    ⊎ ((n : ℕ) × (number ≤ n)
        × (result ≡ some n)
        × ((m : ℕ) → number ≤ m → m ≤ n → stored m ≡ true)
        × (stored (n + 1) ≡ false))

module _ (number : ℕ) (s s' : Segments) where
  find_run-absent :
      open_slot (segment_index number s.segment_size) s ≡ (ok none, s')
      → find_run number s ≡ (ok none, s')
  unfolding find_run
  find_run-absent e = rw (find_run, ap (λ p. p.0) e, ap (λ p. p.1) e) refl

  find_run-there :
      (r : CachedReader)
      → open_slot (segment_index number s.segment_size) s ≡ (ok (some r), s')
      → find_run number s
        ≡ run_in (segment_end (segment_index number s.segment_size) s.segment_size) number r s'
  unfolding find_run
  find_run-there r e = rw (find_run, ap (λ p. p.0) e, ap (λ p. p.1) e) refl

  run_in-done :
      (stop : ℕ) (r : CachedReader)
      → refresh (slot_files r s) r.inner ≡ (ok tt, r.inner)
      → run_in stop number r s ≡ (
        ok (some (run_end (stop + 1 - number) number r.inner.index)),
        record s { reader = some r },
      )
  unfolding run_in
  run_in-done stop r e = rw (run_in, ap (λ p. p.0) e, ap (λ p. p.1) e) refl

pub contiguous_from-round :
    (fuel number : ℕ) (last : Option ℕ) (s : Segments)
    → contiguous_from (suc fuel) number last s
      ≡ after_run
          (contiguous_from fuel)
          number
          last
          (segment_end (segment_index number s.segment_size) s.segment_size)
          (find_run number s)
unfolding contiguous_from
contiguous_from-round fuel number last s = refl

pub stored-contains :
    (crc : Crc32) (logs : ℕ → Option (Log × Bool)) (size i m : ℕ) (log : Log) (hot : Bool)
    → segment_index m size ≡ i
    → logs i ≡ some (log, hot)
    → stored_in logs size m ≡ contains m (index_from magic_len log [])
stored-contains crc logs size i m log hot is e =
    ap (λ (o : Option (Log × Bool)). elim o [ none ↦ false | some (l, b) ↦ has_number m l ])
      (ap logs is ∙ e)
    ∙ sym (contains-latest crc m log)

-- Putting the run of one segment before what follows.
pub RunsTo-later :
    (stored : ℕ → Bool) (number next_number : ℕ) (last result : Option ℕ)
    → number < next_number
    → ((m : ℕ) → number ≤ m → m < next_number → stored m ≡ true)
    → RunsTo stored next_number (some (next_number - 1)) result
    → RunsTo stored number last result
RunsTo-later stored number next_number last result lt run (inl (stops_at, e)) = inr (
  next_number - 1,
  omega (arith, lt),
  e,
  λ m lo hi. run m lo (omega (arith, hi, lt)),
  ap stored (omega (arith, lt)) ∙ stops_at,
)
RunsTo-later stored number next_number last result lt run (inr (n, le, e, all_there, stops_at)) =
    inr (
      n,
      omega (arith, le, lt),
      e,
      λ m lo hi. elim (Bool-cases (ltb m next_number)) [
        | inl below ↦ run m lo (ground (arith, below))
        | inr behind ↦ all_there m (ground (arith, behind)) hi
      ],
      stops_at,
    )

module _ (crc : Crc32) (logs : ℕ → Option (Log × Bool)) (size : ℕ) where
  -- One round finds a segment that is there, or not, and the store stays as it is known.
  pub find_run-Known :
      (number : ℕ) (s : Segments)
      → Known crc logs size s
      → (s' : Segments) × Known crc logs size s'
        × (((logs (segment_index number size) ≡ none) × (find_run number s ≡ (ok none, s')))
            ⊎ ((log : Log) × (hot : Bool) × (logs (segment_index number size) ≡ some (log, hot))
                × (find_run number s ≡ (
                  ok (
                      some (
                        run_end
                          (segment_end (segment_index number size) size + 1 - number)
                          number
                          (index_from magic_len log []))),
                  s',
                ))))
  find_run-Known number s h =
      let i = segment_index number size in
      let idx : i ≡ segment_index number s.segment_size =
        ap (segment_index number) (sym h.same_size) in
      elim (Option-cases (logs i)) [
        | inl e ↦
            let gone = subst (λ o. KnownAt crc o i s) e (h.at i) in
            let opened = open_slot-absent crc logs size s i gone.0 gone.1 in
            (
              record s { reader = none },
              Known-none crc logs size s i h,
              inl (
                e,
                find_run-absent number s (record s { reader = none })
                    (ap (λ k. open_slot k s) (sym idx) ∙ opened),
              ),
            )
        | inr ((log, hot), e) ↦
            let shown = subst (λ o. KnownAt crc o i s) e (h.at i) in
            let r = reader_at i log hot in
            let s' = reading r s in
            (
              s',
              Known-reading crc logs size s i log hot e h,
              inr (
                log,
                hot,
                e,
                find_run-there number s s' r
                      (ap (λ k. open_slot k s) (sym idx) ∙ Shows-open crc i log hot s shown)
                    ∙ run_in-done number s' s'
                        (segment_end (segment_index number s.segment_size) s.segment_size) r
                        (refresh-shown crc logs size s i log hot shown)
                    ∙ ap
                        (λ z. (
                          ok (
                              some (
                                run_end (segment_end (segment_index number z) z + 1 - number) number
                                  (index_from magic_len log []))),
                          s',
                        ))
                        h.same_size,
              ),
            )
      ]
