-- ===== src/Store/Segments/Contiguous/Whole.antt =====
-- `contiguous_end` ends, with the end of the whole run.
use polkadot_indexer_framerw.Common.{
  ℕ, zero, suc, ◌+◌, ◌-◌, ◌*◌, ◌^◌, ◌≤◌, ◌<◌, ◌≡◌, refl, sym, ap, ◌∙◌, ◌⊎◌, inl, inr, Bool, true,
  false, Option, none, some, [], arith, leb, ◌==◌, Bool-cases, Option-cases,
}
use polkadot_indexer_framerw.Common.Result.{Result, ok}
use polkadot_indexer_framerw.Common.Map.{contains}
use polkadot_indexer_framerw.Store.Error.{StoreError}
use polkadot_indexer_framerw.Store.Layout.{segment_index, segment_end}
use polkadot_indexer_framerw.Store.Layout.Ranges.{segment_partition, end-eq}
use polkadot_indexer_framerw.Store.Segment.{magic_len}
use polkadot_indexer_framerw.Store.Segment.Format.{Crc32, Log}
use polkadot_indexer_framerw.Store.Segments.Contiguous.Found.{
  RunsTo-later, RunsTo, contiguous_from-round, find_run-Known, stored-contains,
}
use polkadot_indexer_framerw.Store.Segments.{Segments}
use polkadot_indexer_framerw.Store.Segments.Contiguous.{
  run_end, after_run, contiguous_from, contiguous_end,
}
use polkadot_indexer_framerw.Store.Segment.Located.{index_from}
use polkadot_indexer_framerw.Store.Segments.Contiguous.Runs.{
  run_end-run, stored_in, Known, has_number,
}

contiguous_from-none :
    (number : ℕ) (last : Option ℕ) (s : Segments) → (contiguous_from zero number last s).0 ≡ ok last
unfolding contiguous_from
contiguous_from-none number last s = refl

module _ (crc : Crc32) (logs : ℕ → Option (Log × Bool)) (size : ℕ) where
  -- Whether the segments that are there end within the `i64`s.
  abbrev pub LogsEnd : Type 0
  LogsEnd = (i : ℕ) (shown : Log × Bool) → logs i ≡ some shown → i * size + size ≤ 2 ^ 63

  -- The facts of one round: the segment's numbers from `number` on, up to where the inner loop ends.
  record RunFound (number stop next_number : ℕ) : Type 0 where
    pub in_segment : number ≤ stop
    pub stop_lt : stop < 2 ^ 63
    pub from_number : number ≤ next_number
    pub to_stop : next_number ≤ stop + 1
    pub all_there : (m : ℕ) → number ≤ m → m < next_number → stored_in logs size m ≡ true
    pub ends : (next_number ≡ stop + 1) ⊎ (stored_in logs size next_number ≡ false)

  run-found :
      (number : ℕ) (log : Log) (hot : Bool)
      → 0 < size
      → segment_index number size * size + size ≤ 2 ^ 63
      → logs (segment_index number size) ≡ some (log, hot)
      → RunFound number (segment_end (segment_index number size) size) (
          run_end
            (segment_end (segment_index number size) size + 1 - number)
            number
            (index_from magic_len log []))
  run-found number log hot positive small e =
      let i = segment_index number size in
      let stop = segment_end i size in
      let index = index_from magic_len log [] in
      let run = run_end-run index (stop + 1 - number) number in
      let wide : i * size + size ≤ 2 ^ 64 = omega (arith, small) in
      let own = (segment_partition number size i positive wide).1 refl in
      let value = end-eq i size positive wide in
      let inside : (m : ℕ) → number ≤ m → m ≤ stop → stored_in logs size m ≡ contains m index =
        λ m lo hi.
          stored-contains crc logs size i m log hot
            ((segment_partition m size i positive wide).0 (omega (arith, own.0, lo), hi)) e in
      record {
        in_segment = own.1;
        stop_lt = omega (arith, value, small, positive);
        from_number = run.0;
        to_stop = omega (arith, run.1, own.1);
        all_there = λ m lo hi. inside m lo (omega (arith, hi, run.1, own.1)) ∙ run.2 m lo hi;
        ends = elim run.3 [
          | inl end ↦ inl (omega (arith, end, own.1))
          | inr away ↦ elim (Bool-cases (leb (run_end (stop + 1 - number) number index) stop)) [
            | inl below ↦ inr (
                inside (run_end (stop + 1 - number) number index) run.0 (ground (arith, below))
                ∙ away)
            | inr behind ↦ inl (ground (arith, behind, run.1, own.1))
          ]
        ];
      }

  -- One round from a segment that is there, when the rounds after it do what they should.
  round-RunsTo :
      (go_on : ℕ → Option ℕ → Segments → Result StoreError (Option ℕ) × Segments)
      (number stop next_number : ℕ) (last : Option ℕ) (s : Segments)
      → RunFound number stop next_number
      → ((stop < next_number)
          → (to : Option ℕ) × ((go_on next_number (some (next_number - 1)) s).0 ≡ ok to)
            × RunsTo (stored_in logs size) next_number (some (next_number - 1)) to)
      → (to : Option ℕ) × ((after_run go_on number last stop (ok (some next_number), s)).0 ≡ ok to)
        × RunsTo (stored_in logs size) number last to
  round-RunsTo go_on number stop next_number last s f later =
      elim (Bool-cases (next_number == number)) [
        | inl same ↦
            let is : next_number ≡ number = ground (arith, same) in
            (
              last,
              rw (after_run, same) refl,
              inl (
                elim f.ends [
                  | inl end ↦ absurd (omega (arith, end, is, f.in_segment))
                  | inr away ↦ ap (stored_in logs size) (sym is) ∙ away
                ],
                refl,
              ),
            )
        | inr more ↦
            let lt : number < next_number = ground (arith, more, f.from_number) in
            elim (Bool-cases (leb next_number stop)) [
              | inl below ↦
                  let le : next_number ≤ stop = ground (arith, below) in
                  (
                    some (next_number - 1),
                    rw (after_run, more, below) refl,
                    RunsTo-later (stored_in logs size) number next_number last
                        (some (next_number - 1)) lt f.all_there
                        (inl (
                          elim f.ends [
                            | inl end ↦ absurd (omega (arith, end, le))
                            | inr away ↦ away
                          ],
                          refl,
                        )),
                  )
              | inr behind ↦
                  let (to, done, run) = later (ground (arith, behind)) in
                  (
                    to,
                    rw (after_run, more, behind) done,
                    RunsTo-later (stored_in logs size) number next_number last to lt f.all_there
                        run,
                  )
            ]
      ]

  contiguous_from-RunsTo :
      (fuel number : ℕ) (last : Option ℕ) (s : Segments)
      → 0 < size
      → LogsEnd
      → Known crc logs size s
      → 2 ^ 64 < number + fuel
      → (to : Option ℕ) × ((contiguous_from fuel number last s).0 ≡ ok to)
        × RunsTo (stored_in logs size) number last to
  contiguous_from-RunsTo zero number last s positive end known enough =
      let i = segment_index number size in
      (
        last,
        contiguous_from-none number last s,
        inl (
          elim (Option-cases (logs i)) [
            | inl gone ↦
                ap
                  (λ (o : Option (Log × Bool)). elim o [
                    | none ↦ false
                    | some (l, b) ↦ has_number number l
                  ])
                  gone
            | inr ((log, hot), there) ↦
                let f = run-found number log hot positive (end i (log, hot) there) there in
                absurd (omega (arith, f.in_segment, f.stop_lt, enough))
          ],
          refl,
        ),
      )
  contiguous_from-RunsTo (suc fuel) number last s positive end known enough =
      let i = segment_index number size in
      let stop = segment_end i size in
      let stop' = segment_end (segment_index number s.segment_size) s.segment_size in
      let same_stop : stop' ≡ stop =
        ap (λ z. segment_end (segment_index number z) z) known.same_size in
      let go_on = contiguous_from fuel in
      let step = contiguous_from-round fuel number last s in
      let (s', known', cases) = find_run-Known crc logs size number s known in
      elim cases [
        | inl (gone, absent) ↦ (
          last,
          ap (λ p. p.0) (step ∙ ap (after_run go_on number last stop') absent),
          inl (
            ap
                (λ (o : Option (Log × Bool)). elim o [
                  | none ↦ false
                  | some (l, b) ↦ has_number number l
                ])
                gone,
            refl,
          ),
        )
        | inr (log, hot, there, run) ↦
            let next_number = run_end (stop + 1 - number) number (index_from magic_len log []) in
            let f = run-found number log hot positive (end i (log, hot) there) there in
            let (to, done, runs) = round-RunsTo go_on number stop next_number last s' f (λ lt.
              contiguous_from-RunsTo fuel next_number (some (next_number - 1)) s' positive end
                known' (omega (arith, lt, f.in_segment, enough))) in
            (
              to,
              ap (λ p. p.0) (step ∙ λ k. after_run go_on number last (same_stop k) (run k)) ∙ done,
              runs,
            )
      ]

-- In a store whose segments show logs, or are on neither tier, with a segment size that is not zero and
-- each segment that is there ending below 2^63, `contiguous_end` returns: nothing exactly when the
-- first number is not stored, and otherwise the last number of the unbroken run of stored numbers, of
-- which every one is stored and the next one is not.
pub contiguous_end-RunsTo :
    (crc : Crc32) (logs : ℕ → Option (Log × Bool)) (size from : ℕ) (s : Segments)
    → 0 < size
    → LogsEnd crc logs size
    → Known crc logs size s
    → (to : Option ℕ) × ((contiguous_end from s).0 ≡ ok to)
      × RunsTo (stored_in logs size) from none to
unfolding contiguous_end
contiguous_end-RunsTo crc logs size from s positive end known =
    contiguous_from-RunsTo crc logs size (2 ^ 64 - from + 1) from none s positive end known
      (omega arith)
