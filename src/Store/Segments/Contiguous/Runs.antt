-- ===== src/Store/Segments/Contiguous/Runs.antt =====
-- The run of numbers that `contiguous_end` finds, against the logs that the segments show.
use polkadot_indexer_framerw.Common.{
  ℕ, zero, suc, ◌+◌, ◌≤◌, ◌<◌, ◌≡◌, refl, sym, ap, subst, ◌∙◌, ◌⊎◌, inl, inr, Bool, true, false,
  Option, none, some, [], append-nil, arith, ==_refl, Bool-cases,
}
use polkadot_indexer_framerw.Common.Result.{ok}
use polkadot_indexer_framerw.Common.Map.{Map, contains}
use polkadot_indexer_framerw.Store.Layout.{segment_index}
use polkadot_indexer_framerw.Store.Segment.{magic_len}
use polkadot_indexer_framerw.Store.Segment.Format.{Crc32, Log, Fits}
use polkadot_indexer_framerw.Store.Segments.{
  CachedReader, Segments, locate, reader_for, open_slot, slot_files,
}
use polkadot_indexer_framerw.Store.Segment.Reader.{Located, refresh}
use polkadot_indexer_framerw.Store.Segments.Getting.{Shows, reading}
use polkadot_indexer_framerw.Store.Segment.Located.{index_from, latest, lookup-latest}
use polkadot_indexer_framerw.Store.Segments.Holding.{reader_at}
use polkadot_indexer_framerw.Store.Segments.Contiguous.{run_end}
use polkadot_indexer_framerw.Store.Segment.Reading.{
  contains-none, contains-some, files_of, reader_of, refresh-reader_of,
}
use native.Mathlib.Decide.{ℕ_discrete}

-- Whether a log has a number.
abbrev pub has_number : ℕ → Log → Bool
has_number n log = elim (latest n log) [ none ↦ false | some p ↦ true ]

-- Whether a number is in the log that its segment shows, if it shows one.
abbrev pub stored_in : (ℕ → Option (Log × Bool)) → ℕ → ℕ → Bool
stored_in logs size n = elim (logs (segment_index n size)) [
  | none ↦ false
  | some (log, hot) ↦ has_number n log
]

-- What is known of a segment: its log, or that it is on neither tier.
abbrev pub KnownAt : Crc32 → Option (Log × Bool) → ℕ → Segments → Type 0
KnownAt crc none i s = (locate i s ≡ none) × (reader_for i s.reader ≡ none)
KnownAt crc (some (log, hot)) i s = Shows crc i log hot s

module _ (index : Map Located) where
  -- The inner loop stops at the first number that is not in the map.
  pub run_end-run :
      (k n : ℕ)
      → (n ≤ run_end k n index)
        × (run_end k n index ≤ n + k)
        × ((m : ℕ) → n ≤ m → m < run_end k n index → contains m index ≡ true)
        × ((run_end k n index ≡ n + k) ⊎ (contains (run_end k n index) index ≡ false))
  unfolding run_end
  run_end-run zero n =
      (omega arith, omega arith, λ m lo hi. absurd (omega (arith, lo, hi)), inl (omega arith))
  run_end-run (suc k) n = elim (Bool-cases (contains n index)) [
    | inr away ↦
        rw (run_end, away)
          (omega arith, omega arith, λ m lo hi. absurd (omega (arith, lo, hi)), inr away)
    | inl there ↦
        let rest = run_end-run k (n + 1) in
        rw (run_end, there)
          (
            omega (arith, rest.0),
            omega (arith, rest.1),
            λ m lo hi. elim (ℕ_discrete m n) [
              | yes same ↦ ap (λ x. contains x index) same ∙ there
              | no ne ↦ rest.2 m (ground (arith, lo, ne)) hi
            ],
            elim rest.3 [ inl end ↦ inl (omega (arith, end)) | inr away ↦ inr away ],
          )
  ]

pub contains-latest :
    (crc : Crc32) (n : ℕ) (log : Log) → contains n (index_from magic_len log []) ≡ has_number n log
contains-latest crc n log = elim (lookup-latest crc n log []) [
  | inl (away, absent) ↦
      contains-none n (index_from magic_len log []) away ∙ sym (rw (has_number, absent) refl)
  | inr (o, p, there, newest, bytes) ↦
      contains-some n (index_from magic_len log []) there ∙ sym (rw (has_number, newest) refl)
]

module _ (crc : Crc32) (j : ℕ) (s : Segments) (slot : Option CachedReader) where
  Known-slot :
      (known : Option (Log × Bool))
      → (reader_for j slot ≡ none)
        ⊎ ((log : Log) × (hot : Bool) × (known ≡ some (log, hot))
            × (reader_for j slot ≡ some (reader_at j log hot)))
      → KnownAt crc known j s
      → KnownAt crc known j (record s { reader = slot })
  unfolding locate
  Known-slot none (inl e) h = (h.0, e)
  Known-slot none (inr (log, hot, e, r)) h = absurd (ground (arith, e))
  Known-slot (some (log, hot)) readers h = record {
    junk = h.junk;
    torn = h.torn;
    located = h.located;
    stored = h.stored;
    cut = h.cut;
    fits = h.fits;
    reader = elim readers [
      | inl e ↦ inl e
      | inr (log', hot', e, r) ↦ inr (
          r
          ∙ ap
              (λ (o : Option (Log × Bool)). elim o [
                | none ↦ some (reader_at j log hot)
                | some (l, b) ↦ some (reader_at j l b)
              ])
              (sym e))
    ];
  }

-- The logs that the segments of a store show, which end within the `u64`s.
pub record Known (crc : Crc32) (logs : ℕ → Option (Log × Bool)) (size : ℕ) (s : Segments)
    : Type 0 where
  pub same_size : s.segment_size ≡ size
  pub at : (i : ℕ) → KnownAt crc (logs i) i s

module _ (crc : Crc32) (logs : ℕ → Option (Log × Bool)) (size : ℕ) (s : Segments) (i : ℕ) where
  pub open_slot-absent :
      locate i s ≡ none
      → reader_for i s.reader ≡ none
      → open_slot i s ≡ (ok none, record s { reader = none })
  unfolding open_slot
  open_slot-absent gone shut = rw (open_slot, shut, gone) refl

  pub Known-none : Known crc logs size s → Known crc logs size (record s { reader = none })
  Known-none h = record {
    same_size = h.same_size;
    at = λ j. Known-slot crc j s none (logs j) (inl refl) (h.at j);
  }

  pub Known-reading :
      (log : Log) (hot : Bool)
      → logs i ≡ some (log, hot)
      → Known crc logs size s
      → Known crc logs size (reading (reader_at i log hot) s)
  Known-reading log hot e h = record {
    same_size = h.same_size;
    at = λ j.
        Known-slot crc j s (some (reader_at i log hot)) (logs j)
          (elim (ℕ_discrete i j) [
            | no ne ↦ inl (ground arith)
            | yes same ↦ inr (
              log,
              hot,
              ap logs (sym same) ∙ e,
              subst (λ k. reader_for k (some (reader_at i log hot)) ≡ some (reader_at k log hot))
                  same (rw (==_refl i) refl),
            )
          ])
          (h.at j);
  }

  pub refresh-shown :
      (log : Log) (hot : Bool)
      → Shows crc i log hot s
      → refresh (slot_files (reader_at i log hot) s) (reader_of log) ≡ (ok tt, reader_of log)
  refresh-shown log hot h =
      ap (λ f. refresh f (reader_of log)) h.stored
      ∙ subst (λ l. refresh (files_of crc l h.junk h.torn) (reader_of log) ≡ (ok tt, reader_of l))
          (append-nil log)
          (refresh-reader_of crc log [] h.junk h.torn (subst Fits (sym (append-nil log)) h.fits)
            h.cut)
