-- ===== src/Store/Segments/Around.antt =====
-- Reading around a put: the record that was put, and all the others.
use polkadot_indexer_framerw.Common.{
  ℕ, ◌≡◌, refl, sym, ap, subst, ◌∙◌, ◌≢◌, inl, inr, Bool, true, false, none, some, List, [], ◌∷◌,
  ◌++◌, arith, ==_refl,
}
use polkadot_indexer_framerw.Common.Result.{ok}
use polkadot_indexer_framerw.Store.Segment.Format.{Crc32, Fits, Log}
use polkadot_indexer_framerw.Store.Segments.Holding.{HotLog, latest-append, reader_at}
use polkadot_indexer_framerw.Store.Segments.Getting.{HotLog-Shows, Shows, Shows-same, get-Shows}
use polkadot_indexer_framerw.Store.Segments.Putting.{Put, put-HotLog, put-absent}
use polkadot_indexer_framerw.Store.Segments.{
  Segments, Zstd, cold_at, decompressed, disk_at, get, no_files, put, writer_for,
}
use polkadot_indexer_framerw.Store.Segment.Located.{latest}
use polkadot_indexer_framerw.Store.Layout.{segment_index}
use native.Mathlib.Decide.{ℕ_discrete}

latest_own : (n : ℕ) (log : Log) (c : List ℕ) → latest n (log ++ (n, c) ∷ []) ≡ some c
latest_own n log c = latest-append n n log c ∙ rw (==_refl n)

latest_other :
    (k n : ℕ) (log : Log) (c : List ℕ) → k ≢ n → latest k (log ++ (n, c) ∷ []) ≡ latest k log
latest_other k n log c ne = ground (arith, latest-append k n log c)

-- What a tier shows of another segment is not changed by a put.
Put-Shows :
    (crc : Crc32) (i j : ℕ) (log other : Log) (hot : Bool) (s t : Segments)
    → Put crc i log s t
    → i ≢ j
    → Shows crc j other hot s
    → Shows crc j other hot t
Put-Shows crc i j log other hot s t p ne h =
    Shows-same crc j other s t hot (p.others j ne) (ap (cold_at j) p.same_cold) (p.readers j ne) h

module _ (crc : Crc32) (zstd : Zstd) where
  -- The answer to `get`, in a segment that is shown as the put has left it.
  get-after :
      (k i : ℕ) (log : Log) (s t : Segments)
      → Put crc i log s t
      → i ≡ segment_index k s.segment_size
      → (get crc zstd k t).0 ≡ decompressed crc zstd (ok (latest k log))
  get-after k i log s t p e =
      let here : i ≡ segment_index k t.segment_size = rw (p.same_size, e) refl in
      ap (λ r. r.0)
        (get-Shows crc zstd k log true t
          (subst (λ j. Shows crc j log true t) here (HotLog-Shows crc i log t p.held)))

  pub decompressed-encode :
      (p : List ℕ) → decompressed crc zstd (ok (some (zstd.encode p))) ≡ ok (some p)
  decompressed-encode p = rw (decompressed, zstd.decode-encode p) refl

  get-beside :
      (k n i : ℕ) (c : List ℕ) (log other : Log) (hot : Bool) (s t : Segments)
      → Put crc i (log ++ (n, c) ∷ []) s t
      → HotLog crc i log s
      → k ≢ n
      → Shows crc (segment_index k s.segment_size) other hot s
      → (get crc zstd k t).0 ≡ (get crc zstd k s).0
  get-beside k n i c log other hot s t p h ne shown =
      elim (ℕ_discrete i (segment_index k s.segment_size)) [
        | yes e ↦
            get-after k i (log ++ (n, c) ∷ []) s t p e
            ∙ ap (λ l. decompressed crc zstd (ok l)) (latest_other k n log c ne)
            ∙ sym (
                ap (λ r. r.0)
                  (get-Shows crc zstd k log true s
                    (subst (λ j. Shows crc j log true s) e (HotLog-Shows crc i log s h))))
        | no away ↦
            let still : Shows crc (segment_index k t.segment_size) other hot t =
              subst (λ z. Shows crc (segment_index k z) other hot t) (sym p.same_size)
                (Put-Shows crc i (segment_index k s.segment_size) (log ++ (n, c) ∷ []) other hot s t
                  p away shown) in
            ap (λ r. r.0) (get-Shows crc zstd k other hot t still)
            ∙ sym (ap (λ r. r.0) (get-Shows crc zstd k other hot s shown))
      ]

  -- A put of a number whose segment the hot tier holds, while the log with the compressed payload
  -- still fits, succeeds. Reading the number then returns the payload, and reading any other number
  -- of a segment that either tier shows returns what it did before the put.
  pub put-get :
      (n : ℕ) (p : List ℕ) (log : Log) (s : Segments)
      → HotLog crc (segment_index n s.segment_size) log s
      → Fits (log ++ (n, zstd.encode p) ∷ [])
      → (t : Segments) × (put crc zstd n p s ≡ (ok tt, t))
        × ((get crc zstd n t).0 ≡ ok (some p))
        × ((k : ℕ) (other : Log) (hot : Bool)
            → k ≢ n
            → Shows crc (segment_index k s.segment_size) other hot s
            → (get crc zstd k t).0 ≡ (get crc zstd k s).0)
  put-get n p log s h fits =
      let i = segment_index n s.segment_size in
      let c = zstd.encode p in
      let (t, wrote, after) = put-HotLog crc zstd n p log s h fits in
      (
        t,
        wrote,
        get-after n i (log ++ (n, c) ∷ []) s t after refl
            ∙ ap (λ l. decompressed crc zstd (ok l)) (latest_own n log c)
            ∙ decompressed-encode p,
        λ k other hot ne shown. get-beside k n i c log other hot s t after h ne shown,
      )

  -- A put of a number whose segment only the cold tier holds, with no handle of this segment open on
  -- the hot tier, succeeds; but from then on every other number of that segment reads as absent,
  -- although before the put it read as the cold copy's log has it.
  pub put-get_cold :
      (n : ℕ) (p : List ℕ) (log : Log) (s : Segments)
      → Shows crc (segment_index n s.segment_size) log false s
      → disk_at (segment_index n s.segment_size) s.hot ≡ no_files
      → writer_for (segment_index n s.segment_size) s.writer ≡ none
      → Fits ((n, zstd.encode p) ∷ [])
      → (t : Segments) × (put crc zstd n p s ≡ (ok tt, t))
        × ((get crc zstd n t).0 ≡ ok (some p))
        × ((k : ℕ)
            → k ≢ n
            → segment_index n s.segment_size ≡ segment_index k s.segment_size
            → ((get crc zstd k s).0 ≡ decompressed crc zstd (ok (latest k log)))
              × ((get crc zstd k t).0 ≡ ok none))
  unfolding latest
  put-get_cold n p log s h gone shut fits =
      let i = segment_index n s.segment_size in
      let c = zstd.encode p in
      let (t, wrote, after) =
        put-absent crc zstd n p s shut gone
          (elim h.reader [ inl e ↦ inl e | inr e ↦ inr (reader_at i log false, e, refl) ]) fits in
      (
        t,
        wrote,
        get-after n i ((n, c) ∷ []) s t after refl
            ∙ ap (λ l. decompressed crc zstd (ok l)) (latest_own n [] c)
            ∙ decompressed-encode p,
        λ k ne e. (
          ap (λ r. r.0)
              (get-Shows crc zstd k log false s (subst (λ j. Shows crc j log false s) e h)),
          get-after k i ((n, c) ∷ []) s t after e
              ∙ ap (λ l. decompressed crc zstd (ok l)) (latest_other k n [] c ne),
        ),
      )
