-- ===== src/Chain/Reads/Offline.antt =====
-- Replaying a block without a node: what the digest has read and persisted is all in the archive, and what
-- the archive does not hold is an error.
use polkadot_indexer_framerw.Common.{
  ℕ, ◌≡◌, refl, sym, ap, subst, ◌∙◌, inl, inr, true, false, Option, none, some, List, [], ◌∷◌, ◌++◌,
  arith, ==_refl, Bool-cases,
}
use polkadot_indexer_framerw.Common.Result.{Result, ok, err, panic, ok_inj}
use polkadot_indexer_framerw.Store.Scale.{Scale}
use polkadot_indexer_framerw.Store.Segment.Format.{Crc32, Log, Fits}
use polkadot_indexer_framerw.Store.Layout.{segment_index}
use polkadot_indexer_framerw.Store.Segments.{Segments, Zstd}
use polkadot_indexer_framerw.Store.Segments.Getting.{HotLog-Shows, get-Shows, reading}
use polkadot_indexer_framerw.Store.Segments.Holding.{HotLog, reader_at}
use polkadot_indexer_framerw.Store.Reads.{BlockReads, ReadKey, get_reads, put_reads, decoded_reads}
use polkadot_indexer_framerw.Store.Reads.Keeping.{put_reads-get}
use polkadot_indexer_framerw.Chain.Reads.{
  CachedStorage, JsonCodec, ReadError, fetch, fetch_loaded, load_from, loaded_as, new_cached,
  persist, persist_of, was_fully_cached, slot_of,
}
use polkadot_indexer_framerw.Chain.Reads.Session.{Asked, offline, session_with}
use polkadot_indexer_framerw.Chain.Reads.Replay.{
  and_then_read, Ran, run, run-Ran, run-offline, AllRecorded,
}

-- A reader in the slot takes nothing away from a log that is held.
HotLog-reading :
    (crc : Crc32) (i : ℕ) (log : Log) (s : Segments)
    → HotLog crc i log s
    → HotLog crc i log (reading (reader_at i log true) s)
HotLog-reading crc i log s h = record {
  junk = h.junk;
  torn = h.torn;
  disk = h.disk;
  cut = h.cut;
  fits = h.fits;
  writer = h.writer;
  reader = inr (rw (==_refl i) refl);
}

-- A session that has answered a read has loaded the reads of the block.
load_ok :
    {Json : Type 0} (json : JsonCodec Json) (client : Option (Result ReadError (Option Json)))
    (key : ReadKey) (loaded : Result ReadError BlockReads) (c : CachedStorage)
    (rest : CachedStorage → Result ReadError (List (Option Json)) × CachedStorage)
    (values : List (Option Json)) (c' : CachedStorage)
    → and_then_read (fetch_loaded json client key (loaded, c)) rest ≡ (ok values, c')
    → (r : BlockReads) × (loaded ≡ ok r)
unfolding fetch_loaded
load_ok json client key (ok r) c rest values c' done = (r, refl)
load_ok json client key (err e) c rest values c' done = absurd (ground (arith, ap (λ p. p.0) done))
load_ok json client key panic c rest values c' done = absurd (ground (arith, ap (λ p. p.0) done))

module _ {Json : Type 0} (crc : Crc32) (zstd : Zstd) (scale : Scale BlockReads)
    (json : JsonCodec Json) (block : ℕ) where
  -- What the first read of the block loads.
  abbrev pub first_load : Segments → Result ReadError BlockReads
  first_load s = loaded_as (get_reads crc zstd scale block s).0

  abbrev pub after_load : Segments → Segments
  after_load s = (get_reads crc zstd scale block s).1

  load_from-new :
      (s : Segments) (r : BlockReads)
      → first_load s ≡ ok r
      → load_from crc zstd scale block none (new_cached s)
        ≡ (ok r, session_with (after_load s) r false)
  unfolding load_from
  load_from-new s r e = λ i. (e i, record (new_cached (after_load s)) { reads = slot_of (e i) })

  pub run-new :
      (first : Asked Json) (more : List (Asked Json)) (s : Segments) (r : BlockReads)
      → first_load s ≡ ok r
      → run crc zstd scale json block (first ∷ more) (new_cached s)
        ≡ run crc zstd scale json block (first ∷ more) (session_with (after_load s) r false)
  unfolding run fetch load_from
  run-new (key, client) more s r e =
      ap
        (λ loaded.
          and_then_read (fetch_loaded json client key loaded)
            (λ c. run crc zstd scale json block more c))
        (load_from-new s r e)

  -- The reads are as the archive has them also where reading them has opened a reader.
  first_load-again :
      (log : Log) (s : Segments)
      → HotLog crc (segment_index block s.segment_size) log s
      → first_load (after_load s) ≡ first_load s
  unfolding get_reads
  first_load-again log s h =
      let i = segment_index block s.segment_size in
      let s' = reading (reader_at i log true) s in
      let there = get-Shows crc zstd block log true s (HotLog-Shows crc i log s h) in
      let again =
        get-Shows crc zstd block log true s'
          (HotLog-Shows crc i log s' (HotLog-reading crc i log s h)) in
      ap (λ t. first_load t) (ap (λ p. p.1) there)
      ∙ ap (λ p. loaded_as (decoded_reads crc zstd scale p))
          (ap (λ p. p.0) again ∙ sym (ap (λ p. p.0) there))

  after_load-HotLog :
      (log : Log) (s : Segments)
      → HotLog crc (segment_index block s.segment_size) log s
      → HotLog crc (segment_index block (after_load s).segment_size) log (after_load s)
  unfolding get_reads
  after_load-HotLog log s h =
      let i = segment_index block s.segment_size in
      let there = get-Shows crc zstd block log true s (HotLog-Shows crc i log s h) in
      subst (λ t. HotLog crc (segment_index block t.segment_size) log t) (sym (ap (λ p. p.1) there))
        (HotLog-reading crc i log s h)

  -- What a replay of the reads comes to.
  pub record Replayed (trace : List (Asked Json)) (values : List (Option Json)) (s : Segments)
      : Type 0 where
    pub replay : CachedStorage
    pub answers : run crc zstd scale json block (offline trace) (new_cached s) ≡ (ok values, replay)
    pub cached : was_fully_cached replay ≡ true
    pub unchanged : persist crc zstd scale block replay ≡ (ok tt, replay)

  -- Where a first read loads reads that hold the answers, a replay gives them.
  loaded-Replayed :
      (first : Asked Json) (more : List (Asked Json)) (values : List (Option Json)) (s : Segments)
      (r : BlockReads)
      → first_load s ≡ ok r
      → AllRecorded json r (first ∷ more) values
      → Replayed (first ∷ more) values s
  unfolding persist_of
  loaded-Replayed first more values s r e h = record {
    replay = session_with (after_load s) r false;
    answers =
        run-new (first.0, none) (offline more) s r e
        ∙ run-offline crc zstd scale json block (first ∷ more) (after_load s) r false values h;
    cached = refl;
    unchanged = refl;
  }

  persist-put :
      (s t : Segments) (r : BlockReads)
      → put_reads crc zstd scale block r s ≡ (ok tt, t)
      → persist crc zstd scale block (session_with s r true) ≡ (ok tt, session_with t r false)
  unfolding persist_of
  persist-put s t r wrote = rw (ap (λ p. p.0) wrote, ap (λ p. p.1) wrote, persist_of) refl

  persist-unlearned :
      (c : CachedStorage) → c.learned ≡ false → persist crc zstd scale block c ≡ (ok tt, c)
  unfolding persist_of
  persist-unlearned c e = ap (λ l. persist_of crc zstd scale block l c.reads c) e

  -- After a session with a node, whose reads were all answered, `persist` leaves an archive that the
  -- replay answers from.
  persisted-Replayed :
      (first : Asked Json) (more : List (Asked Json)) (values : List (Option Json)) (log : Log)
      (s : Segments) (r : BlockReads) (c : CachedStorage)
      → HotLog crc (segment_index block s.segment_size) log s
      → first_load s ≡ ok r
      → Ran crc zstd scale json block (after_load s) r false (first ∷ more) values c
      → ((reads : BlockReads)
          → c.reads ≡ some reads
          → Fits (log ++ (block, zstd.encode (scale.encode reads)) ∷ []))
      → (d : CachedStorage) × (persist crc zstd scale block c ≡ (ok tt, d))
        × Replayed (first ∷ more) values d.segments
  persisted-Replayed first more values log s r c h e ran fits = elim (Bool-cases ran.learned) [
    | inl new ↦
        let fits' = fits ran.reads (ap (λ x. x.reads) ran.state) in
        let (t, wrote, own, others) =
          put_reads-get crc zstd scale block ran.reads log (after_load s)
            (after_load-HotLog log s h) fits' in
        let d = session_with t ran.reads false in
        (
          d,
          ap (persist crc zstd scale block)
                (ran.state ∙ ap (session_with (after_load s) ran.reads) new)
              ∙ persist-put (after_load s) t ran.reads wrote,
          loaded-Replayed first more values t ran.reads (ap loaded_as own) ran.recorded,
        )
    | inr old ↦ (
      c,
      persist-unlearned c (ap (λ x. x.learned) ran.state ∙ old),
      subst (Replayed (first ∷ more) values) (sym (ap (λ x. x.segments) ran.state)) (
          loaded-Replayed first more values (after_load s) ran.reads
            (first_load-again log s h ∙ e ∙ ap ok (sym (ran.unlearned old).0)) ran.recorded),
    )
  ]

  nothing-Replayed : (s : Segments) → Replayed [] [] s
  unfolding run persist_of
  nothing-Replayed s = record {
    replay = new_cached s;
    answers = refl;
    cached = refl;
    unchanged = refl;
  }

  -- A digest of a block with a node, whose reads were all answered, whatever the node answered to each
  -- and when, and whose segment the hot tier holds with room for the reads: `persist` succeeds, and a
  -- replay of the same reads without a node, from the archive that it leaves, gets the same answers, in
  -- the same order. The replay learns nothing, and its own `persist` changes nothing.
  pub replay-same :
      (trace : List (Asked Json)) (values : List (Option Json)) (log : Log) (s : Segments)
      (c : CachedStorage)
      → HotLog crc (segment_index block s.segment_size) log s
      → run crc zstd scale json block trace (new_cached s) ≡ (ok values, c)
      → ((reads : BlockReads)
          → c.reads ≡ some reads
          → Fits (log ++ (block, zstd.encode (scale.encode reads)) ∷ []))
      → (d : CachedStorage) × (persist crc zstd scale block c ≡ (ok tt, d))
        × Replayed trace values d.segments
  unfolding run fetch load_from
  replay-same [] values log s c h done fits = (
    c,
    persist-unlearned c (sym (ap (λ p. p.1.learned) done)),
    subst (λ x. Replayed [] values x.segments) (ap (λ p. p.1) done)
        (subst (λ v. Replayed [] v s) (ok_inj refl (ap (λ p. p.0) done)) (nothing-Replayed s)),
  )
  replay-same (first ∷ more) values log s c h done fits =
      let (r, e) =
        load_ok json first.1 first.0 (first_load s)
          (record (new_cached s) { segments = after_load s; reads = slot_of (first_load s) })
          (λ c'. run crc zstd scale json block more c') values c done in
      persisted-Replayed first more values log s r c h e
        (run-Ran crc zstd scale json block (first ∷ more) (after_load s) r false values c
          (sym (run-new first more s r e) ∙ done))
        fits
