-- ===== src/Chain/Reads/Missing.antt =====
-- Reads without a client: only the archive answers them.
use polkadot_indexer_framerw.Common.{
  ℕ, ◌≡◌, refl, sym, ap, subst, ◌∙◌, ◌⊎◌, inl, inr, true, false, Option, none, some, List, [], ◌∷◌,
  ◌++◌, arith,
}
use polkadot_indexer_framerw.Common.Result.{Result, ok, err, ok_inj}
use polkadot_indexer_framerw.Store.Scale.{Scale}
use polkadot_indexer_framerw.Store.Segment.Format.{Crc32, Log}
use polkadot_indexer_framerw.Store.Segment.Located.{latest}
use polkadot_indexer_framerw.Store.Layout.{segment_index}
use polkadot_indexer_framerw.Store.Segments.{Segments, Zstd, decompressed}
use polkadot_indexer_framerw.Store.Segments.Around.{decompressed-encode}
use polkadot_indexer_framerw.Store.Segments.Getting.{HotLog-Shows, get-Shows}
use polkadot_indexer_framerw.Store.Segments.Holding.{HotLog}
use polkadot_indexer_framerw.Store.Reads.{
  Answer, BlockReads, ReadKey, decoded_reads, get_read, get_reads, no_reads,
}
use polkadot_indexer_framerw.Store.Reads.Keeping.{decoded_reads-encode}
use polkadot_indexer_framerw.Chain.Reads.{
  CachedStorage, JsonCodec, ReadError, answer_from, fetch, fetch_loaded, load_from,
  storage_not_archived, ask_node, loaded_as, new_cached,
}
use polkadot_indexer_framerw.Chain.Reads.Offline.{after_load, first_load, run-new}
use polkadot_indexer_framerw.Chain.Reads.Replay.{
  AllRecorded, and_then_read, and_then_read-err, and_then_read-ok, run, run-offline,
}
use polkadot_indexer_framerw.Chain.Reads.Session.{
  Asked, Recorded, fetch-Recorded, offline, session_with,
}

module _ {Json : Type 0} (json : JsonCodec Json) (key : ReadKey) (c : CachedStorage) where
  answer_from-same :
      (held : Option Answer) (r : BlockReads) → (answer_from json none key held r c).1 ≡ c
  unfolding answer_from ask_node
  answer_from-same (some answer) r = refl
  answer_from-same none r = refl

  answer_from-Recorded :
      (held : Option Answer) (r : BlockReads) (value : Option Json)
      → get_read key r ≡ held
      → (answer_from json none key held r c).0 ≡ ok value
      → Recorded json r key value
  unfolding answer_from ask_node
  answer_from-Recorded (some answer) r value there e = (answer, there, e)
  answer_from-Recorded none r value there e = absurd (ground (arith, e))

  answer_from-missing :
      (r : BlockReads)
      → answer_from json none key none r c ≡ (err (storage_not_archived key.pallet key.entry), c)
  unfolding answer_from ask_node
  answer_from-missing r = refl

-- What a record of the block's segment, or its absence, means for the reads of the block.
abbrev pub Archived : Zstd → Scale BlockReads → Option (List ℕ) → BlockReads → Type 0
Archived zstd scale payload r =
    (payload ≡ some (zstd.encode (scale.encode r))) ⊎ ((payload ≡ none) × (r ≡ no_reads))

module _ {Json : Type 0} (crc : Crc32) (zstd : Zstd) (scale : Scale BlockReads)
    (json : JsonCodec Json) (block : ℕ) where
  first_load-Archived :
      (log : Log) (r : BlockReads) (s : Segments)
      → HotLog crc (segment_index block s.segment_size) log s
      → Archived zstd scale (latest block log) r
      → first_load crc zstd scale json block s ≡ ok r
  unfolding get_reads
  first_load-Archived log r s h held =
      let i = segment_index block s.segment_size in
      let there =
        ap (λ p. p.0) (get-Shows crc zstd block log true s (HotLog-Shows crc i log s h)) in
      let loads = ap (λ p. loaded_as (decoded_reads crc zstd scale p)) there in
      elim held [
        | inl one ↦
            loads
            ∙ ap (λ p. loaded_as (decoded_reads crc zstd scale p))
                (ap (λ l. decompressed crc zstd (ok l)) one
                  ∙ decompressed-encode crc zstd (scale.encode r))
            ∙ ap loaded_as (decoded_reads-encode crc zstd scale r)
        | inr (gone, nothing) ↦
            loads
            ∙ ap (λ l. loaded_as (decoded_reads crc zstd scale (decompressed crc zstd (ok l)))) gone
            ∙ ap ok (sym nothing)
      ]

  fetch-session :
      (s : Segments) (r : BlockReads) (key : ReadKey)
      → fetch crc zstd scale json block none key (session_with s r false)
        ≡ answer_from json none key (get_read key r) r (session_with s r false)
  unfolding fetch load_from fetch_loaded
  fetch-session s r key = refl

  -- Reads that a loaded session answers without a client are archived, and it learns nothing.
  run-answered :
      (trace : List (Asked Json)) (s : Segments) (r : BlockReads) (values : List (Option Json))
      (c : CachedStorage)
      → run crc zstd scale json block (offline trace) (session_with s r false) ≡ (ok values, c)
      → AllRecorded json r trace values × (c.learned ≡ false)
  unfolding run
  run-answered [] s r values c e = (
    subst (AllRecorded json r []) (ok_inj refl (ap (λ p. p.0) e)) tt,
    sym (ap (λ p. p.1.learned) e),
  )
  run-answered ((key, client) ∷ more) s r values c e =
      let held = session_with s r false in
      let (value, rest, mid, shape, first, then) =
        and_then_read-ok (fetch crc zstd scale json block none key held)
          (λ c'. run crc zstd scale json block (offline more) c') values c e in
      let asked = sym (fetch-session s r key) ∙ first in
      let same : mid ≡ held =
        sym (ap (λ p. p.1) asked) ∙ answer_from-same json key held (get_read key r) r in
      let one =
        answer_from-Recorded json key held (get_read key r) r value refl (ap (λ p. p.0) asked) in
      let (many, unlearned) =
        run-answered more s r rest c
          (subst (λ m. run crc zstd scale json block (offline more) m ≡ (ok rest, c)) same then) in
      (subst (AllRecorded json r ((key, client) ∷ more)) (sym shape) (one, many), unlearned)

  -- Behind reads that are archived, the first one that is not stops the session.
  run-stops :
      (front more : List (Asked Json)) (key : ReadKey)
      (client : Option (Result ReadError (Option Json))) (s : Segments) (r : BlockReads)
      (values : List (Option Json))
      → AllRecorded json r front values
      → get_read key r ≡ none
      → (run crc zstd scale json block
          (offline (front ++ (key, client) ∷ more))
          (session_with s r false)).0
        ≡ err (storage_not_archived key.pallet key.entry)
  unfolding run
  run-stops [] more key client s r values h gone =
      let held = session_with s r false in
      ap (λ first. (and_then_read first (λ c. run crc zstd scale json block (offline more) c)).0)
        (fetch-session s r key
          ∙ ap (λ a. answer_from json none key a r held) gone
          ∙ answer_from-missing json key held r)
  run-stops ((k, asked) ∷ front) more key client s r [] h gone = absurd h
  run-stops ((k, asked) ∷ front) more key client s r (value ∷ values) h gone =
      let held = session_with s r false in
      let rest : CachedStorage → Result ReadError (List (Option Json)) × CachedStorage =
        λ c. run crc zstd scale json block (offline (front ++ (key, client) ∷ more)) c in
      ap (λ first. (and_then_read first rest).0)
        (fetch-Recorded crc zstd scale json block s r false none k value h.0)
      ∙ and_then_read-err value held rest (storage_not_archived key.pallet key.entry)
          (run-stops front more key client s r values h.1 gone)

  module _ (s : Segments) (r : BlockReads) (e : first_load crc zstd scale json block s ≡ ok r) where
    new_answered :
        (trace : List (Asked Json)) (values : List (Option Json)) (c : CachedStorage)
        → run crc zstd scale json block (offline trace) (new_cached s) ≡ (ok values, c)
        → AllRecorded json r trace values × (c.learned ≡ false)
    unfolding run
    new_answered [] values c went = (
      subst (AllRecorded json r []) (ok_inj refl (ap (λ p. p.0) went)) tt,
      sym (ap (λ p. p.1.learned) went),
    )
    new_answered (first ∷ more) values c went =
        run-answered (first ∷ more) (after_load crc zstd scale json block s) r values c
          (sym (run-new crc zstd scale json block (first.0, none) (offline more) s r e) ∙ went)

    new_answers :
        (trace : List (Asked Json)) (values : List (Option Json))
        → AllRecorded json r trace values
        → (run crc zstd scale json block (offline trace) (new_cached s)).0 ≡ ok values
    unfolding run
    new_answers [] [] all = refl
    new_answers [] (value ∷ values) all = absurd all
    new_answers (first ∷ more) values all =
        ap (λ p. p.0)
          (run-new crc zstd scale json block (first.0, none) (offline more) s r e
            ∙ run-offline crc zstd scale json block (first ∷ more)
                (after_load crc zstd scale json block s) r false values all)

    new_stops :
        (front more : List (Asked Json)) (key : ReadKey)
        (client : Option (Result ReadError (Option Json))) (values : List (Option Json))
        → AllRecorded json r front values
        → get_read key r ≡ none
        → (run crc zstd scale json block (offline (front ++ (key, client) ∷ more)) (new_cached s)).0
          ≡ err (storage_not_archived key.pallet key.entry)
    new_stops [] more key client values all gone =
        ap (λ p. p.0) (run-new crc zstd scale json block (key, none) (offline more) s r e)
        ∙ run-stops [] more key client (after_load crc zstd scale json block s) r values all gone
    new_stops (first ∷ front) more key client values all gone =
        ap (λ p. p.0)
          (run-new crc zstd scale json block (first.0, none)
            (offline (front ++ (key, client) ∷ more)) s r e)
        ∙ run-stops (first ∷ front) more key client (after_load crc zstd scale json block s) r
            values all gone

  -- Reads of a block without a client, in a new session over an archive whose hot tier holds the
  -- block's segment, with reads recorded for the block or with none. Whatever the session answers is
  -- archived for those keys, in order, and it has learned nothing. Reads that are all archived are all
  -- answered, as they are archived. The first read that is not archived ends the session with an error
  -- that names it.
  pub fetch-offline :
      (log : Log) (r : BlockReads) (s : Segments)
      → HotLog crc (segment_index block s.segment_size) log s
      → Archived zstd scale (latest block log) r
      → ((trace : List (Asked Json)) (values : List (Option Json)) (c : CachedStorage)
          → run crc zstd scale json block (offline trace) (new_cached s) ≡ (ok values, c)
          → AllRecorded json r trace values × (c.learned ≡ false))
        × ((trace : List (Asked Json)) (values : List (Option Json))
            → AllRecorded json r trace values
            → (run crc zstd scale json block (offline trace) (new_cached s)).0 ≡ ok values)
        × ((front more : List (Asked Json)) (key : ReadKey)
              (client : Option (Result ReadError (Option Json))) (values : List (Option Json))
            → AllRecorded json r front values
            → get_read key r ≡ none
            → (run crc zstd scale json block
                (offline (front ++ (key, client) ∷ more))
                (new_cached s)).0
              ≡ err (storage_not_archived key.pallet key.entry))
  fetch-offline log r s h held =
      let e = first_load-Archived log r s h held in
      (new_answered s r e, new_answers s r e, new_stops s r e)
