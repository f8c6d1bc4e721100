-- ===== src/Chain/Reads/Replay.antt =====
-- A digest of a block with a node, and a replay of it from the archive: `fetch` for each read in turn, then
-- `persist`.
use polkadot_indexer_framerw.Common.{
  ℕ, ◌≡◌, refl, sym, ap, subst, ◌∙◌, Bool, false, Option, none, List, [], ◌∷◌, arith,
}
use polkadot_indexer_framerw.Common.Result.{Result, ok, err, panic, ok_inj}
use polkadot_indexer_framerw.Store.Scale.{Scale}
use polkadot_indexer_framerw.Store.Segment.Format.{Crc32}
use polkadot_indexer_framerw.Store.Segments.{Segments, Zstd}
use polkadot_indexer_framerw.Store.Reads.{BlockReads}
use polkadot_indexer_framerw.Chain.Reads.{CachedStorage, JsonCodec, ReadError, fetch}
use polkadot_indexer_framerw.Chain.Reads.Session.{
  Asked, Extends, Recorded, Recorded-Extends, fetch-Read, fetch-Recorded, offline, session_with,
}

module _ {Json : Type 0} where
  abbrev with_value :
      Option Json
      → Result ReadError (List (Option Json)) × CachedStorage
      → Result ReadError (List (Option Json)) × CachedStorage
  with_value value (ok values, c) = (ok (value ∷ values), c)
  with_value value (err e, c) = (err e, c)
  with_value value (panic, c) = (panic, c)

  abbrev pub and_then_read :
      Result ReadError (Option Json) × CachedStorage
      → (CachedStorage → Result ReadError (List (Option Json)) × CachedStorage)
      → Result ReadError (List (Option Json)) × CachedStorage
  and_then_read (ok value, c) rest = with_value value (rest c)
  and_then_read (err e, c) rest = (err e, c)
  and_then_read (panic, c) rest = (panic, c)

  with_value-ok :
      (value : Option Json) (rest : Result ReadError (List (Option Json)) × CachedStorage)
      (values : List (Option Json)) (c : CachedStorage)
      → with_value value rest ≡ (ok values, c)
      → (more : List (Option Json)) × (values ≡ value ∷ more) × (rest ≡ (ok more, c))
  with_value-ok value (ok more, c') values c e =
      (more, sym (ok_inj refl (ap (λ p. p.0) e)), λ i. (ok more, (e i).1))
  with_value-ok value (err x, c') values c e = absurd (ground (arith, ap (λ p. p.0) e))
  with_value-ok value (panic, c') values c e = absurd (ground (arith, ap (λ p. p.0) e))

  with_value-err :
      (value : Option Json) (rest : Result ReadError (List (Option Json)) × CachedStorage)
      (e : ReadError)
      → rest.0 ≡ err e
      → (with_value value rest).0 ≡ err e
  with_value-err value (ok more, c) e is = absurd (ground (arith, is))
  with_value-err value (err x, c) e is = is
  with_value-err value (panic, c) e is = absurd (ground (arith, is))

  pub and_then_read-err :
      (value : Option Json) (c : CachedStorage)
      (rest : CachedStorage → Result ReadError (List (Option Json)) × CachedStorage) (e : ReadError)
      → (rest c).0 ≡ err e
      → (and_then_read (ok value, c) rest).0 ≡ err e
  and_then_read-err value c rest e is = with_value-err value (rest c) e is

  pub and_then_read-ok :
      (first : Result ReadError (Option Json) × CachedStorage)
      (rest : CachedStorage → Result ReadError (List (Option Json)) × CachedStorage)
      (values : List (Option Json)) (c : CachedStorage)
      → and_then_read first rest ≡ (ok values, c)
      → (value : Option Json) × (more : List (Option Json)) × (mid : CachedStorage) × (values
          ≡ value ∷ more)
        × (first ≡ (ok value, mid))
        × (rest mid ≡ (ok more, c))
  and_then_read-ok (ok value, mid) rest values c e =
      let (more, shape, done) = with_value-ok value (rest mid) values c e in
      (value, more, mid, shape, refl, done)
  and_then_read-ok (err x, mid) rest values c e = absurd (ground (arith, ap (λ p. p.0) e))
  and_then_read-ok (panic, mid) rest values c e = absurd (ground (arith, ap (λ p. p.0) e))

  -- The reads were all archived, with these answers.
  abbrev pub AllRecorded :
      JsonCodec Json → BlockReads → List (Asked Json) → List (Option Json) → Type 0
  AllRecorded json r [] [] = Unit
  AllRecorded json r (asked ∷ trace) (value ∷ values) =
      Recorded json r asked.0 value × AllRecorded json r trace values
  AllRecorded json r [] (value ∷ values) = ⊥
  AllRecorded json r (asked ∷ trace) [] = ⊥

module _ {Json : Type 0} (crc : Crc32) (zstd : Zstd) (scale : Scale BlockReads)
    (json : JsonCodec Json) (block : ℕ) where
  -- The reads of a handler, which stops at the first that fails.
  unfoldable pub run :
      List (Asked Json) → CachedStorage → Result ReadError (List (Option Json)) × CachedStorage
  run [] c = (ok [], c)
  run ((key, client) ∷ more) c =
      and_then_read (fetch crc zstd scale json block client key c) (λ c'. run more c')

  pub record Ran (s : Segments) (r : BlockReads) (l : Bool) (trace : List (Asked Json))
      (values : List (Option Json)) (c : CachedStorage) : Type 0 where
    pub reads : BlockReads
    pub learned : Bool
    pub state : c ≡ session_with s reads learned
    pub extends : Extends r reads
    pub recorded : AllRecorded json reads trace values
    pub unlearned : learned ≡ false → (reads ≡ r) × (l ≡ false)

  pub run-Ran :
      (trace : List (Asked Json)) (s : Segments) (r : BlockReads) (l : Bool)
      (values : List (Option Json)) (c : CachedStorage)
      → run trace (session_with s r l) ≡ (ok values, c)
      → Ran s r l trace values c
  unfolding run
  run-Ran [] s r l values c done = record {
    reads = r;
    learned = l;
    state = sym (ap (λ p. p.1) done);
    extends = λ k a h. h;
    recorded = subst (AllRecorded json r []) (ok_inj refl (ap (λ p. p.0) done)) tt;
    unlearned = λ no. (refl, no);
  }
  run-Ran ((key, client) ∷ more) s r l values c done =
      let (value, rest, mid, shape, first, then) =
        and_then_read-ok (fetch crc zstd scale json block client key (session_with s r l))
          (λ c'. run more c') values c done in
      let one = fetch-Read crc zstd scale json block s r l client key value mid first in
      let many =
        run-Ran more s one.reads one.learned rest c
          (subst (λ m. run more m ≡ (ok rest, c)) one.state then) in
      record {
        reads = many.reads;
        learned = many.learned;
        state = many.state;
        extends = λ k a h. many.extends k a (one.extends k a h);
        recorded = subst (AllRecorded json many.reads ((key, client) ∷ more)) (sym shape) (
          Recorded-Extends json one.reads many.reads key value many.extends one.recorded,
          many.recorded,
        );
        unlearned = λ no.
            let before = many.unlearned no in
            let first_too = one.unlearned before.1 in (before.0 ∙ first_too.0, first_too.1);
      }

  -- What is in the reads of a session is answered without a client, and nothing is learned from it.
  pub run-offline :
      (trace : List (Asked Json)) (s : Segments) (r : BlockReads) (l : Bool)
      (values : List (Option Json))
      → AllRecorded json r trace values
      → run (offline trace) (session_with s r l) ≡ (ok values, session_with s r l)
  unfolding run
  run-offline [] s r l [] h = refl
  run-offline [] s r l (value ∷ values) h = absurd h
  run-offline ((key, client) ∷ more) s r l [] h = absurd h
  run-offline ((key, client) ∷ more) s r l (value ∷ values) h =
      ap (λ first. and_then_read first (λ c'. run (offline more) c'))
        (fetch-Recorded crc zstd scale json block s r l none key value h.0)
      ∙ ap (with_value value) (run-offline more s r l values h.1)
