-- ===== src/Chain/Reads/Session.antt =====
-- The reads of one digest of a block, one after the other: what a session has answered is in its reads,
-- and what is in its reads it answers.
use polkadot_indexer_framerw.Common.{
  ℕ, ◌≡◌, refl, sym, ap, subst, ◌∙◌, inl, inr, Bool, true, false, Option, none, some, List, [], ◌∷◌,
  arith, Bool-cases, Option-cases,
}
use polkadot_indexer_framerw.Common.Result.{Result, ok, err, panic, ok_inj}
use polkadot_indexer_framerw.Store.Scale.{Scale}
use polkadot_indexer_framerw.Store.Segment.Format.{Crc32}
use polkadot_indexer_framerw.Store.Segments.{Segments, Zstd}
use polkadot_indexer_framerw.Store.Reads.{
  Answer, BlockReads, ReadKey, get_read, insert_read, key_eq,
}
use polkadot_indexer_framerw.Store.Reads.Keeping.{get_read-insert, key_eq_iff}
use polkadot_indexer_framerw.Chain.Reads.{
  CachedStorage, JsonCodec, ReadError, answer_from, archived, ask_node, encoded, fetch,
  fetch_loaded, learn, load_from,
}

-- A read with what the node would answer.
abbrev pub Asked : Type 0 → Type 0
Asked Json = ReadKey × Option (Result ReadError (Option Json))

-- The same reads without a client.
abbrev pub offline : {Json : Type 0} → List (Asked Json) → List (Asked Json)
offline [] = []
offline ((key, client) ∷ more) = (key, none) ∷ offline more

-- Every archived read is still archived, with the same answer.
abbrev pub Extends : BlockReads → BlockReads → Type 0
Extends r r' =
    (key : ReadKey) (answer : Answer) → get_read key r ≡ some answer → get_read key r' ≡ some answer

abbrev pub session_with : Segments → BlockReads → Bool → CachedStorage
session_with s r learned = record { segments = s; reads = some r; learned = learned }

module _ {Json : Type 0} (json : JsonCodec Json) where
  -- The read is archived with this answer.
  abbrev pub Recorded : BlockReads → ReadKey → Option Json → Type 0
  Recorded r key value =
      (answer : Answer) × (get_read key r ≡ some answer) × (archived json key answer ≡ ok value)

  pub Recorded-Extends :
      (r r' : BlockReads) (key : ReadKey) (value : Option Json)
      → Extends r r'
      → Recorded r key value
      → Recorded r' key value
  Recorded-Extends r r' key value more (answer, held, same) = (answer, more key answer held, same)

  -- What a read that succeeds leaves behind.
  pub record Read (s : Segments) (r : BlockReads) (l : Bool) (key : ReadKey) (value : Option Json)
      (c : CachedStorage) : Type 0 where
    pub reads : BlockReads
    pub learned : Bool
    pub state : c ≡ session_with s reads learned
    pub extends : Extends r reads
    pub recorded : Recorded reads key value
    pub unlearned : learned ≡ false → (reads ≡ r) × (l ≡ false)

  encoded-archived :
      (key : ReadKey) (value : Option Json) (answer : Answer)
      → encoded json key value ≡ ok answer
      → archived json key answer ≡ ok value
  unfolding encoded archived
  encoded-archived key none answer e = ap (archived json key) (sym (ok_inj refl e))
  encoded-archived key (some value) answer e = elim (Option-cases (json.to_vec value)) [
    | inl none_made ↦ absurd (ground (arith, none_made, e))
    | inr (bytes, made) ↦
        let same : some bytes ≡ answer = ok_inj refl (rw (made, encoded) at e) in
        subst (λ a. archived json key a ≡ ok (some value)) same
          (rw (json.read_back value bytes made, archived) refl)
  ]

  insert-Extends :
      (r : BlockReads) (key : ReadKey) (answer : Answer)
      → get_read key r ≡ none
      → Extends r (insert_read key answer r)
  insert-Extends r key answer fresh k held e = elim (Bool-cases (key_eq key k)) [
    | inl same ↦ absurd (ground (arith, fresh, rw (sym ((key_eq_iff key k).0 same)) at e))
    | inr differ ↦ get_read-insert key k answer r ∙ rw differ e
  ]

  insert-Recorded :
      (r : BlockReads) (key : ReadKey) (answer : Answer) (value : Option Json)
      → archived json key answer ≡ ok value
      → Recorded (insert_read key answer r) key value
  insert-Recorded r key answer value same =
      (answer, get_read-insert key key answer r ∙ rw ((key_eq_iff key key).1 refl) refl, same)

module _ {Json : Type 0} (json : JsonCodec Json) (s : Segments) (r : BlockReads) (l : Bool)
    (key : ReadKey) (value : Option Json) (c : CachedStorage) where
  learn-Read :
      (answer : Option Json) (made : Result ReadError Answer)
      → encoded json key answer ≡ made
      → get_read key r ≡ none
      → learn json key answer made r (session_with s r l) ≡ (ok value, c)
      → Read json s r l key value c
  unfolding learn
  learn-Read answer (ok stored) e fresh done =
      let same : answer ≡ value = ok_inj refl (ap (λ p. p.0) done) in
      record {
        reads = insert_read key stored r;
        learned = true;
        state = sym (ap (λ p. p.1) done);
        extends = insert-Extends json r key stored fresh;
        recorded = insert-Recorded json r key stored value (
            subst (λ v. archived json key stored ≡ ok v) same
              (encoded-archived json key answer stored e));
        unlearned = λ no. absurd (ground arith);
      }
  learn-Read answer (err e) same fresh done = absurd (ground (arith, ap (λ p. p.0) done))
  learn-Read answer panic same fresh done = absurd (ground (arith, ap (λ p. p.0) done))

  ask_node-Read :
      (client : Option (Result ReadError (Option Json)))
      → get_read key r ≡ none
      → ask_node json client key r (session_with s r l) ≡ (ok value, c)
      → Read json s r l key value c
  unfolding ask_node
  ask_node-Read none fresh done = absurd (ground (arith, ap (λ p. p.0) done))
  ask_node-Read (some (ok answer)) fresh done =
      learn-Read answer (encoded json key answer) refl fresh done
  ask_node-Read (some (err e)) fresh done = absurd (ground (arith, ap (λ p. p.0) done))
  ask_node-Read (some panic) fresh done = absurd (ground (arith, ap (λ p. p.0) done))

  answer_from-Read :
      (client : Option (Result ReadError (Option Json))) (held : Option Answer)
      → get_read key r ≡ held
      → answer_from json client key held r (session_with s r l) ≡ (ok value, c)
      → Read json s r l key value c
  unfolding answer_from
  answer_from-Read client (some answer) e done = record {
    reads = r;
    learned = l;
    state = sym (ap (λ p. p.1) done);
    extends = λ k a h. h;
    recorded = (answer, e, ap (λ p. p.0) done);
    unlearned = λ no. (refl, no);
  }
  answer_from-Read client none e done = ask_node-Read client e done

module _ {Json : Type 0} (crc : Crc32) (zstd : Zstd) (scale : Scale BlockReads)
    (json : JsonCodec Json) (block : ℕ) where
  -- A read that a loaded session has answered is in its reads.
  pub fetch-Read :
      (s : Segments) (r : BlockReads) (l : Bool) (client : Option (Result ReadError (Option Json)))
      (key : ReadKey) (value : Option Json) (c : CachedStorage)
      → fetch crc zstd scale json block client key (session_with s r l) ≡ (ok value, c)
      → Read json s r l key value c
  unfolding fetch load_from fetch_loaded
  fetch-Read s r l client key value c done =
      answer_from-Read json s r l key value c client (get_read key r) refl done

  -- A loaded session answers what is in its reads, whether or not there is a client.
  pub fetch-Recorded :
      (s : Segments) (r : BlockReads) (l : Bool) (client : Option (Result ReadError (Option Json)))
      (key : ReadKey) (value : Option Json)
      → Recorded json r key value
      → fetch crc zstd scale json block client key (session_with s r l)
        ≡ (ok value, session_with s r l)
  unfolding fetch load_from fetch_loaded answer_from
  fetch-Recorded s r l client key value (answer, held, same) =
      ap (λ h. answer_from json client key h r (session_with s r l)) held
      ∙ ap (λ a. (a, session_with s r l)) same
