-- ===== src/Chain/Reads/Tests.antt =====
-- A block whose reads are fetched from a node, persisted, and replayed: with an encoding of reads by the
-- lengths of their parts.
use polkadot_indexer_framerw.Common.{
  read_at, ℕ, zero, suc, ◌≡◌, refl, sym, ap, subst, ◌∙◌, inl, false, Option, none, some, List, [],
  ◌∷◌, ◌++◌, arith, some_inj, length,
}
use polkadot_indexer_framerw.Common.Result.{Result, ok, err}
use polkadot_indexer_framerw.Store.Scale.{Scale}
use polkadot_indexer_framerw.Common.Map.{contains, insert, lookup}
use polkadot_indexer_framerw.Store.Sample.{
  toy, plain, one_block, hot_store, hot_store-HotLog, get-put_text, get_text, put_text,
}
use polkadot_indexer_framerw.Store.Reads.{
  Answer, BlockReads, ReadKey, find_read, get_read, get_reads, insert_read, key_eq, put_read,
}
use polkadot_indexer_framerw.Chain.Reads.{
  CachedStorage, JsonCodec, ReadError, new_cached, node_failed, answer_from, archived, ask_node,
  encoded, fetch, fetch_loaded, learn, load_from, persist, storage_not_archived,
}
use polkadot_indexer_framerw.Chain.Reads.Offline.{Replayed, replay-same}
use polkadot_indexer_framerw.Chain.Reads.Session.{Asked, offline}
use polkadot_indexer_framerw.Store.Segment.Format.{Fits, Log}
use polkadot_indexer_framerw.Store.Segment.Located.{latest}
use polkadot_indexer_framerw.Store.Segments.Holding.{HotLog, disk_with}
use polkadot_indexer_framerw.Chain.Reads.Replay.{run, AllRecorded}
use polkadot_indexer_framerw.Store.Segment.Reader.{
  check_frame, check_header, open_reader, parse_entries, read, read_located, refresh, refresh_index,
  scan, scan_step,
}
use polkadot_indexer_framerw.Store.Segment.{check_magic}
use polkadot_indexer_framerw.Store.Segments.{
  Segments, cold_at, disk_at, get, locate, locate_in, open_slot, read_record,
}
use polkadot_indexer_framerw.Store.Layout.{list_eq, segment_index}
use polkadot_indexer_framerw.Chain.Reads.Missing.{fetch-offline}

put_answer : Answer → List ℕ → List ℕ
put_answer none back = 0 ∷ back
put_answer (some text) back = 1 ∷ put_text text back

with_text : List ℕ × List ℕ → Answer × List ℕ
with_text (text, back) = (some text, back)

get_answer : List ℕ → Answer × List ℕ
get_answer [] = (none, [])
get_answer (zero ∷ bytes) = (none, bytes)
get_answer (suc n ∷ bytes) = with_text (get_text bytes)

get-put_answer :
    (answer : Answer) (back : List ℕ) → get_answer (put_answer answer back) ≡ (answer, back)
unfolding put_answer get_answer with_text
get-put_answer none back = refl
get-put_answer (some text) back = ap with_text (get-put_text text back)

put_entry : ReadKey × Answer → List ℕ → List ℕ
put_entry (key, answer) back =
    put_text key.pallet (put_text key.entry (put_text key.keys (put_answer answer back)))

entry_of : List ℕ → List ℕ → List ℕ → Answer × List ℕ → (ReadKey × Answer) × List ℕ
entry_of p e r (answer, back) = ((record { pallet = p; entry = e; keys = r }, answer), back)

entry_at3 : List ℕ → List ℕ → List ℕ × List ℕ → (ReadKey × Answer) × List ℕ
entry_at3 p e (r, bytes) = entry_of p e r (get_answer bytes)

entry_at2 : List ℕ → List ℕ × List ℕ → (ReadKey × Answer) × List ℕ
entry_at2 p (e, bytes) = entry_at3 p e (get_text bytes)

entry_at1 : List ℕ × List ℕ → (ReadKey × Answer) × List ℕ
entry_at1 (p, bytes) = entry_at2 p (get_text bytes)

get-put_entry :
    (e : ReadKey × Answer) (back : List ℕ) → entry_at1 (get_text (put_entry e back)) ≡ (e, back)
unfolding put_entry entry_at1 entry_at2 entry_at3 entry_of
get-put_entry (key, answer) back =
    ap entry_at1 (get-put_text key.pallet _)
    ∙ ap (entry_at2 key.pallet) (get-put_text key.entry _)
    ∙ ap (entry_at3 key.pallet key.entry) (get-put_text key.keys _)
    ∙ ap (entry_of key.pallet key.entry key.keys) (get-put_answer answer back)

put_entries : List (ReadKey × Answer) → List ℕ
put_entries [] = []
put_entries (e ∷ more) = put_entry e (put_entries more)

and_more :
    (ReadKey × Answer) × List ℕ → (List ℕ → List (ReadKey × Answer)) → List (ReadKey × Answer)
and_more (e, bytes) rest = e ∷ rest bytes

get_entries : ℕ → List ℕ → List (ReadKey × Answer)
get_entries zero bytes = []
get_entries (suc n) bytes = and_more (entry_at1 (get_text bytes)) (get_entries n)

get-put_entries :
    (entries : List (ReadKey × Answer))
    → get_entries (length entries) (put_entries entries) ≡ entries
unfolding put_entries get_entries and_more
get-put_entries [] = refl
get-put_entries (e ∷ more) =
    ap (λ p. and_more p (get_entries (length more))) (get-put_entry e (put_entries more))
    ∙ ap (λ l. e ∷ l) (get-put_entries more)

by_lengths : List ℕ → Option BlockReads
by_lengths [] = none
by_lengths (n ∷ bytes) = some (record { entries = get_entries n bytes })

abbrev toy_scale : Scale BlockReads
unfolding by_lengths
toy_scale = record {
  encode = λ reads. length reads.entries ∷ put_entries reads.entries;
  decode = by_lengths;
  decode-encode = λ reads i. some (record { entries = get-put_entries reads.entries i });
}

abbrev toy_json : JsonCodec (List ℕ)
toy_json = record {
  to_vec = λ json. some json;
  from_slice = λ bytes. some bytes;
  read_back = λ json bytes e. ap some (sym (some_inj e));
}

abbrev identity_of : ReadKey
identity_of = record { pallet = 1 ∷ []; entry = 2 ∷ []; keys = 3 ∷ [] }

abbrev super_of : ReadKey
super_of = record { pallet = 1 ∷ []; entry = 4 ∷ []; keys = 3 ∷ [] }

-- An identity, a parent that is not there, and the identity again, for which the node, by now, would
-- answer something else.
abbrev three_reads : List (Asked (List ℕ))
three_reads =
    (identity_of, some (ok (some (7 ∷ []))))
    ∷ (super_of, some (ok none))
    ∷ (identity_of, some (err node_failed))
    ∷ []

abbrev three_answers : List (Option (List ℕ))
three_answers = some (7 ∷ []) ∷ none ∷ some (7 ∷ []) ∷ []

abbrev two_entries : BlockReads
two_entries = record { entries = (identity_of, some (7 ∷ [])) ∷ (super_of, none) ∷ [] }

session : CachedStorage
session = (run toy plain toy_scale toy_json 6 three_reads (new_cached hot_store)).1

answered :
    run toy plain toy_scale toy_json 6 three_reads (new_cached hot_store)
    ≡ (ok three_answers, session)
unfolding session run fetch fetch_loaded load_from get_reads get open_slot locate locate_in disk_at
    lookup segment_index open_reader check_header refresh refresh_index read_at and_more by_lengths
    entry_at1 entry_at2 entry_at3 entry_of get_answer get_entries get_text put_answer put_entries
    put_entry put_text toy_scale with_text answer_from archived ask_node encoded learn contains
    insert list_eq find_read get_read insert_read key_eq put_read check_frame parse_entries read
    read_located scan scan_step check_magic cold_at read_record
answered = refl

kept : session.reads ≡ some two_entries
unfolding session run fetch fetch_loaded load_from get_reads get open_slot locate locate_in disk_at
    lookup segment_index open_reader check_header refresh refresh_index read_at and_more by_lengths
    entry_at1 entry_at2 entry_at3 entry_of get_answer get_entries get_text put_answer put_entries
    put_entry put_text toy_scale with_text answer_from archived ask_node encoded learn contains
    insert list_eq find_read get_read insert_read key_eq put_read check_frame parse_entries read
    read_located scan scan_step check_magic cold_at read_record
kept = refl

kept-Fits :
    (reads : BlockReads)
    → session.reads ≡ some reads
    → Fits (one_block ++ (6, plain.encode (toy_scale.encode reads)) ∷ [])
unfolding toy_scale put_entries put_entry put_text put_answer
kept-Fits reads e =
    subst (λ r. Fits (one_block ++ (6, plain.encode (toy_scale.encode r)) ∷ []))
      (some_inj (sym kept ∙ e))
      (record {
        items = ((omega arith, omega arith), ((omega arith, omega arith), tt));
        size = omega arith;
      })

replay-same_example :
    (d : CachedStorage) × (persist toy plain toy_scale 6 session ≡ (ok tt, d))
    × Replayed toy plain toy_scale toy_json 6 three_reads three_answers d.segments
replay-same_example =
    replay-same toy plain toy_scale toy_json 6 three_reads three_answers one_block hot_store session
      hot_store-HotLog answered kept-Fits

-- An archive with the two reads of block 6.
abbrev recorded_log : Log
recorded_log = (6, toy_scale.encode two_entries) ∷ []

abbrev recorded_store : Segments
recorded_store = record hot_store { hot = (0, disk_with toy recorded_log [] []) ∷ [] }

recorded_store-HotLog : HotLog toy (segment_index 6 1000) recorded_log recorded_store
unfolding segment_index disk_at lookup toy_scale put_entries put_entry put_text put_answer
recorded_store-HotLog = record {
  junk = [];
  torn = [];
  disk = refl;
  cut = omega arith;
  fits = record { items = ((omega arith, omega arith), tt); size = omega arith };
  writer = inl refl;
  reader = inl refl;
}

fetch-offline_example :
    ((trace : List (Asked (List ℕ))) (values : List (Option (List ℕ))) (c : CachedStorage)
      → run toy plain toy_scale toy_json 6 (offline trace) (new_cached recorded_store)
        ≡ (ok values, c)
      → AllRecorded toy_json two_entries trace values × (c.learned ≡ false))
    × ((trace : List (Asked (List ℕ))) (values : List (Option (List ℕ)))
        → AllRecorded toy_json two_entries trace values
        → (run toy plain toy_scale toy_json 6 (offline trace) (new_cached recorded_store)).0
          ≡ ok values)
    × ((front more : List (Asked (List ℕ))) (key : ReadKey)
          (client : Option (Result ReadError (Option (List ℕ)))) (values : List (Option (List ℕ)))
        → AllRecorded toy_json two_entries front values
        → get_read key two_entries ≡ none
        → (run toy plain toy_scale toy_json 6
            (offline (front ++ (key, client) ∷ more))
            (new_cached recorded_store)).0
          ≡ err (storage_not_archived key.pallet key.entry))
unfolding latest
fetch-offline_example =
    fetch-offline toy plain toy_scale toy_json 6 recorded_log two_entries recorded_store
      recorded_store-HotLog (inl refl)
