-- ===== src/Store/Hot/Tests.antt =====
-- A block that is archived, with an encoding by the lengths of its parts, and the metadata of two runtimes.
use polkadot_indexer_framerw.Common.{
  ℕ, zero, suc, ◌^◌, ◌<◌, ◌≡◌, refl, ap, ◌∙◌, ◌≢◌, Bool, true, Option, none, some, List, [], ◌∷◌,
  ◌++◌, arith, ◌==◌, if◌then◌else◌, length,
}
use polkadot_indexer_framerw.Common.Result.{ok}
use polkadot_indexer_framerw.Store.Layout.{segment_index}
use polkadot_indexer_framerw.Store.Scale.{Scale}
use polkadot_indexer_framerw.Store.Sample.{
  toy, plain, one_block, hot_store, hot_store-HotLog, put_text, get_text, get-put_text,
}
use polkadot_indexer_framerw.Store.Segment.Format.{Fits, Log}
use polkadot_indexer_framerw.Store.Segments.{Segments}
use polkadot_indexer_framerw.Store.Segments.Getting.{Shows}
use polkadot_indexer_framerw.Store.Hot.{
  RawBlock, get_block, put_block, archived_runtimes, get_metadata, metadata_name, put_metadata,
  write_partial,
}
use polkadot_indexer_framerw.Store.Hot.Blocks.{put_block-get_block}
use polkadot_indexer_framerw.Store.Hot.Metadata.{
  Ascending, put_metadata-get, archived_runtimes_lem, listed,
}

put_texts : List (List ℕ) → List ℕ
put_texts [] = []
put_texts (text ∷ texts) = put_text text (put_texts texts)

and_texts : List ℕ × List ℕ → (List ℕ → List (List ℕ)) → List (List ℕ)
and_texts (text, bytes) rest = text ∷ rest bytes

get_texts : ℕ → List ℕ → List (List ℕ)
get_texts zero bytes = []
get_texts (suc n) bytes = and_texts (get_text bytes) (get_texts n)

get-put_texts : (texts : List (List ℕ)) → get_texts (length texts) (put_texts texts) ≡ texts
unfolding put_texts get_texts and_texts
get-put_texts [] = refl
get-put_texts (text ∷ texts) =
    ap (λ p. and_texts p (get_texts (length texts))) (get-put_text text (put_texts texts))
    ∙ ap (λ l. text ∷ l) (get-put_texts texts)

encode_block : RawBlock → List ℕ
encode_block b =
    b.number
    ∷ b.spec_version
    ∷ b.transaction_version
    ∷ length b.extrinsics
    ∷ put_text b.hash (put_text b.header (put_text b.events (put_texts b.extrinsics)))

block_of : ℕ → ℕ → ℕ → List ℕ → List ℕ → List ℕ → List (List ℕ) → RawBlock
block_of n spec tx hash header events extrinsics = record {
  number = n;
  hash = hash;
  spec_version = spec;
  transaction_version = tx;
  header = header;
  extrinsics = extrinsics;
  events = events;
}

with_events : (List ℕ → List (List ℕ) → RawBlock) → ℕ → List ℕ × List ℕ → RawBlock
with_events make count (events, bytes) = make events (get_texts count bytes)

with_header : (List ℕ → List ℕ → List (List ℕ) → RawBlock) → ℕ → List ℕ × List ℕ → RawBlock
with_header make count (header, bytes) = with_events (make header) count (get_text bytes)

with_hash : (List ℕ → List ℕ → List ℕ → List (List ℕ) → RawBlock) → ℕ → List ℕ × List ℕ → RawBlock
with_hash make count (hash, bytes) = with_header (make hash) count (get_text bytes)

decode_block : List ℕ → Option RawBlock
decode_block (n ∷ spec ∷ tx ∷ count ∷ bytes) =
    some (with_hash (block_of n spec tx) count (get_text bytes))
decode_block _ = none

decode-encode_block : (b : RawBlock) → decode_block (encode_block b) ≡ some b
unfolding encode_block decode_block with_hash with_header with_events block_of
decode-encode_block b =
    let make = block_of b.number b.spec_version b.transaction_version in
    let count = length b.extrinsics in
    ap (λ p. some (with_hash make count p)) (get-put_text b.hash _)
    ∙ ap (λ p. some (with_header (make b.hash) count p)) (get-put_text b.header _)
    ∙ ap (λ p. some (with_events (make b.hash b.header) count p)) (get-put_text b.events _)
    ∙ ap (λ e. some (make b.hash b.header b.events e)) (get-put_texts b.extrinsics)

abbrev toy_scale : Scale RawBlock
toy_scale = record {
  encode = encode_block;
  decode = decode_block;
  decode-encode = decode-encode_block;
}

abbrev sixth : RawBlock
sixth = record {
  number = 6;
  hash = 1 ∷ 2 ∷ [];
  spec_version = 1022002;
  transaction_version = 26;
  header = 3 ∷ [];
  extrinsics = (4 ∷ []) ∷ (5 ∷ 6 ∷ []) ∷ [];
  events = 7 ∷ [];
}

sixth-Fits : Fits (one_block ++ (6, plain.encode (toy_scale.encode sixth)) ∷ [])
unfolding encode_block put_text put_texts
sixth-Fits = record {
  items = ((omega arith, omega arith), ((omega arith, omega arith), tt));
  size = omega arith;
}

put_block-get_block_example :
    (t : Segments) × (put_block toy plain toy_scale sixth hot_store ≡ (ok tt, t))
    × ((get_block toy plain toy_scale 6 t).0 ≡ ok (some sixth))
    × ((k : ℕ) (other : Log) (hot : Bool)
        → k ≢ 6
        → Shows toy (segment_index k 1000) other hot hot_store
        → (get_block toy plain toy_scale k t).0 ≡ (get_block toy plain toy_scale k hot_store).0)
put_block-get_block_example =
    put_block-get_block toy plain toy_scale sixth one_block hot_store hot_store-HotLog sixth-Fits

put_metadata-get_example :
    (get_metadata 1024001 (write_partial 1022002 (1 ∷ []) ((metadata_name 1024001, 4 ∷ []) ∷ []))
      ≡ get_metadata 1024001 ((metadata_name 1024001, 4 ∷ []) ∷ []))
    × (get_metadata 1024001
          (put_metadata 1022002 (1 ∷ 2 ∷ []) ((metadata_name 1024001, 4 ∷ []) ∷ []))
        ≡ (if 1022002 == 1024001
            then some (1 ∷ 2 ∷ [])
            else get_metadata 1024001 ((metadata_name 1024001, 4 ∷ []) ∷ [])))
put_metadata-get_example =
    put_metadata-get 1022002 1024001 (1 ∷ 2 ∷ []) (1 ∷ []) ((metadata_name 1024001, 4 ∷ []) ∷ [])
      (omega arith) (omega arith)

archived_runtimes_example :
    Ascending (archived_runtimes ((metadata_name 1024001, 4 ∷ []) ∷ []))
    × ((w : ℕ) (bytes : List ℕ)
        → w < 2 ^ 32
        → get_metadata w ((metadata_name 1024001, 4 ∷ []) ∷ []) ≡ some bytes
        → listed w (archived_runtimes ((metadata_name 1024001, 4 ∷ []) ∷ [])) ≡ true)
    × ((v : ℕ) (scale : List ℕ)
        → v < 2 ^ 32
        → listed v (archived_runtimes (put_metadata v scale ((metadata_name 1024001, 4 ∷ []) ∷ [])))
          ≡ true)
archived_runtimes_example = archived_runtimes_lem ((metadata_name 1024001, 4 ∷ []) ∷ [])
