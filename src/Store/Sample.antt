-- ===== src/Store/Sample.antt =====
-- A store for the examples: one segment on the hot tier, which holds the number 5; and
-- a string with its length in front, for the encodings of the examples.
use polkadot_indexer_framerw.Common.{
  ℕ, ◌%◌, ◌≡◌, refl, inl, none, some, List, [], ◌∷◌, ◌++◌, arith, length, take, drop, take-append,
  drop-append,
}
use polkadot_indexer_framerw.Common.Map.{lookup}
use polkadot_indexer_framerw.Store.Segment.Format.{Crc32, Log, Fits}
use polkadot_indexer_framerw.Store.Segments.Holding.{HotLog, disk_with}
use polkadot_indexer_framerw.Store.Segments.{Segments, Zstd, disk_at}
use polkadot_indexer_framerw.Store.Layout.{segment_index}

-- A checksum that only counts, and a compression that does nothing.
abbrev pub toy : Crc32
toy = record { hash = λ bytes. length bytes % 4294967296; hash-lt = λ bytes. omega arith }

abbrev pub plain : Zstd
plain = record { encode = λ p. p; decode = λ p. some p; decode-encode = λ p. refl }

abbrev pub one_block : Log
one_block = (5, 1 ∷ 2 ∷ []) ∷ []

abbrev pub hot_store : Segments
hot_store = record {
  segment_size = 1000;
  hot = (0, disk_with toy one_block [] []) ∷ [];
  cold = none;
  writer = none;
  reader = none;
}

pub one_block-Fits : Fits one_block
one_block-Fits = record { items = ((omega arith, omega arith), tt); size = omega arith }

pub hot_store-HotLog : HotLog toy (segment_index 6 1000) one_block hot_store
unfolding segment_index disk_at lookup
hot_store-HotLog = record {
  junk = [];
  torn = [];
  disk = refl;
  cut = omega arith;
  fits = one_block-Fits;
  writer = inl refl;
  reader = inl refl;
}

-- A string, then what follows it.
unfoldable pub put_text : List ℕ → List ℕ → List ℕ
put_text text back = length text ∷ (text ++ back)

unfoldable pub get_text : List ℕ → List ℕ × List ℕ
get_text [] = ([], [])
get_text (n ∷ bytes) = (take n bytes, drop n bytes)

pub get-put_text : (text back : List ℕ) → get_text (put_text text back) ≡ (text, back)
unfolding put_text get_text
get-put_text text back = λ i. (take-append text back i, drop-append text back i)
