-- ===== src/Store/Tests.antt =====
-- Small segments of crates/pif-store, read, written and recovered.
use polkadot_indexer_framerw.Common.{
  ℕ, ◌-◌, ◌%◌, ◌^◌, ◌≡◌, refl, ap, ◌∙◌, ◌≢◌, ◌↔◌, Bool, true, ◌&&◌, none, some, List, [], ◌∷◌, ◌++◌,
  arith, ltb, length, replicate, All, length-replicate, IsByte,
}
use polkadot_indexer_framerw.Common.Result.{ok, panic}
use polkadot_indexer_framerw.Store.Segment.{write_all}
use polkadot_indexer_framerw.Store.Segment.Format.{Crc32, Log, Fits, frame}
use polkadot_indexer_framerw.Store.Segment.Files.{seg_bytes, idx_bytes, disk_of_log}
use polkadot_indexer_framerw.Store.Segment.Writer.{open_writer, append}
use polkadot_indexer_framerw.Store.Segment.Reader.{read, open_reader}
use polkadot_indexer_framerw.Store.Segment.Recovery.{
  writer_of, open_writer-recovers, append-writer_of, append_panics,
}
use polkadot_indexer_framerw.Store.Segment.Located.{latest}
use polkadot_indexer_framerw.Store.Segment.Reading.{reader_of, files_of, read-reader_of}
use polkadot_indexer_framerw.Store.Segment.Scanning.{
  TornFrame, scanner_of, lost_index, lost_index_lem,
}
use polkadot_indexer_framerw.Store.Segment.Checks.{HoldsFrame, read_sound}
use polkadot_indexer_framerw.Store.Layout.{
  segment_start, segment_stem, stem_start, seg_suffix, check_chain_id,
}
use polkadot_indexer_framerw.Store.Layout.Names.{
  IsChainChar, stem_start-segment_stem, check_chain_id_iff,
}

-- A checksum that only counts.
abbrev toy : Crc32
toy = record { hash = λ bytes. length bytes % 4294967296; hash-lt = λ bytes. omega arith }

abbrev two_blocks : Log
two_blocks = (5, 1 ∷ 2 ∷ 3 ∷ []) ∷ (6, 9 ∷ []) ∷ []

abbrev rewritten : Log
rewritten = (5, 7 ∷ 7 ∷ []) ∷ []

two_blocks-Fits : Fits two_blocks
two_blocks-Fits = record {
  items = ((omega arith, omega arith), ((omega arith, omega arith), tt));
  size = omega arith;
}

three_blocks-Fits : Fits (two_blocks ++ rewritten)
three_blocks-Fits = record {
  items =
      ((omega arith, omega arith), ((omega arith, omega arith), ((omega arith, omega arith), tt)));
  size = omega arith;
}

open_writer-recovers_example :
    open_writer (record {
      seg = some (seg_bytes toy two_blocks ++ (8 ∷ 8 ∷ 8 ∷ []));
      idx = some (idx_bytes two_blocks ++ (1 ∷ []));
    })
    ≡ (ok (writer_of toy two_blocks), disk_of_log toy two_blocks)
open_writer-recovers_example =
    open_writer-recovers toy two_blocks (8 ∷ 8 ∷ 8 ∷ []) (1 ∷ []) two_blocks-Fits (omega arith)

append-writer_of_example :
    append toy 5 (7 ∷ 7 ∷ []) (writer_of toy two_blocks)
    ≡ (ok tt, writer_of toy (two_blocks ++ rewritten))
append-writer_of_example = append-writer_of toy two_blocks 5 (7 ∷ 7 ∷ []) three_blocks-Fits

read-reader_of_example :
    read toy
      (files_of toy (two_blocks ++ rewritten) (8 ∷ []) (1 ∷ []))
      5
      (reader_of (two_blocks ++ rewritten))
    ≡ (ok (latest 5 (two_blocks ++ rewritten)), reader_of (two_blocks ++ rewritten))
read-reader_of_example =
    read-reader_of toy (two_blocks ++ rewritten) (8 ∷ []) (1 ∷ []) 5 three_blocks-Fits (omega arith)

-- The first three bytes of a frame.
three_bytes : TornFrame toy (7 ∷ 0 ∷ 0 ∷ [])
three_bytes = record {
  number = 7;
  payload = 4 ∷ [];
  fits = (omega arith, omega arith);
  written = 3;
  unfinished = omega arith;
  front = refl;
}

lost_index_example :
    (open_reader (record { seg = some (seg_bytes toy two_blocks ++ (7 ∷ 0 ∷ 0 ∷ [])); idx = none })
      ≡ ok (some (scanner_of two_blocks)))
    × (read toy (lost_index toy two_blocks (7 ∷ 0 ∷ 0 ∷ [])) 6 (scanner_of two_blocks)
        ≡ (ok (latest 6 two_blocks), scanner_of two_blocks))
lost_index_example =
    lost_index_lem toy two_blocks (7 ∷ 0 ∷ 0 ∷ []) 6 two_blocks-Fits.items three_bytes

latest_five : latest 5 (two_blocks ++ rewritten) ≡ some (7 ∷ 7 ∷ [])
unfolding latest
latest_five = refl

latest_six : latest 6 two_blocks ≡ some (9 ∷ [])
unfolding latest
latest_six = refl

all_bytes : List ℕ → Bool
all_bytes [] = true
all_bytes (b ∷ bytes) = ltb b 256 && all_bytes bytes

all_bytes_lem : (bytes : List ℕ) → all_bytes bytes ≡ true → All IsByte bytes
unfolding all_bytes
all_bytes_lem [] h = tt
all_bytes_lem (b ∷ bytes) h = (ground arith, all_bytes_lem bytes (ground arith))

two_blocks_bytes : all_bytes (seg_bytes toy two_blocks ++ []) ≡ true
unfolding all_bytes
two_blocks_bytes = refl

read_sound_example : HoldsFrame toy (files_of toy two_blocks [] []).seg 6 (9 ∷ [])
read_sound_example =
    read_sound toy (files_of toy two_blocks [] []) 6 (reader_of two_blocks) (9 ∷ [])
      (all_bytes_lem (seg_bytes toy two_blocks ++ []) two_blocks_bytes)
      (ap (λ r. r.0) (read-reader_of toy two_blocks [] [] 6 two_blocks-Fits (omega arith))
        ∙ ap ok latest_six)

-- A payload of so many zeros.
zeros : ℕ → List ℕ
zeros n = replicate n 0

length-zeros : (n : ℕ) → length (zeros n) ≡ n
unfolding zeros
length-zeros n = length-replicate n 0

append_panics_example : append toy 7 (zeros (2 ^ 32 - 1)) (writer_of toy two_blocks) ≡ (
  panic,
  record (writer_of toy two_blocks) {
    seg = write_all (frame toy 7 (zeros (2 ^ 32 - 1))) (writer_of toy two_blocks).seg;
  },
)
append_panics_example =
    append_panics toy 7 (zeros (2 ^ 32 - 1)) (writer_of toy two_blocks)
      (omega (arith, length-zeros (2 ^ 32 - 1))) (omega (arith, length-zeros (2 ^ 32 - 1)))

stem_start-segment_stem_example :
    stem_start (segment_stem 2 100 ++ seg_suffix) ≡ some (segment_start 2 100)
stem_start-segment_stem_example = stem_start-segment_stem 2 100

abbrev polkadot : List ℕ
polkadot = b'd' ∷ b'o' ∷ b't' ∷ []

check_chain_id_example : (check_chain_id polkadot ≡ ok tt) ↔ (
    (polkadot ≢ [])
    × (polkadot ≢ b'.' ∷ [])
    × (polkadot ≢ b'.' ∷ b'.' ∷ [])
    × All IsChainChar polkadot)
check_chain_id_example = check_chain_id_iff polkadot
