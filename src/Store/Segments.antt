-- ===== src/Store/Segments.antt =====
-- The store over the segments of one chain and kind, crates/pif-store/src/segstore.rs, with the copying
-- and removing of crates/pif-store/src/cold.rs. A tier is its files by segment index. The slot of the
-- writer and that of the reader hold an open segment of this chain; a call for another chain that takes
-- a slot over leaves it empty. A writer's file handles and the files on the hot tier are the same files.
pub mod Around
pub mod Contiguous
pub mod First
pub mod Getting
pub mod Holding
pub mod Kept
pub mod Listed
pub mod Moved
pub mod Moving
pub mod Putting
pub mod Sorted
mod Tests
pub mod Tiers
use polkadot_indexer_framerw.Common.{
  ℕ, ◌≡◌, Bool, true, false, Option, none, some, List, [], ◌==◌, if◌then◌else◌,
}
use polkadot_indexer_framerw.Common.Result.{Result, ok, err, panic}
use polkadot_indexer_framerw.Common.Map.{Map, lookup, insert, contains}
use polkadot_indexer_framerw.Store.Error.{
  StoreError, segment_corrupt, not_decompressed, invalid_segment_size, cold_path_is_hot_path,
}
use polkadot_indexer_framerw.Store.Layout.{segment_index, list_eq}
use polkadot_indexer_framerw.Store.Segment.{Disk}
use polkadot_indexer_framerw.Store.Segment.Format.{Crc32}
use polkadot_indexer_framerw.Store.Segment.Writer.{SegmentWriter, open_writer, append}
use polkadot_indexer_framerw.Store.Segment.Reader.{SegmentReader, Files, open_reader, read, refresh}

-- What zstd promises: what it has compressed, it decompresses.
pub record Zstd : Type 0 where
  pub encode : List ℕ → List ℕ
  pub decode : List ℕ → Option (List ℕ)
  pub decode-encode : (payload : List ℕ) → decode (encode payload) ≡ some payload

abbrev pub Tier : Type 0
Tier = Map Disk

abbrev pub no_files : Disk
no_files = record { seg = none; idx = none }

unfoldable pub disk_at : ℕ → Tier → Disk
disk_at index tier = elim (lookup index tier) [ none ↦ no_files | some disk ↦ disk ]

-- The open reader, and whether it stands on the hot tier.
pub record CachedReader : Type 0 where
  pub index : ℕ
  pub inner : SegmentReader
  pub hot : Bool

pub record Segments : Type 0 where
  pub segment_size : ℕ
  pub hot : Tier
  pub cold : Option Tier
  pub writer : Option (ℕ × SegmentWriter)
  pub reader : Option CachedReader

-- `Segments::new`, over the files below the two roots.
unfoldable pub new_segments :
    List ℕ → Option (List ℕ) → ℕ → Tier → Tier → Result StoreError Segments
new_segments root cold_root segment_size hot_files cold_files =
    let made : Option Tier → Segments = λ cold. record {
      segment_size = segment_size;
      hot = hot_files;
      cold = cold;
      writer = none;
      reader = none;
    } in
    if segment_size == 0 then err invalid_segment_size else elim cold_root [
      | none ↦ ok (made none)
      | some path ↦
          if list_eq path root then err cold_path_is_hot_path else ok (made (some cold_files))
    ]

-- The slots, if they hold the segment with this index.
abbrev pub writer_for : ℕ → Option (ℕ × SegmentWriter) → Option SegmentWriter
writer_for index none = none
writer_for index (some (i, w)) = if i == index then some w else none

abbrev pub reader_for : ℕ → Option CachedReader → Option CachedReader
reader_for index none = none
reader_for index (some r) = if r.index == index then some r else none

abbrev pub files_of_disk : Disk → Files
files_of_disk disk = record {
  seg = elim disk.seg [ none ↦ [] | some bytes ↦ bytes ];
  idx = elim disk.idx [ none ↦ [] | some bytes ↦ bytes ];
}

unfoldable pub cold_at : ℕ → Option Tier → Disk
cold_at index cold = elim cold [ none ↦ no_files | some tier ↦ disk_at index tier ]

-- `locate`: the files of a segment, and whether they are on the hot tier. Hot wins.
unfoldable pub locate_in : Disk → Disk → Option (Disk × Bool)
locate_in hot_files cold_files = elim hot_files.seg [
  | some bytes ↦ some (hot_files, true)
  | none ↦ elim cold_files.seg [ some bytes ↦ some (cold_files, false) | none ↦ none ]
]

unfoldable pub locate : ℕ → Segments → Option (Disk × Bool)
locate index s = locate_in (disk_at index s.hot) (cold_at index s.cold)

-- The first half of `with_reader`: the slot holds a reader of the segment, or there is none.
unfoldable pub open_slot : ℕ → Segments → Result StoreError (Option CachedReader) × Segments
open_slot index s = elim (reader_for index s.reader) [
  | some r ↦ (ok (some r), s)
  | none ↦ elim (locate index s) [
    | none ↦ (ok none, record s { reader = none })
    | some (disk, hot) ↦ elim (open_reader disk) [
      | ok opened ↦ elim opened [
        | some inner ↦
            let r : CachedReader = record { index = index; inner = inner; hot = hot } in
            (ok (some r), record s { reader = some r })
        | none ↦ (ok none, record s { reader = none })
      ]
      | err e ↦ (err e, s)
      | panic ↦ (panic, s)
    ]
  ]
]

-- What the files of the open reader hold by now.
abbrev pub slot_files : CachedReader → Segments → Files
slot_files r s = files_of_disk (if r.hot then disk_at r.index s.hot else cold_at r.index s.cold)

-- The first part of `put`: the slot holds a writer of the segment, which is opened if need be.
unfoldable pub ready_writer : ℕ → Segments → Result StoreError SegmentWriter × Segments
ready_writer index s = elim (writer_for index s.writer) [
  | some w ↦ (ok w, s)
  | none ↦
      let (opened, disk) = open_writer (disk_at index s.hot) in
      let s' : Segments = record s { hot = insert index disk s.hot; writer = none } in
      elim opened [
        | ok w ↦ (ok w, record s' { writer = some (index, w) })
        | err e ↦ (err e, s')
        | panic ↦ (panic, s')
      ]
]

-- The last part of `put`: a reader of the segment takes the append in, or is dropped if it is cold.
unfoldable pub top_up : ℕ → Segments → Result StoreError (Unit {0}) × Segments
top_up index s = elim (reader_for index s.reader) [
  | none ↦ (ok tt, s)
  | some r ↦ elim r.hot [
    | true ↦
        let (done, inner) = refresh (files_of_disk (disk_at index s.hot)) r.inner in
        (done, record s { reader = some (record r { inner = inner }) })
    | false ↦ (ok tt, record s { reader = none })
  ]
]

module _ (crc : Crc32) (zstd : Zstd) where
  -- The middle of `put`, with the writer of the segment.
  unfoldable pub append_record :
      ℕ → ℕ → List ℕ → SegmentWriter → Segments → Result StoreError (Unit {0}) × Segments
  append_record index number compressed w s =
      let (done, w') = append crc number compressed w in
      let disk : Disk = record { seg = some w'.seg.bytes; idx = some w'.idx.bytes } in
      let s' : Segments = record s { hot = insert index disk s.hot; writer = some (index, w') } in
      elim done [ ok u ↦ top_up index s' | err e ↦ (err e, s') | panic ↦ (panic, s') ]

  unfoldable pub put : ℕ → List ℕ → Segments → Result StoreError (Unit {0}) × Segments
  put number payload s =
      let index = segment_index number s.segment_size in
      let (ready, s') = ready_writer index s in
      elim ready [
        | ok w ↦ append_record index number (zstd.encode payload) w s'
        | err e ↦ (err e, s')
        | panic ↦ (panic, s')
      ]

  abbrev pub decompressed :
      Result StoreError (Option (List ℕ)) → Result StoreError (Option (List ℕ))
  decompressed (ok none) = ok none
  decompressed (ok (some compressed)) = elim (zstd.decode compressed) [
    | some payload ↦ ok (some payload)
    | none ↦ err (segment_corrupt not_decompressed)
  ]
  decompressed (err e) = err e
  decompressed panic = panic

  -- `get`, with the reader of the segment.
  unfoldable pub read_record :
      ℕ → CachedReader → Segments → Result StoreError (Option (List ℕ)) × Segments
  read_record number r s =
      let (found, inner) = read crc (slot_files r s) number r.inner in
      (decompressed found, record s { reader = some (record r { inner = inner }) })

  unfoldable pub get : ℕ → Segments → Result StoreError (Option (List ℕ)) × Segments
  get number s =
      let (slot, s') = open_slot (segment_index number s.segment_size) s in
      elim slot [
        | ok opened ↦ elim opened [ some r ↦ read_record number r s' | none ↦ (ok none, s') ]
        | err e ↦ (err e, s')
        | panic ↦ (panic, s')
      ]

-- `has`: like `get`, with the map topped up instead of the payload read.
unfoldable pub has : ℕ → Segments → Result StoreError Bool × Segments
has number s =
    let (slot, s') = open_slot (segment_index number s.segment_size) s in
    elim slot [
      | ok opened ↦ elim opened [
        | some r ↦
            let (done, inner) = refresh (slot_files r s') r.inner in
            let s'' : Segments = record s' { reader = some (record r { inner = inner }) } in
            elim (contains number r.inner.index) [
              | true ↦ (ok true, s')
              | false ↦ elim done [
                | ok u ↦ (ok (contains number inner.index), s'')
                | err e ↦ (err e, s'')
                | panic ↦ (panic, s'')
              ]
            ]
        | none ↦ (ok false, s')
      ]
      | err e ↦ (err e, s')
      | panic ↦ (panic, s')
    ]
