-- ===== src/Store/Segment/Located.antt =====
-- The map from numbers to frames that a log gives, and the frames that it leads to.
use polkadot_indexer_framerw.Common.{
  read_at, ℕ, ◌+◌, ◌^◌, ◌<◌, ◌≡◌, refl, sym, ap, ◌∙◌, ◌⊎◌, inl, inr, Option, none, some, List, [],
  ◌∷◌, ◌++◌, append_assoc, arith, ◌==◌, if◌then◌else◌, Option-cases, length, All, length-append,
  read_at-append,
}
use polkadot_indexer_framerw.Common.Map.{Map, lookup, insert, lookup-insert}
use polkadot_indexer_framerw.Store.Segment.{frame_header_len, magic_len, seg_magic}
use polkadot_indexer_framerw.Store.Segment.Format.{
  end_of-ge, Crc32, Log, ItemFits, frame, frames, entries, end_of, length-frame,
}
use polkadot_indexer_framerw.Store.Segment.Recovery.{entry_fields}
use polkadot_indexer_framerw.Store.Segment.Reader.{Located, parse_entries}

-- The payload of the newest item with a number: what a reader should return.
unfoldable pub latest : ℕ → Log → Option (List ℕ)
latest n [] = none
latest n ((k, p) ∷ log) = elim (latest n log) [
  | some q ↦ some q
  | none ↦ if k == n then some p else none
]

-- The map after the frames of a log that starts at `offset`.
unfoldable pub index_from : ℕ → Log → Map Located → Map Located
index_from offset [] m = m
index_from offset ((n, p) ∷ log) m =
    index_from (offset + (frame_header_len + length p)) log
      (insert n (offset, frame_header_len + length p) m)

pub index_from-append :
    (offset : ℕ) (xs ys : Log) (m : Map Located)
    → index_from offset (xs ++ ys) m ≡ index_from (end_of offset xs) ys (index_from offset xs m)
unfolding index_from
index_from-append offset [] ys m = refl
index_from-append offset ((n, p) ∷ xs) ys m =
    index_from-append (offset + (frame_header_len + length p)) xs ys
      (insert n (offset, frame_header_len + length p) m)

-- Where the newest frame of a number stands, with its payload.
locate : ℕ → ℕ → Log → Option (ℕ × List ℕ)
locate offset n [] = none
locate offset n ((k, p) ∷ log) = elim (locate (offset + (frame_header_len + length p)) n log) [
  | some found ↦ some found
  | none ↦ if k == n then some (offset, p) else none
]

abbrev located : Option (ℕ × List ℕ) → Option Located → Option Located
located (some (o, p)) other = some (o, frame_header_len + length p)
located none other = other

lookup-index_from :
    (offset n : ℕ) (log : Log) (m : Map Located)
    → lookup n (index_from offset log m) ≡ located (locate offset n log) (lookup n m)
unfolding index_from locate
lookup-index_from offset n [] m = refl
lookup-index_from offset n ((k, p) ∷ log) m =
    let next = offset + (frame_header_len + length p) in
    let here : Located = (offset, frame_header_len + length p) in
    ground (arith, lookup-index_from next n log (insert k here m), lookup-insert m k here n)

latest-locate :
    (offset n : ℕ) (log : Log)
    → latest n log ≡ elim (locate offset n log) [ none ↦ none | some found ↦ some found.1 ]
unfolding latest locate
latest-locate offset n [] = refl
latest-locate offset n ((k, p) ∷ log) =
    ground (arith, latest-locate (offset + (frame_header_len + length p)) n log)

-- Parsing the entries of a log gives its map.
pub parse_entries-entries :
    (offset : ℕ) (log : Log) (rest : List ℕ) (m : Map Located)
    → All ItemFits log
    → end_of offset log < 2 ^ 64
    → parse_entries (length log) (entries offset log ++ rest) m ≡ index_from offset log m
unfolding parse_entries index_from
parse_entries-entries offset [] rest m items size = refl
parse_entries-entries offset ((n, p) ∷ log) rest m items size =
    let l = frame_header_len + length p in
    let f =
      entry_fields n offset l items.0.0 (omega (arith, end_of-ge (offset + l) log)) (omega arith) in
    (λ i.
      parse_entries (length log) (entries (offset + l) log ++ rest)
        (insert (f.0 i) (f.1 i, f.2 i) m))
    ∙ parse_entries-entries (offset + l) log rest (insert n (offset, l) m) items.1 size

-- The frame at the front of the rest.
read_at-frame :
    (crc : Crc32) (n : ℕ) (p pre post : List ℕ)
    → read_at (length pre) (frame_header_len + length p) (pre ++ (frame crc n p ++ post))
      ≡ some (frame crc n p)
read_at-frame crc n p pre post =
    ap (λ l. read_at (length pre) l (pre ++ (frame crc n p ++ post))) (sym (length-frame crc n p))
    ∙ read_at-append pre (frame crc n p) post

-- The read at a located frame returns the frame.
read_at-locate :
    (crc : Crc32) (n : ℕ) (log : Log) (pre post : List ℕ) (at o : ℕ) (p : List ℕ)
    → at ≡ length pre
    → locate at n log ≡ some (o, p)
    → read_at o (frame_header_len + length p) (pre ++ (frames crc log ++ post))
      ≡ some (frame crc n p)
unfolding locate
read_at-locate crc n [] pre post at o p here e = cc
read_at-locate crc n ((k, q) ∷ log) pre post at o p here e =
    let next = at + (frame_header_len + length q) in
    let split : pre ++ (frame crc k q ++ frames crc log ++ post)
        ≡ (pre ++ frame crc k q) ++ (frames crc log ++ post) =
      ap (λ l. pre ++ l) (append_assoc (frame crc k q) (frames crc log) post)
      ∙ sym (append_assoc pre (frame crc k q) (frames crc log ++ post)) in
    let there : next ≡ length (pre ++ frame crc k q) =
      omega (arith, length-append pre (frame crc k q), length-frame crc k q) in
    elim (Option-cases (locate next n log)) [
      | inr (found, e') ↦
          ap (read_at o (frame_header_len + length p)) split
          ∙ read_at-locate crc n log (pre ++ frame crc k q) (frames crc [] ++ post) next o p there
              (ground arith)
      | inl e' ↦
          let facts : (k ≡ n) × (at ≡ o) × (q ≡ p) = ground arith in
          let o_here : o ≡ length pre = sym facts.1 ∙ here in
          (λ i.
            read_at (o_here i) (frame_header_len + length p)
              (pre ++ ((frame crc (facts.0 i) (facts.2 i) ++ frames crc log) ++ post)))
          ∙ ap (λ l. read_at (length pre) (frame_header_len + length p) (pre ++ l))
              (append_assoc (frame crc n p) (frames crc log) post)
          ∙ read_at-frame crc n p pre (frames crc log ++ post)
    ]

-- Through the map of a log a number leads to the frame of its newest item, and a number that the log
-- does not hold leads nowhere.
pub lookup-latest :
    (crc : Crc32) (n : ℕ) (log : Log) (post : List ℕ)
    → ((lookup n (index_from magic_len log []) ≡ none) × (latest n log ≡ none))
      ⊎ ((o : ℕ) × (p : List ℕ) × (lookup n (index_from magic_len log [])
            ≡ some (o, frame_header_len + length p))
          × (latest n log ≡ some p)
          × (read_at o (frame_header_len + length p) (seg_magic ++ (frames crc log ++ post))
              ≡ some (frame crc n p)))
unfolding lookup
lookup-latest crc n log post = elim (Option-cases (locate magic_len n log)) [
  | inl e ↦ inl (
    ground (arith, lookup-index_from magic_len n log []),
    ground (arith, latest-locate magic_len n log),
  )
  | inr ((o, p), e) ↦ inr (
    o,
    p,
    ground (arith, lookup-index_from magic_len n log []),
    ground (arith, latest-locate magic_len n log),
    read_at-locate crc n log seg_magic post magic_len o p refl e,
  )
]

pub latest-ItemFits :
    (n : ℕ) (log : Log) (p : List ℕ) → All ItemFits log → latest n log ≡ some p → ItemFits (n, p)
unfolding latest
latest-ItemFits n [] p items e = cc
latest-ItemFits n ((k, q) ∷ log) p items e = elim (Option-cases (latest n log)) [
  | inr (q', e') ↦ latest-ItemFits n log p items.1 (ground arith)
  | inl e' ↦ ground arith
]
