-- ===== src/Store/Reads/Keeping.antt =====
-- Keeping reads: what the reads of a block answer after an insertion, and the cache after a put.
use polkadot_indexer_framerw.Common.{
  ℕ, ◌≡◌, refl, sym, ap, ◌∙◌, ◌≢◌, ◌↔◌, inl, inr, Bool, true, some, List, [], ◌∷◌, ◌++◌, arith,
  if◌then◌else◌, Bool-cases,
}
use polkadot_indexer_framerw.Common.Result.{ok}
use polkadot_indexer_framerw.Store.Layout.{list_eq, segment_index}
use polkadot_indexer_framerw.Store.Layout.Names.{list_eq_iff}
use polkadot_indexer_framerw.Store.Scale.{Scale}
use polkadot_indexer_framerw.Store.Segment.Format.{Crc32, Fits, Log}
use polkadot_indexer_framerw.Store.Segments.{Segments, Zstd}
use polkadot_indexer_framerw.Store.Segments.Getting.{Shows}
use polkadot_indexer_framerw.Store.Segments.Holding.{HotLog}
use polkadot_indexer_framerw.Store.Segments.Around.{put-get}
use polkadot_indexer_framerw.Store.Reads.{
  Answer, BlockReads, ReadKey, decoded_reads, find_read, get_read, get_reads, insert_read, key_eq,
  put_read, put_reads,
}

-- The test of keys decides equality.
pub key_eq_iff : (a b : ReadKey) → (key_eq a b ≡ true) ↔ (a ≡ b)
unfolding key_eq
key_eq_iff a b = (
  λ e.
      let parts : (list_eq a.pallet b.pallet ≡ true)
          × (list_eq a.entry b.entry ≡ true)
          × (list_eq a.keys b.keys ≡ true) =
        ground arith in
      λ i. record {
        pallet = (list_eq_iff a.pallet b.pallet).0 parts.0 i;
        entry = (list_eq_iff a.entry b.entry).0 parts.1 i;
        keys = (list_eq_iff a.keys b.keys).0 parts.2 i;
      },
  λ e.
      rw
        (
          (list_eq_iff a.pallet b.pallet).1 (ap (λ k. k.pallet) e),
          (list_eq_iff a.entry b.entry).1 (ap (λ k. k.entry) e),
          (list_eq_iff a.keys b.keys).1 (ap (λ k. k.keys) e),
        )
        refl,
)

key_eq_both :
    (k new key : ReadKey) → key_eq k key ≡ true → key_eq new key ≡ true → key_eq k new ≡ true
key_eq_both k new key e f =
    (key_eq_iff k new).1 ((key_eq_iff k key).0 e ∙ sym ((key_eq_iff new key).0 f))

find_read-put :
    (new key : ReadKey) (answer : Answer) (entries : List (ReadKey × Answer))
    → find_read key (put_read new answer entries)
      ≡ (if key_eq new key then some answer else find_read key entries)
unfolding find_read put_read
find_read-put new key answer [] = refl
find_read-put new key answer ((k, old) ∷ more) = elim (Bool-cases (key_eq k new)) [
  | inl same ↦
      let e : key_eq k key ≡ key_eq new key = ap (λ j. key_eq j key) ((key_eq_iff k new).0 same) in
      rw same (ground (arith, e))
  | inr differ ↦
      rw differ (ground (arith, differ, key_eq_both k new key, find_read-put new key answer more))
]

-- An insertion answers for its own key with the new answer, an absence included, and leaves what is
-- archived for every other key as it was, whether or not the key was there before.
pub get_read-insert :
    (new key : ReadKey) (answer : Answer) (reads : BlockReads)
    → get_read key (insert_read new answer reads)
      ≡ (if key_eq new key then some answer else get_read key reads)
unfolding get_read insert_read
get_read-insert new key answer reads = find_read-put new key answer reads.entries

module _ (crc : Crc32) (zstd : Zstd) (scale : Scale BlockReads) where
  pub decoded_reads-encode :
      (r : BlockReads) → decoded_reads crc zstd scale (ok (some (scale.encode r))) ≡ ok (some r)
  decoded_reads-encode r = rw (decoded_reads, scale.decode-encode r) refl

  -- The reads of a block that are put while its segment is on the hot tier, and the log with them still
  -- fits, are what the next `get` of the block returns. Every other block of a segment that either tier
  -- shows has the reads it had.
  pub put_reads-get :
      (block : ℕ) (reads : BlockReads) (log : Log) (s : Segments)
      → HotLog crc (segment_index block s.segment_size) log s
      → Fits (log ++ (block, zstd.encode (scale.encode reads)) ∷ [])
      → (t : Segments) × (put_reads crc zstd scale block reads s ≡ (ok tt, t))
        × ((get_reads crc zstd scale block t).0 ≡ ok (some reads))
        × ((k : ℕ) (other : Log) (hot : Bool)
            → k ≢ block
            → Shows crc (segment_index k s.segment_size) other hot s
            → (get_reads crc zstd scale k t).0 ≡ (get_reads crc zstd scale k s).0)
  unfolding put_reads get_reads
  put_reads-get block reads log s h fits =
      let (t, wrote, own, beside) = put-get crc zstd block (scale.encode reads) log s h fits in
      (
        t,
        wrote,
        ap (decoded_reads crc zstd scale) own ∙ decoded_reads-encode reads,
        λ k other hot ne shown. ap (decoded_reads crc zstd scale) (beside k other hot ne shown),
      )
