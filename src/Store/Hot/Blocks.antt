-- ===== src/Store/Hot/Blocks.antt =====
-- Blocks in the store: what is put is what comes back.
use polkadot_indexer_framerw.Common.{ℕ, ◌≡◌, refl, ap, ◌∙◌, ◌≢◌, Bool, some, [], ◌∷◌, ◌++◌, ==_refl}
use polkadot_indexer_framerw.Common.Result.{ok}
use polkadot_indexer_framerw.Store.Layout.{segment_index}
use polkadot_indexer_framerw.Store.Scale.{Scale}
use polkadot_indexer_framerw.Store.Segment.Format.{Crc32, Fits, Log}
use polkadot_indexer_framerw.Store.Segments.{Segments, Zstd}
use polkadot_indexer_framerw.Store.Segments.Getting.{Shows}
use polkadot_indexer_framerw.Store.Segments.Holding.{HotLog}
use polkadot_indexer_framerw.Store.Segments.Around.{put-get}
use polkadot_indexer_framerw.Store.Hot.{RawBlock, decoded_block, get_block, put_block}

module _ (crc : Crc32) (zstd : Zstd) (scale : Scale RawBlock) where
  decoded_block-encode :
      (b : RawBlock)
      → decoded_block crc zstd scale b.number (ok (some (scale.encode b))) ≡ ok (some b)
  decoded_block-encode b = rw (decoded_block, scale.decode-encode b, ==_refl b.number) refl

  -- A block that is put while its segment is on the hot tier, and the log with it still fits, is what is
  -- read under its number from then on, also where the number had another block before. Every other
  -- number of a segment that either tier shows reads as it did.
  pub put_block-get_block :
      (b : RawBlock) (log : Log) (s : Segments)
      → HotLog crc (segment_index b.number s.segment_size) log s
      → Fits (log ++ (b.number, zstd.encode (scale.encode b)) ∷ [])
      → (t : Segments) × (put_block crc zstd scale b s ≡ (ok tt, t))
        × ((get_block crc zstd scale b.number t).0 ≡ ok (some b))
        × ((k : ℕ) (other : Log) (hot : Bool)
            → k ≢ b.number
            → Shows crc (segment_index k s.segment_size) other hot s
            → (get_block crc zstd scale k t).0 ≡ (get_block crc zstd scale k s).0)
  unfolding put_block get_block
  put_block-get_block b log s h fits =
      let (t, wrote, own, beside) = put-get crc zstd b.number (scale.encode b) log s h fits in
      (
        t,
        wrote,
        ap (decoded_block crc zstd scale b.number) own ∙ decoded_block-encode b,
        λ k other hot ne shown. ap (decoded_block crc zstd scale k) (beside k other hot ne shown),
      )
