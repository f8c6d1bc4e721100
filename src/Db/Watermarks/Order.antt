-- ===== src/Db/Watermarks/Order.antt =====
-- The order of the three watermarks.
use polkadot_indexer_framerw.Common.{◌≡◌, refl, subst, true, Option, none, some, arith, some_inj}
use polkadot_indexer_framerw.Common.Int.{ℤ, ◌≤ℤ◌}
use polkadot_indexer_framerw.Db.Watermarks.{
  advance_archive_watermark, advance_digest_watermark, advance_fetch_watermark, reset_watermarks,
  RowOrdered, init_watermarks, Watermarks,
}

-- On an ordered row the table's check never refuses a call that respects its stage: starting and
-- resetting at any block, fetching up to any block, digesting up to a fetched block, archiving up to a
-- digested one.
pub stages_accepted :
    (row : Option Watermarks) (to : ℤ)
    → RowOrdered row
    → ((init_watermarks to row).0 ≡ true)
      × ((reset_watermarks to row).0 ≡ true)
      × ((advance_fetch_watermark to row).0 ≡ true)
      × ((m : Watermarks)
          → row ≡ some m
          → (to ≤ℤ m.fetch → (advance_digest_watermark to row).0 ≡ true)
            × (to ≤ℤ m.digest → (advance_archive_watermark to row).0 ≡ true))
unfolding init_watermarks reset_watermarks advance_fetch_watermark advance_digest_watermark
    advance_archive_watermark
stages_accepted none to h = (ground arith, ground arith, refl, λ m e. cc e)
stages_accepted (some m) to h = (
  refl,
  ground (arith, h),
  ground (arith, h),
  λ k e.
      let same : m ≡ k = some_inj e in
      subst
        (λ (k : Watermarks).
          (to ≤ℤ k.fetch → (advance_digest_watermark to (some m)).0 ≡ true)
          × (to ≤ℤ k.digest → (advance_archive_watermark to (some m)).0 ≡ true))
        same (λ le. ground (arith, h, le), λ le. ground (arith, h, le)),
)
