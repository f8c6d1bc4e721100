-- ===== src/Db/Watermarks.antt =====
-- The row of `pipeline_watermarks` for one chain, and its queries in crates/pif-db/src/repo.rs. A
-- statement that would break the table's ordering check is refused, and the row stays as it was.
pub mod Order
use polkadot_indexer_framerw.Common.{Bool, true, false, ◌&&◌, Option, none, some, if◌then◌else◌}
use polkadot_indexer_framerw.Common.Int.{ℤ, pos, leb_ℤ, max_ℤ, min_ℤ, ◌≤ℤ◌}

pub record Watermarks : Type 0 where
  pub fetch : ℤ
  pub digest : ℤ
  pub archive : ℤ

-- `CHECK (archive_watermark <= digest_watermark AND digest_watermark <= fetch_watermark)`
abbrev pub ordered : Watermarks → Bool
ordered m = leb_ℤ m.archive m.digest && leb_ℤ m.digest m.fetch

-- A written row, with whether the database took it.
abbrev pub written : Option Watermarks → Watermarks → Bool × Option Watermarks
written row m = if ordered m then (true, some m) else (false, row)

abbrev pub seeded_at : ℤ → Watermarks
seeded_at at = record { fetch = at; digest = at; archive = min_ℤ (pos 0) at }

abbrev pub load_watermarks : Option Watermarks → Option Watermarks
load_watermarks row = row

unfoldable pub init_watermarks : ℤ → Option Watermarks → Bool × Option Watermarks
init_watermarks at none = written none (seeded_at at)
init_watermarks at (some m) = (true, some m)

unfoldable pub reset_watermarks : ℤ → Option Watermarks → Bool × Option Watermarks
reset_watermarks to none = written none (seeded_at to)
reset_watermarks to (some m) =
    written (some m) (record { fetch = to; digest = to; archive = min_ℤ m.archive to })

unfoldable pub advance_fetch_watermark : ℤ → Option Watermarks → Bool × Option Watermarks
advance_fetch_watermark to none = (true, none)
advance_fetch_watermark to (some m) = written (some m) (record m { fetch = max_ℤ m.fetch to })

unfoldable pub advance_digest_watermark : ℤ → Option Watermarks → Bool × Option Watermarks
advance_digest_watermark to none = (true, none)
advance_digest_watermark to (some m) = written (some m) (record m { digest = max_ℤ m.digest to })

unfoldable pub advance_archive_watermark : ℤ → Option Watermarks → Bool × Option Watermarks
advance_archive_watermark to none = (true, none)
advance_archive_watermark to (some m) = written (some m) (record m { archive = max_ℤ m.archive to })

-- The row stays ordered.
abbrev pub RowOrdered : Option Watermarks → Type 0
RowOrdered none = Unit
RowOrdered (some m) = (m.archive ≤ℤ m.digest) × (m.digest ≤ℤ m.fetch)
