-- ===== src/Store/Segments/First/Lowest.antt =====
-- The range that crates/pif-chain/src/pipeline.rs reports as replayable starts in the lowest segment
-- that either tier has.
use polkadot_indexer_framerw.Common.{ℕ, ◌≤◌, ◌≡◌, ◌⊎◌, Bool, Option, none, some, All}
use polkadot_indexer_framerw.Store.Segment.{Disk}
use polkadot_indexer_framerw.Store.Segment.Format.{Log}
use polkadot_indexer_framerw.Store.Segments.{Segments, Tier, disk_at}
use polkadot_indexer_framerw.Store.Segments.First.{ReplaysFrom, logged_first}

-- A tier lists each of its segments once.
abbrev pub Keyed : Tier → Type 0
Keyed tier = All (λ (e : ℕ × Disk). disk_at e.0 tier ≡ e.1) tier

abbrev pub KeyedCold : Option Tier → Type 0
KeyedCold none = Unit {0}
KeyedCold (some tier) = Keyed tier

-- What the report says, of the lowest segment that is on a tier: nothing if there is none, and otherwise
-- the run from the first number of its log.
abbrev pub FromLowest : (ℕ → Option (Log × Bool)) → (ℕ → Bool) → Option (ℕ × ℕ) → Type 0
FromLowest logs stored to =
    (((i : ℕ) → logs i ≡ none) × (to ≡ none))
    ⊎ ((i : ℕ) × (shown : Log × Bool) × (logs i ≡ some shown)
        × ((j : ℕ) (other : Log × Bool) → logs j ≡ some other → i ≤ j)
        × ReplaysFrom stored (logged_first (some shown)) to)
