-- ===== src/Store/Segments/Moving.antt =====
-- What moving a segment to the cold tier keeps: every tier shows what it showed, wherever the copy or
-- the removal breaks off.
-- A cold disk whose damage the checksum detects.
use polkadot_indexer_framerw.Common.{
  ℕ, ◌≡◌, refl, ◌∙◌, ◌≢◌, inl, inr, Bool, Option, none, some, List, arith,
}
use polkadot_indexer_framerw.Common.Result.{Result, ok, err, panic, Result-cases}
use polkadot_indexer_framerw.Store.Segment.Format.{Crc32}
use polkadot_indexer_framerw.Store.Error.{StoreError, io}
use polkadot_indexer_framerw.Store.Segments.Tiers.{
  Landing, Media, copy_verified, not_installed, not_read_back, read_back, Tiered, copied, with_cold,
  copy_sidecar,
}
use polkadot_indexer_framerw.Store.Segment.{Disk}
use polkadot_indexer_framerw.Store.Segments.{Segments, Tier, cold_at, disk_at}
use polkadot_indexer_framerw.Store.Segments.Holding.{disk_at-insert_self, disk_at-other}

pub record Faithful (crc : Crc32) (media : Media) : Type 0 where
  pub detects :
      (i : ℕ) (is_seg : Bool) (bytes installed : List ℕ)
      → media.landing i is_seg bytes ≡ read_back installed
      → crc.hash installed ≡ crc.hash bytes
      → installed ≡ bytes

module _ (crc : Crc32) (landing : List ℕ → Landing) where
  abbrev Detects : Type 0
  Detects =
      (bytes installed : List ℕ)
      → landing bytes ≡ read_back installed
      → crc.hash installed ≡ crc.hash bytes
      → installed ≡ bytes

  pub copy_verified-none :
      (dst : Option (List ℕ)) → copy_verified crc landing none dst ≡ (err io, dst)
  unfolding copy_verified
  copy_verified-none dst = refl

  landed :
      (bytes : List ℕ) (dst : Option (List ℕ)) (r : ℕ × ℕ) (l : Landing)
      → ((installed : List ℕ)
          → l ≡ read_back installed
          → crc.hash installed ≡ crc.hash bytes
          → installed ≡ bytes)
      → landing bytes ≡ l
      → (copy_verified crc landing (some bytes) dst).0 ≡ ok r
      → (copy_verified crc landing (some bytes) dst).1 ≡ some bytes
  unfolding copy_verified
  landed bytes dst r not_installed good is e = ground arith
  landed bytes dst r (not_read_back other) good is e = ground arith
  landed bytes dst r (read_back installed) good is e = grind (arith, good installed refl)

  -- A copy that succeeds is the same.
  pub copy_verified-same :
      (bytes : List ℕ) (dst : Option (List ℕ)) (r : ℕ × ℕ)
      → Detects
      → (copy_verified crc landing (some bytes) dst).0 ≡ ok r
      → (copy_verified crc landing (some bytes) dst).1 ≡ some bytes
  copy_verified-same bytes dst r good e =
      landed bytes dst r (landing bytes) (λ installed is. good bytes installed is) refl e

  pub copy_sidecar-same :
      (bytes : List ℕ) (dst : Option (List ℕ)) (n : ℕ)
      → Detects
      → (copy_sidecar crc landing (some bytes) dst).0 ≡ ok n
      → (copy_sidecar crc landing (some bytes) dst).1 ≡ some bytes
  unfolding copy_sidecar
  copy_sidecar-same bytes dst n good e =
      elim (Result-cases (copy_verified crc landing (some bytes) dst).0) [
        | inl (r, is) ↦ copy_verified-same bytes dst r good is
        | inr (inl (e', is)) ↦ ground arith
        | inr (inr is) ↦ ground arith
      ]

-- The store after a copy, whatever came of it.
pub record Copied (i : ℕ) (cold : Tier) (s t : Segments) : Type 0 where
  pub same_size : t.segment_size ≡ s.segment_size
  pub same_hot : t.hot ≡ s.hot
  pub same_writer : t.writer ≡ s.writer
  pub same_reader : t.reader ≡ s.reader
  pub others : (j : ℕ) → i ≢ j → cold_at j t.cold ≡ disk_at j cold

with_cold-Copied :
    (i : ℕ) (disk : Disk) (cold : Tier) (s : Segments) → Copied i cold s (with_cold i disk cold s)
unfolding cold_at
with_cold-Copied i disk cold s = record {
  same_size = refl;
  same_hot = refl;
  same_writer = refl;
  same_reader = refl;
  others = λ j ne. disk_at-other i s j disk cold ne;
}

module _ (i : ℕ) (cold : Tier) (s : Segments) where
  pub copied-Copied :
      (seg : Result StoreError (ℕ × ℕ) × Option (List ℕ))
      (idx : Result StoreError ℕ × Option (List ℕ))
      → Copied i cold s (copied i cold s seg idx).1
  unfolding copied
  copied-Copied (ok r, seg) (ok n, idx) = with_cold-Copied i _ cold s
  copied-Copied (ok r, seg) (err e, idx) = with_cold-Copied i _ cold s
  copied-Copied (ok r, seg) (panic, idx) = with_cold-Copied i _ cold s
  copied-Copied (err e, seg) (d, idx) = with_cold-Copied i _ cold s
  copied-Copied (panic, seg) (d, idx) = with_cold-Copied i _ cold s

  -- A copy that succeeds has copied both files.
  pub copied-ok :
      (seg : Result StoreError (ℕ × ℕ) × Option (List ℕ))
      (idx : Result StoreError ℕ × Option (List ℕ)) (tiered : Tiered)
      → (copied i cold s seg idx).0 ≡ ok tiered
      → ((r : ℕ × ℕ) × (seg.0 ≡ ok r))
        × ((n : ℕ) × (idx.0 ≡ ok n))
        × (cold_at i (copied i cold s seg idx).1.cold ≡ record { seg = seg.1; idx = idx.1 })
  unfolding copied cold_at
  copied-ok (ok r, seg) (ok n, idx) tiered e =
      ((r, refl), (n, refl), disk_at-insert_self i (record { seg = seg; idx = idx }) cold)
  copied-ok (ok r, seg) (err e, idx) tiered d = ground arith
  copied-ok (ok r, seg) (panic, idx) tiered d = ground arith
  copied-ok (err e, seg) (q, idx) tiered d = ground arith
  copied-ok (panic, seg) (q, idx) tiered d = ground arith

  -- Without a segment to copy nothing changes.
  pub copied-absent :
      (e : StoreError) (seg : Option (List ℕ)) (idx : Result StoreError ℕ × Option (List ℕ))
      → seg ≡ (disk_at i cold).seg
      → ((copied i cold s (err e, seg) idx).0 ≡ err e)
        × (cold_at i (copied i cold s (err e, seg) idx).1.cold ≡ disk_at i cold)
  unfolding copied cold_at
  copied-absent e seg (d, idx) same = (
    refl,
    disk_at-insert_self i (record { seg = seg; idx = (disk_at i cold).idx }) cold ∙ λ k. record {
      seg = same k;
      idx = (disk_at i cold).idx;
    },
  )
