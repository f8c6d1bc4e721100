-- ===== src/Store/Segment/Files.antt =====
-- Writes and cuts at the end of a file, and the files that represent a log.
use polkadot_indexer_framerw.Common.{
  ℕ, ◌+◌, ◌-◌, ◌*◌, ◌≡◌, refl, ◌⊎◌, inl, inr, some, List, [], ◌∷◌, ◌++◌, append-nil, arith, length,
  length-append, take-append, take_all, drop_all,
}
use polkadot_indexer_framerw.Store.Segment.{
  Disk, write_all, set_len, seg_magic, idx_magic, magic_len, idx_entry_len,
}
use polkadot_indexer_framerw.Store.Segment.Format.{
  Crc32, Log, frames, entries, length-frames, length-entries, end_of,
}

module _ (crc : Crc32) where
  abbrev pub seg_bytes : Log → List ℕ
  seg_bytes log = seg_magic ++ frames crc log

abbrev pub idx_bytes : Log → List ℕ
idx_bytes log = idx_magic ++ entries magic_len log

-- The two files of a log, with nothing else in them.
abbrev pub disk_of_log : Crc32 → Log → Disk
disk_of_log crc log = record { seg = some (seg_bytes crc log); idx = some (idx_bytes log) }

pub length-seg_bytes : (crc : Crc32) (log : Log) → length (seg_bytes crc log) ≡ end_of magic_len log
length-seg_bytes crc log = omega (arith, length-frames crc magic_len log)

pub length-idx_bytes : (log : Log) → length (idx_bytes log) ≡ magic_len + length log * idx_entry_len
length-idx_bytes log = omega (arith, length-entries magic_len log)

-- A write at the end of a file appends.
pub write_all_end :
    (new old : List ℕ) (n : ℕ)
    → n ≡ length old
    → write_all new (record { bytes = old; pos = n })
      ≡ record { bytes = old ++ new; pos = n + length new }
unfolding write_all
write_all_end new old n e = rw e (
    rw (take_all old (length old) (omega arith)) (
      rw (drop_all old (length old + length new) (omega arith))
        (let z : length old - length old ≡ 0 = omega arith in rw (z, append-nil) refl)))

-- A cut to the length of the front part drops the rest.
pub set_len-append :
    (front back : List ℕ) (n p : ℕ)
    → n ≡ length front
    → set_len n (record { bytes = front ++ back; pos = p }) ≡ record { bytes = front; pos = p }
unfolding set_len
set_len-append front back n p e =
    let z : length front - length (front ++ back) ≡ 0 = omega (arith, length-append front back) in
    rw e (rw (take-append front back) (rw z (rw append-nil refl)))

-- Every log is empty or has a last item.
pub Log-cases :
    (log : Log)
    → (log ≡ []) ⊎ ((front : Log) × (n : ℕ) × (p : List ℕ) × (log ≡ front ++ (n, p) ∷ []))
Log-cases [] = inl refl
Log-cases ((n, p) ∷ log) = elim (Log-cases log) [
  | inl e ↦ inr ([], n, p, rw e)
  | inr (front, m, q, e) ↦ inr ((n, p) ∷ front, m, q, rw e)
]
