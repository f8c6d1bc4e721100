-- ===== src/Chain/Digest.antt =====
-- The digest stage, crates/pif-chain/src/digest.rs: it decodes archived blocks in batches, checks that
-- each links to the one before, and commits a batch with the digest watermark. The archive with the
-- decoder, and the handlers, are parameters: what is read for a block, or nothing when that fails, and
-- whether the handlers of a block succeed. A block number is one that an `i64` holds.
pub mod Linked
use polkadot_indexer_framerw.Common.{
  ℕ, zero, suc, ◌+◌, ◌-◌, min, max, Bool, true, false, ◌&&◌, Option, none, some, List, [], ◌∷◌,
  ◌++◌, leb,
}
use polkadot_indexer_framerw.Common.Result.{Result, ok, err, panic}
use polkadot_indexer_framerw.Common.Int.{ℤ, pos, negsuc, min_ℤ}
use polkadot_indexer_framerw.Db.Watermarks.{Watermarks, load_watermarks, advance_digest_watermark}
use polkadot_indexer_framerw.Store.Layout.{list_eq}

pub record Header : Type 0 where
  pub hash : List ℕ
  pub parent : List ℕ

pub data DigestError : Type 0 where
  unreadable linkage_broken handler_failed refused : DigestError

-- What the transactions have committed: the rows of the blocks, in order, and the watermarks.
pub record Committed : Type 0 where
  pub blocks : List (ℕ × Header)
  pub marks : Option Watermarks

unfoldable pub links : Option (List ℕ) → Header → Bool
links none h = true
links (some expected) h = list_eq expected h.parent

abbrev pub last_block : List (ℕ × Header) → Option (ℕ × Header)
last_block [] = none
last_block (b ∷ []) = some b
last_block (b ∷ c ∷ blocks) = last_block (c ∷ blocks)

module _ (archive : ℕ → Option Header) (handled : ℕ → Bool) where
  -- The decode loop of `commit`, over `count` blocks.
  unfoldable pub decode_blocks : ℕ → ℕ → Option (List ℕ) → Result DigestError (List (ℕ × Header))
  decode_blocks zero number link = ok []
  decode_blocks (suc count) number link = elim (archive number) [
    | none ↦ err unreadable
    | some h ↦ elim (links link h) [
      | false ↦ err linkage_broken
      | true ↦ elim (decode_blocks count (number + 1) (some h.hash)) [
        | ok rest ↦ ok ((number, h) ∷ rest)
        | err e ↦ err e
        | panic ↦ panic
      ]
    ]
  ]

  abbrev pub all_handled : List (ℕ × Header) → Bool
  all_handled [] = true
  all_handled ((number, h) ∷ blocks) = handled number && all_handled blocks

  -- The transaction of `commit`: nothing of it stays when a part fails.
  unfoldable pub write_batch :
      List (ℕ × Header) → Committed → Result DigestError (List ℕ) × Committed
  write_batch blocks db = elim (all_handled blocks) [
    | false ↦ (err handler_failed, db)
    | true ↦ elim (last_block blocks) [
      | none ↦ (panic, db)
      | some (number, h) ↦
          let (taken, marks) = advance_digest_watermark (pos number) db.marks in
          elim taken [
            | false ↦ (err refused, db)
            | true ↦ (ok h.hash, record { blocks = db.blocks ++ blocks; marks = marks })
          ]
    ]
  ]

  unfoldable pub commit :
      ℕ → ℕ → Option (List ℕ) → Committed → Result DigestError (List ℕ) × Committed
  commit from to link db = elim (decode_blocks (to + 1 - from) from link) [
    | ok blocks ↦ write_batch blocks db
    | err e ↦ (err e, db)
    | panic ↦ (panic, db)
  ]

  -- The loop of batches up to `last`, of `run` and of `replay_range`. Each batch moves ahead by a block
  -- at least, so `last + 1 - next` rounds are enough.
  unfoldable pub batches :
      ℕ → ℕ → ℕ → ℕ → Option (List ℕ) → Committed → Result DigestError (Unit {0}) × Committed
  batches zero batch next last link db = (ok tt, db)
  batches (suc fuel) batch next last link db = elim (leb next last) [
    | false ↦ (ok tt, db)
    | true ↦
        let end = min (next + max batch 1 - 1) last in
        let (done, db') = commit next end link db in
        elim done [
          | ok hash ↦ batches fuel batch (end + 1) last (some hash) db'
          | err e ↦ (err e, db')
          | panic ↦ (panic, db')
        ]
  ]

  unfoldable pub replay_range : ℕ → ℕ → ℕ → Committed → Result DigestError (Unit {0}) × Committed
  replay_range batch from to db = batches (to + 1 - from) batch from to none db

  -- The inner loop of `run`: batches up to `last`, if that is a block number at all.
  unfoldable pub digest_up_to :
      ℤ → ℕ → ℕ → Option (List ℕ) → Committed → Result DigestError (Unit {0}) × Committed
  digest_up_to (pos last) batch next link db = batches (last + 1 - next) batch next last link db
  digest_up_to (negsuc n) batch next link db = (ok tt, db)

  -- One turn of the outer loop of `run`: what the watermark says is ready, up to `stop_at`.
  unfoldable pub digest_ready :
      ℕ → Option ℕ → ℕ → Option (List ℕ) → Committed → Result DigestError (Unit {0}) × Committed
  digest_ready batch stop_at next link db =
      let ready : ℤ = elim (load_watermarks db.marks) [ none ↦ negsuc 0 | some m ↦ m.fetch ] in
      let last : ℤ = elim stop_at [ none ↦ ready | some stop ↦ min_ℤ ready (pos stop) ] in
      digest_up_to last batch next link db
