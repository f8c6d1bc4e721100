-- ===== src/Db/Queue.antt =====
-- The fetch work queue of crates/pif-db/src/repo.rs: the rows of `fetch_chunks` for one chain, in the
-- order of their key, and the queries on them. Times are in seconds; an error text is its characters.
pub mod Tiling
pub mod Prefix
pub mod Leases
pub mod Done
use polkadot_indexer_framerw.Common.{
  ℕ, zero, suc, ◌+◌, ◌-◌, min, max, Bool, true, false, ◌&&◌, ◌||◌, not, Option, none, some, List,
  [], ◌∷◌, ltb, leb, ◌==◌, if◌then◌else◌,
}
use polkadot_indexer_framerw.Common.Int.{ℤ, pos, leb_ℤ}

pub data ChunkState : Type 0 where
  pending leased done failed : ChunkState

pub record ChunkRow : Type 0 where
  pub from_block : ℕ
  pub to_block : ℕ
  pub state : ChunkState
  pub leased_by : Option (List ℕ)
  pub lease_expires_at : Option ℕ
  pub attempts : ℕ
  pub last_error : Option (List ℕ)

-- The chunk that a worker is handed.
pub record Chunk : Type 0 where
  pub from_block : ℕ
  pub to_block : ℕ
  pub attempts : ℕ

abbrev pub is_pending : ChunkState → Bool
is_pending pending = true
is_pending leased = false
is_pending done = false
is_pending failed = false

abbrev pub is_leased : ChunkState → Bool
is_leased pending = false
is_leased leased = true
is_leased done = false
is_leased failed = false

abbrev pub is_done : ChunkState → Bool
is_done pending = false
is_done leased = false
is_done done = true
is_done failed = false

abbrev pub is_failed : ChunkState → Bool
is_failed pending = false
is_failed leased = false
is_failed done = false
is_failed failed = true

abbrev new_row : ℕ → ℕ → ChunkRow
new_row from to = record {
  from_block = from;
  to_block = to;
  state = pending;
  leased_by = none;
  lease_expires_at = none;
  attempts = 0;
  last_error = none;
}

-- `INSERT … ON CONFLICT (chain_id, from_block) DO NOTHING`, with the number of rows inserted.
unfoldable pub insert_chunk : ℕ → ℕ → List ChunkRow → List ChunkRow × ℕ
insert_chunk from to [] = (new_row from to ∷ [], 1)
insert_chunk from to (r ∷ rows) =
    let (rest, n) = insert_chunk from to rows in
    if ltb from r.from_block
    then (new_row from to ∷ r ∷ rows, 1)
    else if from == r.from_block
    then (r ∷ rows, 0)
    else (r ∷ rest, n)

abbrev pub i64_max : ℕ
i64_max = 9223372036854775807

-- The loop of `seed_chunks`: a chunk at a time, from `start` on. Each round moves ahead by a block at
-- least, so `to + 1 - from` rounds are enough. The sums are of type `i64`: where one is too large, the
-- loop panics (a build with overflow checks) with the rows that it has inserted so far, and there is no
-- number of rows. Without overflow checks the code goes on with a wrapped number, which is not modelled.
unfoldable pub seed_loop : ℕ → ℕ → ℕ → ℕ → List ChunkRow × ℕ → List ChunkRow × Option ℕ
seed_loop zero start to chunk_size (rows, inserted) = (rows, some inserted)
seed_loop (suc fuel) start to chunk_size (rows, inserted) =
    let end = min (start + chunk_size - 1) to in
    let (rows', n) = insert_chunk start end rows in
    let next = seed_loop fuel (end + 1) to chunk_size (rows', inserted + n) in
    if leb start to
    then if ltb i64_max (start + chunk_size)
      then (rows, none)
      else if ltb i64_max (end + 1)
      then (rows', none)
      else next
    else (rows, some inserted)

unfoldable pub seed_chunks : ℕ → ℕ → ℕ → List ChunkRow → List ChunkRow × Option ℕ
seed_chunks from to chunk_size rows =
    if ltb to from || ltb chunk_size 1
    then (rows, some 0)
    else seed_loop (to + 1 - from) from to chunk_size (rows, 0)

-- The brake, which may be below zero: then nothing is claimable.
abbrev pub Ceiling : Type 0
Ceiling = Option ℤ

-- `$4::bigint IS NULL OR to_block <= $4`
abbrev pub under_ceiling : Ceiling → ℕ → Bool
under_ceiling none to = true
under_ceiling (some most) to = leb_ℤ (pos to) most

-- A row that the query may take: pending, under the brake, and not locked by another transaction.
abbrev pub claimable : (ℕ → Bool) → Ceiling → ChunkRow → Bool
claimable locked ceiling r =
    is_pending r.state && (under_ceiling ceiling r.to_block && not (locked r.from_block))

abbrev pub leased_row : List ℕ → ℕ → ℕ → ChunkRow → ChunkRow
leased_row by seconds now r = record r {
  state = leased;
  leased_by = some by;
  lease_expires_at = some (now + seconds);
  attempts = r.attempts + 1;
}

-- `locked` says which rows other transactions hold at that instant (`SKIP LOCKED`).
module _ (locked : ℕ → Bool) (now : ℕ) (by : List ℕ) (seconds : ℕ) (ceiling : Ceiling) where
  unfoldable pub claim_chunk : List ChunkRow → Option Chunk × List ChunkRow
  claim_chunk [] = (none, [])
  claim_chunk (r ∷ rows) =
      let (found, rest) = claim_chunk rows in
      if claimable locked ceiling r
      then (
        some (record {
          from_block = r.from_block;
          to_block = r.to_block;
          attempts = r.attempts + 1;
        }),
        leased_row by seconds now r ∷ rows,
      )
      else (found, r ∷ rest)

-- `UPDATE … WHERE from_block = $2`
unfoldable pub update_chunk : (ChunkRow → ChunkRow) → ℕ → List ChunkRow → List ChunkRow
update_chunk f from [] = []
update_chunk f from (r ∷ rows) =
    (if r.from_block == from then f r else r) ∷ update_chunk f from rows

unfoldable pub complete_chunk : ℕ → List ChunkRow → List ChunkRow
complete_chunk =
    update_chunk (λ r. record r { state = done; lease_expires_at = none; last_error = none })

unfoldable pub release_chunk : ℕ → List ℕ → List ChunkRow → List ChunkRow
release_chunk from error =
    update_chunk
      (λ r. record r {
        state = pending;
        leased_by = none;
        lease_expires_at = none;
        last_error = some error;
      })
      from

unfoldable pub fail_chunk : ℕ → List ℕ → List ChunkRow → List ChunkRow
fail_chunk from error =
    update_chunk
      (λ r. record r {
        state = failed;
        leased_by = none;
        lease_expires_at = none;
        last_error = some error;
      })
      from

-- `state = 'leased' AND lease_expires_at < now()`
abbrev pub expired : ℕ → ChunkRow → Bool
expired now r = is_leased r.state && (elim r.lease_expires_at [ none ↦ false | some t ↦ ltb t now ])

unfoldable pub reclaim_expired_chunks : ℕ → List ChunkRow → List ChunkRow × ℕ
reclaim_expired_chunks now [] = ([], 0)
reclaim_expired_chunks now (r ∷ rows) =
    let (rest, n) = reclaim_expired_chunks now rows in
    if expired now r
    then (record r { state = pending; leased_by = none; lease_expires_at = none } ∷ rest, n + 1)
    else (r ∷ rest, n)

-- `min(from_block)` over the rows that are not done.
first_open : List ChunkRow → Option ℕ
first_open [] = none
first_open (r ∷ rows) = elim (first_open rows) [
  | none ↦ if is_done r.state then none else some r.from_block
  | some m ↦ if is_done r.state then some m else some (min r.from_block m)
]

-- `max(to_block)` over the done rows below `limit`.
max_done : ℕ → List ChunkRow → Option ℕ
max_done limit [] = none
max_done limit (r ∷ rows) = elim (max_done limit rows) [
  | none ↦ if is_done r.state && ltb r.from_block limit then some r.to_block else none
  | some m ↦ if is_done r.state && ltb r.from_block limit then some (max r.to_block m) else some m
]

unfoldable pub contiguous_done_end : List ChunkRow → Option ℕ
unfolding first_open max_done
contiguous_done_end rows = max_done (elim (first_open rows) [ none ↦ i64_max | some m ↦ m ]) rows

abbrev pub count_state : (ChunkState → Bool) → List ChunkRow → ℕ
count_state p [] = 0
count_state p (r ∷ rows) = (if p r.state then 1 else 0) + count_state p rows

-- `(pending, leased, failed)`
abbrev pub chunk_counts : List ChunkRow → ℕ × ℕ × ℕ
chunk_counts rows =
    (count_state is_pending rows, count_state is_leased rows, count_state is_failed rows)
