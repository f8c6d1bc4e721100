-- ===== src/Chain/Start/Tests.antt =====
-- A chain that starts at its genesis block, one that is rewound, and a replay of two blocks.
use polkadot_indexer_framerw.Common.{
  ℕ, ◌-◌, ◌≤◌, ◌≡◌, refl, true, Option, none, some, List, [], ◌∷◌, arith, some_inj,
}
use polkadot_indexer_framerw.Common.Result.{ok, err}
use polkadot_indexer_framerw.Common.Int.{pos, negsuc}
use polkadot_indexer_framerw.Db.Watermarks.{init_watermarks, advance_digest_watermark}
use polkadot_indexer_framerw.Chain.Digest.{
  Committed, Header, digest_ready, replay_range, batches, commit, decode_blocks, links, write_batch,
}
use polkadot_indexer_framerw.Chain.Digest.Linked.{Digested}
use polkadot_indexer_framerw.Chain.Start.{
  Rows, before, digest_start, replay, resolve_start, unreachable, resolve,
}
use polkadot_indexer_framerw.Chain.Start.Rewind.{digest_from-idle}
use polkadot_indexer_framerw.Chain.Start.Resume.{resolve_start-again}
use polkadot_indexer_framerw.Chain.Start.Offline.{replay-Digested}
use polkadot_indexer_framerw.Chain.Fetch.{as_i64}
use polkadot_indexer_framerw.Store.Layout.{list_eq}

abbrev fresh_rows : Rows
fresh_rows = record { marks = none; chunks = []; cursor = none }

abbrev at_hundred : Rows
at_hundred = record {
  marks = some (record { fetch = pos 100; digest = pos 80; archive = pos 20 });
  chunks = [];
  cursor = none;
}

at_genesis : resolve_start 0 none fresh_rows ≡ (
  ok 0,
  record fresh_rows {
    marks = some (record { fetch = negsuc 0; digest = negsuc 0; archive = negsuc 0 });
  },
)
unfolding resolve_start before as_i64 init_watermarks
at_genesis = refl

resolve_start-again_example :
    (start : ℕ) × (after : Rows) × (resolve_start 0 (some 30) at_hundred ≡ (ok start, after))
    × (resolve_start 0 none after ≡ (ok start, after))
resolve_start-again_example =
    resolve_start-again 0 (some 30) at_hundred (omega arith) (λ n e. omega (arith, some_inj e))

-- Blocks that all link, and handlers that take them all.
abbrev toy_archive : ℕ → Option Header
toy_archive n = some (record { hash = n ∷ []; parent = (n - 1) ∷ [] })

digest_from-idle_example :
    (after : Rows) × (digest_start 0 (some 30) at_hundred ≡ (ok 30, after))
    × (digest_ready toy_archive
          (λ n. true)
          10
          none
          30
          none
          (record { blocks = []; marks = after.marks })
        ≡ (ok tt, record { blocks = []; marks = after.marks }))
digest_from-idle_example =
    digest_from-idle toy_archive (λ n. true) 10 0 30 none none [] at_hundred (omega arith)

abbrev fetched_two : Committed
fetched_two = record {
  blocks = [];
  marks = some (record { fetch = pos 100; digest = pos 80; archive = pos 20 });
}

abbrev header_of : ℕ → Header
header_of n = record { hash = n ∷ []; parent = (n - 1) ∷ [] }

abbrev dot : List ℕ
dot = b'd' ∷ []

abbrev node : List ℕ
node = b'n' ∷ []

abbrev replayed_two : Committed
replayed_two = record fetched_two { blocks = (30, header_of 30) ∷ (31, header_of 31) ∷ [] }

runs :
    replay
      (some dot)
      (err unreachable)
      (λ (c : Option (List ℕ)). toy_archive)
      (λ c n. true)
      10
      30
      31
      fetched_two
    ≡ (ok tt, replayed_two)
unfolding replay resolve replay_range batches commit decode_blocks write_batch links
    advance_digest_watermark list_eq
runs = refl

replay-Digested_example :
    (30 ≤ 31)
    × Digested 30 31 none fetched_two (ok tt, replayed_two)
    × (replay
          (some dot)
          (ok (dot, node))
          (λ (c : Option (List ℕ)). toy_archive)
          (λ c n. true)
          10
          30
          31
          fetched_two
        ≡ (ok tt, replayed_two))
replay-Digested_example =
    replay-Digested (λ (c : Option (List ℕ)). toy_archive) (λ c n. true) 10 30 31 fetched_two
      (some dot) (err unreachable) (ok (dot, node)) replayed_two runs
