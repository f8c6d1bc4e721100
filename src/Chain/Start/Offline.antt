-- ===== src/Chain/Start/Offline.antt =====
-- `pif replay`: a range of blocks from the archive alone.
use polkadot_indexer_framerw.Common.{
  ℕ, ◌≤◌, ◌≡◌, ap, subst, inl, inr, Bool, Option, none, some, arith, ltb, Bool-cases,
}
use polkadot_indexer_framerw.Common.Result.{Result, ok, err, panic}
use polkadot_indexer_framerw.Chain.Digest.{Committed, DigestError, Header, replay_range}
use polkadot_indexer_framerw.Chain.Digest.Linked.{Digested, replay_range-Digested}
use polkadot_indexer_framerw.Chain.Start.{
  StartError, known_only, replay, replay_outcome, replay_resolved, resolve, chain_not_indexed,
}

replay_outcome-ok :
    (done : Result DigestError (Unit {0}) × Committed) (db : Committed)
    → replay_outcome done ≡ (ok tt, db)
    → done ≡ (ok tt, db)
replay_outcome-ok (ok u, db') db e = λ i. (ok tt, (e i).1)
replay_outcome-ok (err x, db') db e = absurd (ground (arith, ap (λ p. p.0) e))
replay_outcome-ok (panic, db') db e = absurd (ground (arith, ap (λ p. p.0) e))

module _ {Info Client : Type 0} (archive : Option Client → ℕ → Option Header)
    (handled : Option Client → ℕ → Bool) (batch from to : ℕ) (db : Committed) where
  replay_known :
      (stored : Option Info) (db' : Committed)
      → replay_resolved archive handled batch from to db (known_only stored chain_not_indexed)
        ≡ (ok tt, db')
      → replay_range (archive none) (handled none) batch from to db ≡ (ok tt, db')
  replay_known (some info) db' e =
      replay_outcome-ok (replay_range (archive none) (handled none) batch from to db) db' e
  replay_known none db' e = absurd (ground (arith, ap (λ p. p.0) e))

  -- A replay that succeeds, of a range that is not empty, has committed all the blocks `from ..= to`, each one
  -- naming its predecessor's hash as its parent, from what the archive and the handlers give without a
  -- client; and it would have done the same however a connection to the node had gone.
  pub replay-Digested :
      (stored : Option Info) (connected other : Result StartError (Info × Client)) (db' : Committed)
      → replay stored connected archive handled batch from to db ≡ (ok tt, db')
      → (from ≤ to)
        × Digested from to none db (ok tt, db')
        × (replay stored other archive handled batch from to db ≡ (ok tt, db'))
  unfolding replay resolve
  replay-Digested stored connected other db' e = elim (Bool-cases (ltb to from)) [
    | inl empty ↦ absurd (ground (arith, ap (λ p. p.0) (rw (empty, replay) at e)))
    | inr there ↦ (
      ground (arith, there),
      subst (Digested from to none db) (replay_known stored db' (rw (there, replay) at e))
          (replay_range-Digested (archive none) (handled none) batch from to db),
      e,
    )
  ]
