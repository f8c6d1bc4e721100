-- ===== src/Store/Scale.antt =====
-- The `Encode` and `Decode` of parity-scale-codec that the records of the archive derive. What one has
-- encoded, the other decodes; other bytes may be refused.
use polkadot_indexer_framerw.Common.{ℕ, ◌≡◌, Option, some, List}

pub record Scale (A : Type 0) : Type 0 where
  pub encode : A → List ℕ
  pub decode : List ℕ → Option A
  pub decode-encode : (a : A) → decode (encode a) ≡ some a
