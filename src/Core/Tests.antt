-- ===== src/Core/Tests.antt =====
-- Addresses over a toy hash and a toy encoding.
use polkadot_indexer_framerw.Common.{
  ℕ, ◌≡◌, refl, some, List, [], ◌∷◌, length, replicate, length-replicate,
}
use polkadot_indexer_framerw.Core.Ss58.{Blake2, Base58, encode, decode, encode_prefix, or_top}
use polkadot_indexer_framerw.Core.Ss58.RoundTrip.{decode-encode_account}

abbrev toy_hash : Blake2
toy_hash = record {
  digest = λ bytes. replicate 64 (length bytes);
  length-digest = λ bytes. length-replicate 64 (length bytes);
}

abbrev toy_text : Base58
toy_text = record {
  to_text = λ bytes. 49 ∷ bytes;
  of_text = λ text. elim text [ [] ↦ some [] | c ∷ bytes ↦ some bytes ];
  of_text-to_text = λ bytes. refl;
}

abbrev account : List ℕ
account = replicate 32 7

abbrev network : ℕ
network = 42

decode-encode_account_example :
    decode toy_hash toy_text (encode toy_hash toy_text account network) ≡ some account
decode-encode_account_example = decode-encode_account toy_hash toy_text account network refl

-- Two bytes name one of several prefixes when these may go past 2^14.
prefix_twice : encode_prefix 16640 ≡ encode_prefix 257
unfolding encode_prefix or_top
prefix_twice = refl
