-- ===== src/Core/Ss58/RoundTrip.antt =====
-- An address names one account, whatever the network.
use polkadot_indexer_framerw.Common.{
  ℕ, ◌+◌, ◌*◌, ◌/◌, ◌%◌, ◌<◌, ◌≡◌, refl, sym, ap, ◌∙◌, ◌⊎◌, inl, inr, true, false, Option, none,
  some, List, [], ◌∷◌, ◌++◌, append_assoc, arith, ltb, Bool-cases, length, take, drop,
  length-append, take-append, drop-append, length-take,
}
use polkadot_indexer_framerw.Store.Layout.Names.{list_eq_iff}
use polkadot_indexer_framerw.Core.Ss58.{
  Blake2, Base58, checksum, encode, decode, decode_raw, encode_prefix, or_top, checksum_prefix,
  decode_found,
}

length-encode_prefix :
    (prefix : ℕ) → (length (encode_prefix prefix) ≡ 1) ⊎ (length (encode_prefix prefix) ≡ 2)
unfolding encode_prefix
length-encode_prefix prefix = elim (Bool-cases (ltb prefix 64)) [
  | inl small ↦ inl (rw (encode_prefix, small) refl)
  | inr large ↦ inr (rw (encode_prefix, large) refl)
]

module _ (blake2 : Blake2) (base58 : Base58) where
  length-checksum : (body : List ℕ) → length (checksum blake2 base58 body) ≡ 2
  unfolding checksum
  length-checksum body = omega (
    arith,
    length-take 2 (blake2.digest (checksum_prefix ++ body)),
    blake2.length-digest (checksum_prefix ++ body),
  )

  module _ (raw body account : List ℕ) where
    decode_raw-one :
        length raw ≡ 35
        → take 33 raw ≡ body
        → drop 33 raw ≡ checksum blake2 base58 body
        → drop 1 body ≡ account
        → decode_raw blake2 base58 raw ≡ some account
    unfolding decode_raw
    decode_raw-one len front back rest =
        let same =
          (list_eq_iff (checksum blake2 base58 body) (checksum blake2 base58 body)).1 refl in
        rw (decode_raw, len, front, back, same) (ap (λ l. some l) rest)

    decode_raw-two :
        length raw ≡ 36
        → take 34 raw ≡ body
        → drop 34 raw ≡ checksum blake2 base58 body
        → drop 2 body ≡ account
        → decode_raw blake2 base58 raw ≡ some account
    unfolding decode_raw
    decode_raw-two len front back rest =
        let same =
          (list_eq_iff (checksum blake2 base58 body) (checksum blake2 base58 body)).1 refl in
        rw (decode_raw, len, front, back, same) (ap (λ l. some l) rest)

  -- The three parts of the bytes behind an address, taken apart.
  decode_raw-parts :
      (front account : List ℕ)
      → (length front ≡ 1) ⊎ (length front ≡ 2)
      → length account ≡ 32
      → decode_raw blake2 base58 ((front ++ account) ++ checksum blake2 base58 (front ++ account))
        ≡ some account
  decode_raw-parts front account short full =
      let body = front ++ account in
      let sum = checksum blake2 base58 body in
      let both = length-append front account in
      let whole = length-append body sum in
      let two = length-checksum body in
      elim short [
        | inl is ↦
            let n : 33 ≡ length body = omega (arith, both, full, is) in
            decode_raw-one (body ++ sum) body account (omega (arith, whole, n, two))
              (ap (λ (k : ℕ). take k (body ++ sum)) n ∙ take-append body sum)
              (ap (λ (k : ℕ). drop k (body ++ sum)) n ∙ drop-append body sum)
              (ap (λ (k : ℕ). drop k body) (sym is) ∙ drop-append front account)
        | inr is ↦
            let n : 34 ≡ length body = omega (arith, both, full, is) in
            decode_raw-two (body ++ sum) body account (omega (arith, whole, n, two))
              (ap (λ (k : ℕ). take k (body ++ sum)) n ∙ take-append body sum)
              (ap (λ (k : ℕ). drop k (body ++ sum)) n ∙ drop-append body sum)
              (ap (λ (k : ℕ). drop k body) (sym is) ∙ drop-append front account)
      ]

  -- Decoding the address of an account of 32 bytes returns the account, whatever the network prefix
  -- that the address was written with.
  pub decode-encode_account :
      (account : List ℕ) (prefix : ℕ)
      → length account ≡ 32
      → decode blake2 base58 (encode blake2 base58 account prefix) ≡ some account
  unfolding decode encode
  decode-encode_account account prefix full =
      let body = encode_prefix prefix ++ account in
      ap (decode_found blake2 base58) (base58.of_text-to_text (body ++ checksum blake2 base58 body))
      ∙ decode_raw-parts (encode_prefix prefix) account (length-encode_prefix prefix) full

or_top-high : (byte top : ℕ) → byte < 64 → top < 4 → or_top byte top ≡ byte + 64 * top
unfolding or_top
or_top-high byte top small two_bits = ground arith

one_byte : (p : ℕ) → ltb p 64 ≡ true → encode_prefix p ≡ p ∷ []
unfolding encode_prefix
one_byte p small = rw (encode_prefix, small) refl

two_bytes :
    (p : ℕ) → ltb p 64 ≡ false → encode_prefix p ≡ (p / 4 % 64 + 64) ∷ or_top (p / 256) (p % 4) ∷ []
unfolding encode_prefix
two_bytes p large = rw (encode_prefix, large) refl

abbrev first_of : List ℕ → ℕ
first_of [] = 0
first_of (b ∷ bytes) = b

abbrev second_of : List ℕ → ℕ
second_of [] = 0
second_of (b ∷ bytes) = first_of bytes

-- The bytes of a prefix below 2^14 name it.
encode_prefix-injective :
    (p q : ℕ) → p < 16384 → q < 16384 → encode_prefix p ≡ encode_prefix q → p ≡ q
encode_prefix-injective p q hp hq e = elim (Bool-cases (ltb p 64)) [
  | inl p_small ↦ elim (Bool-cases (ltb q 64)) [
    | inl q_small ↦ ap first_of (sym (one_byte p p_small) ∙ e ∙ one_byte q q_small)
    | inr q_large ↦
        absurd (omega (arith, ap length (sym (one_byte p p_small) ∙ e ∙ two_bytes q q_large)))
  ]
  | inr p_large ↦ elim (Bool-cases (ltb q 64)) [
    | inl q_small ↦
        absurd (omega (arith, ap length (sym (two_bytes p p_large) ∙ e ∙ one_byte q q_small)))
    | inr q_large ↦
        let both = sym (two_bytes p p_large) ∙ e ∙ two_bytes q q_large in
        omega (
          arith,
          ap first_of both,
          ap second_of both,
          or_top-high (p / 256) (p % 4) (omega arith) (omega arith),
          or_top-high (q / 256) (q % 4) (omega arith) (omega arith),
        )
  ]
]

some-injective : (xs ys : List ℕ) → some xs ≡ some ys → xs ≡ ys
some-injective xs ys e = ap (λ (o : Option (List ℕ)). elim o [ none ↦ [] | some l ↦ l ]) e

-- The address of an account of 32 bytes for a network prefix below 2^14 is that of no other account of
-- 32 bytes, and of no other such prefix.
pub encode-injective :
    (blake2 : Blake2) (base58 : Base58) (a b : List ℕ) (p q : ℕ)
    → length a ≡ 32
    → length b ≡ 32
    → p < 16384
    → q < 16384
    → encode blake2 base58 a p ≡ encode blake2 base58 b q
    → (a ≡ b) × (p ≡ q)
unfolding encode
encode-injective blake2 base58 a b p q full_a full_b hp hq e =
    let body_a = encode_prefix p ++ a in
    let body_b = encode_prefix q ++ b in
    let sum_a = checksum blake2 base58 body_a in
    let sum_b = checksum blake2 base58 body_b in
    let raw : body_a ++ sum_a ≡ body_b ++ sum_b =
      some-injective (body_a ++ sum_a) (body_b ++ sum_b) (
        sym (base58.of_text-to_text (body_a ++ sum_a))
        ∙ ap base58.of_text e
        ∙ base58.of_text-to_text (body_b ++ sum_b)) in
    let n : length (encode_prefix p) ≡ length (encode_prefix q) = omega (
      arith,
      ap length raw,
      length-append body_a sum_a,
      length-append body_b sum_b,
      length-append (encode_prefix p) a,
      length-append (encode_prefix q) b,
      length-checksum blake2 base58 body_a,
      length-checksum blake2 base58 body_b,
      full_a,
      full_b,
    ) in
    let fronts : encode_prefix p ≡ encode_prefix q =
      sym (take-append (encode_prefix p) (a ++ sum_a))
      ∙ ap (take (length (encode_prefix p))) (
          sym (append_assoc (encode_prefix p) a sum_a)
          ∙ raw
          ∙ append_assoc (encode_prefix q) b sum_b)
      ∙ ap (λ (k : ℕ). take k (encode_prefix q ++ (b ++ sum_b))) n
      ∙ take-append (encode_prefix q) (b ++ sum_b) in
    (
      some-injective a b (
          sym (decode-encode_account blake2 base58 a p full_a)
          ∙ ap (decode blake2 base58) e
          ∙ decode-encode_account blake2 base58 b q full_b),
      encode_prefix-injective p q hp hq fronts,
    )
