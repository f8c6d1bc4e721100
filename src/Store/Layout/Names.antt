-- ===== src/Store/Layout/Names.antt =====
-- Segment file names: the range in a name is read back from it, and which chain ids are accepted.
use polkadot_indexer_framerw.Common.{
  ℕ, zero, suc, ◌+◌, ◌-◌, ◌*◌, ◌/◌, ◌%◌, ◌^◌, ◌≤◌, ◌<◌, ◌≡◌, refl, ap, ◌∙◌, ◌≢◌, ◌↔◌, ◌⊎◌, inl, inr,
  true, false, some, List, [], ◌∷◌, ◌++◌, arith, ltb, ltb→lt, Bool-cases, length, replicate, All,
  length-append, take-append, drop-append, length-replicate, All-append,
}
use native.Mathlib.Nat.{pow-suc}
use polkadot_indexer_framerw.Common.Result.{ok}
use polkadot_indexer_framerw.Store.Layout.{
  segment_start, segment_end, segment_stem, padded, digits, seg_suffix, strip_suffix, list_eq,
  before_char, parse_digits, parse_u64, stem_start, check_chain_id, all_chars, chain_char,
}

abbrev pub IsDigit : ℕ → Type 0
IsDigit c = (48 ≤ c) × (c ≤ 57)

pub list_eq_iff : (xs ys : List ℕ) → (list_eq xs ys ≡ true) ↔ (xs ≡ ys)
unfolding list_eq
list_eq_iff [] [] = ground arith
list_eq_iff [] (y ∷ ys) = ground arith
list_eq_iff (x ∷ xs) [] = ground arith
list_eq_iff (x ∷ xs) (y ∷ ys) = ground (arith, list_eq_iff xs ys)

pub digits-IsDigit : (k n : ℕ) → All IsDigit (digits k n)
unfolding digits
digits-IsDigit zero n = tt
digits-IsDigit (suc k) n = elim (Bool-cases (ltb n 10)) [
  | inl small ↦ rw small (omega (arith, ltb→lt n 10 small))
  | inr large ↦ rw large (
      All-append IsDigit (digits k (n / 10)) ((48 + n % 10) ∷ []) (digits-IsDigit k (n / 10))
        (omega arith))
]

zeros-IsDigit : (k : ℕ) → All IsDigit (replicate k 48)
zeros-IsDigit zero = tt
zeros-IsDigit (suc k) = ((omega arith, omega arith), zeros-IsDigit k)

padded-IsDigit : (n : ℕ) → All IsDigit (padded n)
unfolding padded
padded-IsDigit n =
    All-append IsDigit (replicate (9 - length (digits 20 n)) 48) (digits 20 n)
      (zeros-IsDigit (9 - length (digits 20 n))) (digits-IsDigit 20 n)

-- Reading on behind a run of digits.
parse_digits-append :
    (acc : ℕ) (xs ys : List ℕ) (m : ℕ)
    → parse_digits acc xs ≡ some m
    → parse_digits acc (xs ++ ys) ≡ parse_digits m ys
unfolding parse_digits
parse_digits-append acc [] ys m e = ground arith
parse_digits-append acc (c ∷ xs) ys m e =
    ground (arith, parse_digits-append (acc * 10 + (c - 48)) xs ys m)

parse_digits_one :
    (acc d : ℕ)
    → d < 10
    → acc * 10 + d < 2 ^ 64
    → parse_digits acc ((48 + d) ∷ []) ≡ some (acc * 10 + d)
unfolding parse_digits
parse_digits_one acc d h fits = ground arith

pub parse_digits-digits : (k n : ℕ) → n < 10 ^ k → n < 2 ^ 64 → parse_digits 0 (digits k n) ≡ some n
unfolding digits
parse_digits-digits zero n h fits = unfold parse_digits in ground arith
parse_digits-digits (suc k) n h fits = elim (Bool-cases (ltb n 10)) [
  | inl small ↦
      rw small (parse_digits_one 0 n (ltb→lt n 10 small) (omega arith) ∙ ap some (omega arith))
  | inr large ↦ rw large (
      parse_digits-append 0 (digits k (n / 10)) ((48 + n % 10) ∷ []) (n / 10)
        (parse_digits-digits k (n / 10) (omega (arith, pow-suc 10 k)) (omega arith))
      ∙ parse_digits_one (n / 10) (n % 10) (omega arith) (omega arith)
      ∙ ap some (omega arith))
]

-- Leading zeros do not count.
parse_digits-zeros :
    (k : ℕ) (xs : List ℕ) → parse_digits 0 (replicate k 48 ++ xs) ≡ parse_digits 0 xs
unfolding parse_digits
parse_digits-zeros zero xs = refl
parse_digits-zeros (suc k) xs = parse_digits-zeros k xs

parse_digits-padded : (n : ℕ) → n < 2 ^ 64 → parse_digits 0 (padded n) ≡ some n
unfolding padded
parse_digits-padded n h =
    parse_digits-zeros (9 - length (digits 20 n)) (digits 20 n)
    ∙ parse_digits-digits 20 n (omega arith) h

-- Digits have no sign to skip.
pub parse_u64-digits : (xs : List ℕ) → All IsDigit xs → xs ≢ [] → parse_u64 xs ≡ parse_digits 0 xs
unfolding parse_u64
parse_u64-digits [] h ne = absurd (ne refl)
parse_u64-digits (c ∷ []) h ne = refl
parse_u64-digits (c ∷ d ∷ xs) h ne = ground arith

before_char-digits :
    (xs ys : List ℕ) → All IsDigit xs → before_char b'-' (xs ++ (b'-' ∷ ys)) ≡ some xs
unfolding before_char
before_char-digits [] ys h = refl
before_char-digits (x ∷ xs) ys h = ground (arith, before_char-digits xs ys h.1)

pub strip_suffix-append : (stem suffix : List ℕ) → strip_suffix (stem ++ suffix) suffix ≡ some stem
unfolding strip_suffix
strip_suffix-append stem suffix =
    let n : length (stem ++ suffix) - length suffix ≡ length stem =
      omega (arith, length-append stem suffix) in
    let t = (list_eq_iff suffix suffix).1 refl in
    rw n (
      rw (take-append stem suffix)
        (rw (drop-append stem suffix) (rw t (ground (arith, length-append stem suffix)))))

padded-ne-nil : (n : ℕ) → padded n ≢ []
unfolding padded
padded-ne-nil n e =
    let zeros = replicate {A = ℕ} (9 - length (digits 20 n)) 48 in
    omega (
      arith,
      ap length e,
      length-append zeros (digits 20 n),
      length-replicate {A = ℕ} (9 - length (digits 20 n)) 48,
    )

-- The first block is read back from the name of every segment file.
pub stem_start-segment_stem :
    (index size : ℕ)
    → stem_start (segment_stem index size ++ seg_suffix) ≡ some (segment_start index size)
unfolding stem_start segment_stem
stem_start-segment_stem index size =
    let s = segment_start index size in
    let rest = padded (segment_end index size) in
    let small : s < 2 ^ 64 = unfold segment_start in omega arith in
    rw (strip_suffix-append (padded s ++ (b'-' ∷ rest)) seg_suffix) (
      rw (before_char-digits (padded s) rest (padded-IsDigit s)) (
        parse_u64-digits (padded s) (padded-IsDigit s) (padded-ne-nil s)
        ∙ parse_digits-padded s small))

-- The characters that a chain id may have.
abbrev pub IsChainChar : ℕ → Type 0
IsChainChar c =
    ((48 ≤ c) × (c ≤ 57))
    ⊎ ((97 ≤ c) × (c ≤ 122))
    ⊎ ((65 ≤ c) × (c ≤ 90))
    ⊎ (c ≡ b'-')
    ⊎ (c ≡ b'_')
    ⊎ (c ≡ b'.')

chain_char_iff : (c : ℕ) → (chain_char c ≡ true) ↔ IsChainChar c
unfolding chain_char
chain_char_iff c = ground arith

all_chars_iff : (cs : List ℕ) → (all_chars cs ≡ true) ↔ All IsChainChar cs
unfolding all_chars
all_chars_iff [] = (λ h. tt, λ h. refl)
all_chars_iff (c ∷ cs) = (
  λ h. ((chain_char_iff c).0 (ground arith), (all_chars_iff cs).0 (ground arith)),
  λ h. rw ((chain_char_iff c).1 h.0) ((all_chars_iff cs).1 h.1),
)

-- A chain id becomes a directory name exactly when it is not empty, not one of the two names that lead
-- out of or nowhere below the root, and made of letters, digits, `-`, `_` and `.` only.
pub check_chain_id_iff :
    (chain : List ℕ)
    → (check_chain_id chain ≡ ok tt)
      ↔ ((chain ≢ []) × (chain ≢ b'.' ∷ []) × (chain ≢ b'.' ∷ b'.' ∷ []) × All IsChainChar chain)
unfolding check_chain_id
check_chain_id_iff chain = (
  λ h.
      let t : (list_eq chain [] ≡ false)
          × (list_eq chain (b'.' ∷ []) ≡ false)
          × (list_eq chain (b'.' ∷ b'.' ∷ []) ≡ false)
          × (all_chars chain ≡ true) =
        ground arith in
      (
        λ e. cc ((list_eq_iff chain []).1 e, t.0),
        λ e. cc ((list_eq_iff chain (b'.' ∷ [])).1 e, t.1),
        λ e. cc ((list_eq_iff chain (b'.' ∷ b'.' ∷ [])).1 e, t.2),
        (all_chars_iff chain).0 t.3,
      ),
  λ h. ground (
    arith,
    list_eq_iff chain [],
    list_eq_iff chain (b'.' ∷ []),
    list_eq_iff chain (b'.' ∷ b'.' ∷ []),
    (all_chars_iff chain).1 h.3,
  ),
)
