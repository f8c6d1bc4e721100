-- ===== src/Store/Layout.antt =====
-- crates/pif-store/src/layout.rs: which segment a block belongs to, the names of the segment files, and
-- the chain ids that may become directories. Block numbers are `u64`s; a name is its code points.
pub mod Ranges
pub mod Names
use polkadot_indexer_framerw.Common.{
  ℕ, zero, suc, ◌+◌, ◌-◌, ◌*◌, ◌/◌, ◌%◌, ◌^◌, Bool, true, false, ◌&&◌, ◌||◌, not, Option, none,
  some, List, [], ◌∷◌, ◌++◌, ltb, leb, ◌==◌, if◌then◌else◌, length, take, drop, replicate,
}
use polkadot_indexer_framerw.Common.Result.{Result, ok, err}
use polkadot_indexer_framerw.Store.Error.{StoreError, invalid_chain_id}

abbrev pub default_segment_size : ℕ
default_segment_size = 1000

unfoldable pub segment_index : ℕ → ℕ → ℕ
segment_index number segment_size = number / segment_size

unfoldable pub segment_start : ℕ → ℕ → ℕ
segment_start index segment_size = index * segment_size % 2 ^ 64

-- Inclusive.
unfoldable pub segment_end : ℕ → ℕ → ℕ
unfolding segment_start
segment_end index segment_size =
    (segment_start index segment_size + segment_size + 2 ^ 64 - 1) % 2 ^ 64

-- The decimal digits of a number of at most `k` digits, without leading zeros but for zero itself.
unfoldable pub digits : ℕ → ℕ → List ℕ
digits zero n = []
digits (suc k) n =
    let front = digits k (n / 10) in
    if ltb n 10 then (48 + n) ∷ [] else front ++ ((48 + n % 10) ∷ [])

-- Zeros in front, up to nine digits.
pad_nine : List ℕ → List ℕ
pad_nine ds = replicate (9 - length ds) 48 ++ ds

-- `{:09}` of a `u64`, which has at most twenty digits.
unfoldable pub padded : ℕ → List ℕ
unfolding digits pad_nine
padded n = pad_nine (digits 20 n)

unfoldable pub segment_stem : ℕ → ℕ → List ℕ
unfolding padded
segment_stem index segment_size =
    padded (segment_start index segment_size) ++ (b'-' ∷ padded (segment_end index segment_size))

abbrev pub seg_suffix : List ℕ
seg_suffix = b'.' ∷ b's' ∷ b'e' ∷ b'g' ∷ []

abbrev pub idx_suffix : List ℕ
idx_suffix = b'.' ∷ b'i' ∷ b'd' ∷ b'x' ∷ []

unfoldable pub list_eq : List ℕ → List ℕ → Bool
list_eq [] [] = true
list_eq (x ∷ xs) (y ∷ ys) = (x == y) && list_eq xs ys
list_eq [] (y ∷ ys) = false
list_eq (x ∷ xs) [] = false

-- `str::strip_suffix`
unfoldable pub strip_suffix : List ℕ → List ℕ → Option (List ℕ)
unfolding list_eq
strip_suffix name suffix =
    let stem = take (length name - length suffix) name in
    if leb (length suffix) (length name) && list_eq (drop (length name - length suffix) name) suffix
    then some stem
    else none

-- `split_once(c)`, the part in front.
before_char : ℕ → List ℕ → Option (List ℕ)
before_char c [] = none
before_char c (x ∷ xs) = elim (x == c) [
  | true ↦ some []
  | false ↦ elim (before_char c xs) [ none ↦ none | some front ↦ some (x ∷ front) ]
]

unfoldable pub is_digit : ℕ → Bool
is_digit c = leb 48 c && leb c 57

-- `parse::<u64>` of a run of digits: `none` on another character or on overflow.
unfoldable pub parse_digits : ℕ → List ℕ → Option ℕ
unfolding is_digit
parse_digits acc [] = some acc
parse_digits acc (c ∷ cs) =
    let rest = parse_digits (acc * 10 + (c - 48)) cs in
    if is_digit c && ltb (acc * 10 + (c - 48)) (2 ^ 64) then rest else none

-- `parse::<u64>`: an optional plus, then at least one digit.
unfoldable pub parse_u64 : List ℕ → Option ℕ
unfolding parse_digits
parse_u64 [] = none
parse_u64 (c ∷ []) = parse_digits 0 (c ∷ [])
parse_u64 (c ∷ d ∷ cs) = if c == b'+' then parse_digits 0 (d ∷ cs) else parse_digits 0 (c ∷ d ∷ cs)

abbrev and_then {ℓ κ} : {A : Type ℓ} {B : Type κ} → Option A → (A → Option B) → Option B
and_then none f = none
and_then (some a) f = f a

abbrev or_else {ℓ} : {A : Type ℓ} → Option A → Option A → Option A
or_else none b = b
or_else (some a) b = some a

unfoldable pub stem_start : List ℕ → Option ℕ
unfolding strip_suffix before_char
stem_start file_name =
    and_then (or_else (strip_suffix file_name seg_suffix) (strip_suffix file_name idx_suffix))
      (λ stem. and_then (before_char b'-' stem) parse_u64)

unfoldable pub is_ascii_alphanumeric : ℕ → Bool
unfolding is_digit
is_ascii_alphanumeric c = is_digit c || ((leb b'a' c && leb c b'z') || (leb b'A' c && leb c b'Z'))

unfoldable pub chain_char : ℕ → Bool
unfolding is_ascii_alphanumeric
chain_char c = is_ascii_alphanumeric c || (c == b'-' || (c == b'_' || c == b'.'))

unfoldable pub all_chars : List ℕ → Bool
unfolding chain_char
all_chars [] = true
all_chars (c ∷ cs) = chain_char c && all_chars cs

unfoldable pub check_chain_id : List ℕ → Result StoreError (Unit {0})
unfolding list_eq all_chars
check_chain_id chain =
    if not (list_eq chain [])
      && (not (list_eq chain (b'.' ∷ []))
          && (not (list_eq chain (b'.' ∷ b'.' ∷ [])) && all_chars chain))
    then ok tt
    else err invalid_chain_id
