-- ===== src/Common/Bytes.antt =====
-- Fixed-width little-endian integers (`to_le_bytes`, `from_le_bytes`) and reads inside a byte string.
use Prim.Native.Nat.{ℕ, zero, suc, ◌+◌, ◌*◌, ◌/◌, ◌%◌, ◌^◌, ◌<◌}
use mathlib.Core.Path.{◌≡◌, refl, ap, ap₂, sym, subst, ◌∙◌}
use mathlib.Core.Option.{Option, none, some}
use mathlib.Core.List.{List, [], ◌∷◌, ◌++◌}
use native.Mathlib.Omega.{arith}
use native.Mathlib.Nat.{pow-suc}
use polkadot_indexer_framerw.Common.Tests.{◌==◌, if◌then◌else◌, ==_refl}
use polkadot_indexer_framerw.Common.Lists.{
  length, take, drop, All, take-append-drop, All-append_left, All-append_right, take-append,
  drop-append, take_all,
}

-- `n.to_le_bytes()` of a `k`-byte integer.
abbrev pub le_bytes : ℕ → ℕ → List ℕ
le_bytes zero n = []
le_bytes (suc k) n = (n % 256) ∷ le_bytes k (n / 256)

-- `from_le_bytes`
abbrev pub from_le : List ℕ → ℕ
from_le [] = 0
from_le (b ∷ bs) = b + 256 * from_le bs

abbrev pub IsByte : ℕ → Type 0
IsByte b = b < 256

pub length-le_bytes : (k n : ℕ) → length (le_bytes k n) ≡ k
length-le_bytes zero n = refl
length-le_bytes (suc k) n = ap suc (length-le_bytes k (n / 256))

pub from_le-le_bytes : (k n : ℕ) → n < 256 ^ k → from_le (le_bytes k n) ≡ n
from_le-le_bytes zero n h = omega arith
from_le-le_bytes (suc k) n h =
    omega (arith, from_le-le_bytes k (n / 256) (omega (arith, pow-suc 256 k)))

pub le_bytes-from_le : (bs : List ℕ) → All IsByte bs → le_bytes (length bs) (from_le bs) ≡ bs
le_bytes-from_le [] h = refl
le_bytes-from_le (b ∷ bs) h =
    let q : (b + 256 * from_le bs) / 256 ≡ from_le bs = omega arith in
    ap₂ (λ (x : ℕ) (l : List ℕ). x ∷ l) (omega arith)
      (ap (le_bytes (length bs)) q ∙ le_bytes-from_le bs h.1)

-- `seek(Start(at)); read_exact(&mut [0; n])`: `none` when the file ends first.
unfoldable pub read_at : ℕ → ℕ → List ℕ → Option (List ℕ)
read_at at n bytes =
    let found = take n (drop at bytes) in if length found == n then some found else none

-- A read of the middle of three parts returns it.
pub read_at-append :
    (pre mid post : List ℕ) → read_at (length pre) (length mid) (pre ++ (mid ++ post)) ≡ some mid
unfolding read_at
read_at-append pre mid post =
    rw (drop-append pre (mid ++ post)) (rw (take-append mid post) (rw (==_refl (length mid))))

-- A read that the file's end cuts short fails.
pub read_at-short :
    (pre back : List ℕ) (n : ℕ) → length back < n → read_at (length pre) n (pre ++ back) ≡ none
unfolding read_at
read_at-short pre back n h =
    rw (drop-append pre back) (rw (take_all back n (omega arith)) (ground arith))

-- What a read returns: as many bytes as were asked for, all of them from the file.
pub read_at_sound :
    (at n : ℕ) (bytes found : List ℕ)
    → All IsByte bytes
    → read_at at n bytes ≡ some found
    → (length found ≡ n) × All IsByte found
unfolding read_at
read_at_sound at n bytes found h e =
    let part : (length (take n (drop at bytes)) ≡ n) × (take n (drop at bytes) ≡ found) =
      ground arith in
    let behind : All IsByte (drop at bytes) =
      All-append_right IsByte (take at bytes) (drop at bytes)
        (subst (All IsByte) (sym (take-append-drop at bytes)) h) in
    let front : All IsByte (take n (drop at bytes)) =
      All-append_left IsByte (take n (drop at bytes)) (drop n (drop at bytes))
        (subst (All IsByte) (sym (take-append-drop n (drop at bytes))) behind) in
    (ap length (sym part.1) ∙ part.0, subst (All IsByte) part.1 front)
