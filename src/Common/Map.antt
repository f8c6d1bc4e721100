-- ===== src/Common/Map.antt =====
-- `BTreeMap` with integer keys: an association list in the order of its keys.
use Prim.Native.Nat.{ℕ}
use mathlib.Core.Path.{◌≡◌, refl}
use mathlib.Core.Bool.{Bool, true, false}
use mathlib.Core.Option.{Option, none, some}
use mathlib.Core.List.{List, [], ◌∷◌, map}
use native.Mathlib.Omega.{arith}
use polkadot_indexer_framerw.Common.Tests.{ltb, ◌==◌, if◌then◌else◌}

abbrev pub Map {ℓ} : Type ℓ → Type ℓ
Map V = List (ℕ × V)

module _ {ℓ} {V : Type ℓ} where
  unfoldable pub lookup : ℕ → Map V → Option V
  lookup k [] = none
  lookup k ((j, w) ∷ m) = if j == k then some w else lookup k m

  unfoldable pub insert : ℕ → V → Map V → Map V
  insert k v [] = (k, v) ∷ []
  insert k v ((j, w) ∷ m) =
      if ltb k j then (k, v) ∷ (j, w) ∷ m else if k == j then (k, v) ∷ m else (j, w) ∷ insert k v m

  unfoldable pub contains : ℕ → Map V → Bool
  unfolding lookup
  contains k m = elim (lookup k m) [ none ↦ false | some v ↦ true ]

  abbrev pub keys : Map V → List ℕ
  keys m = map (λ e. e.0) m

  pub lookup-insert :
      (m : Map V) (new : ℕ) (value : V) (key : ℕ)
      → lookup key (insert new value m) ≡ (if new == key then some value else lookup key m)
  unfolding lookup insert
  lookup-insert ((first, kept) ∷ rest) new value key =
      ground (arith, lookup-insert rest new value key)
  lookup-insert [] new value key = refl
