-- ===== src/Base/GoMap.antt =====
-- A Go map with integer keys, as an association list without order. `insert` overwrites a
-- binding that is there and adds one that is not.
use Prim.Native.Nat.{ℕ}
use mathlib.Core.Path.{◌≡◌, refl}
use mathlib.Core.Option.{Option, none, some}
use mathlib.Core.List.{List, [], ◌∷◌}
use native.Mathlib.Omega.{arith}
use qotp.Base.Tests.{◌==◌, if◌then◌else◌}

-- An entry of a linked map, read from a node: the sentinels' nodes have no value.
abbrev pub held {ℓ} : {V : Type ℓ} → Option (ℕ × V) → Option (ℕ × Option V)
held none = none
held (some (k, v)) = some (k, some v)

module _ {ℓ} {V : Type ℓ} where
  unfoldable pub lookup : ℕ → List (ℕ × V) → Option V
  lookup k [] = none
  lookup k ((j, v) ∷ m) = if j == k then some v else lookup k m

  unfoldable pub insert : ℕ → V → List (ℕ × V) → List (ℕ × V)
  insert key new [] = (key, new) ∷ []
  insert key new ((other, old) ∷ rest) =
      if other == key then (key, new) ∷ rest else (other, old) ∷ insert key new rest

  pub insert-insert :
      (key : ℕ) (old new : V) (table : List (ℕ × V))
      → insert key new (insert key old table) ≡ insert key new table
  unfolding insert
  insert-insert key old new [] = ground arith
  insert-insert key old new ((other, v) ∷ rest) = ground (arith, insert-insert key old new rest)

  pub lookup-insert :
      (key at : ℕ) (new : V) (table : List (ℕ × V))
      → lookup at (insert key new table) ≡ (if key == at then some new else lookup at table)
  unfolding lookup insert
  lookup-insert key at new [] = refl
  lookup-insert key at new ((other, old) ∷ rest) = ground (arith, lookup-insert key at new rest)
