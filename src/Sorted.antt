-- ===== src/Sorted.antt =====
-- What sortedmap.go promises: a map whose entries stand in the order of their keys.
use qotp.Base.{ℕ, Option, none, some, List, [], ◌∷◌, if◌then◌else◌, ltb, ◌==◌}

abbrev pub SortedMap {ℓ} : Type ℓ → Type ℓ
SortedMap V = List (ℕ × V)

module _ {ℓ} {V : Type ℓ} where
  unfoldable pub get : ℕ → SortedMap V → Option V
  get k [] = none
  get k ((j, v) ∷ m) = if j == k then some v else get k m

  unfoldable pub put : ℕ → V → SortedMap V → SortedMap V
  put k v [] = (k, v) ∷ []
  put k v ((j, w) ∷ m) =
      if j == k then (k, v) ∷ m else if ltb k j then (k, v) ∷ (j, w) ∷ m else (j, w) ∷ put k v m

  unfoldable pub remove : ℕ → SortedMap V → SortedMap V
  remove k [] = []
  remove k ((j, w) ∷ m) = if j == k then m else (j, w) ∷ remove k m

  unfoldable pub min_entry : SortedMap V → Option (ℕ × V)
  min_entry [] = none
  min_entry (e ∷ m) = some e

  -- The entry with the smallest key above `k`.
  unfoldable pub next : ℕ → SortedMap V → Option (ℕ × V)
  next k [] = none
  next k ((j, v) ∷ m) = if ltb k j then some (j, v) else next k m

  -- The entry with the largest key below `k`, `before` if no key of the list is.
  unfoldable pub prev_or : Option (ℕ × V) → ℕ → SortedMap V → Option (ℕ × V)
  prev_or before k [] = before
  prev_or before k ((j, v) ∷ m) = if ltb j k then prev_or (some (j, v)) k m else before

  abbrev pub prev : ℕ → SortedMap V → Option (ℕ × V)
  prev k m = prev_or none k m
