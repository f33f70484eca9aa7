-- ===== src/Skip/Contract.antt =====
-- What the contract of Sorted answers next to a key, where the cells are split at it.
use qotp.Base.{ℕ, ◌≡◌, refl, arith, Option, some, true, false, List, [], ◌∷◌, ◌++◌, ltb}
use qotp.Sorted
use qotp.Skip.Chain.{Cell, entries, Below, Above}

module _ {ℓ} {V : Type ℓ} where
  -- The entry of the last node, unless it is the head.
  abbrev pub last_entry : Option (ℕ × V) → List (Cell V) → Option (ℕ × V)
  last_entry before [] = before
  last_entry before ((a, n, k, v) ∷ cells) = last_entry (some (k, v)) cells

  -- The contract's answers, where the keys are split.
  pub next-split :
      (k : ℕ) (hi : List (Cell V))
      → Above k hi
      → Sorted.next k (entries hi) ≡ Sorted.min_entry (entries hi)
  unfolding Sorted.next Sorted.min_entry
  next-split k [] above = refl
  next-split k ((b, n, i, w) ∷ hi) (lt, above) =
      let here : ltb k i ≡ true = ground arith in rw here refl

  pub next-Below :
      (k : ℕ) (lo hi : List (Cell V))
      → Below k lo
      → Sorted.next k (entries (lo ++ hi)) ≡ Sorted.next k (entries hi)
  unfolding Sorted.next
  next-Below k [] hi below = refl
  next-Below k ((b, n, i, w) ∷ lo) hi (lt, below) =
      let here : ltb k i ≡ false = ground arith in rw here (next-Below k lo hi below)

  pub next_here :
      (k a h : ℕ) (v : V) (hi : List (Cell V))
      → Sorted.next k (entries ((a, h, k, v) ∷ hi)) ≡ Sorted.next k (entries hi)
  unfolding Sorted.next
  next_here k a h v hi = let here : ltb k k ≡ false = ground arith in rw here refl

  pub prev_stop :
      (k : ℕ) (before : Option (ℕ × V)) (hi : List (Cell V))
      → Above k hi
      → Sorted.prev_or before k (entries hi) ≡ before
  unfolding Sorted.prev_or
  prev_stop k before [] above = refl
  prev_stop k before ((b, n, i, w) ∷ hi) (lt, above) =
      let here : ltb i k ≡ false = ground arith in rw here refl

  pub prev_here :
      (k a h : ℕ) (v : V) (before : Option (ℕ × V)) (hi : List (Cell V))
      → Sorted.prev_or before k (entries ((a, h, k, v) ∷ hi)) ≡ before
  unfolding Sorted.prev_or
  prev_here k a h v before hi = let here : ltb k k ≡ false = ground arith in rw here refl

  pub prev-Below :
      (k : ℕ) (before : Option (ℕ × V)) (lo hi : List (Cell V))
      → Below k lo
      → Sorted.prev_or before k (entries (lo ++ hi))
        ≡ Sorted.prev_or (last_entry before lo) k (entries hi)
  unfolding Sorted.prev_or
  prev-Below k before [] hi below = refl
  prev-Below k before ((b, n, i, w) ∷ lo) hi (lt, below) =
      let here : ltb i k ≡ true = ground arith in rw here (prev-Below k (some (i, w)) lo hi below)
