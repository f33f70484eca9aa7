-- ===== src/Entries.antt =====
-- What linkedmap.go promises: a map whose entries keep the order of their first insertion.
pub mod Laws
use qotp.Base.{
  ℕ, ◌+◌, Bool, true, false, Option, none, some, List, [], ◌∷◌, ◌++◌, if◌then◌else◌, ◌==◌, length,
}

abbrev pub Entries {ℓ} : Type ℓ → Type ℓ
Entries V = List (ℕ × V)

module _ {ℓ} {V : Type ℓ} where
  unfoldable pub get : ℕ → Entries V → Option V
  get k [] = none
  get k ((j, v) ∷ m) = if j == k then some v else get k m

  -- A new key goes to the end; a key that is there keeps its place.
  unfoldable pub put : ℕ → V → Entries V → Entries V
  put k v [] = (k, v) ∷ []
  put k v ((j, w) ∷ m) = if j == k then (j, v) ∷ m else (j, w) ∷ put k v m

  unfoldable pub remove : ℕ → Entries V → Entries V
  remove k [] = []
  remove k ((j, w) ∷ m) = if j == k then m else (j, w) ∷ remove k m

  unfoldable pub first : Entries V → Option (ℕ × V)
  first [] = none
  first (e ∷ m) = some e

  -- The entry behind that of `k`.
  unfoldable pub next : ℕ → Entries V → Option (ℕ × V)
  unfolding first
  next k [] = none
  next k ((j, w) ∷ m) = if j == k then first m else next k m

  -- The entry in front of that of `k`; `before` is the one in front of the list.
  unfoldable pub prev_or : Option (ℕ × V) → ℕ → Entries V → Option (ℕ × V)
  prev_or before k [] = none
  prev_or before k ((j, w) ∷ m) = if j == k then before else prev_or (some (j, w)) k m

  abbrev pub prev : ℕ → Entries V → Option (ℕ × V)
  prev k m = prev_or none k m

  unfoldable pub rename : ℕ → ℕ → V → Entries V → Entries V
  rename old new v [] = []
  rename old new v ((j, w) ∷ m) = if j == old then (new, v) ∷ m else (j, w) ∷ rename old new v m

  abbrev pub contains : ℕ → Entries V → Bool
  contains k m = elim (get k m) [ none ↦ false | some v ↦ true ]

  -- `Replace`: the entry of `old` takes the key `new`, in its place, unless `new` is taken.
  unfoldable pub replace : ℕ → ℕ → V → Entries V → Entries V × Bool
  unfolding rename
  replace old new v m =
      if contains old m
      then if old == new
        then (rename old new v m, true)
        else if contains new m
        then (m, false)
        else (rename old new v m, true)
      else (m, false)

  -- What is behind the entry of `k`, or else all of `whole`.
  unfoldable pub rest_behind : ℕ → Entries V → Entries V → Entries V
  rest_behind k whole [] = whole
  rest_behind k whole ((j, v) ∷ []) = whole
  rest_behind k whole ((j, v) ∷ (e ∷ m)) = if j == k then e ∷ m else rest_behind k whole (e ∷ m)

  -- `Iterator`: the entries that it visits.
  unfoldable pub iterator : Option ℕ → Entries V → Entries V
  iterator none m = m
  iterator (some k) m = rest_behind k m m
