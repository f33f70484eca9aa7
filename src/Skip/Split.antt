-- ===== src/Skip/Split.antt =====
-- The cells of a skip list around a key, and what the contract of Sorted says of them.
use qotp.Base.{
  ℕ, ◌≤◌, ◌<◌, ◌≡◌, refl, sym, ap, ◌∙◌, arith, none, some, true, false, List, [], ◌∷◌, ◌++◌,
  if◌then◌else◌, ltb, ◌==◌, ==_ne, Bool-cases, inl, inr, is_some,
}
use qotp.Skip.Chain.{Cell, address, Tall, Below, Above, Rising, Apart, Off, Off-split, Off-join}

module _ {ℓ} {V : Type ℓ} where
  Above-weaken : (j k : ℕ) (cells : List (Cell V)) → j < k → Above k cells → Above j cells
  Above-weaken j k [] lt b = tt
  Above-weaken j k ((a, h, i, v) ∷ cells) lt (b, bs) = (omega arith, Above-weaken j k cells lt bs)

  -- A key that is not there has the cells below it and those above.
  pub absent-split :
      (k : ℕ) (cells : List (Cell V))
      → address k cells ≡ none
      → Rising cells
      → (lo : List (Cell V)) × (hi : List (Cell V)) × (cells ≡ lo ++ hi) × Below k lo × Above k hi
  absent-split k [] h rising = ([], [], refl, tt, tt)
  absent-split k ((a, n, j, v) ∷ cells) h (above, rising) = elim (Bool-cases (j == k)) [
    | inl e ↦
        let found : some a ≡ none = rw e at h in
        let bad : true ≡ false = ap is_some found in absurd (ground arith)
    | inr e ↦ elim (Bool-cases (ltb j k)) [
      | inl l ↦
          let (lo, hi, eq, below, over) = absent-split k cells (rw e at h) rising in
          ((a, n, j, v) ∷ lo, hi, ap (◌∷◌ (a, n, j, v)) eq, (ground arith, below), over)
      | inr l ↦
          let lt : k < j = ground arith in
          ([], (a, n, j, v) ∷ cells, refl, tt, (lt, Above-weaken k j cells lt above))
    ]
  ]

  -- A key that is there has its cell between them.
  pub found-split :
      (k a : ℕ) (cells : List (Cell V))
      → address k cells ≡ some a
      → Rising cells
      → (lo : List (Cell V)) × (h : ℕ) × (v : V) × (hi : List (Cell V)) × (cells
          ≡ lo ++ ((a, h, k, v) ∷ hi))
        × Below k lo
        × Above k hi
  found-split k a [] h rising = let bad : false ≡ true = ap is_some h in absurd (ground arith)
  found-split k a ((b, n, j, v) ∷ cells) h (above, rising) = elim (Bool-cases (j == k)) [
    | inl e ↦
        let same : j ≡ k = ground arith in
        let here : b ≡ a = ap (λ o. elim o [ none ↦ b | some x ↦ x ]) (rw e at h) in
        ([], n, v, cells, rw (here, same) refl, tt, rw (← same) above)
    | inr e ↦
        let (lo, m, w, hi, eq, below, over) = found-split k a cells (rw e at h) rising in
        let lt : j < k = below_front j lo k a m w hi (rw eq at above) in
        ((b, n, j, v) ∷ lo, m, w, hi, ap (◌∷◌ (b, n, j, v)) eq, (lt, below), over)
  ]
    where
      below_front :
          (j : ℕ) (lo : List (Cell V)) (k a m : ℕ) (w : V) (hi : List (Cell V))
          → Above j (lo ++ ((a, m, k, w) ∷ hi))
          → j < k
      below_front j [] k a m w hi (lt, rest) = lt
      below_front j (c ∷ lo) k a m w hi (lt, rest) = below_front j lo k a m w hi rest

  Above-split : (x : ℕ) (lo hi : List (Cell V)) → Above x (lo ++ hi) → Above x lo × Above x hi
  Above-split x [] hi h = (tt, h)
  Above-split x ((a, n, j, v) ∷ lo) hi (lt, h) = let (l, r) = Above-split x lo hi h in ((lt, l), r)

  Above-join : (x : ℕ) (lo hi : List (Cell V)) → Above x lo → Above x hi → Above x (lo ++ hi)
  Above-join x [] hi l r = r
  Above-join x ((a, n, j, v) ∷ lo) hi (lt, l) r = (lt, Above-join x lo hi l r)

  -- A cell put between those below its key and those above it, and taken away.
  pub Rising-insert :
      (a h k : ℕ) (v : V) (lo hi : List (Cell V))
      → Below k lo
      → Above k hi
      → Rising (lo ++ hi)
      → Rising (lo ++ ((a, h, k, v) ∷ hi))
  Rising-insert a h k v [] hi below above rising = (above, rising)
  Rising-insert a h k v ((b, n, j, w) ∷ lo) hi (lt, below) above (over, rising) =
      let (l, r) = Above-split j lo hi over in
      (
        Above-join j lo ((a, h, k, v) ∷ hi) l (lt, r),
        Rising-insert a h k v lo hi below above rising,
      )

  pub Rising-delete :
      (a h k : ℕ) (v : V) (lo hi : List (Cell V))
      → Rising (lo ++ ((a, h, k, v) ∷ hi))
      → Rising (lo ++ hi)
  Rising-delete a h k v [] hi rising = rising.1
  Rising-delete a h k v ((b, n, j, w) ∷ lo) hi (over, rising) =
      let (l, r) = Above-split j lo ((a, h, k, v) ∷ hi) over in
      (Above-join j lo hi l r.1, Rising-delete a h k v lo hi rising)

  pub Apart-insert :
      (a h k : ℕ) (v : V) (lo hi : List (Cell V))
      → Off a (lo ++ hi)
      → Apart (lo ++ hi)
      → Apart (lo ++ ((a, h, k, v) ∷ hi))
  Apart-insert a h k v [] hi off apart = (off, apart)
  Apart-insert a h k v ((b, n, j, w) ∷ lo) hi (ne, off) (off', apart) =
      let (l, r) = Off-split b lo hi off' in
      (
        Off-join b lo ((a, h, k, v) ∷ hi) l (λ e. ne (sym e), r),
        Apart-insert a h k v lo hi off apart,
      )

  pub Apart-delete :
      (a h k : ℕ) (v : V) (lo hi : List (Cell V))
      → Apart (lo ++ ((a, h, k, v) ∷ hi))
      → Off a lo × Off a hi × Apart (lo ++ hi)
  Apart-delete a h k v [] hi (off, apart) = (tt, off, apart)
  Apart-delete a h k v ((b, n, j, w) ∷ lo) hi (off, apart) =
      let (l, r, rest) = Apart-delete a h k v lo hi apart in
      let (off1, off2) = Off-split b lo ((a, h, k, v) ∷ hi) off in
      ((λ e. off2.0 (sym e), l), r, (Off-join b lo hi off1 off2.1, rest))

  pub Tall-insert :
      (top a h k : ℕ) (v : V) (lo hi : List (Cell V))
      → 0 < h
      → h ≤ top
      → Tall top (lo ++ hi)
      → Tall top (lo ++ ((a, h, k, v) ∷ hi))
  Tall-insert top a h k v [] hi pos le tall = (pos, le, tall)
  Tall-insert top a h k v ((b, n, j, w) ∷ lo) hi pos le (pos', le', tall) =
      (pos', le', Tall-insert top a h k v lo hi pos le tall)

  pub Tall-delete :
      (top a h k : ℕ) (v : V) (lo hi : List (Cell V))
      → Tall top (lo ++ ((a, h, k, v) ∷ hi))
      → (0 < h) × (h ≤ top) × Tall top (lo ++ hi)
  Tall-delete top a h k v [] hi tall = tall
  Tall-delete top a h k v ((b, n, j, w) ∷ lo) hi (pos', le', tall) =
      let (p, q, rest) = Tall-delete top a h k v lo hi tall in (p, q, (pos', le', rest))

  -- The nodes of the keys, with a cell put in and taken away.
  pub address-insert :
      (j a h k : ℕ) (v : V) (lo hi : List (Cell V))
      → Below k lo
      → address j (lo ++ ((a, h, k, v) ∷ hi)) ≡ (if j == k then some a else address j (lo ++ hi))
  address-insert j a h k v [] hi below = ground arith
  address-insert j a h k v ((b, n, i, w) ∷ lo) hi (lt, below) = elim (Bool-cases (i == j)) [
    | inl e ↦ let other : (j == k) ≡ false = ground arith in rw (e, other) refl
    | inr e ↦ rw e (address-insert j a h k v lo hi below)
  ]

  pub address-none :
      (k : ℕ) (lo hi : List (Cell V)) → Below k lo → Above k hi → address k (lo ++ hi) ≡ none
  address-none k [] [] below above = refl
  address-none k [] ((b, n, i, w) ∷ hi) below (lt, above) =
      rw (==_ne i k (λ z. omega arith)) (address-none k [] hi tt above)
  address-none k ((b, n, i, w) ∷ lo) hi (lt, below) above =
      rw (==_ne i k (λ z. omega arith)) (address-none k lo hi below above)

  pub address-delete :
      (j a h k : ℕ) (v : V) (lo hi : List (Cell V))
      → Below k lo
      → Above k hi
      → address j (lo ++ hi) ≡ (if j == k then none else address j (lo ++ ((a, h, k, v) ∷ hi)))
  address-delete j a h k v lo hi below above = elim (Bool-cases (j == k)) [
    | inl e ↦ let z : j ≡ k = ground arith in rw (e, z) (address-none k lo hi below above)
    | inr e ↦
        let same : address j (lo ++ ((a, h, k, v) ∷ hi)) ≡ address j (lo ++ hi) =
          address-insert j a h k v lo hi below ∙ rw e refl in
        rw e (sym same)
  ]
