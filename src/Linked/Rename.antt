-- ===== src/Linked/Rename.antt =====
-- The cells of a map of which one gets another key and value, in its place.
use qotp.Base.{
  ℕ, suc, ◌≡◌, ◌≢◌, refl, sym, ap, ◌∙◌, arith, none, some, List, [], ◌∷◌, ◌++◌, true, false,
  if◌then◌else◌, ◌==◌, ==_self, ==_ne, Bool-cases, inl, inr, length, is_some,
}
use qotp.Entries
use qotp.Entries.{Entries}
use qotp.Linked.{Node, update_at}
use qotp.Linked.Chain.{
  Cell, entries, address, Nexts, Prevs, Holds, Off, Apart, Keys, last, Holds-update_at,
}

module _ {ℓ} {V : Type ℓ} where
  -- Where the node of a key stands, and that no other cell has the key.
  pub found-split :
      (k a : ℕ) (cells : List (Cell V))
      → address k cells ≡ some a
      → Keys cells
      → (lo : List (Cell V)) × (u : V) × (hi : List (Cell V)) × (cells ≡ lo ++ ((a, k, u) ∷ hi))
        × (address k (lo ++ hi) ≡ none)
  found-split k a [] h keys = let bad : false ≡ true = ap is_some h in absurd (ground arith)
  found-split k a ((b, j, v) ∷ cells) h (key, keys) = elim (Bool-cases (j == k)) [
    | inl e ↦
        let same : j ≡ k = ground arith in
        let here : b ≡ a = ap (λ o. elim o [ none ↦ b | some x ↦ x ]) (rw e at h) in
        ([], v, cells, rw (here, same) refl, rw same at key)
    | inr e ↦
        let (lo, u, hi, eq, other) = found-split k a cells (rw e at h) keys in
        ((b, j, v) ∷ lo, u, hi, ap (◌∷◌ (b, j, v)) eq, rw e other)
  ]

  module _ (i : ℕ) where
    pub address-drop :
        (c : Cell V) (lo hi : List (Cell V))
        → address i (lo ++ (c ∷ hi)) ≡ none
        → address i (lo ++ hi) ≡ none
    address-drop (a, k, v) [] hi h = elim (Bool-cases (k == i)) [
      | inl e ↦
          let found : some a ≡ none = rw e at h in
          let bad : true ≡ false = ap is_some found in absurd (ground arith)
      | inr e ↦ rw e at h
    ]
    address-drop c ((b, j, w) ∷ lo) hi h = elim (Bool-cases (j == i)) [
      | inl e ↦
          let found : some b ≡ none = rw e at h in
          let bad : true ≡ false = ap is_some found in absurd (ground arith)
      | inr e ↦ rw e (address-drop c lo hi (rw e at h))
    ]

    pub address-front : (lo hi : List (Cell V)) → address i (lo ++ hi) ≡ none → address i lo ≡ none
    address-front [] hi h = refl
    address-front ((b, j, w) ∷ lo) hi h = elim (Bool-cases (j == i)) [
      | inl e ↦
          let found : some b ≡ none = rw e at h in
          let bad : true ≡ false = ap is_some found in absurd (ground arith)
      | inr e ↦ rw e (address-front lo hi (rw e at h))
    ]

    -- The node of each key, with the cell of a key that no other has.
    pub address-insert :
        (a k : ℕ) (v : V) (lo hi : List (Cell V))
        → address k lo ≡ none
        → address i (lo ++ ((a, k, v) ∷ hi)) ≡ (if i == k then some a else address i (lo ++ hi))
    address-insert a k v [] hi h = ground arith
    address-insert a k v ((b, j, w) ∷ lo) hi h = elim (Bool-cases (j == k)) [
      | inl e ↦
          let found : some b ≡ none = rw e at h in
          let bad : true ≡ false = ap is_some found in absurd (ground arith)
      | inr e ↦ elim (Bool-cases (j == i)) [
        | inl q ↦ let other : (i == k) ≡ false = ground arith in rw (q, other) refl
        | inr q ↦ rw q (address-insert a k v lo hi (rw e at h))
      ]
    ]

  module _ (a k j : ℕ) (u v : V) (hi : List (Cell V)) where
    abbrev was : Cell V
    was = (a, k, u)

    abbrev now : Cell V
    now = (a, j, v)

    pub Nexts-rename :
        (node : ℕ → Node V) (p stop : ℕ) (lo : List (Cell V))
        → Nexts node p (lo ++ (was ∷ hi)) stop
        → Nexts node p (lo ++ (now ∷ hi)) stop
    Nexts-rename node p stop [] w = w
    Nexts-rename node p stop ((b, i, x) ∷ lo) (w, ws) = (w, Nexts-rename node b stop lo ws)

    pub Prevs-rename :
        (node : ℕ → Node V) (p : ℕ) (lo : List (Cell V))
        → Prevs node p (lo ++ (was ∷ hi))
        → Prevs node p (lo ++ (now ∷ hi))
    Prevs-rename node p [] w = w
    Prevs-rename node p ((b, i, x) ∷ lo) (w, ws) = (w, Prevs-rename node b lo ws)

    pub last-rename :
        (p : ℕ) (lo : List (Cell V)) → last p (lo ++ (was ∷ hi)) ≡ last p (lo ++ (now ∷ hi))
    last-rename p [] = refl
    last-rename p ((b, i, x) ∷ lo) = last-rename b lo

    pub length-rename : (lo : List (Cell V)) → length (lo ++ (was ∷ hi)) ≡ length (lo ++ (now ∷ hi))
    length-rename [] = refl
    length-rename (c ∷ lo) = ap suc (length-rename lo)

    pub Off-rename :
        (x : ℕ) (lo : List (Cell V)) → Off x (lo ++ (was ∷ hi)) → Off x (lo ++ (now ∷ hi))
    Off-rename x [] w = w
    Off-rename x (c ∷ lo) (w, ws) = (w, Off-rename x lo ws)

    pub Apart-rename : (lo : List (Cell V)) → Apart (lo ++ (was ∷ hi)) → Apart (lo ++ (now ∷ hi))
    Apart-rename [] w = w
    Apart-rename ((b, i, x) ∷ lo) (w, ws) = (Off-rename b lo w, Apart-rename lo ws)

    -- The cell's own node gets the key and the value.
    pub Holds-rename :
        (node : ℕ → Node V) (n : Node V) (lo : List (Cell V))
        → n.key ≡ j
        → n.value ≡ some v
        → Apart (lo ++ (was ∷ hi))
        → Holds node (lo ++ (was ∷ hi))
        → Holds (update_at a n node) (lo ++ (now ∷ hi))
    Holds-rename node n [] key value (off, apart) (w, w', ws) =
        (rw (==_self a) key, rw (==_self a) value, Holds-update_at node a n hi off ws)
    Holds-rename node n ((b, i, x) ∷ lo) key value (off, apart) (w, w', ws) =
        let other = ==_ne b a (λ e. away b lo off (sym e)) in
        (rw other w, rw other w', Holds-rename node n lo key value apart ws)
      where
        away : (b : ℕ) (lo : List (Cell V)) → Off b (lo ++ (was ∷ hi)) → a ≢ b
        away b [] (ne, off) = ne
        away b (c ∷ lo) (ne, off) = away b lo off

    pub Keys-rename :
        (lo : List (Cell V))
        → address j (lo ++ hi) ≡ none
        → Keys (lo ++ (was ∷ hi))
        → Keys (lo ++ (now ∷ hi))
    Keys-rename [] free (key, keys) = (free, keys)
    Keys-rename ((b, i, x) ∷ lo) free (key, keys) = elim (Bool-cases (i == j)) [
      | inl e ↦
          let found : some b ≡ none = rw e at free in
          let bad : true ≡ false = ap is_some found in absurd (ground arith)
      | inr e ↦
          let rest : address j (lo ++ hi) ≡ none = rw e at free in
          (
            address-insert i a j v lo hi (address-front j lo hi rest)
                ∙ rw e (address-drop i was lo hi key),
            Keys-rename lo rest keys,
          )
    ]

    -- The contract's answers.
    pub rename-split :
        (lo : List (Cell V))
        → address k lo ≡ none
        → Entries.rename k j v (entries (lo ++ (was ∷ hi))) ≡ entries (lo ++ (now ∷ hi))
    unfolding Entries.rename
    rename-split [] h = rw (==_self k) refl
    rename-split ((b, i, x) ∷ lo) h = elim (Bool-cases (i == k)) [
      | inl e ↦
          let found : some b ≡ none = rw e at h in
          let bad : true ≡ false = ap is_some found in absurd (ground arith)
      | inr e ↦ rw e (ap (◌∷◌ (i, x)) (rename-split lo (rw e at h)))
    ]

  pub put-split :
      (a k : ℕ) (u v : V) (hi lo : List (Cell V))
      → address k lo ≡ none
      → Entries.put k v (entries (lo ++ ((a, k, u) ∷ hi))) ≡ entries (lo ++ ((a, k, v) ∷ hi))
  unfolding Entries.put
  put-split a k u v hi [] h = rw (==_self k) refl
  put-split a k u v hi ((b, i, x) ∷ lo) h = elim (Bool-cases (i == k)) [
    | inl e ↦
        let found : some b ≡ none = rw e at h in
        let bad : true ≡ false = ap is_some found in absurd (ground arith)
    | inr e ↦ rw e (ap (◌∷◌ (i, x)) (put-split a k u v hi lo (rw e at h)))
  ]
