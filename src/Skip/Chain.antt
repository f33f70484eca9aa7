-- ===== src/Skip/Chain.antt =====
-- The nodes of a skip list in their order: what each field of theirs holds, and what a write to
-- another node leaves.
use qotp.Base.{
  length, ℕ, suc, ◌≤◌, ◌<◌, ◌≡◌, ◌≢◌, refl, ap, arith, Option, none, some, true, List, [], ◌∷◌,
  ◌++◌, if◌then◌else◌, ltb, ◌==◌, ==_ne, Bool-cases, inl, inr,
}
use qotp.Skip.{tail, update_at}

-- A cell: the address of a node, its number of levels, its key and its value.
abbrev pub Cell {ℓ} : Type ℓ → Type ℓ
Cell V = ℕ × ℕ × ℕ × V

module _ {ℓ} {V : Type ℓ} where
  abbrev pub entries : List (Cell V) → List (ℕ × V)
  entries [] = []
  entries ((a, h, k, v) ∷ cells) = (k, v) ∷ entries cells

  pub length-entries : (cells : List (Cell V)) → length cells ≡ length (entries cells)
  length-entries [] = refl
  length-entries (c ∷ cells) = ap suc (length-entries cells)

  abbrev pub address : ℕ → List (Cell V) → Option ℕ
  address k [] = none
  address k ((a, h, j, v) ∷ cells) = if j == k then some a else address k cells

  -- The first node at a level, and the first of all.
  abbrev pub first : ℕ → List (Cell V) → Option ℕ
  first i [] = none
  first i ((a, h, k, v) ∷ cells) = if ltb i h then some a else first i cells

  abbrev pub front : List (Cell V) → ℕ
  front [] = tail
  front ((a, h, k, v) ∷ cells) = a

  -- The last node at a level and the last of all, `p` if there is none.
  abbrev pub last_at : ℕ → ℕ → List (Cell V) → ℕ
  last_at i p [] = p
  last_at i p ((a, h, k, v) ∷ cells) = if ltb i h then last_at i a cells else last_at i p cells

  abbrev pub last : ℕ → List (Cell V) → ℕ
  last p [] = p
  last p ((a, h, k, v) ∷ cells) = last a cells

  -- The fields of the nodes.
  abbrev pub KeysHeld : (ℕ → ℕ) → List (Cell V) → Type 0
  KeysHeld key [] = Unit
  KeysHeld key ((a, h, k, v) ∷ cells) = (key a ≡ k) × KeysHeld key cells

  abbrev pub Values : (ℕ → Option V) → List (Cell V) → Type ℓ
  Values value [] = Unit
  Values value ((a, h, k, v) ∷ cells) = (value a ≡ some v) × Values value cells

  abbrev pub Levels : (ℕ → ℕ) → List (Cell V) → Type 0
  Levels levels [] = Unit
  Levels levels ((a, h, k, v) ∷ cells) = (levels a ≡ h) × Levels levels cells

  abbrev pub Afters : (ℕ → ℕ) → ℕ → List (Cell V) → Type 0
  Afters after p [] = after p ≡ tail
  Afters after p ((a, h, k, v) ∷ cells) = (after p ≡ a) × Afters after a cells

  abbrev pub Prevs : (ℕ → ℕ) → ℕ → List (Cell V) → Type 0
  Prevs prev p [] = prev tail ≡ p
  Prevs prev p ((a, h, k, v) ∷ cells) = (prev a ≡ p) × Prevs prev a cells

  -- At each of its levels a node leads to the next node that has the level.
  abbrev pub Leads : (ℕ → ℕ → Option ℕ) → ℕ → ℕ → List (Cell V) → Type 0
  Leads next p n cells = (i : ℕ) → i < n → next p i ≡ first i cells

  abbrev pub Nexts : (ℕ → ℕ → Option ℕ) → List (Cell V) → Type 0
  Nexts next [] = Unit
  Nexts next ((a, h, k, v) ∷ cells) = Leads next a h cells × Nexts next cells

  -- Every node has a level, and no more than `top`.
  abbrev pub Tall : ℕ → List (Cell V) → Type 0
  Tall top [] = Unit
  Tall top ((a, h, k, v) ∷ cells) = (0 < h) × (h ≤ top) × Tall top cells

  -- The keys lie below `k`, or above it.
  abbrev pub Below : ℕ → List (Cell V) → Type 0
  Below k [] = Unit
  Below k ((a, h, j, v) ∷ cells) = (j < k) × Below k cells

  abbrev pub Above : ℕ → List (Cell V) → Type 0
  Above k [] = Unit
  Above k ((a, h, j, v) ∷ cells) = (k < j) × Above k cells

  abbrev pub Rising : List (Cell V) → Type 0
  Rising [] = Unit
  Rising ((a, h, k, v) ∷ cells) = Above k cells × Rising cells

  -- The address `a` is none of the nodes', and no address stands twice.
  abbrev pub Off : ℕ → List (Cell V) → Type 0
  Off a [] = Unit
  Off a ((b, h, k, v) ∷ cells) = (b ≢ a) × Off a cells

  abbrev pub Apart : List (Cell V) → Type 0
  Apart [] = Unit
  Apart ((a, h, k, v) ∷ cells) = Off a cells × Apart cells

  pub Afters-head :
      (after : ℕ → ℕ) (p : ℕ) (cells : List (Cell V)) → Afters after p cells → after p ≡ front cells
  Afters-head after p [] h = h
  Afters-head after p ((a, m, k, v) ∷ cells) (h, rest) = h

  -- What a write to a node off the chain leaves.
  module _ (x : ℕ) where
    pub Keys-update_at :
        (key : ℕ → ℕ) (n : ℕ) (cells : List (Cell V))
        → Off x cells
        → KeysHeld key cells
        → KeysHeld (update_at x n key) cells
    Keys-update_at key n [] off h = tt
    Keys-update_at key n ((a, m, k, v) ∷ cells) (ne, off) (h, rest) =
        (rw (==_ne a x ne) h, Keys-update_at key n cells off rest)

    pub Values-update_at :
        (value : ℕ → Option V) (w : Option V) (cells : List (Cell V))
        → Off x cells
        → Values value cells
        → Values (update_at x w value) cells
    Values-update_at value w [] off h = tt
    Values-update_at value w ((a, m, k, v) ∷ cells) (ne, off) (h, rest) =
        (rw (==_ne a x ne) h, Values-update_at value w cells off rest)

    pub Levels-update_at :
        (levels : ℕ → ℕ) (n : ℕ) (cells : List (Cell V))
        → Off x cells
        → Levels levels cells
        → Levels (update_at x n levels) cells
    Levels-update_at levels n [] off h = tt
    Levels-update_at levels n ((a, m, k, v) ∷ cells) (ne, off) (h, rest) =
        (rw (==_ne a x ne) h, Levels-update_at levels n cells off rest)

    pub Afters-update_at :
        (after : ℕ → ℕ) (n p : ℕ) (cells : List (Cell V))
        → p ≢ x
        → Off x cells
        → Afters after p cells
        → Afters (update_at x n after) p cells
    Afters-update_at after n p [] ne off h = rw (==_ne p x ne) h
    Afters-update_at after n p ((a, m, k, v) ∷ cells) ne (ne', off) (h, rest) =
        (rw (==_ne p x ne) h, Afters-update_at after n a cells ne' off rest)

    pub Prevs-update_at :
        (prev : ℕ → ℕ) (n p : ℕ) (cells : List (Cell V))
        → tail ≢ x
        → Off x cells
        → Prevs prev p cells
        → Prevs (update_at x n prev) p cells
    Prevs-update_at prev n p [] ne off h = rw (==_ne tail x ne) h
    Prevs-update_at prev n p ((a, m, k, v) ∷ cells) ne (ne', off) (h, rest) =
        (rw (==_ne a x ne') h, Prevs-update_at prev n a cells ne off rest)

  -- Parts of a chain.
  module _ (x : ℕ) where
    pub Off-split : (lo hi : List (Cell V)) → Off x (lo ++ hi) → Off x lo × Off x hi
    Off-split [] hi off = (tt, off)
    Off-split ((a, h, k, v) ∷ lo) hi (ne, off) = let (l, r) = Off-split lo hi off in ((ne, l), r)

    pub Off-join : (lo hi : List (Cell V)) → Off x lo → Off x hi → Off x (lo ++ hi)
    Off-join [] hi l r = r
    Off-join ((a, h, k, v) ∷ lo) hi (ne, l) r = (ne, Off-join lo hi l r)

    pub last-ne : (p : ℕ) (cells : List (Cell V)) → p ≢ x → Off x cells → last p cells ≢ x
    last-ne p [] ne off = ne
    last-ne p ((a, h, k, v) ∷ cells) ne (ne', off) = last-ne a cells ne' off

    pub last_at-ne : (i p : ℕ) (cells : List (Cell V)) → p ≢ x → Off x cells → last_at i p cells ≢ x
    last_at-ne i p [] ne off = ne
    last_at-ne i p ((a, h, k, v) ∷ cells) ne (ne', off) = elim (Bool-cases (ltb i h)) [
      | inl e ↦ rw e (last_at-ne i a cells ne' off)
      | inr e ↦ rw e (last_at-ne i p cells ne off)
    ]

    pub front-ne : (cells : List (Cell V)) → tail ≢ x → Off x cells → front cells ≢ x
    front-ne [] ne off = ne
    front-ne ((a, h, k, v) ∷ cells) ne (ne', off) = ne'

  pub last_at-zero :
      (top p : ℕ) (cells : List (Cell V)) → Tall top cells → last_at 0 p cells ≡ last p cells
  last_at-zero top p [] tall = refl
  last_at-zero top p ((a, h, k, v) ∷ cells) (pos, le, tall) =
      let e : ltb 0 h ≡ true = ground arith in rw e (last_at-zero top a cells tall)
