-- ===== src/Linked/Without.antt =====
-- The cells of a map without the one of a key.
use qotp.Base.{
  ℕ, suc, ◌≡◌, ◌≢◌, refl, ap, ◌∙◌, arith, none, some, List, [], ◌∷◌, true, false, if◌then◌else◌,
  ◌==◌, Bool-cases, inl, inr, length, is_some,
}
use qotp.Entries
use qotp.Entries.{Entries}
use qotp.Linked.{Node, tail}
use qotp.Linked.Chain.{Cell, entries, address, Holds, Off, Apart, Keys}

module _ {ℓ} {V : Type ℓ} where
  abbrev pub without : ℕ → List (Cell V) → List (Cell V)
  without k [] = []
  without k ((a, j, v) ∷ cells) = if j == k then cells else (a, j, v) ∷ without k cells

  -- The nodes before and behind that of a key.
  abbrev pub before : ℕ → ℕ → List (Cell V) → ℕ
  before k p [] = p
  before k p ((a, j, v) ∷ cells) = if j == k then p else before k a cells

  abbrev pub front : List (Cell V) → ℕ
  front [] = tail
  front ((a, j, v) ∷ cells) = a

  abbrev pub behind : ℕ → List (Cell V) → ℕ
  behind k [] = tail
  behind k ((a, j, v) ∷ cells) = if j == k then front cells else behind k cells

  pub entries-without :
      (k : ℕ) (cells : List (Cell V)) → entries (without k cells) ≡ Entries.remove k (entries cells)
  unfolding Entries.remove
  entries-without k [] = refl
  entries-without k ((a, j, v) ∷ cells) = elim (Bool-cases (j == k)) [
    | inl e ↦ rw e refl
    | inr e ↦ rw e (ap (◌∷◌ (j, v)) (entries-without k cells))
  ]

  pub Off-without : (a k : ℕ) (cells : List (Cell V)) → Off a cells → Off a (without k cells)
  Off-without a k [] off = tt
  Off-without a k ((b, j, v) ∷ cells) (ne, off) = elim (Bool-cases (j == k)) [
    | inl e ↦ rw e off
    | inr e ↦ rw e (ne, Off-without a k cells off)
  ]

  pub Apart-without : (k : ℕ) (cells : List (Cell V)) → Apart cells → Apart (without k cells)
  Apart-without k [] apart = tt
  Apart-without k ((b, j, v) ∷ cells) (off, apart) = elim (Bool-cases (j == k)) [
    | inl e ↦ rw e apart
    | inr e ↦ rw e (Off-without b k cells off, Apart-without k cells apart)
  ]

  pub Holds-without :
      (node : ℕ → Node V) (k : ℕ) (cells : List (Cell V))
      → Holds node cells
      → Holds node (without k cells)
  Holds-without node k [] h = tt
  Holds-without node k ((b, j, v) ∷ cells) (key, h, rest) = elim (Bool-cases (j == k)) [
    | inl e ↦ rw e rest
    | inr e ↦ rw e (key, h, Holds-without node k cells rest)
  ]

  -- The other keys keep their nodes, and the key has none.
  pub address-without_other :
      (j k : ℕ) (cells : List (Cell V)) → j ≢ k → address j (without k cells) ≡ address j cells
  address-without_other j k [] ne = refl
  address-without_other j k ((b, i, v) ∷ cells) ne = elim (Bool-cases (i == k)) [
    | inl e ↦ let other : (i == j) ≡ false = ground arith in rw (e, other) refl
    | inr e ↦ elim (Bool-cases (i == j)) [
      | inl q ↦ rw (e, q) refl
      | inr q ↦ rw (e, q) (address-without_other j k cells ne)
    ]
  ]

  pub address-without :
      (k : ℕ) (cells : List (Cell V)) → Keys cells → address k (without k cells) ≡ none
  address-without k [] keys = refl
  address-without k ((b, i, v) ∷ cells) (key, keys) = elim (Bool-cases (i == k)) [
    | inl e ↦ let eq : i ≡ k = ground arith in rw e (rw eq at key)
    | inr e ↦ rw (e, e) (address-without k cells keys)
  ]

  pub Keys-without : (k : ℕ) (cells : List (Cell V)) → Keys cells → Keys (without k cells)
  Keys-without k [] keys = tt
  Keys-without k ((b, i, v) ∷ cells) (key, keys) = elim (Bool-cases (i == k)) [
    | inl e ↦ rw e keys
    | inr e ↦
        rw e (address-without_other i k cells (λ q. ground arith) ∙ key, Keys-without k cells keys)
  ]

  pub length-without :
      (k a : ℕ) (cells : List (Cell V))
      → address k cells ≡ some a
      → length cells ≡ suc (length (without k cells))
  length-without k a [] h = let bad : false ≡ true = ap is_some h in absurd (ground arith)
  length-without k a ((b, i, v) ∷ cells) h = elim (Bool-cases (i == k)) [
    | inl e ↦ rw e refl
    | inr e ↦ rw e (ap suc (length-without k a cells (rw e at h)))
  ]

  pub without_absent :
      (k : ℕ) (cells : List (Cell V)) → address k cells ≡ none → without k cells ≡ cells
  without_absent k [] h = refl
  without_absent k ((b, i, v) ∷ cells) h = elim (Bool-cases (i == k)) [
    | inl e ↦
        let found : some b ≡ none = rw e at h in
        let bad : true ≡ false = ap is_some found in absurd (ground arith)
    | inr e ↦ rw e (ap (◌∷◌ (b, i, v)) (without_absent k cells (rw e at h)))
  ]
