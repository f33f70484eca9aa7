-- ===== src/Linked/Removal.antt =====
-- The links of a chain out of which a node is taken.
use qotp.Base.{
  ℕ, ◌≡◌, ◌≢◌, refl, sym, ap, arith, none, some, List, [], ◌∷◌, true, false, ◌==◌, ==_self, ==_ne,
  Bool-cases, inl, inr, is_some,
}
use qotp.Linked.{Node, tail, set_next, set_prev}
use qotp.Linked.Chain.{
  Cell, address, Nexts, Prevs, Off, Apart, last, Nexts-update_at, Prevs-update_at,
}
use qotp.Linked.Without.{without, before, front, behind}

some_inj : (a b : ℕ) → some a ≡ some b → a ≡ b
some_inj a b e = ap (λ o. elim o [ none ↦ a | some x ↦ x ]) e

module _ {ℓ} {V : Type ℓ} where
  pub prev-before :
      (node : ℕ → Node V) (k a p : ℕ) (cells : List (Cell V))
      → address k cells ≡ some a
      → Prevs node p cells
      → (node a).prev ≡ before k p cells
  prev-before node k a p [] h prevs = let bad : false ≡ true = ap is_some h in absurd (ground arith)
  prev-before node k a p ((b, i, v) ∷ cells) h (prev, prevs) = elim (Bool-cases (i == k)) [
    | inl e ↦ let here : b ≡ a = some_inj b a (rw e at h) in rw e (rw here at prev)
    | inr e ↦ rw e (prev-before node k a b cells (rw e at h) prevs)
  ]

  next-front :
      (node : ℕ → Node V) (p : ℕ) (cells : List (Cell V))
      → Nexts node p cells tail
      → (node p).next ≡ front cells
  next-front node p [] h = h
  next-front node p ((b, i, v) ∷ cells) (h, rest) = h

  pub next-behind :
      (node : ℕ → Node V) (k a p : ℕ) (cells : List (Cell V))
      → address k cells ≡ some a
      → Nexts node p cells tail
      → (node a).next ≡ behind k cells
  next-behind node k a p [] h nexts = let bad : false ≡ true = ap is_some h in absurd (ground arith)
  next-behind node k a p ((b, i, v) ∷ cells) h (next, nexts) = elim (Bool-cases (i == k)) [
    | inl e ↦
        let here : b ≡ a = some_inj b a (rw e at h) in
        rw e (rw here at (next-front node b cells nexts))
    | inr e ↦ rw e (next-behind node k a b cells (rw e at h) nexts)
  ]

  before-ne : (q k p : ℕ) (cells : List (Cell V)) → p ≢ q → Off q cells → before k p cells ≢ q
  before-ne q k p [] ne off = ne
  before-ne q k p ((b, i, v) ∷ cells) ne (ne', off) = elim (Bool-cases (i == k)) [
    | inl e ↦ rw e ne
    | inr e ↦ rw e (before-ne q k b cells ne' off)
  ]

  front-ne : (q : ℕ) (cells : List (Cell V)) → tail ≢ q → Off q cells → front cells ≢ q
  front-ne q [] ne off = ne
  front-ne q ((b, i, v) ∷ cells) ne (ne', off) = ne'

  behind-ne : (q k : ℕ) (cells : List (Cell V)) → tail ≢ q → Off q cells → behind k cells ≢ q
  behind-ne q k [] ne off = ne
  behind-ne q k ((b, i, v) ∷ cells) ne (ne', off) = elim (Bool-cases (i == k)) [
    | inl e ↦ rw e (front-ne q cells ne off)
    | inr e ↦ rw e (behind-ne q k cells ne off)
  ]

  -- The node before leads to the front of what follows.
  Nexts-front :
      (node : ℕ → Node V) (p b : ℕ) (cells : List (Cell V))
      → Off p cells
      → Nexts node b cells tail
      → Nexts (set_next p (front cells) node) p cells tail
  Nexts-front node p b [] off h = rw (==_self p) refl
  Nexts-front node p b ((x, j, w) ∷ cells) (ne, off) (h, rest) = (
    rw (==_self p) refl,
    Nexts-update_at node p (record (node p) { next = x }) x cells tail ne off rest,
  )

  pub Nexts-without :
      (node : ℕ → Node V) (k a p : ℕ) (cells : List (Cell V))
      → address k cells ≡ some a
      → Off p cells
      → Apart cells
      → Nexts node p cells tail
      → Nexts (set_next (before k p cells) (behind k cells) node) p (without k cells) tail
  Nexts-without node k a p [] h off apart nexts =
      let bad : false ≡ true = ap is_some h in absurd (ground arith)
  Nexts-without node k a p ((b, i, v) ∷ cells) h (ne, off) (off', apart) (next, nexts) =
      elim (Bool-cases (i == k)) [
        | inl e ↦ rw e (Nexts-front node p b cells off nexts)
        | inr e ↦ rw e (
          rw (==_ne p (before k b cells) (λ q. before-ne p k b cells ne off (sym q))) next,
          Nexts-without node k a b cells (rw e at h) off' apart nexts,
        )
      ]

  Prevs-front :
      (node : ℕ → Node V) (p b : ℕ) (cells : List (Cell V))
      → Apart cells
      → Prevs node b cells
      → Prevs (set_prev (front cells) p node) p cells
  Prevs-front node p b [] apart h = tt
  Prevs-front node p b ((x, j, w) ∷ cells) (off, apart) (h, rest) =
      (rw (==_self x) refl, Prevs-update_at node x (record (node x) { prev = p }) x cells off rest)

  pub Prevs-without :
      (node : ℕ → Node V) (k a p : ℕ) (cells : List (Cell V))
      → address k cells ≡ some a
      → Off tail cells
      → Apart cells
      → Prevs node p cells
      → Prevs (set_prev (behind k cells) (before k p cells) node) p (without k cells)
  Prevs-without node k a p [] h off apart prevs =
      let bad : false ≡ true = ap is_some h in absurd (ground arith)
  Prevs-without node k a p ((b, i, v) ∷ cells) h (ne, off) (off', apart) (prev, prevs) =
      elim (Bool-cases (i == k)) [
        | inl e ↦ rw e (Prevs-front node p b cells apart prevs)
        | inr e ↦ rw e (
          rw (==_ne b (behind k cells) (λ q. behind-ne b k cells (λ t. ne (sym t)) off' (sym q)))
              prev,
          Prevs-without node k a b cells (rw e at h) off apart prevs,
        )
      ]

  back-front :
      (node : ℕ → Node V) (p b : ℕ) (cells : List (Cell V))
      → Off tail cells
      → (node tail).prev ≡ last b cells
      → (set_prev (front cells) p node tail).prev ≡ last p cells
  back-front node p b [] off h = refl
  back-front node p b ((x, j, w) ∷ cells) (ne, off) h = rw (==_ne tail x (λ q. ne (sym q))) h

  pub back-without :
      (node : ℕ → Node V) (k a p : ℕ) (cells : List (Cell V))
      → address k cells ≡ some a
      → Off tail cells
      → (node tail).prev ≡ last p cells
      → (set_prev (behind k cells) (before k p cells) node tail).prev ≡ last p (without k cells)
  back-without node k a p [] h off back =
      let bad : false ≡ true = ap is_some h in absurd (ground arith)
  back-without node k a p ((b, i, v) ∷ cells) h (ne, off) back = elim (Bool-cases (i == k)) [
    | inl e ↦ rw e (back-front node p b cells off back)
    | inr e ↦ rw e (back-without node k a b cells (rw e at h) off back)
  ]
