-- ===== src/Linked/Read.antt =====
-- About `First`, `Next` and `Previous` of linkedmap.go.
use qotp.Base.{
  ℕ, ◌≡◌, refl, sym, ap, ◌∙◌, Option, none, some, List, [], ◌∷◌, ◌==◌, ==_ne, Bool-cases, inl, inr,
  held,
}
use qotp.Entries
use qotp.Entries.{Entries}
use qotp.Linked.{
  LinkedMap, head, tail, entry_unless, first, next, next_found, previous, previous_found,
}
use qotp.Linked.Chain.{Cell, entries, address, Nexts, Prevs, Holds, Off}
use qotp.Linked.Refinement.{Represents}

some_inj : (a b : ℕ) → some a ≡ some b → a ≡ b
some_inj a b e = ap (λ o. elim o [ none ↦ a | some x ↦ x ]) e

module _ {ℓ} {V : Type ℓ} where
  -- The first entry of a chain, read from the node that leads to it.
  first-entries :
      (m : LinkedMap V) (p a : ℕ) (cells : List (Cell V))
      → Nexts m.node p cells tail
      → Holds m.node cells
      → Off tail cells
      → (m.node p).next ≡ a
      → entry_unless tail m a ≡ held (Entries.first (entries cells))
  unfolding Entries.first
  first-entries m p a [] nexts holds off e = rw (← e, nexts) refl
  first-entries m p a ((b, k, v) ∷ cells) (next, nexts) (key, value, holds) (ne, off) e =
      let here : b ≡ a = sym next ∙ e in rw (← here, ==_ne b tail ne, key, value) refl

  next-entries :
      (m : LinkedMap V) (k p : ℕ) (cells : List (Cell V))
      → Nexts m.node p cells tail
      → Holds m.node cells
      → Off tail cells
      → next_found m (address k cells) ≡ held (Entries.next k (entries cells))
  unfolding Entries.next
  next-entries m k p [] nexts holds off = refl
  next-entries m k p ((b, j, v) ∷ cells) (next, nexts) (key, value, holds) (ne, off) =
      elim (Bool-cases (j == k)) [
        | inl e ↦ rw e (first-entries m b (m.node b).next cells nexts holds off refl)
        | inr e ↦ rw e (next-entries m k b cells nexts holds off)
      ]

  previous-entries :
      (m : LinkedMap V) (k p : ℕ) (before : Option (ℕ × V)) (cells : List (Cell V))
      → Prevs m.node p cells
      → Holds m.node cells
      → Off head cells
      → entry_unless head m p ≡ held before
      → previous_found m (address k cells) ≡ held (Entries.prev_or before k (entries cells))
  unfolding Entries.prev_or
  previous-entries m k p before [] prevs holds off h = refl
  previous-entries m k p before ((b, j, v) ∷ cells) (prev, prevs) (key, value, holds) (ne, off) h =
      elim (Bool-cases (j == k)) [
        | inl e ↦ rw (e, prev) h
        | inr e ↦ rw e (
            previous-entries m k b (some (j, v)) cells prevs holds off
              (rw (==_ne b head ne, key, value) refl))
      ]

  -- `First` reads the entry that was put in first.
  pub first-Represents :
      (m : LinkedMap V) (es : Entries V) → Represents m es → first m ≡ held (Entries.first es)
  unfolding first
  first-Represents m es r =
      let h = r.chained in
      first-entries m head (m.node head).next r.cells h.nexts h.holds h.off_tail refl
      ∙ ap (λ x. held (Entries.first x)) r.same

  -- `Next` reads the entry behind that of the key, `Previous` the one in front of it; neither finds
  -- one for a key that is not in the map.
  pub neighbours-Represents :
      (m : LinkedMap V) (es : Entries V) (k : ℕ)
      → Represents m es
      → (next k m ≡ held (Entries.next k es)) × (previous k m ≡ held (Entries.prev k es))
  unfolding next previous
  neighbours-Represents m es k r =
      let h = r.chained in
      (
        rw (h.items k) (next-entries m k head r.cells h.nexts h.holds h.off_tail)
            ∙ ap (λ x. held (Entries.next k x)) r.same,
        rw (h.items k) (previous-entries m k head none r.cells h.prevs h.holds h.off_head refl)
            ∙ ap (λ x. held (Entries.prev k x)) r.same,
      )
