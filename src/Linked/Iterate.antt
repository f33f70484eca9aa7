-- ===== src/Linked/Iterate.antt =====
-- About `Iterator` of linkedmap.go.
use qotp.Base.{
  ℕ, zero, suc, ◌+◌, ◌<◌, ◌≡◌, ◌≢◌, refl, sym, ap, ◌∙◌, arith, Option, none, some, List, [], ◌∷◌,
  ◌==◌, ==_ne, Bool-cases, inl, inr, length,
}
use qotp.Entries
use qotp.Entries.{Entries}
use qotp.Linked.{LinkedMap, head, tail, start_found, traverse, iterate}
use qotp.Linked.Chain.{Cell, entries, address, Nexts, Holds, Off}
use qotp.Linked.Refinement.{Represents}

abbrev pub all_held {ℓ} : {V : Type ℓ} → Entries V → List (ℕ × Option V)
all_held [] = []
all_held ((k, v) ∷ es) = (k, some v) ∷ all_held es

module _ {ℓ} {V : Type ℓ} where
  traverse-entries :
      (fuel : ℕ) (m : LinkedMap V) (p a : ℕ) (cells : List (Cell V))
      → length cells < fuel
      → (m.node p).next ≡ a
      → Nexts m.node p cells tail
      → Holds m.node cells
      → Off tail cells
      → traverse fuel m a ≡ some (all_held (entries cells))
  unfolding traverse
  traverse-entries zero m p a cells lt e nexts holds off = absurd (omega arith)
  traverse-entries (suc fuel) m p a [] lt e nexts holds off = rw (← e, nexts) refl
  traverse-entries (suc fuel) m p a ((b, k, v) ∷ cells) lt e (next, nexts) (key, value, holds)
        (ne, off) =
      let here : b ≡ a = sym next ∙ e in
      let key' : (m.node a).key ≡ k = rw here at key in
      let value' : (m.node a).value ≡ some v = rw here at value in
      let other : a ≢ tail = rw here at ne in
      let rest =
        traverse-entries fuel m b (m.node a).next cells (omega arith)
          (ap (λ x. (m.node x).next) here) nexts holds off in
      rw (==_ne a tail other, rest) (rw (key', value') refl)

  start-entries :
      (fuel k : ℕ) (m : LinkedMap V) (p : ℕ) (whole : Entries V) (cells : List (Cell V))
      → length cells < fuel
      → Nexts m.node p cells tail
      → Holds m.node cells
      → Off tail cells
      → traverse fuel m (m.node head).next ≡ some (all_held whole)
      → traverse fuel m (start_found m (address k cells))
        ≡ some (all_held (Entries.rest_behind k whole (entries cells)))
  unfolding Entries.rest_behind
  start-entries fuel k m p whole [] lt nexts holds off all = all
  start-entries fuel k m p whole ((b, j, v) ∷ []) lt (next, end) holds off all =
      elim (Bool-cases (j == k)) [ inl e ↦ rw (e, end) all | inr e ↦ rw e all ]
  start-entries fuel k m p whole ((b, j, v) ∷ ((c, i, w) ∷ cells)) lt (next, nexts)
        (key, value, holds) (ne, off) all =
      elim (Bool-cases (j == k)) [
        | inl e ↦
            let after : (m.node b).next ≡ c = nexts.0 in
            rw (e, after, ==_ne c tail off.0)
              (traverse-entries fuel m b c ((c, i, w) ∷ cells) (omega arith) after nexts holds off)
        | inr e ↦
            rw e
              (start-entries fuel k m b whole ((c, i, w) ∷ cells) (omega arith) nexts holds off all)
      ]

  -- `Iterator` ends, and visits the entries in their order: all of them, or those behind the start
  -- key where it has a successor.
  pub iterate-Represents :
      (m : LinkedMap V) (es : Entries V) (start : Option ℕ)
      → Represents m es
      → iterate start m ≡ some (all_held (Entries.iterator start es))
  unfolding iterate Entries.iterator
  iterate-Represents m es none r =
      let h = r.chained in
      traverse-entries (m.size + 1) m head (m.node head).next r.cells (omega (arith, h.size)) refl
        h.nexts h.holds h.off_tail
      ∙ ap (λ x. some (all_held x)) r.same
  iterate-Represents m es (some k) r =
      let h = r.chained in
      let all =
        traverse-entries (m.size + 1) m head (m.node head).next r.cells (omega (arith, h.size)) refl
          h.nexts h.holds h.off_tail in
      rw (h.items k) (
        start-entries (m.size + 1) k m head (entries r.cells) r.cells (omega (arith, h.size))
          h.nexts h.holds h.off_tail all
        ∙ ap (λ x. some (all_held (Entries.rest_behind k x x))) r.same)
