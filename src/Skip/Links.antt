-- ===== src/Skip/Links.antt =====
-- The doubly linked list through the nodes of a skip list when one node comes or goes.
use qotp.Base.{ℕ, ◌≢◌, refl, sym, List, [], ◌∷◌, ◌++◌, ==_self, ==_ne}
use qotp.Skip.{tail, update_at}
use qotp.Skip.Chain.{
  Cell, front, last, last-ne, Afters, Afters-update_at, Prevs, Prevs-update_at, Off, Apart,
}

module _ {ℓ} {V : Type ℓ} (x h k : ℕ) (v : V) where
  pub Afters-insert :
      (after : ℕ → ℕ) (p : ℕ) (lo hi : List (Cell V))
      → p ≢ x
      → Off p lo
      → Apart lo
      → Off x lo
      → Off x hi
      → Off (last p lo) hi
      → Afters after p (lo ++ hi)
      → Afters
          (update_at (last p lo) x (update_at x (front hi) after))
          p
          (lo ++ ((x, h, k, v) ∷ hi))
  Afters-insert after p [] [] ne off apart offx offx' away w =
      (rw (==_self p) refl, rw (==_ne x p (λ e. ne (sym e)), ==_self x) refl)
  Afters-insert after p [] ((b, n, j, u) ∷ hi) ne off apart offx (nex, offx') (nep, away) (w, ws) =
      (
        rw (==_self p) refl,
        (
          rw (==_ne x p (λ e. ne (sym e)), ==_self x) refl,
          Afters-update_at p (update_at x b after) x b hi nep away
              (Afters-update_at x after b b hi nex offx' ws),
        ),
      )
  Afters-insert after p ((a, n, j, u) ∷ lo) hi ne (nea, off) (off', apart) (nex, offx) offx' away
        (w, ws) =
      (
        rw (==_ne p (last a lo) (λ e. last-ne p a lo nea off (sym e)), ==_ne p x ne) w,
        Afters-insert after a lo hi nex off' apart offx offx' away ws,
      )

  pub Prevs-insert :
      (prev : ℕ → ℕ) (p : ℕ) (lo hi : List (Cell V))
      → tail ≢ x
      → x ≢ front hi
      → Off (front hi) lo
      → Off x lo
      → Off x hi
      → Off tail hi
      → Apart hi
      → Prevs prev p (lo ++ hi)
      → Prevs (update_at (front hi) x (update_at x (last p lo) prev)) p (lo ++ ((x, h, k, v) ∷ hi))
  Prevs-insert prev p [] [] net nef away offx offx' offt apart w =
      (rw (==_ne x tail nef, ==_self x) refl, refl)
  Prevs-insert prev p [] ((b, n, j, u) ∷ hi) net nef away offx (nex, offx') (nebt, offt)
        (offb, apart) (w, ws) =
      (
        rw (==_ne x b nef, ==_self x) refl,
        (
          rw (==_self b) refl,
          Prevs-update_at b (update_at x p prev) x b hi (λ e. nebt (sym e)) offb
              (Prevs-update_at x prev p b hi net offx' ws),
        ),
      )
  Prevs-insert prev p ((a, n, j, u) ∷ lo) hi net nef (nea, away) (nex, offx) offx' offt apart
        (w, ws) =
      (
        rw (==_ne a (front hi) nea, ==_ne a x nex) w,
        Prevs-insert prev a lo hi net nef away offx offx' offt apart ws,
      )

  pub Afters-delete :
      (after : ℕ → ℕ) (p : ℕ) (lo hi : List (Cell V))
      → Off p lo
      → Apart lo
      → Off (last p lo) hi
      → Afters after p (lo ++ ((x, h, k, v) ∷ hi))
      → Afters (update_at (last p lo) (front hi) after) p (lo ++ hi)
  Afters-delete after p [] [] off apart away w = rw (==_self p) refl
  Afters-delete after p [] ((b, n, j, u) ∷ hi) off apart (nep, away) (w, (w', ws)) =
      (rw (==_self p) refl, Afters-update_at p after b b hi nep away ws)
  Afters-delete after p ((a, n, j, u) ∷ lo) hi (nea, off) (off', apart) away (w, ws) = (
    rw (==_ne p (last a lo) (λ e. last-ne p a lo nea off (sym e))) w,
    Afters-delete after a lo hi off' apart away ws,
  )

  pub Prevs-delete :
      (prev : ℕ → ℕ) (p : ℕ) (lo hi : List (Cell V))
      → Off (front hi) lo
      → Off tail hi
      → Apart hi
      → Prevs prev p (lo ++ ((x, h, k, v) ∷ hi))
      → Prevs (update_at (front hi) (last p lo) prev) p (lo ++ hi)
  Prevs-delete prev p [] [] away offt apart w = refl
  Prevs-delete prev p [] ((b, n, j, u) ∷ hi) away (nebt, offt) (offb, apart) (w, (w', ws)) =
      (rw (==_self b) refl, Prevs-update_at b prev p b hi (λ e. nebt (sym e)) offb ws)
  Prevs-delete prev p ((a, n, j, u) ∷ lo) hi (nea, away) offt apart (w, ws) =
      (rw (==_ne a (front hi) nea) w, Prevs-delete prev a lo hi away offt apart ws)
