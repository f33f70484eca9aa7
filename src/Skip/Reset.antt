-- ===== src/Skip/Reset.antt =====
-- A node whose value `Put` of sortedmap.go replaces: the chain of nodes stays what it is.
use qotp.Base.{
  ℕ, suc, ◌≡◌, refl, ap, Option, some, List, [], ◌∷◌, ◌++◌, if◌then◌else◌, ltb, ◌==◌, ==_self,
  ==_ne, length,
}
use qotp.Skip.{update_at}
use qotp.Skip.Chain.{
  Cell, address, first, KeysHeld, Values, Levels, Afters, Prevs, Nexts, Tall, Above, Rising, Off,
  Apart, Values-update_at,
}

module _ {ℓ} {V : Type ℓ} (a n k : ℕ) (v u : V) (hi : List (Cell V)) where
  abbrev pub was : Cell V
  was = (a, n, k, u)

  abbrev pub now : Cell V
  now = (a, n, k, v)

  pub Values-reset :
      (value : ℕ → Option V) (lo : List (Cell V))
      → Off a lo
      → Off a hi
      → Values value (lo ++ (was ∷ hi))
      → Values (update_at a (some v) value) (lo ++ (now ∷ hi))
  Values-reset value [] offl offr (w, ws) =
      (rw (==_self a) refl, Values-update_at a value (some v) hi offr ws)
  Values-reset value ((b, i, j, x) ∷ lo) (ne, offl) offr (w, ws) =
      (rw (==_ne b a ne) w, Values-reset value lo offl offr ws)

  pub Keys-reset :
      (key : ℕ → ℕ) (lo : List (Cell V))
      → KeysHeld key (lo ++ (was ∷ hi))
      → KeysHeld key (lo ++ (now ∷ hi))
  Keys-reset key [] w = w
  Keys-reset key (c ∷ lo) (w, ws) = (w, Keys-reset key lo ws)

  pub Levels-reset :
      (levels : ℕ → ℕ) (lo : List (Cell V))
      → Levels levels (lo ++ (was ∷ hi))
      → Levels levels (lo ++ (now ∷ hi))
  Levels-reset levels [] w = w
  Levels-reset levels (c ∷ lo) (w, ws) = (w, Levels-reset levels lo ws)

  pub Afters-reset :
      (after : ℕ → ℕ) (p : ℕ) (lo : List (Cell V))
      → Afters after p (lo ++ (was ∷ hi))
      → Afters after p (lo ++ (now ∷ hi))
  Afters-reset after p [] w = w
  Afters-reset after p ((b, i, j, x) ∷ lo) (w, ws) = (w, Afters-reset after b lo ws)

  pub Prevs-reset :
      (prev : ℕ → ℕ) (p : ℕ) (lo : List (Cell V))
      → Prevs prev p (lo ++ (was ∷ hi))
      → Prevs prev p (lo ++ (now ∷ hi))
  Prevs-reset prev p [] w = w
  Prevs-reset prev p ((b, i, j, x) ∷ lo) (w, ws) = (w, Prevs-reset prev b lo ws)

  pub first-reset :
      (i : ℕ) (lo : List (Cell V)) → first i (lo ++ (was ∷ hi)) ≡ first i (lo ++ (now ∷ hi))
  first-reset i [] = refl
  first-reset i ((b, m, j, x) ∷ lo) = ap (λ o. if ltb i m then some b else o) (first-reset i lo)

  pub Nexts-reset :
      (next : ℕ → ℕ → Option ℕ) (lo : List (Cell V))
      → Nexts next (lo ++ (was ∷ hi))
      → Nexts next (lo ++ (now ∷ hi))
  Nexts-reset next [] w = w
  Nexts-reset next ((b, m, j, x) ∷ lo) (w, ws) =
      ((λ i lt. rw (← first-reset i lo) (w i lt)), Nexts-reset next lo ws)

  pub address-reset :
      (i : ℕ) (lo : List (Cell V)) → address i (lo ++ (was ∷ hi)) ≡ address i (lo ++ (now ∷ hi))
  address-reset i [] = refl
  address-reset i ((b, m, j, x) ∷ lo) = ap (λ o. if j == i then some b else o) (address-reset i lo)

  pub Off-reset : (x : ℕ) (lo : List (Cell V)) → Off x (lo ++ (was ∷ hi)) → Off x (lo ++ (now ∷ hi))
  Off-reset x [] w = w
  Off-reset x (c ∷ lo) (w, ws) = (w, Off-reset x lo ws)

  pub Apart-reset : (lo : List (Cell V)) → Apart (lo ++ (was ∷ hi)) → Apart (lo ++ (now ∷ hi))
  Apart-reset [] w = w
  Apart-reset ((b, m, j, x) ∷ lo) (w, ws) = (Off-reset b lo w, Apart-reset lo ws)

  Above-reset :
      (x : ℕ) (lo : List (Cell V)) → Above x (lo ++ (was ∷ hi)) → Above x (lo ++ (now ∷ hi))
  Above-reset x [] w = w
  Above-reset x (c ∷ lo) (w, ws) = (w, Above-reset x lo ws)

  pub Rising-reset : (lo : List (Cell V)) → Rising (lo ++ (was ∷ hi)) → Rising (lo ++ (now ∷ hi))
  Rising-reset [] w = w
  Rising-reset ((b, m, j, x) ∷ lo) (w, ws) = (Above-reset j lo w, Rising-reset lo ws)

  pub Tall-reset :
      (top : ℕ) (lo : List (Cell V)) → Tall top (lo ++ (was ∷ hi)) → Tall top (lo ++ (now ∷ hi))
  Tall-reset top [] w = w
  Tall-reset top (c ∷ lo) (w, w', ws) = (w, w', Tall-reset top lo ws)

  pub length-reset : (lo : List (Cell V)) → length (lo ++ (was ∷ hi)) ≡ length (lo ++ (now ∷ hi))
  length-reset [] = refl
  length-reset (c ∷ lo) = ap suc (length-reset lo)
