-- ===== src/Base/Slices.antt =====
-- That a list stands at an offset of another.
use mathlib.Core.Path.{◌≡◌, refl, sym, ap, ◌∙◌}
use mathlib.Core.List.{List, [], ◌∷◌, ◌++◌, append_assoc}
use Prim.Native.Nat.{ℕ, zero, suc, ◌+◌, ◌≤◌}
use native.Mathlib.Omega.{arith}
use qotp.Base.Lists.{length, take, drop, drop_past, take-append-drop, length-take}

-- `xs` is what `w` holds from `n` on, up to some rest.
abbrev pub IsSlice : List ℕ → ℕ → List ℕ → Type 0
IsSlice w n xs = (rest : List ℕ) × (drop n w ≡ xs ++ rest)

pub IsSlice-nil : (w : List ℕ) (n : ℕ) → IsSlice w n []
IsSlice-nil w n = (drop n w, refl)

split_front : (m : ℕ) (xs rest : List ℕ) → xs ++ rest ≡ take m xs ++ (drop m xs ++ rest)
split_front m xs rest =
    ap (λ l. l ++ rest) (sym (take-append-drop m xs)) ∙ append_assoc (take m xs) (drop m xs) rest

pub IsSlice-take : (w : List ℕ) (n m : ℕ) (xs : List ℕ) → IsSlice w n xs → IsSlice w n (take m xs)
IsSlice-take w n m xs (rest, e) = (drop m xs ++ rest, e ∙ split_front m xs rest)

pub IsSlice-drop :
    (w : List ℕ) (n m : ℕ) (xs : List ℕ)
    → m ≤ length xs
    → IsSlice w n xs
    → IsSlice w (n + m) (drop m xs)
IsSlice-drop w n m xs h (rest, e) =
    let split = e ∙ split_front m xs rest in
    let size : length (take m xs) ≡ m = omega (arith, length-take m xs) in
    (rest, rw size at (drop_past n w (take m xs) (drop m xs ++ rest) split))

pub drop-append_le : (w c : List ℕ) (n : ℕ) → n ≤ length w → drop n (w ++ c) ≡ drop n w ++ c
drop-append_le w c zero h = refl
drop-append_le [] c (suc n) h = absurd (omega arith)
drop-append_le (x ∷ w) c (suc n) h = drop-append_le w c n (omega arith)

-- A slice stays one when more is appended, and the tail grows.
pub IsSlice-append :
    (w c : List ℕ) (n : ℕ) (xs : List ℕ) → n ≤ length w → IsSlice w n xs → IsSlice (w ++ c) n xs
IsSlice-append w c n xs h (rest, e) =
    (rest ++ c, drop-append_le w c n h ∙ ap (λ l. l ++ c) e ∙ append_assoc xs rest c)
