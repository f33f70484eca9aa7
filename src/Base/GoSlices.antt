-- ===== src/Base/GoSlices.antt =====
-- Go's slice expressions, and `copy` into a part of a slice.
use Prim.Native.Nat.{ℕ, ◌+◌, ◌-◌, ◌≤◌}
use mathlib.Core.Path.{sym, ◌≡◌, refl, ap}
use mathlib.Core.Bool.{◌&&◌}
use mathlib.Core.List.{List, [], ◌∷◌, ◌++◌}
use native.Mathlib.Omega.{arith}
use qotp.Base.Tests.{leb, if◌then◌else◌}
use qotp.Base.Lists.{
  length, take, drop, replicate, replicate-add, length-drop, take_all, copy_into, length-append,
  drop-append_length, take-append_length,
}
use qotp.Base.Outcome.{Run, ok, panic}

-- `xs[from:to]`, which panics unless `from ≤ to ≤ len(xs)`.
unfoldable pub slice : ℕ → ℕ → List ℕ → Run (List ℕ)
slice from to xs =
    if leb from to && leb to (length xs) then ok (take (to - from) (drop from xs)) else panic

-- `copy(dst[at:], src)`, and what `dst` is then.
unfoldable pub copy_at : List ℕ → ℕ → List ℕ → Run (List ℕ)
copy_at dst at src =
    if leb at (length dst) then ok (take at dst ++ copy_into (drop at dst) src) else panic

-- A copy over as many zeros.
copy_into-zeros :
    (src rest : List ℕ) → copy_into (replicate (length src) 0 ++ rest) src ≡ src ++ rest
copy_into-zeros [] [] = refl
copy_into-zeros [] (x ∷ rest) = refl
copy_into-zeros (y ∷ src) rest = ap (◌∷◌ y) (copy_into-zeros src rest)

-- A copy into the zeros behind a finished part.
pub copy_at-zeros :
    (pre src : List ℕ) (at total n : ℕ)
    → length pre ≡ at
    → length src + n ≡ total
    → copy_at (pre ++ replicate total 0) at src ≡ ok (pre ++ (src ++ replicate n 0))
unfolding copy_at
copy_at-zeros pre src at total n at_pre size =
    let zeros : List ℕ = replicate (length src) 0 ++ replicate n 0 in
    let split : replicate {A = ℕ} (length src + n) 0 ≡ zeros = replicate-add (length src) n 0 in
    rw
      (
        sym size,
        sym at_pre,
        split,
        drop-append_length pre zeros,
        take-append_length pre zeros,
        copy_into-zeros src (replicate n 0),
      )
      (ground (arith, length-append pre zeros))

module _ (xs : List ℕ) (n : ℕ) (fits : n ≤ length xs) where
  pub slice-take : slice 0 n xs ≡ ok (take n xs)
  unfolding slice
  slice-take = ground arith

  pub slice-drop : slice n (length xs) xs ≡ ok (drop n xs)
  unfolding slice
  slice-drop =
      let size : length (drop n xs) ≤ length xs - n = omega (arith, length-drop n xs) in
      rw (take_all (drop n xs) (length xs - n) size) (ground arith)

-- A part in the middle.
pub slice-append :
    (pre mid rest : List ℕ) (from to : ℕ)
    → length pre ≡ from
    → from + length mid ≡ to
    → slice from to (pre ++ (mid ++ rest)) ≡ ok mid
unfolding slice
slice-append pre mid rest from to at_pre at_mid =
    let whole = length-append pre (mid ++ rest) in
    let behind = length-append mid rest in
    let size : to - from ≡ length mid = omega arith in
    rw (size, sym at_pre, drop-append_length pre (mid ++ rest), take-append_length mid rest)
      (ground (arith, whole, behind))
