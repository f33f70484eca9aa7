-- ===== src/Rcv/Segments.antt =====
-- Lemmas on segments of a stream: what the ordered map and the slices do to bytes that agree.
use mathlib.Core.Path.{subst}
use qotp.Base.{
  slice, ℕ, ◌+◌, ◌-◌, ◌≤◌, ◌<◌, ◌≡◌, refl, sym, ap, ◌∙◌, true, false, Option, none, some, List, [],
  ◌∷◌, ◌++◌, ok, ltb, ◌==◌, length, take, drop, arith, All, AllSome, if_elim, Bool-cases, inl, inr,
  IsSlice, IsSlice-take, IsSlice-drop, length-take, length-drop, ==_self,
}
use qotp.Sorted
use qotp.Sorted.{SortedMap}
use qotp.Rcv.{RcvValue, same_bytes, assert_same}

-- Bytes of the stream `w`, at their offset.
abbrev pub IsPart : List ℕ → ℕ → List ℕ → Type 0
IsPart w n xs = IsSlice w n xs × (n + length xs ≤ length w)

-- Every segment holds the bytes of the stream at its offset.
abbrev pub Agrees : List ℕ → SortedMap RcvValue → Type 0
Agrees w m = All (λ e. IsPart w e.0 e.1.payload) m

-- The segments stand in order, and none reaches into the next.
abbrev pub Disjoint : SortedMap RcvValue → Type 0
Disjoint [] = Unit
Disjoint (e ∷ m) = All (λ e'. (e.0 < e'.0) × (e.0 + length e.1.payload ≤ e'.0)) m × Disjoint m

-- The entry ends at `n` or before.
abbrev pub EndsBy : ℕ → ℕ × RcvValue → Type 0
EndsBy n e = e.0 + length e.1.payload ≤ n

module _ {κ} (P : ℕ × RcvValue → Type κ) where
  pub All-put :
      (k : ℕ) (v : RcvValue) (m : SortedMap RcvValue)
      → All P m
      → P (k, v)
      → All P (Sorted.put k v m)
  unfolding Sorted.put
  All-put k v [] h new = (new, tt)
  All-put k v ((j, w) ∷ m) h new =
      if_elim (All P) (j == k) (λ e. (new, h.1))
        (λ e. if_elim (All P) (ltb k j) (λ t. (new, h)) (λ t. (h.0, All-put k v m h.1 new)))

  pub All-remove : (k : ℕ) (m : SortedMap RcvValue) → All P m → All P (Sorted.remove k m)
  unfolding Sorted.remove
  All-remove k [] h = h
  All-remove k ((j, w) ∷ m) h = if_elim (All P) (j == k) (λ e. h.1) (λ e. (h.0, All-remove k m h.1))

  pub All-next : (k : ℕ) (m : SortedMap RcvValue) → All P m → AllSome P (Sorted.next k m)
  unfolding Sorted.next
  All-next k [] h = tt
  All-next k ((j, w) ∷ m) h = if_elim (AllSome P) (ltb k j) (λ e. h.0) (λ e. All-next k m h.1)

  pub All-prev_or :
      (before : Option (ℕ × RcvValue)) (k : ℕ) (m : SortedMap RcvValue)
      → AllSome P before
      → All P m
      → AllSome P (Sorted.prev_or before k m)
  unfolding Sorted.prev_or
  All-prev_or before k [] b h = b
  All-prev_or before k ((j, w) ∷ m) b h =
      if_elim (AllSome P) (ltb j k) (λ e. All-prev_or (some (j, w)) k m h.0 h.1) (λ e. b)

pub prev_or-lt :
    (before : Option (ℕ × RcvValue)) (k : ℕ) (m : SortedMap RcvValue)
    → AllSome (λ p. p.0 < k) before
    → AllSome (λ p. p.0 < k) (Sorted.prev_or before k m)
unfolding Sorted.prev_or
prev_or-lt before k [] b = b
prev_or-lt before k ((j, w) ∷ m) b =
    if_elim (AllSome (λ p. p.0 < k)) (ltb j k) (λ e. prev_or-lt (some (j, w)) k m (ground arith))
      (λ e. b)

pub next-gt : (k : ℕ) (m : SortedMap RcvValue) → AllSome (λ n. k < n.0) (Sorted.next k m)
unfolding Sorted.next
next-gt k [] = tt
next-gt k ((j, w) ∷ m) =
    if_elim (AllSome (λ n. k < n.0)) (ltb k j) (λ e. ground arith) (λ e. next-gt k m)

-- The segment before an offset ends where the one behind it starts, at the latest.
pub prev-next :
    (before : Option (ℕ × RcvValue)) (k : ℕ) (m : SortedMap RcvValue)
    → Disjoint m
    → AllSome (λ b. All (λ e. EndsBy e.0 b) m) before
    → AllSome (λ n. AllSome (EndsBy n.0) (Sorted.prev_or before k m)) (Sorted.next k m)
unfolding Sorted.prev_or Sorted.next
prev-next before k [] d b = tt
prev-next before k ((j, v) ∷ m) d b = elim (Bool-cases (ltb j k)) [
  | inl below ↦
      let not_above : ltb k j ≡ false = ground arith in
      rw (below, not_above) (prev-next (some (j, v)) k m d.1 (All-ends (j, v) m d.0))
  | inr above ↦ rw above (
      if_elim (AllSome (λ n. AllSome (EndsBy n.0) before)) (ltb k j)
        (λ e. first_ends before j v m b)
        (λ e. All-next (λ n. AllSome (EndsBy n.0) before) k m (rest_ends before (j, v) m b)))
]
  where
    All-ends :
        (e : ℕ × RcvValue) (m : SortedMap RcvValue)
        → All (λ e'. (e.0 < e'.0) × (e.0 + length e.1.payload ≤ e'.0)) m
        → All (λ e'. EndsBy e'.0 e) m
    All-ends e [] h = tt
    All-ends e (x ∷ m) h = (h.0.1, All-ends e m h.1)

    first_ends :
        (before : Option (ℕ × RcvValue)) (j : ℕ) (v : RcvValue) (m : SortedMap RcvValue)
        → AllSome (λ b. All (λ e. EndsBy e.0 b) ((j, v) ∷ m)) before
        → AllSome (EndsBy j) before
    first_ends none j v m b = tt
    first_ends (some p) j v m b = b.0

    spread :
        (p : ℕ × RcvValue) (m : SortedMap RcvValue)
        → All (λ e. EndsBy e.0 p) m
        → All (λ n. AllSome (EndsBy n.0) (some p)) m
    spread p [] h = tt
    spread p (x ∷ m) h = (h.0, spread p m h.1)

    nothing_ends : (m : SortedMap RcvValue) → All (λ n. AllSome (EndsBy n.0) none) m
    nothing_ends [] = tt
    nothing_ends (x ∷ m) = (tt, nothing_ends m)

    rest_ends :
        (before : Option (ℕ × RcvValue)) (x : ℕ × RcvValue) (m : SortedMap RcvValue)
        → AllSome (λ b. All (λ e. EndsBy e.0 b) (x ∷ m)) before
        → All (λ n. AllSome (EndsBy n.0) before) m
    rest_ends none x m b = nothing_ends m
    rest_ends (some p) x m b = spread p m b.1

pub take-append : (xs rest : List ℕ) → take (length xs) (xs ++ rest) ≡ xs
take-append [] rest = refl
take-append (x ∷ xs) rest = ap (λ l. x ∷ l) (take-append xs rest)

-- Two parts of one stream with the same offset and length are the same bytes.
pub IsSlice-same :
    (w : List ℕ) (n : ℕ) (xs ys : List ℕ)
    → IsSlice w n xs
    → IsSlice w n ys
    → length xs ≡ length ys
    → xs ≡ ys
IsSlice-same w n xs ys (r, e) (r', e') size =
    sym (take-append xs r)
    ∙ ap (take (length xs)) (sym e ∙ e')
    ∙ ap (λ k. take k (ys ++ r')) size
    ∙ take-append ys r'

same_bytes_self : (xs : List ℕ) → same_bytes xs xs ≡ true
unfolding same_bytes
same_bytes_self [] = refl
same_bytes_self (x ∷ xs) = rw (==_self x) (same_bytes_self xs)

-- An assertion on two parts of one stream holds.
pub assert_same_lem :
    (w : List ℕ) (n : ℕ) (xs ys : List ℕ)
    → IsSlice w n xs
    → IsSlice w n ys
    → length xs ≡ length ys
    → assert_same xs ys ≡ ok tt
unfolding assert_same
assert_same_lem w n xs ys hx hy size =
    rw (IsSlice-same w n xs ys hx hy size) (rw (same_bytes_self ys))

-- A slice expression in range gives that part.
pub slice_lem :
    (w : List ℕ) (n from to at : ℕ) (xs : List ℕ)
    → IsSlice w n xs
    → n + from ≡ at
    → from ≤ to
    → to ≤ length xs
    → (ys : List ℕ) × (slice from to xs ≡ ok ys) × (length ys ≡ to - from) × IsSlice w at ys
unfolding slice
slice_lem w n from to at xs h e le fits =
    let ys = take (to - from) (drop from xs) in
    let size_drop = length-drop from xs in
    let size_take = length-take (to - from) (drop from xs) in
    (
      ys,
      ground arith,
      omega (arith, size_drop, size_take),
      subst (λ i. IsSlice w i ys) e
          (IsSlice-take w (n + from) (to - from) (drop from xs)
            (IsSlice-drop w n from xs (omega arith) h)),
    )
