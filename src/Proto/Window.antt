-- ===== src/Proto/Window.antt =====
-- The one-byte code of the receive window: `EncodeRcvWindow` and `DecodeRcvWindow`.
use qotp.Base.{
  if_elim, ==_iff, ltb, ◌==◌, if◌then◌else◌, ℕ, zero, suc, ◌+◌, ◌-◌, ◌*◌, ◌/◌, ◌%◌, ◌^◌, min, ◌≤◌,
  ◌<◌, ◌≡◌, refl, ap, Bool, true, false, ◌==◌, ==_iff, arith, if◌then◌else◌, ltb, leb,
}
use native.Mathlib.Nat.{pow-suc, pow-le-pow_right, div-add-mod', mod-lt}
use native.Mathlib.Decide.{dec_le, ℕ_discrete}
use native.Mathlib.Numerals.{towards_suc}
use qotp.Proto.{bits_len, encode_rcv_window, decode_rcv_window}

bits_len_zero : (fuel : ℕ) → bits_len fuel 0 ≡ 0
unfolding bits_len
bits_len_zero zero = refl
bits_len_zero (suc fuel) = refl

-- The leading digit of a number stands where `bits.Len64` says.
bits_len_bounds :
    (fuel x : ℕ)
    → 0 < x
    → x < 2 ^ fuel
    → (k : ℕ) × (bits_len fuel x ≡ suc k) × (2 ^ k ≤ x) × (x < 2 ^ suc k) × (k < fuel)
unfolding bits_len
bits_len_bounds zero x pos h = absurd (omega arith)
bits_len_bounds (suc fuel) zero pos h = elim pos [ ]
bits_len_bounds (suc fuel) (suc zero) pos h =
    (0, ap suc (bits_len_zero fuel), omega arith, omega arith, omega arith)
bits_len_bounds (suc fuel) (suc (suc x)) pos h =
    let (k, e, lo, hi, f) =
      bits_len_bounds fuel (suc (suc x) / 2) (omega arith) (omega (arith, pow-suc 2 fuel)) in
    (
      suc k,
      ground (arith, e),
      omega (arith, pow-suc 2 k),
      omega (arith, pow-suc 2 (suc k)),
      omega arith,
    )

below_sixteen : (q u r : ℕ) → q * u + r < 16 * u → q < 16
below_sixteen q u r h = grind arith

from_eight : (q u r : ℕ) → 8 * u ≤ q * u + r → r < u → 8 ≤ q
from_eight q u r h lt = grind arith

-- A number between 8 and 16 units stands in the step that its quotient modulo 8 selects.
steps :
    (u x : ℕ)
    → 0 < u
    → 8 * u ≤ x
    → x < 16 * u
    → (x / u % 8 < 8) × ((x / u % 8 + 8) * u ≤ x) × (x < (x / u % 8 + 9) * u)
steps u x pos lo hi =
    let e = div-add-mod' x u in
    let r = mod-lt x pos in
    let top = below_sixteen (x / u) u (x % u) (omega (arith, e)) in
    let bottom = from_eight (x / u) u (x % u) (omega (arith, e)) r in
    let q : x / u % 8 + 8 ≡ x / u = omega arith in
    let q' : x / u % 8 + 9 ≡ x / u + 1 = omega arith in
    (omega arith, rw q (omega (arith, e)), rw q' (omega (arith, e, r)))

eight_units : (k : ℕ) → 2 ^ (k + 8) ≡ 8 * 2 ^ (k + 5)
eight_units k = simp towards_suc (omega arith)

-- A number has its leading digit at 8 or above exactly from 256 on.
leading_from_eight : (k x : ℕ) → 256 ≤ x → x < 2 ^ suc k → 8 ≤ k
leading_from_eight k x big hi = elim (dec_le 8 k) [
  | yes h ↦ h
  | no h ↦
      let low : 2 ^ suc k ≤ 2 ^ 8 = pow-le-pow_right {n = 2} (omega arith) {j = 8} (omega arith) in
      absurd (omega arith)
]

leading :
    (x : ℕ)
    → 256 ≤ x
    → x < 2 ^ 64
    → (k : ℕ) × (bits_len 64 x ≡ k + 9) × (2 ^ (k + 8) ≤ x) × (x < 2 ^ suc (k + 8)) × (k < 56)
leading x big fits =
    let (j, e, lo, hi, f) = bits_len_bounds 64 x (omega arith) fits in
    let h = leading_from_eight j x big hi in
    let back : j ≡ j - 8 + 8 = omega arith in
    (j - 8, omega arith, rw (← back) lo, rw (← back) hi, omega arith)

-- The code of a number from 256 on, with the unit of its steps.
encode_rcv_window_large :
    (x k : ℕ)
    → 256 ≤ x
    → bits_len 64 x ≡ k + 9
    → encode_rcv_window x ≡ min 255 (k * 8 + x / 2 ^ (k + 5) % 8 + 2)
unfolding encode_rcv_window
encode_rcv_window_large x k big e =
    let high : k + 9 - 1 - 8 ≡ k = omega arith in
    let low : k + 9 - 1 - 3 ≡ k + 5 = omega arith in rw (e, high, low) (ground arith)

small_power : (k : ℕ) → k < 32 → 2 ^ (k + 8) < 2 ^ 40
small_power k h =
    let up : 2 ^ (k + 8) ≤ 2 ^ 39 = pow-le-pow_right {n = 2} (omega arith) {j = 39} (omega arith) in
    omega arith

decode_rcv_window_large :
    (k s : ℕ)
    → k * 8 + s + 2 < 256
    → s < 8
    → decode_rcv_window (k * 8 + s + 2) ≡ (s + 8) * 2 ^ (k + 5)
unfolding decode_rcv_window
decode_rcv_window_large k s h lt =
    let step : (k * 8 + s + 2 - 2) % 8 ≡ s = omega arith in
    let high : (k * 8 + s + 2 - 2) / 8 ≡ k = omega arith in
    let n0 : ((k * 8 + s + 2) == 0) ≡ false = ground arith in
    let n1 : ((k * 8 + s + 2) == 1) ≡ false = ground arith in
    let u = 2 ^ (k + 5) in
    let small = small_power k (omega arith) in
    let units = eight_units k in
    let base : 8 * u % 2 ^ 64 ≡ 8 * u = omega arith in
    let unit : 8 * u / 8 ≡ u = omega arith in
    let bound : s * u ≤ 8 * u = grind arith in
    rw (n0, n1, high, step, units, base, unit) (omega arith)

-- The largest window that a code can stand for: 832 GiB, code 255.
abbrev pub max_window : ℕ
max_window = 13 * 2 ^ 36

unit_below : (k j : ℕ) → k ≤ j → 2 ^ k ≤ 2 ^ j
unit_below k j h = pow-le-pow_right {n = 2} (omega arith) h

code_fits : (k s x : ℕ) → s < 8 → (s + 8) * 2 ^ (k + 5) ≤ x → x < max_window → k * 8 + s + 2 < 255
code_fits k s x lt lo hi = elim (dec_le 32 k) [
  | yes h ↦
      let up = unit_below 37 (k + 5) (omega arith) in
      let eight : 8 * 2 ^ (k + 5) ≤ (s + 8) * 2 ^ (k + 5) = grind arith in absurd (omega arith)
  | no h ↦ elim (ℕ_discrete k 31) [
    | yes e ↦ let at_top : (s + 8) * 2 ^ 36 ≤ x = rw e at lo in omega arith
    | no n ↦ omega arith
  ]
]

code_saturates :
    (k s x : ℕ) → s < 8 → x < (s + 9) * 2 ^ (k + 5) → max_window ≤ x → 255 ≤ k * 8 + s + 2
code_saturates k s x lt hi lo = elim (dec_le 32 k) [
  | yes h ↦ omega arith
  | no h ↦ elim (ℕ_discrete k 31) [
    | yes e ↦ let at_top : x < (s + 9) * 2 ^ 36 = rw e at hi in omega arith
    | no n ↦
        let up = unit_below (k + 5) 35 (omega arith) in
        let sixteen : (s + 9) * 2 ^ (k + 5) ≤ 16 * 2 ^ (k + 5) = grind arith in absurd (omega arith)
  ]
]

eight_ninths : (s u x : ℕ) → x < (s + 9) * u → 8 * x < 9 * ((s + 8) * u)
eight_ninths s u x h = omega arith

small_code : (x : ℕ) → 0 < x → x < 256 → encode_rcv_window x ≡ 1
unfolding encode_rcv_window
small_code x pos small =
    let n0 : (x == 0) ≡ false = ground arith in
    let n1 : leb x 255 ≡ true = ground arith in rw (n0, n1)

large_window :
    (x : ℕ)
    → 256 ≤ x
    → x < 2 ^ 64
    → let d = decode_rcv_window (encode_rcv_window x) in
      (x < max_window → (d ≤ x) × (8 * x < 9 * d)) × (max_window ≤ x → d ≡ max_window)
large_window x big fits =
    let (k, e, lo, hi, f) = leading x big fits in
    let u = 2 ^ (k + 5) in
    let two : 2 ^ suc (k + 8) ≡ 16 * u = omega (arith, pow-suc 2 (k + 8), eight_units k) in
    let positive = unit_below 0 (k + 5) (omega arith) in
    let (s_lt, below, above) =
      steps u x (omega arith) (omega (arith, eight_units k)) (omega arith) in
    let s = x / u % 8 in
    let code = encode_rcv_window_large x k big e in
    (
      λ inside.
          let small = code_fits k s x s_lt below inside in
          let plain : min 255 (k * 8 + s + 2) ≡ k * 8 + s + 2 = omega arith in
          rw (code, plain, decode_rcv_window_large k s (omega arith) s_lt)
            (below, eight_ninths s u x above),
      λ outside.
          let large = code_saturates k s x s_lt above outside in
          let full : min 255 (k * 8 + s + 2) ≡ 255 = omega arith in
          rw (code, full) (unfold decode_rcv_window in refl),
    )

-- What the peer may read for an advertised window of `x` bytes: 0 for 0, 128 for 1 to 255, from 256
-- up to 832 GiB a value not above `x` that is more than 8/9 of it, and 832 GiB from there on.
abbrev pub IsReadWindow : ℕ → ℕ → Type 0
IsReadWindow x d =
    if x == 0
    then d ≡ 0
    else if ltb x 256
    then d ≡ 128
    else if ltb x max_window
    then (d ≤ x) × (8 * x < 9 * d)
    else d ≡ max_window

-- The window that the peer reads for an advertised window `x`, any uint64, is 0 for 0, 128 for 1 to
-- 255, from 256 up to 832 GiB at most `x` and more than 8/9 of it, and 832 GiB from there on.
pub decode_rcv_window-encode_rcv_window :
    (x : ℕ) → x < 2 ^ 64 → IsReadWindow x (decode_rcv_window (encode_rcv_window x))
decode_rcv_window-encode_rcv_window x fits =
    if_elim (λ (T : Type 0). T) (x == 0)
      (λ e. rw ((==_iff x 0).0 e) (unfold encode_rcv_window decode_rcv_window in refl))
      (λ some_bytes.
        if_elim (λ (T : Type 0). T) (ltb x 256)
          (λ small.
            rw (small_code x (ground arith) (ground arith)) (unfold decode_rcv_window in refl))
          (λ big.
            if_elim (λ (T : Type 0). T) (ltb x max_window)
              (λ below. (large_window x (ground arith) fits).0 (ground arith))
              (λ above. (large_window x (ground arith) fits).1 (ground arith))))

-- The codes below `n` come back; evaluated for all of them.
codes_return : ℕ → Bool
codes_return zero = true
codes_return (suc c) =
    if encode_rcv_window (decode_rcv_window c) == c then codes_return c else false

code_returns :
    (n c : ℕ)
    → codes_return n ≡ true
    → c < n
    → (encode_rcv_window (decode_rcv_window c) == c) ≡ true
unfolding codes_return
code_returns zero c h lt = absurd (omega arith)
code_returns (suc n) c h lt = ground (arith, code_returns n c)

code_table : codes_return 256 ≡ true
unfolding codes_return encode_rcv_window decode_rcv_window bits_len
code_table = refl

-- Each of the 256 codes is the code of the window that it stands for, so no two stand for one.
pub encode_rcv_window-decode_rcv_window :
    (c : ℕ) → c < 256 → encode_rcv_window (decode_rcv_window c) ≡ c
encode_rcv_window-decode_rcv_window c h =
    (==_iff (encode_rcv_window (decode_rcv_window c)) c).0 (code_returns 256 c code_table h)
