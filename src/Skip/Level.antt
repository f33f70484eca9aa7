-- ===== src/Skip/Level.antt =====
-- About `getNodeLevel` of sortedmap.go.
use native.Mathlib.Nat.{mul_assoc, pow-suc}
use qotp.Base.{
  ℕ, zero, suc, ◌+◌, ◌*◌, ◌/◌, ◌%◌, ◌^◌, ◌≤◌, ◌<◌, ◌≡◌, ◌≢◌, refl, sym, ap, ◌∙◌, arith, min, ◌==◌,
  Bool-cases, inl, inr,
}
use qotp.Skip.{done, level_loop, get_node_level, max_level}

-- The position is `q` times the power of four that the level counts, and `q` has no further
-- factor of four.
abbrev pub IsLevel : ℕ → ℕ → ℕ → Type 0
IsLevel pos start level = (q : ℕ) × (e : ℕ) × (pos ≡ q * 4 ^ e) × (q % 4 ≢ 0) × (level ≡ start + e)

power : (pos q e : ℕ) → pos ≡ pos / 4 * 4 → pos / 4 ≡ q * 4 ^ e → pos ≡ q * 4 ^ suc e
power pos q e whole eq =
    whole ∙ ap (λ n. n * 4) eq ∙ mul_assoc q (4 ^ e) 4 ∙ ap (λ n. q * n) (sym (pow-suc 4 e))

level_loop_lem :
    (fuel pos level : ℕ)
    → 0 < pos
    → pos ≤ fuel
    → (found : ℕ) × (level_loop fuel pos level ≡ done found) × IsLevel pos level found
unfolding level_loop
level_loop_lem zero pos level p h = absurd (omega arith)
level_loop_lem (suc fuel) pos level p h = elim (Bool-cases (pos % 4 == 0)) [
  | inl more ↦
      let (found, runs, (q, e, eq, odd, sum)) =
        level_loop_lem fuel (pos / 4) (level + 1) (ground arith) (ground arith) in
      (found, rw more runs, (q, suc e, power pos q e (ground arith) eq, odd, omega arith))
  | inr stop ↦ (level, rw stop refl, (pos, 0, omega arith, (λ z. ground arith), omega arith))
]

-- `getNodeLevel` returns for every size: the loop ends, and the level is one more than the number
-- of times that four divides the position, cut to the number of levels there are.
pub get_node_level-IsLevel :
    (size : ℕ)
    → (level : ℕ) × (get_node_level size ≡ done (min level max_level)) × IsLevel (size + 1) 1 level
unfolding get_node_level
get_node_level-IsLevel size =
    let (found, runs, level) = level_loop_lem (size + 1) (size + 1) 1 (omega arith) (omega arith) in
    (found, rw runs (ap done (ground arith)), level)
