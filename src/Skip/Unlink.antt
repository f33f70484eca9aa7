-- ===== src/Skip/Unlink.antt =====
-- About the loop of `Remove` of sortedmap.go over the levels: what it writes.
use qotp.Base.{
  ℕ, zero, suc, ◌+◌, ◌≤◌, ◌<◌, ◌≡◌, ◌≢◌, refl, sym, ap, ◌∙◌, arith, Option, some, true, false, ltb,
  ◌==◌, ==_self, ==_ne, Bool-cases, inl, inr, lt→ltb,
}
use qotp.Skip.{Nodes, done, update_at, is_at, unlink, unlink_if, unlink_levels, ◌>>=◌}

-- What the loop of `Remove` leaves: below level `h`, where `update[j]` led to the target, it is
-- led past it.
pub record Unlinked (target : ℕ) (at : ℕ → ℕ) (next : ℕ → ℕ → Option ℕ) (i h : ℕ)
    (next' : ℕ → ℕ → Option ℕ) : Type 0 where
  pub changed : (j : ℕ) → i ≤ j → j < h → next' (at j) j ≡ next target j
  pub kept : (b j : ℕ) → b ≢ at j → next' b j ≡ next b j
  pub below : (b j : ℕ) → j < i → next' b j ≡ next b j
  pub above : (b j : ℕ) → h ≤ j → next' b j ≡ next b j

abbrev cut : ℕ → ℕ → ℕ → (ℕ → ℕ → Option ℕ) → ℕ → ℕ → Option ℕ
cut target a i next = update_at a (update_at i (next target i) (next a)) next

module _ (target a i : ℕ) (next : ℕ → ℕ → Option ℕ) where
  cut_at : cut target a i next a i ≡ next target i
  cut_at = rw (==_self a, ==_self i) refl

  cut_node : (b j : ℕ) → b ≢ a → cut target a i next b j ≡ next b j
  cut_node b j ne = rw (==_ne b a ne) refl

  cut_level : (b j : ℕ) → j ≢ i → cut target a i next b j ≡ next b j
  cut_level b j other = elim (Bool-cases (b == a)) [
    | inl e ↦ let z : b ≡ a = ground arith in rw (e, z, ==_ne j i other) refl
    | inr e ↦ rw e refl
  ]

module _ {ℓ} {V : Type ℓ} where
  unlink-hit :
      (i target a : ℕ) (s : Nodes V)
      → i < s.levels a
      → i < s.levels target
      → is_at target (s.next a i) ≡ true
      → unlink i target a s ≡ done (record s { next = cut target a i s.next })
  unlink-hit i target a s lt lt' on = rw (lt→ltb i (s.levels a) lt) (
      ap (λ b. unlink_if b i target a s) on
      ∙ rw (lt→ltb i (s.levels target) lt') (rw (lt→ltb i (s.levels a) lt) refl))

  unlink-miss :
      (i target a : ℕ) (s : Nodes V)
      → i < s.levels a
      → is_at target (s.next a i) ≡ false
      → unlink i target a s ≡ done s
  unlink-miss i target a s lt off =
      rw (lt→ltb i (s.levels a) lt) (ap (λ b. unlink_if b i target a s) off)

  pub unlink_levels_lem :
      (count i top h target : ℕ) (at : ℕ → ℕ) (update : ℕ → Option ℕ) (s : Nodes V)
      → i + count ≡ top
      → h ≤ top
      → ((j : ℕ) → j < top → update j ≡ some (at j))
      → ((j : ℕ) → j < top → j < s.levels (at j))
      → ((j : ℕ) → at j ≢ target)
      → s.levels target ≡ h
      → ((j : ℕ) → i ≤ j → j < h → s.next (at j) j ≡ some target)
      → ((j : ℕ) → i ≤ j → h ≤ j → j < top → is_at target (s.next (at j) j) ≡ false)
      → (next' : ℕ → ℕ → Option ℕ) × (unlink_levels count i target update s
          ≡ done (record s { next = next' }))
        × Unlinked target at s.next i h next'
  unfolding unlink_levels
  unlink_levels_lem zero i top h target at update s e most known tall ne level hits misses = (
    s.next,
    refl,
    record {
      changed = λ j le lt. absurd (omega arith);
      kept = λ b j other. refl;
      below = λ b j lt. refl;
      above = λ b j le. refl;
    },
  )
  unlink_levels_lem (suc count) i top h target at update s e most known tall ne level hits misses =
      let rest = λ (s' : Nodes V). unlink_levels count (i + 1) target update s' in
      elim (Bool-cases (ltb i h)) [
        | inl l ↦
            let r = cut target (at i) i s.next in
            let on : is_at target (s.next (at i) i) ≡ true =
              ap (is_at target) (hits i (omega arith) (ground arith)) ∙ ==_self target in
            let (next', runs, w) =
              unlink_levels_lem count (i + 1) top h target at update (record s { next = r })
                (omega arith) most known tall ne level
                (λ j le lt.
                  cut_level target (at i) i s.next (at j) j (λ z. omega arith)
                  ∙ hits j (omega arith) lt)
                (λ j le ge lt.
                  ap (is_at target) (cut_level target (at i) i s.next (at j) j (λ z. omega arith))
                  ∙ misses j (omega arith) ge lt) in
            (
              next',
              rw (known i (omega arith)) (
                  ap (λ m. m >>= rest)
                    (unlink-hit i target (at i) s (tall i (omega arith)) (ground arith) on)
                  ∙ runs),
              record {
                changed = λ j le lt. elim (Bool-cases (j == i)) [
                  | inl q ↦
                      let z : j ≡ i = ground arith in
                      w.below (at j) j (omega arith) ∙ rw z (cut_at target (at i) i s.next)
                  | inr q ↦
                      w.changed j (ground arith) lt
                      ∙ cut_level target (at i) i s.next target j (λ z. ground arith)
                ];
                kept = λ b j other. w.kept b j other ∙ elim (Bool-cases (j == i)) [
                  | inl q ↦
                      let z : j ≡ i = ground arith in
                      cut_node target (at i) i s.next b j (λ t. other (t ∙ ap at (sym z)))
                  | inr q ↦ cut_level target (at i) i s.next b j (λ z. ground arith)
                ];
                below = λ b j lt.
                    w.below b j (omega arith)
                    ∙ cut_level target (at i) i s.next b j (λ z. omega arith);
                above = λ b j le.
                    w.above b j le ∙ cut_level target (at i) i s.next b j (λ z. ground arith);
              },
            )
        | inr l ↦
            let miss = misses i (omega arith) (ground arith) (omega arith) in
            let (next', runs, w) =
              unlink_levels_lem count (i + 1) top h target at update s (omega arith) most known tall
                ne level (λ j le lt. hits j (omega arith) lt)
                (λ j le ge lt. misses j (omega arith) ge lt) in
            (
              next',
              rw (known i (omega arith)) (
                  ap (λ m. m >>= rest) (unlink-miss i target (at i) s (tall i (omega arith)) miss)
                  ∙ runs),
              record {
                changed = λ j le lt. w.changed j (ground arith) lt;
                kept = w.kept;
                below = λ b j lt. w.below b j (omega arith);
                above = w.above;
              },
            )
      ]
