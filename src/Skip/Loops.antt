-- ===== src/Skip/Loops.antt =====
-- About the loops of `Put` of sortedmap.go over the levels: what they write.
use qotp.Base.{
  ℕ, zero, suc, ◌+◌, ◌≤◌, ◌<◌, ◌≡◌, ◌≢◌, refl, sym, ap, ◌∙◌, arith, Option, some, ◌==◌, ==_self,
  ==_ne, Bool-cases, inl, inr, lt→ltb,
}
use qotp.Skip.{Nodes, done, head, max_level, update_at, raise, link_levels}

pub raise_lem :
    (count i : ℕ) (update : ℕ → Option ℕ)
    → i + count ≤ max_level
    → (found : ℕ → Option ℕ) × (raise count i update ≡ done found)
      × ((j : ℕ) → j < i → found j ≡ update j)
      × ((j : ℕ) → i ≤ j → j < i + count → found j ≡ some head)
unfolding raise
raise_lem zero i update cap = (update, refl, (λ j lt. refl), λ j le lt. absurd (omega arith))
raise_lem (suc count) i update cap =
    let (found, runs, below, inside) =
      raise_lem count (i + 1) (update_at i (some head) update) (omega arith) in
    (
      found,
      rw (lt→ltb i max_level (omega arith)) runs,
      (λ j lt. below j (omega arith) ∙ rw (==_ne j i (λ z. omega arith)) refl),
      λ j le lt. elim (Bool-cases (j == i)) [
        | inl e ↦ below j (ground arith) ∙ rw e refl
        | inr e ↦ inside j (ground arith) (omega arith)
      ],
    )

-- What the loop from level `i` up to `top` leaves, where `at j` is `update[j]`: it leads that
-- node to the new one, and the new one to where that node led.
pub record Linked (new : ℕ) (at : ℕ → ℕ) (next : ℕ → ℕ → Option ℕ) (i top : ℕ)
    (next' : ℕ → ℕ → Option ℕ) : Type 0 where
  pub fresh : (j : ℕ) → i ≤ j → j < top → next' new j ≡ next (at j) j
  pub changed : (j : ℕ) → i ≤ j → j < top → next' (at j) j ≡ some new
  pub kept : (b j : ℕ) → b ≢ new → b ≢ at j → next' b j ≡ next b j
  pub below : (b j : ℕ) → j < i → next' b j ≡ next b j
  pub above : (b j : ℕ) → top ≤ j → next' b j ≡ next b j

-- One round of it.
abbrev round : ℕ → ℕ → ℕ → (ℕ → ℕ → Option ℕ) → ℕ → ℕ → Option ℕ
round new a i next =
    let next1 = update_at new (update_at i (next a i) (next new)) next in
    update_at a (update_at i (some new) (next1 a)) next1

module _ (new a i : ℕ) (next : ℕ → ℕ → Option ℕ) (ne : a ≢ new) where
  round_fresh : round new a i next new i ≡ next a i
  round_fresh = rw (==_ne new a (λ e. ne (sym e)), ==_self new, ==_self i) refl

  round_at : round new a i next a i ≡ some new
  round_at = rw (==_self a, ==_self i) refl

  round_node : (b j : ℕ) → b ≢ new → b ≢ a → round new a i next b j ≡ next b j
  round_node b j ne' ne'' = rw (==_ne b a ne'', ==_ne b new ne') refl

  round_level : (b j : ℕ) → j ≢ i → round new a i next b j ≡ next b j
  round_level b j other = elim (Bool-cases (b == a)) [
    | inl e ↦ let z : b ≡ a = ground arith in rw (e, z, ==_ne a new ne, ==_ne j i other) refl
    | inr e ↦ elim (Bool-cases (b == new)) [
      | inl l ↦ let z : b ≡ new = ground arith in rw (e, l, z, ==_ne j i other) refl
      | inr l ↦ rw (e, l) refl
    ]
  ]

module _ {ℓ} {V : Type ℓ} where
  pub link_levels_lem :
      (count i top new : ℕ) (at : ℕ → ℕ) (update : ℕ → Option ℕ) (s : Nodes V)
      → i + count ≡ top
      → ((j : ℕ) → j < top → update j ≡ some (at j))
      → ((j : ℕ) → j < top → j < s.levels (at j))
      → ((j : ℕ) → at j ≢ new)
      → top ≤ s.levels new
      → (next' : ℕ → ℕ → Option ℕ) × (link_levels count i new update s
          ≡ done (record s { next = next' }))
        × Linked new at s.next i top next'
  unfolding link_levels
  link_levels_lem zero i top new at update s e known tall ne high = (
    s.next,
    refl,
    record {
      fresh = λ j le lt. absurd (omega arith);
      changed = λ j le lt. absurd (omega arith);
      kept = λ b j ne' other. refl;
      below = λ b j lt. refl;
      above = λ b j le. refl;
    },
  )
  link_levels_lem (suc count) i top new at update s e known tall ne high =
      let r = round new (at i) i s.next in
      let (next', runs, w) =
        link_levels_lem count (i + 1) top new at update (record s { next = r }) (omega arith) known
          tall ne high in
      (
        next',
        rw
            (
              known i (omega arith),
              lt→ltb i (s.levels (at i)) (tall i (omega arith)),
              lt→ltb i (s.levels new) (omega arith),
            )
            (rw (lt→ltb i (s.levels (at i)) (tall i (omega arith))) runs),
        record {
          fresh = λ j le lt. elim (Bool-cases (j == i)) [
            | inl q ↦
                let z : j ≡ i = ground arith in
                w.below new j (omega arith) ∙ rw z (round_fresh new (at i) i s.next (ne i))
            | inr q ↦
                w.fresh j (ground arith) lt
                ∙ round_level new (at i) i s.next (ne i) (at j) j (λ z. ground arith)
          ];
          changed = λ j le lt. elim (Bool-cases (j == i)) [
            | inl q ↦
                let z : j ≡ i = ground arith in
                w.below (at j) j (omega arith) ∙ rw z (round_at new (at i) i s.next (ne i))
            | inr q ↦ w.changed j (ground arith) lt
          ];
          kept = λ b j ne' other. w.kept b j ne' other ∙ elim (Bool-cases (j == i)) [
            | inl q ↦
                let z : j ≡ i = ground arith in
                round_node new (at i) i s.next (ne i) b j ne' (λ t. other (t ∙ ap at (sym z)))
            | inr q ↦ round_level new (at i) i s.next (ne i) b j (λ z. ground arith)
          ];
          below = λ b j lt.
              w.below b j (omega arith)
              ∙ round_level new (at i) i s.next (ne i) b j (λ z. omega arith);
          above = λ b j le.
              w.above b j le ∙ round_level new (at i) i s.next (ne i) b j (λ z. omega arith);
        },
      )
