-- ===== src/Skip/Rewire.antt =====
-- The levels of a skip list when one node comes or goes: the part `was` of the list behind the
-- nodes of `lo` becomes `now`, and at each level below `h` the last node of `lo` is led to `to`.
use qotp.Base.{
  ℕ, ◌≤◌, ◌<◌, ◌≡◌, ◌≢◌, refl, sym, ◌∙◌, arith, Option, true, false, List, [], ◌∷◌, ◌++◌,
  if◌then◌else◌, ltb, ◌==◌, ==_self, ==_ne, ==_iff, Bool-cases, inl, inr,
}
use mathlib.Core.Path.{subst}
use qotp.Skip.Chain.{Cell, first, last_at, last_at-ne, Levels, Leads, Nexts, Tall, Off, Apart}

module _ {ℓ} {V : Type ℓ} where
  -- What the last node at a level leads to, and that it has the level.
  pub next-last_at :
      (next : ℕ → ℕ → Option ℕ) (i p : ℕ) (lo hi : List (Cell V))
      → next p i ≡ first i (lo ++ hi)
      → Nexts next (lo ++ hi)
      → next (last_at i p lo) i ≡ first i hi
  next-last_at next i p [] hi h nexts = h
  next-last_at next i p ((a, n, k, v) ∷ lo) hi h (lead, nexts) = elim (Bool-cases (ltb i n)) [
    | inl e ↦ rw e (next-last_at next i a lo hi (lead i (ground arith)) nexts)
    | inr e ↦ rw e (next-last_at next i p lo hi (rw e at h) nexts)
  ]

  pub Levels-last_at :
      (levels : ℕ → ℕ) (i p : ℕ) (lo : List (Cell V))
      → i < levels p
      → Levels levels lo
      → i < levels (last_at i p lo)
  Levels-last_at levels i p [] lt h = lt
  Levels-last_at levels i p ((a, n, k, v) ∷ lo) lt (level, h) = elim (Bool-cases (ltb i n)) [
    | inl e ↦ let lt' : i < n = ground arith in rw e (Levels-last_at levels i a lo (omega arith) h)
    | inr e ↦ rw e (Levels-last_at levels i p lo lt h)
  ]

  pub last_at-Tall : (top i p : ℕ) (lo : List (Cell V)) → top ≤ i → Tall top lo → last_at i p lo ≡ p
  last_at-Tall top i p [] le tall = refl
  last_at-Tall top i p ((a, n, k, v) ∷ lo) le (pos, cap, tall) =
      let e : ltb i n ≡ false = ground arith in rw e (last_at-Tall top i p lo le tall)

  pub Off-last_at :
      (i p : ℕ) (lo hi : List (Cell V)) → Off p hi → Apart (lo ++ hi) → Off (last_at i p lo) hi
  Off-last_at i p [] hi off apart = off
  Off-last_at i p ((a, n, k, v) ∷ lo) hi off (off', apart) = elim (Bool-cases (ltb i n)) [
    | inl e ↦ rw e (Off-last_at i a lo hi (behind a lo hi off') apart)
    | inr e ↦ rw e (Off-last_at i p lo hi off apart)
  ]
    where
      behind : (a : ℕ) (lo hi : List (Cell V)) → Off a (lo ++ hi) → Off a hi
      behind a [] hi off = off
      behind a (c ∷ lo) hi (ne, off) = behind a lo hi off

module _ {ℓ} {V : Type ℓ} (was now : List (Cell V)) (h : ℕ) (to : ℕ → Option ℕ)
    (turn : (i : ℕ) → first i now ≡ (if ltb i h then to i else first i was)) where
  -- The first node at a level, seen from a node `p` in front of `lo`.
  first-turn :
      (i p : ℕ) (lo : List (Cell V))
      → Off p lo
      → first i (lo ++ now) ≡ (
          if ltb i h
          then if last_at i p lo == p then to i else first i (lo ++ was)
          else first i (lo ++ was))
  first-turn i p [] off = turn i ∙ rw (==_self p) refl
  first-turn i p ((a, n, k, v) ∷ lo) (ne, off) = elim (Bool-cases (ltb i n)) [
    | inl e ↦ rw e (
        let other = ==_ne (last_at i a lo) p (last_at-ne p i a lo ne off) in
        rw other (elim (Bool-cases (ltb i h)) [ inl l ↦ rw l refl | inr l ↦ rw l refl ]))
    | inr e ↦ rw e (first-turn i p lo off)
  ]

  module _ (x : ℕ) (at : ℕ → ℕ) (next next' : ℕ → ℕ → Option ℕ)
      (changed : (i : ℕ) → i < h → next' (at i) i ≡ to i)
      (kept : (b i : ℕ) → b ≢ x → b ≢ at i → next' b i ≡ next b i)
      (above : (b i : ℕ) → b ≢ x → h ≤ i → next' b i ≡ next b i) where
    -- A node in front of them is led right too.
    pub Leads-turn :
        (p n : ℕ) (lo : List (Cell V))
        → p ≢ x
        → ((i : ℕ) → i < n → at i ≡ last_at i p lo)
        → Off p lo
        → Leads next p n (lo ++ was)
        → Leads next' p n (lo ++ now)
    Leads-turn p n lo ne here off lead i lt = elim (Bool-cases (ltb i h)) [
      | inr e ↦ above p i ne (ground arith) ∙ lead i lt ∙ sym (first-turn i p lo off ∙ rw e refl)
      | inl e ↦ elim (Bool-cases (last_at i p lo == p)) [
        | inl l ↦
            let at_p : at i ≡ p = here i lt ∙ (==_iff (last_at i p lo) p).0 l in
            subst (λ q. next' q i ≡ to i) at_p (changed i (ground arith))
            ∙ sym (first-turn i p lo off ∙ rw (e, l) refl)
        | inr l ↦
            let other : last_at i p lo ≢ p = λ z. ground arith in
            kept p i ne (λ z. other (sym (z ∙ here i lt)))
            ∙ lead i lt
            ∙ sym (first-turn i p lo off ∙ rw (e, l) refl)
      ]
    ]

    -- Every node of `lo` is led right after the change; `from i` is the last node at level `i` in
    -- front of them.
    pub Nexts-turn :
        (lo : List (Cell V)) (from : ℕ → ℕ)
        → ((i : ℕ) → at i ≡ last_at i (from i) lo)
        → Off x lo
        → Apart lo
        → Nexts next (lo ++ was)
        → Nexts next' now
        → Nexts next' (lo ++ now)
    Nexts-turn [] from here off apart nexts done = done
    Nexts-turn ((a, n, k, v) ∷ lo) from here (ne, off) (off', apart) (lead, nexts) done =
        let from' : ℕ → ℕ = λ i. if ltb i n then a else from i in
        let here' : (i : ℕ) → at i ≡ last_at i (from' i) lo = λ i. elim (Bool-cases (ltb i n)) [
          | inl e ↦ rw e (rw e at (here i))
          | inr e ↦ rw e (rw e at (here i))
        ] in
        let own : (i : ℕ) → i < n → at i ≡ last_at i a lo =
          λ i lt. let e : ltb i n ≡ true = ground arith in rw e at (here i) in
        (Leads-turn a n lo ne own off' lead, Nexts-turn lo from' here' off apart nexts done)

    -- The nodes behind keep their links.
    pub Nexts-keep :
        (cells : List (Cell V))
        → ((i : ℕ) → Off (at i) cells)
        → Off x cells
        → Nexts next cells
        → Nexts next' cells
    Nexts-keep [] away off nexts = tt
    Nexts-keep ((a, n, k, v) ∷ cells) away (ne, off) (lead, nexts) =
        (λ i lt. kept a i ne (away i).0 ∙ lead i lt, Nexts-keep cells (λ i. (away i).1) off nexts)
