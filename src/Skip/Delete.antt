-- ===== src/Skip/Delete.antt =====
-- A node that `Remove` of sortedmap.go takes out of its levels and out of the doubly linked list.
use qotp.Base.{
  ℕ, zero, suc, ◌-◌, ◌≤◌, ◌<◌, ◌≡◌, ◌≢◌, refl, sym, ap, ◌∙◌, arith, Option, none, some, true, false,
  List, [], ◌∷◌, ◌++◌, if◌then◌else◌, ltb, ◌==◌, ==_ne, Bool-cases, Option-cases, inl, inr, is_some,
  lt→ltb,
}
use qotp.Skip.{Nodes, SortedMap, done, head, tail, max_level, update_at, is_at, lower}
use qotp.Skip.Chain.{
  Cell, front, first, last, last_at, last_at-ne, KeysHeld, Values, Levels, Leads, Nexts, Tall,
  Below, Above, Off, Off-split, Off-join, Apart,
}
use qotp.Skip.Split.{Rising-delete, Apart-delete, Tall-delete, address-delete}
use qotp.Skip.Refinement.{Chained}
use qotp.Skip.Rewire.{next-last_at, Levels-last_at, Off-last_at, Leads-turn, Nexts-turn, Nexts-keep}
use qotp.Skip.Insert.{Apart-parts, Off-last, Nexts-behind, length-insert}
use qotp.Skip.Put.{Levels-split}
use qotp.Skip.Links.{Afters-delete, Prevs-delete}
use qotp.Skip.Unlink.{Unlinked}

module _ {ℓ} {V : Type ℓ} where
  Tall-lower :
      (i : ℕ) (cells : List (Cell V)) → first i cells ≡ none → Tall (suc i) cells → Tall i cells
  Tall-lower i [] h tall = tt
  Tall-lower i ((a, n, k, v) ∷ cells) h (pos, most, tall) = elim (Bool-cases (ltb i n)) [
    | inl e ↦
        let found : some a ≡ none = rw e at h in
        let bad : true ≡ false = ap is_some found in absurd (ground arith)
    | inr e ↦ (pos, ground arith, Tall-lower i cells (rw e at h) tall)
  ]

  -- The level falls to one that the nodes still fit.
  pub lower_lem :
      (s : Nodes V) (level : ℕ) (cells : List (Cell V))
      → s.levels head ≡ max_level
      → Leads s.next head max_level cells
      → 0 < level
      → level ≤ max_level
      → Tall level cells
      → (top : ℕ) × (lower s level ≡ done top) × (0 < top) × (top ≤ max_level) × Tall top cells
  unfolding lower
  lower_lem s zero cells height lead pos most tall = absurd (omega arith)
  lower_lem s (suc zero) cells height lead pos most tall = (1, refl, omega arith, most, tall)
  lower_lem s (suc (suc n)) cells height lead pos most tall =
      let inside = lt→ltb (suc n) max_level (omega arith) in
      let nx = lead (suc n) (omega arith) in
      elim (Option-cases (first (suc n) cells)) [
        | inl absent ↦
            let (top, runs, pos', most', tall') =
              lower_lem s (suc n) cells height lead (omega arith) (omega arith)
                (Tall-lower (suc n) cells absent tall) in
            (top, rw (height, inside, nx, absent) runs, pos', most', tall')
        | inr (b, found) ↦
            (suc (suc n), rw (height, inside, nx, found) refl, omega arith, most, tall)
      ]

  Keys-delete :
      (key : ℕ → ℕ) (c : Cell V) (lo hi : List (Cell V))
      → KeysHeld key (lo ++ (c ∷ hi))
      → KeysHeld key (lo ++ hi)
  Keys-delete key c [] hi (w, ws) = ws
  Keys-delete key c (d ∷ lo) hi (w, ws) = (w, Keys-delete key c lo hi ws)

  Values-delete :
      (value : ℕ → Option V) (c : Cell V) (lo hi : List (Cell V))
      → Values value (lo ++ (c ∷ hi))
      → Values value (lo ++ hi)
  Values-delete value c [] hi (w, ws) = ws
  Values-delete value c (d ∷ lo) hi (w, ws) = (w, Values-delete value c lo hi ws)

  Levels-delete :
      (levels : ℕ → ℕ) (a n k : ℕ) (v : V) (lo hi : List (Cell V))
      → Levels levels (lo ++ ((a, n, k, v) ∷ hi))
      → (levels a ≡ n) × Levels levels (lo ++ hi)
  Levels-delete levels a n k v [] hi w = w
  Levels-delete levels a n k v (d ∷ lo) hi (w, ws) =
      let (here, rest) = Levels-delete levels a n k v lo hi ws in (here, (w, rest))

  is_at-first : (a i : ℕ) (cells : List (Cell V)) → Off a cells → is_at a (first i cells) ≡ false
  is_at-first a i [] off = refl
  is_at-first a i ((b, n, k, v) ∷ cells) (ne, off) = elim (Bool-cases (ltb i n)) [
    | inl e ↦ rw e (==_ne b a ne)
    | inr e ↦ rw e (is_at-first a i cells off)
  ]

  module _ (m : SortedMap V) (k a n : ℕ) (u : V) (lo hi : List (Cell V))
      (h : Chained m (lo ++ ((a, n, k, u) ∷ hi))) (below : Below k lo) (above : Above k hi) where
    abbrev at : ℕ → ℕ
    at j = last_at j head lo

    abbrev cell : Cell V
    cell = (a, n, k, u)

    pub own-Off : Off a lo × Off a hi × Apart (lo ++ hi)
    own-Off = Apart-delete a n k u lo hi h.apart

    head-Off : Off head lo × Off head (cell ∷ hi)
    head-Off = Off-split head lo (cell ∷ hi) h.off_head

    tail-Off : Off tail lo × Off tail (cell ∷ hi)
    tail-Off = Off-split tail lo (cell ∷ hi) h.off_tail

    pub head-ne : head ≢ a
    head-ne e = head-Off.1.0 (sym e)

    pub at-ne : (j : ℕ) → at j ≢ a
    at-ne j = last_at-ne a j head lo head-ne own-Off.0

    pub own_levels : m.nodes.levels a ≡ n
    own_levels = (Levels-delete m.nodes.levels a n k u lo hi h.levels).0

    pub own-Tall : (0 < n) × (n ≤ m.level) × Tall m.level (lo ++ hi)
    own-Tall = Tall-delete m.level a n k u lo hi h.tall

    own-Nexts : Nexts m.nodes.next (cell ∷ hi)
    own-Nexts = Nexts-behind m.nodes.next lo (cell ∷ hi) h.nexts

    pub led : (j : ℕ) → j < max_level → m.nodes.next (at j) j ≡ first j (cell ∷ hi)
    led j lt = next-last_at m.nodes.next j head lo (cell ∷ hi) (h.leads j lt) h.nexts

    pub hits_lem : (j : ℕ) → j < n → m.nodes.next (at j) j ≡ some a
    hits_lem j lt = led j (omega (arith, own-Tall.1, h.level_cap)) ∙ rw (lt→ltb j n lt) refl

    pub misses_lem : (j : ℕ) → n ≤ j → j < m.level → is_at a (m.nodes.next (at j) j) ≡ false
    misses_lem j le lt =
        let e : ltb j n ≡ false = ground arith in
        ap (is_at a) (led j (omega (arith, h.level_cap)) ∙ rw e refl) ∙ is_at-first a j hi own-Off.1

    pub reach_lem : (j : ℕ) → j < m.level → j < m.nodes.levels (at j)
    reach_lem j lt =
        Levels-last_at m.nodes.levels j head lo (omega (arith, h.head_levels, h.level_cap))
          (Levels-split m.nodes.levels lo (cell ∷ hi) h.levels)

    module _ (next' : ℕ → ℕ → Option ℕ) (w : Unlinked a at m.nodes.next 0 n next') where
      turn_lem : (i : ℕ) → first i hi ≡ (if ltb i n then first i hi else first i (cell ∷ hi))
      turn_lem i = elim (Bool-cases (ltb i n)) [ inl e ↦ rw e refl | inr e ↦ rw e refl ]

      changed_lem : (i : ℕ) → i < n → next' (at i) i ≡ first i hi
      changed_lem i lt = w.changed i (omega arith) lt ∙ own-Nexts.0 i lt

      kept_lem : (b i : ℕ) → b ≢ a → b ≢ at i → next' b i ≡ m.nodes.next b i
      kept_lem b i ne other = w.kept b i other

      above_lem : (b i : ℕ) → b ≢ a → n ≤ i → next' b i ≡ m.nodes.next b i
      above_lem b i ne le = w.above b i le

      hi-Nexts : Nexts next' hi
      hi-Nexts =
          Nexts-keep (cell ∷ hi) hi n (λ i. first i hi) turn_lem a at m.nodes.next next' changed_lem
            kept_lem above_lem hi (λ i. (Off-last_at i head lo (cell ∷ hi) head-Off.1 h.apart).1)
            own-Off.1 own-Nexts.1

      lo-Apart : Apart lo × Apart (cell ∷ hi)
      lo-Apart = let (l, r, f) = Apart-parts lo (cell ∷ hi) tail-Off.0 h.apart in (l, r)

      left-Nexts : Nexts next' (lo ++ hi)
      left-Nexts =
          Nexts-turn (cell ∷ hi) hi n (λ i. first i hi) turn_lem a at m.nodes.next next' changed_lem
            kept_lem above_lem lo (λ i. head) (λ i. refl) own-Off.0 lo-Apart.0 h.nexts hi-Nexts

      pub left-Leads : Leads next' head max_level (lo ++ hi)
      left-Leads =
          Leads-turn (cell ∷ hi) hi n (λ i. first i hi) turn_lem a at m.nodes.next next' changed_lem
            kept_lem above_lem head max_level lo head-ne (λ i lt. refl) head-Off.0 h.leads

      pub removed-Chained :
          (q f top : ℕ)
          → q ≡ last head lo
          → f ≡ front hi
          → 0 < top
          → top ≤ max_level
          → Tall top (lo ++ hi)
          → Chained
              (record m {
                items = update_at k none m.items;
                nodes = record m.nodes {
                  next = next';
                  after = update_at q f m.nodes.after;
                  prev = update_at f q m.nodes.prev;
                };
                level = top;
                size = m.size - 1;
              })
              (lo ++ hi)
      removed-Chained q f top eq ef pos most tall =
          rw (eq, ef)
            (record {
              keys = Keys-delete m.nodes.key cell lo hi h.keys;
              values = Values-delete m.nodes.value cell lo hi h.values;
              levels = (Levels-delete m.nodes.levels a n k u lo hi h.levels).1;
              head_levels = h.head_levels;
              afters =
                  Afters-delete a n k u m.nodes.after head lo hi head-Off.0 lo-Apart.0
                    (Off-last head lo (cell ∷ hi) head-Off.1 h.apart).1 h.afters;
              prevs =
                  Prevs-delete a n k u m.nodes.prev head lo hi
                    (Apart-parts lo hi tail-Off.0 own-Off.2).2 tail-Off.1.1 lo-Apart.1.1 h.prevs;
              leads = left-Leads;
              nexts = left-Nexts;
              items = λ j.
                  ap (λ o. if j == k then none else o) (h.items j)
                  ∙ sym (address-delete j a n k u lo hi below above);
              apart = own-Off.2;
              rising = Rising-delete a n k u lo hi h.rising;
              off_head = Off-join head lo hi head-Off.0 head-Off.1.1;
              off_tail = Off-join tail lo hi tail-Off.0 tail-Off.1.1;
              free = λ b le.
                  let (l, r) = Off-split b lo (cell ∷ hi) (h.free b le) in Off-join b lo hi l r.1;
              low = h.low;
              size = omega (arith, h.size, length-insert cell lo hi);
              tall = tall;
              level_pos = pos;
              level_cap = most;
            })
