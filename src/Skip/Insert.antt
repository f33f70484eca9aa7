-- ===== src/Skip/Insert.antt =====
-- A node that `Put` of sortedmap.go puts between those below its key and those above it.
use qotp.Base.{
  ℕ, suc, ◌+◌, ◌≤◌, ◌<◌, ◌≡◌, ◌≢◌, refl, sym, ap, ◌∙◌, arith, Option, some, List, [], ◌∷◌, ◌++◌,
  if◌then◌else◌, ltb, ◌==◌, ==_self, ==_ne, length, if_elim,
}
use qotp.Skip.{Nodes, SortedMap, head, tail, max_level, update_at, allocate}
use qotp.Skip.Chain.{
  Cell, front, front-ne, last, last_at, last_at-ne, KeysHeld, Values, Levels, Leads, Nexts, Tall,
  Below, Above, Off, Off-split, Off-join, Apart, Keys-update_at, Values-update_at, Levels-update_at,
}
use qotp.Skip.Split.{Rising-insert, Apart-insert, Tall-insert, address-insert}
use qotp.Skip.Refinement.{Chained}
use qotp.Skip.Rewire.{next-last_at, Off-last_at, Leads-turn, Nexts-turn, Nexts-keep}
use qotp.Skip.Links.{Afters-insert, Prevs-insert}
use qotp.Skip.Loops.{Linked}

module _ {ℓ} {V : Type ℓ} where
  -- Values at the parts of a chain.
  Keys-insert :
      (key : ℕ → ℕ) (a h k : ℕ) (v : V) (lo hi : List (Cell V))
      → key a ≡ k
      → KeysHeld key (lo ++ hi)
      → KeysHeld key (lo ++ ((a, h, k, v) ∷ hi))
  Keys-insert key a h k v [] hi here keys = (here, keys)
  Keys-insert key a h k v (c ∷ lo) hi here (key', keys) =
      (key', Keys-insert key a h k v lo hi here keys)

  Values-insert :
      (value : ℕ → Option V) (a h k : ℕ) (v : V) (lo hi : List (Cell V))
      → value a ≡ some v
      → Values value (lo ++ hi)
      → Values value (lo ++ ((a, h, k, v) ∷ hi))
  Values-insert value a h k v [] hi here values = (here, values)
  Values-insert value a h k v (c ∷ lo) hi here (value', values) =
      (value', Values-insert value a h k v lo hi here values)

  Levels-insert :
      (levels : ℕ → ℕ) (a h k : ℕ) (v : V) (lo hi : List (Cell V))
      → levels a ≡ h
      → Levels levels (lo ++ hi)
      → Levels levels (lo ++ ((a, h, k, v) ∷ hi))
  Levels-insert levels a h k v [] hi here w = (here, w)
  Levels-insert levels a h k v (c ∷ lo) hi here (w', w) =
      (w', Levels-insert levels a h k v lo hi here w)

  Tall-weaken :
      (top top' : ℕ) (cells : List (Cell V)) → top ≤ top' → Tall top cells → Tall top' cells
  Tall-weaken top top' [] le tall = tt
  Tall-weaken top top' ((a, h, k, v) ∷ cells) le (pos, most, tall) =
      (pos, omega arith, Tall-weaken top top' cells le tall)

  pub Nexts-behind :
      (next : ℕ → ℕ → Option ℕ) (lo hi : List (Cell V)) → Nexts next (lo ++ hi) → Nexts next hi
  Nexts-behind next [] hi w = w
  Nexts-behind next (c ∷ lo) hi (lead, w) = Nexts-behind next lo hi w

  pub Apart-parts :
      (lo hi : List (Cell V))
      → Off tail lo
      → Apart (lo ++ hi)
      → Apart lo × Apart hi × Off (front hi) lo
  Apart-parts [] hi off apart = (tt, apart, tt)
  Apart-parts ((a, h, k, v) ∷ lo) hi (net, off) (away, apart) =
      let (l, r, f) = Apart-parts lo hi off apart in
      let (offl, offr) = Off-split a lo hi away in
      ((offl, l), r, ((λ e. front-ne a hi (λ q. net (sym q)) offr (sym e)), f))

  pub length-insert :
      (c : Cell V) (lo hi : List (Cell V)) → length (lo ++ (c ∷ hi)) ≡ suc (length (lo ++ hi))
  length-insert c [] hi = refl
  length-insert c (d ∷ lo) hi = ap suc (length-insert c lo hi)

  pub Off-last : (p : ℕ) (lo hi : List (Cell V)) → Off p hi → Apart (lo ++ hi) → Off (last p lo) hi
  Off-last p [] hi off apart = off
  Off-last p ((a, h, k, v) ∷ lo) hi off (away, apart) =
      Off-last a lo hi (Off-split a lo hi away).1 apart

  module _ (m : SortedMap V) (k level : ℕ) (v : V) (lo hi : List (Cell V))
      (h : Chained m (lo ++ hi)) (below : Below k lo) (above : Above k hi) (pos : 0 < level)
      (most : level ≤ max_level) where
    abbrev pub at : ℕ → ℕ
    at j = last_at j head lo

    abbrev pub new_cell : Cell V
    new_cell = (m.fresh, level, k, v)

    abbrev pub nodes0 : Nodes V
    nodes0 = allocate m.fresh k v level m.nodes

    pub fresh-Off : Off m.fresh (lo ++ hi)
    fresh-Off = h.free m.fresh (omega arith)

    head-ne-fresh : head ≢ m.fresh
    head-ne-fresh e = omega (arith, h.low)

    tail-ne-fresh : tail ≢ m.fresh
    tail-ne-fresh e = omega (arith, h.low)

    pub at-ne-fresh : (j : ℕ) → at j ≢ m.fresh
    at-ne-fresh j = last_at-ne m.fresh j head lo head-ne-fresh (Off-split m.fresh lo hi fresh-Off).0

    module _ (next' : ℕ → ℕ → Option ℕ) (w : Linked m.fresh at nodes0.next 0 level next') where
      kept_lem : (b i : ℕ) → b ≢ m.fresh → b ≢ at i → next' b i ≡ m.nodes.next b i
      kept_lem b i ne ne' = w.kept b i ne ne' ∙ rw (==_ne b m.fresh ne) refl

      above_lem : (b i : ℕ) → b ≢ m.fresh → level ≤ i → next' b i ≡ m.nodes.next b i
      above_lem b i ne le = w.above b i le ∙ rw (==_ne b m.fresh ne) refl

      changed_lem : (i : ℕ) → i < level → next' (at i) i ≡ some m.fresh
      changed_lem i lt = w.changed i (omega arith) lt

      fresh-Leads : Leads next' m.fresh level hi
      fresh-Leads i lt =
          w.fresh i (omega arith) lt
          ∙ rw (==_ne (at i) m.fresh (at-ne-fresh i)) refl
          ∙ next-last_at m.nodes.next i head lo hi (h.leads i (omega arith)) h.nexts

      hi-Nexts : Nexts next' hi
      hi-Nexts =
          Nexts-keep hi (new_cell ∷ hi) level (λ i. some m.fresh) (λ i. refl) m.fresh at
            m.nodes.next next' changed_lem kept_lem above_lem hi
            (λ i. Off-last_at i head lo hi (Off-split head lo hi h.off_head).1 h.apart)
            (Off-split m.fresh lo hi fresh-Off).1 (Nexts-behind m.nodes.next lo hi h.nexts)

      new-Nexts : Nexts next' (lo ++ (new_cell ∷ hi))
      new-Nexts =
          Nexts-turn hi (new_cell ∷ hi) level (λ i. some m.fresh) (λ i. refl) m.fresh at
            m.nodes.next next' changed_lem kept_lem above_lem lo (λ i. head) (λ i. refl)
            (Off-split m.fresh lo hi fresh-Off).0
            (Apart-parts lo hi (Off-split tail lo hi h.off_tail).0 h.apart).0 h.nexts
            (fresh-Leads, hi-Nexts)

      new-Leads : Leads next' head max_level (lo ++ (new_cell ∷ hi))
      new-Leads =
          Leads-turn hi (new_cell ∷ hi) level (λ i. some m.fresh) (λ i. refl) m.fresh at
            m.nodes.next next' changed_lem kept_lem above_lem head max_level lo head-ne-fresh
            (λ i lt. refl) (Off-split head lo hi h.off_head).0 h.leads

      pub put-Chained :
          (p f : ℕ)
          → p ≡ last head lo
          → f ≡ front hi
          → Chained
              (record {
                items = update_at k (some m.fresh) m.items;
                nodes = record nodes0 {
                  next = next';
                  after = update_at p m.fresh (update_at m.fresh f m.nodes.after);
                  prev = update_at f m.fresh (update_at m.fresh p m.nodes.prev);
                };
                fresh = m.fresh + 1;
                level = if ltb m.level level then level else m.level;
                size = m.size + 1;
              })
              (lo ++ (new_cell ∷ hi))
      put-Chained p f ep ef =
          let (fl, fr) = Off-split m.fresh lo hi fresh-Off in
          let (hl, hr) = Off-split head lo hi h.off_head in
          let (tl, tr) = Off-split tail lo hi h.off_tail in
          let (apl, apr, fro) = Apart-parts lo hi tl h.apart in
          let top : (m.level ≤ (if ltb m.level level then level else m.level))
              × (level ≤ (if ltb m.level level then level else m.level))
              × ((if ltb m.level level then level else m.level) ≤ max_level) =
            if_elim (λ t. (m.level ≤ t) × (level ≤ t) × (t ≤ max_level)) (ltb m.level level)
              (λ e. (ground arith, omega arith, omega arith))
              (λ e. (omega arith, ground arith, h.level_cap)) in
          rw (ep, ef)
            (record {
              keys =
                  Keys-insert (update_at m.fresh k m.nodes.key) m.fresh level k v lo hi
                    (rw (==_self m.fresh) refl)
                    (Keys-update_at m.fresh m.nodes.key k (lo ++ hi) fresh-Off h.keys);
              values =
                  Values-insert (update_at m.fresh (some v) m.nodes.value) m.fresh level k v lo hi
                    (rw (==_self m.fresh) refl)
                    (Values-update_at m.fresh m.nodes.value (some v) (lo ++ hi) fresh-Off h.values);
              levels =
                  Levels-insert (update_at m.fresh level m.nodes.levels) m.fresh level k v lo hi
                    (rw (==_self m.fresh) refl)
                    (Levels-update_at m.fresh m.nodes.levels level (lo ++ hi) fresh-Off h.levels);
              head_levels = rw (==_ne head m.fresh head-ne-fresh) h.head_levels;
              afters =
                  Afters-insert m.fresh level k v m.nodes.after head lo hi head-ne-fresh hl apl fl
                    fr (Off-last head lo hi hr h.apart) h.afters;
              prevs =
                  Prevs-insert m.fresh level k v m.nodes.prev head lo hi tail-ne-fresh
                    (λ e. front-ne m.fresh hi tail-ne-fresh fr (sym e)) fro fl fr tr apr h.prevs;
              leads = new-Leads;
              nexts = new-Nexts;
              items = λ j.
                  ap (λ o. if j == k then some m.fresh else o) (h.items j)
                  ∙ sym (address-insert j m.fresh level k v lo hi below);
              apart = Apart-insert m.fresh level k v lo hi fresh-Off h.apart;
              rising = Rising-insert m.fresh level k v lo hi below above h.rising;
              off_head = Off-join head lo (new_cell ∷ hi) hl ((λ e. head-ne-fresh (sym e)), hr);
              off_tail = Off-join tail lo (new_cell ∷ hi) tl ((λ e. tail-ne-fresh (sym e)), tr);
              free = λ a le.
                  let (l, r) = Off-split a lo hi (h.free a (omega arith)) in
                  Off-join a lo (new_cell ∷ hi) l ((λ e. omega arith), r);
              low = omega (arith, h.low);
              size = omega (arith, h.size, length-insert new_cell lo hi);
              tall =
                  Tall-insert (if ltb m.level level then level else m.level) m.fresh level k v lo hi
                    pos top.1
                    (Tall-weaken m.level (if ltb m.level level then level else m.level) (lo ++ hi)
                      top.0 h.tall);
              level_pos = omega (arith, h.level_pos, top.0);
              level_cap = top.2;
            })
