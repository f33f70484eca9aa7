-- ===== src/Skip/Refinement.antt =====
-- The entries that the pointers of sortedmap.go hold, and the search from the head.
use qotp.Base.{
  ℕ, ◌+◌, ◌≤◌, ◌<◌, ◌≡◌, refl, ◌∙◌, arith, Option, none, Bool, List, [], ◌∷◌, ◌++◌, length,
  length-append,
}
use qotp.Sorted
use qotp.Skip.{SortedMap, done, head, tail, max_level, new_sorted_map, search_map, prev}
use qotp.Skip.Chain.{
  Cell, entries, address, front, last, last_at-zero, KeysHeld, Values, Levels, Afters, Afters-head,
  Prevs, Leads, Nexts, Tall, Rising, Off, Apart,
}
use qotp.Skip.Search.{Passes, Stops, Found, search_lem}

module _ {ℓ} {V : Type ℓ} where
  -- The nodes of the map are these cells, in this order.
  pub record Chained (m : SortedMap V) (cells : List (Cell V)) : Type ℓ where
    pub keys : KeysHeld m.nodes.key cells
    pub values : Values m.nodes.value cells
    pub levels : Levels m.nodes.levels cells
    pub head_levels : m.nodes.levels head ≡ max_level
    pub afters : Afters m.nodes.after head cells
    pub prevs : Prevs m.nodes.prev head cells
    pub leads : Leads m.nodes.next head max_level cells
    pub nexts : Nexts m.nodes.next cells
    pub items : (k : ℕ) → m.items k ≡ address k cells
    pub apart : Apart cells
    pub rising : Rising cells
    pub off_head : Off head cells
    pub off_tail : Off tail cells
    pub free : (a : ℕ) → m.fresh ≤ a → Off a cells
    pub low : 2 ≤ m.fresh
    pub size : m.size ≡ length cells
    pub tall : Tall m.level cells
    pub level_pos : 0 < m.level
    pub level_cap : m.level ≤ max_level

  -- The map holds these entries, in the order of their keys.
  pub record Represents (m : SortedMap V) (es : Sorted.SortedMap V) : Type ℓ where
    pub cells : List (Cell V)
    pub chained : Chained m cells
    pub same : entries cells ≡ es

  -- The map that `NewSortedMap` makes is empty.
  pub new_sorted_map-Represents : Represents new_sorted_map []
  unfolding new_sorted_map
  new_sorted_map-Represents = record {
    cells = [];
    chained = record {
      keys = tt;
      values = tt;
      levels = tt;
      head_levels = refl;
      afters = refl;
      prevs = refl;
      leads = λ i lt. refl;
      nexts = tt;
      items = λ k. refl;
      apart = tt;
      rising = tt;
      off_head = tt;
      off_tail = tt;
      free = λ a le. tt;
      low = omega arith;
      size = refl;
      tall = tt;
      level_pos = omega arith;
      level_cap = omega arith;
    };
    same = refl;
  }

  -- A search from the head, where the keys of `lo` pass and those of `hi` do not.
  pub search_map_lem :
      (pass : ℕ → Bool) (m : SortedMap V) (lo hi : List (Cell V))
      → Chained m (lo ++ hi)
      → Passes pass lo
      → Stops pass hi
      → (found : ℕ × (ℕ → Option ℕ)) × (search_map pass m ≡ done found)
        × Found {V = V} pass m.nodes head m.level lo (λ i. none) found
  search_map_lem pass m lo hi h passes stops =
      search_lem pass m.nodes hi (m.size + 1) m.level head max_level lo (λ i. none) h.level_cap
        h.level_cap (omega (arith, h.size, length-append lo hi))
        (record {
          level = h.head_levels;
          leads = h.leads;
          ahead = record {
            nexts = h.nexts;
            keys = h.keys;
            levels = h.levels;
            off = h.off_tail;
            passes = passes;
            stops = stops;
          };
        })

  pub Tall-split :
      (top : ℕ) (lo hi : List (Cell V)) → Tall top (lo ++ hi) → Tall top lo × Tall top hi
  Tall-split top [] hi h = (tt, h)
  Tall-split top ((a, n, j, v) ∷ lo) hi (p, q, h) =
      let (l, r) = Tall-split top lo hi h in ((p, q, l), r)

  pub Keys-split :
      (key : ℕ → ℕ) (lo hi : List (Cell V))
      → KeysHeld key (lo ++ hi)
      → KeysHeld key lo × KeysHeld key hi
  Keys-split key [] hi h = (tt, h)
  Keys-split key ((a, n, j, v) ∷ lo) hi (p, h) = let (l, r) = Keys-split key lo hi h in ((p, l), r)

  pub Values-split :
      (value : ℕ → Option V) (lo hi : List (Cell V))
      → Values value (lo ++ hi)
      → Values value lo × Values value hi
  Values-split value [] hi h = (tt, h)
  Values-split value ((a, n, j, v) ∷ lo) hi (p, h) =
      let (l, r) = Values-split value lo hi h in ((p, l), r)

  -- Where the search along all levels ends.
  pub Found-last :
      (pass : ℕ → Bool) (m : SortedMap V) (lo hi : List (Cell V)) (found : ℕ × (ℕ → Option ℕ))
      → Chained m (lo ++ hi)
      → Found {V = V} pass m.nodes head m.level lo (λ i. none) found
      → found.0 ≡ last head lo
  Found-last pass m lo hi found h w =
      w.current h.level_pos ∙ last_at-zero m.level head lo (Tall-split m.level lo hi h.tall).0

  pub after-last :
      (after : ℕ → ℕ) (p : ℕ) (lo hi : List (Cell V))
      → Afters after p (lo ++ hi)
      → after (last p lo) ≡ front hi
  after-last after p [] hi h = Afters-head after p hi h
  after-last after p ((a, n, k, v) ∷ lo) hi (h, rest) = after-last after a lo hi rest

  pub prev-last :
      (prev : ℕ → ℕ) (p a n k : ℕ) (v : V) (lo hi : List (Cell V))
      → Prevs prev p (lo ++ ((a, n, k, v) ∷ hi))
      → prev a ≡ last p lo
  prev-last prev p a n k v [] hi h = h.0
  prev-last prev p a n k v ((b, m, j, w) ∷ lo) hi (h, rest) = prev-last prev b a n k v lo hi rest
