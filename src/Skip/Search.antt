-- ===== src/Skip/Search.antt =====
-- About the search along the levels in sortedmap.go: where it stops, for a test that the keys of the
-- first nodes pass and the others do not.
use qotp.Base.{
  ℕ, zero, suc, ◌≤◌, ◌<◌, ◌≡◌, refl, sym, ap, ◌∙◌, arith, Option, none, some, Bool, true, false,
  List, [], ◌∷◌, ◌++◌, ltb, ◌==◌, ==_ne, Bool-cases, Option-cases, inl, inr, lt→ltb, length,
  is_some,
}
use qotp.Skip.{Nodes, done, walk, search, tail, update_at, max_level}
use qotp.Skip.Chain.{Cell, first, last_at, KeysHeld, Levels, Nexts, Leads, Off}

-- Every key passes the test, or none does.
module _ {ℓ} {V : Type ℓ} (pass : ℕ → Bool) where
  abbrev pub Passes : List (Cell V) → Type 0
  Passes [] = Unit
  Passes ((a, h, k, v) ∷ cells) = (pass k ≡ true) × Passes cells

  abbrev pub Stops : List (Cell V) → Type 0
  Stops [] = Unit
  Stops ((a, h, k, v) ∷ cells) = (pass k ≡ false) × Stops cells

module _ {ℓ} {V : Type ℓ} (pass : ℕ → Bool) (s : Nodes V) where
  first-Stops :
      (i b : ℕ) (cells : List (Cell V))
      → KeysHeld s.key cells
      → Stops pass cells
      → first i cells ≡ some b
      → pass (s.key b) ≡ false
  first-Stops i b [] keys stops h = let bad : false ≡ true = ap is_some h in absurd (ground arith)
  first-Stops i b ((a, h, k, v) ∷ cells) (key, keys) (stop, stops) found =
      elim (Bool-cases (ltb i h)) [
        | inl e ↦
            let here : a ≡ b = ap (λ o. elim o [ none ↦ a | some x ↦ x ]) (rw e at found) in
            rw (← here, key) stop
        | inr e ↦ first-Stops i b cells keys stops (rw e at found)
      ]

  stop_lem :
      (i fuel p n : ℕ) (hi : List (Cell V))
      → i < n
      → s.levels p ≡ n
      → s.next p i ≡ first i hi
      → KeysHeld s.key hi
      → Stops pass hi
      → walk pass s i (suc fuel) p ≡ done p
  unfolding walk
  stop_lem i fuel p n hi lt lv nx keys stops = elim (Option-cases (first i hi)) [
    | inl absent ↦ rw (lv, lt→ltb i n lt, nx, absent) refl
    | inr (b, found) ↦
        let stop = first-Stops i b hi keys stops found in
        rw (lv, lt→ltb i n lt, nx, found, stop)
          (elim (Bool-cases (b == tail)) [ inl e ↦ rw e refl | inr e ↦ rw e refl ])
  ]

  -- What a search meets from a place on: the nodes of `lo`, whose keys pass, and those of `hi`.
  pub record Ahead (hi lo : List (Cell V)) : Type 0 where
    pub nexts : Nexts s.next (lo ++ hi)
    pub keys : KeysHeld s.key (lo ++ hi)
    pub levels : Levels s.levels (lo ++ hi)
    pub off : Off tail (lo ++ hi)
    pub passes : Passes pass lo
    pub stops : Stops pass hi

  -- The node `p` of `n` levels in front of them.
  pub record Place (hi : List (Cell V)) (p n : ℕ) (lo : List (Cell V)) : Type 0 where
    pub level : s.levels p ≡ n
    pub leads : Leads s.next p n (lo ++ hi)
    pub ahead : Ahead hi lo

  Ahead-tail :
      (hi : List (Cell V)) (a h k : ℕ) (v : V) (lo : List (Cell V))
      → Ahead hi ((a, h, k, v) ∷ lo)
      → Place hi a h lo
  Ahead-tail hi a h k v lo w = record {
    level = w.levels.0;
    leads = w.nexts.0;
    ahead = record {
      nexts = w.nexts.1;
      keys = w.keys.1;
      levels = w.levels.1;
      off = w.off.1;
      passes = w.passes.1;
      stops = w.stops;
    };
  }

  -- The walk along level `i` from `p` ends at the last node of `lo` that has the level.
  walk_lem :
      (hi : List (Cell V)) (i fuel p n : ℕ) (lo : List (Cell V))
      → i < n
      → s.levels p ≡ n
      → s.next p i ≡ first i (lo ++ hi)
      → Ahead hi lo
      → length lo < fuel
      → walk pass s i fuel p ≡ done (last_at i p lo)
  unfolding walk
  walk_lem hi i zero p n lo lt lv nx w f = absurd (omega arith)
  walk_lem hi i (suc fuel) p n [] lt lv nx w f = stop_lem i fuel p n hi lt lv nx w.keys w.stops
  walk_lem hi i (suc fuel) p n ((a, h, k, v) ∷ lo) lt lv nx w f =
      let t = Ahead-tail hi a h k v lo w in
      elim (Bool-cases (ltb i h)) [
        | inl e ↦
            let ih =
              walk_lem hi i fuel a h lo (ground arith) t.level (t.leads i (ground arith)) t.ahead
                (omega arith) in
            let nx1 : s.next p i ≡ some a = rw e at nx in
            rw (lv, lt→ltb i n lt, nx1, ==_ne a tail w.off.0, w.keys.0, w.passes.0, e) ih
        | inr e ↦ rw e (walk_lem hi i (suc fuel) p n lo lt lv (rw e at nx) t.ahead (omega arith))
      ]

  last_at-none : (i p : ℕ) (lo : List (Cell V)) → first i lo ≡ none → last_at i p lo ≡ p
  last_at-none i p [] h = refl
  last_at-none i p ((a, n, k, v) ∷ lo) h = elim (Bool-cases (ltb i n)) [
    | inl e ↦
        let found : some a ≡ none = rw e at h in
        let bad : true ≡ false = ap is_some found in absurd (ground arith)
    | inr e ↦ rw e (last_at-none i p lo (rw e at h))
  ]

  last_at_any :
      (i j p q b : ℕ) (lo : List (Cell V))
      → j ≤ i
      → first i lo ≡ some b
      → last_at j p lo ≡ last_at j q lo
  last_at_any i j p q b [] le h = let bad : false ≡ true = ap is_some h in absurd (ground arith)
  last_at_any i j p q b ((a, n, k, v) ∷ lo) le h = elim (Bool-cases (ltb j n)) [
    | inl e ↦ rw e refl
    | inr e ↦
        let above : ltb i n ≡ false = ground arith in
        rw e (last_at_any i j p q b lo le (rw above at h))
  ]

  -- Where a walk along level `i` ends, and what is behind it: for the levels below, the last nodes
  -- are the same.
  abbrev Stopped : List (Cell V) → ℕ → ℕ → List (Cell V) → Type ℓ
  Stopped hi i p lo =
      (rest : List (Cell V)) × (m : ℕ) × (i < m)
      × Place hi (last_at i p lo) m rest
      × (length rest ≤ length lo)
      × ((j : ℕ) → j ≤ i → last_at j (last_at i p lo) rest ≡ last_at j p lo)

  Found-Stopped :
      (hi : List (Cell V)) (i p b : ℕ) (lo : List (Cell V))
      → first i lo ≡ some b
      → Ahead hi lo
      → Stopped hi i p lo
  Found-Stopped hi i p b [] h w = let bad : false ≡ true = ap is_some h in absurd (ground arith)
  Found-Stopped hi i p b ((a, n, k, v) ∷ lo) h w =
      let t = Ahead-tail hi a n k v lo w in
      elim (Bool-cases (ltb i n)) [
        | inl e ↦
            let same : (j : ℕ) → j ≤ i → last_at j p ((a, n, k, v) ∷ lo) ≡ last_at j a lo =
              λ j le. let lower : ltb j n ≡ true = ground arith in rw lower refl in
            elim (Option-cases (first i lo)) [
              | inl none_left ↦
                  let here = last_at-none i a lo none_left in
                  (
                    lo,
                    n,
                    ground arith,
                    rw (e, here) t,
                    omega arith,
                    λ j le. rw (e, here) (sym (same j le)),
                  )
              | inr (c, more) ↦
                  let (rest, m, lt, place, len, eq) = Found-Stopped hi i a c lo more t.ahead in
                  (rest, m, lt, rw e place, omega arith, λ j le. rw e (eq j le ∙ sym (same j le)))
            ]
        | inr e ↦
            let more : first i lo ≡ some b = rw e at h in
            let (rest, m, lt, place, len, eq) = Found-Stopped hi i p b lo more t.ahead in
            (
              rest,
              m,
              lt,
              rw e place,
              omega arith,
              λ j le. rw e (
                  eq j le ∙ elim (Bool-cases (ltb j n)) [
                    | inl l ↦ rw l (last_at_any i j p a b lo le more)
                    | inr l ↦ rw l refl
                  ]),
            )
      ]

  Place-Stopped :
      (hi : List (Cell V)) (i p n : ℕ) (lo : List (Cell V))
      → i < n
      → Place hi p n lo
      → Stopped hi i p lo
  Place-Stopped hi i p n lo lt place = elim (Option-cases (first i lo)) [
    | inl none_left ↦
        let here = last_at-none i p lo none_left in
        (lo, n, lt, rw here place, omega arith, λ j le. rw here refl)
    | inr (b, found) ↦ Found-Stopped hi i p b lo found place.ahead
  ]

  -- What a search along the levels below `top` has found.
  pub record Found (p top : ℕ) (lo : List (Cell V)) (was : ℕ → Option ℕ)
      (found : ℕ × (ℕ → Option ℕ)) : Type 0 where
    pub start : top ≡ 0 → found.0 ≡ p
    pub current : 0 < top → found.0 ≡ last_at 0 p lo
    pub low : (j : ℕ) → j < top → found.1 j ≡ some (last_at j p lo)
    pub high : (j : ℕ) → top ≤ j → found.1 j ≡ was j

  -- The search ends, on the last nodes of each level.
  pub search_lem :
      (hi : List (Cell V)) (fuel top p n : ℕ) (lo : List (Cell V)) (was : ℕ → Option ℕ)
      → top ≤ n
      → top ≤ max_level
      → length lo < fuel
      → Place hi p n lo
      → (found : ℕ × (ℕ → Option ℕ)) × (search pass s fuel top p was ≡ done found)
        × Found p top lo was found
  unfolding search
  search_lem hi fuel zero p n lo was le cap f place = (
    (p, was),
    refl,
    record {
      start = λ e. refl;
      current = λ lt. absurd (omega arith);
      low = λ j lt. absurd (omega arith);
      high = λ j ge. refl;
    },
  )
  search_lem hi fuel (suc i) p n lo was le cap f place =
      let q = last_at i p lo in
      let (rest, m, lt, place', len, eq) = Place-Stopped hi i p n lo (omega arith) place in
      let (found, runs, w) =
        search_lem hi fuel i q m rest (update_at i (some q) was) (omega arith) (omega arith)
          (omega arith) place' in
      let walked =
        walk_lem hi i fuel p n lo (omega arith) place.level (place.leads i (omega arith))
          place.ahead f in
      (
        found,
        rw (walked, lt→ltb i max_level (omega arith)) runs,
        record {
          start = λ e. absurd (omega arith);
          current = λ pos. elim (Bool-cases (i == 0)) [
            | inl e ↦ let z : i ≡ 0 = ground arith in w.start z ∙ ap (λ j. last_at j p lo) z
            | inr e ↦ w.current (ground arith) ∙ eq 0 (omega arith)
          ];
          low = λ j below. elim (Bool-cases (j == i)) [
            | inl e ↦ let z : j ≡ i = ground arith in w.high j (omega arith) ∙ rw (e, z) refl
            | inr e ↦ w.low j (ground arith) ∙ ap some (eq j (omega arith))
          ];
          high = λ j above. w.high j (omega arith) ∙ rw (==_ne j i (λ z. omega arith)) refl;
        },
      )
