-- ===== src/Skip/Read.antt =====
-- About `Get`, `Min`, `Next` and `Prev` of sortedmap.go.
use qotp.Base.{
  held, ℕ, ◌≡◌, refl, ap, ◌∙◌, arith, Option, none, some, List, [], ◌∷◌, ◌++◌, ltb, leb, ◌==◌,
  ==_ne, Bool-cases, Option-cases, inl, inr,
}
use qotp.Sorted
use qotp.Skip.{
  SortedMap, done, head, tail, get, get_found, next, next_found, prev, prev_found, min_entry,
  after_of, unless_head,
}
use qotp.Skip.Chain.{
  Cell, entries, address, front, last, KeysHeld, Values, Afters, Afters-head, Below, Above, Off,
  Off-split,
}
use qotp.Skip.Search.{Passes, Stops}
use qotp.Skip.Split.{absent-split, found-split}
use qotp.Skip.Contract.{
  last_entry, next-split, next-Below, next_here, prev_stop, prev_here, prev-Below,
}
use qotp.Skip.Refinement.{
  Represents, Chained, search_map_lem, Found-last, after-last, prev-last, Keys-split, Values-split,
}

module _ {ℓ} {V : Type ℓ} where
  -- The entry of the node that follows `a`.
  after_of-front :
      (m : SortedMap V) (a : ℕ) (hi : List (Cell V))
      → m.nodes.after a ≡ front hi
      → KeysHeld m.nodes.key hi
      → Values m.nodes.value hi
      → Off tail hi
      → after_of m a ≡ held (Sorted.min_entry (entries hi))
  unfolding Sorted.min_entry
  after_of-front m a [] h keys values off = rw h refl
  after_of-front m a ((b, n, k, v) ∷ hi) h (key, keys) (value, values) (ne, off) =
      rw (h, ==_ne b tail ne, key, value) refl

  unless_head-last :
      (m : SortedMap V) (p : ℕ) (before : Option (ℕ × V)) (lo : List (Cell V))
      → KeysHeld m.nodes.key lo
      → Values m.nodes.value lo
      → Off head lo
      → unless_head m p ≡ held before
      → unless_head m (last p lo) ≡ held (last_entry before lo)
  unless_head-last m p before [] keys values off h = h
  unless_head-last m p before ((b, n, k, v) ∷ lo) (key, keys) (value, values) (ne, off) h =
      unless_head-last m b (some (k, v)) lo keys values off (rw (==_ne b head ne, key, value) refl)

  -- The test of a search for `k`.
  pub Below-Passes : (k : ℕ) (lo : List (Cell V)) → Below k lo → Passes (λ j. ltb j k) lo
  Below-Passes k [] below = tt
  Below-Passes k ((b, n, i, w) ∷ lo) (lt, below) = (ground arith, Below-Passes k lo below)

  pub Above-Stops : (k : ℕ) (hi : List (Cell V)) → Above k hi → Stops (λ j. ltb j k) hi
  Above-Stops k [] above = tt
  Above-Stops k ((b, n, i, w) ∷ hi) (lt, above) = (ground arith, Above-Stops k hi above)

  Below-Passes_le : (k : ℕ) (lo : List (Cell V)) → Below k lo → Passes (λ j. leb j k) lo
  Below-Passes_le k [] below = tt
  Below-Passes_le k ((b, n, i, w) ∷ lo) (lt, below) = (ground arith, Below-Passes_le k lo below)

  Above-Stops_le : (k : ℕ) (hi : List (Cell V)) → Above k hi → Stops (λ j. leb j k) hi
  Above-Stops_le k [] above = tt
  Above-Stops_le k ((b, n, i, w) ∷ hi) (lt, above) = (ground arith, Above-Stops_le k hi above)

  pub get-entries :
      (m : SortedMap V) (k : ℕ) (cells : List (Cell V))
      → Values m.nodes.value cells
      → get_found m (address k cells) ≡ Sorted.get k (entries cells)
  unfolding Sorted.get
  get-entries m k [] h = refl
  get-entries m k ((a, n, j, v) ∷ cells) (h, rest) = elim (Bool-cases (j == k)) [
    | inl e ↦ rw e h
    | inr e ↦ rw e (get-entries m k cells rest)
  ]

  -- `Get` reads the entry of the key.
  pub get-Represents :
      (m : SortedMap V) (es : Sorted.SortedMap V) (k : ℕ)
      → Represents m es
      → get k m ≡ Sorted.get k es
  unfolding get
  get-Represents m es k r =
      rw (r.chained.items k) (get-entries m k r.cells r.chained.values) ∙ ap (Sorted.get k) r.same

  -- `Min` reads the first entry.
  pub min_entry-Represents :
      (m : SortedMap V) (es : Sorted.SortedMap V)
      → Represents m es
      → min_entry m ≡ held (Sorted.min_entry es)
  unfolding min_entry
  min_entry-Represents m es r =
      let h = r.chained in
      after_of-front m head r.cells (Afters-head m.nodes.after head r.cells h.afters) h.keys
        h.values h.off_tail
      ∙ ap (λ x. held (Sorted.min_entry x)) r.same

  pub after-here :
      (after : ℕ → ℕ) (p a n k : ℕ) (v : V) (lo hi : List (Cell V))
      → Afters after p (lo ++ ((a, n, k, v) ∷ hi))
      → after a ≡ front hi
  after-here after p a n k v [] hi h = Afters-head after a hi h.1
  after-here after p a n k v ((b, m, j, w) ∷ lo) hi (h, rest) =
      after-here after b a n k v lo hi rest

  -- The part of a chain behind a node.
  after_of-behind :
      (m : SortedMap V) (lo hi : List (Cell V))
      → Chained m (lo ++ hi)
      → after_of m (last head lo) ≡ held (Sorted.min_entry (entries hi))
  after_of-behind m lo hi h =
      after_of-front m (last head lo) hi (after-last m.nodes.after head lo hi h.afters)
        (Keys-split m.nodes.key lo hi h.keys).1 (Values-split m.nodes.value lo hi h.values).1
        (Off-split tail lo hi h.off_tail).1

  unless_head-before :
      (m : SortedMap V) (lo hi : List (Cell V))
      → Chained m (lo ++ hi)
      → unless_head m (last head lo) ≡ held (last_entry none lo)
  unless_head-before m lo hi h =
      unless_head-last m head none lo (Keys-split m.nodes.key lo hi h.keys).0
        (Values-split m.nodes.value lo hi h.values).0 (Off-split head lo hi h.off_head).0 refl

  next_absent :
      (m : SortedMap V) (k : ℕ) (lo hi : List (Cell V))
      → Chained m (lo ++ hi)
      → Below k lo
      → Above k hi
      → next_found k m none ≡ done (held (Sorted.next k (entries (lo ++ hi))))
  next_absent m k lo hi h below above =
      let pass = λ (j : ℕ). leb j k in
      let (found, runs, w) =
        search_map_lem pass m lo hi h (Below-Passes_le k lo below) (Above-Stops_le k hi above) in
      let here = Found-last pass m lo hi found h w in
      rw (runs, here, after_of-behind m lo hi h, next-Below k lo hi below, next-split k hi above)
        refl

  next_present :
      (m : SortedMap V) (k a n : ℕ) (v : V) (lo hi : List (Cell V))
      → Chained m (lo ++ ((a, n, k, v) ∷ hi))
      → Below k lo
      → Above k hi
      → after_of m a ≡ held (Sorted.next k (entries (lo ++ ((a, n, k, v) ∷ hi))))
  next_present m k a n v lo hi h below above =
      let behind = after-here m.nodes.after head a n k v lo hi h.afters in
      let keys = (Keys-split m.nodes.key lo ((a, n, k, v) ∷ hi) h.keys).1.1 in
      let values = (Values-split m.nodes.value lo ((a, n, k, v) ∷ hi) h.values).1.1 in
      let off = (Off-split tail lo ((a, n, k, v) ∷ hi) h.off_tail).1.1 in
      rw (next-Below k lo ((a, n, k, v) ∷ hi) below, next_here k a n v hi, next-split k hi above)
        (after_of-front m a hi behind keys values off)

  -- `Next` returns, and what it returns is the entry with the smallest key above `k`, whether the
  -- key is in the map or not.
  pub next-Represents :
      (m : SortedMap V) (es : Sorted.SortedMap V) (k : ℕ)
      → Represents m es
      → next k m ≡ done (held (Sorted.next k es))
  unfolding next
  next-Represents m es k r =
      let h = r.chained in
      rw (h.items k, ← r.same)
        (elim (Option-cases (address k r.cells)) [
          | inl absent ↦
              let (lo, hi, eq, below, above) = absent-split k r.cells absent h.rising in
              rw (absent, eq) (next_absent m k lo hi (rw eq at h) below above)
          | inr (a, found) ↦
              let (lo, n, v, hi, eq, below, above) = found-split k a r.cells found h.rising in
              rw (found, eq) (ap done (next_present m k a n v lo hi (rw eq at h) below above))
        ])

  prev_absent :
      (m : SortedMap V) (k : ℕ) (lo hi : List (Cell V))
      → Chained m (lo ++ hi)
      → Below k lo
      → Above k hi
      → prev_found k m none ≡ done (held (Sorted.prev k (entries (lo ++ hi))))
  prev_absent m k lo hi h below above =
      let pass = λ (j : ℕ). ltb j k in
      let (found, runs, w) =
        search_map_lem pass m lo hi h (Below-Passes k lo below) (Above-Stops k hi above) in
      let here = Found-last pass m lo hi found h w in
      rw
        (
          runs,
          here,
          unless_head-before m lo hi h,
          prev-Below k none lo hi below,
          prev_stop k (last_entry none lo) hi above,
        )
        refl

  prev_present :
      (m : SortedMap V) (k a n : ℕ) (v : V) (lo hi : List (Cell V))
      → Chained m (lo ++ ((a, n, k, v) ∷ hi))
      → Below k lo
      → unless_head m (m.nodes.prev a) ≡ held (Sorted.prev k (entries (lo ++ ((a, n, k, v) ∷ hi))))
  prev_present m k a n v lo hi h below =
      rw
        (
          prev-last m.nodes.prev head a n k v lo hi h.prevs,
          unless_head-before m lo ((a, n, k, v) ∷ hi) h,
          prev-Below k none lo ((a, n, k, v) ∷ hi) below,
          prev_here k a n v (last_entry none lo) hi,
        )
        refl

  -- `Prev` returns the entry with the largest key below `k`.
  pub prev-Represents :
      (m : SortedMap V) (es : Sorted.SortedMap V) (k : ℕ)
      → Represents m es
      → prev k m ≡ done (held (Sorted.prev k es))
  unfolding prev
  prev-Represents m es k r =
      let h = r.chained in
      rw (h.items k, ← r.same)
        (elim (Option-cases (address k r.cells)) [
          | inl absent ↦
              let (lo, hi, eq, below, above) = absent-split k r.cells absent h.rising in
              rw (absent, eq) (prev_absent m k lo hi (rw eq at h) below above)
          | inr (a, found) ↦
              let (lo, n, v, hi, eq, below, above) = found-split k a r.cells found h.rising in
              rw (found, eq) (ap done (prev_present m k a n v lo hi (rw eq at h) below))
        ])
