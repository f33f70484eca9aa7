-- ===== src/Skip/Remove.antt =====
-- About `Remove` of sortedmap.go.
use qotp.Base.{
  ℕ, ◌≡◌, refl, sym, ap, ◌∙◌, arith, none, some, true, false, List, [], ◌∷◌, ◌++◌, ltb, ◌==◌,
  ==_self, Option-cases, Bool-cases, is_some, inl, inr, lt→ltb, ltb_ge,
}
use qotp.Sorted
use qotp.Skip.{
  SortedMap, done, head, is_at, remove, remove_found, remove_linked, unlink_all, bypass, ◌>>=◌,
}
use qotp.Skip.Chain.{Cell, entries, address, last_at, Below, Above}
use qotp.Skip.Split.{found-split}
use qotp.Skip.Refinement.{Represents, Chained, search_map_lem, prev-last}
use qotp.Skip.Read.{Below-Passes, Above-Stops, get-entries, after-here}
use qotp.Skip.Delete.{
  lower_lem, own-Tall, own_levels, at-ne, hits_lem, misses_lem, reach_lem, left-Leads,
  removed-Chained,
}
use qotp.Skip.Unlink.{unlink_levels_lem}

module _ {ℓ} {V : Type ℓ} where
  remove_present :
      (m : SortedMap V) (k a n : ℕ) (u : V) (lo hi : List (Cell V))
      → Chained m (lo ++ ((a, n, k, u) ∷ hi))
      → Below k lo
      → Above k hi
      → (m' : SortedMap V) × (remove_found k m (some a) ≡ done (m', m.nodes.value a))
        × Chained m' (lo ++ hi)
  remove_present m k a n u lo hi h below above =
      let c : Cell V = (a, n, k, u) in
      let (found, runs, w) =
        search_map_lem (λ j. ltb j k) m lo (c ∷ hi) h (Below-Passes k lo below)
          (ltb_ge k k (omega arith), Above-Stops k hi above) in
      let (pos, fits, tall) = own-Tall m k a n u lo hi h below above in
      let here = w.current h.level_pos in
      let reach = reach_lem m k a n u lo hi h below above in
      let hits = hits_lem m k a n u lo hi h below above in
      let on : is_at a (m.nodes.next (last_at 0 head lo) 0) ≡ true =
        ap (is_at a) (hits 0 pos) ∙ ==_self a in
      let (next', unlinked, effect) =
        unlink_levels_lem m.level 0 m.level n a (λ j. last_at j head lo) found.1 m.nodes
          (omega arith) fits w.low reach (at-ne m k a n u lo hi h below above)
          (own_levels m k a n u lo hi h below above) (λ j le lt. hits j lt)
          (λ j le ge lt. misses_lem m k a n u lo hi h below above j ge lt) in
      let s = bypass a (record m.nodes { next = next' }) in
      let (top, lowered, top_pos, top_most, top_tall) =
        lower_lem s m.level (lo ++ hi) h.head_levels
          (left-Leads m k a n u lo hi h below above next' effect) h.level_pos h.level_cap tall in
      (
        _,
        rw (runs, here)
            (rw (lt→ltb 0 (m.nodes.levels (last_at 0 head lo)) (reach 0 h.level_pos)) (
              ap (λ b. unlink_all b m.level a found.1 m.nodes >>= λ s'. remove_linked k a m s') on
              ∙ rw unlinked (rw lowered refl))),
        removed-Chained m k a n u lo hi h below above next' effect (m.nodes.prev a)
            (m.nodes.after a) top (prev-last m.nodes.prev head a n k u lo hi h.prevs)
            (after-here m.nodes.after head a n k u lo hi h.afters) top_pos top_most top_tall,
      )

  -- The contract's answer, where the keys are split.
  remove-split :
      (k a n : ℕ) (u : V) (lo hi : List (Cell V))
      → Below k lo
      → Sorted.remove k (entries (lo ++ ((a, n, k, u) ∷ hi))) ≡ entries (lo ++ hi)
  unfolding Sorted.remove
  remove-split k a n u [] hi below = rw (==_self k) refl
  remove-split k a n u ((b, i, j, x) ∷ lo) hi (lt, below) =
      let other : (j == k) ≡ false = ground arith in
      rw other (ap (◌∷◌ (j, x)) (remove-split k a n u lo hi below))

  remove_absent :
      (k : ℕ) (cells : List (Cell V))
      → address k cells ≡ none
      → Sorted.remove k (entries cells) ≡ entries cells
  unfolding Sorted.remove
  remove_absent k [] h = refl
  remove_absent k ((b, i, j, x) ∷ cells) h = elim (Bool-cases (j == k)) [
    | inl e ↦
        let found : some b ≡ none = rw e at h in
        let bad : true ≡ false = ap is_some found in absurd (ground arith)
    | inr e ↦ rw e (ap (◌∷◌ (j, x)) (remove_absent k cells (rw e at h)))
  ]

  -- `Remove` returns the value of the key, if it has one, and the pointers then hold the entries
  -- without it.
  pub remove-Represents :
      (m : SortedMap V) (es : Sorted.SortedMap V) (k : ℕ)
      → Represents m es
      → (m' : SortedMap V) × (remove k m ≡ done (m', Sorted.get k es))
        × Represents m' (Sorted.remove k es)
  unfolding remove
  remove-Represents m es k r =
      let h = r.chained in
      let value = get-entries m k r.cells h.values in
      rw (h.items k, ← r.same, ← value)
        (elim (Option-cases (address k r.cells)) [
          | inl absent ↦ (
            m,
            rw absent refl,
            record { cells = r.cells; chained = h; same = sym (remove_absent k r.cells absent) },
          )
          | inr (a, found) ↦
              let (lo, n, u, hi, eq, below, above) = found-split k a r.cells found h.rising in
              let (m', runs, chained) = remove_present m k a n u lo hi (rw eq at h) below above in
              (
                m',
                rw found runs,
                record {
                  cells = lo ++ hi;
                  chained = chained;
                  same =
                      sym (remove-split k a n u lo hi below)
                      ∙ ap (λ cells. Sorted.remove k (entries cells)) (sym eq);
                },
              )
        ])
