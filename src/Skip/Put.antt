-- ===== src/Skip/Put.antt =====
-- About `Put` of sortedmap.go.
use qotp.Base.{
  ℕ, ◌-◌, ◌≤◌, ◌<◌, ◌≡◌, refl, sym, ap, ◌∙◌, arith, Option, none, some, true, false, List, [], ◌∷◌,
  ◌++◌, ltb, ◌==◌, ==_self, ==_ne, Bool-cases, Option-cases, inl, inr, min,
}
use qotp.Sorted
use qotp.Skip.{SortedMap, done, head, tail, max_level, update_at, put, put_found, put_at}
use qotp.Skip.Chain.{Cell, entries, address, last, last_at, last_at-zero, Levels, Below, Above}
use qotp.Skip.Level.{get_node_level-IsLevel}
use qotp.Skip.Split.{absent-split, found-split, Apart-delete}
use qotp.Skip.Refinement.{Represents, Chained, search_map_lem, after-last, Tall-split}
use qotp.Skip.Read.{Below-Passes, Above-Stops}
use qotp.Skip.Rewire.{Levels-last_at, last_at-Tall}
use qotp.Skip.Insert.{nodes0, at-ne-fresh, put-Chained}
use qotp.Skip.Reset.{
  Values-reset, Keys-reset, Levels-reset, Afters-reset, Prevs-reset, first-reset, Nexts-reset,
  address-reset, Off-reset, Apart-reset, Rising-reset, Tall-reset, length-reset,
}
use qotp.Skip.Loops.{raise_lem, link_levels_lem}

module _ {ℓ} {V : Type ℓ} where
  pub Levels-split :
      (levels : ℕ → ℕ) (lo hi : List (Cell V)) → Levels levels (lo ++ hi) → Levels levels lo
  Levels-split levels [] hi w = tt
  Levels-split levels ((a, h, k, v) ∷ lo) hi (w', w) = (w', Levels-split levels lo hi w)

  -- The node is linked where the search has been, on each level that it gets.
  put_at_lem :
      (m : SortedMap V) (k level : ℕ) (v : V) (lo hi : List (Cell V)) (was : ℕ → Option ℕ)
      → Chained m (lo ++ hi)
      → Below k lo
      → Above k hi
      → 0 < level
      → level ≤ max_level
      → ((j : ℕ) → j < m.level → was j ≡ some (last_at j head lo))
      → (m' : SortedMap V) × (put_at k v m level was ≡ done m')
        × Chained m' (lo ++ ((m.fresh, level, k, v) ∷ hi))
  put_at_lem m k level v lo hi was h below above pos most seen =
      let tall = (Tall-split m.level lo hi h.tall).0 in
      let (update, raised, low, high) =
        raise_lem (level - m.level) m.level was (omega (arith, h.level_cap)) in
      let known : (j : ℕ) → j < level → update j ≡ some (last_at j head lo) = λ j lt.
        elim (Bool-cases (ltb j m.level)) [
          | inl l ↦ low j (ground arith) ∙ seen j (ground arith)
          | inr l ↦
              high j (ground arith) (ground arith)
              ∙ ap some (sym (last_at-Tall m.level j head lo (ground arith) tall))
        ] in
      let s0 = nodes0 m k level v lo hi h below above pos most in
      let ne = at-ne-fresh m k level v lo hi h below above pos most in
      let reach : (j : ℕ) → j < level → j < s0.levels (last_at j head lo) = λ j lt.
        rw (==_ne (last_at j head lo) m.fresh (ne j)) (
          Levels-last_at m.nodes.levels j head lo (omega (arith, h.head_levels))
            (Levels-split m.nodes.levels lo hi h.levels)) in
      let own : level ≤ s0.levels m.fresh = rw (==_self m.fresh) (omega arith) in
      let (next', linked, effect) =
        link_levels_lem level 0 level m.fresh (λ j. last_at j head lo) update s0 (omega arith) known
          reach ne own in
      let first = last_at-zero m.level head lo tall in
      let here : update 0 ≡ some (last head lo) = known 0 pos ∙ ap some first in
      let behind = after-last m.nodes.after head lo hi h.afters in
      (
        _,
        rw raised (rw linked (rw here refl)),
        put-Chained m k level v lo hi h below above pos most next' effect (last head lo)
            (m.nodes.after (last head lo)) refl behind,
      )

  -- A key that is not in the map gets a node of its own, at its place in the order.
  put_absent :
      (m : SortedMap V) (k : ℕ) (v : V) (lo hi : List (Cell V))
      → Chained m (lo ++ hi)
      → Below k lo
      → Above k hi
      → (m' : SortedMap V) × (n : ℕ) × (put_found k v m none ≡ done m')
        × Chained m' (lo ++ ((m.fresh, n, k, v) ∷ hi))
  put_absent m k v lo hi h below above =
      let (found, runs, w) =
        search_map_lem (λ j. ltb j k) m lo hi h (Below-Passes k lo below)
          (Above-Stops k hi above) in
      let (count, leveled, (q, e, eq, odd, sum)) = get_node_level-IsLevel m.size in
      let (m', put, chained) =
        put_at_lem m k (min count max_level) v lo hi found.1 h below above (ground arith)
          (ground arith) w.low in
      (m', min count max_level, rw runs (rw leveled put), chained)

  -- A key that is there keeps its node, which gets the value.
  put_present :
      (m : SortedMap V) (k a n : ℕ) (v u : V) (lo hi : List (Cell V))
      → Chained m (lo ++ ((a, n, k, u) ∷ hi))
      → Chained
          (record m { nodes = record m.nodes { value = update_at a (some v) m.nodes.value } })
          (lo ++ ((a, n, k, v) ∷ hi))
  put_present m k a n v u lo hi h =
      let (offl, offr, rest) = Apart-delete a n k u lo hi h.apart in
      record {
        keys = Keys-reset a n k v u hi m.nodes.key lo h.keys;
        values = Values-reset a n k v u hi m.nodes.value lo offl offr h.values;
        levels = Levels-reset a n k v u hi m.nodes.levels lo h.levels;
        head_levels = h.head_levels;
        afters = Afters-reset a n k v u hi m.nodes.after head lo h.afters;
        prevs = Prevs-reset a n k v u hi m.nodes.prev head lo h.prevs;
        leads = λ i lt. h.leads i lt ∙ first-reset a n k v u hi i lo;
        nexts = Nexts-reset a n k v u hi m.nodes.next lo h.nexts;
        items = λ j. h.items j ∙ address-reset a n k v u hi j lo;
        apart = Apart-reset a n k v u hi lo h.apart;
        rising = Rising-reset a n k v u hi lo h.rising;
        off_head = Off-reset a n k v u hi head lo h.off_head;
        off_tail = Off-reset a n k v u hi tail lo h.off_tail;
        free = λ x le. Off-reset a n k v u hi x lo (h.free x le);
        low = h.low;
        size = h.size ∙ length-reset a n k v u hi lo;
        tall = Tall-reset a n k v u hi m.level lo h.tall;
        level_pos = h.level_pos;
        level_cap = h.level_cap;
      }

  -- The contract's answer, where the keys are split.
  put-split :
      (k a n : ℕ) (v : V) (lo hi : List (Cell V))
      → Below k lo
      → Above k hi
      → Sorted.put k v (entries (lo ++ hi)) ≡ entries (lo ++ ((a, n, k, v) ∷ hi))
  unfolding Sorted.put
  put-split k a n v [] [] below above = refl
  put-split k a n v [] ((b, i, j, x) ∷ hi) below (lt, above) =
      let other : (j == k) ≡ false = ground arith in
      let smaller : ltb k j ≡ true = ground arith in rw (other, smaller) refl
  put-split k a n v ((b, i, j, x) ∷ lo) hi (lt, below) above =
      let other : (j == k) ≡ false = ground arith in
      let larger : ltb k j ≡ false = ground arith in
      rw (other, larger) (ap (◌∷◌ (j, x)) (put-split k a n v lo hi below above))

  put-split_found :
      (k a n : ℕ) (v u : V) (lo hi : List (Cell V))
      → Below k lo
      → Sorted.put k v (entries (lo ++ ((a, n, k, u) ∷ hi))) ≡ entries (lo ++ ((a, n, k, v) ∷ hi))
  unfolding Sorted.put
  put-split_found k a n v u [] hi below = rw (==_self k) refl
  put-split_found k a n v u ((b, i, j, x) ∷ lo) hi (lt, below) =
      let other : (j == k) ≡ false = ground arith in
      let larger : ltb k j ≡ false = ground arith in
      rw (other, larger) (ap (◌∷◌ (j, x)) (put-split_found k a n v u lo hi below))

  -- `Put` of a key and a value returns, and the pointers then hold the entries that the contract
  -- says: those before, with the value at the key's place in the order.
  pub put-Represents :
      (m : SortedMap V) (es : Sorted.SortedMap V) (k : ℕ) (v : V)
      → Represents m es
      → (m' : SortedMap V) × (put k v m ≡ done m') × Represents m' (Sorted.put k v es)
  unfolding put
  put-Represents m es k v r =
      let h = r.chained in
      rw (h.items k, ← r.same)
        (elim (Option-cases (address k r.cells)) [
          | inl absent ↦
              let (lo, hi, eq, below, above) = absent-split k r.cells absent h.rising in
              let (m', n, runs, chained) = put_absent m k v lo hi (rw eq at h) below above in
              (
                m',
                rw absent runs,
                record {
                  cells = lo ++ ((m.fresh, n, k, v) ∷ hi);
                  chained = chained;
                  same =
                      sym (put-split k m.fresh n v lo hi below above)
                      ∙ ap (λ cells. Sorted.put k v (entries cells)) (sym eq);
                },
              )
          | inr (a, found) ↦
              let (lo, n, u, hi, eq, below, above) = found-split k a r.cells found h.rising in
              (
                _,
                rw found refl,
                record {
                  cells = lo ++ ((a, n, k, v) ∷ hi);
                  chained = put_present m k a n v u lo hi (rw eq at h);
                  same =
                      sym (put-split_found k a n v u lo hi below)
                      ∙ ap (λ cells. Sorted.put k v (entries cells)) (sym eq);
                },
              )
        ])
