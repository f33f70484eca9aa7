-- ===== src/Linked/Remove.antt =====
-- `Remove` of linkedmap.go.
use qotp.Base.{
  ℕ, ◌-◌, ◌≡◌, refl, sym, ap, ◌∙◌, arith, none, some, List, ◌==◌, Bool-cases, Option-cases, inl,
  inr,
}
use qotp.Entries
use qotp.Entries.{Entries}
use qotp.Linked.{Node, LinkedMap, head, tail, update_at, set_next, set_prev, remove}
use qotp.Linked.Chain.{Cell, entries, address, Nexts-map, Prevs-map, Holds-map, field-update_at}
use qotp.Linked.Refinement.{Chained, Represents}
use qotp.Linked.Removal.{prev-before, next-behind, Nexts-without, Prevs-without, back-without}
use qotp.Linked.Without.{
  without, before, behind, entries-without, Off-without, Apart-without, Holds-without,
  address-without_other, address-without, Keys-without, length-without, without_absent,
}

module _ {ℓ} {V : Type ℓ} where
  -- The links that `Remove` writes, where they are those of the node's neighbours.
  removed-Chained :
      (m : LinkedMap V) (cells : List (Cell V)) (k a q s q' s' : ℕ)
      → Chained m cells
      → address k cells ≡ some a
      → q ≡ before k head cells
      → s ≡ behind k cells
      → q' ≡ before k head cells
      → s' ≡ behind k cells
      → Chained
          (record m {
            items = update_at k none m.items;
            node = set_prev s' q' (set_next q s m.node);
            size = m.size - 1;
          })
          (without k cells)
  removed-Chained m cells k a q s q' s' h found eq es eq' es' =
      let node1 = set_next (before k head cells) (behind k cells) m.node in
      let prev1 : (b : ℕ) → (node1 b).prev ≡ (m.node b).prev =
        field-update_at (λ n. n.prev) m.node (before k head cells)
          (record (m.node (before k head cells)) { next = behind k cells }) refl in
      let key1 : (b : ℕ) → (node1 b).key ≡ (m.node b).key =
        field-update_at (λ n. n.key) m.node (before k head cells)
          (record (m.node (before k head cells)) { next = behind k cells }) refl in
      let value1 : (b : ℕ) → (node1 b).value ≡ (m.node b).value =
        field-update_at (λ n. n.value) m.node (before k head cells)
          (record (m.node (before k head cells)) { next = behind k cells }) refl in
      let items_lem : (j : ℕ) → update_at k none m.items j ≡ address j (without k cells) = λ j.
        elim (Bool-cases (j == k)) [
          | inl e ↦
              let same : j ≡ k = ground arith in rw (e, same) (sym (address-without k cells h.keys))
          | inr e ↦ rw e (h.items j ∙ sym (address-without_other j k cells (λ q. ground arith)))
        ] in
      rw (eq, es, eq', es')
        (record {
          nexts =
              Nexts-map node1 (set_prev (behind k cells) (before k head cells) node1) head
                (without k cells) tail
                (field-update_at (λ n. n.next) node1 (behind k cells)
                  (record (node1 (behind k cells)) { prev = before k head cells }) refl)
                (Nexts-without m.node k a head cells found h.off_head h.apart h.nexts);
          prevs =
              Prevs-without node1 k a head cells found h.off_tail h.apart
                (Prevs-map m.node node1 head cells prev1 h.prevs);
          back = back-without node1 k a head cells found h.off_tail (prev1 tail ∙ h.back);
          holds =
              Holds-map node1 (set_prev (behind k cells) (before k head cells) node1)
                (without k cells)
                (field-update_at (λ n. n.key) node1 (behind k cells)
                  (record (node1 (behind k cells)) { prev = before k head cells }) refl)
                (field-update_at (λ n. n.value) node1 (behind k cells)
                  (record (node1 (behind k cells)) { prev = before k head cells }) refl)
                (Holds-map m.node node1 (without k cells) key1 value1
                  (Holds-without m.node k cells h.holds));
          items = items_lem;
          apart = Apart-without k cells h.apart;
          keys = Keys-without k cells h.keys;
          off_head = Off-without head k cells h.off_head;
          off_tail = Off-without tail k cells h.off_tail;
          free = λ b le. Off-without b k cells (h.free b le);
          low = h.low;
          size = omega (arith, h.size, length-without k a cells found);
        })

  next-set_next :
      (node : ℕ → Node V) (a q : ℕ) → (set_next q (node a).next node a).next ≡ (node a).next
  next-set_next node a q = elim (Bool-cases (a == q)) [ inl e ↦ rw e refl | inr e ↦ rw e refl ]

  -- `Remove`: the pointers then hold the entries without that of the key, in the same order, also
  -- when the key is not in the map.
  pub remove-Represents :
      (m : LinkedMap V) (es : Entries V) (k : ℕ)
      → Represents m es
      → Represents (remove k m) (Entries.remove k es)
  unfolding remove
  remove-Represents m es k r = elim (Option-cases (address k r.cells)) [
    | inl absent ↦
        rw (r.chained.items k, absent)
          (record {
            cells = r.cells;
            chained = r.chained;
            same =
                ap entries (sym (without_absent k r.cells absent))
                ∙ entries-without k r.cells
                ∙ ap (Entries.remove k) r.same;
          })
    | inr (a, found) ↦
        let h = r.chained in
        let q = prev-before m.node k a head r.cells found h.prevs in
        let s = next-behind m.node k a head r.cells found h.nexts in
        let prev1 =
          field-update_at (λ n. n.prev) m.node (m.node a).prev
            (record (m.node (m.node a).prev) { next = (m.node a).next }) refl a in
        rw (h.items k, found)
          (record {
            cells = without k r.cells;
            chained =
                removed-Chained m r.cells k a (m.node a).prev (m.node a).next
                  (set_next (m.node a).prev (m.node a).next m.node a).prev
                  (set_next (m.node a).prev (m.node a).next m.node a).next h found q s (prev1 ∙ q)
                  (next-set_next m.node a (m.node a).prev ∙ s);
            same = entries-without k r.cells ∙ ap (Entries.remove k) r.same;
          })
  ]
