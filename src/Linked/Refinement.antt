-- ===== src/Linked/Refinement.antt =====
-- The pointers of linkedmap.go hold the entries that the contract of Entries describes.
use qotp.Base.{
  ℕ, ◌≤◌, ◌≡◌, ◌≢◌, refl, sym, ap, ◌∙◌, arith, none, some, List, [], ◌∷◌, ◌++◌, true, false, ◌==◌,
  ==_self, ==_ne, Bool-cases, inl, inr, length, length-append, is_some,
}
use qotp.Entries
use qotp.Entries.{Entries}
use qotp.Linked.{
  Node, LinkedMap, head, tail, update_at, set_next, set_prev, new_linked_map, put, put_new, get,
  get_found,
}
use qotp.Linked.Chain.{
  Cell, entries, address, Nexts, Prevs, Holds, Off, Apart, Keys, last, last-Off, last-append,
  Off-append, Apart-append, Nexts-update_at, Prevs-update_at, Holds-update_at, Nexts-map, Prevs-map,
  Holds-map, field-update_at, Nexts-set_next, Nexts-append, Prevs-append, Holds-append,
}

module _ {ℓ} {V : Type ℓ} where
  -- The nodes of the map are these cells, in this order.
  pub record Chained (m : LinkedMap V) (cells : List (Cell V)) : Type ℓ where
    pub nexts : Nexts m.node head cells tail
    pub prevs : Prevs m.node head cells
    pub back : (m.node tail).prev ≡ last head cells
    pub holds : Holds m.node cells
    pub items : (k : ℕ) → m.items k ≡ address k cells
    pub apart : Apart cells
    pub keys : Keys cells
    pub off_head : Off head cells
    pub off_tail : Off tail cells
    pub free : (a : ℕ) → m.fresh ≤ a → Off a cells
    pub low : 2 ≤ m.fresh
    pub size : m.size ≡ length cells

  -- The map holds these entries in their order.
  pub record Represents (m : LinkedMap V) (es : Entries V) : Type ℓ where
    pub cells : List (Cell V)
    pub chained : Chained m cells
    pub same : entries cells ≡ es

  pub get-entries :
      (m : LinkedMap V) (k : ℕ) (cells : List (Cell V))
      → Holds m.node cells
      → get_found m (address k cells) ≡ Entries.get k (entries cells)
  unfolding Entries.get
  get-entries m k [] h = refl
  get-entries m k ((a, j, v) ∷ cells) (key, h, rest) = elim (Bool-cases (j == k)) [
    | inl e ↦ rw e h
    | inr e ↦ rw e (get-entries m k cells rest)
  ]

  address-append_other :
      (j a k : ℕ) (v : V) (cells : List (Cell V))
      → k ≢ j
      → address j (cells ++ ((a, k, v) ∷ [])) ≡ address j cells
  address-append_other j a k v [] ne = rw (==_ne k j ne) refl
  address-append_other j a k v ((b, i, w) ∷ cells) ne = elim (Bool-cases (i == j)) [
    | inl e ↦ rw e refl
    | inr e ↦ rw e (address-append_other j a k v cells ne)
  ]

  address-append :
      (a k : ℕ) (v : V) (cells : List (Cell V))
      → address k cells ≡ none
      → (address k (cells ++ ((a, k, v) ∷ [])) ≡ some a)
        × (entries (cells ++ ((a, k, v) ∷ [])) ≡ Entries.put k v (entries cells))
  unfolding Entries.put
  address-append a k v [] h = (rw (==_self k) refl, refl)
  address-append a k v ((b, i, w) ∷ cells) h = elim (Bool-cases (i == k)) [
    | inl e ↦
        let found : some b ≡ none = rw e at h in
        let bad : true ≡ false = ap is_some found in absurd (ground arith)
    | inr e ↦
        let absent : address k cells ≡ none = rw e at h in
        let (here, there) = address-append a k v cells absent in
        (rw e here, rw e (ap (◌∷◌ (i, w)) there))
  ]

  Keys-append :
      (a k : ℕ) (v : V) (cells : List (Cell V))
      → Keys cells
      → address k cells ≡ none
      → Keys (cells ++ ((a, k, v) ∷ []))
  Keys-append a k v [] keys absent = (refl, tt)
  Keys-append a k v ((b, i, w) ∷ cells) (key, keys) absent = elim (Bool-cases (i == k)) [
    | inl e ↦
        let found : some b ≡ none = rw e at absent in
        let bad : true ≡ false = ap is_some found in absurd (ground arith)
    | inr e ↦ (
      address-append_other i a k v cells (λ q. ground arith) ∙ key,
      Keys-append a k v cells keys (rw e at absent),
    )
  ]

  module _ (m : LinkedMap V) (cells : List (Cell V)) (k : ℕ) (v : V) (h : Chained m cells)
      (absent : address k cells ≡ none) where
    abbrev new_node : Node V
    new_node = record { key = k; value = some v; next = tail; prev = (m.node tail).prev }

    abbrev node1 : ℕ → Node V
    node1 = update_at m.fresh new_node m.node

    abbrev node2 : ℕ → Node V
    node2 = set_next (m.node tail).prev m.fresh node1

    abbrev node3 : ℕ → Node V
    node3 = set_prev tail m.fresh node2

    fresh-Off : Off m.fresh cells
    fresh-Off = h.free m.fresh (omega arith)

    last-ne-fresh : m.fresh ≢ (m.node tail).prev
    last-ne-fresh e =
        last-Off m.fresh head cells (λ q. omega (arith, h.low)) fresh-Off (sym (e ∙ h.back))

    fresh_next : (node3 m.fresh).next ≡ tail
    fresh_next =
        field-update_at (λ n. n.next) node2 tail (record (node2 tail) { prev = m.fresh }) refl
          m.fresh
        ∙ rw (==_ne m.fresh (m.node tail).prev last-ne-fresh, ==_self m.fresh) refl

    fresh_prev : (node3 m.fresh).prev ≡ last head cells
    fresh_prev =
        rw
          (
            ==_ne m.fresh tail (λ q. omega (arith, h.low)),
            ==_ne m.fresh (m.node tail).prev last-ne-fresh,
            ==_self m.fresh,
          )
          h.back

    next3 : (b : ℕ) → (node3 b).next ≡ (node2 b).next
    next3 = field-update_at (λ n. n.next) node2 tail (record (node2 tail) { prev = m.fresh }) refl

    prev2 : (b : ℕ) → (node2 b).prev ≡ (node1 b).prev
    prev2 =
        let pred = (m.node tail).prev in
        field-update_at (λ n. n.prev) node1 pred (record (node1 pred) { next = m.fresh }) refl

    key2 : (b : ℕ) → (node2 b).key ≡ (node1 b).key
    key2 =
        let pred = (m.node tail).prev in
        field-update_at (λ n. n.key) node1 pred (record (node1 pred) { next = m.fresh }) refl

    key3 : (b : ℕ) → (node3 b).key ≡ (node2 b).key
    key3 = field-update_at (λ n. n.key) node2 tail (record (node2 tail) { prev = m.fresh }) refl

    value2 : (b : ℕ) → (node2 b).value ≡ (node1 b).value
    value2 =
        let pred = (m.node tail).prev in
        field-update_at (λ n. n.value) node1 pred (record (node1 pred) { next = m.fresh }) refl

    value3 : (b : ℕ) → (node3 b).value ≡ (node2 b).value
    value3 = field-update_at (λ n. n.value) node2 tail (record (node2 tail) { prev = m.fresh }) refl

    changed-Nexts :
        (q : ℕ) → q ≡ last head cells → Nexts (set_next q m.fresh node1) head cells m.fresh
    changed-Nexts q e = rw e (
        Nexts-set_next node1 head cells tail m.fresh h.off_head h.apart (
          Nexts-update_at m.node m.fresh new_node head cells tail (λ q. omega (arith, h.low))
            fresh-Off h.nexts))

    nexts_lem : Nexts node3 head (cells ++ ((m.fresh, k, v) ∷ [])) tail
    nexts_lem =
        Nexts-append node3 head m.fresh k v cells tail
          (Nexts-map node2 node3 head cells m.fresh next3 (changed-Nexts (m.node tail).prev h.back))
          fresh_next

    prevs_lem : Prevs node3 head (cells ++ ((m.fresh, k, v) ∷ []))
    prevs_lem =
        Prevs-append node3 head m.fresh k v cells
          (Prevs-update_at node2 tail (record (node2 tail) { prev = m.fresh }) head cells h.off_tail
            (Prevs-map node1 node2 head cells prev2
              (Prevs-update_at m.node m.fresh new_node head cells fresh-Off h.prevs)))
          fresh_prev

    holds_lem : Holds node3 (cells ++ ((m.fresh, k, v) ∷ []))
    holds_lem =
        Holds-append node3 m.fresh k v cells
          (Holds-map node2 node3 cells key3 value3 (
            Holds-map node1 node2 cells key2 value2
              (Holds-update_at m.node m.fresh new_node cells fresh-Off h.holds)))
          (key3 m.fresh ∙ key2 m.fresh ∙ rw (==_self m.fresh) refl)
          (value3 m.fresh ∙ value2 m.fresh ∙ rw (==_self m.fresh) refl)

    items_lem :
        (j : ℕ) → update_at k (some m.fresh) m.items j ≡ address j (cells ++ ((m.fresh, k, v) ∷ []))
    items_lem j = elim (Bool-cases (j == k)) [
      | inl e ↦
          let eq : j ≡ k = ground arith in
          rw (e, eq) (sym (address-append m.fresh k v cells absent).0)
      | inr e ↦
          rw e (h.items j ∙ sym (address-append_other j m.fresh k v cells (λ q. ground arith)))
    ]

    put_new-Chained : Chained (put_new k v m) (cells ++ ((m.fresh, k, v) ∷ []))
    put_new-Chained = record {
      nexts = nexts_lem;
      prevs = prevs_lem;
      back = sym (last-append head m.fresh k v cells);
      holds = holds_lem;
      items = items_lem;
      apart = Apart-append m.fresh k v cells h.apart fresh-Off;
      keys = Keys-append m.fresh k v cells h.keys absent;
      off_head = Off-append head m.fresh k v cells h.off_head (λ q. omega (arith, h.low));
      off_tail = Off-append tail m.fresh k v cells h.off_tail (λ q. omega (arith, h.low));
      free = λ a le. Off-append a m.fresh k v cells (h.free a (omega arith)) (λ q. omega arith);
      low = omega (arith, h.low);
      size = omega (arith, h.size, length-append cells ((m.fresh, k, v) ∷ []));
    }

  -- The map that `NewLinkedMap` makes is empty.
  pub new_linked_map-Represents : Represents new_linked_map []
  unfolding new_linked_map
  new_linked_map-Represents = record {
    cells = [];
    chained = record {
      nexts = refl;
      prevs = tt;
      back = refl;
      holds = tt;
      items = λ k. refl;
      apart = tt;
      keys = tt;
      off_head = tt;
      off_tail = tt;
      free = λ a le. tt;
      low = omega arith;
      size = refl;
    };
    same = refl;
  }

  -- `Get` reads the entry of the key, wherever its node is.
  pub get-Represents :
      (m : LinkedMap V) (es : Entries V) (k : ℕ) → Represents m es → get k m ≡ Entries.get k es
  unfolding get
  get-Represents m es k r =
      rw (r.chained.items k) (get-entries m k r.cells r.chained.holds) ∙ ap (Entries.get k) r.same

  -- `Put` of a key that is not in the map.
  pub put_absent :
      (m : LinkedMap V) (es : Entries V) (k : ℕ) (v : V) (r : Represents m es)
      → address k r.cells ≡ none
      → Represents (put k v m) (Entries.put k v es)
  unfolding put
  put_absent m es k v r absent =
      rw (r.chained.items k, absent)
        (record {
          cells = r.cells ++ ((m.fresh, k, v) ∷ []);
          chained = put_new-Chained m r.cells k v r.chained absent;
          same = (address-append m.fresh k v r.cells absent).1 ∙ ap (Entries.put k v) r.same;
        })
