-- ===== src/Linked/Replace.antt =====
-- `Replace` of linkedmap.go: the node of the old key gets the new one, in its place.
use qotp.Base.{
  ℕ, ◌≡◌, refl, sym, ap, ◌∙◌, arith, Option, none, some, Bool, true, false, List, [], ◌∷◌, ◌++◌,
  if◌then◌else◌, ◌==◌, Bool-cases, Option-cases, inl, inr, is_some,
}
use qotp.Entries
use qotp.Entries.{Entries}
use qotp.Linked.{Node, LinkedMap, head, tail, update_at, set_value, replace, replace_found}
use qotp.Linked.Chain.{Cell, entries, address, Holds, Nexts-map, Prevs-map, field-update_at}
use qotp.Linked.Refinement.{Chained, Represents}
use qotp.Linked.Rename.{
  found-split, address-front, address-drop, address-insert, Nexts-rename, Prevs-rename, last-rename,
  length-rename, Off-rename, Apart-rename, Holds-rename, Keys-rename, rename-split,
}

module _ {ℓ} {V : Type ℓ} where
  -- A node that keeps its links gets the key `j` and the value `v`.
  pub renamed-Chained :
      (m : LinkedMap V) (a k j : ℕ) (u v : V) (lo hi : List (Cell V)) (n : Node V)
      → (items : ℕ → Option ℕ) → Chained m (lo ++ ((a, k, u) ∷ hi))
      → address j (lo ++ hi) ≡ none
      → n.key ≡ j
      → n.value ≡ some v
      → n.next ≡ (m.node a).next
      → n.prev ≡ (m.node a).prev
      → ((i : ℕ) → items i ≡ (if i == j then some a else address i (lo ++ hi)))
      → Chained (record m { items = items; node = update_at a n m.node }) (lo ++ ((a, j, v) ∷ hi))
  renamed-Chained m a k j u v lo hi n items h free key value next prev found =
      let nexts : (b : ℕ) → (update_at a n m.node b).next ≡ (m.node b).next =
        field-update_at (λ x. x.next) m.node a n next in
      let prevs : (b : ℕ) → (update_at a n m.node b).prev ≡ (m.node b).prev =
        field-update_at (λ x. x.prev) m.node a n prev in
      record {
        nexts = Nexts-rename a k j u v hi (update_at a n m.node) head tail lo (
            Nexts-map m.node (update_at a n m.node) head (lo ++ ((a, k, u) ∷ hi)) tail nexts
              h.nexts);
        prevs =
            Prevs-rename a k j u v hi (update_at a n m.node) head lo
              (Prevs-map m.node (update_at a n m.node) head (lo ++ ((a, k, u) ∷ hi)) prevs h.prevs);
        back = prevs tail ∙ h.back ∙ last-rename a k j u v hi head lo;
        holds = Holds-rename a k j u v hi m.node n lo key value h.apart h.holds;
        items = λ i. found i ∙ sym (address-insert i a j v lo hi (address-front j lo hi free));
        apart = Apart-rename a k j u v hi lo h.apart;
        keys = Keys-rename a k j u v hi lo free h.keys;
        off_head = Off-rename a k j u v hi head lo h.off_head;
        off_tail = Off-rename a k j u v hi tail lo h.off_tail;
        free = λ b le. Off-rename a k j u v hi b lo (h.free b le);
        low = h.low;
        size = h.size ∙ length-rename a k j u v hi lo;
      }

  key-Holds :
      (node : ℕ → Node V) (a k : ℕ) (u : V) (lo hi : List (Cell V))
      → Holds node (lo ++ ((a, k, u) ∷ hi))
      → (node a).key ≡ k
  key-Holds node a k u [] hi (key, value, rest) = key
  key-Holds node a k u (c ∷ lo) hi (key, value, rest) = key-Holds node a k u lo hi rest

  -- A new value alone.
  pub revalued-Chained :
      (m : LinkedMap V) (a k : ℕ) (u v : V) (lo hi : List (Cell V))
      → Chained m (lo ++ ((a, k, u) ∷ hi))
      → address k (lo ++ hi) ≡ none
      → Chained (record m { node = set_value a v m.node }) (lo ++ ((a, k, v) ∷ hi))
  revalued-Chained m a k u v lo hi h free =
      renamed-Chained m a k k u v lo hi (record (m.node a) { value = some v }) m.items h free
        (key-Holds m.node a k u lo hi h.holds) refl refl refl
        (λ i. h.items i ∙ address-insert i a k u lo hi (address-front k lo hi free))

  -- Which keys the contract's map contains.
  get-address :
      (k : ℕ) (cells : List (Cell V))
      → is_some (Entries.get k (entries cells)) ≡ is_some (address k cells)
  unfolding Entries.get
  get-address k [] = refl
  get-address k ((a, j, v) ∷ cells) = elim (Bool-cases (j == k)) [
    | inl e ↦ rw e refl
    | inr e ↦ rw e (get-address k cells)
  ]

  test_lem : (o : Option V) → elim o as (λ x. Bool) [ none ↦ false | some v ↦ true ] ≡ is_some o
  test_lem none = refl
  test_lem (some v) = refl

  contains-entries :
      (k : ℕ) (cells : List (Cell V))
      → Entries.contains k (entries cells) ≡ is_some (address k cells)
  contains-entries k cells = test_lem (Entries.get k (entries cells)) ∙ get-address k cells

  -- Where each key is found after the old one is replaced.
  items-replace :
      (m : LinkedMap V) (a old new : ℕ) (u : V) (lo hi : List (Cell V))
      → Chained m (lo ++ ((a, old, u) ∷ hi))
      → address old (lo ++ hi) ≡ none
      → (i : ℕ)
      → update_at new (some a) (update_at old none m.items) i
        ≡ (if i == new then some a else address i (lo ++ hi))
  items-replace m a old new u lo hi h free i = elim (Bool-cases (i == new)) [
    | inl e ↦ rw e refl
    | inr e ↦ elim (Bool-cases (i == old)) [
      | inl q ↦ let same : i ≡ old = ground arith in rw (e, q, same) (sym free)
      | inr q ↦
          rw (e, q)
            (h.items i ∙ address-insert i a old u lo hi (address-front old lo hi free) ∙ rw q refl)
    ]
  ]

  Replaced : ℕ → ℕ → V → LinkedMap V → Entries V → Type ℓ
  Replaced old new v m es =
      ((replace_found old new v m (m.items old)).1 ≡ (Entries.replace old new v es).1)
      × Represents (replace_found old new v m (m.items old)).0 (Entries.replace old new v es).0

  replace_absent :
      (m : LinkedMap V) (old new : ℕ) (v : V) (cells : List (Cell V))
      → Chained m cells
      → address old cells ≡ none
      → Replaced old new v m (entries cells)
  unfolding Replaced Entries.replace
  replace_absent m old new v cells h absent =
      let off : Entries.contains old (entries cells) ≡ false =
        contains-entries old cells ∙ ap is_some absent in
      rw (h.items old, absent, off) (refl, record { cells = cells; chained = h; same = refl })

  replace_present :
      (m : LinkedMap V) (old new a : ℕ) (u v : V) (lo hi : List (Cell V))
      → Chained m (lo ++ ((a, old, u) ∷ hi))
      → m.items old ≡ some a
      → address old (lo ++ hi) ≡ none
      → Replaced old new v m (entries (lo ++ ((a, old, u) ∷ hi)))
  unfolding Replaced Entries.replace
  replace_present m old new a u v lo hi h found free =
      let cells = lo ++ ((a, old, u) ∷ hi) in
      let here : Entries.contains old (entries cells) ≡ true =
        contains-entries old cells ∙ ap is_some (sym (h.items old) ∙ found) in
      let front = address-front old lo hi free in
      elim (Bool-cases (old == new)) [
        | inl e ↦
            let same : old ≡ new = ground arith in
            rw (found, here, e)
              (
                refl,
                record {
                  cells = lo ++ ((a, new, v) ∷ hi);
                  chained = rw (← same) (revalued-Chained m a old u v lo hi h free);
                  same = sym (rename-split a old new u v hi lo front);
                },
              )
        | inr e ↦ elim (Option-cases (address new cells)) [
          | inl absent ↦
              let off : Entries.contains new (entries cells) ≡ false =
                contains-entries new cells ∙ ap is_some absent in
              rw (found, here, e, h.items new, absent, off)
                (
                  refl,
                  record {
                    cells = lo ++ ((a, new, v) ∷ hi);
                    chained =
                        renamed-Chained m a old new u v lo hi
                          (record (m.node a) { key = new; value = some v })
                          (update_at new (some a) (update_at old none m.items)) h
                          (address-drop new (a, old, u) lo hi absent) refl refl refl refl
                          (items-replace m a old new u lo hi h free);
                    same = sym (rename-split a old new u v hi lo front);
                  },
                )
          | inr (b, taken) ↦
              let on : Entries.contains new (entries cells) ≡ true =
                contains-entries new cells ∙ ap is_some taken in
              rw (found, here, e, h.items new, taken, on)
                (refl, record { cells = cells; chained = h; same = refl })
        ]
      ]

  -- `Replace`: the answer is the contract's, and so are the entries that the pointers then hold. A
  -- missing old key and a new key that is taken leave the map as it is; else the entry of the old
  -- key has the new key and the value, in its place.
  pub replace-Represents :
      (m : LinkedMap V) (es : Entries V) (old new : ℕ) (v : V)
      → Represents m es
      → ((replace old new v m).1 ≡ (Entries.replace old new v es).1)
        × Represents (replace old new v m).0 (Entries.replace old new v es).0
  unfolding replace Replaced
  replace-Represents m es old new v r = rw (← r.same) (elim (Option-cases (address old r.cells)) [
    | inl absent ↦ replace_absent m old new v r.cells r.chained absent
    | inr (a, found) ↦
        let (lo, u, hi, eq, free) = found-split old a r.cells found r.chained.keys in
        rw eq (
          replace_present m old new a u v lo hi (rw eq at r.chained) (r.chained.items old ∙ found)
            free)
  ])
