-- ===== src/Linked.antt =====
-- The pointers of linkedmap.go: nodes of a doubly linked list between two sentinels, and a Go map
-- from the keys to the nodes. A node has an address, and `fresh` is the next one that is free.
pub mod Chain
pub mod Refinement
pub mod Without
pub mod Removal
pub mod Remove
pub mod Put
pub mod Read
pub mod Rename
pub mod Replace
pub mod Iterate
pub mod Runs
mod Tests
use qotp.Base.{
  ℕ, zero, suc, List, [], ◌∷◌, ◌+◌, ◌-◌, Option, none, some, Bool, true, false, if◌then◌else◌, ◌==◌,
  is_some,
}

pub record Node {ℓ} (V : Type ℓ) : Type ℓ where
  pub key : ℕ
  pub value : Option V
  pub next : ℕ
  pub prev : ℕ

pub record LinkedMap {ℓ} (V : Type ℓ) : Type ℓ where
  pub items : ℕ → Option ℕ
  pub node : ℕ → Node V
  pub fresh : ℕ
  pub size : ℕ

-- The addresses of the sentinels.
abbrev pub head : ℕ
head = 0

abbrev pub tail : ℕ
tail = 1

abbrev pub update_at {ℓ} : {A : Type ℓ} → ℕ → A → (ℕ → A) → ℕ → A
update_at k a f j = if j == k then a else f j

module _ {ℓ} {V : Type ℓ} where
  abbrev pub set_next : ℕ → ℕ → (ℕ → Node V) → ℕ → Node V
  set_next a next node = update_at a (record (node a) { next = next }) node

  abbrev pub set_prev : ℕ → ℕ → (ℕ → Node V) → ℕ → Node V
  set_prev a prev node = update_at a (record (node a) { prev = prev }) node

  abbrev pub set_value : ℕ → V → (ℕ → Node V) → ℕ → Node V
  set_value a value node = update_at a (record (node a) { value = some value }) node

  unfoldable pub new_linked_map : LinkedMap V
  new_linked_map = record {
    items = λ k. none;
    node = λ a. record { key = 0; value = none; next = tail; prev = head };
    fresh = 2;
    size = 0;
  }

  -- `Put` of a new key: the node goes in front of the tail.
  abbrev pub put_new : ℕ → V → LinkedMap V → LinkedMap V
  put_new k v m =
      let predecessor = (m.node tail).prev in
      let new_node : Node V = record { key = k; value = some v; next = tail; prev = predecessor } in
      record {
        items = update_at k (some m.fresh) m.items;
        node =
            set_prev tail m.fresh
              (set_next predecessor m.fresh (update_at m.fresh new_node m.node));
        fresh = m.fresh + 1;
        size = m.size + 1;
      }

  abbrev pub put_found : ℕ → V → LinkedMap V → Option ℕ → LinkedMap V
  put_found k v m none = put_new k v m
  put_found k v m (some a) = record m { node = set_value a v m.node }

  unfoldable pub put : ℕ → V → LinkedMap V → LinkedMap V
  put k v m = put_found k v m (m.items k)

  abbrev pub get_found : LinkedMap V → Option ℕ → Option V
  get_found m none = none
  get_found m (some a) = (m.node a).value

  unfoldable pub get : ℕ → LinkedMap V → Option V
  get k m = get_found m (m.items k)

  abbrev pub remove_found : ℕ → LinkedMap V → Option ℕ → LinkedMap V
  remove_found k m none = m
  remove_found k m (some a) =
      let node = set_next (m.node a).prev (m.node a).next m.node in
      record m {
        items = update_at k none m.items;
        node = set_prev (node a).next (node a).prev node;
        size = m.size - 1;
      }

  unfoldable pub remove : ℕ → LinkedMap V → LinkedMap V
  remove k m = remove_found k m (m.items k)

  abbrev pub contains : ℕ → LinkedMap V → Bool
  contains k m = is_some (m.items k)

  -- The entry of a node, unless it is the sentinel that ends the walk.
  abbrev pub entry_unless : ℕ → LinkedMap V → ℕ → Option (ℕ × Option V)
  entry_unless stop m a = if a == stop then none else some ((m.node a).key, (m.node a).value)

  unfoldable pub first : LinkedMap V → Option (ℕ × Option V)
  first m = entry_unless tail m (m.node head).next

  abbrev pub next_found : LinkedMap V → Option ℕ → Option (ℕ × Option V)
  next_found m none = none
  next_found m (some a) = entry_unless tail m (m.node a).next

  unfoldable pub next : ℕ → LinkedMap V → Option (ℕ × Option V)
  next k m = next_found m (m.items k)

  abbrev pub previous_found : LinkedMap V → Option ℕ → Option (ℕ × Option V)
  previous_found m none = none
  previous_found m (some a) = entry_unless head m (m.node a).prev

  unfoldable pub previous : ℕ → LinkedMap V → Option (ℕ × Option V)
  previous k m = previous_found m (m.items k)

  -- `Replace`: the node of the old key gets the new one.
  abbrev pub replace_node : ℕ → ℕ → V → LinkedMap V → ℕ → LinkedMap V
  replace_node old new v m a = record m {
    items = update_at new (some a) (update_at old none m.items);
    node = update_at a (record (m.node a) { key = new; value = some v }) m.node;
  }

  abbrev pub replace_free : ℕ → ℕ → V → LinkedMap V → ℕ → Option ℕ → LinkedMap V × Bool
  replace_free old new v m a (some b) = (m, false)
  replace_free old new v m a none = (replace_node old new v m a, true)

  abbrev pub replace_found : ℕ → ℕ → V → LinkedMap V → Option ℕ → LinkedMap V × Bool
  replace_found old new v m none = (m, false)
  replace_found old new v m (some a) =
      if old == new
      then (record m { node = set_value a v m.node }, true)
      else replace_free old new v m a (m.items new)

  unfoldable pub replace : ℕ → ℕ → V → LinkedMap V → LinkedMap V × Bool
  replace old new v m = replace_found old new v m (m.items old)

  -- `Iterator`: the node that it starts at, and the entries that it visits if `yield` never stops
  -- it. The loop has a step for each entry and one for the tail.
  abbrev pub start_found : LinkedMap V → Option ℕ → ℕ
  start_found m none = (m.node head).next
  start_found m (some a) = if (m.node a).next == tail then (m.node head).next else (m.node a).next

  abbrev pub start_node : Option ℕ → LinkedMap V → ℕ
  start_node none m = (m.node head).next
  start_node (some k) m = start_found m (m.items k)

  unfoldable pub traverse : ℕ → LinkedMap V → ℕ → Option (List (ℕ × Option V))
  traverse zero m a = none
  traverse (suc fuel) m a =
      let rest = traverse fuel m (m.node a).next in
      if a == tail then some [] else elim rest [
        | none ↦ none
        | some visited ↦ some (((m.node a).key, (m.node a).value) ∷ visited)
      ]

  unfoldable pub iterate : Option ℕ → LinkedMap V → Option (List (ℕ × Option V))
  iterate start m = traverse (m.size + 1) m (start_node start m)
