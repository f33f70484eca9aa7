-- ===== src/Skip.antt =====
-- The pointers of sortedmap.go: a skip list between two sentinels, a doubly linked list through
-- the same nodes, and a Go map from the keys to the nodes. A node has an address, `fresh` is the
-- next one that is free, and each field of the nodes is a function of the address. A slice of
-- pointers is a function with its length; nil is `none`. The loops that follow pointers recur on
-- fuel: as many steps at a level as the map has entries, and one more.
pub mod Chain
pub mod Level
pub mod Search
pub mod Split
pub mod Refinement
pub mod Contract
pub mod Read
pub mod Rewire
pub mod Links
pub mod Loops
pub mod Unlink
pub mod Insert
pub mod Reset
pub mod Put
pub mod Delete
pub mod Remove
pub mod Runs
mod Tests
use qotp.Base.{
  ℕ, zero, suc, ◌+◌, ◌-◌, ◌/◌, ◌%◌, Option, none, some, Bool, true, false, not, if◌then◌else◌, ltb,
  leb, ◌==◌, is_some,
}

pub data Loop {ℓ} (A : Type ℓ) : Type ℓ where
  done : A → Loop A
  panic : Loop A
  out_of_fuel : Loop A

infixl 5 ◌>>=◌
abbrev pub ◌>>=◌ {ℓ κ} : {A : Type ℓ} {B : Type κ} → Loop A → (A → Loop B) → Loop B
done a >>= k = k a
panic >>= k = panic
out_of_fuel >>= k = out_of_fuel

abbrev pub max_level : ℕ
max_level = 32

abbrev pub nodes_per_level : ℕ
nodes_per_level = 4

-- The addresses of the sentinels.
abbrev pub head : ℕ
head = 0

abbrev pub tail : ℕ
tail = 1

abbrev pub update_at {ℓ} : {A : Type ℓ} → ℕ → A → (ℕ → A) → ℕ → A
update_at k a f j = if j == k then a else f j

-- The fields of `smNode`; `levels` is the length of `next`.
pub record Nodes {ℓ} (V : Type ℓ) : Type ℓ where
  pub key : ℕ → ℕ
  pub value : ℕ → Option V
  pub levels : ℕ → ℕ
  pub next : ℕ → ℕ → Option ℕ
  pub after : ℕ → ℕ
  pub prev : ℕ → ℕ

pub record SortedMap {ℓ} (V : Type ℓ) : Type ℓ where
  pub items : ℕ → Option ℕ
  pub nodes : Nodes V
  pub fresh : ℕ
  pub level : ℕ
  pub size : ℕ

-- The loop of `getNodeLevel`: from a position and a level.
unfoldable pub level_loop : ℕ → ℕ → ℕ → Loop ℕ
level_loop zero pos level = out_of_fuel
level_loop (suc fuel) pos level =
    let rest = level_loop fuel (pos / nodes_per_level) (level + 1) in
    if pos % nodes_per_level == 0 then rest else done level

unfoldable pub get_node_level : ℕ → Loop ℕ
get_node_level size = level_loop (size + 1) (size + 1) 1 >>= λ level.
    done (if ltb max_level level then max_level else level)

abbrev pub deref : Option ℕ → Loop ℕ
deref none = panic
deref (some a) = done a

-- An element of the slice `update`.
abbrev pub set_update : ℕ → ℕ → (ℕ → Option ℕ) → Loop (ℕ → Option ℕ)
set_update i a update = if ltb i max_level then done (update_at i (some a) update) else panic

-- `update[i] = m.head` for `count` levels from `i` on.
unfoldable pub raise : ℕ → ℕ → (ℕ → Option ℕ) → Loop (ℕ → Option ℕ)
raise zero i update = done update
raise (suc count) i update = set_update i head update >>= λ update'. raise count (i + 1) update'

abbrev pub is_at : ℕ → Option ℕ → Bool
is_at a none = false
is_at a (some b) = b == a

module _ {ℓ} {V : Type ℓ} where
  -- `a.next[i]`, and its assignment.
  abbrev pub index : Nodes V → ℕ → ℕ → Loop (Option ℕ)
  index s a i = if ltb i (s.levels a) then done (s.next a i) else panic

  abbrev pub assign : Nodes V → ℕ → ℕ → Option ℕ → Loop (Nodes V)
  assign s a i p =
      if ltb i (s.levels a)
      then done (record s { next = update_at a (update_at i p (s.next a)) s.next })
      else panic

  unfoldable pub new_sorted_map : SortedMap V
  new_sorted_map = record {
    items = λ k. none;
    nodes = record {
      key = λ a. 0;
      value = λ a. none;
      levels = λ a. if a == head then max_level else 0;
      next = λ a i. none;
      after = λ a. tail;
      prev = λ a. head;
    };
    fresh = 2;
    level = 1;
    size = 0;
  }

  -- The inner loop of a search: along level `i`, while the next node's key passes the test.
  unfoldable pub walk : (ℕ → Bool) → Nodes V → ℕ → ℕ → ℕ → Loop ℕ
  walk pass s i zero current = out_of_fuel
  walk pass s i (suc fuel) current = index s current i >>= λ p. elim p [
    | none ↦ done current
    | some a ↦ elim (if a == tail then false else pass (s.key a)) [
      | true ↦ walk pass s i fuel a
      | false ↦ done current
    ]
  ]

  -- The outer loop: `level` levels are left, and `update` keeps where the search left each one.
  -- `Next` and `Prev` do not keep it.
  unfoldable pub search :
      (ℕ → Bool) → Nodes V → ℕ → ℕ → ℕ → (ℕ → Option ℕ) → Loop (ℕ × (ℕ → Option ℕ))
  search pass s fuel zero current update = done (current, update)
  search pass s fuel (suc i) current update = walk pass s i fuel current >>= λ a.
      set_update i a update >>= λ update'. search pass s fuel i a update'

  abbrev pub search_map : (ℕ → Bool) → SortedMap V → Loop (ℕ × (ℕ → Option ℕ))
  search_map pass m = search pass m.nodes (m.size + 1) m.level head (λ i. none)

  abbrev pub entry : Nodes V → ℕ → Option (ℕ × Option V)
  entry s a = some (s.key a, s.value a)

  abbrev pub get_found : SortedMap V → Option ℕ → Option V
  get_found m none = none
  get_found m (some a) = m.nodes.value a

  unfoldable pub get : ℕ → SortedMap V → Option V
  get k m = get_found m (m.items k)

  abbrev pub contains : ℕ → SortedMap V → Bool
  contains k m = is_some (m.items k)

  abbrev pub after_of : SortedMap V → ℕ → Option (ℕ × Option V)
  after_of m a = if m.nodes.after a == tail then none else entry m.nodes (m.nodes.after a)

  abbrev pub next_found : ℕ → SortedMap V → Option ℕ → Loop (Option (ℕ × Option V))
  next_found k m (some a) = done (after_of m a)
  next_found k m none = search_map (λ j. leb j k) m >>= λ found. done (after_of m found.0)

  unfoldable pub next : ℕ → SortedMap V → Loop (Option (ℕ × Option V))
  next k m = next_found k m (m.items k)

  abbrev pub unless_head : SortedMap V → ℕ → Option (ℕ × Option V)
  unless_head m a = if a == head then none else entry m.nodes a

  abbrev pub prev_found : ℕ → SortedMap V → Option ℕ → Loop (Option (ℕ × Option V))
  prev_found k m (some a) = done (unless_head m (m.nodes.prev a))
  prev_found k m none = search_map (λ j. ltb j k) m >>= λ found. done (unless_head m found.0)

  unfoldable pub prev : ℕ → SortedMap V → Loop (Option (ℕ × Option V))
  prev k m = prev_found k m (m.items k)

  unfoldable pub min_entry : SortedMap V → Option (ℕ × Option V)
  min_entry m = after_of m head

  -- `newNode.next[i] = update[i].next[i]` and `update[i].next[i] = newNode`, for `count` levels.
  unfoldable pub link_levels : ℕ → ℕ → ℕ → (ℕ → Option ℕ) → Nodes V → Loop (Nodes V)
  link_levels zero i new update s = done s
  link_levels (suc count) i new update s = deref (update i) >>= λ a. index s a i >>= λ p.
      assign s new i p >>= λ s1.
      assign s1 a i (some new) >>= λ s2. link_levels count (i + 1) new update s2

  abbrev pub allocate : ℕ → ℕ → V → ℕ → Nodes V → Nodes V
  allocate new k v level s = record s {
    key = update_at new k s.key;
    value = update_at new (some v) s.value;
    levels = update_at new level s.levels;
    next = update_at new (λ i. none) s.next;
  }

  -- The new node goes behind `predecessor` in the doubly linked list.
  abbrev pub insert_behind : ℕ → ℕ → Nodes V → Nodes V
  insert_behind new predecessor s =
      let successor = s.after predecessor in
      record s {
        after = update_at predecessor new (update_at new successor s.after);
        prev = update_at successor new (update_at new predecessor s.prev);
      }

  abbrev pub put_at : ℕ → V → SortedMap V → ℕ → (ℕ → Option ℕ) → Loop (SortedMap V)
  put_at k v m level update = raise (level - m.level) m.level update >>= λ update'.
      link_levels level 0 m.fresh update' (allocate m.fresh k v level m.nodes) >>= λ s.
      deref (update' 0) >>= λ predecessor. done (record {
        items = update_at k (some m.fresh) m.items;
        nodes = insert_behind m.fresh predecessor s;
        fresh = m.fresh + 1;
        level = if ltb m.level level then level else m.level;
        size = m.size + 1;
      })

  abbrev pub put_found : ℕ → V → SortedMap V → Option ℕ → Loop (SortedMap V)
  put_found k v m (some a) =
      done (record m { nodes = record m.nodes { value = update_at a (some v) m.nodes.value } })
  put_found k v m none = search_map (λ j. ltb j k) m >>= λ found.
      get_node_level m.size >>= λ level. put_at k v m level found.1

  unfoldable pub put : ℕ → V → SortedMap V → Loop (SortedMap V)
  put k v m = put_found k v m (m.items k)

  -- `update[i].next[i] = targetNode.next[i]` where `update[i]` leads to the target.
  abbrev pub unlink_if : Bool → ℕ → ℕ → ℕ → Nodes V → Loop (Nodes V)
  unlink_if true i target a s = index s target i >>= λ p. assign s a i p
  unlink_if false i target a s = done s

  abbrev pub unlink : ℕ → ℕ → ℕ → Nodes V → Loop (Nodes V)
  unlink i target a s = index s a i >>= λ p. unlink_if (is_at target p) i target a s

  unfoldable pub unlink_levels : ℕ → ℕ → ℕ → (ℕ → Option ℕ) → Nodes V → Loop (Nodes V)
  unlink_levels zero i target update s = done s
  unlink_levels (suc count) i target update s = deref (update i) >>= λ a.
      unlink i target a s >>= λ s'. unlink_levels count (i + 1) target update s'

  abbrev pub unlink_all : Bool → ℕ → ℕ → (ℕ → Option ℕ) → Nodes V → Loop (Nodes V)
  unlink_all true level target update s = unlink_levels level 0 target update s
  unlink_all false level target update s = done s

  -- The level falls while the head has no node at it.
  unfoldable pub lower : Nodes V → ℕ → Loop ℕ
  lower s zero = done zero
  lower s (suc zero) = done (suc zero)
  lower s (suc (suc n)) =
      index s head (suc n) >>= λ p. elim p [ none ↦ lower s (suc n) | some a ↦ done (suc (suc n)) ]

  abbrev pub bypass : ℕ → Nodes V → Nodes V
  bypass target s = record s {
    after = update_at (s.prev target) (s.after target) s.after;
    prev = update_at (s.after target) (s.prev target) s.prev;
  }

  abbrev pub remove_linked : ℕ → ℕ → SortedMap V → Nodes V → Loop (SortedMap V × Option V)
  remove_linked k target m s =
      let s' = bypass target s in
      lower s' m.level >>= λ level. done (
        record m { items = update_at k none m.items; nodes = s'; level = level; size = m.size - 1 },
        s'.value target,
      )

  abbrev pub remove_found : ℕ → SortedMap V → Option ℕ → Loop (SortedMap V × Option V)
  remove_found k m none = done (m, none)
  remove_found k m (some target) = search_map (λ j. ltb j k) m >>= λ found.
      index m.nodes found.0 0 >>= λ p.
      unlink_all (is_at target p) m.level target found.1 m.nodes >>= λ s. remove_linked k target m s

  unfoldable pub remove : ℕ → SortedMap V → Loop (SortedMap V × Option V)
  remove k m = remove_found k m (m.items k)
