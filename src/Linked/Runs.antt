-- ===== src/Linked/Runs.antt =====
-- Histories of a map of linkedmap.go, from the empty one.
use qotp.Base.{ℕ, ◌≡◌, Option, some, List, [], ◌∷◌, held, length, ap, ◌∙◌}
use qotp.Entries
use qotp.Entries.{Entries}
use qotp.Linked.{
  LinkedMap, new_linked_map, put, remove, replace, get, first, next, previous, iterate,
}
use qotp.Linked.Chain.{length-entries}
use qotp.Linked.Refinement.{Represents, new_linked_map-Represents, get-Represents}
use qotp.Linked.Put.{put-Represents}
use qotp.Linked.Remove.{remove-Represents}
use qotp.Linked.Replace.{replace-Represents}
use qotp.Linked.Read.{first-Represents, neighbours-Represents}
use qotp.Linked.Iterate.{all_held, iterate-Represents}

pub data Change {ℓ} (V : Type ℓ) : Type ℓ where
  putting : ℕ → V → Change V
  removing : ℕ → Change V
  replacing : ℕ → ℕ → V → Change V

module _ {ℓ} {V : Type ℓ} where
  abbrev pub change : Change V → LinkedMap V → LinkedMap V
  change (putting k v) m = put k v m
  change (removing k) m = remove k m
  change (replacing old new v) m = (replace old new v m).0

  abbrev pub change_spec : Change V → Entries V → Entries V
  change_spec (putting k v) es = Entries.put k v es
  change_spec (removing k) es = Entries.remove k es
  change_spec (replacing old new v) es = (Entries.replace old new v es).0

  unfoldable pub history : List (Change V) → LinkedMap V → LinkedMap V
  history [] m = m
  history (c ∷ cs) m = history cs (change c m)

  unfoldable pub history_spec : List (Change V) → Entries V → Entries V
  history_spec [] es = es
  history_spec (c ∷ cs) es = history_spec cs (change_spec c es)

  -- What the reading operations answer, and what `Replace` would.
  pub record Answers (m : LinkedMap V) (es : Entries V) : Type ℓ where
    pub gets : (k : ℕ) → get k m ≡ Entries.get k es
    pub firsts : first m ≡ held (Entries.first es)
    pub nexts : (k : ℕ) → next k m ≡ held (Entries.next k es)
    pub previouses : (k : ℕ) → previous k m ≡ held (Entries.prev k es)
    pub iterates :
        (start : Option ℕ) → iterate start m ≡ some (all_held (Entries.iterator start es))
    pub replaces :
        (old new : ℕ) (v : V) → (replace old new v m).1 ≡ (Entries.replace old new v es).1
    pub sizes : m.size ≡ length es

  change-Represents :
      (c : Change V) (m : LinkedMap V) (es : Entries V)
      → Represents m es
      → Represents (change c m) (change_spec c es)
  change-Represents (putting k v) m es r = put-Represents m es k v r
  change-Represents (removing k) m es r = remove-Represents m es k r
  change-Represents (replacing old new v) m es r = (replace-Represents m es old new v r).1

  history-Represents :
      (cs : List (Change V)) (m : LinkedMap V) (es : Entries V)
      → Represents m es
      → Represents (history cs m) (history_spec cs es)
  unfolding history history_spec
  history-Represents [] m es r = r
  history-Represents (c ∷ cs) m es r =
      history-Represents cs (change c m) (change_spec c es) (change-Represents c m es r)

  -- After every history of `Put`, `Remove` and `Replace` from the map that `NewLinkedMap` makes,
  -- `Get`, `First`, `Next`, `Previous`, `Iterator`, `Size` and the answer of `Replace` are those of
  -- the contract after the same changes, for every key; the iterator ends.
  pub history-Answers :
      (cs : List (Change V)) → Answers (history cs new_linked_map) (history_spec cs [])
  history-Answers cs =
      let m = history cs new_linked_map in
      let es = history_spec cs [] in
      let r = history-Represents cs new_linked_map [] new_linked_map-Represents in
      record {
        gets = λ k. get-Represents m es k r;
        firsts = first-Represents m es r;
        nexts = λ k. (neighbours-Represents m es k r).0;
        previouses = λ k. (neighbours-Represents m es k r).1;
        iterates = λ start. iterate-Represents m es start r;
        replaces = λ old new v. (replace-Represents m es old new v r).0;
        sizes = r.chained.size ∙ length-entries r.cells ∙ ap length r.same;
      }
