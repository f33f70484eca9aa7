-- ===== src/Skip/Runs.antt =====
-- Runs of operations on a map of sortedmap.go, from the empty one.
use qotp.Base.{ℕ, ◌≡◌, refl, ap, ◌∙◌, List, [], ◌∷◌, held, length}
use qotp.Sorted
use qotp.Skip.{
  SortedMap, Loop, done, ◌>>=◌, new_sorted_map, put, remove, get, next, prev, min_entry,
}
use qotp.Skip.Chain.{length-entries}
use qotp.Skip.Refinement.{Represents, new_sorted_map-Represents}
use qotp.Skip.Read.{get-Represents, min_entry-Represents, next-Represents, prev-Represents}
use qotp.Skip.Put.{put-Represents}
use qotp.Skip.Remove.{remove-Represents}

pub data Op {ℓ} (V : Type ℓ) : Type ℓ where
  putting : ℕ → V → Op V
  removing : ℕ → Op V

module _ {ℓ} {V : Type ℓ} where
  abbrev pub step : Op V → SortedMap V → Loop (SortedMap V)
  step (putting k v) m = put k v m
  step (removing k) m = remove k m >>= λ result. done result.0

  unfoldable pub run : List (Op V) → SortedMap V → Loop (SortedMap V)
  run [] m = done m
  run (op ∷ ops) m = step op m >>= λ m'. run ops m'

  abbrev pub step_spec : Op V → Sorted.SortedMap V → Sorted.SortedMap V
  step_spec (putting k v) es = Sorted.put k v es
  step_spec (removing k) es = Sorted.remove k es

  unfoldable pub run_spec : List (Op V) → Sorted.SortedMap V → Sorted.SortedMap V
  run_spec [] es = es
  run_spec (op ∷ ops) es = run_spec ops (step_spec op es)

  -- What the reading operations answer.
  pub record Answers (m : SortedMap V) (es : Sorted.SortedMap V) : Type ℓ where
    pub gets : (k : ℕ) → get k m ≡ Sorted.get k es
    pub nexts : (k : ℕ) → next k m ≡ done (held (Sorted.next k es))
    pub prevs : (k : ℕ) → prev k m ≡ done (held (Sorted.prev k es))
    pub sizes : m.size ≡ length es
    pub min : min_entry m ≡ held (Sorted.min_entry es)

  step-Represents :
      (op : Op V) (m : SortedMap V) (es : Sorted.SortedMap V)
      → Represents m es
      → (m' : SortedMap V) × (step op m ≡ done m') × Represents m' (step_spec op es)
  step-Represents (putting k v) m es r = put-Represents m es k v r
  step-Represents (removing k) m es r =
      let (m', runs, r') = remove-Represents m es k r in (m', rw runs refl, r')

  run-Represents :
      (ops : List (Op V)) (m : SortedMap V) (es : Sorted.SortedMap V)
      → Represents m es
      → (m' : SortedMap V) × (run ops m ≡ done m') × Represents m' (run_spec ops es)
  unfolding run run_spec
  run-Represents [] m es r = (m, refl, r)
  run-Represents (op ∷ ops) m es r =
      let (m1, stepped, r1) = step-Represents op m es r in
      let (m', runs, r') = run-Represents ops m1 (step_spec op es) r1 in
      (m', ap (λ x. x >>= λ m''. run ops m'') stepped ∙ runs, r')

  -- Every run of `Put` and `Remove` from the map that `NewSortedMap` makes returns, without a nil
  -- pointer, an index out of range or a loop that does not end, and `Get`, `Next`, `Prev`, `Min`
  -- and `Size` then answer for every key as the contract does after the same operations.
  pub run-Answers :
      (ops : List (Op V))
      → (m : SortedMap V) × (run ops new_sorted_map ≡ done m) × Answers m (run_spec ops [])
  run-Answers ops =
      let (m, runs, r) = run-Represents ops new_sorted_map [] new_sorted_map-Represents in
      let es = run_spec ops [] in
      (
        m,
        runs,
        record {
          gets = λ k. get-Represents m es k r;
          nexts = λ k. next-Represents m es k r;
          prevs = λ k. prev-Represents m es k r;
          sizes = r.chained.size ∙ length-entries r.cells ∙ ap length r.same;
          min = min_entry-Represents m es r;
        },
      )
