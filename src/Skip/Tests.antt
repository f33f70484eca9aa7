-- ===== src/Skip/Tests.antt =====
-- The theorems on sortedmap.go at one input each.
use qotp.Base.{ℕ, ◌+◌, ◌≡◌, refl, min, List, [], ◌∷◌}
use qotp.Sorted
use qotp.Skip.{SortedMap, done, max_level, new_sorted_map, get_node_level, level_loop}
use qotp.Skip.Level.{IsLevel, get_node_level-IsLevel}
use qotp.Skip.Runs.{Op, putting, removing, run, run_spec, Answers, run-Answers}

abbrev empty : Sorted.SortedMap ℕ
empty = []

abbrev ops : List (Op ℕ)
ops = putting 5 50 ∷ putting 3 30 ∷ putting 9 90 ∷ putting 4 40 ∷ putting 3 31 ∷ removing 5 ∷ []

-- The fourth node gets a second level.
fourth : get_node_level 3 ≡ done 2
unfolding get_node_level level_loop
fourth = refl

get_node_level-IsLevel_example :
    (level : ℕ) × (get_node_level 15 ≡ done (min level max_level)) × IsLevel (15 + 1) 1 level
get_node_level-IsLevel_example = get_node_level-IsLevel 15

run-Answers_example :
    (m : SortedMap ℕ) × (run ops new_sorted_map ≡ done m) × Answers m (run_spec ops [])
run-Answers_example = run-Answers ops
