-- ===== src/Linked/Tests.antt =====
-- The theorems on linkedmap.go at one input each.
use qotp.Base.{ℕ, ◌≡◌, refl, some, List, [], ◌∷◌}
use qotp.Linked.Runs.{
  Change, putting, removing, replacing, history, history_spec, Answers, history-Answers,
}
use qotp.Linked.{new_linked_map, put, get, remove, replace}

abbrev changes : List (Change ℕ)
changes = putting 5 10 ∷ putting 9 20 ∷ replacing 5 7 30 ∷ putting 9 21 ∷ removing 7 ∷ []

history-Answers_example : Answers (history changes new_linked_map) (history_spec changes [])
history-Answers_example = history-Answers changes

-- The value of a key that was put twice, after the one in front of it is gone.
last_value : get 9 (history changes new_linked_map) ≡ some 21
unfolding history new_linked_map put get remove replace
last_value = refl
