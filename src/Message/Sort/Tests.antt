-- ===== src/Message/Sort/Tests.antt =====
-- lib/sort/sort.go on two criteria, and the theorem at them.
use aerc.Prelude.{◌≡◌, refl, true, false, some, none, List, [], ◌∷◌}
use aerc.Message.Sort.{
  SortCriterion, sort_date, sort_size, get_sort_criteria, criteria_from, parse_sort_field, print,
  get_sort_criteria-print,
}

abbrev newest : List SortCriterion
newest =
    record { field = sort_date; reverse = true }
    ∷ record { field = sort_size; reverse = false }
    ∷ []

-- `-r` alone, and a field that is none.
refused :
    (get_sort_criteria ((b'-' ∷ b'r' ∷ []) ∷ []) ≡ none)
    × (get_sort_criteria ((b'x' ∷ []) ∷ []) ≡ none)
unfolding get_sort_criteria criteria_from parse_sort_field
refused = (refl, refl)

get_sort_criteria-print_example : get_sort_criteria (print newest) ≡ some newest
get_sort_criteria-print_example = get_sort_criteria-print newest
