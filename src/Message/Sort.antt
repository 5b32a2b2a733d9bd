-- ===== src/Message/Sort.antt =====
-- lib/sort/sort.go: the criteria on a command line by which messages are sorted. An argument is the
-- list of its bytes, and only ASCII letters are lowered.
mod Tests
use aerc.Prelude.{
  ℕ, ◌+◌, ◌≡◌, refl, Bool, true, false, ◌&&◌, Option, none, some, List, [], ◌∷◌, ◌++◌, map, leb,
  if◌then◌else◌, eqb, list_eq, nat_eq, arith,
}
use mathlib.Core.Option

abbrev pub Arg : Type 0
Arg = List ℕ

pub data SortField : Type 0 where
  sort_arrival sort_cc sort_date sort_from sort_read sort_size sort_subject sort_to sort_flagged :
      SortField

pub record SortCriterion : Type 0 where
  pub field : SortField
  pub reverse : Bool

-- strings.ToLower
abbrev pub to_lower : Arg → Arg
to_lower s = map (λ b. if leb b'A' b && leb b b'Z' then b + 32 else b) s

-- The names of the fields, in the order of the cases.
abbrev pub fields : List (Arg × SortField)
fields =
    (b'a' ∷ b'r' ∷ b'r' ∷ b'i' ∷ b'v' ∷ b'a' ∷ b'l' ∷ [], sort_arrival)
    ∷ (b'c' ∷ b'c' ∷ [], sort_cc)
    ∷ (b'd' ∷ b'a' ∷ b't' ∷ b'e' ∷ [], sort_date)
    ∷ (b'f' ∷ b'r' ∷ b'o' ∷ b'm' ∷ [], sort_from)
    ∷ (b'r' ∷ b'e' ∷ b'a' ∷ b'd' ∷ [], sort_read)
    ∷ (b's' ∷ b'i' ∷ b'z' ∷ b'e' ∷ [], sort_size)
    ∷ (b's' ∷ b'u' ∷ b'b' ∷ b'j' ∷ b'e' ∷ b'c' ∷ b't' ∷ [], sort_subject)
    ∷ (b't' ∷ b'o' ∷ [], sort_to)
    ∷ (b'f' ∷ b'l' ∷ b'a' ∷ b'g' ∷ b'g' ∷ b'e' ∷ b'd' ∷ [], sort_flagged)
    ∷ []

abbrev pub field_named : Arg → List (Arg × SortField) → Option SortField
field_named arg [] = none
field_named arg ((n, f) ∷ fs) = if eqb n arg then some f else field_named arg fs

-- `none` is an error.
unfoldable pub parse_sort_field : Arg → Option SortField
parse_sort_field arg = field_named (to_lower arg) fields

-- The loop, with the variable `reverse`.
unfoldable pub criteria_from : List Arg → Bool → Option (List SortCriterion)
unfolding parse_sort_field
criteria_from [] reverse = if reverse then none else some []
criteria_from (arg ∷ args) reverse =
    let reversed = criteria_from args true in
    let rest = criteria_from args false in
    if eqb arg (b'-' ∷ b'r' ∷ []) then reversed else elim (parse_sort_field arg) [
      | none ↦ none
      | some f ↦ Option.map (λ cs. record { field = f; reverse = reverse } ∷ cs) rest
    ]

unfoldable pub get_sort_criteria : List Arg → Option (List SortCriterion)
get_sort_criteria args = criteria_from args false

abbrev pub name_of : SortField → Arg
name_of sort_arrival = b'a' ∷ b'r' ∷ b'r' ∷ b'i' ∷ b'v' ∷ b'a' ∷ b'l' ∷ []
name_of sort_cc = b'c' ∷ b'c' ∷ []
name_of sort_date = b'd' ∷ b'a' ∷ b't' ∷ b'e' ∷ []
name_of sort_from = b'f' ∷ b'r' ∷ b'o' ∷ b'm' ∷ []
name_of sort_read = b'r' ∷ b'e' ∷ b'a' ∷ b'd' ∷ []
name_of sort_size = b's' ∷ b'i' ∷ b'z' ∷ b'e' ∷ []
name_of sort_subject = b's' ∷ b'u' ∷ b'b' ∷ b'j' ∷ b'e' ∷ b'c' ∷ b't' ∷ []
name_of sort_to = b't' ∷ b'o' ∷ []
name_of sort_flagged = b'f' ∷ b'l' ∷ b'a' ∷ b'g' ∷ b'g' ∷ b'e' ∷ b'd' ∷ []

-- The arguments of criteria.
abbrev pub print : List SortCriterion → List Arg
print [] = []
print (c ∷ cs) =
    if c.reverse
    then (b'-' ∷ b'r' ∷ []) ∷ name_of c.field ∷ print cs
    else name_of c.field ∷ print cs

parse_name :
    (f : SortField)
    → (parse_sort_field (name_of f) ≡ some f) × (eqb (name_of f) (b'-' ∷ b'r' ∷ []) ≡ false)
unfolding parse_sort_field
parse_name sort_arrival = (refl, refl)
parse_name sort_cc = (refl, refl)
parse_name sort_date = (refl, refl)
parse_name sort_from = (refl, refl)
parse_name sort_read = (refl, refl)
parse_name sort_size = (refl, refl)
parse_name sort_subject = (refl, refl)
parse_name sort_to = (refl, refl)
parse_name sort_flagged = (refl, refl)

-- Every list of criteria is what its printed arguments say.
pub get_sort_criteria-print : (cs : List SortCriterion) → get_sort_criteria (print cs) ≡ some cs
unfolding get_sort_criteria criteria_from
get_sort_criteria-print [] = refl
get_sort_criteria-print (c ∷ cs) =
    let (named, plain) = parse_name c.field in
    ground (arith, named, plain, get_sort_criteria-print cs)
