-- ===== src/Worker/Folders.antt =====
-- worker/middleware/foldermapper.go: the names of folders that the user interface shows, and those of
-- the mail server behind them. A name is the list of its bytes. The embedded worker and the mutex are
-- left out: each method runs under the lock from its first to its last line.
pub mod Messages
pub mod Apply
pub mod Lookup
pub mod RoundTrip
mod Tests
use aerc.Prelude.{
  ℕ, zero, suc, ◌+◌, ◌-◌, Bool, true, false, not, ◌&&◌, ◌||◌, Option, none, some, List, [], ◌∷◌,
  ◌++◌, ltb, leb, ◌==◌, if◌then◌else◌, length, drop, contains, has_prefix, eqb, list_eq, nat_eq,
}
use aerc.Prelude.Map

abbrev pub Name : Type 0
Name = List ℕ

-- `table` maps the names that are shown to the names of the server.
pub record FolderMapper : Type 0 where
  pub mapping : List (Name × Name)
  pub order : List Name
  pub table : List (Name × Name)

abbrev pub star : ℕ
star = b'*'

-- strings.TrimPrefix
abbrev pub trim_prefix : Name → Name → Name
trim_prefix s p = if has_prefix s p then drop (length p) s else s

-- strings.CutSuffix(s, "*"), which is `none` where there is no such suffix
abbrev pub cut_star : Name → Option Name
cut_star [] = none
cut_star (x ∷ []) = if x == star then some [] else none
cut_star (x ∷ y ∷ s) = elim (cut_star (y ∷ s)) [ none ↦ none | some t ↦ some (x ∷ t) ]

-- strings.Contains(s, "**")
abbrev pub has_double : Name → Bool
has_double [] = false
has_double (x ∷ []) = false
has_double (x ∷ y ∷ s) = (x == star && y == star) || has_double (y ∷ s)

-- strings.ReplaceAll(s, "**", "*")
abbrev pub halve : Name → Name
halve [] = []
halve (x ∷ []) = x ∷ []
halve (x ∷ y ∷ s) =
    let both = halve s in
    let one = halve (y ∷ s) in if x == star && y == star then star ∷ both else x ∷ one

-- The loop that squeezes stars, on fuel.
unfoldable pub squeeze : ℕ → Name → Name
squeeze zero prefix = prefix
squeeze (suc fuel) prefix =
    let rest = squeeze fuel (halve prefix) in if has_double prefix then rest else prefix

-- strings.Replace(s, "*", term, 1)
abbrev pub replace_star : Name → Name → Name
replace_star [] term = []
replace_star (x ∷ s) term = if x == star then term ++ s else x ∷ replace_star s term

-- The variables `strict` and `v` of `Apply`.
abbrev pub strict_base : Name → Bool × Name
strict_base v = elim (cut_star v) [ none ↦ (true, v) | some before ↦ (false, before) ]

-- The body of the loop of `Apply`, for a key `k` and `v`, the value of the mapping at `k`.
unfoldable pub apply_rule : Name → Name → Name → Name
unfolding squeeze
apply_rule k v s =
    let (strict, base) = strict_base v in
    let term = trim_prefix s base in
    if (has_prefix s base && not strict) || (eqb s base && strict)
    then if contains k star && not strict
      then replace_star (squeeze (length k) k) term
      else k ++ term
    else s

-- A key that the mapping does not have reads as the empty name.
unfoldable pub apply : List (Name × Name) → List Name → Name → Name
unfolding apply_rule
apply mapping [] s = s
apply mapping (k ∷ order) s =
    apply mapping order (apply_rule k (elim (Map.get k mapping) [ none ↦ [] | some v ↦ v ]) s)

unfoldable pub incoming : FolderMapper → Name → Name
incoming f dir = elim (Map.get dir f.table) [ none ↦ dir | some mapped ↦ mapped ]

-- The first shown name, in the order that the loop happens to visit the table, with this name of the
-- server.
abbrev pub find_value : Name → List (Name × Name) → Option Name
find_value dir [] = none
find_value dir ((k, v) ∷ table) = if eqb v dir then some k else find_value dir table

unfoldable pub outgoing : FolderMapper → Name → Name
outgoing f dir = elim (find_value dir f.table) [ none ↦ dir | some k ↦ k ]

unfoldable pub store : Name → FolderMapper → FolderMapper
unfolding apply
store s f = record f { table = Map.put (apply f.mapping f.order s) s f.table }

-- The loop of `createFolder`, with the variables `max` and `key` so far.
abbrev pub longest_from : Name → List (Name × Name) → ℕ × Name → ℕ × Name
longest_from s [] acc = acc
longest_from s ((k, v) ∷ table) acc =
    longest_from s table (if has_prefix s k && ltb acc.0 (length k) then (length k, k) else acc)

unfoldable pub create_folder : List (Name × Name) → Name → Name
create_folder table s =
    let (longest, key) = longest_from s table (0, []) in
    if ltb 0 longest && not (eqb key [])
    then elim (Map.get key table) [ none ↦ [] | some v ↦ v ] ++ trim_prefix s key
    else s

-- The name to send on, and whether the folder was created: otherwise it is there already.
unfoldable pub create : Name → FolderMapper → Name × Bool × FolderMapper
unfolding create_folder
create s f =
    let backend = create_folder f.table s in
    elim (Map.get s f.table) [
      | some _ ↦ (s, false, f)
      | none ↦ (backend, true, record f { table = Map.put s backend f.table })
    ]
