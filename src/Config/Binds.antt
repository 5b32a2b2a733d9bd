-- ===== src/Config/Binds.antt =====
-- config/binds.go: key bindings, their merging, and the search for the binding of the keys typed so
-- far. A rune and a modifier mask are numbers. `contextual_binds` are carried along without being
-- looked into by the merging, so their type is a parameter; their cache is passed along.
pub mod Search
pub mod Merge
pub mod Context
mod Tests
use aerc.Prelude.{
  ℕ, ◌+◌, Bool, true, false, ◌&&◌, String, List, [], ◌∷◌, ◌++◌, ltb, ◌==◌, if◌then◌else◌, length,
  eqb, string_eq, ◌>>=◌, Outcome, done, panic, Option, none, some, Eq, Bool-cases, ◌≡◌, ◌↔◌, arith,
}
use aerc.Prelude.Map

pub record KeyStroke : Type 0 where
  pub modifiers : ℕ
  pub key : ℕ

pub record Binding : Type 0 where
  pub output : List KeyStroke
  pub input : List KeyStroke
  pub annotation : String

pub data ContextType : Type 0 where
  context_folder context_account : ContextType

abbrev pub context_eqb : ContextType → ContextType → Bool
context_eqb context_folder context_folder = true
context_eqb context_account context_account = true
context_eqb _ _ = false

pub context_eqb_iff : (a b : ContextType) → (context_eqb a b ≡ true) ↔ (a ≡ b)
context_eqb_iff a b = ground arith

instance abbrev pub context_eq : Eq ContextType
context_eq = record { beq = context_eqb; beq_iff = context_eqb_iff }

-- A count that is missing reads as 0.
pub record KeyBindings (Context : Type 0) : Type 0 where
  pub bindings : List Binding
  pub globals : Bool
  pub ex_key : KeyStroke
  pub complete_key : KeyStroke
  pub contextual_binds : List Context
  pub contextual_counts : List (ContextType × ℕ)

pub data BindingSearchResult : Type 0 where
  found incomplete not_found : BindingSearchResult

-- vaxis.KeyTab, from the terminal library, is the parameter.
unfoldable pub new_key_bindings : {Context : Type 0} → ℕ → KeyBindings Context
new_key_bindings key_tab = record {
  bindings = [];
  globals = true;
  ex_key = record { modifiers = 0; key = b':' };
  complete_key = record { modifiers = 0; key = key_tab };
  contextual_binds = [];
  contextual_counts = [];
}

unfoldable pub stroke_eqb : KeyStroke → KeyStroke → Bool
stroke_eqb a b = a.modifiers == b.modifiers && a.key == b.key

-- The loop over the indices of the first slice, by which the second one is read too: it panics where
-- that is shorter.
unfoldable pub strokes_eqb : List KeyStroke → List KeyStroke → Outcome Bool
unfolding stroke_eqb
strokes_eqb [] bs = done true
strokes_eqb (a ∷ as') [] = panic
strokes_eqb (a ∷ as') (b ∷ bs) = if stroke_eqb a b then strokes_eqb as' bs else done false

unfoldable pub are_bindings_inputs_equal : Binding → Binding → Outcome Bool
unfolding strokes_eqb
are_bindings_inputs_equal a b =
    if length a.input == length b.input then strokes_eqb a.input b.input else done false

unfoldable pub has_input_of : Binding → List Binding → Outcome Bool
unfolding are_bindings_inputs_equal
has_input_of b [] = done false
has_input_of b (r ∷ res) =
    are_bindings_inputs_equal b r >>= λ same. if same then done true else has_input_of b res

-- The first loop of `filterAndCleanBindings`, with the result so far.
unfoldable pub filter_copies : List Binding → List Binding → Outcome (List Binding)
unfolding has_input_of
filter_copies [] res = done res
filter_copies (b ∷ bindings) res =
    has_input_of b res >>= λ copy. filter_copies bindings (if copy then res else res ++ b ∷ [])

unfoldable pub clean_empty : List Binding → List Binding
clean_empty [] = []
clean_empty (b ∷ res) = if ltb 0 (length b.output) then b ∷ clean_empty res else clean_empty res

unfoldable pub filter_and_clean_bindings : List Binding → Outcome (List Binding)
unfolding filter_copies clean_empty
filter_and_clean_bindings bindings = filter_copies bindings [] >>= λ res. done (clean_empty res)

abbrev pub pair_eqb : ContextType × String → ContextType × String → Bool
pair_eqb (t, s) (t', s') = context_eqb t t' && eqb s s'

pub pair_eqb_iff : (a b : ContextType × String) → (pair_eqb a b ≡ true) ↔ (a ≡ b)
pair_eqb_iff (t, s) (t', s') = ground (arith, context_eqb_iff t t', string_eq.beq_iff s s')

instance abbrev pub pair_eq : Eq (ContextType × String)
pair_eq = record { beq = pair_eqb; beq_iff = pair_eqb_iff }

abbrev pub count_of : ContextType → List (ContextType × ℕ) → ℕ
count_of t m = elim (Map.get t m) [ none ↦ 0 | some c ↦ c ]

-- for t, c := range b.contextualCounts { merged.contextualCounts[t] += c }
unfoldable pub add_counts : List (ContextType × ℕ) → List (ContextType × ℕ) → List (ContextType × ℕ)
add_counts [] m = m
add_counts ((t, c) ∷ counts) m = add_counts counts (Map.put t (count_of t m + c) m)

module _ {Context : Type 0} where
  -- The first loop of `MergeBindings`, which ends behind the first bindings that take no globals.
  unfoldable pub gather : List (KeyBindings Context) → List Binding
  gather [] = []
  gather (b ∷ bs) = let rest = gather bs in if b.globals then b.bindings ++ rest else b.bindings

  unfoldable pub gather_contexts : List (KeyBindings Context) → List Context
  gather_contexts [] = []
  gather_contexts (b ∷ bs) = b.contextual_binds ++ gather_contexts bs

  unfoldable pub gather_counts :
      List (KeyBindings Context) → List (ContextType × ℕ) → List (ContextType × ℕ)
  unfolding add_counts
  gather_counts [] m = m
  gather_counts (b ∷ bs) m = gather_counts bs (add_counts b.contextual_counts m)

  -- `bindings[0]` panics without an argument.
  unfoldable pub merge_bindings : List (KeyBindings Context) → Outcome (KeyBindings Context)
  unfolding gather gather_contexts gather_counts filter_and_clean_bindings
  merge_bindings [] = panic
  merge_bindings (b ∷ bs) = filter_and_clean_bindings (gather (b ∷ bs)) >>= λ filtered.
      done (record {
        bindings = filtered;
        globals = b.globals;
        ex_key = b.ex_key;
        complete_key = b.complete_key;
        contextual_binds = gather_contexts (b ∷ bs);
        contextual_counts = gather_counts (b ∷ bs) [];
      })

  unfoldable pub add : Binding → KeyBindings Context → KeyBindings Context
  add b bindings = record bindings { bindings = bindings.bindings ++ b ∷ [] }

-- The loop over the typed keys, each compared with the stroke at its index, of which there may be too
-- few: that panics.
unfoldable pub starts_with : List KeyStroke → List KeyStroke → Outcome Bool
unfolding stroke_eqb
starts_with [] strokes = done true
starts_with (s ∷ input) [] = panic
starts_with (s ∷ input) (b ∷ strokes) =
    if stroke_eqb s b then starts_with input strokes else done false

-- The loop of `GetBinding`, and its variable `incomplete`.
unfoldable pub search_from :
    List KeyStroke → List Binding → Bool → Outcome (BindingSearchResult × List KeyStroke)
unfolding starts_with
search_from input [] some_incomplete = done (if some_incomplete then incomplete else not_found, [])
search_from input (b ∷ bindings) some_incomplete =
    let skip = search_from input bindings some_incomplete in
    let longer = search_from input bindings true in
    if ltb (length b.input) (length input)
    then skip
    else (starts_with input b.input >>= λ same.
        if same
        then (if length b.input == length input then done (found, b.output) else longer)
        else skip)

unfoldable pub get_binding :
    {Context : Type 0}
    → KeyBindings Context
    → List KeyStroke
    → Outcome (BindingSearchResult × List KeyStroke)
get_binding bindings input = search_from input bindings.bindings false

-- The loop of `GetReverseBindings`, whose own loop over the strokes of the output is the same.
unfoldable pub reverse_from : List KeyStroke → List Binding → Outcome (List (List KeyStroke))
unfolding starts_with
reverse_from output [] = done []
reverse_from output (b ∷ bindings) =
    let skip = reverse_from output bindings in
    if length b.output == length output
    then (starts_with output b.output >>= λ same.
        if same then (skip >>= λ inputs. done (b.input ∷ inputs)) else skip)
    else skip

unfoldable pub get_reverse_bindings :
    {Context : Type 0} → KeyBindings Context → List KeyStroke → Outcome (List (List KeyStroke))
get_reverse_bindings bindings output = reverse_from output bindings.bindings

-- The contextual bindings. What a context is for, whether its expression matches (with Go's regexp
-- package) and what it binds are parameters.
module _ {Context : Type 0} (context_type : Context → ContextType)
    (matches : Context → String → Bool) (bindings_of : Context → KeyBindings Context) where
  unfoldable pub merge_contexts :
      ContextType → String → List Context → KeyBindings Context → Outcome (KeyBindings Context)
  merge_contexts t reg [] c = done c
  merge_contexts t reg (x ∷ xs) c =
      if context_eqb (context_type x) t && matches x reg
      then (do c' ← merge_bindings (bindings_of x ∷ c ∷ []); merge_contexts t reg xs c')
      else merge_contexts t reg xs c

  -- With the cache of the bindings, which maps a type and a value to merged bindings.
  unfoldable pub contextual :
      ContextType
      → String
      → KeyBindings Context
      → List ((ContextType × String) × KeyBindings Context)
      → Outcome (KeyBindings Context × List ((ContextType × String) × KeyBindings Context))
  unfolding merge_contexts
  contextual t reg base cache =
      if count_of t base.contextual_counts == 0
      then done (base, cache)
      else elim (Map.get (t, reg) cache) [
        | some c ↦ done (c, cache)
        | none ↦ do
          c ← merge_contexts t reg base.contextual_binds base
          done (c, Map.put (t, reg) c cache)
      ]

  unfoldable pub for_account :
      String
      → KeyBindings Context
      → List ((ContextType × String) × KeyBindings Context)
      → Outcome (KeyBindings Context × List ((ContextType × String) × KeyBindings Context))
  for_account account = contextual context_account account

  unfoldable pub for_folder :
      String
      → KeyBindings Context
      → List ((ContextType × String) × KeyBindings Context)
      → Outcome (KeyBindings Context × List ((ContextType × String) × KeyBindings Context))
  for_folder folder = contextual context_folder folder
