-- ===== src/Config/Binds/Merge.antt =====
-- `MergeBindings` of config/binds.go: which binding wins.
use mathlib.Core.List.{append_assoc}
use aerc.Prelude.{
  ◌≡◌, ◌≢◌, refl, ap, sym, ◌∙◌, true, false, Option, none, some, List, [], ◌∷◌, ◌++◌, arith,
  if◌then◌else◌, length, Bool-cases, inl, inr, done, Bool, ◌||◌,
}
use aerc.Config.Binds.{
  KeyStroke, Binding, KeyBindings, are_bindings_inputs_equal, has_input_of, filter_copies,
  clean_empty, filter_and_clean_bindings, gather, merge_bindings, gather_contexts, gather_counts,
}
use aerc.Config.Binds.Search.{is_same, is_same_iff, strokes_eqb-is_same, first_exact}

abbrev pub or_else : Option (List KeyStroke) → Option (List KeyStroke) → Option (List KeyStroke)
or_else none b = b
or_else (some a) b = some a

-- A binding without output is no binding.
abbrev pub erased : Option (List KeyStroke) → Option (List KeyStroke)
erased none = none
erased (some []) = none
erased (some (s ∷ output)) = some (s ∷ output)

first_exact-append :
    (input : List KeyStroke) (xs ys : List Binding)
    → first_exact input (xs ++ ys) ≡ or_else (first_exact input xs) (first_exact input ys)
first_exact-append input [] ys = refl
first_exact-append input (x ∷ xs) ys = ground (arith, first_exact-append input xs ys)

are_equal-is_same : (a b : Binding) → are_bindings_inputs_equal a b ≡ done (is_same a.input b.input)
unfolding are_bindings_inputs_equal
are_equal-is_same a b = ground (
  arith,
  strokes_eqb-is_same a.input b.input,
  is_same_iff a.input b.input,
  λ (e : a.input ≡ b.input). ap length e,
)

-- Some of the bindings has the same input.
abbrev has_same : Binding → List Binding → Bool
has_same b [] = false
has_same b (r ∷ res) = is_same b.input r.input || has_same b res

has_input_of-has_same :
    (b : Binding) (res : List Binding) → has_input_of b res ≡ done (has_same b res)
unfolding has_input_of
has_input_of-has_same b [] = refl
has_input_of-has_same b (r ∷ res) =
    ground (arith, are_equal-is_same b r, has_input_of-has_same b res)

-- The bindings with the copies left out, behind those that are kept already.
abbrev without_copies : List Binding → List Binding → List Binding
without_copies [] res = res
without_copies (b ∷ bs) res =
    if has_same b res then without_copies bs res else without_copies bs (res ++ b ∷ [])

filter_copies-without_copies :
    (bs res : List Binding) → filter_copies bs res ≡ done (without_copies bs res)
unfolding filter_copies
filter_copies-without_copies [] res = refl
filter_copies-without_copies (b ∷ bs) res = ground (
  arith,
  has_input_of-has_same b res,
  filter_copies-without_copies bs res,
  filter_copies-without_copies bs (res ++ b ∷ []),
)

-- A copy is never the first with its input.
first_exact-copy :
    (input : List KeyStroke) (b : Binding) (res : List Binding)
    → has_same b res ≡ true
    → is_same input b.input ≡ true
    → first_exact input res ≢ none
first_exact-copy input b [] h e = absurd (ground arith)
first_exact-copy input b (r ∷ res) h e = ground (
  arith,
  first_exact-copy input b res,
  is_same_iff b.input r.input,
  is_same_iff input b.input,
  is_same_iff input r.input,
)

first_exact-without_copies :
    (input : List KeyStroke) (bs res : List Binding)
    → first_exact input (without_copies bs res) ≡ first_exact input (res ++ bs)
first_exact-without_copies input [] res = ground (arith, first_exact-append input res [])
first_exact-without_copies input (b ∷ bs) res = ground (
  arith,
  first_exact-without_copies input bs res,
  first_exact-without_copies input bs (res ++ b ∷ []),
  first_exact-append input res bs,
  first_exact-append input res (b ∷ bs),
  append_assoc res (b ∷ []) bs,
  first_exact-copy input b res,
)

abbrev IsDistinct : List Binding → Type 0
IsDistinct [] = Unit
IsDistinct (b ∷ bs) = (first_exact b.input bs ≡ none) × IsDistinct bs

IsDistinct-snoc :
    (b : Binding) (res : List Binding)
    → has_same b res ≡ false
    → IsDistinct res
    → IsDistinct (res ++ b ∷ [])
IsDistinct-snoc b [] h d = (refl, tt)
IsDistinct-snoc b (r ∷ res) h d = ground (
  arith,
  IsDistinct-snoc b res,
  is_same_iff b.input r.input,
  first_exact-append r.input res (b ∷ []),
  is_same_iff r.input b.input,
  λ (e : r.input ≡ b.input). sym e,
)

without_copies-IsDistinct :
    (bs res : List Binding) → IsDistinct res → IsDistinct (without_copies bs res)
without_copies-IsDistinct [] res d = d
without_copies-IsDistinct (b ∷ bs) res d = elim (Bool-cases (has_same b res)) [
  | inl copy ↦ rw copy (without_copies-IsDistinct bs res d)
  | inr fresh ↦
      rw fresh (without_copies-IsDistinct bs (res ++ b ∷ []) (IsDistinct-snoc b res fresh d))
]

first_exact-clean_empty :
    (input : List KeyStroke) (bs : List Binding)
    → IsDistinct bs
    → first_exact input (clean_empty bs) ≡ erased (first_exact input bs)
unfolding clean_empty
first_exact-clean_empty input [] d = refl
first_exact-clean_empty input (b ∷ bs) d = elim (Bool-cases (is_same input b.input)) [
  | inl same ↦
      let e : input ≡ b.input = (is_same_iff input b.input).0 same in
      let n : first_exact input bs ≡ none = rw e d.0 in
      ground (arith, first_exact-clean_empty input bs d.1, n)
  | inr other ↦ ground (arith, first_exact-clean_empty input bs d.1)
]

-- `filterAndCleanBindings` does not panic, and it keeps, for each input, exactly the output of the
-- first binding with that input, or none if that output is empty: an empty binding also hides the later
-- ones.
pub first_exact-filter_and_clean_bindings :
    (bs : List Binding)
    → (res : List Binding) × (filter_and_clean_bindings bs ≡ done res)
      × ((input : List KeyStroke) → first_exact input res ≡ erased (first_exact input bs))
unfolding filter_and_clean_bindings
first_exact-filter_and_clean_bindings bs = (
  clean_empty (without_copies bs []),
  ground (arith, filter_copies-without_copies bs []),
  λ input.
      first_exact-clean_empty input (without_copies bs []) (without_copies-IsDistinct bs [] tt)
      ∙ ap erased (first_exact-without_copies input bs []),
)

-- What a list of bindings, most specific first, says of an input: the first that has it wins, and
-- none is asked behind one that takes no globals.
abbrev pub resolve :
    {Context : Type 0} → List KeyStroke → List (KeyBindings Context) → Option (List KeyStroke)
resolve input [] = none
resolve input (b ∷ bs) =
    or_else (first_exact input b.bindings) (if b.globals then resolve input bs else none)

first_exact-gather :
    {Context : Type 0} (input : List KeyStroke) (bs : List (KeyBindings Context))
    → first_exact input (gather bs) ≡ resolve input bs
unfolding gather
first_exact-gather input [] = refl
first_exact-gather input (b ∷ bs) =
    ground (arith, first_exact-gather input bs, first_exact-append input b.bindings (gather bs))

-- `MergeBindings` of one or more bindings returns, without a panic, bindings in which an input has
-- the output of the first argument that binds it, up to the first argument that takes no globals, and
-- no binding where that output is empty; the keys and the globals flag are those of the first.
pub merge_bindings-resolve :
    {Context : Type 0} (b : KeyBindings Context) (bs : List (KeyBindings Context))
    → (m : KeyBindings Context) × (merge_bindings (b ∷ bs) ≡ done m)
      × ((input : List KeyStroke) → first_exact input m.bindings ≡ erased (resolve input (b ∷ bs)))
      × (m.ex_key ≡ b.ex_key)
      × (m.complete_key ≡ b.complete_key)
      × (m.globals ≡ b.globals)
unfolding merge_bindings
merge_bindings-resolve b bs =
    let (res, f, e) = first_exact-filter_and_clean_bindings (gather (b ∷ bs)) in
    (
      record {
        bindings = res;
        globals = b.globals;
        ex_key = b.ex_key;
        complete_key = b.complete_key;
        contextual_binds = gather_contexts (b ∷ bs);
        contextual_counts = gather_counts (b ∷ bs) [];
      },
      ground (arith, f),
      λ input. e input ∙ ap erased (first_exact-gather input (b ∷ bs)),
      refl,
      refl,
      refl,
    )
