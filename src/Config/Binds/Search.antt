-- ===== src/Config/Binds/Search.antt =====
-- `GetBinding` of config/binds.go against a description of what it should find.
use aerc.Prelude.{
  ◌≤◌, ◌≡◌, ◌↔◌, refl, ap, Bool, true, false, ◌&&◌, ◌||◌, Option, none, some, List, [], ◌∷◌, arith,
  ltb, if◌then◌else◌, length, done,
}
use aerc.Config.Binds.{
  KeyStroke, Binding, KeyBindings, BindingSearchResult, found, incomplete, not_found, stroke_eqb,
  strokes_eqb, starts_with, search_from, get_binding,
}

pub stroke_eqb_iff : (a b : KeyStroke) → (stroke_eqb a b ≡ true) ↔ (a ≡ b)
unfolding stroke_eqb
stroke_eqb_iff a b = ground arith

-- The two lists have the same strokes.
abbrev pub is_same : List KeyStroke → List KeyStroke → Bool
is_same [] [] = true
is_same (a ∷ as') (b ∷ bs) = stroke_eqb a b && is_same as' bs
is_same _ _ = false

-- The second list has the strokes of the first one in front.
abbrev pub is_prefix : List KeyStroke → List KeyStroke → Bool
is_prefix [] bs = true
is_prefix (a ∷ as') [] = false
is_prefix (a ∷ as') (b ∷ bs) = stroke_eqb a b && is_prefix as' bs

pub is_same_iff : (as' bs : List KeyStroke) → (is_same as' bs ≡ true) ↔ (as' ≡ bs)
is_same_iff [] [] = ground arith
is_same_iff [] (b ∷ bs) = ground arith
is_same_iff (a ∷ as') [] = ground arith
is_same_iff (a ∷ as') (b ∷ bs) = ground (arith, stroke_eqb_iff a b, is_same_iff as' bs)

-- The loops do not panic on slices of the lengths for which they are called.
pub strokes_eqb-is_same :
    (as' bs : List KeyStroke) → length as' ≡ length bs → strokes_eqb as' bs ≡ done (is_same as' bs)
unfolding strokes_eqb
strokes_eqb-is_same [] [] h = refl
strokes_eqb-is_same [] (b ∷ bs) h = absurd (omega arith)
strokes_eqb-is_same (a ∷ as') [] h = absurd (omega arith)
strokes_eqb-is_same (a ∷ as') (b ∷ bs) h = ground (arith, strokes_eqb-is_same as' bs)

starts_with-is_prefix :
    (input strokes : List KeyStroke)
    → length input ≤ length strokes
    → starts_with input strokes ≡ done (is_prefix input strokes)
unfolding starts_with
starts_with-is_prefix [] strokes h = refl
starts_with-is_prefix (a ∷ as') [] h = absurd (omega arith)
starts_with-is_prefix (a ∷ as') (b ∷ bs) h = ground (arith, starts_with-is_prefix as' bs)

-- The output of the first binding with exactly this input.
abbrev pub first_exact : List KeyStroke → List Binding → Option (List KeyStroke)
first_exact input [] = none
first_exact input (b ∷ bindings) =
    if is_same input b.input then some b.output else first_exact input bindings

-- Some binding goes on after this input.
abbrev pub has_longer : List KeyStroke → List Binding → Bool
has_longer input [] = false
has_longer input (b ∷ bindings) =
    (is_prefix input b.input && ltb (length input) (length b.input)) || has_longer input bindings

abbrev pub answer : Option (List KeyStroke) → Bool → BindingSearchResult × List KeyStroke
answer (some output) longer = (found, output)
answer none true = (incomplete, [])
answer none false = (not_found, [])

is_prefix-is_same :
    (input strokes : List KeyStroke)
    → length strokes ≡ length input
    → is_prefix input strokes ≡ is_same input strokes
is_prefix-is_same [] [] h = refl
is_prefix-is_same [] (b ∷ bs) h = absurd (omega arith)
is_prefix-is_same (a ∷ as') [] h = absurd (omega arith)
is_prefix-is_same (a ∷ as') (b ∷ bs) h = ground (arith, is_prefix-is_same as' bs)

is_same-length : (as' bs : List KeyStroke) → is_same as' bs ≡ true → length as' ≡ length bs
is_same-length as' bs h = ap length ((is_same_iff as' bs).0 h)

is_prefix-length :
    (input strokes : List KeyStroke)
    → is_prefix input strokes ≡ true
    → length input ≤ length strokes
is_prefix-length [] strokes h = omega arith
is_prefix-length (a ∷ as') [] h = absurd (ground arith)
is_prefix-length (a ∷ as') (b ∷ bs) h = ground (arith, is_prefix-length as' bs)

search_from_lem :
    (input : List KeyStroke) (bindings : List Binding) (l : Bool)
    → search_from input bindings l
      ≡ done (answer (first_exact input bindings) (l || has_longer input bindings))
unfolding search_from
search_from_lem input [] l = ground arith
search_from_lem input (b ∷ bindings) l = ground (
  arith,
  search_from_lem input bindings l,
  search_from_lem input bindings true,
  starts_with-is_prefix input b.input,
  is_prefix-is_same input b.input,
  is_same-length input b.input,
  is_prefix-length input b.input,
)

-- `GetBinding`, which never panics, finds the output of the first binding with exactly the typed input, wherever it stands
-- among longer ones; without such a binding it answers incomplete if some binding goes on after the
-- input, and not found otherwise.
pub get_binding_lem :
    {Context : Type 0} (bindings : KeyBindings Context) (input : List KeyStroke)
    → get_binding bindings input
      ≡ done (answer (first_exact input bindings.bindings) (has_longer input bindings.bindings))
unfolding get_binding
get_binding_lem bindings input = search_from_lem input bindings.bindings false
