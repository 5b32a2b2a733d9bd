-- ===== src/Config/Binds/Tests.antt =====
-- config/binds.go on a few bindings, and the theorems at them.
use aerc.Prelude.{
  ℕ, ◌≡◌, refl, List, [], ◌∷◌, done, panic, Bool, true, false, ◌||◌, String, eqb, string_eq, arith,
}
use aerc.Config.Binds.{
  KeyStroke, Binding, KeyBindings, found, incomplete, not_found, new_key_bindings, get_binding,
  merge_bindings, search_from, starts_with, ContextType, context_folder, contextual, merge_contexts,
  filter_and_clean_bindings, filter_copies, has_input_of, are_bindings_inputs_equal, gather,
  gather_contexts, gather_counts, clean_empty,
}
use aerc.Config.Binds.Search.{first_exact, has_longer, answer, get_binding_lem}
use aerc.Config.Binds.Context.{IsLayered, IsCache, contextual_lem}
use aerc.Config.Binds.Merge.{erased, resolve, merge_bindings-resolve}

abbrev plain : ℕ → KeyStroke
plain k = record { modifiers = 0; key = k }

abbrev bind : List KeyStroke → List KeyStroke → Binding
bind i o = record { output = o; input = i; annotation = "" }

abbrev g_key : List KeyStroke
g_key = plain b'g' ∷ []

abbrev gg_keys : List KeyStroke
gg_keys = plain b'g' ∷ plain b'g' ∷ []

abbrev q_key : List KeyStroke
q_key = plain b'q' ∷ []

abbrev quit : List KeyStroke
quit = plain b':' ∷ plain b'q' ∷ []

abbrev inner : KeyBindings Unit
inner = record (new_key_bindings 9) { bindings = bind q_key [] ∷ bind gg_keys quit ∷ [] }

abbrev outer : KeyBindings Unit
outer = record (new_key_bindings 9) { bindings = bind q_key quit ∷ [] }

-- `g` alone waits for more, `gg` is found, and `q` is bound only outside.
three_answers :
    (get_binding inner g_key ≡ done (incomplete, []))
    × (get_binding inner gg_keys ≡ done (found, quit))
    × (get_binding outer g_key ≡ done (not_found, []))
unfolding get_binding search_from starts_with new_key_bindings
three_answers = (refl, refl, refl)

get_binding_lem_example :
    get_binding inner g_key
    ≡ done (answer (first_exact g_key inner.bindings) (has_longer g_key inner.bindings))
get_binding_lem_example = get_binding_lem inner g_key

merge_bindings-resolve_example :
    (m : KeyBindings Unit) × (merge_bindings (inner ∷ outer ∷ []) ≡ done m)
    × ((input : List KeyStroke)
        → first_exact input m.bindings ≡ erased (resolve input (inner ∷ outer ∷ [])))
    × (m.ex_key ≡ inner.ex_key)
    × (m.complete_key ≡ inner.complete_key)
    × (m.globals ≡ inner.globals)
merge_bindings-resolve_example = merge_bindings-resolve inner (outer ∷ [])

-- Two contexts for folders: one for all of them, and one for the folder `work`.
abbrev matches : Bool → String → Bool
matches everywhere reg = everywhere || eqb reg "work"

abbrev bindings_of : Bool → KeyBindings Bool
bindings_of true = record (new_key_bindings 9) { bindings = bind q_key gg_keys ∷ [] }
bindings_of false = record (new_key_bindings 9) { bindings = bind gg_keys q_key ∷ [] }

abbrev folder_type : Bool → ContextType
folder_type x = context_folder

abbrev base : KeyBindings Bool
base = record (new_key_bindings 9) {
  bindings = bind q_key quit ∷ [];
  contextual_binds = true ∷ false ∷ [];
  contextual_counts = (context_folder, 2) ∷ [];
}

contextual_lem_example :
    (c : KeyBindings Bool) × (cache' : List ((ContextType × String) × KeyBindings Bool))
    × (contextual folder_type matches bindings_of context_folder "work" base [] ≡ done (c, cache'))
    × IsLayered folder_type matches bindings_of context_folder "work" base.contextual_binds base c
    × IsCache folder_type matches bindings_of base cache'
    × (contextual folder_type matches bindings_of context_folder "work" base cache'
        ≡ done (c, cache'))
contextual_lem_example =
    contextual_lem folder_type matches bindings_of context_folder "work" base []
      ((λ e. absurd (omega arith)), ((λ e. absurd (omega arith)), tt))
      (λ t reg c at. absurd (ground arith))

-- In the folder `work` the bindings of both contexts are found, and those before the base.
work_bindings :
    elim (contextual folder_type matches bindings_of context_folder "work" base []) [
      | panic ↦ []
      | done (c, cache) ↦ c.bindings
    ]
    ≡ bind gg_keys q_key ∷ bind q_key gg_keys ∷ []
unfolding contextual merge_contexts merge_bindings filter_and_clean_bindings filter_copies
    has_input_of are_bindings_inputs_equal gather gather_contexts gather_counts clean_empty
    new_key_bindings
work_bindings = refl
