-- ===== src/Config/Binds/Context.antt =====
-- The contextual bindings of config/binds.go: which binding wins for an account or a folder.
use mathlib.Core.List.{append_assoc}
use aerc.Prelude.{
  ℕ, ◌≡◌, ◌≢◌, refl, ap, sym, subst, ◌∙◌, Bool, true, false, ◌&&◌, Option, none, some, String,
  string_eq, List, [], ◌∷◌, ◌++◌, arith, if◌then◌else◌, Bool-cases, Option-cases, inl, inr, done,
  All, backwards, ◌==◌,
}
use aerc.Prelude.Map
use aerc.Config.Binds.{
  KeyStroke, KeyBindings, ContextType, context_eqb, context_eqb_iff, pair_eq, pair_eqb_iff,
  count_of, merge_contexts, contextual,
}
use aerc.Config.Binds.Search.{first_exact}
use aerc.Config.Binds.Merge.{or_else, erased, resolve, merge_bindings-resolve}

-- What an input is bound to is decided by what the bindings say, layer by layer.
resolve-tail :
    {Context : Type 0} (input : List KeyStroke) (zs us vs : List (KeyBindings Context))
    → erased (resolve input us) ≡ erased (resolve input vs)
    → erased (resolve input (zs ++ us)) ≡ erased (resolve input (zs ++ vs))
resolve-tail input [] us vs h = h
resolve-tail input (z ∷ zs) us vs h =
    layer (first_exact input z.bindings) z.globals _ _ (resolve-tail input zs us vs h)
  where
    layer :
        (x : Option (List KeyStroke)) (g : Bool) (y y' : Option (List KeyStroke))
        → erased y ≡ erased y'
        → erased (or_else x (if g then y else none)) ≡ erased (or_else x (if g then y' else none))
    layer none true y y' e = e
    layer none false y y' e = refl
    layer (some x) g y y' e = refl

erased-erased : (x : Option (List KeyStroke)) → erased (erased x) ≡ erased x
erased-erased none = refl
erased-erased (some []) = refl
erased-erased (some (s ∷ ss)) = refl

resolve-one :
    {Context : Type 0} (input : List KeyStroke) (m : KeyBindings Context)
    → resolve input (m ∷ []) ≡ first_exact input m.bindings
resolve-one input m = alone (first_exact input m.bindings) m.globals
  where
    alone : (x : Option (List KeyStroke)) (g : Bool) → or_else x (if g then none else none) ≡ x
    alone none true = refl
    alone none false = refl
    alone (some x) g = refl

module _ {Context : Type 0} (context_type : Context → ContextType)
    (matches : Context → String → Bool) (bindings_of : Context → KeyBindings Context) where
  -- The bindings of the contexts that have the type and match.
  abbrev pub chosen : ContextType → String → List Context → List (KeyBindings Context)
  chosen t reg [] = []
  chosen t reg (x ∷ xs) =
      if context_eqb (context_type x) t && matches x reg
      then bindings_of x ∷ chosen t reg xs
      else chosen t reg xs

  -- In these bindings an input has what the last chosen context says, then the one before, and at last
  -- the base.
  abbrev pub IsLayered :
      ContextType → String → List Context → KeyBindings Context → KeyBindings Context → Type 0
  IsLayered t reg xs base c =
      (input : List KeyStroke)
      → erased (first_exact input c.bindings)
        ≡ erased (resolve input (backwards (chosen t reg xs) ++ base ∷ []))

  merge_contexts-IsLayered :
      (t : ContextType) (reg : String) (xs : List Context) (c : KeyBindings Context)
      → (c' : KeyBindings Context) × (merge_contexts context_type matches bindings_of t reg xs c
          ≡ done c')
        × IsLayered t reg xs c c'
  unfolding merge_contexts
  merge_contexts-IsLayered t reg [] c = (c, refl, λ input. ap erased (sym (resolve-one input c)))
  merge_contexts-IsLayered t reg (x ∷ xs) c =
      elim (Bool-cases (context_eqb (context_type x) t && matches x reg)) [
        | inr other ↦
            let (c', f, l) = merge_contexts-IsLayered t reg xs c in
            (c', ground (arith, other, f), λ input. ground (arith, other, l input))
        | inl right ↦
            let (m, g, e, _, _, _) = merge_bindings-resolve (bindings_of x) (c ∷ []) in
            let (c', f, l) = merge_contexts-IsLayered t reg xs m in
            let zs = backwards (chosen t reg xs) in
            (
              c',
              ground (arith, right, g, f),
              λ input.
                  let s : erased (resolve input (m ∷ []))
                      ≡ erased (resolve input (bindings_of x ∷ c ∷ [])) =
                    ap erased (resolve-one input m ∙ e input)
                    ∙ erased-erased (resolve input (bindings_of x ∷ c ∷ [])) in
                  let last : erased (first_exact input c'.bindings)
                      ≡ erased (resolve input ((zs ++ bindings_of x ∷ []) ++ c ∷ [])) =
                    l input
                    ∙ resolve-tail input zs (m ∷ []) (bindings_of x ∷ c ∷ []) s
                    ∙ ap (λ ys. erased (resolve input ys))
                        (sym (append_assoc zs (bindings_of x ∷ []) (c ∷ []))) in
                  ground (arith, right, last),
            )
      ]

  -- A context of a type that has no count is none of the list.
  nothing_chosen :
      (t : ContextType) (reg : String) (counts : List (ContextType × ℕ)) (xs : List Context)
      → All (λ x. count_of (context_type x) counts ≢ 0) xs
      → count_of t counts ≡ 0
      → chosen t reg xs ≡ []
  nothing_chosen t reg counts [] h z = refl
  nothing_chosen t reg counts (x ∷ xs) h z = elim (Bool-cases (context_eqb (context_type x) t)) [
    | inr other ↦ ground (arith, other, nothing_chosen t reg counts xs h.1 z)
    | inl same ↦
        let e : context_type x ≡ t = (context_eqb_iff (context_type x) t).0 same in
        absurd (h.0 (ap (λ u. count_of u counts) e ∙ z))
  ]

  -- Whatever the cache holds was layered over these bindings.
  abbrev pub IsCache :
      KeyBindings Context → List ((ContextType × String) × KeyBindings Context) → Type 0
  IsCache base cache =
      (t : ContextType) (reg : String) (c : KeyBindings Context)
      → Map.get (t, reg) cache ≡ some c
      → IsLayered t reg base.contextual_binds base c

  put-IsCache :
      (base c : KeyBindings Context) (t : ContextType) (reg : String)
      (cache : List ((ContextType × String) × KeyBindings Context))
      → IsCache base cache
      → IsLayered t reg base.contextual_binds base c
      → IsCache base (Map.put (t, reg) c cache)
  put-IsCache base c t reg cache h l t' reg' c' at =
      elim (Bool-cases (pair_eq.beq (t, reg) (t', reg'))) [
        | inr other ↦
            h t' reg' c' (ground (arith, other, at, Map.get-put (t, reg) (t', reg') c cache))
        | inl same ↦
            let e : c ≡ c' = ground (arith, same, at, Map.get-put (t, reg) (t', reg') c cache) in
            let k : (t, reg) ≡ (t', reg') = (pair_eqb_iff (t, reg) (t', reg')).0 same in
            subst (λ (p : ContextType × String). IsLayered p.0 p.1 base.contextual_binds base c') k
              (subst (λ (d : KeyBindings Context). IsLayered t reg base.contextual_binds base d) e
                l)
      ]

  -- `contextual`, over bindings that count each of their contexts and with a cache that holds only what it
  -- found for them: it returns without a panic, and the bindings that it returns give for an input, but for
  -- empty outputs, what the last context of the type says that matches, or else the matching one before
  -- it, back to the first, and at last the bindings themselves, but none behind a context that takes no
  -- globals. The cache stays such a cache, and with it the same call gives the same answer.
  pub contextual_lem :
      (t : ContextType) (reg : String) (base : KeyBindings Context)
      (cache : List ((ContextType × String) × KeyBindings Context))
      → All (λ x. count_of (context_type x) base.contextual_counts ≢ 0) base.contextual_binds
      → IsCache base cache
      → (c : KeyBindings Context) × (cache' : List ((ContextType × String) × KeyBindings Context))
        × (contextual context_type matches bindings_of t reg base cache ≡ done (c, cache'))
        × IsLayered t reg base.contextual_binds base c
        × IsCache base cache'
        × (contextual context_type matches bindings_of t reg base cache' ≡ done (c, cache'))
  unfolding contextual
  contextual_lem t reg base cache counted h =
      elim (Bool-cases (count_of t base.contextual_counts == 0)) [
        | inl zero_count ↦
            let n =
              nothing_chosen t reg base.contextual_counts base.contextual_binds counted
                (ground (arith, zero_count)) in
            (
              base,
              cache,
              ground (arith, zero_count),
              λ input.
                  ap erased (sym (resolve-one input base))
                  ∙ ap
                      (λ (ys : List (KeyBindings Context)).
                        erased (resolve input (backwards ys ++ base ∷ [])))
                      (sym n),
              h,
              ground (arith, zero_count),
            )
        | inr some_count ↦ elim (Option-cases (Map.get (t, reg) cache)) [
          | inr (c, at) ↦ (
            c,
            cache,
            ground (arith, some_count, at),
            h t reg c at,
            h,
            ground (arith, some_count, at),
          )
          | inl new ↦
              let (c, f, l) = merge_contexts-IsLayered t reg base.contextual_binds base in
              (
                c,
                Map.put (t, reg) c cache,
                ground (arith, some_count, new, f),
                l,
                put-IsCache base c t reg cache h l,
                ground (
                  arith,
                  some_count,
                  Map.get-put (t, reg) (t, reg) c cache,
                  pair_eqb_iff (t, reg) (t, reg),
                ),
              )
        ]
      ]
