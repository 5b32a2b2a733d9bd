-- ===== src/Config/Keys/RoundTrip.antt =====
-- config/binds.go: key strokes that are printed are read back as they were.
use aerc.Prelude.{
  ℕ, ◌≡◌, refl, sym, ap, subst, ◌∙◌, Bool, true, false, not, ◌&&◌, ◌||◌, inl, inr, none, some, List,
  [], ◌∷◌, ◌++◌, ltb, ◌==◌, eqb, nat_eq, list_eq, contains, length, arith, Option-cases, All,
  All-weaken, if_cases,
}
use aerc.Prelude.Map
use aerc.Message.Sort.{to_lower}
use aerc.Config.Keys.{
  Text, Stroke, plain, without_modifiers, between, parse, parse_key_strokes, then_strokes,
  read_name, close_name, last_arg, space, cr, enter, dash, semicolon, find_name, name_text,
  modifier_text, write_stroke, format_stroke, format_key_strokes,
}
use aerc.Config.Keys.Words.{read_name-modifiers}
use aerc.Config.Keys.Spaces.{IsWritten, parse-explicit_spaces}
use aerc.Config.Keys.Table.{
  IsTable, same_strokes, names_it, implies, is_good, is_printable, stroke_ext, is_match,
  find_name-good, last_arg-unknown, last_arg-known,
}
use aerc.Config.Keys.Strokes.{IsText, literal-IsText, named-IsText}

get_of_names_it :
    (order : List (Text × Stroke)) (n : Text) (k : Stroke)
    → names_it order n k ≡ true
    → Map.get n order ≡ some k
get_of_names_it order n k h = elim (Option-cases (Map.get n order)) [
  | inl e ↦ absurd (ground arith)
  | inr (j, e) ↦ e ∙ ap some (stroke_ext j k (ground arith))
]

-- A name that is written as the rune of its stroke.
rune_name-IsText :
    (order : List (Text × Stroke)) (ks k : Stroke) (c : ℕ)
    → All (λ e. is_good order e ≡ true) order
    → is_match ks k ≡ true
    → same_strokes ks (plain c) ≡ true
    → (c == 32 || c == 45 || c == 59) ≡ true
    → IsText order (write_stroke false (c ∷ []) (without_modifiers k ks)) k
rune_name-IsText order ks k c h m same_c is_c =
    let e : ks ≡ plain c = stroke_ext ks (plain c) same_c in
    let f : c ≡ k.key = ground arith in
    let g : without_modifiers k (plain c) ≡ k = ground arith in
    subst (λ j. IsText order (write_stroke false (c ∷ []) (without_modifiers k j)) k) (sym e)
      (subst (λ j. IsText order (write_stroke false (c ∷ []) j) k) (sym g)
        (subst (λ d. IsText order (write_stroke false (d ∷ []) k) k) (sym f)
          (literal-IsText order k h (ground arith) (ground arith))))

conjuncts :
    (l lo d b n r r' s s' a a' e e' : Bool)
    → (l
        && lo
        && not d
        && not b
        && n
        && implies r r'
        && implies s s'
        && implies a a'
        && implies e e')
      ≡ true
    → (l ≡ true)
      × (lo ≡ true)
      × (d ≡ false)
      × (b ≡ false)
      × (n ≡ true)
      × (r ≡ true → r' ≡ true)
      × (s ≡ true → s' ≡ true)
      × (a ≡ true → a' ≡ true)
      × (e ≡ true → e' ≡ true)
conjuncts l lo d b n r r' s s' a a' e e' h = ground arith

good-parts :
    (order : List (Text × Stroke)) (n : Text) (k : Stroke)
    → is_good order (n, k) ≡ true
    → (ltb 1 (length n) ≡ true)
      × (eqb (to_lower n) n ≡ true)
      × (contains n 45 ≡ false)
      × (contains n 62 ≡ false)
      × (names_it order n k ≡ true)
      × (eqb n cr ≡ true → names_it order enter k ≡ true)
      × (eqb n space ≡ true → same_strokes k (plain 32) ≡ true)
      × (eqb n dash ≡ true → same_strokes k (plain 45) ≡ true)
      × (eqb n semicolon ≡ true → same_strokes k (plain 59) ≡ true)
good-parts order n k h =
    conjuncts (ltb 1 (length n)) (eqb (to_lower n) n) (contains n 45) (contains n 62)
      (names_it order n k) (eqb n cr) (names_it order enter k) (eqb n space)
      (same_strokes k (plain 32)) (eqb n dash) (same_strokes k (plain 45)) (eqb n semicolon)
      (same_strokes k (plain 59)) h

other_name-IsText :
    (order : List (Text × Stroke)) (n : Text) (ks k : Stroke)
    → is_match ks k ≡ true
    → ltb 1 (length n) ≡ true
    → contains n 45 ≡ false
    → contains n 62 ≡ false
    → Map.get (to_lower n) order ≡ some ks
    → IsText order (write_stroke true n (without_modifiers k ks)) k
other_name-IsText order [] ks k m l a b e = absurd (ground arith)
other_name-IsText order (c ∷ t) ks k m l a b e = named-IsText order ks k c t m a b e

name-IsText :
    (order : List (Text × Stroke)) (n : Text) (ks k : Stroke)
    → All (λ e. is_good order e ≡ true) order
    → is_good order (n, ks) ≡ true
    → is_match ks k ≡ true
    → IsText order (write_stroke (name_text n).1 (name_text n).0 (without_modifiers k ks)) k
name-IsText order n ks k h g m =
    let (long, low, no_dash, no_bracket, there, is_cr, is_sp, is_da, is_se) =
      good-parts order n ks g in
    let P = λ (x : Text × Bool). IsText order (write_stroke x.1 x.0 (without_modifiers k ks)) k in
    if_cases P (eqb n cr) _ _
      (λ y. named-IsText order ks k _ _ m refl refl (get_of_names_it order enter ks (is_cr y)))
      (λ _.
        if_cases P (eqb n space) _ _ (λ y. rune_name-IsText order ks k 32 h m (is_sp y) refl)
          (λ _.
            if_cases P (eqb n dash) _ _ (λ y. rune_name-IsText order ks k 45 h m (is_da y) refl)
              (λ _.
                if_cases P (eqb n semicolon) _ _
                  (λ y. rune_name-IsText order ks k 59 h m (is_se y) refl)
                  (λ _. other_name-IsText order n ks k m long no_dash no_bracket (
                    ap (λ x. Map.get x order) (((list_eq {A = ℕ}).beq_iff (to_lower n) n).0 low)
                    ∙ get_of_names_it order n ks there)))))

format_stroke-IsText :
    (order : List (Text × Stroke)) (k : Stroke)
    → All (λ e. is_good order e ≡ true) order
    → is_printable order k ≡ true
    → IsText order (format_stroke order k) k
unfolding format_stroke is_printable
format_stroke-IsText order k h p = elim (Option-cases (find_name k order)) [
  | inr ((n, ks), e) ↦
      let (g, m) = find_name-good order order k n ks h e in
      let f : format_stroke order k
          ≡ write_stroke (name_text n).1 (name_text n).0 (without_modifiers k ks) =
        ground (arith, e) in
      subst (λ w. IsText order w k) (sym f) (name-IsText order n ks k h g m)
  | inl e ↦
      let f : format_stroke order k ≡ write_stroke false (k.key ∷ []) k = ground (arith, e, p) in
      subst (λ w. IsText order w k) (sym f)
        (literal-IsText order k h (ground (arith, e, p)) (ground (arith, e, p)))
]

read_name-space :
    (order : List (Text × Stroke)) → IsTable order → read_name order space ≡ some (plain 32)
read_name-space order t =
    read_name-modifiers order false false false b's' (b'p' ∷ b'a' ∷ b'c' ∷ b'e' ∷ []) refl
    ∙ last_arg-known order space (plain 0) (plain 32)
        (get_of_names_it order space (plain 32) t.names_space)

-- Over any table whose names are two runes or more, in lower case, without a dash and an angle bracket,
-- in whatever order it is visited: the text that `FormatKeyStrokes` gives for strokes that have a name, or
-- else are a rune that is not special, is read by `ParseKeyStrokes` without an error, as those strokes.
pub parse_key_strokes-format_key_strokes :
    (order : List (Text × Stroke)) (ks : List Stroke)
    → IsTable order
    → All (λ k. is_printable order k ≡ true) ks
    → parse_key_strokes order (format_key_strokes order ks) ≡ some ks
unfolding parse_key_strokes format_key_strokes
parse_key_strokes-format_key_strokes order ks t p =
    parse-explicit_spaces order (read_name-space order t) ks (
      All-weaken (λ k. is_printable order k ≡ true) (IsWritten order (read_name-space order t)) ks
        (λ k q. format_stroke-IsText order k t.good q) p)

get_empty :
    (order sub : List (Text × Stroke))
    → All (λ e. is_good order e ≡ true) sub
    → Map.get [] sub ≡ none
get_empty order [] h = refl
get_empty order (([], k) ∷ sub) h = absurd (ground arith)
get_empty order (((c ∷ n), k) ∷ sub) h = ground (arith, get_empty order sub h.1)

-- A name in angle brackets that ends after the dash of its modifiers, such as `<c->`, is read without an
-- error, as the rune U+FFFD with these modifiers.
pub parse_key_strokes-dangling :
    (order : List (Text × Stroke)) (s a l : Bool)
    → IsTable order
    → (s || a || l) ≡ true
    → parse_key_strokes order
        (60 ∷ modifier_text (record { shift = s; alt = a; ctrl = l; key = 0 }) ++ 62 ∷ [])
      ≡ some (record { shift = s; alt = a; ctrl = l; key = 65533 } ∷ [])
unfolding parse_key_strokes parse read_name close_name
parse_key_strokes-dangling order s a l t h = go s a l h
  where
    e : (ks : Stroke) → last_arg order [] ks ≡ some (record ks { key = 65533 })
    e ks = last_arg-unknown order [] ks (get_empty order order t.good)

    go :
        (s a l : Bool)
        → (s || a || l) ≡ true
        → parse order between
            (60 ∷ modifier_text (record { shift = s; alt = a; ctrl = l; key = 0 }) ++ 62 ∷ [])
          ≡ some (record { shift = s; alt = a; ctrl = l; key = 65533 } ∷ [])
    go false false false h = absurd (ground arith)
    go true false false h =
        ap (λ o. then_strokes o (some []))
          (e (record { shift = true; alt = false; ctrl = false; key = 0 }))
    go false true false h =
        ap (λ o. then_strokes o (some []))
          (e (record { shift = false; alt = true; ctrl = false; key = 0 }))
    go true true false h =
        ap (λ o. then_strokes o (some []))
          (e (record { shift = true; alt = true; ctrl = false; key = 0 }))
    go false false true h =
        ap (λ o. then_strokes o (some []))
          (e (record { shift = false; alt = false; ctrl = true; key = 0 }))
    go true false true h =
        ap (λ o. then_strokes o (some []))
          (e (record { shift = true; alt = false; ctrl = true; key = 0 }))
    go false true true h =
        ap (λ o. then_strokes o (some []))
          (e (record { shift = false; alt = true; ctrl = true; key = 0 }))
    go true true true h =
        ap (λ o. then_strokes o (some []))
          (e (record { shift = true; alt = true; ctrl = true; key = 0 }))
