-- ===== src/Config/Keys/Strokes.antt =====
-- config/binds.go: the text of one stroke, written by its rune or by a name, reads as that stroke.
use aerc.Prelude.{
  ℕ, ◌≡◌, sym, ap, subst, ◌∙◌, true, false, not, ◌||◌, ◌⊎◌, inl, inr, some, List, [], ◌∷◌, ◌++◌,
  ltb, ◌==◌, nat_eq, list_eq, contains, length, arith, Bool-cases, All,
}
use aerc.Prelude.Map
use aerc.Message.Sort.{to_lower}
use aerc.Config.Keys.{
  Text, Stroke, plain, has_modifiers, without_modifiers, read_name, last_arg, modifier_text,
  write_stroke,
}
use aerc.Config.Keys.Words.{read_name-modifiers, read_name-dash, parse-bracket, parse-rune}
use aerc.Config.Keys.Spaces.{IsWord, IsSolid, rune-IsSolid, bracket-IsSolid}
use aerc.Config.Keys.Table.{
  is_good, is_match, contains-modifiers, restored, last_arg-known, last_arg-rune,
}

pub read_name-rune :
    (order : List (Text × Stroke)) (k : Stroke)
    → All (λ e. is_good order e ≡ true) order
    → has_modifiers k ≡ true
    → read_name order (modifier_text k ++ k.key ∷ []) ≡ some k
read_name-rune order k h m = elim (Bool-cases (k.key == 45)) [
  | inl is_dash ↦
      let e : k.key ≡ 45 = ground arith in
      ap (λ c. read_name order (modifier_text k ++ c ∷ [])) e
      ∙ read_name-dash order k.shift k.alt k.ctrl m
      ∙ ap (λ c. last_arg order (c ∷ []) (record k { key = 0 })) (sym e)
      ∙ last_arg-rune order k h
  | inr other ↦
      read_name-modifiers order k.shift k.alt k.ctrl k.key [] (ground arith)
      ∙ last_arg-rune order k h
]

-- A text that reads as the stroke, and which is a space or has none at its ends.
abbrev pub IsText : List (Text × Stroke) → Text → Stroke → Type 0
IsText order w k = IsWord order w k × ((w ≡ 32 ∷ []) ⊎ IsSolid w)

pub bracket-IsText :
    (order : List (Text × Stroke)) (w : Text) (k : Stroke)
    → contains w 62 ≡ false
    → ltb 0 (length w) ≡ true
    → read_name order w ≡ some k
    → IsText order (60 ∷ w ++ 62 ∷ []) k
bracket-IsText order w k h ne e =
    (λ rest. parse-bracket order w rest k h ne e, inr (bracket-IsSolid w))

pub rune-IsText :
    (order : List (Text × Stroke)) (c : ℕ)
    → (c == 60 || c == 62 || c == 92) ≡ false
    → (c == 9 || c == 10 || c == 12 || c == 13) ≡ false
    → IsText order (c ∷ []) (plain c)
rune-IsText order c h n = (
  λ rest. parse-rune order c rest h,
  elim (Bool-cases (c == 32)) [
    | inl blank ↦ inl (ground arith)
    | inr solid ↦ inr (rune-IsSolid c (ground arith))
  ],
)

pub length-suffix : (w : Text) (c : ℕ) (t : Text) → ltb 0 (length (w ++ c ∷ t)) ≡ true
length-suffix [] c t = ground arith
length-suffix (d ∷ w) c t = ground arith

-- A stroke that is written by its rune.
pub literal-IsText :
    (order : List (Text × Stroke)) (k : Stroke)
    → All (λ e. is_good order e ≡ true) order
    → (k.key == 62) ≡ false
    → (has_modifiers k
        || not
            (k.key == 60 || k.key == 92 || k.key == 9 || k.key == 10 || k.key == 12 || k.key == 13))
      ≡ true
    → IsText order (write_stroke false (k.key ∷ []) k) k
literal-IsText order k h c r = elim (Bool-cases (has_modifiers k)) [
  | inl m ↦
      let e : write_stroke false (k.key ∷ []) k ≡ 60 ∷ (modifier_text k ++ k.key ∷ []) ++ 62 ∷ [] =
        ground (arith, m) in
      subst (λ w. IsText order w k) (sym e)
        (bracket-IsText order (modifier_text k ++ k.key ∷ []) k
          (contains-modifiers k.shift k.alt k.ctrl (k.key ∷ []) (ground arith))
          (length-suffix (modifier_text k) k.key []) (read_name-rune order k h m))
  | inr m ↦
      let e : write_stroke false (k.key ∷ []) k ≡ k.key ∷ [] = ground (arith, m) in
      let f : plain k.key ≡ k = ground (arith, m) in
      subst (λ w. IsText order w k) (sym e)
        (subst (λ j. IsText order (k.key ∷ []) j) f
          (rune-IsText order k.key (ground (arith, m)) (ground (arith, m))))
]

-- A stroke that is written by a name.
pub named-IsText :
    (order : List (Text × Stroke)) (ks k : Stroke) (c : ℕ) (t : Text)
    → is_match ks k ≡ true
    → contains (c ∷ t) 45 ≡ false
    → contains (c ∷ t) 62 ≡ false
    → Map.get (to_lower (c ∷ t)) order ≡ some ks
    → IsText order (write_stroke true (c ∷ t) (without_modifiers k ks)) k
named-IsText order ks k c t m no_dash no_bracket e =
    let j = without_modifiers k ks in
    bracket-IsText order (modifier_text j ++ c ∷ t) k
      (contains-modifiers j.shift j.alt j.ctrl (c ∷ t) no_bracket)
      (length-suffix (modifier_text j) c t)
      (read_name-modifiers order j.shift j.alt j.ctrl c t no_dash
        ∙ last_arg-known order (c ∷ t) (record j { key = 0 }) ks e
        ∙ ap some (restored ks k m))
