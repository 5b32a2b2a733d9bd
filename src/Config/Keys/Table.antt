-- ===== src/Config/Keys/Table.antt =====
-- config/binds.go: what is asked of the table of the names of keys, and what a search in it gives.
use aerc.Prelude.{
  ℕ, ◌≡◌, refl, sym, ap, ◌∙◌, Bool, true, false, not, ◌&&◌, ◌||◌, inl, inr, Option, none, some,
  List, [], ◌∷◌, ◌++◌, ltb, ◌==◌, ==_iff, eqb, nat_eq, list_eq, contains, length, arith, Bool-cases,
  All,
}
use aerc.Prelude.Map
use aerc.Message.Sort.{to_lower}
use aerc.Config.Keys.{
  Text, Stroke, plain, same_modifiers, has_modifiers, with_modifiers, without_modifiers, last_arg,
  decode_rune, space, cr, enter, dash, semicolon, find_name, modifier_text, max_rune,
}

abbrev pub same_strokes : Stroke → Stroke → Bool
same_strokes a b = same_modifiers a b && a.key == b.key

abbrev pub names_it : List (Text × Stroke) → Text → Stroke → Bool
names_it order n k = elim (Map.get n order) [ none ↦ false | some j ↦ same_strokes j k ]

abbrev pub implies : Bool → Bool → Bool
implies a b = not a || b

-- A name of the table: two runes or more, in lower case, without a dash and an angle bracket; the table has
-- one stroke for it; and the names that are written otherwise stand for the stroke so written.
abbrev pub is_good : List (Text × Stroke) → Text × Stroke → Bool
is_good order (n, k) =
    ltb 1 (length n)
    && eqb (to_lower n) n
    && not (contains n 45)
    && not (contains n 62)
    && names_it order n k
    && implies (eqb n cr) (names_it order enter k)
    && implies (eqb n space) (same_strokes k (plain 32))
    && implies (eqb n dash) (same_strokes k (plain 45))
    && implies (eqb n semicolon) (same_strokes k (plain 59))

pub record IsTable (order : List (Text × Stroke)) : Type 0 where
  pub good : All (λ e. is_good order e ≡ true) order
  pub names_space : names_it order space (plain 32) ≡ true

-- A stroke that the table has no name for is a rune that can be written, and not one that would be read
-- as something else. With modifiers only `>` is excluded, and without them also `<`, `\` and the spaces but
-- the blank.
unfoldable pub is_printable : List (Text × Stroke) → Stroke → Bool
unfolding find_name
is_printable order k = elim (find_name k order) [
  | some e ↦ true
  | none ↦
      ltb k.key max_rune
      && not (k.key == 62)
      && (has_modifiers k
          || not (
              k.key == 60
              || k.key == 92
              || k.key == 9
              || k.key == 10
              || k.key == 12
              || k.key == 13))
]

pub stroke_ext : (a b : Stroke) → same_strokes a b ≡ true → a ≡ b
stroke_ext a b h = ground (arith, ==_iff a.key b.key)

pub get_one :
    (order sub : List (Text × Stroke)) (c : ℕ)
    → All (λ e. is_good order e ≡ true) sub
    → Map.get (c ∷ []) sub ≡ none
get_one order [] c h = refl
get_one order (((a ∷ []), k) ∷ sub) c h = absurd (ground arith)
get_one order (([], k) ∷ sub) c h = ground (arith, get_one order sub c h.1)
get_one order (((a ∷ b ∷ n), k) ∷ sub) c h = ground (arith, get_one order sub c h.1)

abbrev pub is_match : Stroke → Stroke → Bool
is_match ks k = (same_modifiers ks k || not (has_modifiers ks)) && ks.key == k.key

pub find_name-good :
    (order sub : List (Text × Stroke)) (k : Stroke) (n : Text) (ks : Stroke)
    → All (λ e. is_good order e ≡ true) sub
    → find_name k sub ≡ some (n, ks)
    → (is_good order (n, ks) ≡ true) × (is_match ks k ≡ true)
unfolding find_name
find_name-good order [] k n ks h e = absurd (ground arith)
find_name-good order ((m, js) ∷ sub) k n ks h e = elim (Bool-cases (is_match js k)) [
  | inl hit ↦
      let f : m ≡ n = ground (arith, hit) in
      let g : js ≡ ks = ground (arith, hit) in
      (
        ap (λ x. is_good order (x, ks)) (sym f) ∙ ap (λ y. is_good order (m, y)) (sym g) ∙ h.0,
        ap (λ y. is_match y k) (sym g) ∙ hit,
      )
  | inr miss ↦ find_name-good order sub k n ks h.1 (ground arith)
]

pub contains-modifiers :
    (s a l : Bool) (t : Text)
    → contains t 62 ≡ false
    → contains (modifier_text (record { shift = s; alt = a; ctrl = l; key = 0 }) ++ t) 62 ≡ false
contains-modifiers true true true t h = h
contains-modifiers true true false t h = h
contains-modifiers true false true t h = h
contains-modifiers true false false t h = h
contains-modifiers false true true t h = h
contains-modifiers false true false t h = h
contains-modifiers false false true t h = h
contains-modifiers false false false t h = h

-- What the search takes away from the modifiers, the reader adds.
pub restored :
    (ks k : Stroke)
    → is_match ks k ≡ true
    → record (with_modifiers (record (without_modifiers k ks) { key = 0 }) ks) { key = ks.key } ≡ k
restored ks k h = ground (arith, ==_iff ks.key k.key)

pub last_arg-unknown :
    (order : List (Text × Stroke)) (arg : Text) (ks : Stroke)
    → Map.get (to_lower arg) order ≡ none
    → last_arg order arg ks
      ≡ elim (decode_rune arg) [ none ↦ none | some r ↦ some (record ks { key = r }) ]
last_arg-unknown order arg ks e =
    ap
      (λ o. elim o as (λ _. Option Stroke) [
        | some k ↦ some (record (with_modifiers ks k) { key = k.key })
        | none ↦ elim (decode_rune arg) [ none ↦ none | some r ↦ some (record ks { key = r }) ]
      ])
      e

pub last_arg-known :
    (order : List (Text × Stroke)) (arg : Text) (ks k : Stroke)
    → Map.get (to_lower arg) order ≡ some k
    → last_arg order arg ks ≡ some (record (with_modifiers ks k) { key = k.key })
last_arg-known order arg ks k e =
    ap
      (λ o. elim o as (λ _. Option Stroke) [
        | some j ↦ some (record (with_modifiers ks j) { key = j.key })
        | none ↦ elim (decode_rune arg) [ none ↦ none | some r ↦ some (record ks { key = r }) ]
      ])
      e

pub last_arg-rune :
    (order : List (Text × Stroke)) (k : Stroke)
    → All (λ e. is_good order e ≡ true) order
    → last_arg order (k.key ∷ []) (record k { key = 0 }) ≡ some k
last_arg-rune order k h =
    last_arg-unknown order (k.key ∷ []) (record k { key = 0 }) (get_one order order _ h)
