-- ===== src/Config/Keys/Spaces.antt =====
-- config/binds.go: writing the spaces at the ends of a text as names changes nothing of what is read.
use aerc.Prelude.{
  ℕ, ◌≡◌, refl, sym, ap, ◌∙◌, true, false, ◌||◌, ◌⊎◌, inl, inr, some, List, [], ◌∷◌, ◌++◌, ◌==◌,
  nat_eq, list_eq, contains, arith, Bool-cases, append_assoc, All, if_both,
}
use aerc.Config.Keys.{
  Text, Stroke, plain, between, parse, then_strokes, read_name, space, is_space, leading, trailing,
  add_front, expand, explicit_spaces, format_stroke, format_all,
}
use aerc.Config.Keys.Words.{parse-bracket, parse-rune}

-- The text reads as one stroke.
abbrev pub IsWord : List (Text × Stroke) → Text → Stroke → Type 0
IsWord order w k =
    (rest : Text)
    → parse order between (w ++ rest) ≡ then_strokes (some k) (parse order between rest)

-- It begins and ends with no space.
abbrev pub IsSolid : Text → Type 0
IsSolid w =
    ((t : Text) → leading (w ++ t) ≡ ([], w ++ t))
    × ((t : Text) → trailing (w ++ t) ≡ (w ++ (trailing t).0, (trailing t).1))

pub rune-IsSolid : (c : ℕ) → is_space c ≡ false → IsSolid (c ∷ [])
rune-IsSolid c h = (λ t. ground arith, λ t. go (trailing t))
  where
    go : (x : Text × Text) → add_front c x ≡ (c ∷ x.0, x.1)
    go ([], s) = ground arith
    go (m ∷ ms, s) = refl

bracket-trailing :
    (w t : Text)
    → trailing ((w ++ 62 ∷ []) ++ t) ≡ ((w ++ 62 ∷ []) ++ (trailing t).0, (trailing t).1)
bracket-trailing [] t = (rune-IsSolid 62 refl).1 t
bracket-trailing (c ∷ w) t = ap (add_front c) (bracket-trailing w t) ∙ go w
  where
    go :
        (w : Text)
        → add_front c ((w ++ 62 ∷ []) ++ (trailing t).0, (trailing t).1)
          ≡ (c ∷ (w ++ 62 ∷ []) ++ (trailing t).0, (trailing t).1)
    go [] = refl
    go (d ∷ w) = refl

pub bracket-IsSolid : (w : Text) → IsSolid (60 ∷ w ++ 62 ∷ [])
bracket-IsSolid w = (λ t. refl, λ t. bracket-trailing (60 ∷ w) t)

module _ (order : List (Text × Stroke)) (named : read_name order space ≡ some (plain 32)) where
  space-IsWord : IsWord order (60 ∷ space ++ 62 ∷ []) (plain 32)
  space-IsWord rest = parse-bracket order space rest (plain 32) refl refl named

  parse-expand :
      (c : ℕ) (p r x : Text)
      → is_space c ≡ true
      → parse order between (expand p ++ r) ≡ parse order between x
      → parse order between (expand (c ∷ p) ++ r) ≡ parse order between (c ∷ x)
  parse-expand c p r x blank h = elim (Bool-cases (c == 32)) [
    | inl is_32 ↦
        let e : expand (c ∷ p) ≡ (60 ∷ space ++ 62 ∷ []) ++ expand p = ground arith in
        let f : 32 ≡ c = ground arith in
        ap (λ y. parse order between (y ++ r)) e
        ∙ space-IsWord (expand p ++ r)
        ∙ ap (then_strokes (some (plain 32))) h
        ∙ sym (parse-rune order 32 x refl)
        ∙ ap (λ d. parse order between (d ∷ x)) f
    | inr other ↦
        let e : expand (c ∷ p) ≡ c ∷ expand p = ground arith in
        let f : (c == 60 || c == 62 || c == 92) ≡ false = ground arith in
        ap (λ y. parse order between (y ++ r)) e
        ∙ parse-rune order c (expand p ++ r) f
        ∙ ap (then_strokes (some (plain c))) h
        ∙ sym (parse-rune order c x f)
  ]

  parse-expand-leading :
      (t r : Text)
      → parse order between r ≡ parse order between (leading t).1
      → parse order between (expand (leading t).0 ++ r) ≡ parse order between t
  parse-expand-leading [] r h = h
  parse-expand-leading (c ∷ t) r h = elim (Bool-cases (is_space c)) [
    | inr solid ↦
        let e : leading (c ∷ t) ≡ ([], c ∷ t) = ground arith in
        ap (λ x. parse order between (expand x.0 ++ r)) e ∙ h ∙ ap (λ x. parse order between x.1) e
    | inl blank ↦
        let e : leading (c ∷ t) ≡ (c ∷ (leading t).0, (leading t).1) = ground arith in
        ap (λ x. parse order between (expand x.0 ++ r)) e
        ∙ parse-expand c (leading t).0 r t blank
            (parse-expand-leading t r (h ∙ ap (λ x. parse order between x.1) e))
  ]

  -- What is written for a stroke: a space, or a word without spaces at its ends.
  abbrev pub IsWritten : Stroke → Type 0
  IsWritten k =
      IsWord order (format_stroke order k) k
      × ((format_stroke order k ≡ 32 ∷ []) ⊎ IsSolid (format_stroke order k))

  pub parse-format_all :
      (ks : List Stroke) → All IsWritten ks → parse order between (format_all order ks) ≡ some ks
  unfolding format_all parse
  parse-format_all [] h = refl
  parse-format_all (k ∷ ks) h =
      h.0.0 (format_all order ks) ∙ ap (then_strokes (some k)) (parse-format_all ks h.1)

  leading-format_all :
      (ks : List Stroke)
      → All IsWritten ks
      → (ks' : List Stroke) × All IsWritten ks'
        × ((leading (format_all order ks)).1 ≡ format_all order ks')
  unfolding format_all
  leading-format_all [] h = ([], tt, refl)
  leading-format_all (k ∷ ks) h = elim h.0.1 [
    | inr solid ↦ (k ∷ ks, h, ap (λ x. x.1) (solid.0 (format_all order ks)))
    | inl blank ↦
        let (ks', h', e) = leading-format_all ks h.1 in
        (ks', h', ap (λ w. (leading (w ++ format_all order ks)).1) blank ∙ e)
  ]

  parse-add_front :
      (x : Text × Text) (t : Text)
      → parse order between (x.0 ++ expand x.1) ≡ parse order between t
      → parse order between ((add_front 32 x).0 ++ expand (add_front 32 x).1)
        ≡ parse order between (32 ∷ t)
  parse-add_front ([], s) t h =
      space-IsWord (expand s)
      ∙ ap (then_strokes (some (plain 32))) h
      ∙ sym (parse-rune order 32 t refl)
  parse-add_front (m ∷ ms, s) t h =
      parse-rune order 32 (m ∷ ms ++ expand s) refl
      ∙ ap (then_strokes (some (plain 32))) h
      ∙ sym (parse-rune order 32 t refl)

  parse-trailing :
      (ks : List Stroke)
      → All IsWritten ks
      → parse order between
          ((trailing (format_all order ks)).0 ++ expand (trailing (format_all order ks)).1)
        ≡ parse order between (format_all order ks)
  unfolding format_all
  parse-trailing [] h = refl
  parse-trailing (k ∷ ks) h =
      let t = format_all order ks in
      let ih = parse-trailing ks h.1 in
      elim h.0.1 [
        | inr solid ↦
            ap (λ x. parse order between (x.0 ++ expand x.1)) (solid.1 t)
            ∙ ap (parse order between)
                (append_assoc (format_stroke order k) (trailing t).0 (expand (trailing t).1))
            ∙ h.0.0 ((trailing t).0 ++ expand (trailing t).1)
            ∙ ap (then_strokes (some k)) ih
            ∙ sym (h.0.0 t)
        | inl blank ↦
            ap (λ w. parse order between ((trailing (w ++ t)).0 ++ expand (trailing (w ++ t)).1))
              blank
            ∙ parse-add_front (trailing t) t ih
            ∙ ap (λ w. parse order between (w ++ t)) (sym blank)
      ]

  -- The spaces before and after are read as they were, in whatever way the text is written.
  pub parse-explicit_spaces :
      (ks : List Stroke)
      → All IsWritten ks
      → parse order between (explicit_spaces (format_all order ks)) ≡ some ks
  parse-explicit_spaces ks h =
      let t = format_all order ks in
      let (ks', h', e) = leading-format_all ks h in
      let r = (leading t).1 in
      let after =
        ap (λ x. parse order between ((trailing x).0 ++ expand (trailing x).1)) e
        ∙ parse-trailing ks' h'
        ∙ ap (parse order between) (sym e) in
      if_both (λ x. parse order between x ≡ some ks) (contains (trailing r).0 10) _ _
        (parse-format_all ks h)
        (ap (parse order between)
            (append_assoc (expand (leading t).0) (trailing r).0 (expand (trailing r).1))
          ∙ parse-expand-leading t ((trailing r).0 ++ expand (trailing r).1) after
          ∙ parse-format_all ks h)
