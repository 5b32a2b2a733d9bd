-- ===== src/Config/Keys/Words.antt =====
-- config/binds.go: how the reader of key strokes reads one stroke.
use aerc.Prelude.{
  ℕ, ◌≡◌, refl, ap, ◌∙◌, Bool, true, false, ◌||◌, some, List, [], ◌∷◌, ◌++◌, ltb, ◌==◌, nat_eq,
  list_eq, contains, length, arith, append_assoc, append_nil, snoc-append,
}
use aerc.Config.Keys.{
  Text, Stroke, plain, between, in_name, parse, close_name, then_strokes, read_name, last_arg,
  split, ends_in_dashes, modifier_text,
}

split_plain : (c : ℕ) (t : Text) → contains (c ∷ t) 45 ≡ false → split (c ∷ t) ≡ (c ∷ t) ∷ []
split_plain c [] h = ground arith
split_plain c (d ∷ t) h = ground (arith, split_plain d t)

ends_plain : (c : ℕ) (t : Text) → contains (c ∷ t) 45 ≡ false → ends_in_dashes (c ∷ t) ≡ false
ends_plain c [] h = refl
ends_plain c (d ∷ []) h = ground arith
ends_plain c (d ∷ e ∷ t) h = ground (arith, ends_plain d (e ∷ t))

ends_after_dash :
    (c : ℕ) (t : Text) → contains (c ∷ t) 45 ≡ false → ends_in_dashes (45 ∷ c ∷ t) ≡ false
ends_after_dash c [] h = ground arith
ends_after_dash c (d ∷ t) h = ends_plain c (d ∷ t) h

-- The last part of a name after its modifiers.
pub read_name-modifiers :
    (order : List (Text × Stroke)) (s a l : Bool) (c : ℕ) (t : Text)
    → contains (c ∷ t) 45 ≡ false
    → read_name order (modifier_text (record { shift = s; alt = a; ctrl = l; key = 0 }) ++ c ∷ t)
      ≡ last_arg order (c ∷ t) (record { shift = s; alt = a; ctrl = l; key = 0 })
unfolding read_name
read_name-modifiers order s a l c t h =
    let e = split_plain c t h in let f = ends_plain c t h in go s a l e f (ends_after_dash c t h)
  where
    go :
        (s a l : Bool)
        → split (c ∷ t) ≡ (c ∷ t) ∷ []
        → ends_in_dashes (c ∷ t) ≡ false
        → ends_in_dashes (45 ∷ c ∷ t) ≡ false
        → read_name order
            (modifier_text (record { shift = s; alt = a; ctrl = l; key = 0 }) ++ c ∷ t)
          ≡ last_arg order (c ∷ t) (record { shift = s; alt = a; ctrl = l; key = 0 })
    go false false false e f g = rw (f, e) refl
    go true false false e f g = rw (g, e) refl
    go false true false e f g = rw (g, e) refl
    go true true false e f g = rw (g, e) refl
    go false false true e f g = rw (g, e) refl
    go true false true e f g = rw (g, e) refl
    go false true true e f g = rw (g, e) refl
    go true true true e f g = rw (g, e) refl

-- Of the dash itself, with a modifier, the reader makes empty arguments and the dash.
pub read_name-dash :
    (order : List (Text × Stroke)) (s a l : Bool)
    → (s || a || l) ≡ true
    → read_name order (modifier_text (record { shift = s; alt = a; ctrl = l; key = 0 }) ++ 45 ∷ [])
      ≡ last_arg order (45 ∷ []) (record { shift = s; alt = a; ctrl = l; key = 0 })
unfolding read_name
read_name-dash order false false false h = absurd (ground arith)
read_name-dash order true false false h = refl
read_name-dash order false true false h = refl
read_name-dash order true true false h = refl
read_name-dash order false false true h = refl
read_name-dash order true false true h = refl
read_name-dash order false true true h = refl
read_name-dash order true true true h = refl

parse-in_name :
    (order : List (Text × Stroke)) (acc t rest : Text)
    → contains t 62 ≡ false
    → parse order (in_name acc) (t ++ 62 ∷ rest)
      ≡ close_name order (acc ++ t) (parse order between rest)
unfolding parse
parse-in_name order acc [] rest h =
    ap (λ x. close_name order x (parse order between rest)) (append_nil acc)
parse-in_name order acc (c ∷ t) rest h =
    let e = parse-in_name order (acc ++ c ∷ []) t rest (ground arith) in
    let f = snoc-append acc c t in ground (arith, e, f)

-- A name in angle brackets is one stroke.
pub parse-bracket :
    (order : List (Text × Stroke)) (t rest : Text) (k : Stroke)
    → contains t 62 ≡ false
    → ltb 0 (length t) ≡ true
    → read_name order t ≡ some k
    → parse order between ((60 ∷ t ++ 62 ∷ []) ++ rest)
      ≡ then_strokes (some k) (parse order between rest)
unfolding parse close_name
parse-bracket order [] rest k h ne e = absurd (ground arith)
parse-bracket order (c ∷ t) rest k h ne e =
    ap (λ x. parse order (in_name []) x) (append_assoc (c ∷ t) (62 ∷ []) rest)
    ∙ parse-in_name order [] (c ∷ t) rest h
    ∙ ap (λ o. then_strokes o (parse order between rest)) e

-- A rune that is not special is one stroke.
pub parse-rune :
    (order : List (Text × Stroke)) (c : ℕ) (rest : Text)
    → (c == 60 || c == 62 || c == 92) ≡ false
    → parse order between (c ∷ rest) ≡ then_strokes (some (plain c)) (parse order between rest)
unfolding parse
parse-rune order c rest h = ground arith
