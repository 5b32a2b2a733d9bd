-- ===== src/Config/Keys.antt =====
-- config/binds.go: the key strokes as text. A text is the list of its runes, and a stroke has the bits of
-- its modifier mask that the text can name (ModShift, ModAlt, ModCtrl). The constants of the terminal
-- library vaxis are the parameters `code`, by their names, and `code_f`, for the keys KeyF01 and so on.
-- A key below `max_rune` is taken to be a valid rune, the text to be valid UTF-8, and only ASCII letters
-- are lowered.
pub mod Words
pub mod Spaces
pub mod Table
pub mod Strokes
pub mod RoundTrip
mod Tests
use aerc.Prelude.{
  ℕ, zero, suc, ◌+◌, ◌/◌, ◌%◌, ◌≡◌, ◌↔◌, Bool, true, false, not, ◌&&◌, ◌||◌, Option, none, some,
  List, [], ◌∷◌, ◌++◌, map, String, ltb, leb, ◌==◌, if◌then◌else◌, eqb, Eq, nat_eq, list_eq,
  contains, arith,
}
use aerc.Prelude.Map
use aerc.Message.Sort.{to_lower}

abbrev pub Text : Type 0
Text = List ℕ

pub record Stroke : Type 0 where
  pub shift : Bool
  pub alt : Bool
  pub ctrl : Bool
  pub key : ℕ

abbrev pub plain : ℕ → Stroke
plain k = record { shift = false; alt = false; ctrl = false; key = k }

abbrev pub shifted : ℕ → Stroke
shifted k = record { shift = true; alt = false; ctrl = false; key = k }

abbrev pub has_modifiers : Stroke → Bool
has_modifiers k = k.shift || k.alt || k.ctrl

abbrev pub same : Bool → Bool → Bool
same true b = b
same false b = not b

abbrev pub same_modifiers : Stroke → Stroke → Bool
same_modifiers a b = same a.shift b.shift && same a.alt b.alt && same a.ctrl b.ctrl

-- `a.Modifiers |= b.Modifiers`, and `a.Modifiers &^= b.Modifiers`
abbrev pub with_modifiers : Stroke → Stroke → Stroke
with_modifiers a b = record a {
  shift = a.shift || b.shift;
  alt = a.alt || b.alt;
  ctrl = a.ctrl || b.ctrl;
}

abbrev pub without_modifiers : Stroke → Stroke → Stroke
without_modifiers a b = record a {
  shift = a.shift && not b.shift;
  alt = a.alt && not b.alt;
  ctrl = a.ctrl && not b.ctrl;
}

abbrev pub space : Text
space = b's' ∷ b'p' ∷ b'a' ∷ b'c' ∷ b'e' ∷ []

abbrev pub cr : Text
cr = b'c' ∷ b'r' ∷ []

abbrev pub enter : Text
enter = b'e' ∷ b'n' ∷ b't' ∷ b'e' ∷ b'r' ∷ []

abbrev pub dash : Text
dash = b'd' ∷ b'a' ∷ b's' ∷ b'h' ∷ []

abbrev pub semicolon : Text
semicolon = b's' ∷ b'e' ∷ b'm' ∷ b'i' ∷ b'c' ∷ b'o' ∷ b'l' ∷ b'o' ∷ b'n' ∷ []

-- The names f1 to f63, from the one with the number `n` on.
abbrev pub digits : ℕ → Text
digits n = if ltb n 10 then (b'0' + n) ∷ [] else (b'0' + n / 10) ∷ (b'0' + n % 10) ∷ []

abbrev pub function_keys : (ℕ → ℕ) → ℕ → ℕ → List (Text × Stroke)
function_keys code_f zero n = []
function_keys code_f (suc count) n =
    (b'f' ∷ digits n, plain (code_f n)) ∷ function_keys code_f count (suc n)

-- The table in one order of its keys.
unfoldable pub key_names : (String → ℕ) → (ℕ → ℕ) → List (Text × Stroke)
key_names code code_f =
    (b's' ∷ b'p' ∷ b'a' ∷ b'c' ∷ b'e' ∷ [], plain b' ')
      ∷ (b'd' ∷ b'a' ∷ b's' ∷ b'h' ∷ [], plain b'-')
      ∷ (b's' ∷ b'e' ∷ b'm' ∷ b'i' ∷ b'c' ∷ b'o' ∷ b'l' ∷ b'o' ∷ b'n' ∷ [], plain b';')
      ∷ (b'e' ∷ b'n' ∷ b't' ∷ b'e' ∷ b'r' ∷ [], plain (code "KeyEnter"))
      ∷ (b'u' ∷ b'p' ∷ [], plain (code "KeyUp"))
      ∷ (b'd' ∷ b'o' ∷ b'w' ∷ b'n' ∷ [], plain (code "KeyDown"))
      ∷ (b'r' ∷ b'i' ∷ b'g' ∷ b'h' ∷ b't' ∷ [], plain (code "KeyRight"))
      ∷ (b'l' ∷ b'e' ∷ b'f' ∷ b't' ∷ [], plain (code "KeyLeft"))
      ∷ (b'u' ∷ b'p' ∷ b'l' ∷ b'e' ∷ b'f' ∷ b't' ∷ [], plain (code "KeyUpLeft"))
      ∷ (b'u' ∷ b'p' ∷ b'r' ∷ b'i' ∷ b'g' ∷ b'h' ∷ b't' ∷ [], plain (code "KeyUpRight"))
      ∷ (b'd' ∷ b'o' ∷ b'w' ∷ b'n' ∷ b'l' ∷ b'e' ∷ b'f' ∷ b't' ∷ [], plain (code "KeyDownLeft"))
      ∷ (
        b'd' ∷ b'o' ∷ b'w' ∷ b'n' ∷ b'r' ∷ b'i' ∷ b'g' ∷ b'h' ∷ b't' ∷ [],
        plain (code "KeyDownRight"),
      )
      ∷ (b'c' ∷ b'e' ∷ b'n' ∷ b't' ∷ b'e' ∷ b'r' ∷ [], plain (code "KeyCenter"))
      ∷ (b'p' ∷ b'g' ∷ b'u' ∷ b'p' ∷ [], plain (code "KeyPgUp"))
      ∷ (b'p' ∷ b'g' ∷ b'd' ∷ b'n' ∷ [], plain (code "KeyPgDown"))
      ∷ (b'h' ∷ b'o' ∷ b'm' ∷ b'e' ∷ [], plain (code "KeyHome"))
      ∷ (b'e' ∷ b'n' ∷ b'd' ∷ [], plain (code "KeyEnd"))
      ∷ (b'i' ∷ b'n' ∷ b's' ∷ b'e' ∷ b'r' ∷ b't' ∷ [], plain (code "KeyInsert"))
      ∷ (b'd' ∷ b'e' ∷ b'l' ∷ b'e' ∷ b't' ∷ b'e' ∷ [], plain (code "KeyDelete"))
      ∷ (
        b'b' ∷ b'a' ∷ b'c' ∷ b'k' ∷ b's' ∷ b'p' ∷ b'a' ∷ b'c' ∷ b'e' ∷ [],
        plain (code "KeyBackspace"),
      )
      ∷ (b'e' ∷ b'x' ∷ b'i' ∷ b't' ∷ [], plain (code "KeyExit"))
      ∷ (b'c' ∷ b'l' ∷ b'e' ∷ b'a' ∷ b'r' ∷ [], plain (code "KeyClear"))
      ∷ (b'c' ∷ b'a' ∷ b'n' ∷ b'c' ∷ b'e' ∷ b'l' ∷ [], plain (code "KeyCancel"))
      ∷ (b'p' ∷ b'r' ∷ b'i' ∷ b'n' ∷ b't' ∷ [], plain (code "KeyPrint"))
      ∷ (b'p' ∷ b'a' ∷ b'u' ∷ b's' ∷ b'e' ∷ [], plain (code "KeyPause"))
      ∷ (b'b' ∷ b'a' ∷ b'c' ∷ b'k' ∷ b't' ∷ b'a' ∷ b'b' ∷ [], shifted (code "KeyTab"))
      ∷ function_keys code_f 63 1
    ++ (b't' ∷ b'a' ∷ b'b' ∷ [], plain (code "KeyTab"))
      ∷ (b'c' ∷ b'r' ∷ [], plain (code "KeyEnter"))
      ∷ (b'e' ∷ b's' ∷ b'c' ∷ [], plain (code "KeyEsc"))
      ∷ (b'd' ∷ b'e' ∷ b'l' ∷ [], plain (code "KeyDelete"))
      ∷ []

-- The first key of the table, in the order that a `range` loop happens to visit, that the stroke is.
unfoldable pub find_name : Stroke → List (Text × Stroke) → Option (Text × Stroke)
find_name k [] = none
find_name k ((n, ks) ∷ order) =
    if (same_modifiers ks k || not (has_modifiers ks)) && ks.key == k.key
    then some (n, ks)
    else find_name k order

-- What is written for a name, and whether it wants the angle brackets.
abbrev pub name_text : Text → Text × Bool
name_text n =
    if eqb n cr
    then (enter, true)
    else if eqb n space
    then (b' ' ∷ [], false)
    else if eqb n dash
    then (b'-' ∷ [], false)
    else if eqb n semicolon
    then (b';' ∷ [], false)
    else (n, true)

abbrev pub when : Bool → Text → Text
when true t = t
when false t = []

abbrev pub modifier_text : Stroke → Text
modifier_text k =
    when k.ctrl (b'c' ∷ b'-' ∷ [])
    ++ when k.alt (b'a' ∷ b'-' ∷ [])
    ++ when k.shift (b's' ∷ b'-' ∷ [])

-- unicode.MaxRune
abbrev pub max_rune : ℕ
max_rune = 1114111

-- The part of the loop after the search, for the text `s` of the name.
abbrev pub write_stroke : Bool → Text → Stroke → Text
write_stroke special s k =
    let body = modifier_text k ++ (if eqb s [] && ltb k.key max_rune then k.key ∷ [] else s) in
    if special || has_modifiers k then b'<' ∷ body ++ b'>' ∷ [] else body

unfoldable pub format_stroke : List (Text × Stroke) → Stroke → Text
unfolding find_name
format_stroke order k = elim (find_name k order) [
  | none ↦ write_stroke false [] k
  | some (n, ks) ↦ write_stroke (name_text n).1 (name_text n).0 (without_modifiers k ks)
]

unfoldable pub format_all : List (Text × Stroke) → List Stroke → Text
unfolding format_stroke
format_all order [] = []
format_all order (k ∷ ks) = format_stroke order k ++ format_all order ks

-- The class `\s` of the regular expression.
abbrev pub is_space : ℕ → Bool
is_space c = c == 32 || c == 9 || c == 10 || c == 12 || c == 13

-- Its three groups: the spaces before, the rest, and the spaces after.
abbrev pub leading : Text → Text × Text
leading [] = ([], [])
leading (c ∷ t) = let (p, r) = leading t in if is_space c then (c ∷ p, r) else ([], c ∷ t)

abbrev pub add_front : ℕ → Text × Text → Text × Text
add_front c ([], s) = if is_space c then ([], c ∷ s) else (c ∷ [], s)
add_front c (m ∷ ms, s) = (c ∷ m ∷ ms, s)

abbrev pub trailing : Text → Text × Text
trailing [] = ([], [])
trailing (c ∷ t) = add_front c (trailing t)

-- strings.ReplaceAll(s, " ", "<space>")
abbrev pub expand : Text → Text
expand [] = []
expand (c ∷ t) =
    let rest = expand t in if c == 32 then (b'<' ∷ space ++ b'>' ∷ []) ++ rest else c ∷ rest

-- A dot of the regular expression is no line feed.
abbrev pub explicit_spaces : Text → Text
explicit_spaces buf =
    let (p, r) = leading buf in
    let (m, s) = trailing r in if contains m 10 then buf else expand p ++ m ++ expand s

unfoldable pub format_key_strokes : List (Text × Stroke) → List Stroke → Text
unfolding format_all
format_key_strokes order ks = explicit_spaces (format_all order ks)

-- strings.Split(name, "-")
abbrev pub add_rune : ℕ → List Text → List Text
add_rune c [] = (c ∷ []) ∷ []
add_rune c (a ∷ args) = (c ∷ a) ∷ args

abbrev pub split : Text → List Text
split [] = [] ∷ []
split (c ∷ t) = let rest = split t in if c == b'-' then [] ∷ rest else add_rune c rest

-- strings.HasSuffix(name, "--")
abbrev pub ends_in_dashes : Text → Bool
ends_in_dashes [] = false
ends_in_dashes (a ∷ []) = false
ends_in_dashes (a ∷ b ∷ []) = a == b'-' && b == b'-'
ends_in_dashes (a ∷ b ∷ c ∷ t) = ends_in_dashes (b ∷ c ∷ t)

-- utf8.DecodeRuneInString, where it takes all of the text; of the empty text it is utf8.RuneError.
abbrev pub decode_rune : Text → Option ℕ
decode_rune [] = some 65533
decode_rune (r ∷ []) = some r
decode_rune (r ∷ s ∷ t) = none

abbrev pub last_arg : List (Text × Stroke) → Text → Stroke → Option Stroke
last_arg order arg ks = elim (Map.get (to_lower arg) order) [
  | some k ↦ some (record (with_modifiers ks k) { key = k.key })
  | none ↦ elim (decode_rune arg) [ none ↦ none | some r ↦ some (record ks { key = r }) ]
]

abbrev pub modifier_arg : Text → Stroke → Option Stroke
modifier_arg arg ks =
    if eqb (to_lower arg) (b's' ∷ [])
    then some (record ks { shift = true })
    else if eqb (to_lower arg) (b'a' ∷ [])
    then some (record ks { alt = true })
    else if eqb (to_lower arg) (b'c' ∷ [])
    then some (record ks { ctrl = true })
    else if eqb arg []
    then some ks
    else none

-- The loop over the arguments of one name.
abbrev pub read_args : List (Text × Stroke) → List Text → Stroke → Option Stroke
read_args order [] ks = none
read_args order (arg ∷ []) ks = last_arg order arg ks
read_args order (arg ∷ next ∷ args) ks = elim (modifier_arg arg ks) [
  | none ↦ none
  | some ks' ↦ read_args order (next ∷ args) ks'
]

unfoldable pub read_name : List (Text × Stroke) → Text → Option Stroke
read_name order name =
    read_args order (if ends_in_dashes name then split name ++ (b'-' ∷ []) ∷ [] else split name)
      (plain 0)

-- Where the reader is: between strokes, after a backslash, or in a name, with what it has read of it.
pub data Mode : Type 0 where
  between escaped : Mode
  in_name : Text → Mode

abbrev pub then_strokes : Option Stroke → Option (List Stroke) → Option (List Stroke)
then_strokes (some k) (some ks) = some (k ∷ ks)
then_strokes _ _ = none

unfoldable pub close_name :
    List (Text × Stroke) → Text → Option (List Stroke) → Option (List Stroke)
unfolding read_name
close_name order [] rest = none
close_name order (c ∷ name) rest = then_strokes (read_name order (c ∷ name)) rest

-- `none` is an error.
unfoldable pub parse : List (Text × Stroke) → Mode → Text → Option (List Stroke)
unfolding close_name
parse order between [] = some []
parse order escaped [] = some (plain 92 ∷ [])
parse order (in_name name) [] = none
parse order between (c ∷ t) =
    let named = parse order (in_name []) t in
    let rest = parse order between t in
    let after = parse order escaped t in
    if c == 60
    then named
    else if c == 62
    then none
    else if c == 92
    then after
    else then_strokes (some (plain c)) rest
parse order escaped (c ∷ t) = then_strokes (some (plain c)) (parse order between t)
parse order (in_name name) (c ∷ t) =
    let longer = parse order (in_name (name ++ c ∷ [])) t in
    let rest = parse order between t in if c == 62 then close_name order name rest else longer

unfoldable pub parse_key_strokes : List (Text × Stroke) → Text → Option (List Stroke)
unfolding parse
parse_key_strokes order t = parse order between t

-- `ParseBinding`: the input, the output and the annotation.
unfoldable pub parse_binding :
    List (Text × Stroke) → Text → Text → String → Option (List Stroke × List Stroke × String)
unfolding parse_key_strokes
parse_binding order input output annotation = elim (parse_key_strokes order input) [
  | none ↦ none
  | some i ↦ elim (parse_key_strokes order output) [
    | none ↦ none
    | some o ↦ some (i, o, annotation)
  ]
]
