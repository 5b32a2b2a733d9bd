-- ===== src/Config/Keys/Tests.antt =====
-- config/binds.go: the table of names itself, and strokes printed and read.
use aerc.Prelude.{
  ℕ, ◌+◌, ◌≡◌, refl, Bool, true, false, ◌&&◌, arith, some, none, List, [], ◌∷◌, String, All, eqb,
  string_eq, if◌then◌else◌,
}
use aerc.Config.Keys.{
  Text, Stroke, plain, shifted, key_names, format_key_strokes, parse_key_strokes,
}
use aerc.Config.Keys.Table.{IsTable, is_good, is_printable}
use aerc.Config.Keys.RoundTrip.{parse_key_strokes-format_key_strokes, parse_key_strokes-dangling}

-- Codes for the keys that are not runes, and those of the keys that are.
abbrev code : String → ℕ
code s =
    if eqb s "KeyTab"
    then 9
    else if eqb s "KeyEnter"
    then 13
    else if eqb s "KeyEsc"
    then 27
    else if eqb s "KeyBackspace"
    then 127
    else 1114200

abbrev code_f : ℕ → ℕ
code_f n = 1114300 + n

abbrev all : (Text × Stroke → Bool) → List (Text × Stroke) → Bool
all p [] = true
all p (e ∷ es) = p e && all p es

All-all :
    (p : Text × Stroke → Bool) (es : List (Text × Stroke))
    → all p es ≡ true
    → All (λ e. p e ≡ true) es
All-all p [] h = tt
All-all p (e ∷ es) h = (ground arith, All-all p es (ground arith))

names_good : all (is_good (key_names code code_f)) (key_names code code_f) ≡ true
unfolding key_names
names_good = refl

key_names-IsTable : IsTable (key_names code code_f)
unfolding key_names
key_names-IsTable = record {
  good = All-all (is_good (key_names code code_f)) (key_names code code_f) names_good;
  names_space = refl;
}

-- Two spaces, Ctrl+dash, the tab with the shift key, F12, `x`, and a space at the end.
abbrev strokes : List Stroke
strokes =
    plain 32
    ∷ plain 32
    ∷ record { shift = false; alt = false; ctrl = true; key = 45 }
    ∷ shifted 9
    ∷ plain 1114312
    ∷ plain 120
    ∷ plain 32
    ∷ []

strokes-text :
    format_key_strokes (key_names code code_f) strokes
    ≡ b'<' ∷ b's' ∷ b'p' ∷ b'a' ∷ b'c' ∷ b'e' ∷ b'>' ∷ b'<' ∷ b's' ∷ b'p' ∷ b'a' ∷ b'c' ∷ b'e'
      ∷ b'>' ∷ b'<' ∷ b'c' ∷ b'-' ∷ b'-' ∷ b'>' ∷ b'<' ∷ b'b' ∷ b'a' ∷ b'c' ∷ b'k' ∷ b't' ∷ b'a'
      ∷ b'b' ∷ b'>' ∷ b'<' ∷ b'f' ∷ b'1' ∷ b'2' ∷ b'>' ∷ b'x' ∷ b'<' ∷ b's' ∷ b'p' ∷ b'a' ∷ b'c'
      ∷ b'e' ∷ b'>' ∷ []
unfolding key_names format_key_strokes
strokes-text = refl

strokes_printable : All (λ k. is_printable (key_names code code_f) k ≡ true) strokes
unfolding key_names is_printable
strokes_printable = (refl, (refl, (refl, (refl, (refl, (refl, (refl, tt)))))))

parse_key_strokes-format_key_strokes_example :
    parse_key_strokes (key_names code code_f) (format_key_strokes (key_names code code_f) strokes)
    ≡ some strokes
parse_key_strokes-format_key_strokes_example =
    parse_key_strokes-format_key_strokes (key_names code code_f) strokes key_names-IsTable
      strokes_printable

-- A bracket that is a stroke of its own is written as it is, which the reader refuses.
bracket_is_lost :
    parse_key_strokes
      (key_names code code_f)
      (format_key_strokes (key_names code code_f) (plain 60 ∷ []))
    ≡ none
unfolding key_names format_key_strokes parse_key_strokes
bracket_is_lost = refl

parse_key_strokes-dangling_example :
    parse_key_strokes (key_names code code_f) (b'<' ∷ b'c' ∷ b'-' ∷ b'>' ∷ [])
    ≡ some (record { shift = false; alt = false; ctrl = true; key = 65533 } ∷ [])
parse_key_strokes-dangling_example =
    parse_key_strokes-dangling (key_names code code_f) false false true key_names-IsTable refl
