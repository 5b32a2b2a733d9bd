-- ===== src/Ui/TextInput.antt =====
-- lib/ui/textinput.go: the editing of a line of text. A character is the list of the bytes of its
-- grapheme. Of the context the model keeps the width, which is missing before the first drawing, and of
-- the prompt its length. The callbacks of `onChange` are counted; completion and drawing are left out.
pub mod Words
pub mod Edit
pub mod Scroll
mod Tests
use aerc.Prelude.{
  ℕ, zero, suc, ◌+◌, ◌-◌, Bool, true, false, not, ◌&&◌, ◌||◌, Option, none, some, List, [], ◌∷◌,
  ◌++◌, ltb, leb, ◌==◌, if◌then◌else◌, length, take, drop, has_prefix, eqb, list_eq, nat_eq,
  Outcome, done, panic, index, ◌>>=◌,
}
use aerc.Prelude.Int.{ℤ, pos, negsuc, sub_ℕ, ◌+ℤ◌, ◌-ℤ◌, ltb_ℤ}

abbrev pub Character : Type 0
Character = List ℕ

pub record TextInput : Type 0 where
  pub width : Option ℕ
  pub prompt_length : ℕ
  pub text : List Character
  pub cursor : ℕ
  pub scroll : ℤ
  pub changes : ℕ

-- text[:i] and text[i:]
abbrev pub slice_to : List Character → ℕ → Outcome (List Character)
slice_to text i = if leb i (length text) then done (take i text) else panic

abbrev pub slice_from : List Character → ℕ → Outcome (List Character)
slice_from text i = if leb i (length text) then done (drop i text) else panic

-- A cursor behind the end is moved to the end.
unfoldable pub string_left : TextInput → Outcome (List Character × TextInput)
string_left ti =
    let ti' =
      if ltb (length ti.text) ti.cursor then record ti { cursor = length ti.text } else ti in
    do left ← slice_to ti'.text ti'.cursor; done (left, ti')

unfoldable pub string_right : TextInput → Outcome (List Character)
string_right ti = if leb (length ti.text) ti.cursor then done [] else slice_from ti.text ti.cursor

-- The characters of the new text come from the terminal library.
unfoldable pub set_characters : List Character → TextInput → TextInput
set_characters chars ti = record ti { text = chars; cursor = length chars; scroll = pos 0 }

-- With a window of `w` cells.
unfoldable pub scroll_to : ℕ → ℤ → ℤ → ℤ
unfolding ◌+ℤ◌ ◌-ℤ◌
scroll_to cursor w scroll =
    let s = if ltb_ℤ (pos cursor) (scroll +ℤ w) then scroll else pos cursor -ℤ w +ℤ pos 1 in
    if ltb_ℤ (pos cursor) s then pos cursor else s

unfoldable pub ensure_scroll : TextInput → TextInput
unfolding scroll_to
ensure_scroll ti = elim ti.width [
  | none ↦ ti
  | some w ↦ record ti { scroll = scroll_to ti.cursor (sub_ℕ w ti.prompt_length) ti.scroll }
]

-- What each change of the text ends with.
unfoldable pub changed : TextInput → TextInput
unfolding ensure_scroll
changed ti = record (ensure_scroll ti) { changes = ti.changes + 1 }

unfoldable pub insert : Character → TextInput → Outcome TextInput
unfolding changed
insert ch ti = do
  left ← slice_to ti.text ti.cursor
  right ← slice_from ti.text ti.cursor
  done (changed (record ti { text = left ++ ch ∷ right; cursor = ti.cursor + 1 }))

-- strings.Contains(s, t)
abbrev pub is_infix : List ℕ → List ℕ → Bool
is_infix [] t = has_prefix [] t
is_infix (x ∷ s) t = has_prefix (x ∷ s) t || is_infix s t

abbrev pub separators : List ℕ
separators = b'/' ∷ b'\'' ∷ b'"' ∷ []

abbrev pub is_separator : Character → Bool
is_separator ch = is_infix separators ch

abbrev pub is_space : Character → Bool
is_space ch = eqb ch (b' ' ∷ [])

abbrev pub in_word : Character → Bool
in_word ch = not (is_infix (separators ++ b' ' ∷ []) ch)

-- for i >= 0 && f(text[i]) { i-- }, from i = p - 1, and then i + 1
unfoldable pub back_while : (Character → Bool) → List Character → ℕ → Outcome ℕ
back_while f text zero = done 0
back_while f text (suc p) =
    let rest = back_while f text p in do ch ← index text p; if f ch then rest else done (suc p)

-- i >= 0 && f(text[i]), for i = p - 1
unfoldable pub before : (Character → Bool) → List Character → ℕ → Outcome Bool
before f text zero = done false
before f text (suc p) = do ch ← index text p; done (f ch)

unfoldable pub word_start : TextInput → Outcome ℕ
unfolding back_while before
word_start ti = if length ti.text == 0 || ti.cursor == 0 then done ti.cursor else do
  p ← back_while is_space ti.text ti.cursor
  at_separator ← before is_separator ti.text p
  back_while (if at_separator then is_separator else in_word) ti.text p

-- How many of the first characters `f` holds of.
abbrev pub count_while : (Character → Bool) → List Character → ℕ
count_while f [] = 0
count_while f (x ∷ xs) = if f x then suc (count_while f xs) else 0

-- for i < len(text) && f(text[i]) { i++ }
abbrev pub forward_while : (Character → Bool) → List Character → ℕ → ℕ
forward_while f text i = i + count_while f (drop i text)

-- The end of `nextWordStart`, on trailing spaces.
unfoldable pub trim_trailing : List Character → Character → ℕ → Outcome ℕ
unfolding back_while
trim_trailing text at_cursor i =
    if i == length text && not (is_space at_cursor) then back_while is_space text i else done i

unfoldable pub next_word_start : TextInput → Outcome ℕ
unfolding trim_trailing
next_word_start ti =
    if length ti.text == 0 || leb (length ti.text) ti.cursor then done ti.cursor else do
      ch ← index ti.text ti.cursor
      trim_trailing ti.text ch (
          forward_while is_space ti.text
            (forward_while (if is_separator ch then is_separator else in_word) ti.text ti.cursor))

unfoldable pub delete_word : TextInput → Outcome TextInput
unfolding word_start changed
delete_word ti = if length ti.text == 0 || ti.cursor == 0 then done ti else do
  i ← word_start ti
  left ← slice_to ti.text i
  right ← slice_from ti.text ti.cursor
  done (changed (record ti { text = left ++ right; cursor = i }))

unfoldable pub delete_line_forward : TextInput → Outcome TextInput
unfolding changed
delete_line_forward ti =
    if length ti.text == 0 || length ti.text == ti.cursor
    then done ti
    else do left ← slice_to ti.text ti.cursor; done (changed (record ti { text = left }))

unfoldable pub delete_line_backward : TextInput → Outcome TextInput
unfolding changed
delete_line_backward ti = if length ti.text == 0 || ti.cursor == 0 then done ti else do
  right ← slice_from ti.text ti.cursor
  done (changed (record ti { text = right; cursor = 0 }))

unfoldable pub delete_char : TextInput → Outcome TextInput
unfolding changed
delete_char ti =
    if ltb 0 (length ti.text) && not (ti.cursor == length ti.text)
    then (do
      left ← slice_to ti.text ti.cursor
      right ← slice_from ti.text (ti.cursor + 1)
      done (changed (record ti { text = left ++ right })))
    else done ti

unfoldable pub backspace : TextInput → Outcome TextInput
unfolding changed
backspace ti =
    if ltb 0 (length ti.text) && not (ti.cursor == 0)
    then (do
      left ← slice_to ti.text (ti.cursor - 1)
      right ← slice_from ti.text ti.cursor
      done (changed (record ti { text = left ++ right; cursor = ti.cursor - 1 })))
    else done ti
