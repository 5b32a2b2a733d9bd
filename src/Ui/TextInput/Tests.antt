-- ===== src/Ui/TextInput/Tests.antt =====
-- lib/ui/textinput.go on a line of text, and the theorems at it.
use aerc.Prelude.{ℕ, ◌≡◌, refl, some, [], ◌∷◌, length, take, done, arith}
use aerc.Prelude.Int.{pos}
use aerc.Ui.TextInput.{
  Character, TextInput, word_start, next_word_start, back_while, before, trim_trailing,
}
use aerc.Ui.TextInput.Words.{trim_word, word_start_lem}
use aerc.Ui.TextInput.Edit.{op_delete_word, run, edit, view, Gives, run-edit}

abbrev char : ℕ → Character
char b = b ∷ []

-- `a/bc d`, with the cursor behind the `c`, in a window of five cells.
abbrev line : TextInput
line = record {
  width = some 6;
  prompt_length = 1;
  text = char b'a' ∷ char b'/' ∷ char b'b' ∷ char b'c' ∷ char b' ' ∷ char b'd' ∷ [];
  cursor = 4;
  scroll = pos 0;
  changes = 0;
}

both_ways : (word_start line ≡ done 2) × (next_word_start line ≡ done 5)
unfolding word_start next_word_start back_while before trim_trailing
both_ways = (refl, refl)

word_start_lem_example : word_start line ≡ done (length (trim_word (take 4 line.text)))
word_start_lem_example = word_start_lem line (omega arith)

run-edit_example : Gives (run op_delete_word line) (edit op_delete_word (view line))
run-edit_example = run-edit op_delete_word line (omega arith)
