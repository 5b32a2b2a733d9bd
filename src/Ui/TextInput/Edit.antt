-- ===== src/Ui/TextInput/Edit.antt =====
-- The editing of lib/ui/textinput.go, as that of the text on the left of the cursor and the text on the
-- right of it.
use aerc.Prelude.{
  ℕ, zero, suc, ◌+◌, ◌-◌, ◌≤◌, ◌<◌, ◌≡◌, refl, sym, ap, ap₂, subst, ◌∙◌, List, [], ◌∷◌, ◌++◌, ◌==◌,
  length, take, drop, init, init-snoc, length-append, length-take, take-append_self,
  drop-append_self, drop-beyond, drop-drop_one, snoc-append, append_nil, take-append-drop,
  take-take, take-suc, get_elem?-within, Outcome, done, arith, Bool-cases, inl, inr,
}
use aerc.Ui.TextInput.{
  Character, TextInput, changed, ensure_scroll, insert, delete_word, delete_line_forward,
  delete_line_backward, delete_char, backspace,
}
use aerc.Ui.TextInput.Words.{trim_word, word_start_lem, length-trim_word, take-trim_word}

-- The text on the left of the cursor, and that on its right.
abbrev pub View : Type 0
View = List Character × List Character

abbrev pub view : TextInput → View
view ti = (take ti.cursor ti.text, drop ti.cursor ti.text)

pub data Op : Type 0 where
  op_insert : Character → Op
  op_delete_word op_delete_line_forward op_delete_line_backward op_delete_char op_backspace : Op

abbrev pub run : Op → TextInput → Outcome TextInput
run (op_insert ch) ti = insert ch ti
run op_delete_word ti = delete_word ti
run op_delete_line_forward ti = delete_line_forward ti
run op_delete_line_backward ti = delete_line_backward ti
run op_delete_char ti = delete_char ti
run op_backspace ti = backspace ti

abbrev pub edit : Op → View → View
edit (op_insert ch) (l, r) = (l ++ ch ∷ [], r)
edit op_delete_word (l, r) = (trim_word l, r)
edit op_delete_line_forward (l, r) = (l, [])
edit op_delete_line_backward (l, r) = ([], r)
edit op_delete_char (l, r) = (l, drop 1 r)
edit op_backspace (l, r) = (init l, r)

-- The operation returns, with the cursor in the text, and with this view.
abbrev pub Gives : Outcome TextInput → View → Type 0
Gives o w = (ti' : TextInput) × (o ≡ done ti') × (ti'.cursor ≤ length ti'.text) × (view ti' ≡ w)

changed_keeps : (ti : TextInput) → ((changed ti).text ≡ ti.text) × ((changed ti).cursor ≡ ti.cursor)
unfolding changed ensure_scroll
changed_keeps ti = ground arith

-- A change to a text whose left part is `l`.
Gives-changed :
    (ti : TextInput) (l r : List Character)
    → ti.text ≡ l ++ r
    → ti.cursor ≡ length l
    → Gives (done (changed ti)) (l, r)
Gives-changed ti l r t c =
    let (kt, kc) = changed_keeps ti in
    let t' : (changed ti).text ≡ l ++ r = kt ∙ t in
    let c' : (changed ti).cursor ≡ length l = kc ∙ c in
    (
      changed ti,
      refl,
      rw (c', t') (omega (arith, length-append l r)),
      rw (c', t', take-append_self l r, drop-append_self l r),
    )

Gives-by :
    (o : Outcome TextInput) (n : TextInput) (l r : List Character)
    → o ≡ done (changed n)
    → n.text ≡ l ++ r
    → n.cursor ≡ length l
    → Gives o (l, r)
Gives-by o n l r e t c = subst (λ x. Gives x (l, r)) (sym e) (Gives-changed n l r t c)

-- Nothing happens, and the view is as it should be.
Gives-same :
    (o : Outcome TextInput) (ti : TextInput) (l r : List Character)
    → o ≡ done ti
    → ti.cursor ≤ length ti.text
    → take ti.cursor ti.text ≡ l
    → drop ti.cursor ti.text ≡ r
    → Gives o (l, r)
Gives-same o ti l r e h el er = (ti, e, h, ap₂ (λ x y. (x, y)) el er)

length-left :
    (ti : TextInput) → ti.cursor ≤ length ti.text → ti.cursor ≡ length (take ti.cursor ti.text)
length-left ti h = omega (arith, length-take ti.cursor ti.text)

left_empty : (ti : TextInput) → ti.cursor ≡ 0 → take ti.cursor ti.text ≡ []
left_empty ti z = ap (λ n. take n ti.text) z

insert-Gives :
    (ch : Character) (ti : TextInput)
    → ti.cursor ≤ length ti.text
    → Gives (insert ch ti) (edit (op_insert ch) (view ti))
unfolding insert
insert-Gives ch ti h =
    let l = take ti.cursor ti.text in
    let r = drop ti.cursor ti.text in
    Gives-by (insert ch ti) (record ti { text = l ++ ch ∷ r; cursor = ti.cursor + 1 })
      (l ++ ch ∷ []) r (ground arith) (snoc-append l ch r)
      (omega (arith, length-left ti h, length-append l (ch ∷ [])))

delete_word-Gives :
    (ti : TextInput)
    → ti.cursor ≤ length ti.text
    → Gives (delete_word ti) (edit op_delete_word (view ti))
unfolding delete_word
delete_word-Gives ti h =
    let l = take ti.cursor ti.text in
    let r = drop ti.cursor ti.text in
    let i = length (trim_word l) in
    elim (Bool-cases (ti.cursor == 0)) [
      | inl start ↦
          let e = left_empty ti (ground arith) in
          Gives-same (delete_word ti) ti (trim_word l) r (ground arith) h (e ∙ sym (ap trim_word e))
            refl
      | inr behind ↦
          let short : i ≤ ti.cursor = omega (arith, length-trim_word l, length-left ti h) in
          let same = sym (take-take ti.cursor i ti.text short) ∙ take-trim_word l in
          Gives-by (delete_word ti) (record ti { text = take i ti.text ++ r; cursor = i })
            (trim_word l) r (ground (arith, word_start_lem ti h)) (ap (λ x. x ++ r) same) refl
    ]

delete_line_forward-Gives :
    (ti : TextInput)
    → ti.cursor ≤ length ti.text
    → Gives (delete_line_forward ti) (edit op_delete_line_forward (view ti))
unfolding delete_line_forward
delete_line_forward-Gives ti h =
    let l = take ti.cursor ti.text in
    elim (Bool-cases (length ti.text == ti.cursor)) [
      | inl at_end ↦
          Gives-same (delete_line_forward ti) ti l [] (ground arith) h refl
            (drop-beyond ti.text ti.cursor (ground arith))
      | inr inside ↦
          Gives-by (delete_line_forward ti) (record ti { text = l }) l [] (ground arith)
            (append_nil l) (length-left ti h)
    ]

delete_line_backward-Gives :
    (ti : TextInput)
    → ti.cursor ≤ length ti.text
    → Gives (delete_line_backward ti) (edit op_delete_line_backward (view ti))
unfolding delete_line_backward
delete_line_backward-Gives ti h =
    let r = drop ti.cursor ti.text in
    elim (Bool-cases (ti.cursor == 0)) [
      | inl start ↦
          Gives-same (delete_line_backward ti) ti [] r (ground arith) h
            (left_empty ti (ground arith)) refl
      | inr behind ↦
          Gives-by (delete_line_backward ti) (record ti { text = r; cursor = 0 }) [] r
            (ground arith) refl refl
    ]

delete_char-Gives :
    (ti : TextInput)
    → ti.cursor ≤ length ti.text
    → Gives (delete_char ti) (edit op_delete_char (view ti))
unfolding delete_char
delete_char-Gives ti h =
    let l = take ti.cursor ti.text in
    let r = drop 1 (drop ti.cursor ti.text) in
    elim (Bool-cases (length ti.text == ti.cursor)) [
      | inl at_end ↦
          let e = drop-beyond ti.text ti.cursor (ground arith) in
          Gives-same (delete_char ti) ti l r (ground arith) h refl (e ∙ sym (ap (drop 1) e))
      | inr inside ↦
          Gives-by (delete_char ti) (record ti { text = l ++ drop (ti.cursor + 1) ti.text }) l r
            (ground arith) (ground (arith, drop-drop_one ti.text ti.cursor)) (length-left ti h)
    ]

init-left :
    (text : List Character) (c : ℕ)
    → 0 < c
    → c ≤ length text
    → init (take c text) ≡ take (c - 1) text
init-left text zero p h = absurd (omega arith)
init-left text (suc c) p h =
    let (ch, e) = get_elem?-within text c (omega arith) in
    let less : suc c - 1 ≡ c = omega arith in
    rw (less) (ap init (take-suc text c ch e) ∙ init-snoc (take c text) ch)

backspace-Gives :
    (ti : TextInput)
    → ti.cursor ≤ length ti.text
    → Gives (backspace ti) (edit op_backspace (view ti))
unfolding backspace
backspace-Gives ti h =
    let l = init (take ti.cursor ti.text) in
    let r = drop ti.cursor ti.text in
    elim (Bool-cases (ti.cursor == 0)) [
      | inl start ↦
          let e = left_empty ti (ground arith) in
          Gives-same (backspace ti) ti l r (ground arith) h (e ∙ sym (ap init e)) refl
      | inr behind ↦
          let e = init-left ti.text ti.cursor (ground arith) h in
          Gives-by (backspace ti)
            (record ti { text = take (ti.cursor - 1) ti.text ++ r; cursor = ti.cursor - 1 }) l r
            (ground arith) (ap (λ x. x ++ r) (sym e))
            (sym (ap length e ∙ length-take (ti.cursor - 1) ti.text ∙ omega arith))
    ]

-- With the cursor in the text, each editing operation returns without a panic, keeps the cursor in the
-- text, and does to the text on the left and on the right of the cursor exactly what `edit` says: to
-- insert adds a character on the left, the deletions take away the last word, the last character or
-- all of the left, or the first character or all of the right, and touch nothing else.
pub run-edit :
    (op : Op) (ti : TextInput) → ti.cursor ≤ length ti.text → Gives (run op ti) (edit op (view ti))
run-edit (op_insert ch) ti h = insert-Gives ch ti h
run-edit op_delete_word ti h = delete_word-Gives ti h
run-edit op_delete_line_forward ti h = delete_line_forward-Gives ti h
run-edit op_delete_line_backward ti h = delete_line_backward-Gives ti h
run-edit op_delete_char ti h = delete_char-Gives ti h
run-edit op_backspace ti h = backspace-Gives ti h

same_of_view :
    (a b : TextInput)
    → a.cursor ≤ length a.text
    → b.cursor ≤ length b.text
    → view a ≡ view b
    → (a.text ≡ b.text) × (a.cursor ≡ b.cursor)
same_of_view a b ha hb e = (
  sym (take-append-drop a.cursor a.text)
      ∙ ap (λ (v : View). v.0 ++ v.1) e
      ∙ take-append-drop b.cursor b.text,
  length-left a ha ∙ ap (λ (v : View). length v.0) e ∙ sym (length-left b hb),
)

-- `backspace` undoes `insert`: the text and the cursor are again what they were.
pub backspace-insert :
    (ti : TextInput) (ch : Character)
    → ti.cursor ≤ length ti.text
    → (a b : TextInput) × (insert ch ti ≡ done a)
      × (backspace a ≡ done b)
      × (b.text ≡ ti.text)
      × (b.cursor ≡ ti.cursor)
backspace-insert ti ch h =
    let (a, ea, ha, va) = insert-Gives ch ti h in
    let (b, eb, hb, vb) = backspace-Gives a ha in
    let back =
      vb
      ∙ ap (edit op_backspace) va
      ∙ ap (λ (l : List Character). (l, drop ti.cursor ti.text))
          (init-snoc (take ti.cursor ti.text) ch) in
    let (t, c) = same_of_view b ti hb h back in (a, b, ea, eb, t, c)
