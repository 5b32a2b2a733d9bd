-- ===== src/Ui/TextInput/Words.antt =====
-- The words of lib/ui/textinput.go: where `wordStart` and `nextWordStart` go.
use aerc.Prelude.{
  ℕ, zero, suc, ◌≤◌, ◌<◌, ◌≡◌, refl, sym, ap, ◌∙◌, Bool, true, false, not, ◌&&◌, ◌||◌, none, some,
  List, [], ◌∷◌, ◌++◌, ◌==◌, if◌then◌else◌, length, take, drop, get_elem?, get_elem?-within,
  get_elem?-take, lt_of_get_elem?, length-drop, last?, last?-snoc, length-append, length-take,
  take-take, take-suc, done, arith, Bool-cases, inl, inr,
}
use aerc.Ui.TextInput.{
  Character, TextInput, back_while, before, word_start, next_word_start, is_space, is_separator,
  in_word, count_while, forward_while, trim_trailing,
}

-- `x` in front of what is left of the elements behind it.
abbrev pub keep : (Character → Bool) → Character → List Character → List Character
keep f x [] = if f x then [] else x ∷ []
keep f x (y ∷ ys) = x ∷ y ∷ ys

-- The list without its last elements, as long as `f` holds of them.
abbrev pub trim_end : (Character → Bool) → List Character → List Character
trim_end f [] = []
trim_end f (x ∷ xs) = keep f x (trim_end f xs)

abbrev pub ends_in : (Character → Bool) → List Character → Bool
ends_in f xs = elim (last? xs) [ none ↦ false | some ch ↦ f ch ]

-- What stays of the text on the left of the cursor when its last word is taken away: the spaces at its
-- end, and then the separators there or, if there are none, the characters of a word.
abbrev pub trim_word : List Character → List Character
trim_word left =
    let l = trim_end is_space left in
    trim_end (if ends_in is_separator l then is_separator else in_word) l

trim_end-snoc :
    (f : Character → Bool) (xs : List Character) (ch : Character)
    → trim_end f (xs ++ ch ∷ []) ≡ (if f ch then trim_end f xs else xs ++ ch ∷ [])
trim_end-snoc f [] ch = refl
trim_end-snoc f (x ∷ []) ch = ground arith
trim_end-snoc f (x ∷ y ∷ xs) ch = ground (arith, trim_end-snoc f (y ∷ xs) ch)

take-trim_end :
    (f : Character → Bool) (xs : List Character) → take (length (trim_end f xs)) xs ≡ trim_end f xs
take-trim_end f [] = refl
take-trim_end f (x ∷ xs) = ground (arith, take-trim_end f xs)

length-trim_end : (f : Character → Bool) (xs : List Character) → length (trim_end f xs) ≤ length xs
length-trim_end f [] = omega arith
length-trim_end f (x ∷ xs) = ground (arith, length-trim_end f xs)

back_while_lem :
    (f : Character → Bool) (text : List Character) (p : ℕ)
    → p ≤ length text
    → back_while f text p ≡ done (length (trim_end f (take p text)))
unfolding back_while
back_while_lem f text zero h = refl
back_while_lem f text (suc p) h =
    let (ch, e) = get_elem?-within text p (omega arith) in
    ground (
      arith,
      back_while_lem f text p,
      take-suc text p ch e,
      trim_end-snoc f (take p text) ch,
      length-append (take p text) (ch ∷ []),
      length-take p text,
    )

before_lem :
    (f : Character → Bool) (text : List Character) (p : ℕ)
    → p ≤ length text
    → before f text p ≡ done (ends_in f (take p text))
unfolding before
before_lem f text zero h = refl
before_lem f text (suc p) h =
    let (ch, e) = get_elem?-within text p (omega arith) in
    ground (arith, take-suc text p ch e, last?-snoc (take p text) ch)

pub length-trim_word : (xs : List Character) → length (trim_word xs) ≤ length xs
length-trim_word xs =
    let l = trim_end is_space xs in
    omega (
      arith,
      length-trim_end is_space xs,
      length-trim_end (if ends_in is_separator l then is_separator else in_word) l,
    )

pub take-trim_word : (xs : List Character) → take (length (trim_word xs)) xs ≡ trim_word xs
take-trim_word xs =
    let l = trim_end is_space xs in
    let f = if ends_in is_separator l then is_separator else in_word in
    sym (take-take (length l) (length (trim_end f l)) xs (length-trim_end f l))
    ∙ ap (take (length (trim_end f l))) (take-trim_end is_space xs)
    ∙ take-trim_end f l

-- The second loop, from where the first one stopped.
second_loop :
    (text : List Character) (p : ℕ)
    → p ≤ length text
    → (let l = trim_end is_space (take p text) in
        back_while (if ends_in is_separator l then is_separator else in_word) text (length l))
      ≡ done (length (trim_word (take p text)))
second_loop text p h =
    let l = trim_end is_space (take p text) in
    let f = if ends_in is_separator l then is_separator else in_word in
    let short : length l ≤ p =
      omega (arith, length-trim_end is_space (take p text), length-take p text) in
    let same : take (length l) text ≡ l =
      sym (take-take p (length l) text short) ∙ take-trim_end is_space (take p text) in
    back_while_lem f text (length l) (omega arith)
    ∙ ap (λ (t : List Character). done (length (trim_end f t))) same

-- With the cursor in the text, `wordStart` does not panic, and finds the end of what stays when the
-- last word before the cursor is taken away.
pub word_start_lem :
    (ti : TextInput)
    → ti.cursor ≤ length ti.text
    → word_start ti ≡ done (length (trim_word (take ti.cursor ti.text)))
unfolding word_start
word_start_lem ti h = elim (Bool-cases (ti.cursor == 0)) [
  | inl start ↦
      let z : ti.cursor ≡ 0 = ground arith in
      ground (arith, z, ap (λ n. length (trim_word (take n ti.text))) z)
  | inr behind ↦
      let l = trim_end is_space (take ti.cursor ti.text) in
      let short : length l ≤ ti.cursor =
        omega (
          arith,
          length-trim_end is_space (take ti.cursor ti.text),
          length-take ti.cursor ti.text,
        ) in
      let same : take (length l) ti.text ≡ l =
        sym (take-take ti.cursor (length l) ti.text short)
        ∙ take-trim_end is_space (take ti.cursor ti.text) in
      ground (
        arith,
        back_while_lem is_space ti.text ti.cursor h,
        before_lem is_separator ti.text (length l) (omega arith),
        ap (ends_in is_separator) same,
        second_loop ti.text ti.cursor h,
      )
]

length-count_while : (f : Character → Bool) (xs : List Character) → count_while f xs ≤ length xs
length-count_while f [] = omega arith
length-count_while f (x ∷ xs) = ground (arith, length-count_while f xs)

drop-cons :
    (xs : List Character) (i : ℕ) (ch : Character)
    → get_elem? xs i ≡ some ch
    → drop i xs ≡ ch ∷ drop (suc i) xs
drop-cons [] i ch h = absurd (ground arith)
drop-cons (x ∷ xs) zero ch h = ground arith
drop-cons (x ∷ xs) (suc i) ch h = drop-cons xs i ch h

trim_end-beyond :
    (f : Character → Bool) (xs : List Character) (i : ℕ) (ch : Character)
    → get_elem? xs i ≡ some ch
    → f ch ≡ false
    → i < length (trim_end f xs)
trim_end-beyond f [] i ch h k = absurd (ground arith)
trim_end-beyond f (x ∷ xs) zero ch h k = ground arith
trim_end-beyond f (x ∷ xs) (suc i) ch h k = ground (arith, trim_end-beyond f xs i ch)

forward_while-within :
    (f : Character → Bool) (text : List Character) (i : ℕ)
    → i ≤ length text
    → forward_while f text i ≤ length text
forward_while-within f text i h =
    omega (arith, length-count_while f (drop i text), length-drop i text)

trim_trailing-beyond :
    (text : List Character) (c i : ℕ) (ch : Character)
    → get_elem? text c ≡ some ch
    → c < i
    → i ≤ length text
    → (j : ℕ) × (trim_trailing text ch i ≡ done j) × (c < j) × (j ≤ length text)
unfolding trim_trailing
trim_trailing-beyond text c i ch e l u = elim (Bool-cases (i == length text && not (is_space ch))) [
  | inl back ↦
      let kept = take i text in
      (
        length (trim_end is_space kept),
        ground (arith, back_while_lem is_space text i u),
        trim_end-beyond is_space kept c ch (get_elem?-take text i c l ∙ e) (ground arith),
        omega (arith, length-trim_end is_space kept, length-take i text),
      )
  | inr rest ↦ (i, ground arith, l, u)
]

-- The two forward loops together.
forward-beyond :
    (text : List Character) (c : ℕ) (ch : Character)
    → get_elem? text c ≡ some ch
    → (is_separator ch || in_word ch || is_space ch) ≡ true
    → (let i =
          forward_while is_space text
            (forward_while (if is_separator ch then is_separator else in_word) text c) in
        (c < i) × (i ≤ length text))
forward-beyond text c ch e k =
    let f = if is_separator ch then is_separator else in_word in
    let a = forward_while f text c in
    let inside = lt_of_get_elem? text c ch e in
    let a_within = forward_while-within f text c (omega arith) in
    let i_within = forward_while-within is_space text a a_within in
    let ahead = drop-cons text c ch e in
    elim (Bool-cases (f ch)) [
      | inl more ↦
          let one : 0 < count_while f (drop c text) = ground (arith, ahead) in
          (omega (arith, one), i_within)
      | inr stop ↦
          let here : count_while f (drop c text) ≡ 0 = ground (arith, ahead) in
          let same : a ≡ c = omega (arith, here) in
          let space : is_space ch ≡ true = ground arith in
          let one : 0 < count_while is_space (drop c text) = ground (arith, ahead) in
          (ground (arith, same, one), i_within)
    ]

-- `nextWordStart` does not panic. At the end of the text it stays; before it, at a character that is a
-- separator, part of a word or a space, it goes forward, and not beyond the end.
pub next_word_start_lem :
    (ti : TextInput)
    → (length ti.text ≤ ti.cursor → next_word_start ti ≡ done ti.cursor)
      × ((ch : Character)
          → get_elem? ti.text ti.cursor ≡ some ch
          → (is_separator ch || in_word ch || is_space ch) ≡ true
          → (j : ℕ) × (next_word_start ti ≡ done j) × (ti.cursor < j) × (j ≤ length ti.text))
unfolding next_word_start
next_word_start_lem ti = (
  λ h. ground arith,
  λ ch e k.
      let f = if is_separator ch then is_separator else in_word in
      let i = forward_while is_space ti.text (forward_while f ti.text ti.cursor) in
      let (beyond, inside) = forward-beyond ti.text ti.cursor ch e k in
      let (j, r, l, u) = trim_trailing-beyond ti.text ti.cursor i ch e beyond inside in
      (j, ground (arith, r, lt_of_get_elem? ti.text ti.cursor ch e), l, u),
)
