-- ===== src/Prelude/Lists.antt =====
-- Lists measured and indexed by native numbers, under the library's names.
use Prim.Native.Nat.{ℕ, zero, suc, ◌+◌, ◌-◌, ◌≤◌, ◌<◌, min}
use mathlib.Core.Path.{◌≡◌, refl, ap, sym, ◌∙◌}
use mathlib.Core.Logic.{◌≢◌, ◌⊎◌}
use mathlib.Core.List.{List, [], ◌∷◌, ◌++◌, map}
use mathlib.Core.Option.{Option, none, some}
use native.Mathlib.Omega.{arith}

module _ {ℓ} {A : Type ℓ} where
  abbrev pub length : List A → ℕ
  length [] = 0
  length (x ∷ xs) = suc (length xs)

  abbrev pub get_elem? : List A → ℕ → Option A
  get_elem? [] i = none
  get_elem? (x ∷ xs) zero = some x
  get_elem? (x ∷ xs) (suc i) = get_elem? xs i

  -- A write out of bounds changes nothing.
  abbrev pub set : List A → ℕ → A → List A
  set [] i v = []
  set (x ∷ xs) zero v = v ∷ xs
  set (x ∷ xs) (suc i) v = x ∷ set xs i v

  pub length-append : (xs ys : List A) → length (xs ++ ys) ≡ length xs + length ys
  length-append [] ys = omega arith
  length-append (x ∷ xs) ys = omega (arith, length-append xs ys)

module _ {ℓ} {A : Type ℓ} where
  pub length-set : (xs : List A) (i : ℕ) (v : A) → length (set xs i v) ≡ length xs
  length-set [] i v = refl
  length-set (x ∷ xs) zero v = refl
  length-set (x ∷ xs) (suc i) v = ap suc (length-set xs i v)

  pub get_elem?-set_self :
      (xs : List A) (i : ℕ) (v : A) → i < length xs → get_elem? (set xs i v) i ≡ some v
  get_elem?-set_self [] i v h = elim h [ ]
  get_elem?-set_self (x ∷ xs) zero v h = refl
  get_elem?-set_self (x ∷ xs) (suc i) v h = get_elem?-set_self xs i v (omega arith)

  pub get_elem?-set_ne :
      (xs : List A) {i j : ℕ} (v : A) → i ≢ j → get_elem? (set xs i v) j ≡ get_elem? xs j
  get_elem?-set_ne [] v h = refl
  get_elem?-set_ne (x ∷ xs) {i = zero} {j = zero} v h = absurd (h refl)
  get_elem?-set_ne (x ∷ xs) {i = zero} {j = suc j} v h = refl
  get_elem?-set_ne (x ∷ xs) {i = suc i} {j = zero} v h = refl
  get_elem?-set_ne (x ∷ xs) {i = suc i} {j = suc j} v h = get_elem?-set_ne xs v (λ e. h (ap suc e))

module _ {ℓ} {A : Type ℓ} where
  abbrev pub get_or : List A → ℕ → A → A
  get_or [] i d = d
  get_or (x ∷ xs) zero d = x
  get_or (x ∷ xs) (suc i) d = get_or xs i d

  abbrev pub take : ℕ → List A → List A
  take zero xs = []
  take (suc n) [] = []
  take (suc n) (x ∷ xs) = x ∷ take n xs

  abbrev pub drop : ℕ → List A → List A
  drop zero xs = xs
  drop (suc n) [] = []
  drop (suc n) (x ∷ xs) = drop n xs

  abbrev pub replicate : ℕ → A → List A
  replicate zero a = []
  replicate (suc n) a = a ∷ replicate n a

  pub take-append-drop : (n : ℕ) (xs : List A) → take n xs ++ drop n xs ≡ xs
  take-append-drop zero xs = refl
  take-append-drop (suc n) [] = refl
  take-append-drop (suc n) (x ∷ xs) = rw (take-append-drop n xs)

  pub length-take : (n : ℕ) (xs : List A) → length (take n xs) ≡ min n (length xs)
  length-take zero xs = omega arith
  length-take (suc n) [] = omega arith
  length-take (suc n) (x ∷ xs) = omega (arith, length-take n xs)

  pub length-drop : (n : ℕ) (xs : List A) → length (drop n xs) ≡ length xs - n
  length-drop zero xs = omega arith
  length-drop (suc n) [] = omega arith
  length-drop (suc n) (x ∷ xs) = omega (arith, length-drop n xs)

  pub length-replicate : (n : ℕ) (a : A) → length (replicate n a) ≡ n
  length-replicate zero a = refl
  length-replicate (suc n) a = ap suc (length-replicate n a)

  pub length-map {κ} : {B : Type κ} (xs : List A) (f : A → B) → length (map f xs) ≡ length xs
  length-map [] f = refl
  length-map (x ∷ xs) f = ap suc (length-map xs f)

module _ {ℓ} {A : Type ℓ} where
  -- append(xs[:i], xs[i+1:]...)
  abbrev pub remove_at : List A → ℕ → List A
  remove_at [] i = []
  remove_at (x ∷ xs) zero = xs
  remove_at (x ∷ xs) (suc i) = x ∷ remove_at xs i

  -- xs[len(xs)-1]
  abbrev pub last? : List A → Option A
  last? [] = none
  last? (x ∷ []) = some x
  last? (x ∷ y ∷ xs) = last? (y ∷ xs)

  -- xs[:len(xs)-1]
  abbrev pub init : List A → List A
  init [] = []
  init (x ∷ []) = []
  init (x ∷ y ∷ xs) = x ∷ init (y ∷ xs)

  pub get_elem?-beyond : (xs : List A) (i : ℕ) → length xs ≤ i → get_elem? xs i ≡ none
  get_elem?-beyond [] i h = refl
  get_elem?-beyond (x ∷ xs) zero h = absurd (omega arith)
  get_elem?-beyond (x ∷ xs) (suc i) h = get_elem?-beyond xs i (omega arith)

  pub get_elem?-within : (xs : List A) (i : ℕ) → i < length xs → (u : A) × (get_elem? xs i ≡ some u)
  get_elem?-within [] i h = absurd (omega arith)
  get_elem?-within (x ∷ xs) zero h = (x, refl)
  get_elem?-within (x ∷ xs) (suc i) h = get_elem?-within xs i (omega arith)

  pub lt_of_get_elem? : (xs : List A) (i : ℕ) (a : A) → get_elem? xs i ≡ some a → i < length xs
  lt_of_get_elem? [] i a h = absurd (ground arith)
  lt_of_get_elem? (x ∷ xs) zero a h = omega arith
  lt_of_get_elem? (x ∷ xs) (suc i) a h = omega (arith, lt_of_get_elem? xs i a h)

  pub length-remove_at :
      (xs : List A) (i : ℕ) → i < length xs → length (remove_at xs i) + 1 ≡ length xs
  length-remove_at [] i h = absurd (omega arith)
  length-remove_at (x ∷ xs) zero h = omega arith
  length-remove_at (x ∷ xs) (suc i) h = omega (arith, length-remove_at xs i)

  pub last?-snoc : (xs : List A) (a : A) → last? (xs ++ a ∷ []) ≡ some a
  last?-snoc [] a = refl
  last?-snoc (x ∷ []) a = refl
  last?-snoc (x ∷ y ∷ xs) a = last?-snoc (y ∷ xs) a

  pub init-snoc : (xs : List A) (a : A) → init (xs ++ a ∷ []) ≡ xs
  init-snoc [] a = refl
  init-snoc (x ∷ []) a = refl
  init-snoc (x ∷ y ∷ xs) a = ap (λ t. x ∷ t) (init-snoc (y ∷ xs) a)

module _ {ℓ} {A : Type ℓ} where
  pub get_or-set_self :
      (xs : List A) (i : ℕ) (v d : A) → i < length xs → get_or (set xs i v) i d ≡ v
  get_or-set_self [] i v d h = absurd (omega arith)
  get_or-set_self (x ∷ xs) zero v d h = refl
  get_or-set_self (x ∷ xs) (suc i) v d h = get_or-set_self xs i v d (omega arith)

  pub get_or-set_ne :
      (xs : List A) (i j : ℕ) (v d : A) → i ≢ j → get_or (set xs i v) j d ≡ get_or xs j d
  get_or-set_ne [] i j v d h = refl
  get_or-set_ne (x ∷ xs) zero zero v d h = absurd (h refl)
  get_or-set_ne (x ∷ xs) zero (suc j) v d h = refl
  get_or-set_ne (x ∷ xs) (suc i) zero v d h = refl
  get_or-set_ne (x ∷ xs) (suc i) (suc j) v d h = get_or-set_ne xs i j v d (λ e. h (ap suc e))

  pub get_or-append :
      (xs ys : List A) (i : ℕ) (d : A) → i < length xs → get_or (xs ++ ys) i d ≡ get_or xs i d
  get_or-append [] ys i d h = absurd (omega arith)
  get_or-append (x ∷ xs) ys zero d h = refl
  get_or-append (x ∷ xs) ys (suc i) d h = get_or-append xs ys i d (omega arith)

  pub get_or-snoc : (xs : List A) (y d : A) → get_or (xs ++ y ∷ []) (length xs) d ≡ y
  get_or-snoc [] y d = refl
  get_or-snoc (x ∷ xs) y d = get_or-snoc xs y d

module _ {ℓ} {A : Type ℓ} where
  pub take-append_self : (xs ys : List A) → take (length xs) (xs ++ ys) ≡ xs
  take-append_self [] ys = refl
  take-append_self (x ∷ xs) ys = ap (λ t. x ∷ t) (take-append_self xs ys)

  pub drop-append_self : (xs ys : List A) → drop (length xs) (xs ++ ys) ≡ ys
  drop-append_self [] ys = refl
  drop-append_self (x ∷ xs) ys = drop-append_self xs ys

  pub take-take : (p q : ℕ) (xs : List A) → q ≤ p → take q (take p xs) ≡ take q xs
  take-take p zero xs h = refl
  take-take zero (suc q) xs h = absurd (omega arith)
  take-take (suc p) (suc q) [] h = refl
  take-take (suc p) (suc q) (x ∷ xs) h = ap (λ t. x ∷ t) (take-take p q xs (omega arith))

  pub take-suc :
      (xs : List A) (p : ℕ) (c : A)
      → get_elem? xs p ≡ some c
      → take (suc p) xs ≡ take p xs ++ c ∷ []
  take-suc [] p c h = absurd (ground arith)
  take-suc (x ∷ xs) zero c h = ground arith
  take-suc (x ∷ xs) (suc p) c h = ap (λ t. x ∷ t) (take-suc xs p c h)

  pub get_elem?-take : (xs : List A) (p i : ℕ) → i < p → get_elem? (take p xs) i ≡ get_elem? xs i
  get_elem?-take xs zero i h = absurd (omega arith)
  get_elem?-take [] (suc p) i h = refl
  get_elem?-take (x ∷ xs) (suc p) zero h = refl
  get_elem?-take (x ∷ xs) (suc p) (suc i) h = get_elem?-take xs p i (omega arith)

  pub drop-beyond : (xs : List A) (n : ℕ) → length xs ≤ n → drop n xs ≡ []
  drop-beyond [] zero h = refl
  drop-beyond [] (suc n) h = refl
  drop-beyond (x ∷ xs) zero h = absurd (omega arith)
  drop-beyond (x ∷ xs) (suc n) h = drop-beyond xs n (omega arith)

  pub drop-drop_one : (xs : List A) (n : ℕ) → drop 1 (drop n xs) ≡ drop (suc n) xs
  drop-drop_one [] zero = refl
  drop-drop_one [] (suc n) = refl
  drop-drop_one (x ∷ xs) zero = refl
  drop-drop_one (x ∷ xs) (suc n) = drop-drop_one xs n

  pub snoc-append : (xs : List A) (x : A) (ys : List A) → xs ++ x ∷ ys ≡ (xs ++ x ∷ []) ++ ys
  snoc-append [] x ys = refl
  snoc-append (z ∷ xs) x ys = ap (λ t. z ∷ t) (snoc-append xs x ys)

  pub append_nil : (xs : List A) → xs ≡ xs ++ []
  append_nil [] = refl
  append_nil (x ∷ xs) = ap (λ t. x ∷ t) (append_nil xs)

  pub take-length : (xs : List A) → take (length xs) xs ≡ xs
  take-length [] = refl
  take-length (x ∷ xs) = ap (λ t. x ∷ t) (take-length xs)

module _ {ℓ} {A : Type ℓ} (P : A → Type 0) where
  abbrev pub All : List A → Type 0
  All [] = Unit
  All (x ∷ xs) = P x × All xs

  abbrev pub Any : List A → Type 0
  Any [] = ⊥
  Any (x ∷ xs) = P x ⊎ Any xs

  pub All-append : (xs ys : List A) → All xs → All ys → All (xs ++ ys)
  All-append [] ys h k = k
  All-append (x ∷ xs) ys h k = (h.0, All-append xs ys h.1 k)

pub All-weaken {ℓ} :
    {A : Type ℓ} (P Q : A → Type 0) (xs : List A) → ((x : A) → P x → Q x) → All P xs → All Q xs
All-weaken P Q [] f h = tt
All-weaken P Q (x ∷ xs) f h = (f x h.0, All-weaken P Q xs f h.1)

module _ {ℓ} {A : Type ℓ} where
  pub append_assoc : (xs ys zs : List A) → (xs ++ ys) ++ zs ≡ xs ++ (ys ++ zs)
  append_assoc [] ys zs = refl
  append_assoc (x ∷ xs) ys zs = ap (λ t. x ∷ t) (append_assoc xs ys zs)

  abbrev pub backwards : List A → List A
  backwards [] = []
  backwards (x ∷ xs) = backwards xs ++ x ∷ []

  pub backwards-snoc : (xs : List A) (x : A) → backwards (xs ++ x ∷ []) ≡ x ∷ backwards xs
  backwards-snoc [] x = refl
  backwards-snoc (y ∷ xs) x = ap (λ t. t ++ y ∷ []) (backwards-snoc xs x)

  pub backwards-append : (xs ys : List A) → backwards (xs ++ ys) ≡ backwards ys ++ backwards xs
  backwards-append [] ys = append_nil (backwards ys)
  backwards-append (x ∷ xs) ys =
      ap (λ t. t ++ x ∷ []) (backwards-append xs ys)
      ∙ append_assoc (backwards ys) (backwards xs) (x ∷ [])

  pub backwards-backwards : (xs : List A) → backwards (backwards xs) ≡ xs
  backwards-backwards [] = refl
  backwards-backwards (x ∷ xs) =
      backwards-snoc (backwards xs) x ∙ ap (λ t. x ∷ t) (backwards-backwards xs)

module _ {ℓ κ} {A : Type ℓ} {B : Type κ} (f : A → List B) where
  abbrev pub concat_map : List A → List B
  concat_map [] = []
  concat_map (x ∷ xs) = f x ++ concat_map xs

  pub concat_map-append : (xs ys : List A) → concat_map (xs ++ ys) ≡ concat_map xs ++ concat_map ys
  concat_map-append [] ys = refl
  concat_map-append (x ∷ xs) ys =
      ap (λ t. f x ++ t) (concat_map-append xs ys)
      ∙ sym (append_assoc (f x) (concat_map xs) (concat_map ys))

pub backwards-concat_map {ℓ κ} :
    {A : Type ℓ} {B : Type κ} (f : A → List B) (xs : List A)
    → backwards (concat_map f (backwards xs)) ≡ concat_map (λ x. backwards (f x)) xs
backwards-concat_map f [] = refl
backwards-concat_map f (x ∷ xs) =
    ap backwards (concat_map-append f (backwards xs) (x ∷ []))
    ∙ backwards-append (concat_map f (backwards xs)) (concat_map f (x ∷ []))
    ∙ ap (λ t. backwards t ++ backwards (concat_map f (backwards xs))) (sym (append_nil (f x)))
    ∙ ap (λ t. backwards (f x) ++ t) (backwards-concat_map f xs)
