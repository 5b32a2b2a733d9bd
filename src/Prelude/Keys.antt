-- ===== src/Prelude/Keys.antt =====
-- What maps and searches compare: types with a Boolean equality, and the result of code that may
-- panic (Go's run-time panic on an index or a slice out of range).
use text.Mathlib.Text.{◌==◌ as str_eq}
use text.Mathlib.TextEquality.{eq_iff}
use Prim.Native.Nat.{ℕ}
use Prim.Native.String.{String}
use mathlib.Core.Path.{◌≡◌, refl}
use mathlib.Core.Logic.{◌↔◌}
use mathlib.Core.Bool.{Bool, true, false, ◌&&◌, ◌||◌}
use mathlib.Core.Option.{Option, none, some}
use mathlib.Core.List.{List, [], ◌∷◌, ◌++◌}
use native.Mathlib.Omega.{arith}
use aerc.Prelude.Tests.{◌==◌, ==_iff}
use aerc.Prelude.Lists.{get_elem?}

pub record Eq {ℓ} (A : Type ℓ) : Type ℓ where
  pub beq : A → A → Bool
  pub beq_iff : (a b : A) → (beq a b ≡ true) ↔ (a ≡ b)

abbrev pub eqb {ℓ} : {A : Type ℓ} ⦃e : Eq A⦄ → A → A → Bool
eqb ⦃e⦄ = e.beq

instance abbrev pub nat_eq : Eq ℕ
nat_eq = record { beq = ◌==◌; beq_iff = ==_iff }

instance abbrev pub string_eq : Eq String
string_eq = record { beq = str_eq; beq_iff = eq_iff }

abbrev pub list_eqb {ℓ} : {A : Type ℓ} ⦃e : Eq A⦄ → List A → List A → Bool
list_eqb [] [] = true
list_eqb (x ∷ xs) (y ∷ ys) = eqb x y && list_eqb xs ys
list_eqb _ _ = false

pub list_eqb_iff {ℓ} :
    {A : Type ℓ} ⦃e : Eq A⦄ (as' bs : List A) → (list_eqb as' bs ≡ true) ↔ (as' ≡ bs)
list_eqb_iff [] [] = ground arith
list_eqb_iff [] (b ∷ bs) = ground arith
list_eqb_iff (a ∷ as') [] = ground arith
list_eqb_iff ⦃e = e⦄ (a ∷ as') (b ∷ bs) = ground (arith, e.beq_iff a b, list_eqb_iff as' bs)

instance abbrev pub list_eq {ℓ} : {A : Type ℓ} ⦃e : Eq A⦄ → Eq (List A)
list_eq = record { beq = list_eqb; beq_iff = list_eqb_iff }

pub eqb_refl {ℓ} : {A : Type ℓ} ⦃e : Eq A⦄ (a : A) → eqb a a ≡ true
eqb_refl ⦃e⦄ a = (e.beq_iff a a).1 refl

-- slices.Contains
module _ {ℓ} {A : Type ℓ} ⦃e : Eq A⦄ where
  abbrev pub contains : List A → A → Bool
  contains [] a = false
  contains (x ∷ xs) a = eqb x a || contains xs a

  -- strings.HasPrefix, on the bytes
  abbrev pub has_prefix : List A → List A → Bool
  has_prefix s [] = true
  has_prefix [] (p ∷ ps) = false
  has_prefix (x ∷ s) (p ∷ ps) = eqb x p && has_prefix s ps

  pub contains-append :
      (xs ys : List A) (a : A) → contains (xs ++ ys) a ≡ (contains xs a || contains ys a)
  contains-append [] ys a = refl
  contains-append (x ∷ xs) ys a = ground (arith, contains-append xs ys a)

-- The result of code that may panic.
pub data Outcome {ℓ} (A : Type ℓ) : Type ℓ where
  done : A → Outcome A
  panic : Outcome A

infixl 5 ◌>>=◌ ◌>>◌
abbrev pub ◌>>=◌ {ℓ κ} : {A : Type ℓ} {B : Type κ} → Outcome A → (A → Outcome B) → Outcome B
done a >>= f = f a
panic >>= f = panic

abbrev pub ◌>>◌ {ℓ} : {B : Type ℓ} → Outcome (Unit {0}) → Outcome B → Outcome B
m >> k = m >>= λ _. k

abbrev pub or_panic {ℓ} : {A : Type ℓ} → Option A → Outcome A
or_panic none = panic
or_panic (some a) = done a

-- xs[i]
abbrev pub index {ℓ} : {A : Type ℓ} → List A → ℕ → Outcome A
index xs i = or_panic (get_elem? xs i)
