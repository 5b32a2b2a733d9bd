-- ===== src/Prelude/Map.antt =====
-- Go's maps as association lists. A write moves its key to the front, so the list has each key once;
-- the order of the list stands for the order in which a `range` loop happens to visit the keys.
use mathlib.Core.Path.{◌≡◌, refl}
use mathlib.Core.Bool.{Bool, false, ◌||◌}
use mathlib.Core.Option.{Option, none, some}
use mathlib.Core.List.{List, [], ◌∷◌}
use native.Mathlib.Omega.{arith}
use aerc.Prelude.Tests.{if◌then◌else◌}
use aerc.Prelude.Keys.{Eq, eqb}

module _ {ℓ κ} {K : Type ℓ} {V : Type κ} ⦃e : Eq K⦄ where
  -- m[k], and whether the key is there
  abbrev pub get : K → List (K × V) → Option V
  get k [] = none
  get k ((j, v) ∷ m) = if eqb j k then some v else get k m

  -- delete(m, k)
  abbrev pub delete : K → List (K × V) → List (K × V)
  delete k [] = []
  delete k ((j, v) ∷ m) = let rest = delete k m in if eqb j k then rest else (j, v) ∷ rest

  -- m[k] = v
  abbrev pub put : K → V → List (K × V) → List (K × V)
  put k v m = (k, v) ∷ delete k m

  abbrev pub has : K → List (K × V) → Bool
  has k [] = false
  has k ((j, v) ∷ m) = eqb j k || has k m

  pub get-delete :
      (k j : K) (m : List (K × V)) → get j (delete k m) ≡ (if eqb k j then none else get j m)
  get-delete k j [] = ground arith
  get-delete k j ((i, v) ∷ m) =
      ground (arith, get-delete k j m, e.beq_iff i k, e.beq_iff i j, e.beq_iff k j)

  pub get-put :
      (k j : K) (v : V) (m : List (K × V))
      → get j (put k v m) ≡ (if eqb k j then some v else get j m)
  get-put k j v m = ground (arith, get-delete k j m)

  pub has-delete :
      (k j : K) (m : List (K × V)) → has j (delete k m) ≡ (if eqb k j then false else has j m)
  has-delete k j [] = ground arith
  has-delete k j ((i, v) ∷ m) =
      ground (arith, has-delete k j m, e.beq_iff i k, e.beq_iff i j, e.beq_iff k j)

  pub has-put : (k j : K) (v : V) (m : List (K × V)) → has j (put k v m) ≡ (eqb k j || has j m)
  has-put k j v m = ground (arith, has-delete k j m)

  -- Each key stands once.
  abbrev pub IsDistinct : List (K × V) → Type 0
  IsDistinct [] = Unit
  IsDistinct ((j, v) ∷ m) = (has j m ≡ false) × IsDistinct m

  pub delete-IsDistinct : (k : K) (m : List (K × V)) → IsDistinct m → IsDistinct (delete k m)
  delete-IsDistinct k [] d = tt
  delete-IsDistinct k ((j, v) ∷ m) d =
      ground (arith, delete-IsDistinct k m, has-delete k j m, e.beq_iff j k)

  pub put-IsDistinct : (k : K) (v : V) (m : List (K × V)) → IsDistinct m → IsDistinct (put k v m)
  put-IsDistinct k v m d = ground (arith, delete-IsDistinct k m, has-delete k k m, e.beq_iff k k)

  pub get_of_not_has : (k : K) (m : List (K × V)) → has k m ≡ false → get k m ≡ none
  get_of_not_has k [] h = refl
  get_of_not_has k ((j, v) ∷ m) h = ground (arith, get_of_not_has k m)

  pub not_has_of_get : (k : K) (m : List (K × V)) → get k m ≡ none → has k m ≡ false
  not_has_of_get k [] h = refl
  not_has_of_get k ((j, v) ∷ m) h = ground (arith, not_has_of_get k m)
