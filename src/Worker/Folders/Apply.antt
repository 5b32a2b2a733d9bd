-- ===== src/Worker/Folders/Apply.antt =====
-- The stars of a display name, of worker/middleware/foldermapper.go.
use aerc.Prelude.{
  ℕ, zero, suc, ◌≤◌, ◌<◌, ◌≡◌, refl, true, false, ◌&&◌, [], ◌∷◌, ◌==◌, if◌then◌else◌, length, arith,
  Bool-cases, inl, inr,
}
use aerc.Worker.Folders.{Name, star, has_double, halve, squeeze}

-- One star in place of each run of stars.
abbrev pub collapse : Name → Name
collapse [] = []
collapse (x ∷ []) = x ∷ []
collapse (x ∷ y ∷ s) =
    let rest = collapse (y ∷ s) in if x == star && y == star then rest else x ∷ rest

length-halve_le : (s : Name) → length (halve s) ≤ length s
length-halve_le [] = omega arith
length-halve_le (x ∷ []) = omega arith
length-halve_le (x ∷ y ∷ s) = ground (arith, length-halve_le s, length-halve_le (y ∷ s))

length-halve : (s : Name) → has_double s ≡ true → length (halve s) < length s
length-halve [] h = absurd (ground arith)
length-halve (x ∷ []) h = absurd (ground arith)
length-halve (x ∷ y ∷ s) h = ground (arith, length-halve_le s, length-halve (y ∷ s))

collapse-cons_halve : (x : ℕ) (s : Name) → collapse (x ∷ halve s) ≡ collapse (x ∷ s)
collapse-cons_halve x [] = refl
collapse-cons_halve x (y ∷ []) = refl
collapse-cons_halve x (y ∷ z ∷ s) =
    ground (arith, collapse-cons_halve star s, collapse-cons_halve y (z ∷ s))

collapse-halve : (s : Name) → collapse (halve s) ≡ collapse s
collapse-halve [] = refl
collapse-halve (x ∷ []) = refl
collapse-halve (x ∷ y ∷ s) =
    ground (arith, collapse-cons_halve star s, collapse-cons_halve x (y ∷ s))

collapse_of_single : (s : Name) → has_double s ≡ false → collapse s ≡ s
collapse_of_single [] h = refl
collapse_of_single (x ∷ []) h = refl
collapse_of_single (x ∷ y ∷ s) h = ground (arith, collapse_of_single (y ∷ s))

-- With at least as much fuel as the name is long, the loop that squeezes stars ends, and replaces each
-- run of stars by one star.
pub squeeze-collapse : (fuel : ℕ) (s : Name) → length s ≤ fuel → squeeze fuel s ≡ collapse s
unfolding squeeze
squeeze-collapse zero [] h = refl
squeeze-collapse zero (x ∷ s) h = absurd (omega arith)
squeeze-collapse (suc fuel) s h = elim (Bool-cases (has_double s)) [
  | inl double ↦
      ground (arith, length-halve s double, squeeze-collapse fuel (halve s), collapse-halve s)
  | inr single ↦ ground (arith, collapse_of_single s single)
]
