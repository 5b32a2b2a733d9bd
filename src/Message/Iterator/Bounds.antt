-- ===== src/Message/Iterator/Bounds.antt =====
-- lib/iterator/index.go: where an index goes that a move takes out of its bounds.
use native.Mathlib.Nat.{mod-lt, mod-eq_of_lt, add-mod_right}
use aerc.Prelude.{
  ℕ, suc, ◌+◌, ◌-◌, ◌%◌, ◌≤◌, ◌<◌, ◌≡◌, ◌≢◌, ap, sym, subst, Bool-cases, inl, inr, ◌∙◌, true, false,
  none, arith, ltb, if◌then◌else◌, length,
}
use aerc.Prelude.Int.{ℤ, pos, negsuc, sub_ℕ, ◌+ℤ◌, ◌-ℤ◌, ◌≤ℤ◌, ltb_ℤ, rem_ℤ}
use aerc.Message.Iterator.{Iterator, fix_bounds, wrap_bounds, move_index, start_index, end_index}

-- Over the bounds of an iterator with `n + 1` entries, `MoveIndex` forward by `delta` and without a
-- policy adds `delta` to the index if the iterator is reversed, but stops at `n`; if it is not, and the
-- index is at most `n`, it takes `delta` off the index, but stops at 0.
pub move_index-fixed :
    {A : Type 0} (it : Iterator A) (n idx delta : ℕ)
    → length it.entries ≡ suc n
    → (it.reversed ≡ true
        → move_index (pos idx) (pos delta) (start_index it) (end_index it) none
          ≡ (if ltb n (idx + delta) then pos n else pos (idx + delta)))
      × (it.reversed ≡ false
          → idx ≤ n
          → move_index (pos idx) (pos delta) (start_index it) (end_index it) none
            ≡ pos (idx - delta))
unfolding move_index fix_bounds start_index end_index ◌+ℤ◌ ◌-ℤ◌
move_index-fixed it n idx delta h = (λ r. ground arith, λ r k. ground arith)

wrap_above : (u d : ℕ) → wrap_bounds (pos (suc (suc u) + d)) (pos 0) (pos (suc u)) ≡ pos (d % suc u)
unfolding wrap_bounds ◌+ℤ◌ ◌-ℤ◌
wrap_above u d =
    let e : pos (suc (suc u) + d) -ℤ pos (suc u) -ℤ pos 1 ≡ pos d = ground arith in
    let t : ltb_ℤ (pos (suc u)) (pos (suc (suc u) + d)) ≡ true = ground arith in
    let p : ltb_ℤ (pos 0) (pos (suc u)) ≡ true = ground arith in
    let z : pos 0 +ℤ pos (d % suc u) ≡ pos (d % suc u) = ground arith in
    ground (arith, p, t, z, ap (λ (x : ℤ). pos 0 +ℤ rem_ℤ x (pos (suc u))) e)

wrap_below : (u d : ℕ) → wrap_bounds (negsuc d) (pos 0) (pos (suc u)) ≡ sub_ℕ (suc u) (d % suc u)
unfolding wrap_bounds ◌+ℤ◌ ◌-ℤ◌
wrap_below u d =
    let e : pos 0 -ℤ negsuc d -ℤ pos 1 ≡ pos d = ground arith in
    let t : ltb_ℤ (pos (suc u)) (negsuc d) ≡ false = ground arith in
    let n : ltb_ℤ (negsuc d) (pos 0) ≡ true = ground arith in
    let p : ltb_ℤ (pos 0) (pos (suc u)) ≡ true = ground arith in
    let z : pos (suc u) -ℤ pos (d % suc u) ≡ sub_ℕ (suc u) (d % suc u) = ground arith in
    ground (arith, p, t, n, z, ap (λ (x : ℤ). pos (suc u) -ℤ rem_ℤ x (pos (suc u))) e)

wrap_inside : (u i : ℕ) → i ≤ suc u → wrap_bounds (pos i) (pos 0) (pos (suc u)) ≡ pos i
unfolding wrap_bounds
wrap_inside u i h = ground arith

-- Within the bounds.
abbrev pub IsWithin : ℕ → ℤ → Type 0
IsWithin u x = (pos 0 ≤ℤ x) × (x ≤ℤ pos (suc u))

wrap_bounds-IsWithin : (u : ℕ) (i : ℤ) → IsWithin u (wrap_bounds i (pos 0) (pos (suc u)))
wrap_bounds-IsWithin u (negsuc d) =
    let small : d % suc u < suc u = mod-lt d (omega arith) in
    subst (IsWithin u) (sym (wrap_below u d)) (ground arith)
wrap_bounds-IsWithin u (pos a) = elim (Bool-cases (ltb (suc u) a)) [
  | inl above ↦
      let d = a - suc (suc u) in
      let small : d % suc u < suc u = mod-lt d (omega arith) in
      let split : suc (suc u) + d ≡ a = ground arith in
      subst (λ x. IsWithin u (wrap_bounds (pos x) (pos 0) (pos (suc u)))) split
        (subst (IsWithin u) (sym (wrap_above u d)) (omega arith, omega arith))
  | inr inside ↦
      let low : a ≤ suc u = ground arith in
      subst (IsWithin u) (sym (wrap_inside u a low)) (omega arith, omega arith)
]

mod_zero : (u : ℕ) → 0 % suc u ≡ 0
mod_zero u = omega arith

-- `WrapBounds` between 0 and a positive bound: an index within the bounds stays, one step over an end
-- leads to the other end, and whatever the index, the result is within the bounds.
pub wrap_bounds_lem :
    (u : ℕ) (i : ℤ)
    → (pos 0 ≤ℤ wrap_bounds i (pos 0) (pos (suc u)))
      × (wrap_bounds i (pos 0) (pos (suc u)) ≤ℤ pos (suc u))
      × (pos 0 ≤ℤ i → i ≤ℤ pos (suc u) → wrap_bounds i (pos 0) (pos (suc u)) ≡ i)
      × (wrap_bounds (pos (suc (suc u))) (pos 0) (pos (suc u)) ≡ pos 0)
      × (wrap_bounds (negsuc 0) (pos 0) (pos (suc u)) ≡ pos (suc u))
wrap_bounds_lem u i =
    let (low, high) = wrap_bounds-IsWithin u i in
    (
      low,
      high,
      stays i,
      ap (λ x. wrap_bounds (pos x) (pos 0) (pos (suc u))) (omega arith)
          ∙ wrap_above u 0
          ∙ ap pos (mod_zero u),
      wrap_below u 0 ∙ ap (sub_ℕ (suc u)) (mod_zero u) ∙ ground arith,
    )
  where
    stays : (i : ℤ) → pos 0 ≤ℤ i → i ≤ℤ pos (suc u) → wrap_bounds i (pos 0) (pos (suc u)) ≡ i
    stays (pos a) l h = wrap_inside u a (omega arith)
    stays (negsuc d) l h = absurd (omega arith)

rem_less : (u d : ℕ) → d ≤ u → d % suc u ≡ d
rem_less u d h = mod-eq_of_lt (omega arith)

rem_next : (u d : ℕ) → (d + suc u) % suc u ≡ d % suc u
rem_next u d = add-mod_right d (suc u)

-- `WrapBounds` between 0 and a positive bound `u + 1` turns with the period `u + 1`, one less than the
-- number of indices between the bounds. Above, the first index leads to 0 and each of the next `u` one
-- further, and then it begins anew with 0, so that no index above leads to the upper bound; below it is
-- the same the other way round, from the upper bound down, and none leads to 0.
pub wrap_bounds_period :
    (u d : ℕ)
    → (d ≤ u → wrap_bounds (pos (suc (suc u) + d)) (pos 0) (pos (suc u)) ≡ pos d)
      × (wrap_bounds (pos (suc (suc u) + (d + suc u))) (pos 0) (pos (suc u))
          ≡ wrap_bounds (pos (suc (suc u) + d)) (pos 0) (pos (suc u)))
      × (wrap_bounds (pos (suc (suc u) + d)) (pos 0) (pos (suc u)) ≢ pos (suc u))
      × (d ≤ u → wrap_bounds (negsuc d) (pos 0) (pos (suc u)) ≡ pos (suc u - d))
      × (wrap_bounds (negsuc (d + suc u)) (pos 0) (pos (suc u))
          ≡ wrap_bounds (negsuc d) (pos 0) (pos (suc u)))
      × (wrap_bounds (negsuc d) (pos 0) (pos (suc u)) ≢ pos 0)
wrap_bounds_period u d =
    let small : d % suc u < suc u = mod-lt d (omega arith) in
    (
      λ h. wrap_above u d ∙ ap pos (rem_less u d h),
      wrap_above u (d + suc u) ∙ ap pos (rem_next u d) ∙ sym (wrap_above u d),
      λ h. let e : pos (d % suc u) ≡ pos (suc u) = sym (wrap_above u d) ∙ h in ground arith,
      λ h. wrap_below u d ∙ ap (sub_ℕ (suc u)) (rem_less u d h) ∙ ground arith,
      wrap_below u (d + suc u) ∙ ap (sub_ℕ (suc u)) (rem_next u d) ∙ sym (wrap_below u d),
      λ h. let e : sub_ℕ (suc u) (d % suc u) ≡ pos 0 = sym (wrap_below u d) ∙ h in ground arith,
    )
