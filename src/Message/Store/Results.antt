-- ===== src/Message/Store/Results.antt =====
-- lib/msgstore.go: how the selection goes round the results of a search.
use aerc.Prelude.{
  ℕ, zero, suc, ◌+◌, ◌-◌, ◌<◌, ◌≤◌, ◌≡◌, refl, ap, ◌∙◌, Bool, true, false, inl, inr, none, some,
  List, String, ◌==◌, if◌then◌else◌, length, get_elem?, done, arith, Bool-cases,
}
use aerc.Prelude.Int.{ℤ, pos, sub_ℕ, ◌+ℤ◌, ◌-ℤ◌, ltb_ℤ, Int-cases, sub_ℕ-suc_one}
use aerc.Message.Iterator.{new_iterator, start_index, end_index, move_index, wrap_bounds}
use aerc.Message.Iterator.Bounds.{wrap_bounds_lem}
use aerc.Message.Store.{Store, result_after, next_prev_result, update, emit, updated, dirs_updated}
use aerc.Message.Store.Select.{select-done, start_index-within, index_ℤ-within, moved}

-- Whatever the index was, that of a list without the results it was one of included.
wrap_bounds-within : (n : ℕ) (z : ℤ) → (k : ℕ) × (wrap_bounds z (pos 0) (pos n) ≡ pos k) × (k ≤ n)
unfolding wrap_bounds
wrap_bounds-within zero z = (0, ground arith, omega arith)
wrap_bounds-within (suc u) z =
    let (low, high, _, _, _) = wrap_bounds_lem u z in
    elim (Int-cases (wrap_bounds z (pos 0) (pos (suc u)))) [
      | inl (k, e) ↦ (k, e, ground (arith, e, high))
      | inr (k, e) ↦ absurd (ground (arith, e, low))
    ]

-- The move over the indices of `n + 1` results, as a wrap of an integer.
move_index-wraps :
    (b : Bool) (us : List String) (n : ℕ) (i delta : ℤ)
    → length us ≡ suc n
    → (z : ℤ) × (move_index i delta
          (start_index (new_iterator b us))
          (end_index (new_iterator b us))
          (some wrap_bounds)
        ≡ wrap_bounds z (pos 0) (pos n))
unfolding move_index start_index end_index new_iterator
move_index-wraps true us n i delta h = (i +ℤ delta, ground arith)
move_index-wraps false us zero i delta h = (i +ℤ delta, ground arith)
move_index-wraps false us (suc n) i delta h = (i -ℤ delta, ground arith)

result_after-within :
    (delta : ℤ) (s : Store) (n : ℕ)
    → length s.results ≡ suc n
    → (k : ℕ) × (result_after delta s ≡ pos k) × (k < length s.results)
result_after-within delta s n h = elim (Bool-cases (ltb_ℤ s.result_index (pos 0))) [
  | inl unset ↦
      let (k, e, l) = start_index-within s.reverse s.results n h in (k, ground (arith, unset, e), l)
  | inr set ↦
      let (z, e) = move_index-wraps s.reverse s.results n s.result_index delta h in
      let (k, f, l) = wrap_bounds-within n z in (k, ground (arith, set, e, f), omega arith)
]

-- The index of the next of `n + 1` results, in the direction of the list.
abbrev pub following : Bool → ℕ → ℕ → ℕ
following true n i = if i == n then 0 else i + 1
following false n i = if i == 0 then n else i - 1

wrap_up :
    (u i : ℕ)
    → i ≤ suc u
    → wrap_bounds (pos (i + 1)) (pos 0) (pos (suc u)) ≡ pos (following true (suc u) i)
wrap_up u i h = elim (Bool-cases (i == suc u)) [
  | inl last ↦
      let e : i + 1 ≡ suc (suc u) = ground arith in
      ap (λ x. wrap_bounds (pos x) (pos 0) (pos (suc u))) e
      ∙ (wrap_bounds_lem u (pos 0)).3
      ∙ ground arith
  | inr inner ↦ (wrap_bounds_lem u (pos (i + 1))).2 (omega arith) (ground arith) ∙ ground arith
]

wrap_down :
    (u i : ℕ)
    → i ≤ suc u
    → wrap_bounds (sub_ℕ i 1) (pos 0) (pos (suc u)) ≡ pos (following false (suc u) i)
wrap_down u zero h = (wrap_bounds_lem u (pos 0)).4
wrap_down u (suc i) h =
    ap (λ x. wrap_bounds x (pos 0) (pos (suc u))) (sub_ℕ-suc_one i)
    ∙ (wrap_bounds_lem u (pos i)).2 (omega arith) (omega arith)
    ∙ ground arith

wrap_nothing : (z : ℤ) → wrap_bounds z (pos 0) (pos 0) ≡ pos 0
unfolding wrap_bounds
wrap_nothing z = ground arith

move_index-following :
    (b : Bool) (us : List String) (n i : ℕ)
    → length us ≡ suc n
    → i ≤ n
    → move_index
        (pos i)
        (pos 1)
        (start_index (new_iterator b us))
        (end_index (new_iterator b us))
        (some wrap_bounds)
      ≡ pos (following b n i)
unfolding move_index start_index end_index new_iterator ◌+ℤ◌ ◌-ℤ◌
move_index-following true us zero i h l = ground (arith, wrap_nothing (pos (i + 1)))
move_index-following true us (suc n) i h l = ground (arith, wrap_up n i l)
move_index-following false us zero i h l = ground (arith, wrap_nothing (pos (i + 1)))
move_index-following false us (suc n) i h l = ground (arith, wrap_down n i l)

result_after-following :
    (s : Store) (n i : ℕ)
    → length s.results ≡ suc n
    → s.result_index ≡ pos i
    → i ≤ n
    → result_after (pos 1) s ≡ pos (following s.reverse n i)
result_after-following s n i h e l =
    ground (arith, e, move_index-following s.reverse s.results n i h l)

-- Where there are results, `NextResult` and `PrevResult` never panic and select one of them, and the
-- index is that of the selected one, even if it was beyond the results before; `NextResult` from
-- the index `i` of the last index `n` goes to the next one and from the last one round to the first.
pub next_prev_result_lem :
    (delta : ℤ) (s : Store) (n : ℕ)
    → length s.results ≡ suc n
    → (s' : Store) × (k : ℕ) × (next_prev_result delta s ≡ done s')
      × (s'.results ≡ s.results)
      × (s'.result_index ≡ pos k)
      × (get_elem? s.results k ≡ some s'.selected_uid)
      × ((i : ℕ) → delta ≡ pos 1 → s.result_index ≡ pos i → i ≤ n → k ≡ following s.reverse n i)
unfolding next_prev_result update
next_prev_result_lem delta s n h =
    let (k, e, l) = result_after-within delta s n h in
    let (u, eu, at) = index_ℤ-within s.results (result_after delta s) k e l in
    let (m, ev, es) = select-done u (record s { result_index = result_after delta s }) in
    let s0 =
      moved (record s { result_index = result_after delta s }) u none m ev (result_after delta s) in
    (
      emit dirs_updated (emit updated s0),
      k,
      ground (arith, h, eu, es),
      refl,
      e,
      at,
      λ i one set low. ground (arith, one, e, result_after-following s n i h set low),
    )
