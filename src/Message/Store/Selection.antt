-- ===== src/Message/Store/Selection.antt =====
-- lib/msgstore.go: the selection always is of a message that is shown, and no move of it panics.
use aerc.Prelude.{
  ℕ, zero, suc, ◌-◌, ◌≤◌, ◌≡◌, refl, ap, sym, ◌∙◌, true, false, ◌&&◌, ◌⊎◌, inl, inr, Option, none,
  some, List, [], ◌∷◌, String, string_eq, eqb, contains, ◌==◌, length, get_elem?, done, ◌>>=◌,
  arith, Bool-cases, Option-cases,
}
use aerc.Prelude.Int.{ℤ, pos}
use aerc.Marker.{Controller, find_uid}
use aerc.Marker.Visual.{find_uid-within}
use aerc.Message.Iterator.{new_iterator, start_index, end_index, move_index, fix_bounds}
use aerc.Message.Store.{
  Store, Event, get_uids, find_index_by_uid, update_marker, select, get_selected_uid,
  update_results, set_callback, move_from, next_prev,
}
use aerc.Message.Store.Select.{
  moved, update_marker-done, select-done, target, start_index-within, move_index-target,
  target-within, index_ℤ-within, contains_of_get_elem?, get_selected_uid-done, update_results-done,
}

contains_of_find_uid :
    (u : String) (us : List String) (i : ℕ) → find_uid u us ≡ some i → contains us u ≡ true
contains_of_find_uid u [] i h = absurd (ground arith)
contains_of_find_uid u (x ∷ xs) zero h = ground (arith, contains_of_find_uid u xs 0)
contains_of_find_uid u (x ∷ xs) (suc i) h = ground (arith, contains_of_find_uid u xs i)

set_callback-moved :
    (i : ℤ) (s : Store) → (tc : Option ℤ) × (set_callback i s ≡ record s { thread_callback = tc })
set_callback-moved i s = elim (Bool-cases (s.build_threads && s.threaded_view)) [
  | inl b ↦ (some i, ground arith)
  | inr b ↦ (s.thread_callback, ground arith)
]

-- A move within a list that stays.
move_from-done :
    (delta : ℤ) (n i : ℕ) (s : Store)
    → length (get_uids s) ≡ suc n
    → i ≤ n
    → (u v : String) × (tc : Option ℤ) × (m : Option Controller) × (e : List Event) × (r : ℤ)
      × (move_from (get_uids s) delta (pos i) s ≡ done (moved s v tc m e r))
      × (get_elem? (get_uids s) (target s.reverse n i delta) ≡ some u)
      × ((contains (get_uids s) v ≡ true) ⊎ (v ≡ u))
      × (eqb u "" ≡ false → v ≡ u)
unfolding move_from
move_from-done delta n i s h k =
    let j = target s.reverse n i delta in
    let (u, eu, at) =
      index_ℤ-within (get_uids s) _ j (move_index-target s.reverse (get_uids s) n i delta h k)
        (omega (arith, target-within s.reverse n i delta k)) in
    let (m1, e1, f1) = select-done u s in
    let s1 = moved s u none m1 e1 s.result_index in
    let z =
      move_index (pos i) delta (start_index (new_iterator s.reverse (get_uids s)))
        (end_index (new_iterator s.reverse (get_uids s))) (some fix_bounds) in
    let (tc2, f2) = set_callback-moved z s1 in
    let s2 = record s1 { thread_callback = tc2 } in
    let (m3, f3) = update_marker-done s2 in
    let s3 = record s2 { marker = m3 } in
    let (v, tc, m, e, r, f4, c) = update_results-done s3 in
    (
      u,
      v,
      tc,
      m,
      e,
      r,
      ap
            (λ o. o >>= (λ u'.
              select u' s
              >>= (λ s1'. update_marker (set_callback z s1') >>= (λ s2'. update_results s2'))))
            eu
          ∙ ap
              (λ o.
                o >>= (λ s1'. update_marker (set_callback z s1') >>= (λ s2'. update_results s2')))
              f1
          ∙ ap (λ t. update_marker t >>= (λ s2'. update_results s2')) f2
          ∙ ap (λ o. o >>= (λ s2'. update_results s2')) f3
          ∙ f4,
      at,
      c.0,
      c.1,
    )

-- `NextPrev` where the selected UID is at the index `i` of the list.
next_prev-found :
    (delta : ℤ) (s : Store) (n i : ℕ) (u0 : String) (tc0 : Option ℤ) (m0 : Option Controller)
    (e0 : List Event)
    → length (get_uids s) ≡ suc n
    → get_selected_uid s ≡ done (u0, moved s u0 tc0 m0 e0 s.result_index)
    → find_uid u0 (get_uids s) ≡ some i
    → (u v : String) × (tc : Option ℤ) × (m : Option Controller) × (e : List Event) × (r : ℤ)
      × (next_prev delta s ≡ done (moved s v tc m e r))
      × (get_elem? (get_uids s) (target s.reverse n i delta) ≡ some u)
      × ((contains (get_uids s) v ≡ true) ⊎ (v ≡ u))
      × (eqb u "" ≡ false → v ≡ u)
unfolding next_prev find_index_by_uid get_uids
next_prev-found delta s n i u0 tc0 m0 e0 h f found =
    let low : i ≤ n = omega (arith, find_uid-within u0 (get_uids s) i found) in
    let (u, v, tc, m, e, r, g, at, c, kept) =
      move_from-done delta n i (moved s u0 tc0 m0 e0 s.result_index) h low in
    (u, v, tc, m, e, r, ground (arith, h, f, found, g), at, c, kept)

-- After `NextPrev`, which never panics, the list of messages is the same, and where it has any the
-- selected one is in it.
pub next_prev-IsShown :
    (delta : ℤ) (s : Store)
    → (s' : Store) × (next_prev delta s ≡ done s')
      × (get_uids s' ≡ get_uids s)
      × ((length (get_uids s) == 0) ≡ false → contains (get_uids s) s'.selected_uid ≡ true)
unfolding next_prev find_index_by_uid get_uids move_from
next_prev-IsShown delta s = elim (Bool-cases (length (get_uids s) == 0)) [
  | inl none_there ↦ (s, ground (arith, none_there), refl, λ h. absurd (ground arith))
  | inr some_there ↦
      let n : length (get_uids s) ≡ suc (length (get_uids s) - 1) = ground arith in
      let (u0, tc0, m0, e0, f0, c0) = get_selected_uid-done s in
      let s0 = moved s u0 tc0 m0 e0 s.result_index in
      elim (Option-cases (find_uid u0 (get_uids s))) [
        | inl absent ↦
            let (k, ek, hk) =
              start_index-within s.reverse (get_uids s) (length (get_uids s) - 1) n in
            let (u, eu, at) = index_ℤ-within (get_uids s) _ k ek hk in
            let (m, e, es) = select-done u s0 in
            (
              moved s0 u none m e s.result_index,
              ground (arith, some_there, f0, absent, eu, es),
              refl,
              λ h. contains_of_get_elem? (get_uids s) k u at,
            )
        | inr (i, found) ↦
            let (u, v, tc, m, e, r, g, at, c, _) =
              next_prev-found delta s (length (get_uids s) - 1) i u0 tc0 m0 e0 n f0 found in
            (
              moved s v tc m e r,
              g,
              refl,
              λ h. elim c [
                | inl there ↦ there
                | inr same ↦
                    ap (contains (get_uids s)) same
                    ∙ contains_of_get_elem? (get_uids s)
                        (target s.reverse (length (get_uids s) - 1) i delta) u at
              ],
            )
      ]
]

-- Where the selected message is the one at the index `i` of the list, which has `n + 1` messages, each
-- with a UID, `NextPrev` selects the one `delta` further towards the end that the order of the list
-- gives it, or the one at that end.
pub next_prev_lem :
    (delta : ℤ) (s : Store) (n i : ℕ)
    → length (get_uids s) ≡ suc n
    → contains (get_uids s) "" ≡ false
    → find_uid s.selected_uid (get_uids s) ≡ some i
    → (s' : Store) × (next_prev delta s ≡ done s')
      × (get_uids s' ≡ get_uids s)
      × (get_elem? (get_uids s) (target s.reverse n i delta) ≡ some s'.selected_uid)
unfolding get_uids
next_prev_lem delta s n i h no_empty found =
    let (u0, tc0, m0, e0, f0, c0) = get_selected_uid-done s in
    let there = contains_of_find_uid s.selected_uid (get_uids s) i found in
    let set = not_empty s.selected_uid there in
    let same = c0.1 set in
    let (u, v, tc, m, e, r, g, at, _, kept) =
      next_prev-found delta s n i u0 tc0 m0 e0 h f0
        (ap (λ x. find_uid x (get_uids s)) same ∙ found) in
    let u_there = contains_of_get_elem? (get_uids s) (target s.reverse n i delta) u at in
    (moved s v tc m e r, g, refl, at ∙ ap some (sym (kept (not_empty u u_there))))
  where
    not_empty : (x : String) → contains (get_uids s) x ≡ true → eqb x "" ≡ false
    not_empty x c = ground (arith, string_eq.beq_iff x "", no_empty)
