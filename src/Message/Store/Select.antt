-- ===== src/Message/Store/Select.antt =====
-- lib/msgstore.go: the steps that a move of the selection is made of.
use aerc.Prelude.{
  ℕ, zero, suc, ◌+◌, ◌-◌, ◌<◌, ◌≤◌, ◌≡◌, refl, Bool, true, false, ◌&&◌, ◌||◌, ◌⊎◌, inl, inr, Option,
  none, some, List, [], ◌∷◌, ◌++◌, String, string_eq, eqb, contains, ltb, ◌==◌, if◌then◌else◌,
  length, get_elem?, get_elem?-within, done, arith, Bool-cases, Option-cases,
}
use Prim.Native.Nat.{min}
use aerc.Prelude.Int.{ℤ, pos, negsuc, ◌+ℤ◌, ◌-ℤ◌, ltb_ℤ}
use aerc.Marker.{Controller, find_uid}
use aerc.Marker.Visual.{update_visual_mark-done, find_uid-within}
use aerc.Message.Iterator.{new_iterator, start_index, end_index, move_index, fix_bounds}
use aerc.Message.Store.{
  Store, Event, index_ℤ, to_index, get_uids, find_index_by_uid, selected_index, get_selected,
  provider, update_marker, set_selected, select_priv, select, get_selected_uid, update_results,
  selected,
}

-- A store after the selection has moved.
abbrev pub moved : Store → String → Option ℤ → Option Controller → List Event → ℤ → Store
moved s u tc m e r = record s {
  selected_uid = u;
  thread_callback = tc;
  marker = m;
  events = e;
  result_index = r;
}

pub to_index-within :
    (u : String) (us : List String) (k : ℕ) → to_index (find_uid u us) ≡ pos k → k < length us
to_index-within u us k h = elim (Option-cases (find_uid u us)) [
  | inl e ↦ absurd (ground arith)
  | inr (i, e) ↦ find_uid-within u us k (ground arith)
]

pub update_marker-done :
    (s : Store) → (m : Option Controller) × (update_marker s ≡ done (record s { marker = m }))
unfolding update_marker selected_index find_index_by_uid
update_marker-done s = elim (Option-cases s.marker) [
  | inl e ↦ (none, ground (arith, e))
  | inr (c, e) ↦
      let (c', f) =
        update_visual_mark-done (provider s) c
          (λ k h. to_index-within s.selected_uid (get_uids s) k h) in
      (some c', ground (arith, e, f))
]

pub select-done :
    (u : String) (s : Store)
    → (m : Option Controller) × (e : List Event) × (select u s
        ≡ done (moved s u none m e s.result_index))
unfolding select select_priv
select-done u s =
    let (m, f) = update_marker-done (set_selected u s) in
    (
      m,
      s.events ++ selected (get_selected (record (set_selected u s) { marker = m })) ∷ [],
      ground (arith, f),
    )

-- The index that a move by `delta` from `i` leads to, in a list with the last index `n`: forward is down
-- unless the iterator is reversed.
abbrev pub target : Bool → ℕ → ℕ → ℤ → ℕ
target true n i (pos d) = min n (i + d)
target true n i (negsuc d) = i - suc d
target false n i (pos d) = i - d
target false n i (negsuc d) = min n (i + suc d)

pub start_index-within :
    (b : Bool) (us : List String) (n : ℕ)
    → length us ≡ suc n
    → (k : ℕ) × (start_index (new_iterator b us) ≡ pos k) × (k < length us)
unfolding start_index new_iterator
start_index-within true us n h = (0, refl, omega arith)
start_index-within false us n h = (n, ground arith, omega arith)

pub end_index-within :
    (b : Bool) (us : List String) (n : ℕ)
    → length us ≡ suc n
    → (k : ℕ) × (end_index (new_iterator b us) ≡ pos k) × (k < length us)
unfolding end_index new_iterator
end_index-within true us n h = (n, ground arith, omega arith)
end_index-within false us n h = (0, refl, omega arith)

pub move_index-target :
    (b : Bool) (us : List String) (n i : ℕ) (delta : ℤ)
    → length us ≡ suc n
    → i ≤ n
    → move_index
        (pos i)
        delta
        (start_index (new_iterator b us))
        (end_index (new_iterator b us))
        (some fix_bounds)
      ≡ pos (target b n i delta)
unfolding move_index fix_bounds start_index end_index new_iterator ◌+ℤ◌ ◌-ℤ◌
move_index-target true us n i (pos d) h k = ground arith
move_index-target true us n i (negsuc d) h k = ground arith
move_index-target false us n i (pos d) h k = ground arith
move_index-target false us n i (negsuc d) h k = ground arith

pub target-within : (b : Bool) (n i : ℕ) (delta : ℤ) → i ≤ n → target b n i delta ≤ n
target-within true n i (pos d) h = omega arith
target-within true n i (negsuc d) h = omega arith
target-within false n i (pos d) h = omega arith
target-within false n i (negsuc d) h = omega arith

pub index_ℤ-within :
    (us : List String) (z : ℤ) (k : ℕ)
    → z ≡ pos k
    → k < length us
    → (u : String) × (index_ℤ us z ≡ done u) × (get_elem? us k ≡ some u)
index_ℤ-within us z k e h = let (u, f) = get_elem?-within us k h in (u, ground arith, f)

pub contains_of_get_elem? :
    (us : List String) (k : ℕ) (u : String) → get_elem? us k ≡ some u → contains us u ≡ true
contains_of_get_elem? [] k u h = absurd (ground arith)
contains_of_get_elem? (x ∷ xs) zero u h = ground (arith, string_eq.beq_iff x u)
contains_of_get_elem? (x ∷ xs) (suc k) u h = ground (arith, contains_of_get_elem? xs k u)

-- The selected UID is shown, or it is still that of `s`, and it is that one unless it was empty.
abbrev pub IsChosen : Store → String → Type 0
IsChosen s u =
    ((contains (get_uids s) u ≡ true) ⊎ (u ≡ s.selected_uid))
    × (eqb s.selected_uid "" ≡ false → u ≡ s.selected_uid)

pub chosen_index-within :
    (c b : Bool) (us : List String) (n : ℕ)
    → length us ≡ suc n
    → (k : ℕ) × ((if c then end_index (new_iterator b us) else start_index (new_iterator b us))
        ≡ pos k)
      × (k < length us)
chosen_index-within true b us n h = end_index-within b us n h
chosen_index-within false b us n h = start_index-within b us n h

pub get_selected_uid-done :
    (s : Store)
    → (u : String) × (tc : Option ℤ) × (m : Option Controller) × (e : List Event)
      × (get_selected_uid s ≡ done (u, moved s u tc m e s.result_index))
      × IsChosen s u
unfolding get_selected_uid
get_selected_uid-done s = elim (Bool-cases (eqb s.selected_uid "" && ltb 0 (length (get_uids s)))) [
  | inr skip ↦
      (s.selected_uid, s.thread_callback, s.marker, s.events, ground arith, (inr refl, λ h. refl))
  | inl test ↦
      let n : length (get_uids s) ≡ suc (length (get_uids s) - 1) = ground arith in
      let (k, ek, hk) =
        chosen_index-within s.ui.select_last s.reverse (get_uids s) (length (get_uids s) - 1) n in
      let (u, eu, at) = index_ℤ-within (get_uids s) _ k ek hk in
      let (m, e, es) = select-done u s in
      (
        u,
        none,
        m,
        e,
        ground (arith, test, eu, es),
        (inl (contains_of_get_elem? (get_uids s) k u at), λ h. absurd (ground arith)),
      )
]

pub update_results-done :
    (s : Store)
    → (u : String) × (tc : Option ℤ) × (m : Option Controller) × (e : List Event) × (r : ℤ)
      × (update_results s ≡ done (moved s u tc m e r))
      × IsChosen s u
unfolding update_results
update_results-done s = elim (Bool-cases (length s.results == 0 || ltb_ℤ s.result_index (pos 0))) [
  | inl test ↦ (
    s.selected_uid,
    s.thread_callback,
    s.marker,
    s.events,
    s.result_index,
    ground arith,
    (inr refl, λ h. refl),
  )
  | inr skip ↦
      let (u, tc, m, e, f, c) = get_selected_uid-done s in
      elim (Option-cases (find_uid u s.results)) [
        | inl none_found ↦ (u, tc, m, e, s.result_index, ground (arith, skip, f, none_found), c)
        | inr (i, found) ↦ (u, tc, m, e, pos i, ground (arith, skip, f, found), c)
      ]
]
