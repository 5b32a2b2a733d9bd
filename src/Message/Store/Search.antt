-- ===== src/Message/Store/Search.antt =====
-- lib/msgstore.go and lib/sort/sort.go: the results that a search gives.
use aerc.Prelude.{
  All-weaken, ℕ, suc, ◌+◌, ◌≤◌, ◌≡◌, refl, ap, ◌∙◌, true, false, ◌&&◌, ◌||◌, ◌⊎◌, inl, inr, some,
  List, [], ◌∷◌, String, string_eq, eqb, contains, ltb, get_elem?, arith, All, Bool-cases, if_cases,
}
use aerc.Prelude.Map
use aerc.Message.Threads.{index_map}
use aerc.Message.Store.{Store, get_uids}
use aerc.Message.Store.Requests.{
  search_results, put_in_order, sort_uids, place, sort_by, allowed, search_reply,
}

-- The last index of a UID of the list.
get-index_map :
    (us : List String) (i : ℕ) (m : List (String × ℕ)) (v : String)
    → ((contains us v ≡ false) × (Map.get v (index_map us i m) ≡ Map.get v m))
      ⊎ ((j : ℕ) × (get_elem? us j ≡ some v) × (Map.get v (index_map us i m) ≡ some (i + j)))
unfolding index_map
get-index_map [] i m v = inl (refl, refl)
get-index_map (u ∷ us) i m v = elim (get-index_map us (i + 1) (Map.put u i m) v) [
  | inr (j, at, e) ↦ let f : i + 1 + j ≡ i + suc j = omega arith in inr (suc j, at, e ∙ ap some f)
  | inl (out, e) ↦ elim (Bool-cases (eqb u v)) [
    | inl same ↦
        let f : i ≡ i + 0 = omega arith in
        inr (
          0,
          ap some ((string_eq.beq_iff u v).0 same),
          e ∙ ground (arith, Map.get-put u v i m, same, f),
        )
    | inr other ↦ inl (ground arith, e ∙ ground (arith, Map.get-put u v i m, other))
  ]
]

pub place_lem :
    (us : List String) (v : String)
    → contains us v ≡ true
    → get_elem? us (place (index_map us 0 []) v) ≡ some v
place_lem us v there = elim (get-index_map us 0 [] v) [
  | inl (out, _) ↦ absurd (ground arith)
  | inr (j, at, e) ↦ let f : 0 + j ≡ j = omega arith in ground (arith, at, e, f)
]

module _ (key : String → ℕ) where
  abbrev pub IsInOrder : List String → Type 0
  IsInOrder [] = Unit
  IsInOrder (u ∷ us) = All (λ x. key u ≤ key x) us × IsInOrder us

  All-put_in_order :
      (n : ℕ) (u : String) (us : List String)
      → n ≤ key u
      → All (λ x. n ≤ key x) us
      → All (λ x. n ≤ key x) (put_in_order key u us)
  All-put_in_order n u [] h a = (h, tt)
  All-put_in_order n u (x ∷ us) h a =
      if_cases (All (λ y. n ≤ key y)) (ltb (key x) (key u)) _ _
        (λ _. (a.0, All-put_in_order n u us h a.1)) (λ _. (h, a))

  put_in_order-IsInOrder :
      (u : String) (us : List String) → IsInOrder us → IsInOrder (put_in_order key u us)
  put_in_order-IsInOrder u [] s = (tt, tt)
  put_in_order-IsInOrder u (x ∷ us) s =
      if_cases IsInOrder (ltb (key x) (key u)) _ _
        (λ less.
          (All-put_in_order (key x) u us (ground arith) s.0, put_in_order-IsInOrder u us s.1))
        (λ more. (
          (
            ground arith,
            All-weaken (λ y. key x ≤ key y) (λ y. key u ≤ key y) us (λ y k. ground arith) s.0,
          ),
          s,
        ))

  sort_uids-IsInOrder : (us : List String) → IsInOrder (sort_uids key us)
  sort_uids-IsInOrder [] = tt
  sort_uids-IsInOrder (u ∷ us) =
      put_in_order-IsInOrder u (sort_uids key us) (sort_uids-IsInOrder us)

  contains-put_in_order :
      (u : String) (us : List String) (v : String)
      → contains (put_in_order key u us) v ≡ (eqb u v || contains us v)
  contains-put_in_order u [] v = refl
  contains-put_in_order u (x ∷ us) v = ground (arith, contains-put_in_order u us v)

  contains-sort_uids :
      (us : List String) (v : String) → contains (sort_uids key us) v ≡ contains us v
  contains-sort_uids [] v = refl
  contains-sort_uids (u ∷ us) v =
      contains-put_in_order u (sort_uids key us) v ∙ ground (arith, contains-sort_uids us v)

contains-allowed :
    (all us : List String) (v : String)
    → contains (allowed all us) v ≡ (contains us v && contains all v)
contains-allowed all [] v = refl
contains-allowed all (u ∷ us) v = ground (arith, contains-allowed all us v, string_eq.beq_iff u v)

-- What `Search` hands to its callback are exactly the found messages that are shown, in the order of the
-- list: by a place that each of them has in it.
pub search_reply_lem :
    (us : List String) (s : Store)
    → (rs : List String) × (search_reply (search_results us) s ≡ some rs)
      × ((v : String) → contains rs v ≡ (contains us v && contains (get_uids s) v))
      × IsInOrder (place (index_map (get_uids s) 0 [])) rs
      × ((v : String)
          → contains rs v ≡ true
          → get_elem? (get_uids s) (place (index_map (get_uids s) 0 []) v) ≡ some v)
unfolding search_reply sort_by
search_reply_lem us s =
    let all = get_uids s in
    let key = place (index_map all 0 []) in
    let found = allowed all us in
    (
      sort_uids key found,
      refl,
      λ v. contains-sort_uids key found v ∙ contains-allowed all us v,
      sort_uids-IsInOrder key found,
      λ v there.
          place_lem all v
            (ground (arith, there, contains-sort_uids key found v, contains-allowed all us v)),
    )
