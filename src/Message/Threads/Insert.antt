-- ===== src/Message/Threads/Insert.antt =====
-- Where `InsertCmp` of worker/types/thread.go puts a child.
use aerc.Prelude.{
  All-weaken, ℕ, ltb, ◌≤◌, ◌≡◌, refl, ap, Bool, true, false, List, [], ◌∷◌, ◌++◌, arith, All,
  Bool-cases, if_cases, inl, inr,
}
use aerc.Message.Threads.{Thread, Threads, nil, cons, insert_cmp}

abbrev pub to_list : Threads → List Thread
to_list nil = []
to_list (cons t ts) = t ∷ to_list ts

-- The child is not bigger than the first of these.
abbrev pub Stops : (Thread → Thread → Bool) → Thread → List Thread → Type 0
Stops bigger child [] = Unit
Stops bigger child (y ∷ ys) = bigger child y ≡ false

-- `InsertCmp` puts the child behind the children that it is bigger than, up to the first that it is
-- not bigger than, and keeps the order of the others.
pub insert_cmp_lem :
    (bigger : Thread → Thread → Bool) (child : Thread) (ts : Threads)
    → (xs ys : List Thread) × (to_list ts ≡ xs ++ ys)
      × (to_list (insert_cmp bigger child ts) ≡ xs ++ child ∷ ys)
      × All (λ x. bigger child x ≡ true) xs
      × Stops bigger child ys
unfolding insert_cmp
insert_cmp_lem bigger child nil = ([], [], refl, refl, tt, tt)
insert_cmp_lem bigger child (cons t ts) = elim (Bool-cases (bigger child t)) [
  | inl b ↦
      let (xs, ys, e, f, a, o) = insert_cmp_lem bigger child ts in
      (t ∷ xs, ys, ap (λ l. t ∷ l) e, ground (arith, b, f), (b, a), o)
  | inr b ↦ ([], t ∷ to_list ts, refl, ground (arith, b), tt, b)
]

-- With numbers to compare by, ascending children stay ascending.
module _ (key : Thread → ℕ) where
  abbrev pub IsAscending : List Thread → Type 0
  IsAscending [] = Unit
  IsAscending (t ∷ ts) = All (λ x. key t ≤ key x) ts × IsAscending ts

  abbrev pub bigger_key : Thread → Thread → Bool
  bigger_key l r = ltb (key r) (key l)

  insert_cmp-All :
      (n : ℕ) (child : Thread) (ts : Threads)
      → n ≤ key child
      → All (λ x. n ≤ key x) (to_list ts)
      → All (λ x. n ≤ key x) (to_list (insert_cmp bigger_key child ts))
  unfolding insert_cmp
  insert_cmp-All n child nil h a = (h, tt)
  insert_cmp-All n child (cons t ts) h a =
      if_cases (λ c. All (λ x. n ≤ key x) (to_list c)) (bigger_key child t) _ _
        (λ _. (a.0, insert_cmp-All n child ts h a.1)) (λ _. (h, a))

  -- Where `bigger` compares numbers, `InsertCmp` keeps ascending children ascending.
  pub insert_cmp-IsAscending :
      (child : Thread) (ts : Threads)
      → IsAscending (to_list ts)
      → IsAscending (to_list (insert_cmp bigger_key child ts))
  unfolding insert_cmp
  insert_cmp-IsAscending child nil s = (tt, tt)
  insert_cmp-IsAscending child (cons t ts) s =
      if_cases (λ c. IsAscending (to_list c)) (bigger_key child t) _ _
        (λ less.
          (insert_cmp-All (key t) child ts (ground arith) s.0, insert_cmp-IsAscending child ts s.1))
        (λ more. (
          (
            ground arith,
            All-weaken (λ y. key t ≤ key y) (λ y. key child ≤ key y) (to_list ts)
                (λ y k. ground arith) s.0,
          ),
          s,
        ))
