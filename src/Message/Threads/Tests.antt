-- ===== src/Message/Threads/Tests.antt =====
-- worker/types/thread.go on a small tree, and the theorems at it.
use mathlib.Core.List.{Perm}
use aerc.Prelude.{ℕ, ◌≡◌, refl, Bool, true, false, List, [], ◌∷◌, ◌++◌, String, All, eqb, string_eq}
use aerc.Message.Threads.{
  Node, Thread, thread, nil, cons, walk, new_walk, uids, insert_cmp, sort_threads_by,
}
use aerc.Message.Threads.Walk.{skip_at}
use aerc.Message.Threads.Insert.{to_list, Stops, insert_cmp_lem}
use aerc.Message.Threads.Order.{IsInOrder, sort_threads_by_lem}

abbrev seen : String → Node
seen u = record { uid = u; hidden = 0; deleted = false; dummy = false }

abbrev leaf : String → Thread
leaf u = thread (seen u) nil

-- `a` with the children `b`, which has `c`, and `d`.
abbrev tree : Thread
tree = thread (seen "a") (cons (thread (seen "b") (cons (leaf "c") nil)) (cons (leaf "d") nil))

all_uids : uids tree ≡ "a" ∷ "b" ∷ "c" ∷ "d" ∷ []
unfolding uids walk new_walk
all_uids = refl

abbrev at_b : Node → Bool
at_b n = eqb n.uid "b"

abbrev note : Node × ℕ → List String → List String
note (n, _) us = us ++ n.uid ∷ []

-- `c` is left out.
skipped : (walk (skip_at at_b note) tree []).1 ≡ "a" ∷ "b" ∷ "d" ∷ []
unfolding walk new_walk
skipped = refl

sort_threads_by_lem_example :
    Perm (sort_threads_by (leaf "x" ∷ tree ∷ []) ("c" ∷ "x" ∷ [])) (leaf "x" ∷ tree ∷ [])
    × IsInOrder ("c" ∷ "x" ∷ []) (sort_threads_by (leaf "x" ∷ tree ∷ []) ("c" ∷ "x" ∷ []))
sort_threads_by_lem_example = sort_threads_by_lem (leaf "x" ∷ tree ∷ []) ("c" ∷ "x" ∷ [])

abbrev by_b : Thread → Thread → Bool
by_b l (thread n cs) = eqb n.uid "b"

insert_cmp_lem_example :
    (xs ys : List Thread) × (to_list (cons (leaf "b") (cons (leaf "d") nil)) ≡ xs ++ ys)
    × (to_list (insert_cmp by_b (leaf "c") (cons (leaf "b") (cons (leaf "d") nil)))
        ≡ xs ++ leaf "c" ∷ ys)
    × All (λ x. by_b (leaf "c") x ≡ true) xs
    × Stops by_b (leaf "c") ys
insert_cmp_lem_example = insert_cmp_lem by_b (leaf "c") (cons (leaf "b") (cons (leaf "d") nil))
