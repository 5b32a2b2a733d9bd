-- ===== src/Message/Builder/Tree.antt =====
-- The tree that lib/threadbuilder.go makes of the threading: no message is lost or doubled.
use aerc.Prelude.{
  ℕ, ◌+◌, ◌≡◌, refl, ◌∙◌, Bool, true, false, none, some, List, [], ◌∷◌, ◌++◌, map, String,
  string_eq, eqb, if◌then◌else◌, if_cases, arith,
}
use aerc.Prelude.Map
use aerc.Message.Threads.{Thread, Threads, thread, nil, cons, insert_cmp}
use aerc.Message.Builder.{
  Structure, Structures, item, nil_s, cons_s, build_node, build_tree, new_thread,
  build_aerc_threads, unfetched, alone, to_list, ThreadBuilder, Threadable, bigger_uid,
  bigger_subject,
}

-- How often a UID stands in a list, a threading or a forest.
abbrev pub one_if : String → String → ℕ
one_if u v = if eqb v u then 1 else 0

abbrev pub count : String → List String → ℕ
count u [] = 0
count u (x ∷ xs) = one_if u x + count u xs

abbrev mutual
  pub count_structure : String → Structure → ℕ
  count_structure u (item v d cs) = one_if u v + count_structures u cs

  pub count_structures : String → Structures → ℕ
  count_structures u nil_s = 0
  count_structures u (cons_s s ss) = count_structure u s + count_structures u ss

abbrev mutual
  pub count_thread : String → Thread → ℕ
  count_thread u (thread n cs) = one_if u n.uid + count_threads u cs

  pub count_threads : String → Threads → ℕ
  count_threads u nil = 0
  count_threads u (cons t ts) = count_thread u t + count_threads u ts

abbrev pub count_all : String → List Thread → ℕ
count_all u [] = 0
count_all u (t ∷ ts) = count_thread u t + count_all u ts

count-insert_cmp :
    (u : String) (bigger : Thread → Thread → Bool) (t : Thread) (ts : Threads)
    → count_threads u (insert_cmp bigger t ts) ≡ count_thread u t + count_threads u ts
unfolding insert_cmp
count-insert_cmp u bigger t nil = refl
count-insert_cmp u bigger t (cons x xs) =
    if_cases (λ c. count_threads u c ≡ count_thread u t + (count_thread u x + count_threads u xs))
      (bigger t x) _ _ (λ _. omega (arith, count-insert_cmp u bigger t xs)) (λ _. refl)

count-put :
    (u : String) (bigger : Thread → Thread → Bool) (b : Bool) (t : Thread) (ts : Threads)
    → count_threads u (if b then cons t ts else insert_cmp bigger t ts)
      ≡ count_thread u t + count_threads u ts
count-put u bigger true t ts = refl
count-put u bigger false t ts = count-insert_cmp u bigger t ts

module _ (u : String) (bigger : Thread → Thread → Bool) where
  mutual
    unfolding build_tree new_thread

    count-build_node : (s : Structure) → count_thread u (build_node bigger s) ≡ count_structure u s
    count-build_node (item v d cs) = omega (arith, count-build_tree cs nil d)

    count-build_tree :
        (ss : Structures) (children : Threads) (root : Bool)
        → count_threads u (build_tree bigger ss children root)
          ≡ count_structures u ss + count_threads u children
    count-build_tree nil_s children root = omega arith
    count-build_tree (cons_s s ss) children root =
        count-build_tree ss
          (if root
            then cons (build_node bigger s) children
            else insert_cmp bigger (build_node bigger s) children)
          root
        ∙ omega (arith, count-put u bigger root (build_node bigger s) children, count-build_node s)

count-append :
    (u : String) (xs ys : List Thread) → count_all u (xs ++ ys) ≡ count_all u xs + count_all u ys
count-append u [] ys = omega arith
count-append u (x ∷ xs) ys = omega (arith, count-append u xs ys)

count-alone : (u : String) (us : List String) → count_all u (map alone us) ≡ count u us
count-alone u [] = refl
count-alone u (v ∷ us) = omega (arith, count-alone u us)

count-to_list : (u : String) (ts : Threads) → count_all u (to_list ts) ≡ count_threads u ts
count-to_list u nil = refl
count-to_list u (cons t ts) = omega (arith, count-to_list u ts)

abbrev pub fetched : List (String × Threadable) → List String → List String
fetched blocks [] = []
fetched blocks (u ∷ us) = if Map.has u blocks then u ∷ fetched blocks us else fetched blocks us

count-split :
    (u : String) (blocks : List (String × Threadable)) (us : List String)
    → count u (unfetched blocks us) + count u (fetched blocks us) ≡ count u us
count-split u blocks [] = refl
count-split u blocks (v ∷ us) = ground (arith, count-split u blocks us)

-- If the threading has a UID as often as the fetched messages have it, so have the threads that are
-- built, with those for the messages that were not fetched, as often as the list of UIDs; and so they
-- have where there is no threading.
pub count-build_aerc_threads :
    (u : String) (structure : Structures) (uids : List String) (sort : Bool) (b : ThreadBuilder)
    → count_structures u structure ≡ count u (fetched b.thread_blocks uids)
    → (count_all u (build_aerc_threads (some structure) uids sort b) ≡ count u uids)
      × (count_all u (build_aerc_threads none uids sort b) ≡ count u uids)
unfolding build_aerc_threads
count-build_aerc_threads u structure uids sort b h =
    let bigger = if sort then bigger_uid uids else bigger_subject b.thread_blocks in
    let tree = build_tree bigger structure nil true in
    (
      omega (
        arith,
        count-append u (map alone (unfetched b.thread_blocks uids)) (to_list tree),
        count-alone u (unfetched b.thread_blocks uids),
        count-to_list u tree,
        count-build_tree u bigger structure nil true,
        count-split u b.thread_blocks uids,
      ),
      count-alone u uids,
    )
