-- ===== src/Message/Threads.antt =====
-- worker/types/thread.go: the trees of messages. The chain from `FirstChild` by `NextSibling` is the list
-- of the children, and the `Parent` of a thread is the one whose child it is. `Hidden` is not negative.
pub mod Walk
pub mod Insert
pub mod Order
mod Tests
use aerc.Prelude.{
  ℕ, zero, suc, ◌+◌, Bool, true, false, not, ◌&&◌, ◌||◌, Option, none, some, List, [], ◌∷◌, ◌++◌,
  String, string_eq, ltb, ◌==◌, if◌then◌else◌,
}
use aerc.Prelude.Map

pub record Node : Type 0 where
  pub uid : String
  pub hidden : ℕ
  pub deleted : Bool
  pub dummy : Bool

mutual
  pub data Thread : Type 0 where
    thread : Node → Threads → Thread

  pub data Threads : Type 0 where
    nil : Threads
    cons : Thread → Threads → Threads

abbrev pub node_of : Thread → Node
node_of (thread n cs) = n

-- InsertCmp, on the children: `child` comes before the first that it is not bigger than.
unfoldable pub insert_cmp : (Thread → Thread → Bool) → Thread → Threads → Threads
insert_cmp bigger child nil = cons child nil
insert_cmp bigger child (cons x xs) =
    let rest = insert_cmp bigger child xs in
    if bigger child x then cons x rest else cons child (cons x xs)

unfoldable pub add_child : Thread → Thread → Thread
unfolding insert_cmp
add_child child (thread n cs) = thread n (insert_cmp (λ _ _. true) child cs)

-- What a callback of `Walk` returns: nil, ErrSkipThread, or another error.
pub data Result : Type 0 where
  go_on skip failed : Result

-- After the callback of a thread, and after the walk of a child.
abbrev pub below : {S : Type 0} → Result × S → (S → Result × S) → Result × S
below (go_on, s) k = k s
below (skip, s) k = (skip, s)
below (failed, s) k = (failed, s)

abbrev pub beside : {S : Type 0} → Result × S → (S → Result × S) → Result × S
beside (go_on, s) k = k s
beside (skip, s) k = k s
beside (failed, s) k = (failed, s)

module _ {S : Type 0} (visit : Node → ℕ → S → Result × S) where
  unfoldable mutual
    -- newWalk. The error that is passed on to a child is nil.
    pub new_walk : Thread → ℕ → S → Result × S
    new_walk (thread n cs) lvl s = below (visit n lvl s) (λ s'. walk_children cs (suc lvl) s')

    -- Its loop over the children.
    pub walk_children : Threads → ℕ → S → Result × S
    walk_children nil lvl s = (go_on, s)
    walk_children (cons t ts) lvl s = beside (new_walk t lvl s) (λ s'. walk_children ts lvl s')

  unfoldable pub walk : Thread → S → Result × S
  walk t s =
      let (r, s') = new_walk t 0 s in
      (elim r [ go_on ↦ go_on | skip ↦ go_on | failed ↦ failed ], s')

unfoldable pub uids : Thread → List String
unfolding walk
uids t = (walk (λ n _ us. (go_on, us ++ n.uid ∷ [])) t []).1

abbrev pub is_gone : Node → Bool
is_gone n = n.deleted || ltb 0 n.hidden

abbrev pub value_in : List (String × ℕ) → Node → ℕ
value_in uid_map n = elim (Map.get n.uid uid_map) [ none ↦ 0 | some v ↦ v ]

unfoldable pub get_max_value : Thread → List (String × ℕ) → ℕ
unfolding walk
get_max_value t uid_map =
    (walk
      (λ n _ largest. (
        go_on,
        if is_gone n
            then largest
            else if ltb largest (value_in uid_map n)
            then value_in uid_map n
            else largest,
      ))
      t 0).1

-- for i, uid := range sortBy { uidMap[uid] = i }
unfoldable pub index_map : List String → ℕ → List (String × ℕ) → List (String × ℕ)
index_map [] i m = m
index_map (u ∷ us) i m = index_map us (i + 1) (Map.put u i m)

-- slices.SortFunc, by a number. The order of threads with one number is not specified by the code.
abbrev pub insert_by : (Thread → ℕ) → Thread → List Thread → List Thread
insert_by key t [] = t ∷ []
insert_by key t (x ∷ xs) =
    let rest = insert_by key t xs in if ltb (key x) (key t) then x ∷ rest else t ∷ x ∷ xs

unfoldable pub sort_by_key : (Thread → ℕ) → List Thread → List Thread
sort_by_key key [] = []
sort_by_key key (t ∷ ts) = insert_by key t (sort_by_key key ts)

unfoldable pub sort_threads_by : List Thread → List String → List Thread
unfolding sort_by_key get_max_value index_map
sort_threads_by to_sort sort_by =
    sort_by_key (λ t. get_max_value t (index_map sort_by 0 [])) to_sort
