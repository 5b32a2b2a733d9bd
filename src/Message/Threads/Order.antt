-- ===== src/Message/Threads/Order.antt =====
-- The order in which worker/types/thread.go sorts threads.
use mathlib.Core.List.{Perm}
use mathlib.Core.List.Perm
use aerc.Prelude.{
  All-weaken, All, Any, ℕ, ◌+◌, ◌≤◌, ◌≡◌, ◌⊎◌, inl, inr, refl, Option, none, some, List, [], ◌∷◌,
  String, string_eq, eqb, false, ltb, arith, if_cases, if◌then◌else◌,
}
use aerc.Prelude.Map
use aerc.Message.Threads.{
  Node, Thread, insert_by, sort_by_key, sort_threads_by, get_max_value, index_map, value_in,
  is_gone,
}
use aerc.Message.Threads.Walk.{preorder, get_max_value_lem}

module _ (key : Thread → ℕ) where
  abbrev pub IsSortedBy : List Thread → Type 0
  IsSortedBy [] = Unit
  IsSortedBy (t ∷ ts) = All (λ x. key t ≤ key x) ts × IsSortedBy ts

  All-insert_by :
      (n : ℕ) (t : Thread) (ts : List Thread)
      → n ≤ key t
      → All (λ x. n ≤ key x) ts
      → All (λ x. n ≤ key x) (insert_by key t ts)
  All-insert_by n t [] h a = (h, tt)
  All-insert_by n t (x ∷ ts) h a =
      if_cases (All (λ y. n ≤ key y)) (ltb (key x) (key t)) _ _
        (λ _. (a.0, All-insert_by n t ts h a.1)) (λ _. (h, a))

  insert_by-IsSortedBy :
      (t : Thread) (ts : List Thread) → IsSortedBy ts → IsSortedBy (insert_by key t ts)
  insert_by-IsSortedBy t [] s = (tt, tt)
  insert_by-IsSortedBy t (x ∷ ts) s =
      if_cases IsSortedBy (ltb (key x) (key t)) _ _
        (λ less. (All-insert_by (key x) t ts (ground arith) s.0, insert_by-IsSortedBy t ts s.1))
        (λ more. (
          (
            ground arith,
            All-weaken (λ y. key x ≤ key y) (λ y. key t ≤ key y) ts (λ y k. ground arith) s.0,
          ),
          s,
        ))

  insert_by-perm : (t : Thread) (ts : List Thread) → Perm (insert_by key t ts) (t ∷ ts)
  insert_by-perm t [] = Perm.refl (t ∷ [])
  insert_by-perm t (x ∷ ts) =
      if_cases (λ l. Perm l (t ∷ x ∷ ts)) (ltb (key x) (key t)) _ _
        (λ _. Perm.trans (Perm.cons x (insert_by-perm t ts)) (Perm.swap t x ts))
        (λ _. Perm.refl (t ∷ x ∷ ts))

  sort_by_key-IsSortedBy : (ts : List Thread) → IsSortedBy (sort_by_key key ts)
  unfolding sort_by_key
  sort_by_key-IsSortedBy [] = tt
  sort_by_key-IsSortedBy (t ∷ ts) =
      insert_by-IsSortedBy t (sort_by_key key ts) (sort_by_key-IsSortedBy ts)

  sort_by_key-perm : (ts : List Thread) → Perm (sort_by_key key ts) ts
  unfolding sort_by_key
  sort_by_key-perm [] = Perm.refl []
  sort_by_key-perm (t ∷ ts) =
      Perm.trans (insert_by-perm t (sort_by_key key ts)) (Perm.cons t (sort_by_key-perm ts))

-- The last place of a UID in a list whose first element has the place `i`.
abbrev pub last_at : String → List String → ℕ → Option ℕ
last_at u [] i = none
last_at u (x ∷ us) i = elim (last_at u us (i + 1)) [
  | some j ↦ some j
  | none ↦ if eqb x u then some i else none
]

-- A UID that is not in the list counts as one at its beginning.
abbrev pub place_in : List String → Node → ℕ
place_in us n = elim (last_at n.uid us 0) [ none ↦ 0 | some i ↦ i ]

get-index_map :
    (u : String) (us : List String) (i : ℕ) (m : List (String × ℕ))
    → Map.get u (index_map us i m) ≡ elim (last_at u us i) [ some j ↦ some j | none ↦ Map.get u m ]
unfolding index_map
get-index_map u [] i m = refl
get-index_map u (x ∷ us) i m =
    ground (
      arith,
      get-index_map u us (i + 1) (Map.put x i m),
      Map.get-put x u i m,
      string_eq.beq_iff x u,
    )

value_in-place_in : (us : List String) (n : Node) → value_in (index_map us 0 []) n ≡ place_in us n
value_in-place_in us n = ground (arith, get-index_map n.uid us 0 [])

-- The place of each visible message of the first thread is 0 or not behind that of some visible message
-- of the second one.
abbrev pub IsNotBehind : List String → Thread → Thread → Type 0
IsNotBehind us t x =
    All
      (λ (n, _).
        is_gone n ≡ false
        → (place_in us n ≡ 0)
          ⊎ Any (λ (k, _). (is_gone k ≡ false) × (place_in us n ≤ place_in us k)) (preorder x 0))
      (preorder t 0)

abbrev pub IsInOrder : List String → List Thread → Type 0
IsInOrder us [] = Unit
IsInOrder us (t ∷ ts) = All (IsNotBehind us t) ts × IsInOrder us ts

Any-weaken {ℓ} :
    {A : Type ℓ} (P Q : A → Type 0) (xs : List A) → ((x : A) → P x → Q x) → Any P xs → Any Q xs
Any-weaken P Q [] f h = absurd h
Any-weaken P Q (x ∷ xs) f (inl h) = inl (f x h)
Any-weaken P Q (x ∷ xs) f (inr h) = inr (Any-weaken P Q xs f h)

max_value-IsNotBehind :
    (us : List String) (t x : Thread)
    → get_max_value t (index_map us 0 []) ≤ get_max_value x (index_map us 0 [])
    → IsNotBehind us t x
max_value-IsNotBehind us t x h =
    let m = index_map us 0 [] in
    let (top, _) = get_max_value_lem t m in
    let (_, attained) = get_max_value_lem x m in
    All-weaken (λ (n, _). is_gone n ≡ false → value_in m n ≤ get_max_value t m)
      (λ (n, _).
        is_gone n ≡ false
        → (place_in us n ≡ 0)
          ⊎ Any (λ (k, _). (is_gone k ≡ false) × (place_in us n ≤ place_in us k)) (preorder x 0))
      (preorder t 0)
      (λ (n, _) below shown.
        let low : place_in us n ≤ get_max_value x m =
          ground (arith, below shown, h, value_in-place_in us n) in
        elim attained [
          | inl zero_max ↦ inl (omega arith)
          | inr some_max ↦ inr (
              Any-weaken (λ (k, _). (is_gone k ≡ false) × (value_in m k ≡ get_max_value x m))
                (λ (k, _). (is_gone k ≡ false) × (place_in us n ≤ place_in us k)) (preorder x 0)
                (λ (k, _) at. (at.0, ground (arith, at.1, low, value_in-place_in us k))) some_max)
        ])
      top

IsSortedBy-IsInOrder :
    (us : List String) (ts : List Thread)
    → IsSortedBy (λ t. get_max_value t (index_map us 0 [])) ts
    → IsInOrder us ts
IsSortedBy-IsInOrder us [] s = tt
IsSortedBy-IsInOrder us (t ∷ ts) s =
    let m = index_map us 0 [] in
    (
      All-weaken (λ x. get_max_value t m ≤ get_max_value x m) (IsNotBehind us t) ts
          (max_value-IsNotBehind us t) s.0,
      IsSortedBy-IsInOrder us ts s.1,
    )

-- `SortThreadsBy` permutes the threads. Afterwards, of any two threads, each message of the former that
-- is neither hidden nor deleted has its last place among the UIDs to sort by not behind that of some such
-- message of the latter, unless it stands at their beginning or not among them.
pub sort_threads_by_lem :
    (ts : List Thread) (us : List String)
    → Perm (sort_threads_by ts us) ts × IsInOrder us (sort_threads_by ts us)
unfolding sort_threads_by
sort_threads_by_lem ts us =
    let key : Thread → ℕ = λ t. get_max_value t (index_map us 0 []) in
    (
      sort_by_key-perm key ts,
      IsSortedBy-IsInOrder us (sort_by_key key ts) (sort_by_key-IsSortedBy key ts),
    )
