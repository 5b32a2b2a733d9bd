-- ===== src/Message/Threads/Walk.antt =====
-- What `Walk` of worker/types/thread.go visits, and what the code gathers with it.
use aerc.Prelude.{
  ℕ, suc, ◌≤◌, ◌≡◌, ◌⊎◌, inl, inr, refl, sym, subst, ap, ◌∙◌, Bool, true, false, List, [], ◌∷◌,
  ◌++◌, map, String, ltb, if◌then◌else◌, arith, append_assoc, append_nil, All, Any, Bool-cases,
}
use aerc.Message.Threads.{
  Node, Thread, Threads, thread, nil, cons, Result, go_on, skip, failed, new_walk, walk_children,
  below, beside, walk, uids, is_gone, value_in, get_max_value,
}

-- A thread before its children, each with its level.
abbrev mutual
  pub preorder : Thread → ℕ → List (Node × ℕ)
  preorder (thread n cs) lvl = (n, lvl) ∷ preorder_children cs (suc lvl)

  pub preorder_children : Threads → ℕ → List (Node × ℕ)
  preorder_children nil lvl = []
  preorder_children (cons t ts) lvl = preorder t lvl ++ preorder_children ts lvl

abbrev pub fold {ℓ κ} : {A : Type ℓ} {S : Type κ} → (A → S → S) → List A → S → S
fold g [] s = s
fold g (x ∷ xs) s = fold g xs (g x s)

fold-append {ℓ κ} :
    {A : Type ℓ} {S : Type κ} (g : A → S → S) (xs ys : List A) (s : S)
    → fold g (xs ++ ys) s ≡ fold g ys (fold g xs s)
fold-append g [] ys s = refl
fold-append g (x ∷ xs) ys s = fold-append g xs ys (g x s)

-- The children of a thread that `p` holds of are cut off.
unfoldable mutual
  pub prune : (Node → Bool) → Thread → Thread
  prune p (thread n cs) = let below = prune_children p cs in thread n (if p n then nil else below)

  pub prune_children : (Node → Bool) → Threads → Threads
  prune_children p nil = nil
  prune_children p (cons t ts) = cons (prune p t) (prune_children p ts)

module _ {S : Type 0} (g : Node × ℕ → S → S) where
  mutual
    unfolding new_walk

    new_walk-fold :
        (t : Thread) (lvl : ℕ) (s : S)
        → new_walk (λ n l s'. (go_on, g (n, l) s')) t lvl s ≡ (go_on, fold g (preorder t lvl) s)
    new_walk-fold (thread n cs) lvl s = walk_children-fold cs (suc lvl) (g (n, lvl) s)

    walk_children-fold :
        (ts : Threads) (lvl : ℕ) (s : S)
        → walk_children (λ n l s'. (go_on, g (n, l) s')) ts lvl s
          ≡ (go_on, fold g (preorder_children ts lvl) s)
    walk_children-fold nil lvl s = refl
    walk_children-fold (cons t ts) lvl s =
        ap (λ r. beside r (λ s'. walk_children (λ n l s''. (go_on, g (n, l) s'')) ts lvl s'))
          (new_walk-fold t lvl s)
        ∙ walk_children-fold ts lvl (fold g (preorder t lvl) s)
        ∙ ap (λ s'. (go_on, s')) (sym (fold-append g (preorder t lvl) (preorder_children ts lvl) s))

pub walk-fold :
    {S : Type 0} (g : Node × ℕ → S → S) (t : Thread) (s : S)
    → (walk (λ n l s'. (go_on, g (n, l) s')) t s).1 ≡ fold g (preorder t 0) s
unfolding walk
walk-fold g t s = ap (λ r. r.1) (new_walk-fold g t 0 s)

-- A result that is no failure, with this state.
abbrev pub Reaches : {S : Type 0} → Result × S → S → Type 0
Reaches (go_on, s') s = s' ≡ s
Reaches (skip, s') s = s' ≡ s
Reaches (failed, s') s = ⊥

beside-Reaches :
    {S : Type 0} (r : Result × S) (s : S) (k : S → Result × S) → Reaches r s → beside r k ≡ k s
beside-Reaches (go_on, s') s k h = ap k h
beside-Reaches (skip, s') s k h = ap k h
beside-Reaches (failed, s') s k h = absurd h

below-Reaches :
    {S : Type 0} (b : Bool) (s : S) (k : S → Result × S) (cs : Threads) (h : Threads → S)
    → h nil ≡ s
    → k s ≡ (go_on, h cs)
    → Reaches (below (if b then skip else go_on, s) k) (h (if b then nil else cs))
below-Reaches true s k cs h e f = sym e
below-Reaches false s k cs h e f = subst (λ r. Reaches r (h cs)) (sym f) refl

module _ {S : Type 0} (p : Node → Bool) (g : Node × ℕ → S → S) where
  -- A callback that skips at `p`.
  abbrev pub skip_at : Node → ℕ → S → Result × S
  skip_at n l s = (if p n then skip else go_on, g (n, l) s)

  mutual
    unfolding new_walk prune

    new_walk-prune :
        (t : Thread) (lvl : ℕ) (s : S)
        → Reaches (new_walk skip_at t lvl s) (fold g (preorder (prune p t) lvl) s)
    new_walk-prune (thread n cs) lvl s =
        below-Reaches (p n) (g (n, lvl) s) (λ s'. walk_children skip_at cs (suc lvl) s')
          (prune_children p cs) (λ cs'. fold g (preorder_children cs' (suc lvl)) (g (n, lvl) s))
          refl (walk_children-prune cs (suc lvl) (g (n, lvl) s))

    walk_children-prune :
        (ts : Threads) (lvl : ℕ) (s : S)
        → walk_children skip_at ts lvl s
          ≡ (go_on, fold g (preorder_children (prune_children p ts) lvl) s)
    walk_children-prune nil lvl s = refl
    walk_children-prune (cons t ts) lvl s =
        beside-Reaches (new_walk skip_at t lvl s) (fold g (preorder (prune p t) lvl) s)
          (λ s'. walk_children skip_at ts lvl s') (new_walk-prune t lvl s)
        ∙ walk_children-prune ts lvl (fold g (preorder (prune p t) lvl) s)
        ∙ ap (λ s'. (go_on, s'))
            (sym (
              fold-append g (preorder (prune p t) lvl) (preorder_children (prune_children p ts) lvl)
                s))

  -- Where the callback fails nowhere and skips at `p`, `Walk` returns no error, and the callback has run
  -- on every thread that is not below one that it skips, each after its parent, in the order of the
  -- children and with its level.
  pub walk-prune :
      (t : Thread) (s : S) → walk skip_at t s ≡ (go_on, fold g (preorder (prune p t) 0) s)
  unfolding walk
  walk-prune t s = finish (new_walk skip_at t 0 s) (new_walk-prune t 0 s)
    where
      finish :
          (r : Result × S)
          → Reaches r (fold g (preorder (prune p t) 0) s)
          → ◌≡◌ {A = Result × S}
              (elim r.0 as (λ _. Result) [ go_on ↦ go_on | skip ↦ go_on | failed ↦ failed ], r.1)
              (go_on, fold g (preorder (prune p t) 0) s)
      finish (go_on, s') h = ap (λ x. (go_on, x)) h
      finish (skip, s') h = ap (λ x. (go_on, x)) h
      finish (failed, s') h = absurd h

fold-snoc :
    (xs : List (Node × ℕ)) (us : List String)
    → fold (λ (n, _) vs. vs ++ n.uid ∷ []) xs us ≡ us ++ map (λ (n, _). n.uid) xs
fold-snoc [] us = append_nil us
fold-snoc ((n, l) ∷ xs) us =
    fold-snoc xs (us ++ n.uid ∷ []) ∙ append_assoc us (n.uid ∷ []) (map (λ (m, _). m.uid) xs)

-- `Uids` returns the UIDs of the thread and all below it, each parent before its children.
pub uids-preorder : (t : Thread) → uids t ≡ map (λ (n, _). n.uid) (preorder t 0)
unfolding uids walk
uids-preorder t =
    ap (λ r. r.1) (new_walk-fold (λ (n, _) us. us ++ n.uid ∷ []) t 0 [])
    ∙ fold-snoc (preorder t 0) []

-- The step of `getMaxValue`.
largest : List (String × ℕ) → Node × ℕ → ℕ → ℕ
largest m (n, _) v = if is_gone n then v else if ltb v (value_in m n) then value_in m n else v

largest-cases :
    (m : List (String × ℕ)) (n : Node) (l v : ℕ)
    → (largest m (n, l) v ≡ v) ⊎ ((is_gone n ≡ false) × (value_in m n ≡ largest m (n, l) v))
unfolding largest
largest-cases m n l v = elim (Bool-cases (is_gone n)) [
  | inl gone ↦ inl (ground arith)
  | inr shown ↦ elim (Bool-cases (ltb v (value_in m n))) [
    | inl more ↦ inr (shown, ground arith)
    | inr less ↦ inl (ground arith)
  ]
]

fold-largest :
    (m : List (String × ℕ)) (xs : List (Node × ℕ)) (v : ℕ)
    → (v ≤ fold (largest m) xs v)
      × All (λ (n, _). is_gone n ≡ false → value_in m n ≤ fold (largest m) xs v) xs
      × ((fold (largest m) xs v ≡ v)
          ⊎ Any (λ (n, _). (is_gone n ≡ false) × (value_in m n ≡ fold (largest m) xs v)) xs)
unfolding largest
fold-largest m [] v = (omega arith, tt, inl refl)
fold-largest m ((n, l) ∷ xs) v =
    let (up, all, attained) = fold-largest m xs (largest m (n, l) v) in
    (
      ground arith,
      (λ h. ground arith, all),
      elim attained [
        | inr some ↦ inr (inr some)
        | inl e ↦ elim (largest-cases m n l v) [
          | inl old ↦ inl (e ∙ old)
          | inr (shown, new) ↦ inr (inl (shown, new ∙ sym e))
        ]
      ],
    )

-- In the tree of a thread, `getMaxValue` gives a value that no visible thread exceeds, and that a
-- visible thread has unless it is 0.
pub get_max_value_lem :
    (t : Thread) (m : List (String × ℕ))
    → All (λ (n, _). is_gone n ≡ false → value_in m n ≤ get_max_value t m) (preorder t 0)
      × ((get_max_value t m ≡ 0)
          ⊎ Any (λ (n, _). (is_gone n ≡ false) × (value_in m n ≡ get_max_value t m)) (preorder t 0))
unfolding get_max_value walk largest
get_max_value_lem t m =
    let e = ap (λ r. r.1) (new_walk-fold (largest m) t 0 0) in
    subst
      (λ v.
        All (λ (n, _). is_gone n ≡ false → value_in m n ≤ v) (preorder t 0)
        × ((v ≡ 0) ⊎ Any (λ (n, _). (is_gone n ≡ false) × (value_in m n ≡ v)) (preorder t 0)))
      (sym e) (let (_, all, attained) = fold-largest m (preorder t 0) 0 in (all, attained))
