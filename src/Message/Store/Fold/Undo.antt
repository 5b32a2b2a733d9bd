-- ===== src/Message/Store/Fold/Undo.antt =====
-- Folding and unfolding of lib/msgstore.go: what becomes hidden, and that each undoes the other.
use aerc.Prelude.{
  ℕ, suc, ◌+◌, ◌≡◌, refl, ap, ap₂, sym, ◌∙◌, Bool, true, false, List, [], ◌∷◌, ◌++◌, String,
  string_eq, eqb, ◌==◌, length, length-map, arith, Bool-cases, inl, inr,
}
use aerc.Message.Threads.{Node, Thread, Threads, thread, nil, cons, node_of, uids}
use aerc.Message.Threads.Walk.{preorder, preorder_children, uids-preorder}
use aerc.Message.Store.Fold.{
  new_hidden, fold_node, fold_all, fold_children, is_folded, do_thread_folding, fold_thread,
  unfold_thread,
}

length_append {ℓ} : {A : Type ℓ} (xs ys : List A) → length (xs ++ ys) ≡ length xs + length ys
length_append [] ys = omega arith
length_append (x ∷ xs) ys = omega (arith, length_append xs ys)

module _ (u : String) (hide toggle folded : Bool) where
  mutual
    unfolding fold_all

    length-preorder :
        (t : Thread) (l k : ℕ)
        → length (preorder (fold_all u hide toggle folded t) l) ≡ length (preorder t k)
    length-preorder (thread n cs) l k = ap suc (length-preorder_children cs (suc l) (suc k))

    length-preorder_children :
        (ts : Threads) (l k : ℕ)
        → length (preorder_children (fold_children u hide toggle folded ts) l)
          ≡ length (preorder_children ts k)
    length-preorder_children nil l k = refl
    length-preorder_children (cons t ts) l k =
        length_append (preorder (fold_all u hide toggle folded t) l)
          (preorder_children (fold_children u hide toggle folded ts) l)
        ∙ ap₂ (λ a b. a + b) (length-preorder t l k) (length-preorder_children ts l k)
        ∙ sym (length_append (preorder t k) (preorder_children ts k))

  length-uids : (t : Thread) → length (uids (fold_all u hide toggle folded t)) ≡ length (uids t)
  length-uids t =
      ap length (uids-preorder (fold_all u hide toggle folded t))
      ∙ length-map (preorder (fold_all u hide toggle folded t) 0) (λ (n, _). n.uid)
      ∙ length-preorder t 0 0
      ∙ sym (length-map (preorder t 0) (λ (n, _). n.uid))
      ∙ sym (ap length (uids-preorder t))

-- One walk after another that takes back its counts.
module _ (u : String) (hide toggle folded hide' toggle' folded' : Bool)
    (back : (h : ℕ) → new_hidden hide' toggle' folded' (new_hidden hide toggle folded h) ≡ h) where
  fold_node-back :
      (n : Node) → fold_node u hide' toggle' folded' (fold_node u hide toggle folded n) ≡ n
  fold_node-back n = ground (arith, back n.hidden)

  mutual
    unfolding fold_all

    fold_all-back :
        (t : Thread) → fold_all u hide' toggle' folded' (fold_all u hide toggle folded t) ≡ t
    fold_all-back (thread n cs) = ap₂ thread (fold_node-back n) (fold_children-back cs)

    fold_children-back :
        (ts : Threads)
        → fold_children u hide' toggle' folded' (fold_children u hide toggle folded ts) ≡ ts
    fold_children-back nil = refl
    fold_children-back (cons t ts) = ap₂ cons (fold_all-back t) (fold_children-back ts)

-- The first child, if there is one, is not the message `u` itself.
abbrev pub IsOther : String → Thread → Type 0
IsOther u (thread n nil) = Unit
IsOther u (thread n (cons t ts)) = eqb (node_of t).uid u ≡ false

is_folded-fold :
    (u : String) (t : Thread)
    → IsOther u t
    → (length (uids t) == 1) ≡ false
    → is_folded (fold_all u true true false t) ≡ true
unfolding fold_all
is_folded-fold u (thread n nil) o h =
    let e : length (uids (thread n nil)) ≡ 1 = ap length (uids-preorder (thread n nil)) in
    absurd (ground (arith, e))
is_folded-fold u (thread n (cons (thread m cs) ts)) o h = ground arith

-- In a thread that is not folded, unfolding takes back a folding, and where the first child has
-- another UID, toggling twice changes nothing.
pub unfold_thread-fold_thread :
    (u : String) (t : Thread)
    → is_folded t ≡ false
    → (unfold_thread u false (fold_thread u false t) ≡ t)
      × (IsOther u t → fold_thread u true (fold_thread u true t) ≡ t)
unfolding unfold_thread fold_thread do_thread_folding
unfold_thread-fold_thread u t f = elim (Bool-cases (length (uids t) == 1)) [
  | inl one ↦ (ground (arith, f), λ o. ground (arith, f))
  | inr more ↦ (
    ground (
      arith,
      f,
      length-uids u true false false t,
      fold_all-back u true false false false false (is_folded (fold_all u true false false t))
          (λ h. ground arith) t,
    ),
    λ o. ground (
      arith,
      f,
      length-uids u true true false t,
      is_folded-fold u t o more,
      fold_all-back u true true false true true true (λ h. ground arith) t,
    ),
  )
]
