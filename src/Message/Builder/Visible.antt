-- ===== src/Message/Builder/Visible.antt =====
-- Which UIDs lib/threadbuilder.go lists, and in which order.
use aerc.Prelude.{
  ℕ, suc, ◌≡◌, refl, sym, ap, ap₂, ◌∙◌, Bool, true, false, not, some, List, [], ◌∷◌, ◌++◌, String,
  string_eq, if◌then◌else◌, arith, append_assoc, append_nil, length, backwards, backwards-backwards,
  backwards-concat_map, concat_map, Outcome, done, ◌>>=◌,
}
use aerc.Prelude.Map
use aerc.Message.Threads.{Thread, Node}
use aerc.Message.Threads.Walk.{preorder, fold}
use aerc.Message.Iterator.{walk, new_iterator}
use aerc.Message.Iterator.Walk.{walk-new_iterator}
use aerc.Message.Builder.Kept.{
  direct, after, collect_all-step, first_flags, or_else, messages_of, get-collect_all,
}
use aerc.Message.Builder.{
  Flags, ThreadBuilder, flags_of, is_out, collect, collect_all, rebuild_uids,
}

-- The UIDs of these threads that the map keeps no flag against.
abbrev pub shown : List (String × Flags) → List (Node × ℕ) → List String
shown m [] = []
shown m ((n, l) ∷ xs) = if is_out (flags_of m n) then shown m xs else n.uid ∷ shown m xs

abbrev pub Extends : List (String × Flags) → List (String × Flags) → Type 0
Extends m m' = (u : String) (f : Flags) → Map.get u m ≡ some f → Map.get u m' ≡ some f

-- Each thread has flags in the map.
abbrev pub AllKnown : List (String × Flags) → List (Node × ℕ) → Type 0
AllKnown m [] = Unit
AllKnown m ((n, l) ∷ xs) = (Map.get n.uid m ≡ some (flags_of m n)) × AllKnown m xs

put-Extends : (m : List (String × Flags)) (n : Node) → Extends m (Map.put n.uid (flags_of m n) m)
put-Extends m n u f h =
    ground (arith, Map.get-put n.uid u (flags_of m n) m, string_eq.beq_iff n.uid u)

fold-Extends :
    (xs : List (Node × ℕ)) (m : List (String × Flags)) (us : List String)
    → Extends m (fold collect xs (m, us)).0
fold-Extends [] m us u f h = h
fold-Extends ((n, l) ∷ xs) m us u f h =
    fold-Extends xs (Map.put n.uid (flags_of m n) m)
      (if is_out (flags_of m n) then us else us ++ n.uid ∷ []) u f (put-Extends m n u f h)

fold-collect :
    (xs : List (Node × ℕ)) (m m' : List (String × Flags)) (us : List String)
    → Extends (fold collect xs (m, us)).0 m'
    → ((fold collect xs (m, us)).1 ≡ us ++ shown m' xs) × AllKnown m' xs
fold-collect [] m m' us h = (append_nil us, tt)
fold-collect ((n, l) ∷ xs) m m' us h =
    let f = flags_of m n in
    let m₁ = Map.put n.uid f m in
    let us₁ = if is_out f then us else us ++ n.uid ∷ [] in
    let (e, k) = fold-collect xs m₁ m' us₁ h in
    let here : Map.get n.uid m' ≡ some f = h n.uid f (
      fold-Extends xs m₁ us₁ n.uid f
        (ground (arith, Map.get-put n.uid n.uid f m, string_eq.beq_iff n.uid n.uid))) in
    let same : flags_of m' n ≡ f = ground (arith, here) in
    (
      e
          ∙ push n.uid us (shown m' xs) (is_out f)
          ∙ ap (λ g. us ++ (if is_out g then shown m' xs else n.uid ∷ shown m' xs)) (sym same),
      (here ∙ ap some (sym same), k),
    )
  where
    push :
        (u : String) (us ys : List String) (b : Bool)
        → (if b then us else us ++ u ∷ []) ++ ys ≡ us ++ (if b then ys else u ∷ ys)
    push u us ys true = refl
    push u us ys false = append_assoc us (u ∷ []) ys

-- Each thread's part of the list.
abbrev pub part : Bool → List (String × Flags) → Thread → List String
part inverse m t = direct inverse (shown m (preorder t 0))

abbrev pub AllKnownIn : List (String × Flags) → List Thread → Type 0
AllKnownIn m [] = Unit
AllKnownIn m (t ∷ ts) = AllKnown m (preorder t 0) × AllKnownIn m ts

collect_all-Extends :
    (inverse : Bool) (ts : List Thread) (m : List (String × Flags)) (us : List String)
    → Extends m (collect_all inverse ts (m, us)).0
unfolding collect_all
collect_all-Extends inverse [] m us u f h = h
collect_all-Extends inverse (t ∷ ts) m us u f h =
    ap (λ r. Map.get u r.0) (collect_all-step inverse t ts m us)
    ∙ collect_all-Extends inverse ts (after t m) _ u f (fold-Extends (preorder t 0) m [] u f h)

collect_all-shown :
    (inverse : Bool) (ts : List Thread) (m m' : List (String × Flags)) (us : List String)
    → (collect_all inverse ts (m, us)).0 ≡ m'
    → ((collect_all inverse ts (m, us)).1 ≡ us ++ concat_map (part inverse m') ts)
      × AllKnownIn m' ts
unfolding collect_all
collect_all-shown inverse [] m m' us h = (append_nil us, tt)
collect_all-shown inverse (t ∷ ts) m m' us h =
    let here = (fold collect (preorder t 0) (m, [])).1 in
    let step = collect_all-step inverse t ts m us in
    let h' = sym (ap (λ r. r.0) step) ∙ h in
    let (e, k) = collect_all-shown inverse ts (after t m) m' (us ++ direct inverse here) h' in
    let (e₁, k₁) =
      fold-collect (preorder t 0) m m' []
        (λ u f g. ap (Map.get u) (sym h') ∙ collect_all-Extends inverse ts (after t m) _ u f g) in
    (
      ap (λ r. r.1) step
          ∙ e
          ∙ append_assoc us (direct inverse here) (concat_map (part inverse m') ts)
          ∙ ap (λ x. us ++ (direct inverse x ++ concat_map (part inverse m') ts)) e₁,
      (k₁, k),
    )

concat_map-ext :
    (f g : Thread → List String) (ts : List Thread)
    → ((t : Thread) → f t ≡ g t)
    → concat_map f ts ≡ concat_map g ts
concat_map-ext f g [] h = refl
concat_map-ext f g (t ∷ ts) h = ap₂ (λ xs ys. xs ++ ys) (h t) (concat_map-ext f g ts h)

AllKnownIn-snoc :
    (m : List (String × Flags)) (ts : List Thread) (t : Thread)
    → AllKnownIn m (ts ++ t ∷ [])
    → AllKnownIn m (t ∷ ts)
AllKnownIn-snoc m [] t k = k
AllKnownIn-snoc m (x ∷ ts) t k = let (h, r) = AllKnownIn-snoc m ts t k.1 in (h, (k.0, r))

AllKnownIn-backwards :
    (m : List (String × Flags)) (ts : List Thread) → AllKnownIn m (backwards ts) → AllKnownIn m ts
AllKnownIn-backwards m [] k = tt
AllKnownIn-backwards m (t ∷ ts) k =
    let (h, r) = AllKnownIn-snoc m (backwards ts) t k in (h, AllKnownIn-backwards m ts r)

flip_part :
    (inverse : Bool) (m : List (String × Flags)) (t : Thread)
    → backwards (part inverse m t) ≡ part (not inverse) m t
flip_part true m t = backwards-backwards (shown m (preorder t 0))
flip_part false m t = refl

-- The order of each thread's part.
abbrev pub parents_last : Bool → Bool → Bool
parents_last reverse inverse = if reverse then inverse else not inverse

-- What a client sees of an iterator.
abbrev pub seen : {A : Type 0} → Bool → List A → List A
seen reverse xs = if reverse then xs else backwards xs

walk-seen :
    {A : Type 0} (reverse : Bool) (xs : List A)
    → walk (suc (length xs)) (new_iterator reverse xs) ≡ done (seen reverse xs)
walk-seen true xs = (walk-new_iterator xs).1
walk-seen false xs = (walk-new_iterator xs).0

rebuild_uids-eq :
    (ts : List Thread) (inverse : Bool) (b : ThreadBuilder)
    → rebuild_uids ts inverse b
      ≡ done (record b {
        thread_map = (collect_all inverse (seen b.reverse ts) (b.thread_map, [])).0;
        threaded_uids =
            seen b.reverse (collect_all inverse (seen b.reverse ts) (b.thread_map, [])).1;
      })
unfolding rebuild_uids
rebuild_uids-eq ts inverse b =
    ap
      (λ (o : Outcome (List Thread)). o >>= λ ts'.
        walk (suc (length (collect_all inverse ts' (b.thread_map, [])).1))
          (new_iterator b.reverse (collect_all inverse ts' (b.thread_map, [])).1)
        >>= λ us. done (record b {
          thread_map = (collect_all inverse ts' (b.thread_map, [])).0;
          threaded_uids = us;
        }))
      (walk-seen b.reverse ts)
    ∙ ap
        (λ (o : Outcome (List String)). o >>= λ us. done (record b {
          thread_map = (collect_all inverse (seen b.reverse ts) (b.thread_map, [])).0;
          threaded_uids = us;
        }))
        (walk-seen b.reverse (collect_all inverse (seen b.reverse ts) (b.thread_map, [])).1)

seen-parts :
    (reverse inverse : Bool) (m : List (String × Flags)) (ts : List Thread)
    → seen reverse (concat_map (part inverse m) (seen reverse ts))
      ≡ concat_map (part (parents_last reverse inverse) m) ts
seen-parts true inverse m ts = refl
seen-parts false inverse m ts =
    backwards-concat_map (part inverse m) ts
    ∙ concat_map-ext (λ t. backwards (part inverse m t)) (part (not inverse) m) ts
        (flip_part inverse m)

seen-AllKnownIn :
    (reverse : Bool) (m : List (String × Flags)) (ts : List Thread)
    → AllKnownIn m (seen reverse ts)
    → AllKnownIn m ts
seen-AllKnownIn true m ts k = k
seen-AllKnownIn false m ts k = AllKnownIn-backwards m ts k

-- `RebuildUids` returns without a panic. A UID that the map had flags for keeps them, and any other
-- gets those of the first message with that UID that the iterator over the threads comes to; so the map
-- has flags for every thread. The list has, for one thread of the slice after the other, the UIDs of its
-- messages that these flags neither hide nor delete: each parent behind its children if both the order
-- of messages and that within threads are reversed or neither is, and else before them.
pub rebuild_uids-shown :
    (ts : List Thread) (inverse : Bool) (b : ThreadBuilder)
    → (b' : ThreadBuilder) × (rebuild_uids ts inverse b ≡ done b')
      × (b'.threaded_uids ≡ concat_map (part (parents_last b.reverse inverse) b'.thread_map) ts)
      × AllKnownIn b'.thread_map ts
      × ((u : String)
          → Map.get u b'.thread_map
            ≡ or_else (Map.get u b.thread_map) (first_flags u (messages_of (seen b.reverse ts))))
rebuild_uids-shown ts inverse b =
    let s = collect_all inverse (seen b.reverse ts) (b.thread_map, []) in
    let (e, k) = collect_all-shown inverse (seen b.reverse ts) b.thread_map s.0 [] refl in
    (
      record b { thread_map = s.0; threaded_uids = seen b.reverse s.1 },
      rebuild_uids-eq ts inverse b,
      ap (seen b.reverse) e ∙ seen-parts b.reverse inverse s.0 ts,
      seen-AllKnownIn b.reverse s.0 ts k,
      λ u. get-collect_all u inverse (seen b.reverse ts) b.thread_map [],
    )
