-- ===== src/Message/Builder/Kept.antt =====
-- lib/threadbuilder.go: which flags the map of threads keeps through `RebuildUids`.
use aerc.Prelude.{
  ℕ, ◌≡◌, refl, sym, ap, ◌∙◌, Bool, Option, none, some, List, [], ◌∷◌, ◌++◌, String, string_eq, eqb,
  if◌then◌else◌, arith, backwards, concat_map,
}
use aerc.Prelude.Map
use aerc.Message.Threads.{Thread, Node}
use aerc.Message.Threads.Walk.{preorder, fold, walk-fold}
use aerc.Message.Builder.{Flags, flags_of, is_out, collect, collect_all}

abbrev pub direct : Bool → List String → List String
direct inverse us = if inverse then backwards us else us

-- The map after a thread.
abbrev pub after : Thread → List (String × Flags) → List (String × Flags)
after t m = (fold collect (preorder t 0) (m, [])).0

pub collect_all-step :
    (inverse : Bool) (t : Thread) (ts : List Thread) (m : List (String × Flags)) (us : List String)
    → collect_all inverse (t ∷ ts) (m, us)
      ≡ collect_all inverse ts
          (after t m, us ++ direct inverse (fold collect (preorder t 0) (m, [])).1)
unfolding collect_all
collect_all-step inverse t ts m us =
    ap (λ r. collect_all inverse ts (r.0, us ++ direct inverse r.1)) (walk-fold collect t (m, []))

-- The flags with which the first of these threads that has the UID comes.
abbrev pub first_flags : String → List (Node × ℕ) → Option Flags
first_flags u [] = none
first_flags u ((n, l) ∷ xs) =
    if eqb n.uid u
    then some (record { hidden = n.hidden; deleted = n.deleted })
    else first_flags u xs

-- The first of two values that is there.
abbrev pub or_else {ℓ} : {A : Type ℓ} → Option A → Option A → Option A
or_else none y = y
or_else (some x) y = some x

or_else_assoc {ℓ} :
    {A : Type ℓ} (x y z : Option A) → or_else (or_else x y) z ≡ or_else x (or_else y z)
or_else_assoc none y z = refl
or_else_assoc (some x) y z = refl

first_flags-append :
    (u : String) (xs ys : List (Node × ℕ))
    → first_flags u (xs ++ ys) ≡ or_else (first_flags u xs) (first_flags u ys)
first_flags-append u [] ys = refl
first_flags-append u ((n, l) ∷ xs) ys = ground (arith, first_flags-append u xs ys)

get-collect :
    (u : String) (n : Node) (m : List (String × Flags)) (x : Option Flags)
    → or_else (Map.get u (Map.put n.uid (flags_of m n) m)) x
      ≡ or_else
          (Map.get u m)
          (if eqb n.uid u then some (record { hidden = n.hidden; deleted = n.deleted }) else x)
get-collect u n m x =
    ground (arith, Map.get-put n.uid u (flags_of m n) m, string_eq.beq_iff n.uid u)

get-fold :
    (u : String) (xs : List (Node × ℕ)) (m : List (String × Flags)) (us : List String)
    → Map.get u (fold collect xs (m, us)).0 ≡ or_else (Map.get u m) (first_flags u xs)
get-fold u [] m us = ground arith
get-fold u ((n, l) ∷ xs) m us =
    get-fold u xs (Map.put n.uid (flags_of m n) m)
      (if is_out (flags_of m n) then us else us ++ n.uid ∷ [])
    ∙ get-collect u n m (first_flags u xs)

-- The messages of threads, one thread after the other.
abbrev pub messages_of : List Thread → List (Node × ℕ)
messages_of ts = concat_map (λ t. preorder t 0) ts

-- A UID keeps the flags of the map it had; one that had none gets those it first comes with.
pub get-collect_all :
    (u : String) (inverse : Bool) (ts : List Thread) (m : List (String × Flags)) (us : List String)
    → Map.get u (collect_all inverse ts (m, us)).0
      ≡ or_else (Map.get u m) (first_flags u (messages_of ts))
unfolding collect_all
get-collect_all u inverse [] m us = ground arith
get-collect_all u inverse (t ∷ ts) m us =
    ap (λ r. Map.get u r.0) (collect_all-step inverse t ts m us)
    ∙ get-collect_all u inverse ts (after t m) _
    ∙ ap (λ x. or_else x (first_flags u (messages_of ts))) (get-fold u (preorder t 0) m [])
    ∙ or_else_assoc (Map.get u m) (first_flags u (preorder t 0)) (first_flags u (messages_of ts))
    ∙ ap (or_else (Map.get u m)) (sym (first_flags-append u (preorder t 0) (messages_of ts)))
