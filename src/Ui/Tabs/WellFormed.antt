-- ===== src/Ui/Tabs/WellFormed.antt =====
-- What the tabs of lib/ui/tab.go keep: the invariant, and the lemmas by which the steps keep it.
use mathlib.Core.Option.{Option}
use aerc.Prelude.{
  ℕ, zero, suc, ◌+◌, ◌-◌, ◌≤◌, ◌<◌, ◌≡◌, Bool, true, false, none, some, List, [], ◌∷◌, ◌++◌, arith,
  ◌==◌, if◌then◌else◌, length, length-append, get_elem?, set, remove_at, last?, init, drop,
  contains, contains-append, nat_eq, inl, inr, Option-cases, get_elem?-within, get_elem?-beyond,
}
use aerc.Prelude.Int.{ℤ, pos, negsuc}
use aerc.Ui.Tabs.{
  Tab, Tabs, Call, hide, without, max_history, push_history, find_ptr, pop_history, unselect,
  select_at, select_priv,
}

abbrev pub bit : Bool → ℕ
bit true = 1
bit false = 0

-- How many of the tabs have the address `p`.
abbrev pub count : ℕ → List Tab → ℕ
count p [] = 0
count p (x ∷ xs) = bit (x.ptr == p) + count p xs

-- No tab stands twice, `next_ptr` is above every address, and the history holds at most 256 tabs, all
-- of them open.
pub record IsTidy (t : Tabs) : Type 0 where
  pub once : (p : ℕ) → count p t.tabs ≤ 1
  pub fresh : (p : ℕ) → t.next_ptr ≤ p → count p t.tabs ≡ 0
  pub recent : (p : ℕ) → contains t.history p ≡ true → 0 < count p t.tabs
  pub bound : length t.history ≤ max_history

-- Besides, the selected index is in range, or 0 where there is no tab.
pub record IsWellFormed (t : Tabs) : Type 0 where
  pub tidy : IsTidy t
  pub current : t.cur_index ≤ length t.tabs - 1

pub count-append : (p : ℕ) (xs ys : List Tab) → count p (xs ++ ys) ≡ count p xs + count p ys
count-append p [] ys = omega arith
count-append p (x ∷ xs) ys = omega (arith, count-append p xs ys)

pub count-set :
    (p : ℕ) (xs : List Tab) (i : ℕ) (old new : Tab)
    → get_elem? xs i ≡ some old
    → count p (set xs i new) + bit (old.ptr == p) ≡ count p xs + bit (new.ptr == p)
count-set p [] i old new h = absurd (ground arith)
count-set p (x ∷ xs) zero old new h = ground arith
count-set p (x ∷ xs) (suc i) old new h = omega (arith, count-set p xs i old new h)

pub count-remove_at :
    (p : ℕ) (xs : List Tab) (i : ℕ) (x : Tab)
    → get_elem? xs i ≡ some x
    → count p (remove_at xs i) + bit (x.ptr == p) ≡ count p xs
count-remove_at p [] i x h = absurd (ground arith)
count-remove_at p (y ∷ ys) zero x h = ground arith
count-remove_at p (y ∷ ys) (suc i) x h = omega (arith, count-remove_at p ys i x h)

pub count-get_elem? :
    (xs : List Tab) (i : ℕ) (x : Tab) → get_elem? xs i ≡ some x → 0 < count x.ptr xs
count-get_elem? [] i x h = absurd (ground arith)
count-get_elem? (y ∷ ys) zero x h = ground arith
count-get_elem? (y ∷ ys) (suc i) x h = omega (arith, count-get_elem? ys i x h)

pub contains-without :
    (x p : ℕ) (ys : List ℕ) → contains (without x ys) p ≡ (if x == p then false else contains ys p)
contains-without x p [] = ground arith
contains-without x p (y ∷ ys) = ground (arith, contains-without x p ys)

pub length-without-le : (x : ℕ) (ys : List ℕ) → length (without x ys) ≤ length ys
length-without-le x [] = omega arith
length-without-le x (y ∷ ys) = ground (arith, length-without-le x ys)

contains-drop_one : (p : ℕ) (ys : List ℕ) → contains (drop 1 ys) p ≡ true → contains ys p ≡ true
contains-drop_one p [] h = h
contains-drop_one p (y ∷ ys) h = ground arith

length-drop_one : (ys : List ℕ) → length (drop 1 ys) ≡ length ys - 1
length-drop_one [] = omega arith
length-drop_one (y ∷ ys) = omega arith

contains-init : (p : ℕ) (ys : List ℕ) → contains (init ys) p ≡ true → contains ys p ≡ true
contains-init p [] h = h
contains-init p (y ∷ []) h = absurd (ground arith)
contains-init p (y ∷ z ∷ ys) h = ground (arith, contains-init p (z ∷ ys))

length-init-le : (ys : List ℕ) → length (init ys) ≤ length ys
length-init-le [] = omega arith
length-init-le (y ∷ []) = omega arith
length-init-le (y ∷ z ∷ ys) = omega (arith, length-init-le (z ∷ ys))

pub push_history-IsTidy :
    (p : ℕ) (t : Tabs) → 0 < count p t.tabs → IsTidy t → IsTidy (push_history p t)
unfolding push_history
push_history-IsTidy p t h w = record {
  once = w.once;
  fresh = w.fresh;
  recent = λ q c. ground (
    arith,
    w.recent q,
    contains-append t.history (p ∷ []) q,
    contains-drop_one q (t.history ++ p ∷ []),
  );
  bound =
      ground
        (arith, w.bound, length-append t.history (p ∷ []), length-drop_one (t.history ++ p ∷ []));
}

-- The calls on contents play no part in the invariant.
pub calls-IsTidy : (t : Tabs) (cs : List Call) → IsTidy t → IsTidy (record t { calls = cs })
calls-IsTidy t cs w = record { once = w.once; fresh = w.fresh; recent = w.recent; bound = w.bound }

pub tabs-unselect : (t : Tabs) → (unselect t).tabs ≡ t.tabs
unfolding unselect push_history
tabs-unselect t = ground arith

pub unselect-IsTidy : (t : Tabs) → IsTidy t → IsTidy (unselect t)
unfolding unselect
unselect-IsTidy t w = elim (Option-cases (get_elem? t.tabs t.cur_index)) [
  | inl e ↦ rw (e, unselect) w
  | inr (x, e) ↦
      rw (e, unselect)
        (push_history-IsTidy x.ptr (record t { calls = t.calls ++ hide x.content ∷ [] })
          (count-get_elem? t.tabs t.cur_index x e) (calls-IsTidy t _ w))
]

pub current-IsTidy :
    (t : Tabs) (i : ℕ) (cs : List Call) → IsTidy t → IsTidy (record t { cur_index = i; calls = cs })
current-IsTidy t i cs w = record {
  once = w.once;
  fresh = w.fresh;
  recent = w.recent;
  bound = w.bound;
}

pub select_at-IsTidy : (i : ℕ) (u : Bool) (t : Tabs) → IsTidy t → IsTidy (select_at i u t).1
unfolding select_at
select_at-IsTidy i u t w = elim (Option-cases (get_elem? t.tabs i)) [
  | inl e ↦ rw (e, select_at) w
  | inr (x, e) ↦ rw (e, select_at) (go u _)
]
  where
    go :
        (u : Bool) (cs : List Call)
        → IsTidy (record (if u then unselect t else t) { cur_index = i; calls = cs })
    go true cs = current-IsTidy (unselect t) i cs (unselect-IsTidy t w)
    go false cs = current-IsTidy t i cs w

pub select_priv-IsTidy : (i : ℤ) (u : Bool) (t : Tabs) → IsTidy t → IsTidy (select_priv i u t).1
unfolding select_priv
select_priv-IsTidy (pos i) u t w = select_at-IsTidy i u t w
select_priv-IsTidy (negsuc i) u t w = w

-- A selection leaves the tabs alone; it succeeds in range, and else changes nothing.
pub select_at_lem :
    (i : ℕ) (u : Bool) (t : Tabs)
    → ((select_at i u t).1.tabs ≡ t.tabs)
      × (i < length t.tabs → ((select_at i u t).0 ≡ true) × ((select_at i u t).1.cur_index ≡ i))
      × (length t.tabs ≤ i → select_at i u t ≡ (false, t))
unfolding select_at
select_at_lem i u t = (
  ground (arith, tabs-unselect t),
  λ h. ground (arith, get_elem?-within t.tabs i),
  λ h. ground (arith, get_elem?-beyond t.tabs i),
)

pub select_priv-IsWellFormed :
    (i : ℤ) (u : Bool) (t : Tabs) → IsWellFormed t → IsWellFormed (select_priv i u t).1
unfolding select_priv
select_priv-IsWellFormed (pos i) u t w = record {
  tidy = select_at-IsTidy i u t w.tidy;
  current = ground (arith, select_at_lem i u t, w.current);
}
select_priv-IsWellFormed (negsuc i) u t w = w

-- An index in range is selected whatever the selected index was before.
pub select_at-IsWellFormed :
    (i : ℕ) (u : Bool) (t : Tabs) → i < length t.tabs → IsTidy t → IsWellFormed (select_at i u t).1
select_at-IsWellFormed i u t h w = record {
  tidy = select_at-IsTidy i u t w;
  current = ground (arith, select_at_lem i u t);
}

-- Popping the history, which leaves the tabs and the selection alone.
pub pop_history-IsTidy : (t : Tabs) → IsTidy t → IsTidy (pop_history t).1
unfolding pop_history
pop_history-IsTidy t w = elim (Option-cases (last? t.history)) [
  | inl e ↦ rw (e, pop_history) w
  | inr (p, e) ↦
      rw (e, pop_history)
        (record {
          once = w.once;
          fresh = w.fresh;
          recent = λ q c. w.recent q (contains-init q t.history c);
          bound = ground (arith, w.bound, length-init-le t.history);
        })
]

-- An index that `popHistory` returns is that of an open tab.
find_ptr-lt : (p : ℕ) (xs : List Tab) (i : ℕ) → find_ptr p xs ≡ some i → i < length xs
find_ptr-lt p [] i h = absurd (ground arith)
find_ptr-lt p (x ∷ xs) zero h = omega arith
find_ptr-lt p (x ∷ xs) (suc i) h = ground (arith, find_ptr-lt p xs i)

pub pop_history_lem :
    (t : Tabs)
    → ((pop_history t).1.tabs ≡ t.tabs)
      × ((pop_history t).1.cur_index ≡ t.cur_index)
      × ((i : ℕ) → (pop_history t).0 ≡ some i → i < length t.tabs)
unfolding pop_history
pop_history_lem t = (ground arith, ground arith, λ i e. go (last? t.history) i e)
  where
    go :
        (o : Option ℕ) (i : ℕ)
        → (elim o as (λ _. Option ℕ × Tabs) [
          | none ↦ (none, t)
          | some tab ↦ (find_ptr tab t.tabs, record t { history = init t.history })
        ]).0
          ≡ some i
        → i < length t.tabs
    go none i e = absurd (ground arith)
    go (some p) i e = find_ptr-lt p t.tabs i e

-- The state after a tab has left the list and the history, before another is selected.
pub closed-IsTidy :
    (t : Tabs) (i : ℕ) (x : Tab) (cs : List Call)
    → IsTidy t
    → get_elem? t.tabs i ≡ some x
    → IsTidy (record t { tabs = remove_at t.tabs i; history = without x.ptr t.history; calls = cs })
closed-IsTidy t i x cs w e = record {
  once = λ p. omega (arith, w.once p, count-remove_at p t.tabs i x e);
  fresh = λ p h. omega (arith, w.fresh p h, count-remove_at p t.tabs i x e);
  recent = λ p c. ground (
    arith,
    contains-without x.ptr p t.history,
    w.recent p,
    w.once p,
    count-remove_at p t.tabs i x e,
  );
  bound = omega (arith, w.bound, length-without-le x.ptr t.history);
}
