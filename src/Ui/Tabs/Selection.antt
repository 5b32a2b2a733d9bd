-- ===== src/Ui/Tabs/Selection.antt =====
-- Which tab lib/ui/tab.go shows after a selection, and after a tab is closed.
use aerc.Prelude.{
  last?, last?-snoc, init, drop, ℕ, zero, suc, ◌-◌, ◌≤◌, ◌<◌, ◌≡◌, refl, ◌∙◌, true, some, List, [],
  ◌∷◌, ◌++◌, arith, ◌==◌, if◌then◌else◌, length, length-append, get_elem?, get_elem?-within,
  lt_of_get_elem?,
}
use aerc.Prelude.Int.{ℤ, pos}
use aerc.Ui.Tabs.{
  find_ptr, Tab, Tabs, select, select_previous, next_tab, next_index, prev_tab, prev_index,
  pop_history, select_priv, select_at,
}
use aerc.Ui.Tabs.WellFormed.{
  count-get_elem?, select_at-IsTidy, IsTidy, IsWellFormed, count, select_at_lem,
}

find_ptr-once :
    (p : ℕ) (xs : List Tab) (i : ℕ) (x : Tab)
    → get_elem? xs i ≡ some x
    → x.ptr ≡ p
    → count p xs ≤ 1
    → find_ptr p xs ≡ some i
find_ptr-once p [] i x e q o = absurd (ground arith)
find_ptr-once p (y ∷ ys) zero x e q o = ground arith
find_ptr-once p (y ∷ ys) (suc i) x e q o =
    ground (arith, find_ptr-once p ys i x e q, count-get_elem? ys i x e)

last?-drop_one : (h : List ℕ) (p : ℕ) → 0 < length h → last? (drop 1 (h ++ p ∷ [])) ≡ some p
last?-drop_one [] p l = absurd (omega arith)
last?-drop_one (y ∷ ys) p l = last?-snoc ys p

-- The state after a selection in range that leaves another tab.
select_at_within :
    (i : ℕ) (t : Tabs) (x : Tab)
    → i < length t.tabs
    → get_elem? t.tabs t.cur_index ≡ some x
    → (last? (select_at i true t).1.history ≡ some x.ptr) × ((select_at i true t).1.tabs ≡ t.tabs)
unfolding select_at
select_at_within i t x h e =
    let (y, g) = get_elem?-within t.tabs i h in
    (
      ground (
        arith,
        e,
        g,
        last?-snoc t.history x.ptr,
        last?-drop_one t.history x.ptr,
        length-append t.history (x.ptr ∷ []),
      ),
      ground (arith, e, g),
    )

-- `SelectPrevious`, where the end of the history is the tab at `k`.
select_previous_to :
    (t : Tabs) (k : ℕ) (x : Tab)
    → IsTidy t
    → last? t.history ≡ some x.ptr
    → get_elem? t.tabs k ≡ some x
    → ((select_previous t).0 ≡ true)
      × ((select_previous t).1.cur_index ≡ k)
      × ((select_previous t).1.tabs ≡ t.tabs)
unfolding select_previous select_priv
select_previous_to t k x w l e =
    let f = find_ptr-once x.ptr t.tabs k x e refl (w.once x.ptr) in
    let u : Tabs = record t { history = init t.history } in
    let (tabs, ok, _) = select_at_lem k true u in
    let q : pop_history t ≡ (some k, u) = unfold pop_history in rw (l, pop_history, f) refl in
    let p : select_previous t ≡ select_at k true u = previous_at q in
    let (yes', at) = ok (lt_of_get_elem? t.tabs k x e) in rw p (yes', at, tabs)
  where
    previous_at : {u : Tabs} → pop_history t ≡ (some k, u) → select_previous t ≡ select_at k true u
    previous_at q = ground arith

-- `SelectPrevious` undoes `Select`: from a well-formed state, and for an index in range, the two
-- together return to the tab that was selected.
pub select_previous-select :
    (i : ℕ) (t : Tabs)
    → IsWellFormed t
    → i < length t.tabs
    → ((select_previous (select (pos i) t).1).0 ≡ true)
      × ((select_previous (select (pos i) t).1).1.cur_index ≡ t.cur_index)
      × ((select_previous (select (pos i) t).1).1.tabs ≡ t.tabs)
unfolding select select_priv
select_previous-select i t w h =
    let (x, e) = get_elem?-within t.tabs t.cur_index (omega (arith, w.current)) in
    let (l, tabs) = select_at_within i t x h e in
    let (a, b, c) =
      select_previous_to (select_at i true t).1 t.cur_index x (select_at-IsTidy i true t w.tidy) l
        (rw tabs e) in
    (a, b, c ∙ tabs)

next_index-lt : (t : Tabs) → 0 < length t.tabs → next_index t < length t.tabs
unfolding next_index
next_index-lt t h = ground arith

select_priv_cur :
    (z : ℤ) (i : ℕ) (t : Tabs)
    → z ≡ pos i
    → i < length t.tabs
    → ((select_priv z true t).1.cur_index ≡ i) × ((select_priv z true t).1.tabs ≡ t.tabs)
select_priv_cur z i t e h =
    let (tabs, ok, _) = select_at_lem i true t in rw e (unfold select_priv in ((ok h).1, tabs))

next_cur :
    (t : Tabs)
    → 0 < length t.tabs
    → ((next_tab t).cur_index ≡ next_index t) × ((next_tab t).tabs ≡ t.tabs)
unfolding next_tab
next_cur t h = select_priv_cur (pos (next_index t)) (next_index t) t refl (next_index-lt t h)

prev_cur :
    (t : Tabs)
    → t.cur_index < length t.tabs
    → ((prev_tab t).cur_index ≡ (if t.cur_index == 0 then length t.tabs - 1 else t.cur_index - 1))
      × ((prev_tab t).tabs ≡ t.tabs)
unfolding prev_tab prev_index
prev_cur t h = select_priv_cur (prev_index t) _ t (ground arith) (ground arith)

-- `NextTab` and `PrevTab` undo one another: where a tab is open, either of them after the other
-- returns to the selected index, with the same tabs.
pub next_tab-prev_tab :
    (t : Tabs)
    → IsWellFormed t
    → 0 < length t.tabs
    → ((prev_tab (next_tab t)).cur_index ≡ t.cur_index)
      × ((next_tab (prev_tab t)).cur_index ≡ t.cur_index)
      × ((prev_tab (next_tab t)).tabs ≡ t.tabs)
      × ((next_tab (prev_tab t)).tabs ≡ t.tabs)
unfolding next_index
next_tab-prev_tab t w h =
    let cur : t.cur_index < length t.tabs = omega (arith, w.current) in
    let n = next_cur t h in
    let p = prev_cur t cur in
    let pn = prev_cur (next_tab t) (ground arith) in
    let np = next_cur (prev_tab t) (ground arith) in
    (ground arith, ground arith, pn.1 ∙ n.1, np.1 ∙ p.1)
