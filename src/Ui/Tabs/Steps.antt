-- ===== src/Ui/Tabs/Steps.antt =====
-- Every operation of lib/ui/tab.go as a step, and that the steps keep the invariant and do not panic.
use mathlib.Core.Option.{Option}
use aerc.Prelude.{
  ℕ, ◌<◌, ◌≡◌, refl, ap, Bool, true, false, none, some, arith, String, ◌==◌, length, inl, inr,
  Option-cases, Outcome, done,
}
use aerc.Prelude.Int.{ℤ, pos}
use aerc.Ui.Tabs.{
  Drawable, Tabs, add, remove, replace, select, select_name, find_name, select_previous, next_tab,
  next_index, prev_tab, prev_index, pop_history, select_priv,
}
use aerc.Ui.Tabs.Moves.{select_offset, offset_index, move_tab, pin_tab, unpin_tab}
use aerc.Ui.Tabs.Closing.{add-IsWellFormed, remove-IsWellFormed, replace-IsWellFormed}
use aerc.Ui.Tabs.Swaps.{pin_tab-IsWellFormed, unpin_tab-IsWellFormed, move_tab-IsWellFormed}
use aerc.Ui.Tabs.WellFormed.{
  IsWellFormed, pop_history-IsTidy, pop_history_lem, select_priv-IsWellFormed,
}

pub data Op : Type 0 where
  add_tab : Drawable → String → Bool → Op
  remove_tab : Drawable → Op
  replace_tab : Drawable → Drawable → String → Op
  select_tab : ℤ → Op
  select_named : String → Op
  go_back : Op
  offset : ℤ → Op
  move : ℤ → Bool → Op
  pin unpin next prev : Op

abbrev pub run : Op → Tabs → Outcome Tabs
run (add_tab d n b) t = done (add d n b t)
run (remove_tab d) t = done (remove d t)
run (replace_tab a b n) t = done (replace a b n t)
run (select_tab i) t = done (select i t).1
run (select_named n) t = done (select_name n t).1
run go_back t = done (select_previous t).1
run (offset i) t = select_offset i t
run (move i r) t = move_tab i r t
run pin t = pin_tab t
run unpin t = unpin_tab t
run next t = done (next_tab t)
run prev t = done (prev_tab t)

pub select_name-IsWellFormed :
    (n : String) (t : Tabs) → IsWellFormed t → IsWellFormed (select_name n t).1
unfolding select_name
select_name-IsWellFormed n t w = elim (Option-cases (find_name n t.tabs)) [
  | inl e ↦ rw (e, select_name) w
  | inr (i, e) ↦ rw (e, select_name) (select_priv-IsWellFormed (pos i) true t w)
]

pub select_previous-IsWellFormed : (t : Tabs) → IsWellFormed t → IsWellFormed (select_previous t).1
unfolding select_previous
select_previous-IsWellFormed t w =
    let (tabs, cur, inside) = pop_history_lem t in
    let popped : IsWellFormed (pop_history t).1 = record {
      tidy = pop_history-IsTidy t w.tidy;
      current = omega (arith, w.current, ap length tabs, cur);
    } in
    go (pop_history t).0 popped
  where
    go :
        (o : Option ℕ)
        → IsWellFormed (pop_history t).1
        → IsWellFormed
            (elim o as (λ _. Bool × Tabs) [
              | none ↦ (false, (pop_history t).1)
              | some i ↦ select_priv (pos i) true (pop_history t).1
            ]).1
    go none p = p
    go (some i) p = select_priv-IsWellFormed (pos i) true (pop_history t).1 p

select_offset_lem :
    (z : ℤ) (t : Tabs)
    → 0 < length t.tabs
    → select_offset z t ≡ done (select_priv (offset_index z t) true t).1
unfolding select_offset
select_offset_lem z t h = let e : (length t.tabs == 0) ≡ false = ground arith in rw e refl

-- With a tab open, every operation of the tab bar returns without a panic, and keeps the invariant:
-- the selected index is in range, no tab stands twice, and the history holds at most 256 tabs, all of
-- them open.
pub run-IsWellFormed :
    (op : Op) (t : Tabs)
    → IsWellFormed t
    → 0 < length t.tabs
    → (t' : Tabs) × (run op t ≡ done t') × IsWellFormed t'
unfolding select next_tab prev_tab
run-IsWellFormed (add_tab d n b) t w h = (_, refl, add-IsWellFormed d n b t w)
run-IsWellFormed (remove_tab d) t w h = (_, refl, remove-IsWellFormed d t w)
run-IsWellFormed (replace_tab a b n) t w h = (_, refl, replace-IsWellFormed a b n t w)
run-IsWellFormed (select_tab i) t w h = (_, refl, select_priv-IsWellFormed i true t w)
run-IsWellFormed (select_named n) t w h = (_, refl, select_name-IsWellFormed n t w)
run-IsWellFormed go_back t w h = (_, refl, select_previous-IsWellFormed t w)
run-IsWellFormed (offset i) t w h =
    (_, select_offset_lem i t h, select_priv-IsWellFormed (offset_index i t) true t w)
run-IsWellFormed (move i r) t w h = move_tab-IsWellFormed i r t w h
run-IsWellFormed pin t w h = pin_tab-IsWellFormed t w h
run-IsWellFormed unpin t w h = unpin_tab-IsWellFormed t w h
run-IsWellFormed next t w h = (_, refl, select_priv-IsWellFormed (pos (next_index t)) true t w)
run-IsWellFormed prev t w h = (_, refl, select_priv-IsWellFormed (prev_index t) true t w)
