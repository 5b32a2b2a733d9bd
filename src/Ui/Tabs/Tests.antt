-- ===== src/Ui/Tabs/Tests.antt =====
-- lib/ui/tab.go on three open tabs, and the theorems at them.
use aerc.Prelude.{ℕ, ◌≡◌, ◌≢◌, refl, true, [], ◌∷◌, arith, remove_at, nat_eq, done, panic}
use aerc.Prelude.Int.{pos, negsuc}
use aerc.Ui.Tabs.{
  Tabs, new_tab, select, select_previous, pop_history, select_priv, remove, remove_found,
  select_after_close, selected, content_draw,
}
use aerc.Ui.Tabs.Moves.{select_offset, offset_index}
use aerc.Ui.Tabs.WellFormed.{IsWellFormed}
use aerc.Ui.Tabs.Steps.{unpin, run, run-IsWellFormed}
use aerc.Ui.Tabs.Closing.{remove_lem, content_draw-remove}
use aerc.Ui.Tabs.Selection.{select_previous-select}

-- An account tab, a message and a composer; the message is selected, the account was before it.
abbrev three : Tabs
three = record {
  tabs = new_tab 0 10 "inbox" ∷ new_tab 1 11 "message" ∷ new_tab 2 12 "compose" ∷ [];
  cur_index = 1;
  history = 0 ∷ [];
  next_ptr = 3;
  calls = [];
}

abbrev single : Tabs
single = record {
  tabs = new_tab 0 10 "inbox" ∷ [];
  cur_index = 0;
  history = [];
  next_ptr = 1;
  calls = [];
}

three-IsWellFormed : IsWellFormed three
three-IsWellFormed = record {
  tidy = record {
    once = λ p. ground arith;
    fresh = λ p h. ground arith;
    recent = λ p c. ground arith;
    bound = omega arith;
  };
  current = omega arith;
}

single-IsWellFormed : IsWellFormed single
single-IsWellFormed = record {
  tidy = record {
    once = λ p. ground arith;
    fresh = λ p h. ground arith;
    recent = λ p c. ground arith;
    bound = omega arith;
  };
  current = omega arith;
}

-- Closing the selected message goes back to the account.
close_goes_back : (remove 11 three).cur_index ≡ 0
unfolding remove remove_found select_after_close pop_history select_priv
close_goes_back = refl

back_by_two : (t : Tabs) × (select_offset (negsuc 2) three ≡ done t) × (t.cur_index ≡ 1)
unfolding select_offset offset_index select_priv
back_by_two = (_, refl, refl)

run-IsWellFormed_example : (t' : Tabs) × (run unpin three ≡ done t') × IsWellFormed t'
run-IsWellFormed_example = run-IsWellFormed unpin three three-IsWellFormed (omega arith)

select_previous-select_example :
    ((select_previous (select (pos 2) three).1).0 ≡ true)
    × ((select_previous (select (pos 2) three).1).1.cur_index ≡ 1)
    × ((select_previous (select (pos 2) three).1).1.tabs ≡ three.tabs)
select_previous-select_example = select_previous-select 2 three three-IsWellFormed (omega arith)

remove_lem_example :
    ((remove 12 three).tabs ≡ remove_at three.tabs 2)
    × (◌≢◌ {A = ℕ} 2 1 → selected (remove 12 three) ≡ selected three)
remove_lem_example = remove_lem 12 three 2 (new_tab 2 12 "compose") three-IsWellFormed refl

content_draw-remove_example : content_draw (remove 10 single) ≡ panic
content_draw-remove_example =
    content_draw-remove 10 single 0 (new_tab 0 10 "inbox") single-IsWellFormed refl refl
