-- ===== src/Ui/Tabs/Moves.antt =====
-- lib/ui/tab.go: the operations that move the selected tab or choose a tab by an offset. Those that
-- index the slice of tabs, or divide by its length, panic where there is no tab.
use aerc.Prelude.{
  ℕ, suc, ◌+◌, Bool, true, false, not, ◌&&◌, List, [], ◌∷◌, map, ◌==◌, if◌then◌else◌, length, set,
  Outcome, done, panic, index, ◌>>=◌,
}
use aerc.Prelude.Int.{ℤ, pos, negsuc, sub_ℕ, ◌+ℤ◌, ◌-ℤ◌, ltb_ℤ, rem}
use aerc.Ui.Tabs.{Tab, Tabs, select_priv}

unfoldable pub offset_index : ℤ → Tabs → ℤ
unfolding ◌+ℤ◌
offset_index offset t =
    let r = rem (pos t.cur_index +ℤ offset) (length t.tabs) in
    if ltb_ℤ r (pos 0) then r +ℤ pos (length t.tabs) else r

-- The remainder of a division by 0 is a panic.
unfoldable pub select_offset : ℤ → Tabs → Outcome Tabs
select_offset offset t =
    if length t.tabs == 0 then panic else done (select_priv (offset_index offset t) true t).1

-- xs[i] with an `int` index
abbrev pub index_int : List Tab → ℤ → Outcome Tab
index_int xs (pos i) = index xs i
index_int xs (negsuc i) = panic

abbrev pub to_index : ℤ → ℕ
to_index (pos i) = i
to_index (negsuc i) = 0

-- The target of a move: within the tabs, but -1 where there is none.
unfoldable pub move_target : ℤ → Bool → Tabs → ℤ
unfolding ◌+ℤ◌
move_target to relative t =
    let to' = if relative then pos t.cur_index +ℤ to else to in
    let to'' = if ltb_ℤ to' (pos 0) then pos 0 else to' in
    if ltb_ℤ to'' (pos (length t.tabs)) then to'' else sub_ℕ (length t.tabs) 1

unfoldable pub move_tab_priv : ℤ → Bool → Tabs → Outcome Tabs
unfolding move_target
move_tab_priv to relative t =
    let target = move_target to relative t in
    do
      a ← index t.tabs t.cur_index
      b ← index_int t.tabs target
      done (record t {
        tabs = set (set t.tabs t.cur_index b) (to_index target) a;
        cur_index = to_index target;
      })

unfoldable pub move_tab : ℤ → Bool → Tabs → Outcome Tabs
unfolding move_tab_priv
move_tab = move_tab_priv

-- The index of the first tab that is not pinned.
abbrev pub pin_end : List Tab → ℕ
pin_end [] = 0
pin_end (x ∷ xs) = if x.pinned then suc (pin_end xs) else 0

unfoldable pub lower_after : ℤ → Tab → Tab
unfolding ◌-ℤ◌
lower_after at x =
    if x.pinned && ltb_ℤ at x.index_before_pin
    then record x { index_before_pin = x.index_before_pin -ℤ pos 1 }
    else x

unfoldable pub pin_tab : Tabs → Outcome Tabs
unfolding lower_after move_tab_priv
pin_tab t = do
  tab ← index t.tabs t.cur_index
  let at = sub_ℕ t.cur_index (pin_end t.tabs)
  if tab.pinned
      then done t
      else move_tab_priv (pos (pin_end t.tabs)) false (record t {
        tabs =
            set (map (lower_after at) t.tabs) t.cur_index
              (record tab { pinned = true; index_before_pin = at });
      })

-- The loop of `UnpinTab`, which ends at the first tab that is not pinned.
unfoldable pub raise_after : ℕ → ℕ → ℤ → List Tab → List Tab
unfolding ◌+ℤ◌
raise_after i cur at [] = []
raise_after i cur at (x ∷ xs) =
    let rest = raise_after (i + 1) cur at xs in
    let x' =
      if not (i == cur) && x.pinned && ltb_ℤ at x.index_before_pin
      then record x { index_before_pin = x.index_before_pin +ℤ pos 1 }
      else x in
    if x.pinned then x' ∷ rest else x' ∷ xs

unfoldable pub unpin_tab : Tabs → Outcome Tabs
unfolding raise_after move_tab_priv ◌+ℤ◌ ◌-ℤ◌
unpin_tab t = do
  tab ← index t.tabs t.cur_index
  if not tab.pinned
      then done t
      else move_tab_priv (tab.index_before_pin +ℤ pos (pin_end t.tabs) -ℤ pos 1) false (record t {
        tabs =
            set (raise_after 0 t.cur_index tab.index_before_pin t.tabs) t.cur_index
              (record tab { pinned = false });
      })
