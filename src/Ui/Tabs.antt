-- ===== src/Ui/Tabs.antt =====
-- lib/ui/tab.go: the tabs, the selected one, and the history of selections. A `*Tab` is its address
-- `ptr`; its fields stand in the list of tabs, the only place through which the code changes them.
-- A `Drawable` is the identity of an interface value. Instead of calls of `Show` and `Focus` on the
-- contents that implement them, the state has the list of those calls. Drawing is left out.
pub mod WellFormed
pub mod Moves
pub mod Steps
pub mod Selection
pub mod Closing
pub mod Swaps
mod Tests
use aerc.Prelude.{
  ℕ, zero, suc, ◌+◌, ◌-◌, ◌%◌, Bool, true, false, not, ◌&&◌, ◌||◌, none, some, List, [], ◌∷◌, ◌++◌,
  map, String, ltb, leb, ◌==◌, if◌then◌else◌, length, get_elem?, set, remove_at, last?, init, drop,
  Outcome, done, panic, index, ◌>>=◌, eqb, string_eq,
}
use mathlib.Core.Option
use Prim.Native.String.{◌++◌ as ◌<>◌}
use mathlib.Core.Option.{Option}
use aerc.Prelude.Int.{ℤ, pos, negsuc, sub_ℕ, ◌+ℤ◌, ltb_ℤ}

abbrev pub Drawable : Type 0
Drawable = ℕ

-- `tab_title` is Go's `title`.
pub record Tab : Type 0 where
  pub ptr : ℕ
  pub content : Drawable
  pub name : String
  pub pinned : Bool
  pub index_before_pin : ℤ
  pub tab_title : String

unfoldable pub set_title : String → Tab → Tab
set_title s t = record t { tab_title = s }

unfoldable pub display_name : String → Tab → String
display_name pin_marker t =
    let name = if eqb t.tab_title "" then t.name else t.tab_title in
    if t.pinned then pin_marker <> name else name

-- `Show(b)` and `Focus(b)` on a content.
pub data Call : Type 0 where
  reveal hide : Drawable → Call

-- `next_ptr` is an address that no tab has had.
pub record Tabs : Type 0 where
  pub tabs : List Tab
  pub cur_index : ℕ
  pub history : List ℕ
  pub next_ptr : ℕ
  pub calls : List Call

abbrev pub without : ℕ → List ℕ → List ℕ
without x [] = []
without x (y ∷ ys) = if y == x then without x ys else y ∷ without x ys

unfoldable pub new_tabs : Tabs
new_tabs = record { tabs = []; cur_index = 0; history = []; next_ptr = 0; calls = [] }

unfoldable pub names : Tabs → List String
names t = map (λ (tab : Tab). tab.name) t.tabs

abbrev pub max_history : ℕ
max_history = 256

unfoldable pub push_history : ℕ → Tabs → Tabs
push_history tab t =
    let h = t.history ++ tab ∷ [] in
    record t { history = if ltb max_history (length h) then drop 1 h else h }

-- The index of the first tab with this address.
abbrev pub find_ptr : ℕ → List Tab → Option ℕ
find_ptr p [] = none
find_ptr p (x ∷ xs) = if x.ptr == p then some 0 else Option.map (λ i. i + 1) (find_ptr p xs)

-- `none` is Go's `-1, false`.
unfoldable pub pop_history : Tabs → Option ℕ × Tabs
pop_history t = elim (last? t.history) [
  | none ↦ (none, t)
  | some tab ↦ (find_ptr tab t.tabs, record t { history = init t.history })
]

unfoldable pub remove_history : ℕ → Tabs → Tabs
remove_history tab t = record t { history = without tab t.history }

-- The block of `selectPriv` on the tab that is left.
unfoldable pub unselect : Tabs → Tabs
unfolding push_history
unselect t = elim (get_elem? t.tabs t.cur_index) [
  | none ↦ t
  | some prev ↦ push_history prev.ptr (record t { calls = t.calls ++ hide prev.content ∷ [] })
]

unfoldable pub select_at : ℕ → Bool → Tabs → Bool × Tabs
unfolding unselect
select_at i unselect_prev t = elim (get_elem? t.tabs i) [
  | none ↦ (false, t)
  | some next ↦
      let t' = if unselect_prev then unselect t else t in
      (true, record t' { cur_index = i; calls = t'.calls ++ reveal next.content ∷ [] })
]

unfoldable pub select_priv : ℤ → Bool → Tabs → Bool × Tabs
unfolding select_at
select_priv (pos i) unselect_prev t = select_at i unselect_prev t
select_priv (negsuc i) unselect_prev t = (false, t)

abbrev pub new_tab : ℕ → Drawable → String → Tab
new_tab p content name = record {
  ptr = p;
  content = content;
  name = name;
  pinned = false;
  index_before_pin = pos 0;
  tab_title = "";
}

unfoldable pub add : Drawable → String → Bool → Tabs → Tabs
unfolding select_at
add content name background t =
    let t' = record t {
      tabs = t.tabs ++ new_tab t.next_ptr content name ∷ [];
      next_ptr = t.next_ptr + 1;
    } in
    if background then t' else (select_at (length t.tabs) true t').1

-- The index and the tab of the first tab with this content.
abbrev pub find_content : Drawable → List Tab → Option (ℕ × Tab)
find_content d [] = none
find_content d (x ∷ xs) =
    if x.content == d then some (0, x) else Option.map (λ (i, y). (i + 1, y)) (find_content d xs)

-- The index to select when the selected tab was closed: that of the popped history or, if there is
-- none, that of the tab on the right, or else of the now last tab.
unfoldable pub close_target : Option ℕ → Tabs → ℤ
close_target (some i) t = pos i
close_target none t =
    if ltb t.cur_index (length t.tabs) then pos t.cur_index else sub_ℕ (length t.tabs) 1

unfoldable pub select_after_close : Tabs → Tabs
unfolding close_target
select_after_close t =
    let (popped, t') = pop_history t in (select_priv (close_target popped t') false t').1

unfoldable pub remove_found : ℕ → Tab → Tabs → Tabs
unfolding remove_history
remove_found i tab t =
    let t' =
      remove_history tab.ptr
        (record t { tabs = remove_at t.tabs i; calls = t.calls ++ hide tab.content ∷ [] }) in
    if i == t.cur_index
    then select_after_close t'
    else if ltb i t.cur_index
    then (select_priv (pos (t.cur_index - 1)) false t').1
    else t'

unfoldable pub remove : Drawable → Tabs → Tabs
remove content t = elim (find_content content t.tabs) [
  | none ↦ t
  | some (i, tab) ↦ remove_found i tab t
]

unfoldable pub replace : Drawable → Drawable → String → Tabs → Tabs
unfolding select_priv
replace content_src content_target name t = elim (find_content content_src t.tabs) [
  | none ↦ t
  | some (i, tab) ↦
      (select_priv (pos i) false (record t {
        tabs = set t.tabs i (record tab { content = content_target; tab_title = name });
        calls = t.calls ++ hide tab.content ∷ [];
      })).1
]

-- `none` is Go's nil.
unfoldable pub get : ℤ → Tabs → Option Tab
get (pos i) t = get_elem? t.tabs i
get (negsuc i) t = none

unfoldable pub selected : Tabs → Option Tab
selected t = get_elem? t.tabs t.cur_index

-- `TabContent.Draw` as far as it picks a content: it goes on after the test for an index out of range.
unfoldable pub content_draw : Tabs → Outcome Drawable
content_draw t = do tab ← index t.tabs t.cur_index; done tab.content

unfoldable pub select : ℤ → Tabs → Bool × Tabs
unfolding select_priv
select i t = select_priv i true t

-- The index of the first tab with this name.
abbrev pub find_name : String → List Tab → Option ℕ
find_name n [] = none
find_name n (x ∷ xs) = if eqb x.name n then some 0 else Option.map (λ i. i + 1) (find_name n xs)

unfoldable pub select_name : String → Tabs → Bool × Tabs
unfolding select_priv
select_name n t = elim (find_name n t.tabs) [
  | none ↦ (false, t)
  | some i ↦ select_priv (pos i) true t
]

unfoldable pub select_previous : Tabs → Bool × Tabs
select_previous t =
    let (popped, t') = pop_history t in
    elim popped [ none ↦ (false, t') | some i ↦ select_priv (pos i) true t' ]

unfoldable pub next_index : Tabs → ℕ
next_index t = if leb (length t.tabs) (t.cur_index + 1) then 0 else t.cur_index + 1

unfoldable pub next_tab : Tabs → Tabs
next_tab t = (select_priv (pos (next_index t)) true t).1

unfoldable pub prev_index : Tabs → ℤ
prev_index t = if t.cur_index == 0 then sub_ℕ (length t.tabs) 1 else pos (t.cur_index - 1)

unfoldable pub prev_tab : Tabs → Tabs
prev_tab t = (select_priv (prev_index t) true t).1
