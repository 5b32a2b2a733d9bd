-- ===== src/Marker.antt =====
-- lib/marker/marker.go: the marked messages of a list. The maps of the controller are objects, and
-- `Remark` makes two fields the same object, so the model has a heap: an address is an index of
-- `maps`. A map from UIDs to nothing is the list of its keys; the code promises no order of them. The
-- locks are left out: the widgets call the methods from one goroutine.
pub mod Valid
pub mod Marks
pub mod Visual
mod Tests
use aerc.Prelude.{
  ℕ, zero, suc, ◌+◌, ◌-◌, ◌<◌, Bool, true, false, not, ◌&&◌, ◌||◌, Option, none, some, List, [],
  ◌∷◌, ◌++◌, String, ltb, leb, ◌==◌, if◌then◌else◌, length, get_or, get_elem?, set, take, drop,
  contains, eqb, string_eq, Outcome, done, panic,
}
use aerc.Prelude.Int.{ℤ, pos, negsuc}

abbrev pub Uids : Type 0
Uids = List String

-- What the controller reads of its `UIDProvider` during one call.
pub record Provider : Type 0 where
  pub uids : Uids
  pub selected_index : ℤ

-- `visual_base` is nil until visual mode was entered on a message.
pub record Controller : Type 0 where
  pub maps : List Uids
  pub marked : ℕ
  pub last_marked : ℕ
  pub visual_start_uid : String
  pub visual_mark_mode : Bool
  pub visual_base : Option ℕ

unfoldable pub read : Controller → ℕ → Uids
read c a = get_or c.maps a []

abbrev pub write : ℕ → Uids → Controller → Controller
write a m c = record c { maps = set c.maps a m }

-- m[uid] = struct{}{}
abbrev pub insert : String → Uids → Uids
insert uid m = if contains m uid then m else uid ∷ m

abbrev pub insert_all : Uids → Uids → Uids
insert_all [] m = m
insert_all (uid ∷ uids) m = insert_all uids (insert uid m)

-- delete(m, uid)
abbrev pub remove : String → Uids → Uids
remove uid [] = []
remove uid (x ∷ m) = let rest = remove uid m in if eqb x uid then rest else x ∷ rest

unfoldable pub new : Controller
new = record {
  maps = [] ∷ [] ∷ [];
  marked = 0;
  last_marked = 1;
  visual_start_uid = "";
  visual_mark_mode = false;
  visual_base = none;
}

unfoldable pub is_marked : String → Controller → Bool
unfolding read
is_marked uid c = contains (read c c.marked) uid

unfoldable pub reset_mark : Controller → Controller
reset_mark c = record c { maps = c.maps ++ [] ∷ []; last_marked = c.marked; marked = length c.maps }

unfoldable pub clear_visual_mark : Controller → Controller
unfolding reset_mark
clear_visual_mark c = record (reset_mark c) { visual_mark_mode = false; visual_start_uid = "" }

unfoldable pub mark : String → Controller → Controller
unfolding read
mark uid c = if c.visual_mark_mode then c else write c.marked (insert uid (read c c.marked)) c

unfoldable pub unmark : String → Controller → Controller
unfolding read clear_visual_mark
unmark uid c =
    if c.visual_mark_mode
    then clear_visual_mark c
    else write c.marked (remove uid (read c c.marked)) c

-- The two fields become one map.
unfoldable pub remark : Controller → Controller
remark c = record c { marked = c.last_marked }

unfoldable pub toggle_mark : String → Controller → Controller
unfolding is_marked mark unmark
toggle_mark uid c =
    if c.visual_mark_mode then c else if is_marked uid c then unmark uid c else mark uid c

abbrev pub present_in : Uids → Uids → Uids
present_in uids [] = []
present_in uids (x ∷ m) = if contains uids x then x ∷ present_in uids m else present_in uids m

unfoldable pub remove_stale_uid : Provider → Controller → Controller
unfolding read
remove_stale_uid p c = write c.marked (present_in p.uids (read c c.marked)) c

-- `Marked`, which drops stale marks first.
unfoldable pub marked_uids : Provider → Controller → Uids × Controller
unfolding remove_stale_uid
marked_uids p c = let c' = remove_stale_uid p c in (read c' c'.marked, c')

-- The part of `ToggleVisualMark` behind the index test.
unfoldable pub start_visual : String → Controller → Controller
unfolding read
start_visual uid c =
    let m = insert uid (read c c.marked) in
    record c {
      maps = set c.maps c.marked m ++ m ∷ [];
      visual_start_uid = uid;
      visual_base = some (length c.maps);
    }

abbrev pub uid_at : Provider → Option String
uid_at p = elim p.selected_index [ pos i ↦ get_elem? p.uids i | negsuc i ↦ none ]

unfoldable pub toggle_visual_mark : Bool → Provider → Controller → Controller
unfolding reset_mark start_visual
toggle_visual_mark clear p c =
    if c.visual_mark_mode
    then record c { visual_mark_mode = false }
    else let c' = record c { visual_mark_mode = true } in
      let c'' = if clear then reset_mark c' else c' in
      elim (uid_at p) [ none ↦ c'' | some uid ↦ start_visual uid c'' ]

abbrev pub find_uid : String → Uids → Option ℕ
find_uid uid [] = none
find_uid uid (x ∷ xs) =
    if eqb x uid then some 0 else elim (find_uid uid xs) [ none ↦ none | some i ↦ some (i + 1) ]

-- `none` is Go's -1.
unfoldable pub visual_start_idx : Provider → Controller → Option ℕ
visual_start_idx p c = find_uid c.visual_start_uid p.uids

-- xs[lo:hi], of a slice without spare capacity
abbrev pub slice : Uids → ℕ → ℕ → Outcome Uids
slice xs lo hi = if leb lo hi && leb hi (length xs) then done (drop lo (take hi xs)) else panic

abbrev pub base_uids : Controller → Uids
base_uids c = elim c.visual_base [ none ↦ [] | some a ↦ get_or c.maps a [] ]

-- A new map with the base and the visual selection.
unfoldable pub mark_range : Uids → Controller → Controller
mark_range vis_uids c = record c {
  maps = c.maps ++ insert_all vis_uids (insert_all (base_uids c) []) ∷ [];
  marked = length c.maps;
}

abbrev pub range_of : Uids → ℕ → ℕ → Outcome Uids
range_of uids start_idx selected_idx =
    if ltb start_idx selected_idx
    then slice uids start_idx (selected_idx + 1)
    else slice uids selected_idx (start_idx + 1)

unfoldable pub update_selected : Provider → ℕ → Controller → Outcome Controller
unfolding mark_range
update_selected p start_idx c = elim p.selected_index [
  | negsuc i ↦ done c
  | pos i ↦ elim (range_of p.uids start_idx i) [
    | panic ↦ panic
    | done vis_uids ↦ done (mark_range vis_uids c)
  ]
]

unfoldable pub update_visual_mark : Provider → Controller → Outcome Controller
unfolding clear_visual_mark visual_start_idx update_selected
update_visual_mark p c = if not c.visual_mark_mode then done c else elim (visual_start_idx p c) [
  | none ↦ done (clear_visual_mark c)
  | some start_idx ↦ update_selected p start_idx c
]
