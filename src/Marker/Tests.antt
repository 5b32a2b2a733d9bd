-- ===== src/Marker/Tests.antt =====
-- lib/marker/marker.go on a list of three messages, and the theorems at it.
use aerc.Prelude.{
  ℕ, ◌≡◌, ◌≤◌, ◌↔◌, ◌⊎◌, refl, true, false, some, [], ◌∷◌, done, arith, eqb, contains, get_elem?,
  String, string_eq, if◌then◌else◌,
}
use aerc.Prelude.Int.{pos}
use Prim.Native.Nat.{min, max}
use aerc.Marker.{
  Provider, Controller, new, mark, unmark, remark, is_marked, start_visual, reset_mark,
  toggle_visual_mark, read, visual_start_idx, update_visual_mark, base_uids,
}
use aerc.Marker.Valid.{IsValid, new-IsValid, op_mark, op_visual, run, Ends, run-Ends}
use aerc.Marker.Marks.{remark-unmark-remark}
use aerc.Marker.Visual.{update_visual_mark_lem}

abbrev three : Provider
three = record { uids = "a" ∷ "b" ∷ "c" ∷ []; selected_index = pos 2 }

abbrev moved : Provider
moved = record { uids = "a" ∷ "b" ∷ "c" ∷ []; selected_index = pos 0 }

abbrev one_mark : Controller
unfolding new mark read
one_mark = mark "b" new

one_mark-IsValid : IsValid one_mark
unfolding one_mark
one_mark-IsValid = run-Ends (op_mark "b") new new-IsValid

abbrev selecting : Controller
unfolding one_mark toggle_visual_mark start_visual reset_mark read
selecting = toggle_visual_mark false three one_mark

run-Ends_example : Ends (run (op_visual false three) one_mark)
run-Ends_example = run-Ends (op_visual false three) one_mark one_mark-IsValid

one_mark-mode : one_mark.visual_mark_mode ≡ false
unfolding one_mark
one_mark-mode = refl

remark-unmark-remark_example :
    is_marked "b" (remark (unmark "b" (remark one_mark)))
    ≡ (if eqb {A = String} "b" "b" then false else is_marked "b" (remark one_mark))
remark-unmark-remark_example = remark-unmark-remark one_mark "b" "b" one_mark-IsValid one_mark-mode

selecting-mode : selecting.visual_mark_mode ≡ true
unfolding selecting
selecting-mode = refl

selecting-start : visual_start_idx moved selecting ≡ some 2
unfolding selecting visual_start_idx
selecting-start = refl

-- `c` was selected at the start and `a` is now: `b`, between them, is marked.
update_visual_mark_lem_example :
    (c' : Controller) × (update_visual_mark moved selecting ≡ done c')
    × ((is_marked "b" c' ≡ true) ↔ (
        (contains (base_uids selecting) "b" ≡ true)
        ⊎ ((j : ℕ) × (min 2 0 ≤ j) × (j ≤ max 2 0) × (get_elem? moved.uids j ≡ some "b"))))
update_visual_mark_lem_example =
    update_visual_mark_lem moved selecting 2 0 "b" selecting-mode selecting-start refl (omega arith)
