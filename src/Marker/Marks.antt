-- ===== src/Marker/Marks.antt =====
-- What the marks of lib/marker/marker.go are after each method.
use aerc.Prelude.{
  ◌≡◌, refl, ap, ◌∙◌, true, false, not, ◌&&◌, ◌||◌, [], ◌∷◌, String, arith, if◌then◌else◌, set,
  contains, eqb, string_eq, get_or-set_self, get_or-append, get_or-snoc,
}
use aerc.Marker.{
  Uids, Provider, Controller, read, mark, unmark, remark, toggle_mark, clear_visual_mark,
  marked_uids, is_marked, insert, insert_all, remove, present_in,
}
use aerc.Marker.Valid.{IsValid}

pub contains-insert :
    (u v : String) (m : Uids) → contains (insert u m) v ≡ (eqb u v || contains m v)
contains-insert u v m = ground (arith, string_eq.beq_iff u v)

pub contains-remove :
    (u v : String) (m : Uids) → contains (remove u m) v ≡ (if eqb u v then false else contains m v)
contains-remove u v [] = ground arith
contains-remove u v (x ∷ m) = ground (
  arith,
  contains-remove u v m,
  string_eq.beq_iff u v,
  string_eq.beq_iff x u,
  string_eq.beq_iff x v,
)

pub contains-insert_all :
    (us m : Uids) (v : String) → contains (insert_all us m) v ≡ (contains us v || contains m v)
contains-insert_all [] m v = refl
contains-insert_all (u ∷ us) m v =
    ground (arith, contains-insert_all us (insert u m) v, contains-insert u v m)

contains-present_in :
    (us m : Uids) (v : String) → contains (present_in us m) v ≡ (contains m v && contains us v)
contains-present_in us [] v = refl
contains-present_in us (x ∷ m) v = ground (arith, contains-present_in us m v, string_eq.beq_iff x v)

is_marked-write :
    (c : Controller) (m : Uids) (v : String)
    → IsValid c
    → is_marked v (record c { maps = set c.maps c.marked m }) ≡ contains m v
unfolding is_marked
is_marked-write c m v w =
    ap (λ (l : Uids). contains l v) (get_or-set_self c.maps c.marked m [] w.marked_live)

-- Outside visual mode `Mark` adds one UID, `Unmark` takes one away and `ToggleMark` flips one, and no
-- other mark changes; in visual mode `Mark` and `ToggleMark` do nothing, and `Unmark` ends the mode.
pub mark-unmark-toggle_mark :
    (c : Controller) (u v : String)
    → IsValid c
    → (c.visual_mark_mode ≡ false
        → (is_marked v (mark u c) ≡ (eqb u v || is_marked v c))
          × (is_marked v (unmark u c) ≡ (if eqb u v then false else is_marked v c))
          × (is_marked v (toggle_mark u c)
              ≡ (if eqb u v then not (is_marked v c) else is_marked v c)))
      × (c.visual_mark_mode ≡ true
          → (mark u c ≡ c) × (toggle_mark u c ≡ c) × (unmark u c ≡ clear_visual_mark c))
unfolding mark unmark toggle_mark
mark-unmark-toggle_mark c u v w = (
  λ off. (
    ground (arith, added, contains-insert u v (read c c.marked)),
    ground (arith, taken, contains-remove u v (read c c.marked)),
    ground (
      arith,
      added,
      taken,
      contains-insert u v (read c c.marked),
      contains-remove u v (read c c.marked),
      string_eq.beq_iff u v,
    ),
  ),
  λ on. (ground arith, ground arith, ground arith),
)
  where
    added :
        is_marked v (record c { maps = set c.maps c.marked (insert u (read c c.marked)) })
        ≡ contains (insert u (read c c.marked)) v
    added = is_marked-write c (insert u (read c c.marked)) v w

    taken :
        is_marked v (record c { maps = set c.maps c.marked (remove u (read c c.marked)) })
        ≡ contains (remove u (read c c.marked)) v
    taken = is_marked-write c (remove u (read c c.marked)) v w

-- `ClearVisualMark` leaves no mark, and `Remark` after it brings back exactly the marks before.
pub remark-clear_visual_mark :
    (c : Controller) (v : String)
    → IsValid c
    → (is_marked v (clear_visual_mark c) ≡ false)
      × (is_marked v (remark (clear_visual_mark c)) ≡ is_marked v c)
unfolding is_marked clear_visual_mark remark
remark-clear_visual_mark c v w = (
  ap (λ (l : Uids). contains l v) (get_or-snoc c.maps [] []),
  ap (λ (l : Uids). contains l v) (get_or-append c.maps ([] ∷ []) c.marked [] w.marked_live),
)

-- After `Remark` the marks and the last marks are one map: outside visual mode, a UID that is unmarked
-- then does not come back by another `Remark`, while every other UID of the last marks does.
pub remark-unmark-remark :
    (c : Controller) (u v : String)
    → IsValid c
    → c.visual_mark_mode ≡ false
    → is_marked v (remark (unmark u (remark c)))
      ≡ (if eqb u v then false else is_marked v (remark c))
unfolding is_marked remark unmark
remark-unmark-remark c u v w off = ground (
  arith,
  contains-remove u v (read c c.last_marked),
  get_or-set_self c.maps c.last_marked (remove u (read c c.last_marked)) [],
  w.last_live,
)

-- `Marked` returns exactly the marked UIDs that the list still has, and forgets the others.
pub marked_uids_lem :
    (p : Provider) (c : Controller) (v : String)
    → IsValid c
    → (contains (marked_uids p c).0 v ≡ (is_marked v c && contains p.uids v))
      × (is_marked v (marked_uids p c).1 ≡ (is_marked v c && contains p.uids v))
unfolding marked_uids is_marked
marked_uids_lem p c v w =
    let e =
      ap (λ (l : Uids). contains l v)
        (get_or-set_self c.maps c.marked (present_in p.uids (read c c.marked)) [] w.marked_live)
      ∙ contains-present_in p.uids (read c c.marked) v in
    (e, e)
