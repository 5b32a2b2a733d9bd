-- ===== src/Marker/Valid.antt =====
-- The addresses that the controller of lib/marker/marker.go holds stay those of live maps, and the
-- base of a visual selection stays apart from the marks.
use aerc.Prelude.{
  ℕ, ◌<◌, ◌≢◌, Bool, true, false, not, Option, none, some, [], ◌∷◌, String, arith, length,
  length-append, length-set, set, string_eq, Outcome, done, panic, if_both,
}
use aerc.Prelude.Int.{ℤ, pos, negsuc}
use aerc.Marker.{
  Uids, Provider, Controller, read, mark, unmark, remark, toggle_mark, reset_mark,
  clear_visual_mark, remove_stale_uid, start_visual, toggle_visual_mark, mark_range,
  update_selected, update_visual_mark, uid_at, range_of, visual_start_idx, new, is_marked, insert,
  insert_all, base_uids,
}

-- An address of `c` that is not that of the marks.
abbrev pub IsBase : Controller → Option ℕ → Type 0
IsBase c none = Unit
IsBase c (some a) = (a < length c.maps) × (a ≢ c.marked) × (a ≢ c.last_marked)

pub record IsValid (c : Controller) : Type 0 where
  pub marked_live : c.marked < length c.maps
  pub last_live : c.last_marked < length c.maps
  pub base_live : IsBase c c.visual_base

pub new-IsValid : IsValid new
unfolding new
new-IsValid = record { marked_live = omega arith; last_live = omega arith; base_live = tt }

pub data Op : Type 0 where
  op_mark op_unmark op_toggle : String → Op
  op_remark op_clear : Op
  op_stale : Provider → Op
  op_visual : Bool → Provider → Op
  op_update : Provider → Op

abbrev pub run : Op → Controller → Outcome Controller
run (op_mark u) c = done (mark u c)
run (op_unmark u) c = done (unmark u c)
run (op_toggle u) c = done (toggle_mark u c)
run op_remark c = done (remark c)
run op_clear c = done (clear_visual_mark c)
run (op_stale p) c = done (remove_stale_uid p c)
run (op_visual b p) c = done (toggle_visual_mark b p c)
run (op_update p) c = update_visual_mark p c

-- A write changes no address.
write-IsValid :
    (a : ℕ) (m : Uids) (c : Controller) → IsValid c → IsValid (record c { maps = set c.maps a m })
write-IsValid a m c v = record {
  marked_live = rw (length-set c.maps a m) v.marked_live;
  last_live = rw (length-set c.maps a m) v.last_live;
  base_live = go c.visual_base v.base_live;
}
  where
    go : (b : Option ℕ) → IsBase c b → IsBase (record c { maps = set c.maps a m }) b
    go none h = tt
    go (some b) h = ground (arith, length-set c.maps a m)

reset-IsValid : (c : Controller) → IsValid c → IsValid (reset_mark c)
unfolding reset_mark
reset-IsValid c v = record {
  marked_live = omega (arith, length-append c.maps ([] ∷ []));
  last_live = omega (arith, v.marked_live, length-append c.maps ([] ∷ []));
  base_live = go c.visual_base v.base_live;
}
  where
    go : (b : Option ℕ) → IsBase c b → IsBase (reset_mark c) b
    go none h = tt
    go (some b) h = ground (arith, length-append c.maps ([] ∷ []))

-- The mode and the start of a visual selection play no part.
mode-IsValid :
    (c : Controller) (b : Bool) (u : String)
    → IsValid c
    → IsValid (record c { visual_mark_mode = b; visual_start_uid = u })
mode-IsValid c b u v = record {
  marked_live = v.marked_live;
  last_live = v.last_live;
  base_live = go c.visual_base v.base_live;
}
  where
    go :
        (o : Option ℕ)
        → IsBase c o
        → IsBase (record c { visual_mark_mode = b; visual_start_uid = u }) o
    go none h = tt
    go (some a) h = h

clear-IsValid : (c : Controller) → IsValid c → IsValid (clear_visual_mark c)
unfolding clear_visual_mark
clear-IsValid c v = mode-IsValid (reset_mark c) false "" (reset-IsValid c v)

mark-IsValid : (u : String) (c : Controller) → IsValid c → IsValid (mark u c)
unfolding mark
mark-IsValid u c v = if_both IsValid c.visual_mark_mode _ _ v (write-IsValid c.marked _ c v)

unmark-IsValid : (u : String) (c : Controller) → IsValid c → IsValid (unmark u c)
unfolding unmark
unmark-IsValid u c v =
    if_both IsValid c.visual_mark_mode _ _ (clear-IsValid c v) (write-IsValid c.marked _ c v)

toggle-IsValid : (u : String) (c : Controller) → IsValid c → IsValid (toggle_mark u c)
unfolding toggle_mark
toggle-IsValid u c v =
    if_both IsValid c.visual_mark_mode _ _ v
      (if_both IsValid (is_marked u c) _ _ (unmark-IsValid u c v) (mark-IsValid u c v))

remark-IsValid : (c : Controller) → IsValid c → IsValid (remark c)
unfolding remark
remark-IsValid c v = record {
  marked_live = v.last_live;
  last_live = v.last_live;
  base_live = go c.visual_base v.base_live;
}
  where
    go : (b : Option ℕ) → IsBase c b → IsBase (remark c) b
    go none h = tt
    go (some a) h = (h.0, h.2, h.2)

stale-IsValid : (p : Provider) (c : Controller) → IsValid c → IsValid (remove_stale_uid p c)
unfolding remove_stale_uid
stale-IsValid p c v = write-IsValid c.marked _ c v

start_visual-IsValid : (u : String) (c : Controller) → IsValid c → IsValid (start_visual u c)
unfolding start_visual
start_visual-IsValid u c v =
    let m = insert u (read c c.marked) in
    record {
      marked_live = omega (
        arith,
        v.marked_live,
        length-append (set c.maps c.marked m) (m ∷ []),
        length-set c.maps c.marked m,
      );
      last_live = omega (
        arith,
        v.last_live,
        length-append (set c.maps c.marked m) (m ∷ []),
        length-set c.maps c.marked m,
      );
      base_live = (
        omega (arith, length-append (set c.maps c.marked m) (m ∷ []), length-set c.maps c.marked m),
        omega (arith, v.marked_live),
        omega (arith, v.last_live),
      );
    }

toggle_visual-IsValid :
    (b : Bool) (p : Provider) (c : Controller) → IsValid c → IsValid (toggle_visual_mark b p c)
unfolding toggle_visual_mark
toggle_visual-IsValid b p c v =
    let on = mode-IsValid c true c.visual_start_uid v in
    let off = mode-IsValid c false c.visual_start_uid v in
    if_both IsValid c.visual_mark_mode _ _ off
      (go (uid_at p) _ (if_both IsValid b _ _ (reset-IsValid _ on) on))
  where
    go :
        (o : Option String) (c' : Controller)
        → IsValid c'
        → IsValid (elim o as (λ _. Controller) [ none ↦ c' | some uid ↦ start_visual uid c' ])
    go none c' h = h
    go (some uid) c' h = start_visual-IsValid uid c' h

mark_range-IsValid : (us : Uids) (c : Controller) → IsValid c → IsValid (mark_range us c)
unfolding mark_range
mark_range-IsValid us c v =
    let m = insert_all us (insert_all (base_uids c) []) in
    record {
      marked_live = omega (arith, length-append c.maps (m ∷ []));
      last_live = omega (arith, v.last_live, length-append c.maps (m ∷ []));
      base_live = go m c.visual_base v.base_live;
    }
  where
    go : (m : Uids) (b : Option ℕ) → IsBase c b → IsBase (mark_range us c) b
    go m none h = tt
    go m (some a) h = (
      omega (arith, length-append c.maps (insert_all us (insert_all (base_uids c) []) ∷ [])),
      omega arith,
      h.2,
    )

-- An outcome that is valid, if it is not a panic.
abbrev pub Ends : Outcome Controller → Type 0
Ends panic = Unit
Ends (done c) = IsValid c

update-Ends : (p : Provider) (c : Controller) → IsValid c → Ends (update_visual_mark p c)
unfolding update_visual_mark
update-Ends p c v = if_both Ends (not c.visual_mark_mode) _ _ v (start (visual_start_idx p c))
  where
    ranged :
        (o : Outcome Uids)
        → Ends (elim o as (λ _. Outcome Controller) [
          | panic ↦ panic
          | done vis_uids ↦ done (mark_range vis_uids c)
        ])
    ranged panic = tt
    ranged (done us) = mark_range-IsValid us c v

    at :
        (i : ℕ) (z : ℤ)
        → Ends (elim z as (λ _. Outcome Controller) [
          | negsuc _ ↦ done c
          | pos k ↦ elim (range_of p.uids i k) as (λ _. Outcome Controller) [
            | panic ↦ panic
            | done vis_uids ↦ done (mark_range vis_uids c)
          ]
        ])
    at i (negsuc k) = v
    at i (pos k) = ranged (range_of p.uids i k)

    start :
        (o : Option ℕ)
        → Ends (elim o as (λ _. Outcome Controller) [
          | none ↦ done (clear_visual_mark c)
          | some i ↦ update_selected p i c
        ])
    start none = clear-IsValid c v
    start (some i) = at i p.selected_index

-- Whatever the method, if it returns, the fields of the controller are addresses of live maps, and the
-- base of a visual selection is neither the marks nor the last marks: to edit these changes no base.
pub run-Ends : (op : Op) (c : Controller) → IsValid c → Ends (run op c)
run-Ends (op_mark u) c v = mark-IsValid u c v
run-Ends (op_unmark u) c v = unmark-IsValid u c v
run-Ends (op_toggle u) c v = toggle-IsValid u c v
run-Ends op_remark c v = remark-IsValid c v
run-Ends op_clear c v = clear-IsValid c v
run-Ends (op_stale p) c v = stale-IsValid p c v
run-Ends (op_visual b p) c v = toggle_visual-IsValid b p c v
run-Ends (op_update p) c v = update-Ends p c v
