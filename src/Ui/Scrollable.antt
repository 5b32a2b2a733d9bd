-- ===== src/Ui/Scrollable.antt =====
-- app/scrollable.go: the part of a list that a window shows. The percentages are left out: they are
-- floating-point numbers that only the drawing of the scrollbar reads.
pub mod Visible
mod Tests
use aerc.Prelude.{ℕ, Bool, true, false, if◌then◌else◌}
use aerc.Prelude.Int.{ℤ, pos, negsuc, ◌+ℤ◌, ◌-ℤ◌, ltb_ℤ, half}

pub record Scrollable : Type 0 where
  pub scroll : ℤ
  pub offset : ℤ
  pub height : ℤ
  pub elems : ℤ

unfoldable pub update_scroller : ℤ → ℤ → Scrollable → Scrollable
update_scroller height elems s = record s { height = height; elems = elems }

unfoldable pub set_offset : ℤ → Scrollable → Scrollable
set_offset offset s = record s { offset = offset }

abbrev pub max_ℤ : ℤ → ℤ → ℤ
max_ℤ a b = if ltb_ℤ a b then b else a

unfoldable pub check_bounds : Scrollable → Scrollable
unfolding ◌-ℤ◌
check_bounds s =
    let max_scroll = max_ℤ (s.elems -ℤ s.height) (pos 0) in
    let lowered = if ltb_ℤ max_scroll s.scroll then max_scroll else s.scroll in
    record s { scroll = if ltb_ℤ lowered (pos 0) then pos 0 else lowered }

-- The `switch` of `EnsureScroll`.
unfoldable pub scroll_for : ℤ → Scrollable → ℤ
unfolding ◌+ℤ◌ ◌-ℤ◌
scroll_for idx s =
    let middle = half s.height in
    if ltb_ℤ middle s.offset
    then idx -ℤ middle
    else if ltb_ℤ idx (s.scroll +ℤ s.offset)
    then idx -ℤ s.offset
    else if ltb_ℤ idx (s.scroll -ℤ s.offset +ℤ s.height)
    then s.scroll
    else idx +ℤ s.offset -ℤ s.height +ℤ pos 1

unfoldable pub ensure_scroll : ℤ → Scrollable → Scrollable
unfolding check_bounds scroll_for
ensure_scroll idx s =
    if ltb_ℤ idx (pos 0) then s else check_bounds (record s { scroll = scroll_for idx s })

pub data AlignPosition : Type 0 where
  align_top align_center align_bottom : AlignPosition

unfoldable pub align : ℤ → AlignPosition → Scrollable → Scrollable
unfolding check_bounds ◌+ℤ◌ ◌-ℤ◌
align idx align_top s = check_bounds (record s { scroll = idx })
align idx align_center s = check_bounds (record s { scroll = idx -ℤ half s.height })
align idx align_bottom s = check_bounds (record s { scroll = idx -ℤ s.height +ℤ pos 1 })
