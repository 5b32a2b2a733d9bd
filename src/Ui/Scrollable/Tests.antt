-- ===== src/Ui/Scrollable/Tests.antt =====
-- app/scrollable.go on a list of ten items, and the theorems at it.
use aerc.Prelude.{◌≡◌, refl}
use aerc.Prelude.Int.{pos, ◌+ℤ◌, ◌-ℤ◌}
use aerc.Ui.Scrollable.{Scrollable, check_bounds, scroll_for, ensure_scroll}

abbrev ten : Scrollable
ten = record { scroll = pos 0; offset = pos 1; height = pos 4; elems = pos 10 }

scrolled : (ensure_scroll (pos 7) ten).scroll ≡ pos 5
unfolding ensure_scroll scroll_for check_bounds ◌+ℤ◌ ◌-ℤ◌
scrolled = refl
