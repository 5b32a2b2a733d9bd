-- ===== src/Ui/TextInput/Scroll.antt =====
-- The scrolling of lib/ui/textinput.go: the cursor stays in the window.
use aerc.Prelude.{ℕ, suc, ◌+◌, ◌≡◌, some, arith}
use aerc.Prelude.Int.{pos, ◌+ℤ◌, ◌-ℤ◌, ◌≤ℤ◌}
use aerc.Ui.TextInput.{TextInput, ensure_scroll, scroll_to}

-- Where the prompt leaves at least one cell, `ensureScroll` puts the cursor among the visible cells: it
-- is not before the first, which is not before the start of the text, and before the end of the window.
-- Where it was visible, the scroll stays.
pub ensure_scroll-visible :
    (ti : TextInput) (w : ℕ)
    → ti.width ≡ some (ti.prompt_length + suc w)
    → pos 0 ≤ℤ ti.scroll
    → (pos 0 ≤ℤ (ensure_scroll ti).scroll)
      × ((ensure_scroll ti).scroll ≤ℤ pos ti.cursor)
      × (pos (suc ti.cursor) ≤ℤ (ensure_scroll ti).scroll +ℤ pos (suc w))
      × (ti.scroll ≤ℤ pos ti.cursor
          → pos (suc ti.cursor) ≤ℤ ti.scroll +ℤ pos (suc w)
          → (ensure_scroll ti).scroll ≡ ti.scroll)
unfolding ensure_scroll scroll_to ◌+ℤ◌ ◌-ℤ◌
ensure_scroll-visible ti w e h = (ground arith, ground arith, ground arith, λ a b. ground arith)
