-- ===== src/Ui/Scrollable/Visible.antt =====
-- What app/scrollable.go keeps in the window.
use aerc.Prelude.{ℕ, suc, ◌≡◌, Bool, false, arith, if◌then◌else◌, if_cases, ap, sym, subst}
use aerc.Prelude.Int.{
  ℤ, pos, ◌+ℤ◌, ◌-ℤ◌, ◌≤ℤ◌, ltb_ℤ, half, int_laws, half-bounds, ltb_ℤ-true, ltb_ℤ-false,
}
use aerc.Ui.Scrollable.{
  Scrollable, check_bounds, scroll_for, ensure_scroll, align, AlignPosition, align_top,
  align_center, align_bottom, max_ℤ,
}

-- The item `idx` is one of those that the window shows.
abbrev pub IsVisible : ℤ → Scrollable → Type 0
IsVisible idx s = (s.scroll ≤ℤ idx) × (idx +ℤ pos 1 ≤ℤ s.scroll +ℤ s.height)

-- The window is within the list, or at its start where it is larger.
abbrev pub IsWithin : Scrollable → Type 0
IsWithin s = (pos 0 ≤ℤ s.scroll) × (s.scroll ≤ℤ max_ℤ (s.elems -ℤ s.height) (pos 0))

check_bounds-IsWithin : (s : Scrollable) → IsWithin (check_bounds s)
unfolding check_bounds
check_bounds-IsWithin s = ground arith

check_bounds-IsVisible :
    (i : ℕ) (s : Scrollable)
    → pos (suc i) ≤ℤ s.elems
    → IsVisible (pos i) s
    → IsVisible (pos i) (check_bounds s)
unfolding check_bounds ◌+ℤ◌ ◌-ℤ◌
check_bounds-IsVisible i s h v = (ground arith, ground arith)

-- A first line that shows the item in a window of this height.
abbrev pub Shows : ℤ → ℤ → ℤ → Type 0
Shows idx height first = (first ≤ℤ idx) × (idx +ℤ pos 1 ≤ℤ first +ℤ height)

scroll_for-visible :
    (i : ℕ) (s : Scrollable)
    → pos 1 ≤ℤ s.height
    → pos 0 ≤ℤ s.offset
    → Shows (pos i) s.height (scroll_for (pos i) s)
unfolding scroll_for
scroll_for-visible i s h o =
    let (nonneg, less) = half-bounds s.height h in
    if_cases (Shows (pos i) s.height) (ltb_ℤ (half s.height) s.offset) _ _
      (λ _. (omega int_laws, omega int_laws))
      (λ far.
        let small = ltb_ℤ-false (half s.height) s.offset far in
        if_cases (Shows (pos i) s.height) (ltb_ℤ (pos i) (s.scroll +ℤ s.offset)) _ _
          (λ _. (omega int_laws, omega int_laws))
          (λ below.
            let past = ltb_ℤ-false (pos i) (s.scroll +ℤ s.offset) below in
            if_cases (Shows (pos i) s.height) (ltb_ℤ (pos i) (s.scroll -ℤ s.offset +ℤ s.height)) _ _
              (λ above.
                let before = ltb_ℤ-true (pos i) (s.scroll -ℤ s.offset +ℤ s.height) above in
                (omega int_laws, omega int_laws))
              (λ _. (omega int_laws, omega int_laws))))

ensure_scroll-eq :
    (i : ℕ) (s : Scrollable)
    → ensure_scroll (pos i) s ≡ check_bounds (record s { scroll = scroll_for (pos i) s })
unfolding ensure_scroll
ensure_scroll-eq i s =
    let e : ltb_ℤ (pos i) (pos 0) ≡ false = ground arith in
    ap (λ (b : Bool). if b then s else check_bounds (record s { scroll = scroll_for (pos i) s })) e

-- After `EnsureScroll` to an item of the list, in a window of at least one line and with an offset that
-- is not negative, the item is in the window, and the window is within the list.
pub ensure_scroll-IsVisible :
    (i : ℕ) (s : Scrollable)
    → pos (suc i) ≤ℤ s.elems
    → pos 1 ≤ℤ s.height
    → pos 0 ≤ℤ s.offset
    → IsVisible (pos i) (ensure_scroll (pos i) s) × IsWithin (ensure_scroll (pos i) s)
ensure_scroll-IsVisible i s h w o =
    let s' : Scrollable = record s { scroll = scroll_for (pos i) s } in
    subst (λ t. IsVisible (pos i) t × IsWithin t) (sym (ensure_scroll-eq i s))
      (check_bounds-IsVisible i s' h (scroll_for-visible i s w o), check_bounds-IsWithin s')

-- After `Align`, whichever the position, an item of the list is in the window, if that has at least one
-- line, and the window is within the list.
pub align-IsVisible :
    (i : ℕ) (at : AlignPosition) (s : Scrollable)
    → pos (suc i) ≤ℤ s.elems
    → pos 1 ≤ℤ s.height
    → IsVisible (pos i) (align (pos i) at s) × IsWithin (align (pos i) at s)
unfolding align
align-IsVisible i align_top s h w =
    let s' : Scrollable = record s { scroll = pos i } in
    (check_bounds-IsVisible i s' h (omega int_laws, omega int_laws), check_bounds-IsWithin s')
align-IsVisible i align_center s h w =
    let s' : Scrollable = record s { scroll = pos i -ℤ half s.height } in
    let (nonneg, less) = half-bounds s.height w in
    (check_bounds-IsVisible i s' h (omega int_laws, omega int_laws), check_bounds-IsWithin s')
align-IsVisible i align_bottom s h w =
    let s' : Scrollable = record s { scroll = pos i -ℤ s.height +ℤ pos 1 } in
    (check_bounds-IsVisible i s' h (omega int_laws, omega int_laws), check_bounds-IsWithin s')
