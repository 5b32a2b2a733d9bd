-- ===== src/Message/Iterator/Tests.antt =====
-- lib/iterator on three messages, and the theorems at it.
use aerc.Prelude.{ℕ, ◌≤◌, ◌≡◌, ◌≢◌, refl, true, false, List, [], ◌∷◌, length, done}
use aerc.Prelude.Int.{pos, negsuc, ◌+ℤ◌, ◌-ℤ◌}
use aerc.Message.Iterator.{Iterator, new_iterator, walk, wrap_bounds}
use aerc.Message.Iterator.Bounds.{wrap_bounds_period}
use aerc.Message.Iterator.Walk.{walk-new_iterator}

abbrev uids : List ℕ
uids = 7 ∷ 8 ∷ 9 ∷ []

abbrev top_down : Iterator ℕ
unfolding new_iterator
top_down = new_iterator false uids

entries-top_down : length top_down.entries ≡ 3
unfolding top_down
entries-top_down = refl

walk-new_iterator_example :
    (walk 4 (new_iterator false uids) ≡ done (9 ∷ 8 ∷ 7 ∷ []))
    × (walk 4 (new_iterator true uids) ≡ done uids)
walk-new_iterator_example = walk-new_iterator uids

-- Three entries: the index 5 comes back to 0.
turned : wrap_bounds (pos 5) (pos 0) (pos 2) ≡ pos 0
unfolding wrap_bounds ◌+ℤ◌ ◌-ℤ◌
turned = refl

wrap_bounds_period_example :
    (1 ≤ 1 → wrap_bounds (pos 4) (pos 0) (pos 2) ≡ pos 1)
    × (wrap_bounds (pos 6) (pos 0) (pos 2) ≡ wrap_bounds (pos 4) (pos 0) (pos 2))
    × (wrap_bounds (pos 4) (pos 0) (pos 2) ≢ pos 2)
    × (1 ≤ 1 → wrap_bounds (negsuc 1) (pos 0) (pos 2) ≡ pos 1)
    × (wrap_bounds (negsuc 3) (pos 0) (pos 2) ≡ wrap_bounds (negsuc 1) (pos 0) (pos 2))
    × (wrap_bounds (negsuc 1) (pos 0) (pos 2) ≢ pos 0)
wrap_bounds_period_example = wrap_bounds_period 1 1
