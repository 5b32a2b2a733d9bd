-- ===== src/Ui/Tabs/Swaps.antt =====
-- The operations of lib/ui/tab.go that swap tabs keep the invariant, and panic only without a tab.
use aerc.Prelude.{
  ℕ, zero, suc, ◌+◌, ◌<◌, ◌≡◌, refl, ap, ◌∙◌, Bool, true, false, some, List, [], ◌∷◌, map, arith,
  ◌==◌, length, length-set, length-map, get_elem?, set, Bool-cases, inl, inr, get_elem?-within,
  lt_of_get_elem?, done, index, get_elem?-set_self, get_elem?-set_ne,
}
use aerc.Prelude.Int.{ℤ, pos, sub_ℕ, pos_part, ◌+ℤ◌, ◌-ℤ◌}
use aerc.Ui.Tabs.{Tab, Tabs}
use aerc.Ui.Tabs.Moves.{
  move_target, move_tab_priv, move_tab, pin_tab, unpin_tab, pin_end, lower_after, raise_after,
}
use aerc.Ui.Tabs.WellFormed.{IsTidy, IsWellFormed, count, count-set}

-- The target of a move is an index of a tab, if there is one.
pub move_target_lem :
    (to : ℤ) (r : Bool) (t : Tabs)
    → 0 < length t.tabs
    → (i : ℕ) × (move_target to r t ≡ pos i) × (i < length t.tabs)
unfolding move_target
move_target_lem to r t h = (pos_part (move_target to r t), ground arith, ground arith)

pub index-some : (xs : List Tab) (i : ℕ) (x : Tab) → get_elem? xs i ≡ some x → index xs i ≡ done x
index-some xs i x e = rw e

-- A move never panics while there is a tab: it swaps the selected tab with the one at the target.
pub move_tab_priv_lem :
    (to : ℤ) (r : Bool) (t : Tabs)
    → t.cur_index < length t.tabs
    → (a b : Tab) × (i : ℕ) × (t' : Tabs) × (get_elem? t.tabs t.cur_index ≡ some a)
      × (get_elem? t.tabs i ≡ some b)
      × (move_target to r t ≡ pos i)
      × (move_tab_priv to r t ≡ done t')
      × (t' ≡ record t { tabs = set (set t.tabs t.cur_index b) i a; cur_index = i })
unfolding move_tab_priv
move_tab_priv_lem to r t h =
    let (i, e, l) = move_target_lem to r t (omega arith) in
    let (a, ea) = get_elem?-within t.tabs t.cur_index h in
    let (b, eb) = get_elem?-within t.tabs i l in
    (
      a,
      b,
      i,
      record t { tabs = set (set t.tabs t.cur_index b) i a; cur_index = i },
      ea,
      eb,
      e,
      rw (e, ea, eb) refl,
      refl,
    )

-- After the first of two writes, the target still reads `b`.
get_elem?-set_either :
    (xs : List Tab) (i j : ℕ) (b : Tab)
    → i < length xs
    → get_elem? xs j ≡ some b
    → get_elem? (set xs i b) j ≡ some b
get_elem?-set_either xs i j b h e = elim (Bool-cases (i == j)) [
  | inl same ↦ let p : i ≡ j = ground arith in rw (← p) (get_elem?-set_self xs i b h)
  | inr other ↦ get_elem?-set_ne xs b (ground arith) ∙ e
]

count-swap :
    (q : ℕ) (xs : List Tab) (i j : ℕ) (a b : Tab)
    → get_elem? xs i ≡ some a
    → get_elem? xs j ≡ some b
    → count q (set (set xs i b) j a) ≡ count q xs
count-swap q xs i j a b ea eb = omega (
  arith,
  count-set q xs i a b ea,
  count-set q (set xs i b) j b a (get_elem?-set_either xs i j b (lt_of_get_elem? xs i a ea) eb),
)

-- Tabs with the same addresses, as often.
pub same_tabs-IsTidy :
    (t : Tabs) (xs : List Tab) (i : ℕ)
    → ((q : ℕ) → count q xs ≡ count q t.tabs)
    → IsTidy t
    → IsTidy (record t { tabs = xs; cur_index = i })
same_tabs-IsTidy t xs i same w = record {
  once = λ q. rw (same q) (w.once q);
  fresh = λ q h. rw (same q) (w.fresh q h);
  recent = λ q c. rw (same q) (w.recent q c);
  bound = w.bound;
}

pub move_tab_priv-IsWellFormed :
    (to : ℤ) (r : Bool) (t t' : Tabs)
    → IsTidy t
    → t.cur_index < length t.tabs
    → move_tab_priv to r t ≡ done t'
    → IsWellFormed t'
move_tab_priv-IsWellFormed to r t t' w h e =
    let (a, b, i, u, ea, eb, et, eu, same) = move_tab_priv_lem to r t h in
    let v : Tabs = record t { tabs = set (set t.tabs t.cur_index b) i a; cur_index = i } in
    let p : t' ≡ v = ground arith in
    rw p (record {
      tidy =
          same_tabs-IsTidy t (set (set t.tabs t.cur_index b) i a) i
            (λ q. count-swap q t.tabs t.cur_index i a b ea eb) w;
      current = omega (
        arith,
        lt_of_get_elem? t.tabs i b eb,
        length-set t.tabs t.cur_index b,
        length-set (set t.tabs t.cur_index b) i a,
      );
    })

count-map-lower_after :
    (q : ℕ) (at : ℤ) (xs : List Tab) → count q (map (lower_after at) xs) ≡ count q xs
unfolding lower_after
count-map-lower_after q at [] = refl
count-map-lower_after q at (x ∷ xs) = ground (arith, count-map-lower_after q at xs)

count-raise_after :
    (q i cur : ℕ) (at : ℤ) (xs : List Tab) → count q (raise_after i cur at xs) ≡ count q xs
unfolding raise_after
count-raise_after q i cur at [] = refl
count-raise_after q i cur at (x ∷ xs) = ground (arith, count-raise_after q (i + 1) cur at xs)

length-raise_after :
    (i cur : ℕ) (at : ℤ) (xs : List Tab) → length (raise_after i cur at xs) ≡ length xs
unfolding raise_after
length-raise_after i cur at [] = refl
length-raise_after i cur at (x ∷ xs) = ground (arith, length-raise_after (i + 1) cur at xs)

get_elem?-map-lower_after :
    (at : ℤ) (xs : List Tab) (i : ℕ) (x : Tab)
    → get_elem? xs i ≡ some x
    → get_elem? (map (lower_after at) xs) i ≡ some (lower_after at x)
get_elem?-map-lower_after at [] i x h = absurd (ground arith)
get_elem?-map-lower_after at (y ∷ ys) zero x h = ground arith
get_elem?-map-lower_after at (y ∷ ys) (suc i) x h = get_elem?-map-lower_after at ys i x h

get_elem?-raise_after :
    (i cur : ℕ) (at : ℤ) (xs : List Tab) (k : ℕ)
    → i + k ≡ cur
    → get_elem? (raise_after i cur at xs) k ≡ get_elem? xs k
unfolding raise_after
get_elem?-raise_after i cur at [] k h = refl
get_elem?-raise_after i cur at (x ∷ xs) zero h = ground arith
get_elem?-raise_after i cur at (x ∷ xs) (suc k) h =
    ground (arith, get_elem?-raise_after (i + 1) cur at xs k)

-- Tabs of the same addresses, with a new record for the selected one, and then a move.
module _ (t : Tabs) (xs : List Tab) (old new : Tab) (same : (q : ℕ) → count q xs ≡ count q t.tabs)
    (len : length xs ≡ length t.tabs) (here : get_elem? xs t.cur_index ≡ some old)
    (ptr : new.ptr ≡ old.ptr) where
  abbrev relabelled : Tabs
  relabelled = record t { tabs = set xs t.cur_index new }

  relabelled-current : t.cur_index < length relabelled.tabs
  relabelled-current =
      omega (arith, lt_of_get_elem? xs t.cur_index old here, length-set xs t.cur_index new)

  count-relabelled : (q : ℕ) → count q relabelled.tabs ≡ count q t.tabs
  count-relabelled q = ground (arith, same q, count-set q xs t.cur_index old new here)

  relabelled-IsTidy : IsTidy t → IsTidy relabelled
  relabelled-IsTidy w = same_tabs-IsTidy t relabelled.tabs t.cur_index count-relabelled w

  move-relabelled :
      (z : ℤ)
      → IsTidy t
      → (t' : Tabs) × (move_tab_priv z false relabelled ≡ done t') × IsWellFormed t'
  move-relabelled z w =
      let (_, _, _, t', _, _, _, e, _) = move_tab_priv_lem z false relabelled relabelled-current in
      (
        t',
        e,
        move_tab_priv-IsWellFormed z false relabelled t' (relabelled-IsTidy w) relabelled-current e,
      )

lower_after_lem : (at : ℤ) (x : Tab) → x.pinned ≡ false → lower_after at x ≡ x
unfolding lower_after
lower_after_lem at x h = ground arith

pub pin_tab-IsWellFormed :
    (t : Tabs)
    → IsWellFormed t
    → 0 < length t.tabs
    → (t' : Tabs) × (pin_tab t ≡ done t') × IsWellFormed t'
unfolding pin_tab
pin_tab-IsWellFormed t w h =
    let (x, e) = get_elem?-within t.tabs t.cur_index (omega (arith, w.current)) in
    elim (Bool-cases x.pinned) [
      | inl already ↦ (t, rw (e, already), w)
      | inr free ↦
          let at = sub_ℕ t.cur_index (pin_end t.tabs) in
          let xs = map (lower_after at) t.tabs in
          let x' : Tab = record x { pinned = true; index_before_pin = at } in
          let here : get_elem? xs t.cur_index ≡ some x =
            get_elem?-map-lower_after at t.tabs t.cur_index x e
            ∙ ap some (lower_after_lem at x free) in
          let same = λ (q : ℕ). count-map-lower_after q at t.tabs in
          let len = length-map t.tabs (lower_after at) in
          let (t', m, k) =
            move-relabelled t xs x x' same len here refl (pos (pin_end t.tabs)) w.tidy in
          (t', rw (e, free) m, k)
    ]

pub unpin_tab-IsWellFormed :
    (t : Tabs)
    → IsWellFormed t
    → 0 < length t.tabs
    → (t' : Tabs) × (unpin_tab t ≡ done t') × IsWellFormed t'
unfolding unpin_tab
unpin_tab-IsWellFormed t w h =
    let (x, e) = get_elem?-within t.tabs t.cur_index (omega (arith, w.current)) in
    elim (Bool-cases x.pinned) [
      | inr free ↦ (t, rw (e, free), w)
      | inl pinned ↦
          let at = x.index_before_pin in
          let xs = raise_after 0 t.cur_index at t.tabs in
          let x' : Tab = record x { pinned = false } in
          let here : get_elem? xs t.cur_index ≡ some x =
            get_elem?-raise_after 0 t.cur_index at t.tabs t.cur_index (omega arith) ∙ e in
          let same = λ (q : ℕ). count-raise_after q 0 t.cur_index at t.tabs in
          let len = length-raise_after 0 t.cur_index at t.tabs in
          let (t', m, k) =
            move-relabelled t xs x x' same len here refl (at +ℤ pos (pin_end t.tabs) -ℤ pos 1)
              w.tidy in
          (t', rw (e, pinned) m, k)
    ]

pub move_tab-IsWellFormed :
    (z : ℤ) (r : Bool) (t : Tabs)
    → IsWellFormed t
    → 0 < length t.tabs
    → (t' : Tabs) × (move_tab z r t ≡ done t') × IsWellFormed t'
unfolding move_tab
move_tab-IsWellFormed z r t w h =
    let (_, _, _, t', _, _, _, e, _) = move_tab_priv_lem z r t (omega (arith, w.current)) in
    (t', e, move_tab_priv-IsWellFormed z r t t' w.tidy (omega (arith, w.current)) e)
