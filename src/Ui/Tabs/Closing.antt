-- ===== src/Ui/Tabs/Closing.antt =====
-- Adding, closing and replacing a tab, of lib/ui/tab.go, keep the invariant.
use mathlib.Core.Option.{Option}
use aerc.Prelude.{
  ◌≢◌, ℕ, zero, suc, ◌+◌, ◌-◌, ◌≤◌, ◌<◌, ◌≡◌, refl, ap, ◌∙◌, Bool, true, false, none, some, List,
  [], ◌∷◌, ◌++◌, arith, String, ltb, tests, ◌==◌, if◌then◌else◌, length, length-append, length-set,
  get_elem?, set, remove_at, Bool-cases, inl, inr, Option-cases, get_elem?-beyond, lt_of_get_elem?,
  length-remove_at, panic,
}
use aerc.Prelude.Int.{ℤ, pos, negsuc, sub_ℕ, sub_ℕ-suc_one}
use aerc.Ui.Tabs.{
  content_draw, selected, Drawable, Tab, Tabs, Call, hide, new_tab, add, remove, remove_found,
  select_after_close, close_target, find_content, replace, pop_history, select_priv, select_at,
  without,
}
use aerc.Ui.Tabs.WellFormed.{
  IsTidy, IsWellFormed, count-append, count-set, closed-IsTidy, pop_history-IsTidy, pop_history_lem,
  select_at-IsWellFormed, select_at_lem,
}

pub find_content_lem :
    (d : Drawable) (xs : List Tab) (i : ℕ) (x : Tab)
    → find_content d xs ≡ some (i, x)
    → get_elem? xs i ≡ some x
find_content_lem d [] i x h = absurd (ground arith)
find_content_lem d (y ∷ ys) i x h = elim (Option-cases (find_content d ys)) [
  | inl e ↦ ground (arith, e)
  | inr ((j, z), e) ↦ later i j z e h (find_content_lem d ys j z e)
]
  where
    later :
        (i j : ℕ) (z : Tab)
        → find_content d ys ≡ some (j, z)
        → find_content d (y ∷ ys) ≡ some (i, x)
        → get_elem? ys j ≡ some z
        → get_elem? (y ∷ ys) i ≡ some x
    later zero j z e h g = ground arith
    later (suc i) j z e h g = ground arith

pub add-IsWellFormed :
    (d : Drawable) (n : String) (b : Bool) (t : Tabs) → IsWellFormed t → IsWellFormed (add d n b t)
unfolding add
add-IsWellFormed d n b t w = go b
  where
    t' : Tabs
    t' = record t { tabs = t.tabs ++ new_tab t.next_ptr d n ∷ []; next_ptr = t.next_ptr + 1 }

    tidy : IsTidy t'
    tidy = record {
      once = λ p. ground (
        arith,
        count-append p t.tabs (new_tab t.next_ptr d n ∷ []),
        w.tidy.once p,
        w.tidy.fresh p,
      );
      fresh = λ p h.
          ground (arith, count-append p t.tabs (new_tab t.next_ptr d n ∷ []), w.tidy.fresh p);
      recent = λ p c.
          ground (arith, count-append p t.tabs (new_tab t.next_ptr d n ∷ []), w.tidy.recent p);
      bound = w.tidy.bound;
    }

    go : (b : Bool) → IsWellFormed (if b then t' else (select_at (length t.tabs) true t').1)
    go true = record {
      tidy = tidy;
      current = omega (arith, w.current, length-append t.tabs (new_tab t.next_ptr d n ∷ []));
    }
    go false =
        select_at-IsWellFormed (length t.tabs) true t'
          (omega (arith, length-append t.tabs (new_tab t.next_ptr d n ∷ []))) tidy

close_target-IsWellFormed :
    (o : Option ℕ) (t : Tabs)
    → ((i : ℕ) → o ≡ some i → i < length t.tabs)
    → t.cur_index ≤ length t.tabs
    → IsTidy t
    → IsWellFormed (select_priv (close_target o t) false t).1
unfolding close_target select_priv
close_target-IsWellFormed (some i) t f h w = select_at-IsWellFormed i false t (f i refl) w
close_target-IsWellFormed none t f h w = elim (Bool-cases (ltb t.cur_index (length t.tabs))) [
  | inl within ↦ rw within (select_at-IsWellFormed t.cur_index false t (ground arith) w)
  | inr last ↦ rw last (go (length t.tabs) refl)
]
  where
    go : (n : ℕ) → length t.tabs ≡ n → IsWellFormed (select_priv (sub_ℕ n 1) false t).1
    go zero e = record { tidy = w; current = omega arith }
    go (suc n) e = rw (sub_ℕ-suc_one n) (select_at-IsWellFormed n false t (omega arith) w)

select_after_close-IsWellFormed :
    (t : Tabs) → t.cur_index ≤ length t.tabs → IsTidy t → IsWellFormed (select_after_close t)
unfolding select_after_close
select_after_close-IsWellFormed t h w =
    let (tabs, cur, inside) = pop_history_lem t in
    close_target-IsWellFormed (pop_history t).0 (pop_history t).1 (λ i e. rw tabs (inside i e))
      (omega (arith, ap length tabs)) (pop_history-IsTidy t w)

remove_found-IsWellFormed :
    (i : ℕ) (x : Tab) (t : Tabs)
    → get_elem? t.tabs i ≡ some x
    → IsWellFormed t
    → IsWellFormed (remove_found i x t)
unfolding remove_found select_priv
remove_found-IsWellFormed i x t e w =
    let c : Tabs = record t {
      tabs = remove_at t.tabs i;
      history = without x.ptr t.history;
      calls = t.calls ++ hide x.content ∷ [];
    } in
    let tidy : IsTidy c = closed-IsTidy t i x (t.calls ++ hide x.content ∷ []) w.tidy e in
    let l = length-remove_at t.tabs i (lt_of_get_elem? t.tabs i x e) in
    elim (Bool-cases (i == t.cur_index)) [
      | inl same ↦ rw same (select_after_close-IsWellFormed c (omega (arith, l, w.current)) tidy)
      | inr other ↦ rw other (elim (Bool-cases (ltb i t.cur_index)) [
        | inl left ↦
            let h : t.cur_index - 1 < length c.tabs = omega (tests, l, w.current) in
            rw left (select_at-IsWellFormed (t.cur_index - 1) false c h tidy)
        | inr right ↦
            let h : t.cur_index ≤ length c.tabs - 1 =
              ground (arith, l, w.current, lt_of_get_elem? t.tabs i x e) in
            let here : IsWellFormed c = record { tidy = tidy; current = h } in rw right here
      ])
    ]

pub remove-IsWellFormed : (d : Drawable) (t : Tabs) → IsWellFormed t → IsWellFormed (remove d t)
unfolding remove
remove-IsWellFormed d t w = elim (Option-cases (find_content d t.tabs)) [
  | inl e ↦ rw (e, remove) w
  | inr ((i, x), e) ↦
      rw (e, remove) (remove_found-IsWellFormed i x t (find_content_lem d t.tabs i x e) w)
]

-- A tab in place of one with the same address.
set_tab-IsTidy :
    (t : Tabs) (i : ℕ) (old new : Tab) (cs : List Call)
    → get_elem? t.tabs i ≡ some old
    → new.ptr ≡ old.ptr
    → IsTidy t
    → IsTidy (record t { tabs = set t.tabs i new; calls = cs })
set_tab-IsTidy t i old new cs e p w = record {
  once = λ q. ground (arith, count-set q t.tabs i old new e, w.once q);
  fresh = λ q h. ground (arith, count-set q t.tabs i old new e, w.fresh q);
  recent = λ q c. ground (arith, count-set q t.tabs i old new e, w.recent q);
  bound = w.bound;
}

pub replace-IsWellFormed :
    (a b : Drawable) (n : String) (t : Tabs) → IsWellFormed t → IsWellFormed (replace a b n t)
unfolding replace select_priv
replace-IsWellFormed a b n t w = elim (Option-cases (find_content a t.tabs)) [
  | inl e ↦ rw (e, replace) w
  | inr ((i, x), e) ↦
      let g = find_content_lem a t.tabs i x e in
      let x' : Tab = record x { content = b; tab_title = n } in
      rw (e, replace)
        (select_at-IsWellFormed i false _
          (omega (arith, lt_of_get_elem? t.tabs i x g, length-set t.tabs i x'))
          (set_tab-IsTidy t i x x' (t.calls ++ hide x.content ∷ []) g refl w.tidy))
]

tabs-select_priv : (z : ℤ) (t : Tabs) → (select_priv z false t).1.tabs ≡ t.tabs
unfolding select_priv
tabs-select_priv (pos i) t = (select_at_lem i false t).0
tabs-select_priv (negsuc i) t = refl

tabs-select_after_close : (t : Tabs) → (select_after_close t).tabs ≡ t.tabs
unfolding select_after_close
tabs-select_after_close t =
    let (tabs, _, _) = pop_history_lem t in
    tabs-select_priv (close_target (pop_history t).0 (pop_history t).1) (pop_history t).1 ∙ tabs

get_elem?-remove_at :
    (xs : List Tab) (i j : ℕ)
    → get_elem? (remove_at xs i) j ≡ (if ltb j i then get_elem? xs j else get_elem? xs (suc j))
get_elem?-remove_at [] i j = ground arith
get_elem?-remove_at (x ∷ xs) zero j = ground arith
get_elem?-remove_at (x ∷ xs) (suc i) zero = ground arith
get_elem?-remove_at (x ∷ xs) (suc i) (suc j) = ground (arith, get_elem?-remove_at xs i j)

get_elem?-pred : (xs : List Tab) (k : ℕ) → 0 < k → get_elem? xs (suc (k - 1)) ≡ get_elem? xs k
get_elem?-pred xs k h = let e : suc (k - 1) ≡ k = omega arith in rw e

module _ (t : Tabs) (i : ℕ) (x : Tab) (e : get_elem? t.tabs i ≡ some x) where
  abbrev closed : Tabs
  closed = record t {
    tabs = remove_at t.tabs i;
    history = without x.ptr t.history;
    calls = t.calls ++ hide x.content ∷ [];
  }

  tabs-remove_found : (remove_found i x t).tabs ≡ remove_at t.tabs i
  unfolding remove_found
  tabs-remove_found =
      ground
        (arith, tabs-select_after_close closed, tabs-select_priv (pos (t.cur_index - 1)) closed)

  selected-remove_found :
      IsWellFormed t → i ≢ t.cur_index → selected (remove_found i x t) ≡ selected t
  unfolding remove_found selected select_priv
  selected-remove_found w n = ground (
    arith,
    select_at_lem (t.cur_index - 1) false closed,
    get_elem?-remove_at t.tabs i t.cur_index,
    get_elem?-remove_at t.tabs i (t.cur_index - 1),
    get_elem?-pred t.tabs t.cur_index,
    length-remove_at t.tabs i (lt_of_get_elem? t.tabs i x e),
    w.current,
    get_elem?-beyond t.tabs (suc t.cur_index),
  )

-- `Remove` of a content that a tab has takes the first such tab out of the list and moves no other;
-- where that is not the selected tab, the same tab is selected afterwards.
pub remove_lem :
    (d : Drawable) (t : Tabs) (i : ℕ) (x : Tab)
    → IsWellFormed t
    → find_content d t.tabs ≡ some (i, x)
    → ((remove d t).tabs ≡ remove_at t.tabs i)
      × (i ≢ t.cur_index → selected (remove d t) ≡ selected t)
unfolding remove
remove_lem d t i x w f =
    let e = find_content_lem d t.tabs i x f in
    (
      rw (f, remove) (tabs-remove_found t i x e),
      λ n. rw (f, remove) (selected-remove_found t i x e w n),
    )

-- After the only tab is closed, `TabContent.Draw` indexes the empty slice of tabs.
pub content_draw-remove :
    (d : Drawable) (t : Tabs) (i : ℕ) (x : Tab)
    → IsWellFormed t
    → length t.tabs ≡ 1
    → find_content d t.tabs ≡ some (i, x)
    → content_draw (remove d t) ≡ panic
unfolding content_draw
content_draw-remove d t i x w one f =
    let l =
      length-remove_at t.tabs i (lt_of_get_elem? t.tabs i x (find_content_lem d t.tabs i x f)) in
    let e = (remove_lem d t i x w f).0 in
    rw (get_elem?-beyond (remove d t).tabs (remove d t).cur_index (omega (arith, l, ap length e)))
      refl
