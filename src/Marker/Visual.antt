-- ===== src/Marker/Visual.antt =====
-- Visual mode of lib/marker/marker.go: the marks are the base and the range from the start to the
-- selected message.
use aerc.Prelude.{
  ℕ, zero, suc, ◌+◌, ◌≤◌, ◌<◌, ◌≡◌, ◌↔◌, ◌⊎◌, refl, ap, ◌∙◌, Bool, true, false, ◌||◌, none, some,
  [], ◌∷◌, String, arith, ltb, length, get_elem?, take, drop, contains, eqb, string_eq, done,
  Bool-cases, Option-cases, inl, inr, get_or-snoc,
}
use Prim.Native.Nat.{min, max}
use aerc.Prelude.Int.{pos, negsuc, Int-cases}
use aerc.Marker.{
  Uids, Provider, Controller, is_marked, insert_all, find_uid, visual_start_idx, base_uids,
  mark_range, range_of, slice, update_selected, update_visual_mark, clear_visual_mark,
}
use aerc.Marker.Marks.{contains-insert_all}

abbrev pub within : Uids → ℕ → ℕ → String → Bool
within [] lo hi v = false
within (x ∷ xs) zero zero v = eqb x v
within (x ∷ xs) zero (suc hi) v = eqb x v || within xs zero hi v
within (x ∷ xs) (suc lo) zero v = false
within (x ∷ xs) (suc lo) (suc hi) v = within xs lo hi v

-- `within` says that some index from `lo` to `hi` has the UID.
within→index :
    (xs : Uids) (lo hi : ℕ) (v : String)
    → within xs lo hi v ≡ true
    → (j : ℕ) × (lo ≤ j) × (j ≤ hi) × (get_elem? xs j ≡ some v)
within→index [] lo hi v h = absurd (ground arith)
within→index (x ∷ xs) zero zero v h =
    (0, omega arith, omega arith, ground (arith, string_eq.beq_iff x v))
within→index (x ∷ xs) zero (suc hi) v h = elim (Bool-cases (eqb x v)) [
  | inl here ↦ (0, omega arith, omega arith, ground (arith, string_eq.beq_iff x v))
  | inr later ↦
      let (j, l, u, e) = within→index xs zero hi v (ground arith) in
      (suc j, omega arith, omega arith, e)
]
within→index (x ∷ xs) (suc lo) zero v h = absurd (ground arith)
within→index (x ∷ xs) (suc lo) (suc hi) v h =
    let (j, l, u, e) = within→index xs lo hi v h in (suc j, omega arith, omega arith, e)

index→within :
    (xs : Uids) (lo hi j : ℕ) (v : String)
    → lo ≤ j
    → j ≤ hi
    → get_elem? xs j ≡ some v
    → within xs lo hi v ≡ true
index→within [] lo hi j v l u e = absurd (ground arith)
index→within (x ∷ xs) zero zero zero v l u e = ground (arith, string_eq.beq_iff x v)
index→within (x ∷ xs) zero zero (suc j) v l u e = absurd (omega arith)
index→within (x ∷ xs) zero (suc hi) zero v l u e = ground (arith, string_eq.beq_iff x v)
index→within (x ∷ xs) zero (suc hi) (suc j) v l u e = ground (arith, index→within xs zero hi j v)
index→within (x ∷ xs) (suc lo) zero j v l u e = absurd (omega arith)
index→within (x ∷ xs) (suc lo) (suc hi) zero v l u e = absurd (omega arith)
index→within (x ∷ xs) (suc lo) (suc hi) (suc j) v l u e =
    index→within xs lo hi j v (omega arith) (omega arith) e

contains-slice :
    (xs : Uids) (lo hi : ℕ) (v : String)
    → lo ≤ hi
    → contains (drop lo (take (suc hi) xs)) v ≡ within xs lo hi v
contains-slice [] zero hi v h = refl
contains-slice [] (suc lo) hi v h = refl
contains-slice (x ∷ xs) zero zero v h = ground arith
contains-slice (x ∷ xs) zero (suc hi) v h = ground (arith, contains-slice xs zero hi v)
contains-slice (x ∷ xs) (suc lo) zero v h = absurd (omega arith)
contains-slice (x ∷ xs) (suc lo) (suc hi) v h = contains-slice xs lo hi v (omega arith)

pub find_uid-within : (u : String) (xs : Uids) (i : ℕ) → find_uid u xs ≡ some i → i < length xs
find_uid-within u [] i h = absurd (ground arith)
find_uid-within u (x ∷ xs) zero h = omega arith
find_uid-within u (x ∷ xs) (suc i) h = ground (arith, find_uid-within u xs i)

is_marked-mark_range :
    (us : Uids) (c : Controller) (v : String)
    → is_marked v (mark_range us c) ≡ (contains (base_uids c) v || contains us v)
unfolding is_marked mark_range
is_marked-mark_range us c v =
    let m = insert_all us (insert_all (base_uids c) []) in
    ap (λ (l : Uids). contains l v) (get_or-snoc c.maps m [])
    ∙ ground (
      arith,
      contains-insert_all us (insert_all (base_uids c) []) v,
      contains-insert_all (base_uids c) [] v,
    )

slice_lem :
    (xs : Uids) (lo hi : ℕ)
    → lo ≤ hi
    → hi ≤ length xs
    → slice xs lo hi ≡ done (drop lo (take hi xs))
slice_lem xs lo hi h k = ground arith

range_of_lem :
    (xs : Uids) (s k : ℕ)
    → s < length xs
    → k < length xs
    → range_of xs s k ≡ done (drop (min s k) (take (suc (max s k)) xs))
range_of_lem xs s k hs hk =
    let ek : k + 1 ≡ suc k = omega arith in
    let es : s + 1 ≡ suc s = omega arith in
    elim (Bool-cases (ltb s k)) [
      | inl up ↦
          let lo : min s k ≡ s = ground arith in
          let hi : max s k ≡ k = ground arith in
          rw (lo, hi) (ground (arith, ek, slice_lem xs s (suc k)))
      | inr down ↦
          let lo : min s k ≡ k = ground arith in
          let hi : max s k ≡ s = ground arith in
          rw (lo, hi) (ground (arith, es, slice_lem xs k (suc s)))
    ]

mark_range_lem :
    (xs : Uids) (c : Controller) (lo hi : ℕ) (v : String)
    → lo ≤ hi
    → (is_marked v (mark_range (drop lo (take (suc hi) xs)) c) ≡ true) ↔ (
        (contains (base_uids c) v ≡ true)
        ⊎ ((j : ℕ) × (lo ≤ j) × (j ≤ hi) × (get_elem? xs j ≡ some v)))
mark_range_lem xs c lo hi v h = (
  λ m. elim (Bool-cases (contains (base_uids c) v)) [
    | inl b ↦ inl b
    | inr b ↦ inr (within→index xs lo hi v (ground (arith, e, contains-slice xs lo hi v)))
  ],
  λ o. elim o [
    | inl b ↦ ground (arith, e)
    | inr (j, l, u, at) ↦
        ground (arith, e, contains-slice xs lo hi v, index→within xs lo hi j v l u at)
  ],
)
  where
    e :
        is_marked v (mark_range (drop lo (take (suc hi) xs)) c)
        ≡ (contains (base_uids c) v || contains (drop lo (take (suc hi) xs)) v)
    e = is_marked-mark_range (drop lo (take (suc hi) xs)) c v

-- In visual mode, with the start still in the list and a message selected, `UpdateVisualMark` does not
-- panic, and marks exactly the base and the UIDs from the start to the selected message, whichever of
-- the two comes first.
pub update_visual_mark_lem :
    (p : Provider) (c : Controller) (s k : ℕ) (v : String)
    → c.visual_mark_mode ≡ true
    → visual_start_idx p c ≡ some s
    → p.selected_index ≡ pos k
    → k < length p.uids
    → (c' : Controller) × (update_visual_mark p c ≡ done c')
      × ((is_marked v c' ≡ true) ↔ (
          (contains (base_uids c) v ≡ true)
          ⊎ ((j : ℕ) × (min s k ≤ j) × (j ≤ max s k) × (get_elem? p.uids j ≡ some v))))
unfolding update_visual_mark update_selected visual_start_idx
update_visual_mark_lem p c s k v on start sel h =
    let vis = drop (min s k) (take (suc (max s k)) p.uids) in
    let hs = find_uid-within c.visual_start_uid p.uids s start in
    (
      mark_range vis c,
      ground (arith, range_of_lem p.uids s k hs h),
      mark_range_lem p.uids c (min s k) (max s k) v (omega arith),
    )

-- If the start has left the list, `UpdateVisualMark` ends the visual mode and clears the marks; outside
-- visual mode it does nothing, and neither does it where no message is selected.
pub update_visual_mark_ends :
    (p : Provider) (c : Controller)
    → (c.visual_mark_mode ≡ false → update_visual_mark p c ≡ done c)
      × (c.visual_mark_mode ≡ true
          → visual_start_idx p c ≡ none
          → update_visual_mark p c ≡ done (clear_visual_mark c))
      × ((i : ℕ) (s : ℕ)
          → c.visual_mark_mode ≡ true
          → visual_start_idx p c ≡ some s
          → p.selected_index ≡ negsuc i
          → update_visual_mark p c ≡ done c)
unfolding update_visual_mark
update_visual_mark_ends p c =
    (λ off. ground arith, λ on e. ground arith, λ i s on e f. ground arith)

-- It never panics where the selected index is one of the list.
pub update_visual_mark-done :
    (p : Provider) (c : Controller)
    → ((k : ℕ) → p.selected_index ≡ pos k → k < length p.uids)
    → (c' : Controller) × (update_visual_mark p c ≡ done c')
unfolding update_visual_mark update_selected visual_start_idx
update_visual_mark-done p c h = elim (Bool-cases c.visual_mark_mode) [
  | inr off ↦ (c, ground (arith, off))
  | inl on ↦ elim (Option-cases (find_uid c.visual_start_uid p.uids)) [
    | inl e ↦ (clear_visual_mark c, ground (arith, on, e))
    | inr (s, e) ↦ elim (Int-cases p.selected_index) [
      | inr (i, f) ↦ (c, ground (arith, on, e, f))
      | inl (k, f) ↦ (
        mark_range (drop (min s k) (take (suc (max s k)) p.uids)) c,
        ground (
          arith,
          on,
          e,
          f,
          range_of_lem p.uids s k (find_uid-within c.visual_start_uid p.uids s e) (h k f),
        ),
      )
    ]
  ]
]
