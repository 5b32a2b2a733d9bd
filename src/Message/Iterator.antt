-- ===== src/Message/Iterator.antt =====
-- lib/iterator: the iterators over UIDs or threads, and the moves of an index between the bounds that
-- they give. The code has each iterator once for UIDs and once for threads; here the type of the
-- entries is a parameter.
pub mod Bounds
pub mod Walk
mod Tests
use aerc.Prelude.{
  ℕ, zero, suc, ◌+◌, Bool, true, false, not, Option, none, some, List, [], ◌∷◌, leb, if◌then◌else◌,
  length, Outcome, done, panic, index, ◌>>=◌,
}
use aerc.Prelude.Int.{ℤ, pos, negsuc, sub_ℕ, ◌+ℤ◌, ◌-ℤ◌, ltb_ℤ, rem_ℤ}

unfoldable pub fix_bounds : ℤ → ℤ → ℤ → ℤ
fix_bounds i lower upper = if ltb_ℤ upper i then upper else if ltb_ℤ i lower then lower else i

unfoldable pub wrap_bounds : ℤ → ℤ → ℤ → ℤ
unfolding ◌+ℤ◌ ◌-ℤ◌
wrap_bounds i lower upper =
    if ltb_ℤ (pos 0) upper
    then if ltb_ℤ upper i
      then lower +ℤ rem_ℤ (i -ℤ upper -ℤ pos 1) upper
      else if ltb_ℤ i lower
      then upper -ℤ rem_ℤ (lower -ℤ i -ℤ pos 1) upper
      else i
    else lower

-- The policy is `none` for Go's nil.
unfoldable pub move_index : ℤ → ℤ → ℤ → ℤ → Option (ℤ → ℤ → ℤ → ℤ) → ℤ
unfolding ◌+ℤ◌ ◌-ℤ◌
move_index idx delta start_index end_index cb =
    let policy = elim cb as (λ _. ℤ → ℤ → ℤ → ℤ) [ none ↦ fix_bounds | some f ↦ f ] in
    if ltb_ℤ end_index start_index
    then policy (idx -ℤ delta) end_index start_index
    else policy (idx +ℤ delta) start_index end_index

-- `reversed` says which factory made the iterator.
pub record Iterator (A : Type 0) : Type 0 where
  pub reversed : Bool
  pub entries : List A
  pub position : ℤ

module _ {A : Type 0} where
  unfoldable pub new_iterator : Bool → List A → Iterator A
  new_iterator reverse xs = record {
    reversed = reverse;
    entries = xs;
    position = if reverse then negsuc 0 else pos (length xs);
  }

  unfoldable pub next : Iterator A → Bool × Iterator A
  unfolding ◌+ℤ◌ ◌-ℤ◌
  next it =
      let i = if it.reversed then it.position +ℤ pos 1 else it.position -ℤ pos 1 in
      let more = if it.reversed then ltb_ℤ i (pos (length it.entries)) else not (ltb_ℤ i (pos 0)) in
      (more, record it { position = i })

  unfoldable pub value : Iterator A → Outcome A
  value it = elim it.position [ pos i ↦ index it.entries i | negsuc i ↦ panic ]

  unfoldable pub start_index : Iterator A → ℤ
  start_index it = if it.reversed then pos 0 else sub_ℕ (length it.entries) 1

  unfoldable pub end_index : Iterator A → ℤ
  end_index it = if it.reversed then sub_ℕ (length it.entries) 1 else pos 0

  -- The loop of a client, `for it.Next() { … it.Value() … }`, on fuel.
  unfoldable pub walk : ℕ → Iterator A → Outcome (List A)
  unfolding next value
  walk zero it = done []
  walk (suc fuel) it =
      let (more, it') = next it in
      let rest = walk fuel it' in
      if more then (do x ← value it'; xs ← rest; done (x ∷ xs)) else done []
