-- ===== src/Imap/SeqMap/Tests.antt =====
-- worker/imap/seqmap.go on concrete mailboxes, and the theorems at them.

use aerc.Prelude.{
  ℕ, suc, ◌+◌, ◌≡◌, refl, true, some, [], ◌∷◌, List, done, panic, arith, ltb, if◌then◌else◌,
  contains, ◌||◌, ◌==◌, nat_eq,
}
use aerc.Imap.SeqMap.{SeqMap, initialize, size, get, get_in_range, get_read, put, pop, snapshot}
use aerc.Imap.SeqMap.Order.{IsAscending, put-IsAscending}
use aerc.Imap.SeqMap.Lookup.{get-pop, get_race}
use aerc.Imap.SeqMap.Snapshots.{IsSnapshot, snapshot-IsSnapshot}

abbrev inbox : SeqMap
inbox = record { m = 3 ∷ 8 ∷ 9 ∷ 40 ∷ [] }

initialize_sorts : initialize (9 ∷ 3 ∷ 40 ∷ 8 ∷ []) ≡ inbox
unfolding initialize
initialize_sorts = refl

put_between : (put inbox 10).m ≡ 3 ∷ 8 ∷ 9 ∷ 10 ∷ 40 ∷ []
unfolding put
put_between = refl

snapshot_two :
    snapshot inbox (40 ∷ 8 ∷ 7 ∷ []) ≡ done ((4, 40) ∷ (2, 8) ∷ [], 2, record { m = 3 ∷ 9 ∷ [] })
unfolding snapshot
snapshot_two = refl

popped : pop inbox 2 ≡ done (some 8, record { m = 3 ∷ 9 ∷ 40 ∷ [] })
unfolding pop
popped = refl

put-IsAscending_example :
    IsAscending (put inbox 10).m
    × ((v : ℕ) → contains (put inbox 10).m v ≡ ((10 == v) || contains inbox.m v))
put-IsAscending_example = put-IsAscending inbox 10 (omega arith)

get-pop_example :
    (get inbox 2 ≡ done (some 8))
    × ((i : ℕ)
        → get (record { m = 3 ∷ 9 ∷ 40 ∷ [] }) i
          ≡ (if ltb i 2 then get inbox i else get inbox (suc i)))
    × (size (record { m = 3 ∷ 9 ∷ 40 ∷ [] }) + 1 ≡ size inbox)
get-pop_example = get-pop inbox (record { m = 3 ∷ 9 ∷ 40 ∷ [] }) 2 8 popped

get_race_example :
    (get_in_range inbox (size inbox) ≡ true)
    × (get_read (record { m = 3 ∷ 9 ∷ 40 ∷ [] }) (size inbox) ≡ panic)
get_race_example = get_race inbox (record { m = 3 ∷ 9 ∷ 40 ∷ [] }) 2 8 popped

snapshot-IsSnapshot_example :
    (snap : List (ℕ × ℕ)) × (low : ℕ) × (s' : SeqMap) × (snapshot inbox (40 ∷ 8 ∷ [])
      ≡ done (snap, low, s'))
    × IsSnapshot inbox (40 ∷ 8 ∷ []) snap low s'
snapshot-IsSnapshot_example = snapshot-IsSnapshot inbox (40 ∷ 8 ∷ []) (omega arith)
