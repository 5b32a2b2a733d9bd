-- ===== src/Imap/Expunge/Tests.antt =====
-- worker/imap/expungehandler.go on a concrete mailbox, and the theorems at it.
use aerc.Prelude.{ℕ, ◌≡◌, refl, true, some, none, List, [], ◌∷◌, map, done, arith, inl, nat_eq}
use aerc.Imap.SeqMap.{SeqMap, snapshot}
use aerc.Imap.SeqMap.Lookup.{entry}
use aerc.Imap.SeqMap.Snapshots.{wanted}
use aerc.Imap.Expunge.{
  Policy, auto, stable, ExpungeHandler, new_expunge_handler, pop_sequence_number, pop_each,
}
use aerc.Imap.Expunge.LowToHigh.{
  low_replies, sequence_numbers, found_uids, fresh, pop_each-low_replies,
}
use aerc.Imap.Expunge.Stable.{pop_each-any_order}

abbrev inbox : SeqMap
inbox = record { m = 3 ∷ 8 ∷ 9 ∷ 40 ∷ [] }

abbrev doomed : List ℕ
doomed = 9 ∷ 3 ∷ 40 ∷ []

abbrev handler : Policy → ExpungeHandler
handler policy = fresh policy ((4, 40) ∷ (3, 9) ∷ (1, 3) ∷ []) 1 true

made :
    (policy : Policy)
    → new_expunge_handler inbox policy doomed true ≡ done (handler policy, record { m = 8 ∷ [] })
unfolding new_expunge_handler snapshot
made policy = refl

-- The server deletes 3, 9 and 40, and answers 1, 2, 2.
low_run : pop_each (handler auto) (1 ∷ 2 ∷ 2 ∷ []) ≡ some 3 ∷ some 9 ∷ some 40 ∷ []
unfolding pop_each pop_sequence_number
low_run = refl

high_run : pop_each (handler auto) (4 ∷ 3 ∷ 1 ∷ []) ≡ some 40 ∷ some 9 ∷ some 3 ∷ []
unfolding pop_each pop_sequence_number
high_run = refl

-- A server that keeps the numbers and begins with the lowest is mistaken for the other kind.
misdeduced : pop_each (handler auto) (1 ∷ 4 ∷ 3 ∷ []) ≡ some 3 ∷ none ∷ some 40 ∷ []
unfolding pop_each pop_sequence_number
misdeduced = refl

pop_each-low_replies_example :
    pop_each (handler auto) (sequence_numbers (low_replies doomed 1 inbox.m))
    ≡ found_uids (low_replies doomed 1 inbox.m)
pop_each-low_replies_example =
    pop_each-low_replies inbox (record { m = 8 ∷ [] }) auto doomed true (handler auto) (omega arith)
      (λ e. ground (arith, e)) (made auto)

pop_each-any_order_example :
    pop_each (handler stable) (3 ∷ 1 ∷ 2 ∷ [])
    ≡ map (λ q. wanted doomed (entry inbox.m q)) (3 ∷ 1 ∷ 2 ∷ [])
pop_each-any_order_example =
    pop_each-any_order inbox (record { m = 8 ∷ [] }) stable doomed true (handler stable) 3
      (1 ∷ 2 ∷ []) (omega arith) (made stable) (inl refl) (refl, (refl, (refl, tt)))
