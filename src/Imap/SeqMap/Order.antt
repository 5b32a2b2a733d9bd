-- ===== src/Imap/SeqMap/Order.antt =====
-- The order of the map of worker/imap/seqmap.go: what `sort`, `Put` and `Pop` keep.
use aerc.Prelude.{
  ℕ, zero, suc, ◌-◌, ◌<◌, ◌≡◌, refl, false, ◌||◌, Option, List, [], ◌∷◌, ◌++◌, arith, ◌==◌,
  contains, contains-append, done, nat_eq, Bool-cases, inl, inr,
}
use aerc.Imap.SeqMap.{SeqMap, insert_sorted, sort_uids, initialize, put, pop, remove_at}

-- Every UID of the list is greater than `b`.
abbrev pub Above : ℕ → List ℕ → Type 0
Above b [] = Unit
Above b (x ∷ xs) = (b < x) × Above b xs

-- Strictly ascending, as RFC 3501 wants UIDs to be along the sequence numbers.
abbrev pub IsAscending : List ℕ → Type 0
IsAscending [] = Unit
IsAscending (x ∷ xs) = Above x xs × IsAscending xs

abbrev pub NoDup : List ℕ → Type 0
NoDup [] = Unit
NoDup (x ∷ xs) = (contains xs x ≡ false) × NoDup xs

Above-trans : (b c : ℕ) (xs : List ℕ) → b < c → Above c xs → Above b xs
Above-trans b c [] h a = tt
Above-trans b c (x ∷ xs) h a = (omega arith, Above-trans b c xs h a.1)

Above-insert_sorted : (b u : ℕ) (xs : List ℕ) → b < u → Above b xs → Above b (insert_sorted u xs)
unfolding insert_sorted
Above-insert_sorted b u [] h a = (h, tt)
Above-insert_sorted b u (x ∷ xs) h a = ground (arith, Above-insert_sorted b u xs)

insert_sorted-IsAscending :
    (u : ℕ) (xs : List ℕ)
    → contains xs u ≡ false
    → IsAscending xs
    → IsAscending (insert_sorted u xs)
unfolding insert_sorted
insert_sorted-IsAscending u [] h a = (tt, tt)
insert_sorted-IsAscending u (x ∷ xs) h a =
    ground (arith, insert_sorted-IsAscending u xs, Above-trans u x xs, Above-insert_sorted x u xs)

pub contains-insert_sorted :
    (u v : ℕ) (xs : List ℕ) → contains (insert_sorted u xs) v ≡ ((u == v) || contains xs v)
unfolding insert_sorted
contains-insert_sorted u v [] = refl
contains-insert_sorted u v (x ∷ xs) = ground (arith, contains-insert_sorted u v xs)

pub contains-sort_uids : (v : ℕ) (xs : List ℕ) → contains (sort_uids xs) v ≡ contains xs v
unfolding sort_uids
contains-sort_uids v [] = refl
contains-sort_uids v (x ∷ xs) =
    ground (arith, contains-insert_sorted x v (sort_uids xs), contains-sort_uids v xs)

pub sort_uids-IsAscending : (xs : List ℕ) → NoDup xs → IsAscending (sort_uids xs)
unfolding sort_uids
sort_uids-IsAscending [] h = tt
sort_uids-IsAscending (x ∷ xs) h = ground (
  arith,
  insert_sorted-IsAscending x (sort_uids xs),
  contains-sort_uids x xs,
  sort_uids-IsAscending xs,
)

not-contains_below : (b : ℕ) (xs : List ℕ) → Above b xs → contains xs b ≡ false
not-contains_below b [] a = refl
not-contains_below b (x ∷ xs) a = ground (arith, not-contains_below b xs)

IsAscending→NoDup : (xs : List ℕ) → IsAscending xs → NoDup xs
IsAscending→NoDup [] a = tt
IsAscending→NoDup (x ∷ xs) a = (not-contains_below x xs a.0, IsAscending→NoDup xs a.1)

NoDup-snoc : (u : ℕ) (xs : List ℕ) → contains xs u ≡ false → NoDup xs → NoDup (xs ++ u ∷ [])
NoDup-snoc u [] h d = (refl, tt)
NoDup-snoc u (x ∷ xs) h d = ground (arith, NoDup-snoc u xs, contains-append xs (u ∷ []) x)

-- From UIDs without duplicates, `Initialize` makes a strictly ascending map with the same UIDs.
pub initialize-IsAscending :
    (uids : List ℕ)
    → NoDup uids
    → IsAscending (initialize uids).m × ((v : ℕ) → contains (initialize uids).m v ≡ contains uids v)
unfolding initialize
initialize-IsAscending uids d = (sort_uids-IsAscending uids d, λ v. contains-sort_uids v uids)

-- `Put` keeps the map strictly ascending, adds the given UID, and adds or drops no other.
pub put-IsAscending :
    (s : SeqMap) (u : ℕ)
    → IsAscending s.m
    → IsAscending (put s u).m × ((v : ℕ) → contains (put s u).m v ≡ ((u == v) || contains s.m v))
unfolding put
put-IsAscending s u a = elim (Bool-cases (contains s.m u)) [
  | inl old ↦ rw old (
    a,
    λ v. elim (Bool-cases (u == v)) [
      | inl same ↦ let e : u ≡ v = ground arith in rw (same, ← e) old
      | inr other ↦ rw other
    ],
  )
  | inr new ↦ rw new (
    sort_uids-IsAscending _ (NoDup-snoc u s.m new (IsAscending→NoDup s.m a)),
    λ v. ground (arith, contains-sort_uids v (s.m ++ u ∷ []), contains-append s.m (u ∷ []) v),
  )
]

Above-remove_at : (b : ℕ) (xs : List ℕ) (i : ℕ) → Above b xs → Above b (remove_at xs i)
unfolding remove_at
Above-remove_at b [] i a = tt
Above-remove_at b (x ∷ xs) zero a = a.1
Above-remove_at b (x ∷ xs) (suc i) a = (a.0, Above-remove_at b xs i a.1)

pub remove_at-IsAscending : (xs : List ℕ) (i : ℕ) → IsAscending xs → IsAscending (remove_at xs i)
unfolding remove_at
remove_at-IsAscending [] i a = tt
remove_at-IsAscending (x ∷ xs) zero a = a.1
remove_at-IsAscending (x ∷ xs) (suc i) a =
    (Above-remove_at x xs i a.0, remove_at-IsAscending xs i a.1)

-- Whether or not the sequence number is in range, `Pop` keeps the map strictly ascending.
pub pop-IsAscending :
    (s s' : SeqMap) (n : ℕ) (r : Option ℕ)
    → IsAscending s.m
    → pop s n ≡ done (r, s')
    → IsAscending s'.m
unfolding pop
pop-IsAscending s s' n r a e = ground (arith, remove_at-IsAscending s.m (n - 1))
