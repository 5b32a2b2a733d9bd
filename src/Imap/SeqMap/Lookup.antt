-- ===== src/Imap/SeqMap/Lookup.antt =====
-- What `Get` and `Pop` of worker/imap/seqmap.go read, and the window between the two locks of `Get`.
use aerc.Prelude.{
  ℕ, zero, suc, ◌+◌, ◌-◌, ◌≤◌, ◌<◌, ◌≡◌, refl, ap, true, Option, none, some, List, [], ◌∷◌, arith,
  ltb, if◌then◌else◌, length, get_elem?, done, panic,
}
use aerc.Imap.SeqMap.{SeqMap, size, get_in_range, get_read, get, pop, remove_at}

-- The UID at a sequence number.
abbrev pub entry : List ℕ → ℕ → Option ℕ
entry xs zero = none
entry xs (suc i) = get_elem? xs i

pub get_elem?-beyond : (xs : List ℕ) (i : ℕ) → length xs ≤ i → get_elem? xs i ≡ none
get_elem?-beyond [] i h = refl
get_elem?-beyond (x ∷ xs) zero h = absurd (omega arith)
get_elem?-beyond (x ∷ xs) (suc i) h = get_elem?-beyond xs i (omega arith)

pub get_elem?-within : (xs : List ℕ) (i : ℕ) → i < length xs → (u : ℕ) × (get_elem? xs i ≡ some u)
get_elem?-within [] i h = absurd (omega arith)
get_elem?-within (x ∷ xs) zero h = (x, refl)
get_elem?-within (x ∷ xs) (suc i) h = get_elem?-within xs i (omega arith)

-- `Get` never panics when it runs alone: it returns the UID at a sequence number from 1 to the size
-- of the map, and no UID at any other number.
pub get-eq-entry : (s : SeqMap) (n : ℕ) → get s n ≡ done (entry s.m n)
unfolding get
get-eq-entry s zero = ground arith
get-eq-entry s (suc i) = ground (arith, get_elem?-beyond s.m i, get_elem?-within s.m i)

get_elem?-remove_at :
    (xs : List ℕ) (i j : ℕ)
    → get_elem? (remove_at xs i) j ≡ (if ltb j i then get_elem? xs j else get_elem? xs (suc j))
unfolding remove_at
get_elem?-remove_at [] i j = ground arith
get_elem?-remove_at (x ∷ xs) zero j = ground arith
get_elem?-remove_at (x ∷ xs) (suc i) zero = ground arith
get_elem?-remove_at (x ∷ xs) (suc i) (suc j) = ground (arith, get_elem?-remove_at xs i j)

length-remove_at : (xs : List ℕ) (i : ℕ) → i < length xs → length (remove_at xs i) + 1 ≡ length xs
unfolding remove_at
length-remove_at [] i h = absurd (omega arith)
length-remove_at (x ∷ xs) zero h = omega arith
length-remove_at (x ∷ xs) (suc i) h = omega (arith, length-remove_at xs i)

pub pop_in_range :
    (s s' : SeqMap) (n u : ℕ)
    → pop s n ≡ done (some u, s')
    → (0 < n) × (n ≤ length s.m) × (entry s.m n ≡ some u) × (s'.m ≡ remove_at s.m (n - 1))
unfolding pop
pop_in_range s s' zero u e = absurd (ground arith)
pop_in_range s s' (suc i) u e =
    (omega arith, ground (arith, get_elem?-within s.m i), ground arith, ground arith)

-- After `Pop` has removed a sequence number, the numbers below it have the UIDs that they had, and
-- each number from there on has the UID that the next one had; the map has lost one entry.
pub get-pop :
    (s s' : SeqMap) (n u : ℕ)
    → pop s n ≡ done (some u, s')
    → (get s n ≡ done (some u))
      × ((i : ℕ) → get s' i ≡ (if ltb i n then get s i else get s (suc i)))
      × (size s' + 1 ≡ size s)
unfolding size
get-pop s s' n u e =
    let (pos, within, here, gone) = pop_in_range s s' n u e in
    (
      rw (get-eq-entry s n) (ap done here),
      λ i. shifted i,
      rw gone (length-remove_at s.m (n - 1) (omega arith)),
    )
  where
    shifted : (i : ℕ) → get s' i ≡ (if ltb i n then get s i else get s (suc i))
    shifted zero =
        ground (arith, pop_in_range s s' n u e, get-eq-entry s' zero, get-eq-entry s zero)
    shifted (suc i) = ground (
      arith,
      pop_in_range s s' n u e,
      get-eq-entry s' (suc i),
      get-eq-entry s (suc i),
      get-eq-entry s (suc (suc i)),
      get_elem?-remove_at s.m (n - 1) i,
    )

-- `Pop` never panics: a number outside the map changes nothing, one inside it is removed.
pub pop_total :
    (s : SeqMap) (n : ℕ)
    → pop s n ≡ (
        if ltb 0 n
        then if ltb (length s.m) n
          then done (none, s)
          else done (entry s.m n, record { m = remove_at s.m (n - 1) })
        else done (none, s))
unfolding pop
pop_total s zero = ground arith
pop_total s (suc i) = ground (arith, get_elem?-within s.m i)

-- Between the two locks of `Get` another goroutine may call `Pop`: the test passes for the highest
-- sequence number, any one entry is popped, and the read then indexes past the end.
pub get_race :
    (s s' : SeqMap) (n u : ℕ)
    → pop s n ≡ done (some u, s')
    → (get_in_range s (size s) ≡ true) × (get_read s' (size s) ≡ panic)
unfolding get_in_range get_read size
get_race s s' n u e = ground (
  arith,
  pop_in_range s s' n u e,
  length-remove_at s.m (n - 1),
  get_elem?-beyond s'.m (length s.m - 1),
)
