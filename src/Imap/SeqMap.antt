-- ===== src/Imap/SeqMap.antt =====
-- worker/imap/seqmap.go: the map from IMAP sequence numbers to message UIDs. A sequence number is a
-- uint32 that counts from 1, so `Get` and `Pop` index the slice at seqnum - 1.
pub mod Order
pub mod Lookup
pub mod Snapshots
mod Tests
use aerc.Prelude.{
  ℕ, zero, suc, ◌+◌, ◌-◌, ◌%◌, ◌^◌, Bool, true, false, ◌||◌, Option, none, some, List, [], ◌∷◌,
  ◌++◌, ltb, leb, ◌==◌, if◌then◌else◌, length, contains, Outcome, done, index, nat_eq, ◌>>=◌,
}
use aerc.Prelude.Map

abbrev pub u32_mod : ℕ
u32_mod = 2 ^ 32

pub record SeqMap : Type 0 where
  pub m : List ℕ

-- slices.Sort on numbers
pub insert_sorted : ℕ → List ℕ → List ℕ
insert_sorted u [] = u ∷ []
insert_sorted u (x ∷ xs) = if leb u x then u ∷ x ∷ xs else x ∷ insert_sorted u xs

unfoldable pub sort_uids : List ℕ → List ℕ
unfolding insert_sorted
sort_uids [] = []
sort_uids (x ∷ xs) = insert_sorted x (sort_uids xs)

unfoldable pub sort : SeqMap → SeqMap
unfolding sort_uids
sort s = record { m = sort_uids s.m }

unfoldable pub initialize : List ℕ → SeqMap
unfolding sort
initialize uids = sort (record { m = uids })

unfoldable pub size : SeqMap → ℕ
size s = length s.m

-- `Get` takes the lock twice: once in `Size`, for the test, and once to read the slice.
unfoldable pub get_in_range : SeqMap → ℕ → Bool
unfolding size
get_in_range s seqnum = if ltb (size s) seqnum || ltb seqnum 1 then false else true

unfoldable pub get_read : SeqMap → ℕ → Outcome (Option ℕ)
get_read s seqnum = do uid ← index s.m (seqnum - 1); done (some uid)

-- The whole of `Get`, where no other goroutine comes between. `none` is Go's `0, false`.
unfoldable pub get : SeqMap → ℕ → Outcome (Option ℕ)
unfolding get_in_range get_read
get s seqnum = if get_in_range s seqnum then get_read s seqnum else done none

unfoldable pub put : SeqMap → ℕ → SeqMap
unfolding sort
put s uid = if contains s.m uid then s else sort (record { m = s.m ++ uid ∷ [] })

-- append(xs[:i], xs[i+1:]...)
pub remove_at : List ℕ → ℕ → List ℕ
remove_at [] i = []
remove_at (x ∷ xs) zero = xs
remove_at (x ∷ xs) (suc i) = x ∷ remove_at xs i

unfoldable pub pop : SeqMap → ℕ → Outcome (Option ℕ × SeqMap)
unfolding remove_at
pop s seqnum =
    if ltb (length s.m) seqnum || ltb seqnum 1
    then done (none, s)
    else do uid ← index s.m (seqnum - 1); done (some uid, record { m = remove_at s.m (seqnum - 1) })

-- The variables of the first loop of `Snapshot`.
pub record Scan : Type 0 where
  pub snapshot : List (ℕ × ℕ)
  pub min_sequence_num : ℕ
  pub snapshot_seq_nums : List ℕ

unfoldable pub scan_one : List ℕ → ℕ → ℕ → Scan → Scan
scan_one uids num uid v =
    let seq_num = (num + 1) % u32_mod in
    if contains uids uid
    then record {
      snapshot = Map.put seq_num uid v.snapshot;
      min_sequence_num = if v.min_sequence_num == 0 then seq_num else v.min_sequence_num;
      snapshot_seq_nums = v.snapshot_seq_nums ++ seq_num ∷ [];
    }
    else v

-- for num, uid := range s.m
unfoldable pub scan : List ℕ → ℕ → List ℕ → Scan → Scan
unfolding scan_one
scan uids num [] v = v
scan uids num (uid ∷ rest) v = scan uids (num + 1) rest (scan_one uids num uid v)

-- The second loop, from the last of the numbers to the first. A failed `Pop` is logged only.
unfoldable pub pop_all : List ℕ → SeqMap → Outcome SeqMap
unfolding pop
pop_all [] s = done s
pop_all (n ∷ ns) s = do s' ← pop_all ns s; (_, s'') ← pop s' n; done s''

unfoldable pub snapshot : SeqMap → List ℕ → Outcome (List (ℕ × ℕ) × ℕ × SeqMap)
unfolding scan pop_all
snapshot s uids =
    let v =
      scan uids 0 s.m (record { snapshot = []; min_sequence_num = 0; snapshot_seq_nums = [] }) in
    do s' ← pop_all v.snapshot_seq_nums s; done (v.snapshot, v.min_sequence_num, s')
