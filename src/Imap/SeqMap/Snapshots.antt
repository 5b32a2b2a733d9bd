-- ===== src/Imap/SeqMap/Snapshots.antt =====
-- `Snapshot` of worker/imap/seqmap.go against a description that knows no loop: which mappings it
-- takes, and which UIDs stay.
use mathlib.Core.List.{append_assoc, append-nil}
use native.Mathlib.Nat.{add-zero}
use aerc.Prelude.{
  ℕ, zero, suc, ◌+◌, ◌-◌, ◌%◌, ◌≤◌, ◌<◌, ◌≡◌, refl, ap, sym, Option, none, some, List, [], ◌∷◌,
  ◌++◌, arith, ltb, ◌==◌, if◌then◌else◌, length, length-append, get_elem?, contains, done, nat_eq,
  ◌⊎◌, inl, inr, Bool-cases,
}
use aerc.Prelude.Map
use aerc.Imap.SeqMap.{SeqMap, Scan, scan_one, scan, pop, pop_all, snapshot, remove_at, u32_mod}
use aerc.Imap.SeqMap.Lookup.{entry}

-- The UIDs of `xs` that are not in `uids`, in their order.
abbrev pub kept : List ℕ → List ℕ → List ℕ
kept uids [] = []
kept uids (x ∷ xs) = if contains uids x then kept uids xs else x ∷ kept uids xs

-- A UID, if it is one of `uids`.
abbrev pub wanted : List ℕ → Option ℕ → Option ℕ
wanted uids none = none
wanted uids (some u) = if contains uids u then some u else none

abbrev numbers : List ℕ → ℕ → List ℕ → List ℕ
numbers uids num [] = []
numbers uids num (x ∷ xs) =
    if contains uids x then (num + 1) ∷ numbers uids (num + 1) xs else numbers uids (num + 1) xs

-- The numbers that the first loop gathers.
scan-numbers :
    (uids : List ℕ) (num : ℕ) (xs : List ℕ) (v : Scan)
    → num + length xs < u32_mod
    → (scan uids num xs v).snapshot_seq_nums ≡ v.snapshot_seq_nums ++ numbers uids num xs
unfolding scan
scan-numbers uids num [] v h = sym (append-nil v.snapshot_seq_nums)
scan-numbers uids num (x ∷ xs) v h = ground (
  arith,
  scan-numbers uids (num + 1) xs (scan_one uids num x v),
  append_assoc v.snapshot_seq_nums ((num + 1) ∷ []) (numbers uids (num + 1) xs),
)

get_elem?-middle : (pre xs : List ℕ) (x : ℕ) → get_elem? (pre ++ x ∷ xs) (length pre) ≡ some x
get_elem?-middle [] xs x = refl
get_elem?-middle (y ∷ pre) xs x = get_elem?-middle pre xs x

remove_at-middle : (pre xs : List ℕ) (x : ℕ) → remove_at (pre ++ x ∷ xs) (length pre) ≡ pre ++ xs
unfolding remove_at
remove_at-middle [] xs x = refl
remove_at-middle (y ∷ pre) xs x = ap (λ t. y ∷ t) (remove_at-middle pre xs x)

pop-middle :
    (pre xs : List ℕ) (x : ℕ)
    → pop (record { m = pre ++ x ∷ xs }) (suc (length pre))
      ≡ done (some x, record { m = pre ++ xs })
unfolding pop
pop-middle pre xs x =
    ground (arith, get_elem?-middle pre xs x, remove_at-middle pre xs x, length-append pre (x ∷ xs))

-- The second loop removes the gathered numbers, from the highest down.
pop_all-kept :
    (uids : List ℕ) (num : ℕ) (pre xs : List ℕ)
    → num ≡ length pre
    → pop_all (numbers uids num xs) (record { m = pre ++ xs })
      ≡ done (record { m = pre ++ kept uids xs })
unfolding pop_all
pop_all-kept uids num pre [] h = refl
pop_all-kept uids num pre (x ∷ xs) h = ground (
  arith,
  pop_all-kept uids (num + 1) (pre ++ x ∷ []) xs,
  length-append pre (x ∷ []),
  append_assoc pre (x ∷ []) xs,
  append_assoc pre (x ∷ []) (kept uids xs),
  pop-middle pre (kept uids xs) x,
)

-- Every key is a uint32.
abbrev pub KeysFit : List (ℕ × ℕ) → Type 0
KeysFit [] = Unit
KeysFit ((k, v) ∷ m) = (k < u32_mod) × KeysFit m

pub delete-KeysFit : (k : ℕ) (m : List (ℕ × ℕ)) → KeysFit m → KeysFit (Map.delete k m)
delete-KeysFit k [] f = tt
delete-KeysFit k ((j, v) ∷ m) f = ground (arith, delete-KeysFit k m)

pub put-KeysFit : (k u : ℕ) (m : List (ℕ × ℕ)) → KeysFit m → KeysFit (Map.put (k % u32_mod) u m)
put-KeysFit k u m f = (omega arith, delete-KeysFit (k % u32_mod) m f)

-- What holds of the first loop's variables before the entry with sequence number `num + 1`.
record Scanned (num : ℕ) (v : Scan) : Type 0 where
  beyond : (q : ℕ) → num < q → Map.get q v.snapshot ≡ none
  lowest :
      (q u : ℕ)
      → Map.get q v.snapshot ≡ some u
      → (0 < v.min_sequence_num) × (v.min_sequence_num ≤ q)
  present : (v.min_sequence_num ≡ 0) ⊎ ((u : ℕ) × (Map.get v.min_sequence_num v.snapshot ≡ some u))
  low : v.min_sequence_num ≤ num
  distinct : Map.IsDistinct v.snapshot
  fit : KeysFit v.snapshot

module _ (uids : List ℕ) (num x : ℕ) (v : Scan) (h : num + 1 < u32_mod) (c : Scanned num v) where
  get-scan_one :
      (q : ℕ)
      → Map.get q (scan_one uids num x v).snapshot
        ≡ (if q == num + 1 then wanted uids (some x) else Map.get q v.snapshot)
  unfolding scan_one
  get-scan_one q = ground (arith, Map.get-put (num + 1) q x v.snapshot, c.beyond q)

  Scanned-scan_one : Scanned (num + 1) (scan_one uids num x v)
  unfolding scan_one
  Scanned-scan_one = record {
    beyond = λ q b. ground (arith, get-scan_one q, c.beyond q);
    lowest = λ q u e. ground (arith, get-scan_one q, c.lowest q u, c.present, c.beyond q);
    present = elim (Bool-cases (contains uids x)) [
      | inr left ↦ rw left c.present
      | inl taken ↦ elim c.present [
        | inl first ↦ inr (x, ground (arith, get-scan_one (num + 1)))
        | inr (u, e) ↦
            inr (u, ground (arith, get-scan_one v.min_sequence_num, c.lowest v.min_sequence_num u))
      ]
    ];
    low = ground (arith, c.low);
    distinct = ground (arith, Map.put-IsDistinct ((num + 1) % u32_mod) x v.snapshot, c.distinct);
    fit = ground (arith, put-KeysFit (num + 1) x v.snapshot, c.fit);
  }

Scanned-scan :
    (uids : List ℕ) (num : ℕ) (xs : List ℕ) (v : Scan)
    → num + length xs < u32_mod
    → Scanned num v
    → Scanned (num + length xs) (scan uids num xs v)
unfolding scan
Scanned-scan uids num [] v h c = rw add-zero c
Scanned-scan uids num (x ∷ xs) v h c =
    let e : num + suc (length xs) ≡ num + 1 + length xs = omega arith in
    rw e (
      Scanned-scan uids (num + 1) xs (scan_one uids num x v) (omega arith)
        (Scanned-scan_one uids num x v (omega arith) c))

get-scan :
    (uids : List ℕ) (num : ℕ) (xs : List ℕ) (v : Scan) (q : ℕ)
    → num + length xs < u32_mod
    → Scanned num v
    → Map.get q (scan uids num xs v).snapshot
      ≡ (if ltb num q then wanted uids (get_elem? xs (q - (num + 1))) else Map.get q v.snapshot)
unfolding scan
get-scan uids num [] v q h c = ground (arith, c.beyond q)
get-scan uids num (x ∷ xs) v q h c = ground (
  arith,
  get-scan uids (num + 1) xs (scan_one uids num x v) q (omega arith)
      (Scanned-scan_one uids num x v (omega arith) c),
  get-scan_one uids num x v (omega arith) c q,
  get_elem?-first xs x (q - (num + 1)),
  get_elem?-step xs x (q - (num + 1)),
)
  where
    get_elem?-first : (xs : List ℕ) (x i : ℕ) → i ≡ 0 → get_elem? (x ∷ xs) i ≡ some x
    get_elem?-first xs x zero p = refl
    get_elem?-first xs x (suc i) p = absurd (omega arith)

    get_elem?-step : (xs : List ℕ) (x i : ℕ) → 0 < i → get_elem? (x ∷ xs) i ≡ get_elem? xs (i - 1)
    get_elem?-step xs x zero p = absurd (omega arith)
    get_elem?-step xs x (suc i) p = ground arith

abbrev start : Scan
start = record { snapshot = []; min_sequence_num = 0; snapshot_seq_nums = [] }

Scanned-start : Scanned 0 start
Scanned-start = record {
  beyond = λ q b. refl;
  lowest = λ q u e. absurd (ground arith);
  present = inl refl;
  low = omega arith;
  distinct = tt;
  fit = tt;
}

get-scan-start :
    (uids xs : List ℕ) (q : ℕ)
    → length xs < u32_mod
    → Map.get q (scan uids 0 xs start).snapshot ≡ wanted uids (entry xs q)
get-scan-start uids xs zero h =
    ground (arith, get-scan uids 0 xs start zero (omega arith) Scanned-start)
get-scan-start uids xs (suc i) h =
    ground (arith, get-scan uids 0 xs start (suc i) (omega arith) Scanned-start)

-- What `Snapshot` promises of the map `s` before it, its results and the map `s'` after it.
pub record IsSnapshot (s : SeqMap) (uids : List ℕ) (snap : List (ℕ × ℕ)) (low : ℕ) (s' : SeqMap)
    : Type 0 where
  pub maps : (q : ℕ) → Map.get q snap ≡ wanted uids (entry s.m q)
  pub lowest : (q u : ℕ) → Map.get q snap ≡ some u → (0 < low) × (low ≤ q)
  pub present : (low ≡ 0) ⊎ ((u : ℕ) × (Map.get low snap ≡ some u))
  pub rest : s'.m ≡ kept uids s.m
  pub distinct : Map.IsDistinct snap
  pub fit : KeysFit snap

-- What `Snapshot` returns and leaves, of a map below 2 ^ 32 entries: it does not panic; the snapshot
-- maps each sequence number to the UID that it had if that UID was asked for, and no other number;
-- the returned minimum is the lowest of these numbers, or 0 where there is none; and the map that
-- stays has the other UIDs in their order.
-- In the snapshot no number stands twice, and each is a uint32.
pub snapshot-IsSnapshot :
    (s : SeqMap) (uids : List ℕ)
    → length s.m < u32_mod
    → (snap : List (ℕ × ℕ)) × (low : ℕ) × (s' : SeqMap) × (snapshot s uids ≡ done (snap, low, s'))
      × IsSnapshot s uids snap low s'
unfolding snapshot
snapshot-IsSnapshot s uids h =
    let v = scan uids 0 s.m start in
    let c = Scanned-scan uids 0 s.m start (omega arith) Scanned-start in
    (
      v.snapshot,
      v.min_sequence_num,
      record { m = kept uids s.m },
      ground (arith, scan-numbers uids 0 s.m start, pop_all-kept uids 0 [] s.m),
      record {
        maps = λ q. get-scan-start uids s.m q h;
        lowest = c.lowest;
        present = c.present;
        rest = refl;
        distinct = c.distinct;
        fit = c.fit;
      },
    )
