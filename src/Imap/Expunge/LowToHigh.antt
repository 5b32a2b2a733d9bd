-- ===== src/Imap/Expunge/LowToHigh.antt =====
-- The handler of worker/imap/expungehandler.go against a server that deletes by increasing sequence
-- number, and renumbers the messages behind each one that it deletes.
use aerc.Prelude.{
  ℕ, suc, ◌+◌, ◌%◌, ◌≤◌, ◌<◌, ◌≡◌, ◌≢◌, refl, ap, subst, ◌∙◌, Bool, true, false, Option, none, some,
  List, [], ◌∷◌, map, ◌==◌, ltb, if◌then◌else◌, nat_eq, arith, length, get_elem?, contains, done,
  ◌⊎◌, inl, inr, Bool-cases,
}
use aerc.Prelude.Map
use aerc.Imap.SeqMap.{SeqMap, u32_mod}
use aerc.Imap.SeqMap.Lookup.{get_elem?-beyond}
use aerc.Imap.SeqMap.Snapshots.{KeysFit, delete-KeysFit, wanted, IsSnapshot, snapshot-IsSnapshot}
use aerc.Imap.Expunge.{
  Policy, auto, low_to_high, stable, ExpungeHandler, new_expunge_handler, pop_sequence_number,
  pop_each, shift,
}
use aerc.Imap.Expunge.Shift.{get-shift, shift-KeysFit, shift-IsDistinct}

-- The replies of such a server, each a sequence number with the UID that it stands for. The server
-- has the messages `mailbox` from the position `pos` on, and deletes those of `uids`.
abbrev pub low_replies : List ℕ → ℕ → List ℕ → List (ℕ × ℕ)
low_replies uids pos [] = []
low_replies uids pos (x ∷ xs) =
    if contains uids x then (pos, x) ∷ low_replies uids pos xs else low_replies uids (pos + 1) xs

-- The handler's items say what the server has from `pos` on.
record Tracks (uids : List ℕ) (pos : ℕ) (xs : List ℕ) (items : List (ℕ × ℕ)) : Type 0 where
  before : (q : ℕ) → q < pos → Map.get q items ≡ none
  after : (i : ℕ) → Map.get (pos + i) items ≡ wanted uids (get_elem? xs i)
  distinct : Map.IsDistinct items
  fit : KeysFit items

get_of_unfit : (q : ℕ) (m : List (ℕ × ℕ)) → KeysFit m → u32_mod ≤ q → Map.get q m ≡ none
get_of_unfit q [] f h = refl
get_of_unfit q ((k, v) ∷ m) f h = ground (arith, get_of_unfit q m)

module _ (uids : List ℕ) (pos x : ℕ) (xs : List ℕ) (items : List (ℕ × ℕ)) where
  Tracks-skip :
      contains uids x ≡ false → Tracks uids pos (x ∷ xs) items → Tracks uids (pos + 1) xs items
  Tracks-skip left t = record {
    before = λ q h. ground (arith, t.before q, t.after 0);
    after = λ i. let e : pos + 1 + i ≡ pos + suc i = omega arith in rw e (t.after (suc i));
    distinct = t.distinct;
    fit = t.fit;
  }

  -- The items after the UID at `pos` was popped.
  abbrev next_items : List (ℕ × ℕ)
  next_items = shift (Map.delete pos items) []

  get-next :
      (q : ℕ)
      → q < u32_mod
      → Tracks uids pos (x ∷ xs) items
      → Map.get q next_items
        ≡ (if pos == (q + 1) % u32_mod then none else Map.get ((q + 1) % u32_mod) items)
  get-next q h t =
      get-shift q (Map.delete pos items) h (delete-KeysFit pos items t.fit)
        (Map.delete-IsDistinct pos items t.distinct)
      ∙ Map.get-delete pos ((q + 1) % u32_mod) items

  Tracks-take :
      0 < pos
      → pos + length xs < u32_mod
      → Tracks uids pos (x ∷ xs) items
      → Tracks uids pos xs next_items
  Tracks-take p h t = record {
    before = λ q l. ground (arith, get-next q (omega arith) t, t.before (q + 1));
    after = λ i. after i;
    distinct = shift-IsDistinct (Map.delete pos items);
    fit = shift-KeysFit (Map.delete pos items);
  }
    where
      after : (i : ℕ) → Map.get (pos + i) next_items ≡ wanted uids (get_elem? xs i)
      after i = elim (Bool-cases (ltb (pos + i + 1) u32_mod)) [
        | inl fits ↦
            let e : pos + suc i ≡ pos + i + 1 = omega arith in
            ground (
              arith,
              get-next (pos + i) (ground arith) t,
              ap (λ k. Map.get k items) e,
              t.after (suc i),
            )
        | inr over ↦ ground (
          arith,
          get-next (pos + i),
          t.before 0 p,
          get_elem?-beyond xs i,
          get_of_unfit (pos + i) next_items (shift-KeysFit (Map.delete pos items)),
        )
      ]

abbrev pub sequence_numbers : List (ℕ × ℕ) → List ℕ
sequence_numbers = map (λ r. r.0)

abbrev pub found_uids : List (ℕ × ℕ) → List (Option ℕ)
found_uids = map (λ r. some r.1)

pop-low :
    (h : ExpungeHandler) (n u : ℕ)
    → h.policy ≡ low_to_high
    → Map.get n h.items ≡ some u
    → pop_sequence_number h n ≡ (
      some u,
      record h { policy = low_to_high; items = shift (Map.delete n h.items) []; got_first = true },
    )
unfolding pop_sequence_number
pop-low h n u e f = ground arith

get-head :
    (uids : List ℕ) (pos x : ℕ) (xs : List ℕ) (items : List (ℕ × ℕ))
    → contains uids x ≡ true
    → Tracks uids pos (x ∷ xs) items
    → Map.get pos items ≡ some x
get-head uids pos x xs items c t = ground (arith, t.after 0)

pop_each-Tracks :
    (uids : List ℕ) (pos : ℕ) (xs : List ℕ) (h : ExpungeHandler)
    → 0 < pos
    → pos + length xs ≤ u32_mod
    → h.policy ≡ low_to_high
    → Tracks uids pos xs h.items
    → pop_each h (sequence_numbers (low_replies uids pos xs)) ≡ found_uids (low_replies uids pos xs)
unfolding pop_each
pop_each-Tracks uids pos [] h p fits e t = refl
pop_each-Tracks uids pos (x ∷ xs) h p fits e t = elim (Bool-cases (contains uids x)) [
  | inl taken ↦
      let next : ExpungeHandler = record h {
        policy = low_to_high;
        items = shift (Map.delete pos h.items) [];
        got_first = true;
      } in
      rw (taken, pop-low h pos x e (get-head uids pos x xs h.items taken t))
        (ap (λ l. some x ∷ l)
          (pop_each-Tracks uids pos xs next p (omega arith) refl
            (Tracks-take uids pos x xs h.items p (omega arith) t)))
  | inr left ↦ rw left (
      pop_each-Tracks uids (pos + 1) xs h (omega arith) (omega arith) e
        (Tracks-skip uids pos x xs h.items left t))
]

Tracks-snapshot :
    (s s' : SeqMap) (uids : List ℕ) (snap : List (ℕ × ℕ)) (low : ℕ)
    → IsSnapshot s uids snap low s'
    → Tracks uids 1 s.m snap
Tracks-snapshot s s' uids snap low p = record {
  before = λ q h. ground (arith, p.maps 0);
  after = λ i. let e : 1 + i ≡ suc i = omega arith in rw e (p.maps (suc i));
  distinct = p.distinct;
  fit = p.fit;
}

-- The first of the replies is the lowest number of the snapshot.
low_replies-head :
    (uids : List ℕ) (pos : ℕ) (xs : List ℕ) (items : List (ℕ × ℕ)) (low n u : ℕ)
    (rest : List (ℕ × ℕ))
    → Tracks uids pos xs items
    → ((q v : ℕ) → Map.get q items ≡ some v → (0 < low) × (low ≤ q))
    → (low ≡ 0) ⊎ ((v : ℕ) × (Map.get low items ≡ some v))
    → low_replies uids pos xs ≡ (n, u) ∷ rest
    → n ≡ low
low_replies-head uids pos [] items low n u rest t l p e = absurd (ground arith)
low_replies-head uids pos (x ∷ xs) items low n u rest t l p e =
    elim (Bool-cases (contains uids x)) [
      | inl taken ↦ ground (arith, l pos x, t.before low, get-head uids pos x xs items taken t)
      | inr left ↦
          low_replies-head uids (pos + 1) xs items low n u rest
            (Tracks-skip uids pos x xs items left t) l p (ground arith)
    ]

-- Under the automatic policy, replies that begin with the lowest number are taken as low-to-high.
pop_each-auto :
    (h : ExpungeHandler) (rs : List (ℕ × ℕ))
    → h.policy ≡ auto
    → h.got_first ≡ false
    → ((n u : ℕ) (rest : List (ℕ × ℕ)) → rs ≡ (n, u) ∷ rest → n ≡ h.min_num)
    → pop_each h (sequence_numbers rs)
      ≡ pop_each (record h { policy = low_to_high }) (sequence_numbers rs)
unfolding pop_each pop_sequence_number
pop_each-auto h [] e f m = refl
pop_each-auto h ((n, u) ∷ rs) e f m = ground (arith, m n u rs refl)

-- A handler over a snapshot, before the first reply.
abbrev pub fresh : Policy → List (ℕ × ℕ) → ℕ → Bool → ExpungeHandler
fresh policy snap low for_delete = record {
  policy = policy;
  items = snap;
  min_num = low;
  for_delete = for_delete;
  got_first = false;
}

fresh-low_replies :
    (s s' : SeqMap) (policy : Policy) (uids : List ℕ) (snap : List (ℕ × ℕ)) (low : ℕ)
    (for_delete : Bool)
    → length s.m < u32_mod
    → policy ≢ stable
    → IsSnapshot s uids snap low s'
    → pop_each (fresh policy snap low for_delete) (sequence_numbers (low_replies uids 1 s.m))
      ≡ found_uids (low_replies uids 1 s.m)
fresh-low_replies s s' stable uids snap low for_delete fits p is = absurd (p refl)
fresh-low_replies s s' low_to_high uids snap low for_delete fits p is =
    pop_each-Tracks uids 1 s.m (fresh low_to_high snap low for_delete) (omega arith) (omega arith)
      refl (Tracks-snapshot s s' uids snap low is)
fresh-low_replies s s' auto uids snap low for_delete fits p is =
    let t = Tracks-snapshot s s' uids snap low is in
    pop_each-auto (fresh auto snap low for_delete) (low_replies uids 1 s.m) refl refl
      (λ n u rest e. low_replies-head uids 1 s.m snap low n u rest t is.lowest is.present e)
    ∙ pop_each-Tracks uids 1 s.m (fresh low_to_high snap low for_delete) (omega arith) (omega arith)
        refl t

pub new_expunge_handler-fresh :
    (s s' : SeqMap) (policy : Policy) (uids : List ℕ) (for_delete : Bool) (h : ExpungeHandler)
    → length s.m < u32_mod
    → new_expunge_handler s policy uids for_delete ≡ done (h, s')
    → (snap : List (ℕ × ℕ)) × (low : ℕ) × (h ≡ fresh policy snap low for_delete)
      × IsSnapshot s uids snap low s'
unfolding new_expunge_handler
new_expunge_handler-fresh s s' policy uids for_delete h fits e =
    let (snap, low, t, eq, is) = snapshot-IsSnapshot s uids fits in
    let same : t ≡ s' = ground arith in
    (snap, low, ground arith, subst (λ r. IsSnapshot s uids snap low r) same is)

-- The handler of `NewExpungeHandler` under the automatic or the low-to-high policy, for a mailbox
-- below 2 ^ 32 messages: the replies of a server that deletes `uids` by increasing sequence number,
-- each number counted after the deletions before it, are resolved to exactly the UIDs that the server
-- deletes, and none is refused.
pub pop_each-low_replies :
    (s s' : SeqMap) (policy : Policy) (uids : List ℕ) (for_delete : Bool) (h : ExpungeHandler)
    → length s.m < u32_mod
    → policy ≢ stable
    → new_expunge_handler s policy uids for_delete ≡ done (h, s')
    → pop_each h (sequence_numbers (low_replies uids 1 s.m)) ≡ found_uids (low_replies uids 1 s.m)
pop_each-low_replies s s' policy uids for_delete h fits p e =
    let (snap, low, same, is) = new_expunge_handler-fresh s s' policy uids for_delete h fits e in
    rw same (fresh-low_replies s s' policy uids snap low for_delete fits p is)
