-- ===== src/Imap/Expunge/Stable.antt =====
-- The handler of worker/imap/expungehandler.go against a server that never renumbers, and the UIDs
-- that the handler still waits for.
use aerc.Prelude.{
  ℕ, ◌<◌, ◌≡◌, ◌≢◌, ◌↔◌, refl, ap, ◌∙◌, Bool, true, false, Option, some, List, [], ◌∷◌, map, ◌==◌,
  nat_eq, arith, length, contains, done, ◌⊎◌, inl, inr, Bool-cases,
}
use aerc.Prelude.Map
use aerc.Imap.SeqMap.{SeqMap, u32_mod}
use aerc.Imap.SeqMap.Lookup.{entry}
use aerc.Imap.SeqMap.Order.{NoDup}
use aerc.Imap.SeqMap.Snapshots.{wanted}
use aerc.Imap.Expunge.{
  Policy, auto, stable, ExpungeHandler, new_expunge_handler, pop_sequence_number, pop_each,
  holds_uid, is_expunging_for_delete,
}
use aerc.Imap.Expunge.LowToHigh.{new_expunge_handler-fresh}

-- On the numbers of `ns` the items are those of `f`.
abbrev Agrees : (ℕ → Option ℕ) → List (ℕ × ℕ) → List ℕ → Type 0
Agrees f items [] = Unit
Agrees f items (n ∷ ns) = (Map.get n items ≡ f n) × Agrees f items ns

Agrees-delete :
    (f : ℕ → Option ℕ) (items : List (ℕ × ℕ)) (k : ℕ) (ns : List ℕ)
    → contains ns k ≡ false
    → Agrees f items ns
    → Agrees f (Map.delete k items) ns
Agrees-delete f items k [] h a = tt
Agrees-delete f items k (n ∷ ns) h a =
    ground (arith, Map.get-delete k n items, Agrees-delete f items k ns)

Agrees-all :
    (f : ℕ → Option ℕ) (items : List (ℕ × ℕ)) (ns : List ℕ)
    → ((n : ℕ) → Map.get n items ≡ f n)
    → Agrees f items ns
Agrees-all f items [] h = tt
Agrees-all f items (n ∷ ns) h = (h n, Agrees-all f items ns h)

pop-stable :
    (h : ExpungeHandler) (n : ℕ)
    → h.policy ≡ stable
    → pop_sequence_number h n ≡ (
      Map.get n h.items,
      record h { policy = stable; items = Map.delete n h.items; got_first = true },
    )
unfolding pop_sequence_number
pop-stable h n e = ground arith

pop_each-stable :
    (f : ℕ → Option ℕ) (h : ExpungeHandler) (ns : List ℕ)
    → h.policy ≡ stable
    → NoDup ns
    → Agrees f h.items ns
    → pop_each h ns ≡ map f ns
unfolding pop_each
pop_each-stable f h [] e d a = refl
pop_each-stable f h (n ∷ ns) e d a =
    let next : ExpungeHandler = record h {
      policy = stable;
      items = Map.delete n h.items;
      got_first = true;
    } in
    rw (pop-stable h n e, a.0)
      (ap (λ l. f n ∷ l)
        (pop_each-stable f next ns refl d.1 (Agrees-delete f h.items n ns d.0 a.1)))

pop_each-deduced :
    (h : ExpungeHandler) (n : ℕ) (ns : List ℕ)
    → h.policy ≡ auto
    → h.got_first ≡ false
    → n ≢ h.min_num
    → pop_each h (n ∷ ns) ≡ pop_each (record h { policy = stable }) (n ∷ ns)
unfolding pop_each pop_sequence_number
pop_each-deduced h n ns e f m = ground arith

-- The handler of `NewExpungeHandler` for a mailbox below 2 ^ 32 messages, where the policy is stable,
-- or is automatic and the first reply is not the lowest number: whatever the order of the replies, as
-- long as no number comes twice, each is resolved to the UID that it had in the mailbox when the
-- handler was made, or refused if that UID is not among those to expunge.
pub pop_each-any_order :
    (s s' : SeqMap) (policy : Policy) (uids : List ℕ) (for_delete : Bool) (h : ExpungeHandler)
    (n : ℕ) (ns : List ℕ)
    → length s.m < u32_mod
    → new_expunge_handler s policy uids for_delete ≡ done (h, s')
    → (policy ≡ stable) ⊎ ((policy ≡ auto) × (n ≢ h.min_num))
    → NoDup (n ∷ ns)
    → pop_each h (n ∷ ns) ≡ map (λ q. wanted uids (entry s.m q)) (n ∷ ns)
pop_each-any_order s s' policy uids for_delete h n ns fits e p d =
    let (snap, low, same, is) = new_expunge_handler-fresh s s' policy uids for_delete h fits e in
    let items : h.items ≡ snap = ap (λ (t : ExpungeHandler). t.items) same in
    let agree : Agrees (λ q. wanted uids (entry s.m q)) h.items (n ∷ ns) =
      Agrees-all _ h.items (n ∷ ns) (λ q. rw items (is.maps q)) in
    elim p [
      | inl st ↦ pop_each-stable _ h (n ∷ ns) (ground arith) d agree
      | inr (au, ne) ↦
          pop_each-deduced h n ns (ground arith) (ground arith) ne
          ∙ pop_each-stable _ (record h { policy = stable }) (n ∷ ns) refl d agree
    ]

holds_uid→get :
    (items : List (ℕ × ℕ)) (u : ℕ)
    → Map.IsDistinct items
    → holds_uid items u ≡ true
    → (q : ℕ) × (Map.get q items ≡ some u)
unfolding holds_uid
holds_uid→get [] u d h = absurd (ground arith)
holds_uid→get ((k, v) ∷ items) u d h = elim (Bool-cases (v == u)) [
  | inl here ↦ (k, ground arith)
  | inr there ↦
      let (q, g) = holds_uid→get items u d.1 (ground arith) in
      (q, ground (arith, Map.get_of_not_has k items))
]

get→holds_uid :
    (items : List (ℕ × ℕ)) (q u : ℕ) → Map.get q items ≡ some u → holds_uid items u ≡ true
unfolding holds_uid
get→holds_uid [] q u h = absurd (ground arith)
get→holds_uid ((k, v) ∷ items) q u h = ground (arith, get→holds_uid items q u)

-- With each number once among its items, the handler says that it is expunging a UID for deletion
-- exactly when it was made for a deletion and some outstanding number still stands for that UID.
pub is_expunging_for_delete_iff :
    (h : ExpungeHandler) (u : ℕ)
    → Map.IsDistinct h.items
    → (is_expunging_for_delete h u ≡ true)
      ↔ ((h.for_delete ≡ true) × ((q : ℕ) × (Map.get q h.items ≡ some u)))
unfolding is_expunging_for_delete
is_expunging_for_delete_iff h u d = (
  λ e. (ground arith, holds_uid→get h.items u d (ground arith)),
  λ (f, (q, g)). ground (arith, get→holds_uid h.items q u),
)
