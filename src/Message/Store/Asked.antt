-- ===== src/Message/Store/Asked.antt =====
-- lib/msgstore.go: which messages the listing of a folder asks the worker for, and where on the screen
-- they stand.
use aerc.Prelude.{
  ℕ, zero, suc, ◌+◌, ◌<◌, ◌≤◌, ◌≡◌, refl, ap, Bool, true, false, not, ◌&&◌, ◌||◌, inl, inr, List,
  [], ◌∷◌, ◌++◌, String, string_eq, contains, ltb, length, get_elem?, arith, Bool-cases, some, eqb,
  ◌-◌,
}
use aerc.Prelude.Int.{pos, sub_ℕ}
use aerc.Prelude.Map
use aerc.Message.Builder.Refs.{IsOnce}
use aerc.Message.Store.{Store, Action, Event, emit, fetch_message_headers, directory_changed}
use aerc.Message.Store.Requests.{to_fetch, post_some, fetch_headers}
use aerc.Message.Store.Pending.{to_fetch_lem, to_fetch-IsOnce, posted}
use aerc.Message.Store.Update.{actual_position_in_list, is_on_screen, new_uids, after_listing}

-- Of a list of `n` messages, that with the index `i` is shown in the line `k`, from 0: a reversed list
-- begins with its first message, and any other with its last one.
abbrev pub IsInLine : Bool → ℕ → ℕ → ℕ → Type 0
IsInLine true n i k = i ≡ k
IsInLine false n i k = i + suc k ≡ n

-- The store does not know the message with the index `i`, and its line is one of those on the screen.
abbrev pub IsNewOnScreen : Store → List String → ℕ → ℕ → String → Type 0
IsNewOnScreen s us i k v =
    (get_elem? us i ≡ some v)
    × (Map.has v s.messages ≡ false)
    × IsInLine s.ui.reverse_order (length us) i k
    × (s.scroll_offset ≤ k)
    × (k < s.scroll_offset + s.scroll_len)

line_of : (reverse : Bool) (n i : ℕ) → i < n → (k : ℕ) × IsInLine reverse n i k
line_of true n i h = (i, refl)
line_of false n i h = (n - suc i, omega arith)

on_screen_iff :
    (s : Store) (reverse : Bool) (n i k : ℕ)
    → IsInLine reverse n i k
    → is_on_screen s (actual_position_in_list i n reverse)
      ≡ (not (ltb k s.scroll_offset) && ltb k (s.scroll_offset + s.scroll_len))
on_screen_iff s true n i k e = ground (arith, e)
on_screen_iff s false n i k e =
    let p : sub_ℕ n (i + 1) ≡ pos k = ground (arith, e) in ground (arith, p)

get_elem?-bound : (us : List String) (i : ℕ) (v : String) → get_elem? us i ≡ some v → i < length us
get_elem?-bound [] i v h = absurd (ground arith)
get_elem?-bound (u ∷ us) zero v h = omega arith
get_elem?-bound (u ∷ us) (suc i) v h = let l = get_elem?-bound us i v h in omega arith

new_uids-asked :
    (s : Store) (n i : ℕ) (us : List String) (j : ℕ) (v : String)
    → get_elem? us j ≡ some v
    → Map.has v s.messages ≡ false
    → is_on_screen s (actual_position_in_list (i + j) n s.ui.reverse_order) ≡ true
    → contains (new_uids s n i us) v ≡ true
new_uids-asked s n i [] j v at new on = absurd (ground arith)
new_uids-asked s n i (u ∷ us) zero v at new on =
    let e : i + 0 ≡ i = omega arith in ground (arith, e, string_eq.beq_iff u v)
new_uids-asked s n i (u ∷ us) (suc j) v at new on =
    let e : i + suc j ≡ suc i + j = omega arith in
    ground (arith, e, new_uids-asked s n (suc i) us j v)

-- Where a message that is asked for stands.
new_uids-listed :
    (s : Store) (n i : ℕ) (us : List String) (v : String)
    → contains (new_uids s n i us) v ≡ true
    → (j : ℕ) × (get_elem? us j ≡ some v)
      × (Map.has v s.messages ≡ false)
      × (is_on_screen s (actual_position_in_list (i + j) n s.ui.reverse_order) ≡ true)
new_uids-listed s n i [] v c = absurd (ground arith)
new_uids-listed s n i (u ∷ us) v c =
    let later : contains (new_uids s n (suc i) us) v ≡ true
        → (j : ℕ) × (get_elem? (u ∷ us) j ≡ some v)
          × (Map.has v s.messages ≡ false)
          × (is_on_screen s (actual_position_in_list (i + j) n s.ui.reverse_order) ≡ true) =
      λ c'.
        let (j, at, new, on) = new_uids-listed s n (suc i) us v c' in
        let e : i + suc j ≡ suc i + j = omega arith in (suc j, at, new, ground (arith, e, on)) in
    elim (Bool-cases (
      not (Map.has u s.messages)
      && is_on_screen s (actual_position_in_list i n s.ui.reverse_order))) [
        | inr old ↦ later (ground (arith, old, c))
        | inl fresh ↦ elim (Bool-cases (eqb u v)) [
          | inr other ↦ later (ground (arith, fresh, c, other))
          | inl same ↦
              let e : i + 0 ≡ i = omega arith in
              let f : u ≡ v = (string_eq.beq_iff u v).0 same in
              (0, ap some f, ground (arith, f, fresh), ground (arith, e, fresh))
        ]
      ]

-- Exactly the new messages on the screen are asked for.
pub new_uids_lem :
    (s : Store) (us : List String) (v : String)
    → ((i k : ℕ) → IsNewOnScreen s us i k v → contains (new_uids s (length us) 0 us) v ≡ true)
      × (contains (new_uids s (length us) 0 us) v ≡ true
          → (i : ℕ) × (k : ℕ) × IsNewOnScreen s us i k v)
new_uids_lem s us v = (
  λ i k (at, new, line, low, high).
      let z : 0 + i ≡ i = omega arith in
      let on = on_screen_iff s s.ui.reverse_order (length us) i k line in
      new_uids-asked s (length us) 0 us i v at new (ground (arith, z, on)),
  λ c.
      let (i, at, new, on) = new_uids-listed s (length us) 0 us v c in
      let z : 0 + i ≡ i = omega arith in
      let (k, line) = line_of s.ui.reverse_order (length us) i (get_elem?-bound us i v at) in
      let e = on_screen_iff s s.ui.reverse_order (length us) i k line in
      let b : (not (ltb k s.scroll_offset) && ltb k (s.scroll_offset + s.scroll_len)) ≡ true =
        ground (arith, e, z, on) in
      (i, k, (at, new, line, ground (arith, b), ground (arith, b))),
)

-- After the listing only the requests and the events are others.
abbrev pub asked : Store → List Action → List Event → List String → Store
asked s as' e p = record s { actions = as'; events = e; pending_headers = p }

fetch_headers-asked :
    (us : List String) (s : Store)
    → fetch_headers us s
      ≡ asked s
          (posted (to_fetch us s.pending_headers).0 s.actions)
          s.events
          (to_fetch us s.pending_headers).1
unfolding fetch_headers
fetch_headers-asked us s =
    let (f, p) = to_fetch us s.pending_headers in
    post_some-asked f (record s { pending_headers = p })
  where
    post_some-asked :
        (f : List String) (t : Store)
        → post_some f (fetch_message_headers f) t ≡ record t { actions = posted f t.actions }
    post_some-asked [] t = refl
    post_some-asked (u ∷ f) t = refl

-- The worker is asked for the given messages that are not pending, each once, and these are pending then.
pub after_listing-asked :
    (w c : Bool) (us : List String) (s : Store)
    → (e : List Event) × (f : List String) × (p : List String) × (after_listing w c us s
        ≡ asked s (posted f s.actions) e p)
      × IsOnce f
      × ((v : String) → contains f v ≡ (contains us v && not (contains s.pending_headers v)))
      × ((v : String) → contains p v ≡ (contains s.pending_headers v || contains f v))
unfolding after_listing
after_listing-asked w c us s =
    let (f, p) = to_fetch us s.pending_headers in
    let lem = to_fetch_lem us s.pending_headers in
    let (e, g) = listed w c us s in
    (e, f, p, g, to_fetch-IsOnce us s.pending_headers, λ v. (lem v).0, λ v. ground (arith, lem v))
  where
    listed :
        (w c : Bool) (us : List String) (s : Store)
        → (e : List Event) × (after_listing w c us s
            ≡ asked s
                (posted (to_fetch us s.pending_headers).0 s.actions)
                e
                (to_fetch us s.pending_headers).1)
    listed w c [] s = elim (Bool-cases (w && c)) [
      | inl both ↦ (s.events ++ directory_changed ∷ [], ground (arith, both))
      | inr not_both ↦ (s.events, ground (arith, not_both))
    ]
    listed true true (u ∷ us) s = (
      s.events ++ directory_changed ∷ [],
      fetch_headers-asked (u ∷ us) (emit directory_changed s),
    )
    listed true false (u ∷ us) s = (
      s.events ++ directory_changed ∷ [],
      ap (emit directory_changed) (fetch_headers-asked (u ∷ us) s),
    )
    listed false c (u ∷ us) s = (s.events, fetch_headers-asked (u ∷ us) s)
