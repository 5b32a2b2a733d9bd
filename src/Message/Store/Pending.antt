-- ===== src/Message/Store/Pending.antt =====
-- lib/msgstore.go: no message is asked for twice, and what becomes of the marks for deletion and of the
-- callbacks when the worker answers.
use aerc.Prelude.{
  ◌≡◌, ◌≢◌, refl, ap, ◌∙◌, Bool, true, false, not, ◌&&◌, ◌||◌, inl, inr, List, [], ◌∷◌, ◌++◌,
  String, string_eq, contains, if◌then◌else◌, arith, Bool-cases,
}
use aerc.Marker.{insert, insert_all, remove}
use aerc.Marker.Marks.{contains-insert, contains-remove, contains-insert_all}
use aerc.Message.Builder.Refs.{IsOnce}
use aerc.Message.Store.{Store, Action, fetch_message_headers}
use aerc.Message.Store.Requests.{
  Reply, failed, unsupported, finished, cancelled, search_results, to_fetch, post_some,
  fetch_headers, fetch_headers_reply, is_final, remove_all, delete, revert_deleted, delete_reply,
  move, move_reply,
}

pub contains-remove_all :
    (us m : List String) (v : String)
    → contains (remove_all us m) v ≡ (contains m v && not (contains us v))
contains-remove_all [] m v = ground arith
contains-remove_all (u ∷ us) m v =
    ground (arith, contains-remove_all us (remove u m) v, contains-remove u v m)

-- What is fetched was asked for and not pending, each UID once, and all that was asked for is pending
-- afterwards.
pub to_fetch_lem :
    (us p : List String) (v : String)
    → (contains (to_fetch us p).0 v ≡ (contains us v && not (contains p v)))
      × (contains (to_fetch us p).1 v ≡ (contains p v || contains us v))
to_fetch_lem [] p v = (ground arith, ground arith)
to_fetch_lem (u ∷ us) p v = elim (Bool-cases (contains p u)) [
  | inl old ↦ (
    ground (arith, old, to_fetch_lem us p v, string_eq.beq_iff u v),
    ground (arith, old, to_fetch_lem us p v, string_eq.beq_iff u v),
  )
  | inr fresh ↦ (
    ground (
      arith,
      fresh,
      to_fetch_lem us (insert u p) v,
      contains-insert u v p,
      string_eq.beq_iff u v,
    ),
    ground (
      arith,
      fresh,
      to_fetch_lem us (insert u p) v,
      contains-insert u v p,
      string_eq.beq_iff u v,
    ),
  )
]

pub to_fetch-IsOnce : (us p : List String) → IsOnce (to_fetch us p).0
to_fetch-IsOnce [] p = tt
to_fetch-IsOnce (u ∷ us) p = elim (Bool-cases (contains p u)) [
  | inl old ↦ ground (arith, old, to_fetch-IsOnce us p)
  | inr fresh ↦ ground (
    arith,
    fresh,
    to_fetch-IsOnce us (insert u p),
    (to_fetch_lem us (insert u p) u).0,
    contains-insert u u p,
    string_eq.beq_iff u u,
  )
]

abbrev pub posted : List String → List Action → List Action
posted [] as' = as'
posted (u ∷ us) as' = as' ++ fetch_message_headers (u ∷ us) ∷ []

post_some-actions :
    (f : List String) (s : Store)
    → (post_some f (fetch_message_headers f) s).actions ≡ posted f s.actions
post_some-actions [] s = refl
post_some-actions (u ∷ f) s = refl

post_some-pending :
    (f : List String) (a : Action) (s : Store)
    → (post_some f a s).pending_headers ≡ s.pending_headers
post_some-pending [] a s = refl
post_some-pending (u ∷ f) a s = refl

-- `FetchHeaders` asks the worker at most once, for exactly the messages that were wanted and not
-- pending, each once, and afterwards all that were wanted are pending; when the worker has answered
-- for good, exactly those that were pending before are.
pub fetch_headers_lem :
    (us : List String) (s : Store) (v : String)
    → (f : List String) × ((fetch_headers us s).actions ≡ posted f s.actions)
      × IsOnce f
      × (contains f v ≡ (contains us v && not (contains s.pending_headers v)))
      × (contains (fetch_headers us s).pending_headers v
          ≡ (contains s.pending_headers v || contains us v))
      × ((reply : Reply)
          → is_final reply ≡ true
          → contains (fetch_headers_reply f reply (fetch_headers us s)).pending_headers v
            ≡ contains s.pending_headers v)
unfolding fetch_headers fetch_headers_reply
fetch_headers_lem us s v =
    let (f, p) = to_fetch us s.pending_headers in
    let (cf, cp) = to_fetch_lem us s.pending_headers v in
    let s0 = record s { pending_headers = p } in
    let same = post_some-pending f (fetch_message_headers f) s0 in
    (
      f,
      post_some-actions f s0,
      to_fetch-IsOnce us s.pending_headers,
      cf,
      ap (λ l. contains l v) same ∙ cp,
      λ reply final.
          ap
            (λ b.
              contains
                (if b
                  then record (fetch_headers us s) {
                    pending_headers = remove_all f (fetch_headers us s).pending_headers;
                  }
                  else fetch_headers us s).pending_headers
                v)
            final
          ∙ ap (λ l. contains (remove_all f l) v) same
          ∙ contains-remove_all f p v
          ∙ ground (arith, cf, cp),
    )

abbrev pub is_refusal : Reply → Bool
is_refusal failed = true
is_refusal unsupported = true
is_refusal _ = false

-- After `Delete` the messages are marked as deleted; when the worker has failed or cannot do it, none
-- of them is marked any more, and when it has succeeded they stay marked. Other marks stay.
pub delete-delete_reply :
    (us : List String) (s : Store) (v : String)
    → (contains (delete us s).deleted v ≡ (contains us v || contains s.deleted v))
      × ((reply : Reply)
          → contains (delete_reply us reply (delete us s)).deleted v ≡ (
              if is_refusal reply
              then contains s.deleted v && not (contains us v)
              else contains us v || contains s.deleted v))
unfolding delete delete_reply revert_deleted
delete-delete_reply us s v =
    let e = contains-insert_all us s.deleted v in
    (
      e,
      λ reply.
          elim reply
            as (λ r. contains (delete_reply us r (delete us s)).deleted v ≡ (
              if is_refusal r
              then contains s.deleted v && not (contains us v)
              else contains us v || contains s.deleted v)) [
                | failed ↦ contains-remove_all us (insert_all us s.deleted) v ∙ ground (arith, e)
                | unsupported ↦
                    contains-remove_all us (insert_all us s.deleted) v ∙ ground (arith, e)
                | finished ↦ e
                | cancelled ↦ e
                | search_results r ↦ e
              ],
    )

-- After every reply but one, `Move` leaves exactly the marks for deletion that `Delete` leaves. Where
-- the worker cannot do it at all, they differ: the messages stay marked after `Move`, and after `Delete`
-- none of them is marked any more.
pub move_reply-delete_reply :
    (us : List String) (dest : String) (create_dest : Bool) (s : Store) (v : String)
    → ((reply : Reply)
        → reply ≢ unsupported
        → contains (move_reply us dest reply (move us dest create_dest s)).deleted v
          ≡ contains (delete_reply us reply (delete us s)).deleted v)
      × (contains (move_reply us dest unsupported (move us dest create_dest s)).deleted v
          ≡ (contains us v || contains s.deleted v))
      × (contains (delete_reply us unsupported (delete us s)).deleted v
          ≡ (contains s.deleted v && not (contains us v)))
unfolding move move_reply delete delete_reply revert_deleted
move_reply-delete_reply us dest create_dest s v =
    let e : contains (move us dest create_dest s).deleted v
        ≡ (contains us v || contains s.deleted v) =
      ap (λ l. contains l v) (kept create_dest) ∙ contains-insert_all us s.deleted v in
    (λ reply other. same reply other, e, (delete-delete_reply us s v).1 unsupported)
  where
    kept : (b : Bool) → (move us dest b s).deleted ≡ insert_all us s.deleted
    kept true = refl
    kept false = refl

    marks : contains (move us dest create_dest s).deleted v ≡ contains (insert_all us s.deleted) v
    marks = ap (λ l. contains l v) (kept create_dest)

    same :
        (reply : Reply)
        → reply ≢ unsupported
        → contains (move_reply us dest reply (move us dest create_dest s)).deleted v
          ≡ contains (delete_reply us reply (delete us s)).deleted v
    same failed other = ap (λ l. contains (remove_all us l) v) (kept create_dest)
    same unsupported other = absurd (other refl)
    same finished other = marks
    same cancelled other = marks
    same (search_results r) other = marks
