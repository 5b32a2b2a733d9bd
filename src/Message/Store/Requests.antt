-- ===== src/Message/Store/Requests.antt =====
-- lib/msgstore.go: what a store asks of the worker, and what it does with the replies. A callback that the
-- caller gives is left out, but for that of a search and those of the bodies.
use aerc.Prelude.{
  ℕ, Bool, true, false, not, ◌&&◌, Option, none, some, List, [], ◌∷◌, ◌++◌, String, string_eq,
  contains, ltb, ◌==◌, if◌then◌else◌, length, Outcome, done, ◌>>=◌,
}
use aerc.Prelude.Int.{ℤ, pos, ◌+ℤ◌, ◌-ℤ◌, ltb_ℤ}
use aerc.Prelude.Map
use aerc.Marker.{insert, insert_all, remove}
use aerc.Message.Sort.{SortCriterion}
use aerc.Message.Threads.{index_map}
use aerc.Message.Store.{
  Store, Action, post, emit, get_uids, selected_index, get_selected_uid, select, next_prev,
  fetch_message_headers, fetch_full_messages, fetch_message_flags, fetch_directory_contents,
  fetch_directory_threaded, delete_messages, move_messages, copy_messages, create_directory,
  append_message, search_directory, modify_labels, flag_messages, answered_messages,
  forwarded_messages, flag_changed, mail_deleted, mail_added, tag_modified, filter_changed,
  run_thread_builder,
}

-- What the worker replies with.
pub data Reply : Type 0 where
  failed unsupported finished cancelled : Reply
  search_results : List String → Reply

-- for _, uid := range uids { delete(m, uid) }
abbrev pub remove_all : List String → List String → List String
remove_all [] m = m
remove_all (u ∷ us) m = remove_all us (remove u m)

abbrev pub delete_all {ℓ} : {V : Type ℓ} → List String → List (String × V) → List (String × V)
delete_all [] m = m
delete_all (u ∷ us) m = delete_all us (Map.delete u m)

-- The loop of the two functions that fetch: the UIDs to fetch, and those that are pending.
abbrev pub to_fetch : List String → List String → List String × List String
to_fetch [] pending = ([], pending)
to_fetch (u ∷ us) pending =
    let old = to_fetch us pending in
    let (f, p) = to_fetch us (insert u pending) in if contains pending u then old else (u ∷ f, p)

abbrev pub post_some : List String → Action → Store → Store
post_some [] a s = s
post_some (u ∷ us) a s = post a s

unfoldable pub fetch_headers : List String → Store → Store
fetch_headers uids s =
    let (f, p) = to_fetch uids s.pending_headers in
    post_some f (fetch_message_headers f) (record s { pending_headers = p })

abbrev pub is_final : Reply → Bool
is_final failed = true
is_final finished = true
is_final cancelled = true
is_final _ = false

-- The callback for the UIDs that were asked for.
unfoldable pub fetch_headers_reply : List String → Reply → Store → Store
fetch_headers_reply f reply s =
    if is_final reply then record s { pending_headers = remove_all f s.pending_headers } else s

abbrev pub callbacks_of : String → List (String × List ℕ) → List ℕ
callbacks_of u m = elim (Map.get u m) [ none ↦ [] | some cbs ↦ cbs ]

abbrev pub add_callback : Option ℕ → String → List (String × List ℕ) → List (String × List ℕ)
add_callback none u m = m
add_callback (some cb) u m = Map.put u (callbacks_of u m ++ cb ∷ []) m

abbrev pub add_callbacks : Option ℕ → List String → List (String × List ℕ) → List (String × List ℕ)
add_callbacks cb [] m = m
add_callbacks cb (u ∷ us) m = add_callbacks cb us (add_callback cb u m)

unfoldable pub fetch_full : List String → Option ℕ → Store → Store
fetch_full uids cb s =
    let (f, p) = to_fetch uids s.pending_bodies in
    post_some f (fetch_full_messages f)
      (record s { pending_bodies = p; body_callbacks = add_callbacks cb f s.body_callbacks })

unfoldable pub fetch_full_reply : List String → Reply → Store → Store
fetch_full_reply f failed s = record s {
  pending_bodies = remove_all f s.pending_bodies;
  body_callbacks = delete_all f s.body_callbacks;
}
fetch_full_reply f reply s = s

-- `Delete` marks the messages as deleted before the worker has answered.
unfoldable pub delete : List String → Store → Store
delete uids s = post (delete_messages uids) (record s { deleted = insert_all uids s.deleted })

unfoldable pub revert_deleted : List String → Store → Store
revert_deleted uids s = record s { deleted = remove_all uids s.deleted }

unfoldable pub delete_reply : List String → Reply → Store → Store
unfolding revert_deleted
delete_reply uids failed s = revert_deleted uids s
delete_reply uids unsupported s = revert_deleted uids s
delete_reply uids finished s = emit mail_deleted s
delete_reply uids reply s = s

abbrev pub create_first : String → Bool → Store → Store
create_first dest create_dest s = if create_dest then post (create_directory dest) s else s

unfoldable pub copy : List String → String → Bool → Store → Store
copy uids dest create_dest s = post (copy_messages uids dest) (create_first dest create_dest s)

-- `Append` makes the folder in any case.
unfoldable pub append : String → Store → Store
append dest s = post (append_message dest) (create_first dest true s)

-- The callback of both.
unfoldable pub added_reply : String → Reply → Store → Store
added_reply dest finished s = emit (mail_added dest) s
added_reply dest reply s = s

unfoldable pub move : List String → String → Bool → Store → Store
move uids dest create_dest s =
    post (move_messages uids dest)
      (create_first dest create_dest (record s { deleted = insert_all uids s.deleted }))

unfoldable pub move_reply : List String → String → Reply → Store → Store
unfolding revert_deleted
move_reply uids dest failed s = revert_deleted uids s
move_reply uids dest finished s = emit (mail_added dest) (emit mail_deleted s)
move_reply uids dest reply s = s

unfoldable pub modify_labels_of :
    List String → List String → List String → List String → Store → Store
modify_labels_of uids add rem toggle s = post (modify_labels uids add rem toggle) s

unfoldable pub modify_labels_reply : List String → List String → List String → Reply → Store → Store
modify_labels_reply add rem toggle finished s = emit (tag_modified add rem toggle) s
modify_labels_reply add rem toggle reply s = s

-- `flags` is one bit or several.
unfoldable pub flag : List String → ℕ → Bool → Store → Store
flag uids flags enable s = post (flag_messages uids flags enable) s

abbrev pub flag_name : ℕ → String
flag_name flags =
    if flags == 1
    then "seen"
    else if flags == 4
    then "answered"
    else if flags == 8
    then "forwarded"
    else if flags == 32
    then "flagged"
    else if flags == 64
    then "draft"
    else ""

unfoldable pub flag_reply : ℕ → Reply → Store → Store
flag_reply flags finished s = emit (flag_changed (flag_name flags)) s
flag_reply flags reply s = s

unfoldable pub answered : List String → Bool → Store → Store
answered uids is_answered s = post (answered_messages uids is_answered) s

unfoldable pub forwarded : List String → Bool → Store → Store
forwarded uids is_forwarded s = post (forwarded_messages uids is_forwarded) s

-- slices.SortFunc, by a number. The code specifies no order of UIDs with one number.
abbrev pub put_in_order : (String → ℕ) → String → List String → List String
put_in_order key u [] = u ∷ []
put_in_order key u (x ∷ xs) =
    let rest = put_in_order key u xs in if ltb (key x) (key u) then x ∷ rest else u ∷ x ∷ xs

abbrev pub sort_uids : (String → ℕ) → List String → List String
sort_uids key [] = []
sort_uids key (u ∷ us) = put_in_order key u (sort_uids key us)

abbrev pub place : List (String × ℕ) → String → ℕ
place m u = elim (Map.get u m) [ none ↦ 0 | some i ↦ i ]

-- lib/sort/sort.go
unfoldable pub sort_by : List String → List String → List String
unfolding index_map
sort_by to_sort order = sort_uids (place (index_map order 0 [])) to_sort

unfoldable pub search : Store → Store
search s = post search_directory s

abbrev pub allowed : List String → List String → List String
allowed all [] = []
allowed all (u ∷ us) = let rest = allowed all us in if contains all u then u ∷ rest else rest

-- What the callback of a search is given; none for another reply.
unfoldable pub search_reply : Reply → Store → Option (List String)
unfolding get_uids sort_by
search_reply (search_results us) s = some (sort_by (allowed (get_uids s) us) (get_uids s))
search_reply reply s = none

-- `Sort`, and the index that its callback keeps.
unfoldable pub sort : List SortCriterion → Store → Store
sort criteria s =
    let s' = record s { sort_criteria = criteria; sorting = true } in
    post
      (if s.threaded_view && not s.build_threads
        then fetch_directory_threaded criteria s.thread_context
        else fetch_directory_contents criteria)
      s'

unfoldable pub sort_index : Store → ℤ
unfolding get_uids selected_index ◌+ℤ◌ ◌-ℤ◌
sort_index s = pos (length (get_uids s)) -ℤ (selected_index s +ℤ pos 1)

unfoldable pub sort_reply : ℤ → Store → Outcome Store
unfolding get_selected_uid select selected_index next_prev
sort_reply idx s = do
  r ← get_selected_uid s
  s1 ← select r.0 r.1
  s3 ←
      (if ltb_ℤ (selected_index s1) (pos 0)
        then (do s2 ← select "" s1; next_prev idx s2)
        else done s1)
  done (record s3 { sorting = false })

unfoldable pub apply_clear : Store → Store
unfolding sort
apply_clear s = sort s.sort_default (emit filter_changed (record s { results = [] }))

unfoldable pub set_threaded_view : Bool → Store → Store
unfolding run_thread_builder sort
set_threaded_view thread s =
    let s' = record s { threaded_view = thread } in
    if s.build_threads
    then if thread then run_thread_builder s' else record s' { thread_builder_debounce = false }
    else sort s.sort_criteria s'

unfoldable pub toggle_thread_context : Store → Store
unfolding sort
toggle_thread_context s =
    if not s.threaded_view
    then s
    else sort s.sort_criteria (record s { thread_context = not s.thread_context })

-- The timer is set, and when it has run down the flags are fetched.
unfoldable pub fetch_flags : Store → Store
fetch_flags s = record s { fetch_flags_debounce = true }

unfoldable pub fetch_flags_now : Store → Store
fetch_flags_now s = record (post (fetch_message_flags s.needs_flags) s) {
  needs_flags = [];
  fetch_flags_debounce = false;
}
