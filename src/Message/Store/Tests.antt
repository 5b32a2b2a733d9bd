-- ===== src/Message/Store/Tests.antt =====
-- lib/msgstore.go on a small folder, and the theorems at it.
use aerc.Prelude.{
  ℕ, ◌≡◌, ◌≢◌, ◌≤◌, refl, true, false, not, ◌&&◌, ◌||◌, some, none, List, [], ◌∷◌, String,
  string_eq, contains, ◌==◌, if◌then◌else◌, length, get_elem?, Outcome, done, panic, arith,
}
use aerc.Prelude.Int.{pos}
use aerc.Prelude.Map
use aerc.Message.Iterator.{move_index, end_index, new_iterator, start_index, fix_bounds}
use aerc.Message.Threads.{Thread, thread, nil, cons, index_map}
use aerc.Message.Builder.Refs.{IsOnce}
use aerc.Message.Store.{
  Store, UiConfig, new_message_store, get_uids, next_prev, next_prev_result, flatten,
}
use aerc.Message.Store.Requests.{
  Reply, search_results, fetch_headers, fetch_headers_reply, is_final, delete, delete_reply, move,
  move_reply, unsupported, search_reply, place,
}
use aerc.Message.Store.Update.{new_uids, on_directory_contents, on_messages_deleted}
use aerc.Message.Store.Fold.{fold_thread, unfold_thread}
use aerc.Message.Store.Fold.Undo.{IsOther, unfold_thread-fold_thread}
use aerc.Message.Store.Select.{target}
use aerc.Message.Store.Selection.{next_prev-IsShown, next_prev_lem}
use aerc.Message.Store.Results.{following, next_prev_result_lem}
use aerc.Message.Store.Asked.{IsNewOnScreen}
use aerc.Message.Store.Pending.{posted, fetch_headers_lem, move_reply-delete_reply}
use aerc.Message.Store.Deleted.{on_messages_deleted_lem}
use aerc.Message.Store.Listed.{on_directory_contents_lem}
use aerc.Message.Store.Search.{IsInOrder, search_reply_lem}

abbrev config : UiConfig
config = record {
  reverse_order = false;
  reverse_thread_order = false;
  sort_thread_siblings = false;
  select_last = false;
  threading_by_subject = false;
  force_client_threads = false;
  threading_enabled = false;
  thread_context = false;
}

-- Three messages, the second of them selected, two results, and the first message pending.
abbrev inbox : Store
unfolding new_message_store
inbox = record (new_message_store "INBOX" config) {
  uids = "a" ∷ "b" ∷ "c" ∷ [];
  messages = ("a", none) ∷ ("b", none) ∷ ("c", none) ∷ [];
  selected_uid = "b";
  results = "a" ∷ "c" ∷ [];
  result_index = pos 1;
  pending_headers = "a" ∷ [];
}

abbrev wanted : List String
wanted = "a" ∷ "b" ∷ []

abbrev one : List String
one = "a" ∷ []

-- A message with an answer.
abbrev family : Thread
family =
    thread (record { uid = "a"; hidden = 0; deleted = false; dummy = false })
      (cons (thread (record { uid = "b"; hidden = 0; deleted = false; dummy = false }) nil) nil)

unfold_thread-fold_thread_example :
    (unfold_thread "a" false (fold_thread "a" false family) ≡ family)
    × (IsOther "a" family → fold_thread "a" true (fold_thread "a" true family) ≡ family)
unfold_thread-fold_thread_example = unfold_thread-fold_thread "a" family refl

next_prev-IsShown_example :
    (s' : Store) × (next_prev (pos 1) inbox ≡ done s')
    × (get_uids s' ≡ get_uids inbox)
    × ((length (get_uids inbox) == 0) ≡ false → contains (get_uids inbox) s'.selected_uid ≡ true)
next_prev-IsShown_example = next_prev-IsShown (pos 1) inbox

next_prev_lem_example :
    (s' : Store) × (next_prev (pos 1) inbox ≡ done s')
    × (get_uids s' ≡ get_uids inbox)
    × (get_elem? (get_uids inbox) (target inbox.reverse 2 1 (pos 1)) ≡ some s'.selected_uid)
unfolding get_uids new_message_store
next_prev_lem_example = next_prev_lem (pos 1) inbox 2 1 refl refl refl

next_prev_result_lem_example :
    (s' : Store) × (k : ℕ) × (next_prev_result (pos 1) inbox ≡ done s')
    × (s'.results ≡ inbox.results)
    × (s'.result_index ≡ pos k)
    × (get_elem? inbox.results k ≡ some s'.selected_uid)
    × ((i : ℕ)
        → pos 1 ≡ pos 1
        → inbox.result_index ≡ pos i
        → i ≤ 1
        → k ≡ following inbox.reverse 1 i)
unfolding new_message_store
next_prev_result_lem_example = next_prev_result_lem (pos 1) inbox 1 refl

fetch_headers_lem_example :
    (f : List String) × ((fetch_headers wanted inbox).actions ≡ posted f inbox.actions)
    × IsOnce f
    × (contains f "b" ≡ (contains wanted "b" && not (contains inbox.pending_headers "b")))
    × (contains (fetch_headers wanted inbox).pending_headers "b"
        ≡ (contains inbox.pending_headers "b" || contains wanted "b"))
    × ((reply : Reply)
        → is_final reply ≡ true
        → contains (fetch_headers_reply f reply (fetch_headers wanted inbox)).pending_headers "b"
          ≡ contains inbox.pending_headers "b")
fetch_headers_lem_example = fetch_headers_lem wanted inbox "b"

on_messages_deleted_lem_example :
    (s' : Store) × (on_messages_deleted inbox.name ("b" ∷ []) inbox ≡ done s')
    × ((v : String) → contains s'.uids v ≡ (contains inbox.uids v && not (contains ("b" ∷ []) v)))
    × ((v : String)
        → Map.has v s'.messages ≡ (Map.has v inbox.messages && not (contains ("b" ∷ []) v)))
    × ((v : String)
        → contains s'.deleted v ≡ (contains inbox.deleted v && not (contains ("b" ∷ []) v)))
    × ((v : String)
        → contains s'.results v ≡ (contains inbox.results v && not (contains ("b" ∷ []) v)))
    × (s'.uids ≡ [] → s'.selected_uid ≡ "")
unfolding new_message_store
on_messages_deleted_lem_example = on_messages_deleted_lem ("b" ∷ []) inbox (omega arith)

abbrev listing : List String
listing = "c" ∷ "d" ∷ []

on_directory_contents_lem_example :
    (s' : Store) × (on_directory_contents (λ _. none) inbox.name listing inbox ≡ done s')
    × (s'.uids ≡ listing)
    × (s'.directory_contents_loaded ≡ true)
    × ((v : String)
        → Map.get v s'.messages
          ≡ (if contains listing v then some (flatten (Map.get v inbox.messages)) else none))
    × (f : List String) × (s'.actions ≡ posted f inbox.actions)
    × IsOnce f
    × ((i k : ℕ) (v : String)
        → IsNewOnScreen inbox listing i k v
        → contains inbox.pending_headers v ≡ false
        → contains f v ≡ true)
    × ((v : String)
        → contains f v ≡ true
        → (contains inbox.pending_headers v ≡ false)
          × (i : ℕ) × (k : ℕ) × IsNewOnScreen inbox listing i k v)
    × ((v : String)
        → contains s'.pending_headers v ≡ (contains inbox.pending_headers v || contains f v))
unfolding new_message_store
on_directory_contents_lem_example =
    on_directory_contents_lem (λ _. none) listing inbox (λ i e. absurd (ground arith))

-- What is asked for when the list is longer than the screen: its end, unless the order is reversed.
abbrev two_lines : Store
two_lines = record inbox { scroll_offset = 0; scroll_len = 2 }

last_ones_asked : new_uids two_lines 4 0 ("p" ∷ "q" ∷ "r" ∷ "t" ∷ []) ≡ "r" ∷ "t" ∷ []
unfolding new_message_store
last_ones_asked = refl

search_reply_lem_example :
    (rs : List String) × (search_reply (search_results ("c" ∷ "x" ∷ "a" ∷ [])) inbox ≡ some rs)
    × ((v : String)
        → contains rs v ≡ (contains ("c" ∷ "x" ∷ "a" ∷ []) v && contains (get_uids inbox) v))
    × IsInOrder (place (index_map (get_uids inbox) 0 [])) rs
    × ((v : String)
        → contains rs v ≡ true
        → get_elem? (get_uids inbox) (place (index_map (get_uids inbox) 0 []) v) ≡ some v)
search_reply_lem_example = search_reply_lem ("c" ∷ "x" ∷ "a" ∷ []) inbox

abbrev selected_of : Outcome Store → String
selected_of (done s) = s.selected_uid
selected_of panic = ""

-- The order of the list is not reversed, so the next message is the one before.
next_selects : selected_of (next_prev (pos 1) inbox) ≡ "a"
unfolding next_prev new_message_store move_index end_index new_iterator start_index fix_bounds
next_selects = refl

move_reply-delete_reply_example :
    ((reply : Reply)
      → reply ≢ unsupported
      → contains (move_reply one "old" reply (move one "old" false inbox)).deleted "a"
        ≡ contains (delete_reply one reply (delete one inbox)).deleted "a")
    × (contains (move_reply one "old" unsupported (move one "old" false inbox)).deleted "a"
        ≡ (contains one "a" || contains inbox.deleted "a"))
    × (contains (delete_reply one unsupported (delete one inbox)).deleted "a"
        ≡ (contains inbox.deleted "a" && not (contains one "a")))
move_reply-delete_reply_example = move_reply-delete_reply one "old" false inbox "a"
