-- ===== src/Message/Store.antt =====
-- lib/msgstore.go: the list of the messages of a folder. This file has the state of a store, which
-- messages it shows, and the selection. A map from UIDs to nothing is the list of its keys, and MagicUid
-- is the empty UID. A call of a callback is an event, a callback that is nil being one that nobody
-- follows; a message to the worker is an action. The locks, the contexts and the filter (which only goes
-- to the worker) are left out, and the timers are flags.
pub mod Requests
pub mod Update
pub mod Fold
pub mod Select
pub mod Selection
pub mod Results
pub mod Pending
pub mod Asked
pub mod Deleted
pub mod Listed
pub mod Search
mod Tests
use aerc.Prelude.{
  ℕ, zero, suc, ◌+◌, Bool, true, false, not, ◌&&◌, ◌||◌, Option, none, some, List, [], ◌∷◌, ◌++◌,
  String, string_eq, eqb, contains, ltb, ◌==◌, if◌then◌else◌, length, Outcome, done, panic, index,
  ◌>>=◌,
}
use aerc.Prelude.Int.{ℤ, pos, negsuc, ltb_ℤ}
use aerc.Marker.{Controller, Provider, find_uid, update_visual_mark}
use aerc.Message.Info.{MessageInfo, header_of}
use aerc.Message.Sort.{SortCriterion}
use aerc.Message.Threads.{Thread}
use aerc.Message.Iterator.{
  new_iterator, start_index, end_index, move_index, fix_bounds, wrap_bounds,
}
use aerc.Message.Builder.{ThreadBuilder, new_thread_builder, rebuild_uids, refreshed}
use aerc.Message.Builder as Builder
use aerc.Prelude.Map

-- What the store reads of the configuration.
pub record UiConfig : Type 0 where
  pub reverse_order : Bool
  pub reverse_thread_order : Bool
  pub sort_thread_siblings : Bool
  pub select_last : Bool
  pub threading_by_subject : Bool
  pub force_client_threads : Bool
  pub threading_enabled : Bool
  pub thread_context : Bool

pub data Action : Type 0 where
  fetch_message_headers fetch_full_messages fetch_message_flags : List String → Action
  fetch_directory_contents : List SortCriterion → Action
  fetch_directory_threaded : List SortCriterion → Bool → Action
  delete_messages : List String → Action
  move_messages copy_messages : List String → String → Action
  create_directory : String → Action
  append_message : String → Action
  search_directory : Action
  flag_messages : List String → ℕ → Bool → Action
  answered_messages forwarded_messages : List String → Bool → Action
  modify_labels : List String → List String → List String → List String → Action

pub data Event : Type 0 where
  updated dirs_updated directory_changed mail_deleted filter_changed : Event
  selected : Option MessageInfo → Event
  new_email : MessageInfo → Event
  mail_added flag_changed : String → Event
  tag_modified : List String → List String → List String → Event
  body : ℕ → String → Event

-- `thread_callback` is the index that the callback of `NextPrev` holds; a callback of a body is its
-- number. `reverse` says which factory of iterators it is.
pub record Store : Type 0 where
  pub name : String
  pub deleted : List String
  pub messages : List (String × Option MessageInfo)
  pub sorting : Bool
  pub ui : UiConfig
  pub uids : List String
  pub threads : List Thread
  pub scroll_offset : ℕ
  pub scroll_len : ℕ
  pub selected_uid : String
  pub body_callbacks : List (String × List ℕ)
  pub marker : Option Controller
  pub results : List String
  pub result_index : ℤ
  pub sort_criteria : List SortCriterion
  pub sort_default : List SortCriterion
  pub threaded_view : Bool
  pub thread_context : Bool
  pub build_threads : Bool
  pub builder : Option ThreadBuilder
  pub directory_contents_loaded : Bool
  pub pending_bodies : List String
  pub pending_headers : List String
  pub needs_flags : List String
  pub fetch_flags_debounce : Bool
  pub thread_builder_debounce : Bool
  pub thread_callback : Option ℤ
  pub reverse : Bool
  pub actions : List Action
  pub events : List Event

unfoldable pub new_message_store : String → UiConfig → Store
new_message_store name ui = record {
  name = name;
  deleted = [];
  messages = [];
  sorting = false;
  ui = ui;
  uids = [];
  threads = [];
  scroll_offset = 0;
  scroll_len = 25;
  selected_uid = "";
  body_callbacks = [];
  marker = none;
  results = [];
  result_index = pos 0;
  sort_criteria = [];
  sort_default = [];
  threaded_view = false;
  thread_context = false;
  build_threads = false;
  builder = none;
  directory_contents_loaded = false;
  pending_bodies = [];
  pending_headers = [];
  needs_flags = [];
  fetch_flags_debounce = false;
  thread_builder_debounce = false;
  thread_callback = none;
  reverse = false;
  actions = [];
  events = [];
}

abbrev pub no_criteria : List SortCriterion → List SortCriterion → List SortCriterion
no_criteria [] d = d
no_criteria (c ∷ cs) d = c ∷ cs

-- `can_thread` is the capability of the worker. No list of criteria that is set is empty but nil.
unfoldable pub configure : List SortCriterion → Bool → Store → Store
configure default_sort can_thread s = record s {
  build_threads = s.ui.force_client_threads || not can_thread;
  reverse = s.ui.reverse_order;
  threaded_view = s.ui.threading_enabled;
  thread_context = s.ui.thread_context;
  sort_default = default_sort;
  sort_criteria = no_criteria s.sort_criteria default_sort;
}

unfoldable pub update_scroll : ℕ → ℕ → Store → Store
update_scroll offset len s = record s { scroll_offset = offset; scroll_len = len }

abbrev pub post : Action → Store → Store
post a s = record s { actions = s.actions ++ a ∷ [] }

abbrev pub emit : Event → Store → Store
emit e s = record s { events = s.events ++ e ∷ [] }

-- xs[i], where the index may be negative
abbrev pub index_ℤ {ℓ} : {A : Type ℓ} → List A → ℤ → Outcome A
index_ℤ xs (pos i) = index xs i
index_ℤ xs (negsuc i) = panic

abbrev pub builder_uids : Option ThreadBuilder → List String
builder_uids none = []
builder_uids (some b) = b.threaded_uids

abbrev pub or_all : List String → List String → List String
or_all [] all = all
or_all (u ∷ us) all = u ∷ us

-- `Uids`
unfoldable pub get_uids : Store → List String
get_uids s = if s.threaded_view then or_all (builder_uids s.builder) s.uids else s.uids

-- Go's -1 for `none`.
abbrev pub to_index : Option ℕ → ℤ
to_index none = negsuc 0
to_index (some i) = pos i

unfoldable pub find_index_by_uid : String → Store → ℤ
unfolding get_uids
find_index_by_uid uid s = to_index (find_uid uid (get_uids s))

unfoldable pub selected_index : Store → ℤ
unfolding find_index_by_uid
selected_index s = find_index_by_uid s.selected_uid s

abbrev pub flatten {ℓ} : {A : Type ℓ} → Option (Option A) → Option A
flatten none = none
flatten (some o) = o

unfoldable pub get_selected : Store → Option MessageInfo
get_selected s = flatten (Map.get s.selected_uid s.messages)

unfoldable pub provider : Store → Provider
unfolding get_uids selected_index
provider s = record { uids = get_uids s; selected_index = selected_index s }

unfoldable pub update_marker : Store → Outcome Store
unfolding provider
update_marker s = elim s.marker [
  | none ↦ done s
  | some c ↦ (do c' ← update_visual_mark (provider s) c; done (record s { marker = some c' }))
]

-- The part of `selectPriv` before the marker.
abbrev pub set_selected : String → Store → Store
set_selected uid s = record s { thread_callback = none; selected_uid = uid }

unfoldable pub select_priv : String → Store → Outcome Store
unfolding update_marker
select_priv uid s = update_marker (set_selected uid s)

unfoldable pub select : String → Store → Outcome Store
unfolding select_priv get_selected
select uid s = do s' ← select_priv uid s; done (emit (selected (get_selected s')) s')

-- `SelectedUid` selects the first or the last message where none is selected.
unfoldable pub get_selected_uid : Store → Outcome (String × Store)
unfolding select get_uids
get_selected_uid s =
    let it = new_iterator s.reverse (get_uids s) in
    let chosen = do
      u ← index_ℤ (get_uids s) (if s.ui.select_last then end_index it else start_index it)
      s' ← select u s
      done (s'.selected_uid, s')
    in if eqb s.selected_uid "" && ltb 0 (length (get_uids s))
      then chosen
      else done (s.selected_uid, s)

unfoldable pub update_results : Store → Outcome Store
unfolding get_selected_uid
update_results s = if length s.results == 0 || ltb_ℤ s.result_index (pos 0) then done s else (do
  r ← get_selected_uid s
  done (elim (find_uid r.0 r.1.results) [
    | none ↦ r.1
    | some i ↦ record r.1 { result_index = pos i }
  ]))

-- The callback that moves the selection after the threads were built is set for client threads only.
abbrev pub set_callback : ℤ → Store → Store
set_callback i s =
    if s.build_threads && s.threaded_view then record s { thread_callback = some i } else s

-- `NextPrev` with UIDs `us`, where the selected one is at the index.
unfoldable pub move_from : List String → ℤ → ℤ → Store → Outcome Store
unfolding select update_marker update_results
move_from us delta (negsuc _) s = do
  u ← index_ℤ us (start_index (new_iterator s.reverse us))
  select u s
move_from us delta (pos n) s =
    let it = new_iterator s.reverse us in
    let new_idx = move_index (pos n) delta (start_index it) (end_index it) (some fix_bounds) in
    do
      u ← index_ℤ us new_idx
      s1 ← select u s
      s2 ← update_marker (set_callback new_idx s1)
      update_results s2

unfoldable pub next_prev : ℤ → Store → Outcome Store
unfolding get_uids get_selected_uid find_index_by_uid move_from
next_prev delta s =
    let go = do r ← get_selected_uid s; move_from (get_uids s) delta (find_index_by_uid r.0 r.1) r.1
    in if length (get_uids s) == 0 then done s else go

unfoldable pub next : Store → Outcome Store
unfolding next_prev
next s = next_prev (pos 1) s

unfoldable pub prev : Store → Outcome Store
unfolding next_prev
prev s = next_prev (negsuc 0) s

-- The list of the messages as the builder takes it in.
unfoldable pub feed : List (String × Option MessageInfo) → ThreadBuilder → ThreadBuilder
unfolding Builder.update header_of
feed [] b = b
feed ((u, none) ∷ ms) b = feed ms b
feed ((u, some mi) ∷ ms) b = feed ms (Builder.update (header_of mi) b)

unfoldable pub fed_builder : Store → ThreadBuilder
unfolding feed new_thread_builder
fed_builder s = elim s.builder [
  | some b ↦ b
  | none ↦ feed s.messages (new_thread_builder s.reverse s.ui.threading_by_subject)
]

-- The timer is set.
unfoldable pub run_thread_builder : Store → Store
unfolding fed_builder
run_thread_builder s = record s { builder = some (fed_builder s); thread_builder_debounce = true }

unfoldable pub empty_builder : Store → ThreadBuilder
unfolding new_thread_builder
empty_builder s = elim s.builder [
  | some b ↦ b
  | none ↦ new_thread_builder s.reverse s.ui.threading_by_subject
]

-- `RebuildUids` on the threads, which get the flags that the builder keeps.
unfoldable pub rebuild_threads : List Thread → Store → Outcome Store
unfolding empty_builder rebuild_uids
rebuild_threads ts s = do
  b ← rebuild_uids ts s.ui.reverse_thread_order (empty_builder s)
  done (record s { builder = some b; threads = refreshed b.thread_map ts })

unfoldable pub update : Bool → Store → Outcome Store
unfolding run_thread_builder rebuild_threads
update threads s =
    let s' = emit dirs_updated (emit updated s) in
    if s'.threaded_view && threads
    then if s'.build_threads then done (run_thread_builder s') else rebuild_threads s'.threads s'
    else done s'

-- The index that `nextPrevResult` goes to.
abbrev pub result_after : ℤ → Store → ℤ
result_after delta s =
    let it = new_iterator s.reverse s.results in
    if ltb_ℤ s.result_index (pos 0)
    then start_index it
    else move_index s.result_index delta (start_index it) (end_index it) (some wrap_bounds)

unfoldable pub next_prev_result : ℤ → Store → Outcome Store
unfolding select update
next_prev_result delta s =
    let i = result_after delta s in
    let go = do
      u ← index_ℤ s.results i
      s' ← select u (record s { result_index = i })
      update false s'
    in if length s.results == 0 then done s else go

unfoldable pub next_result : Store → Outcome Store
unfolding next_prev_result
next_result s = next_prev_result (pos 1) s

unfoldable pub prev_result : Store → Outcome Store
unfolding next_prev_result
prev_result s = next_prev_result (negsuc 0) s

unfoldable pub apply_search : List String → Store → Outcome Store
unfolding next_result
apply_search results s = next_result (record s { results = results; result_index = negsuc 0 })

unfoldable pub is_result : String → Store → Bool
is_result uid s = contains s.results uid
