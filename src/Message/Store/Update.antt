-- ===== src/Message/Store/Update.antt =====
-- lib/msgstore.go, `Update`: what a store does with a message of the worker. `runThreadBuilderNow` uses
-- the threading of lib/jwz, which is the parameter `thread_slice`.
use aerc.Prelude.{
  ℕ, suc, ◌+◌, Bool, true, false, not, ◌&&◌, ◌||◌, Option, none, some, List, [], ◌∷◌, ◌++◌, String,
  string_eq, eqb, contains, ltb, leb, ◌==◌, if◌then◌else◌, length, take, drop, Outcome, done, ◌>>=◌,
}
use aerc.Prelude.Int.{ℤ, pos, negsuc, sub_ℕ, ltb_ℤ}
use aerc.Prelude.Map
use aerc.Marker.{remove}
use aerc.Message.Info.{MessageInfo, or_flags, merge, header_of}
use aerc.Message.Threads.{Thread}
use aerc.Message.Builder.{Threadable, Structures, ThreadBuilder, Flags, refreshed, rebuild_uids}
use aerc.Message.Builder as Builder
use aerc.Message.Store.{
  Store, emit, index_ℤ, get_uids, select, select_priv, update, fed_builder, empty_builder, updated,
  selected, new_email, directory_changed, body,
}
use aerc.Message.Store.Requests.{
  fetch_headers, fetch_flags, sort, callbacks_of, remove_all, delete_all,
}

-- The messages of the worker; a `MessageInfo` says whether its flags replace the known ones, whether
-- the flags are missing, and whether it answers a request.
pub data WorkerMessage : Type 0 where
  open_directory : WorkerMessage
  directory_contents : String → List String → WorkerMessage
  directory_threaded : String → List Thread → WorkerMessage
  message_info : MessageInfo → Bool → Bool → Bool → WorkerMessage
  full_message : String → WorkerMessage
  messages_deleted : String → List String → WorkerMessage

abbrev pub actual_position_in_list : ℕ → ℕ → Bool → ℤ
actual_position_in_list i len reverse = if not reverse then sub_ℕ len (i + 1) else pos i

-- The position is on the screen.
abbrev pub is_on_screen : Store → ℤ → Bool
is_on_screen s p =
    not (ltb_ℤ p (pos s.scroll_offset)) && ltb_ℤ p (pos (s.scroll_offset + s.scroll_len))

-- The loop over the listed UIDs: the new map, and the UIDs that are new and on the screen. `i` is the
-- index of the first one, and `n` the number of all.
abbrev pub list_uids :
    Store
    → ℕ
    → ℕ
    → List String
    → List (String × Option MessageInfo)
    → List (String × Option MessageInfo)
list_uids s n i [] m = m
list_uids s n i (u ∷ us) m =
    list_uids s n (suc i) us
      (Map.put u (elim (Map.get u s.messages) [ none ↦ none | some x ↦ x ]) m)

abbrev pub new_uids : Store → ℕ → ℕ → List String → List String
new_uids s n i [] = []
new_uids s n i (u ∷ us) =
    let rest = new_uids s n (suc i) us in
    if not (Map.has u s.messages) && is_on_screen s (actual_position_in_list i n s.ui.reverse_order)
    then u ∷ rest
    else rest

-- `directoryChange`
abbrev pub is_change : Store → List String → Bool
is_change s [] = false
is_change s (u ∷ us) = not (Map.has u s.messages) || is_change s us

unfoldable pub insert_uid : String → Option ℤ → List String → List String
insert_uid u none us = us ++ u ∷ []
insert_uid u (some (negsuc i)) us = us ++ u ∷ []
insert_uid u (some (pos i)) us =
    if i == 0 || leb (length us) i then us ++ u ∷ [] else take i us ++ u ∷ drop i us

-- A message that was not asked for enters the list.
unfoldable pub insert_new : MessageInfo → Bool → Store → Store
unfolding insert_uid
insert_new info in_response s =
    if not in_response && not (contains s.uids info.uid)
    then record s { uids = insert_uid info.uid info.index s.uids }
    else s

abbrev pub put_info : MessageInfo → Store → Store
put_info info s = record s { messages = Map.put info.uid (some info) s.messages }

abbrev pub is_complete : MessageInfo → Bool
is_complete info = elim info.envelope [
  | some e ↦ true
  | none ↦ elim info.error [ some e ↦ true | none ↦ false ]
]

unfoldable pub merged : MessageInfo → MessageInfo → Bool → MessageInfo
unfolding merge
merged old info replace_flags = record (merge old info) {
  flags = if replace_flags then info.flags else or_flags old.flags info.flags;
}

-- The first switch of the case: what becomes of the messages and of the list.
unfoldable pub take_info : MessageInfo → Bool → Bool → Store → Store
unfolding merged insert_new
take_info info replace_flags in_response s = elim (Map.get info.uid s.messages) [
  | some (some old) ↦ record s {
    messages = Map.put info.uid (some (merged old info replace_flags)) s.messages;
  }
  | _ ↦
      if is_complete info
      then insert_new info in_response (
          if eqb s.selected_uid info.uid
          then emit (selected (some info)) (put_info info s)
          else put_info info s)
      else if not in_response
      then insert_new info in_response (put_info info s)
      else s
]

unfoldable pub ask_flags : MessageInfo → Bool → Store → Store
unfolding fetch_flags
ask_flags info needs_flags s =
    if needs_flags
    then fetch_flags (record s { needs_flags = s.needs_flags ++ info.uid ∷ [] })
    else s

abbrev pub has_envelope : MessageInfo → Bool
has_envelope info = elim info.envelope [ none ↦ false | some e ↦ true ]

abbrev pub announce : MessageInfo → Store → Store
announce info s =
    if not info.flags.seen && info.flags.recent && has_envelope info
    then emit (new_email info) s
    else s

abbrev pub no_longer_pending : MessageInfo → Store → Store
no_longer_pending info s =
    if is_complete info then record s { pending_headers = remove info.uid s.pending_headers } else s

unfoldable pub tell_builder : MessageInfo → Store → Store
unfolding Builder.update header_of
tell_builder info s = elim s.builder [
  | none ↦ s
  | some b ↦ record s { builder = some (Builder.update (header_of info) b) }
]

unfoldable pub on_message_info : MessageInfo → Bool → Bool → Bool → Store → Outcome Store
unfolding take_info update ask_flags tell_builder
on_message_info info replace_flags needs_flags in_response s =
    if not (eqb info.directory s.name)
    then done s
    else update true (
        tell_builder info (
          no_longer_pending info (
            announce info
              (ask_flags info needs_flags (take_info info replace_flags in_response s)))))

abbrev pub call_all : List ℕ → String → Store → Store
call_all [] u s = s
call_all (cb ∷ cbs) u s = call_all cbs u (emit (body cb u) s)

unfoldable pub on_full_message : String → Store → Store
on_full_message u s =
    if contains s.pending_bodies u
    then record (call_all (callbacks_of u s.body_callbacks) u
        (record s { pending_bodies = remove u s.pending_bodies })) {
          body_callbacks = Map.delete u s.body_callbacks;
        }
    else s

abbrev pub without_all : List String → List String → List String
without_all gone [] = []
without_all gone (u ∷ us) =
    let rest = without_all gone us in if contains gone u then rest else u ∷ rest

-- `thread.Deleted = true`, for the threads that the builder knows.
abbrev pub mark_deleted : List String → List (String × Flags) → List (String × Flags)
mark_deleted [] m = m
mark_deleted (u ∷ us) m = elim (Map.get u m) [
  | none ↦ mark_deleted us m
  | some f ↦ mark_deleted us (Map.put u (record f { deleted = true }) m)
]

unfoldable pub delete_threads : List String → Store → Store
unfolding refreshed
delete_threads gone s = elim s.builder [
  | none ↦ s
  | some b ↦
      let m = mark_deleted gone b.thread_map in
      record s { builder = some (record b { thread_map = m }); threads = refreshed m s.threads }
]

-- The list, the messages and the marks for deletion.
unfoldable pub drop_messages : List String → Store → Store
drop_messages gone s = record s {
  messages = delete_all gone s.messages;
  deleted = remove_all gone s.deleted;
  uids = without_all gone s.uids;
}

unfoldable pub unselect_empty : Store → Outcome Store
unfolding select
unselect_empty s = if length s.uids == 0 then select "" s else done s

unfoldable pub on_messages_deleted : String → List String → Store → Outcome Store
unfolding unselect_empty drop_messages delete_threads update
on_messages_deleted dir gone s =
    let go = do
      s' ← unselect_empty (drop_messages gone s)
      update true (delete_threads gone (record s' { results = without_all gone s'.results }))
    in if not (eqb dir s.name)
      then done s
      else if ltb (length s.uids) (length gone)
      then update false s
      else go

-- What follows the switch, for the UIDs that are new and on the screen.
unfoldable pub after_listing : Bool → Bool → List String → Store → Store
unfolding fetch_headers
after_listing was_loaded change fresh s =
    let s' = if was_loaded && change then emit directory_changed s else s in
    elim fresh [
      | [] ↦ s'
      | u ∷ us ↦
          let s'' = fetch_headers (u ∷ us) s' in
          if was_loaded && not change then emit directory_changed s'' else s''
    ]

module _ (thread_slice : List Threadable → Option Structures) where
  unfoldable pub run_thread_builder_now : Store → Outcome Store
  unfolding Builder.threads get_uids select_priv fed_builder
  run_thread_builder_now s = do
    r ←
        Builder.threads thread_slice s.uids s.ui.reverse_thread_order s.ui.sort_thread_siblings
          (fed_builder s)
    let s' = record s { builder = some r.1; threads = r.0 }
    s'' ← elim s'.thread_callback [
      | none ↦ done s'
      | some i ↦
          let go = do u ← index_ℤ (get_uids s') i; select_priv u s'
          in if ltb_ℤ i (pos (length (get_uids s'))) then go else done s'
    ]
    done (emit updated s'')

  unfoldable pub on_directory_contents : String → List String → Store → Outcome Store
  unfolding run_thread_builder_now after_listing
  on_directory_contents dir us s =
      let listed = record s { messages = list_uids s (length us) 0 us []; uids = us } in
      let built = if s.threaded_view then run_thread_builder_now listed else done listed in
      let go = do
        s' ← built
        done (
            after_listing s.directory_contents_loaded (is_change s us) (new_uids s (length us) 0 us)
              (record s' { directory_contents_loaded = true }))
      in if not (eqb dir s.name) then done s else go

unfoldable pub on_directory_threaded : String → List Thread → Store → Outcome Store
unfolding rebuild_uids refreshed update after_listing empty_builder
on_directory_threaded dir ts s =
    let go = do
      b ← rebuild_uids ts s.ui.reverse_thread_order (empty_builder s)
      let us = b.threaded_uids
      s' ← update false (record s {
        builder = some b;
        uids = us;
        threads = refreshed b.thread_map ts;
        messages = list_uids s (length us) 0 us [];
        directory_contents_loaded = true;
      })
      done (
          after_listing s.directory_contents_loaded (is_change s us) (new_uids s (length us) 0 us)
            s')
    in if not (eqb dir s.name) then done s else go

module _ (thread_slice : List Threadable → Option Structures) where
  unfoldable pub handle : WorkerMessage → Store → Outcome Store
  unfolding sort update on_directory_contents on_directory_threaded on_message_info on_full_message
      on_messages_deleted
  handle open_directory s = update false (sort s.sort_criteria s)
  handle (directory_contents dir us) s = on_directory_contents thread_slice dir us s
  handle (directory_threaded dir ts) s = on_directory_threaded dir ts s
  handle (message_info info replace_flags needs_flags in_response) s =
      on_message_info info replace_flags needs_flags in_response s
  handle (full_message u) s = done (on_full_message u s)
  handle (messages_deleted dir gone) s = on_messages_deleted dir gone s
