-- ===== src/Worker/Folders/Messages.antt =====
-- worker/middleware/foldermapper.go: the messages to and from the worker. Of a message the model keeps
-- the names of directories in it, which are all that the mapper reads or writes.
use aerc.Prelude.{Bool, Option, List, map, if◌then◌else◌, list_eq, nat_eq}
use mathlib.Core.Option
use aerc.Worker.Folders.{Name, FolderMapper, incoming, outgoing, store, create}

pub data Action : Type 0 where
  check_mail : List Name → Action
  copy_messages : Name → Name → Action
  append_message : Name → Action
  move_messages : Name → Name → Action
  create_directory remove_directory open_directory : Name → Action
  fetch_directory_contents fetch_directory_threaded search_directory : Name → Action
  fetch_message_headers fetch_full_messages fetch_message_body_part : Name → Action
  fetch_message_flags delete_messages flag_messages : Name → Action
  answered_messages forwarded_messages : Name → Action
  other_action : Action

-- What goes on to the worker, and the mapper afterwards. That a folder to create is there already is
-- logged only, and the action goes on with the name as it was.
unfoldable pub process_action : FolderMapper → Action → Action × FolderMapper
process_action f (check_mail ds) = (check_mail (map (incoming f) ds), f)
process_action f (copy_messages s d) = (copy_messages (incoming f s) (incoming f d), f)
process_action f (append_message d) = (append_message (incoming f d), f)
process_action f (move_messages s d) = (move_messages (incoming f s) (incoming f d), f)
process_action f (create_directory d) =
    let (backend, created, f') = create d f in (create_directory backend, f')
process_action f (remove_directory d) = (remove_directory (incoming f d), f)
process_action f (open_directory d) = (open_directory (incoming f d), f)
process_action f (fetch_directory_contents d) = (fetch_directory_contents (incoming f d), f)
process_action f (fetch_directory_threaded d) = (fetch_directory_threaded (incoming f d), f)
process_action f (search_directory d) = (search_directory (incoming f d), f)
process_action f (fetch_message_headers d) = (fetch_message_headers (incoming f d), f)
process_action f (fetch_full_messages d) = (fetch_full_messages (incoming f d), f)
process_action f (fetch_message_body_part d) = (fetch_message_body_part (incoming f d), f)
process_action f (fetch_message_flags d) = (fetch_message_flags (incoming f d), f)
process_action f (delete_messages d) = (delete_messages (incoming f d), f)
process_action f (flag_messages d) = (flag_messages (incoming f d), f)
process_action f (answered_messages d) = (answered_messages (incoming f d), f)
process_action f (forwarded_messages d) = (forwarded_messages (incoming f d), f)
process_action f other_action = (other_action, f)

-- The inner switch of `PostMessage`: the action that a Done message answers, with its names changed.
unfoldable pub rename_answered : FolderMapper → Action → Action
rename_answered f (check_mail ds) = check_mail (map (outgoing f) ds)
rename_answered f (copy_messages s d) = copy_messages (outgoing f s) (outgoing f d)
rename_answered f (append_message d) = append_message (outgoing f d)
rename_answered f (move_messages s d) = move_messages (outgoing f s) (outgoing f d)
rename_answered f (create_directory d) = create_directory (outgoing f d)
rename_answered f (remove_directory d) = remove_directory (outgoing f d)
rename_answered f (open_directory d) = open_directory (outgoing f d)
rename_answered f (fetch_directory_contents d) = fetch_directory_contents (outgoing f d)
rename_answered f (fetch_directory_threaded d) = fetch_directory_threaded (outgoing f d)
rename_answered f (search_directory d) = search_directory (outgoing f d)
rename_answered f (fetch_message_headers d) = fetch_message_headers (outgoing f d)
rename_answered f (fetch_full_messages d) = fetch_full_messages (outgoing f d)
rename_answered f (fetch_message_body_part d) = fetch_message_body_part (outgoing f d)
rename_answered f (fetch_message_flags d) = fetch_message_flags (outgoing f d)
rename_answered f (delete_messages d) = delete_messages (outgoing f d)
rename_answered f (flag_messages d) = flag_messages (outgoing f d)
rename_answered f (answered_messages d) = answered_messages (outgoing f d)
rename_answered f (forwarded_messages d) = forwarded_messages (outgoing f d)
rename_answered f other_action = other_action

-- `done_with` is a reply to an action whose message the worker still holds. The Bool of `directory`
-- says whether its role is that of a query.
pub data Reply : Type 0 where
  done_with : Action → Reply
  check_mail_directories : List Name → Reply
  directory : Bool → Name → Reply
  directory_info messages_moved messages_copied directory_removed : Name → Reply
  directory_contents directory_threaded search_results : Name → Reply
  message_info : Option Name → Reply
  messages_deleted : Name → Reply
  other_reply : Reply

unfoldable pub post_message : FolderMapper → Reply → Reply × FolderMapper
unfolding rename_answered
post_message f (done_with a) = (done_with (rename_answered f a), f)
post_message f (check_mail_directories ds) = (check_mail_directories (map (outgoing f) ds), f)
post_message f (directory is_query d) =
    if is_query
    then (directory is_query d, f)
    else let f' = store d f in (directory is_query (outgoing f' d), f')
post_message f (directory_info d) = (directory_info (outgoing f d), f)
post_message f (messages_moved d) = (messages_moved (outgoing f d), f)
post_message f (messages_copied d) = (messages_copied (outgoing f d), f)
post_message f (directory_removed d) = (directory_removed (outgoing f d), f)
post_message f (directory_contents d) = (directory_contents (outgoing f d), f)
post_message f (directory_threaded d) = (directory_threaded (outgoing f d), f)
post_message f (search_results d) = (search_results (outgoing f d), f)
post_message f (message_info d) = (message_info (Option.map (outgoing f) d), f)
post_message f (messages_deleted d) = (messages_deleted (outgoing f d), f)
post_message f other_reply = (other_reply, f)
