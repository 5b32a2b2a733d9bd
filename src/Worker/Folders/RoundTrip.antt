-- ===== src/Worker/Folders/RoundTrip.antt =====
-- worker/middleware/foldermapper.go: an action goes to the worker with the names of the server, and
-- comes back, in the reply to it, with the names that the user interface knows.
use aerc.Prelude.{
  ◌≡◌, refl, ap, ap₂, subst, sym, ◌∙◌, Bool, true, false, some, List, [], ◌∷◌, map, arith,
  Option-cases, inl, inr, list_eq, list_eqb_iff, nat_eq,
}
use aerc.Prelude.Map
use aerc.Worker.Folders.{
  Name, FolderMapper, incoming, outgoing, create, create_folder, find_value, store, apply,
}
use aerc.Worker.Folders.Lookup.{get-find_value, find_value-get, incoming-outgoing}
use aerc.Worker.Folders.Messages

-- No other name is shown for the folder that this name leads to.
abbrev pub IsShown : FolderMapper → Name → Type 0
IsShown f d = (k : Name) → Map.get k f.table ≡ some (incoming f d) → k ≡ d

abbrev pub AllShown : FolderMapper → List Name → Type 0
AllShown f [] = Unit
AllShown f (d ∷ ds) = IsShown f d × AllShown f ds

abbrev pub names : Messages.Action → List Name
names (Messages.check_mail ds) = ds
names (Messages.copy_messages s d) = s ∷ d ∷ []
names (Messages.append_message d) = d ∷ []
names (Messages.move_messages s d) = s ∷ d ∷ []
names (Messages.create_directory d) = d ∷ []
names (Messages.remove_directory d) = d ∷ []
names (Messages.open_directory d) = d ∷ []
names (Messages.fetch_directory_contents d) = d ∷ []
names (Messages.fetch_directory_threaded d) = d ∷ []
names (Messages.search_directory d) = d ∷ []
names (Messages.fetch_message_headers d) = d ∷ []
names (Messages.fetch_full_messages d) = d ∷ []
names (Messages.fetch_message_body_part d) = d ∷ []
names (Messages.fetch_message_flags d) = d ∷ []
names (Messages.delete_messages d) = d ∷ []
names (Messages.flag_messages d) = d ∷ []
names (Messages.answered_messages d) = d ∷ []
names (Messages.forwarded_messages d) = d ∷ []
names Messages.other_action = []

-- A directory to create is not in the table.
abbrev pub IsNew : FolderMapper → Messages.Action → Type 0
IsNew f (Messages.create_directory d) = Map.has d f.table ≡ false
IsNew f a = Unit

pub outgoing-incoming :
    (f : FolderMapper) (d : Name)
    → Map.IsDistinct f.table
    → IsShown f d
    → outgoing f (incoming f d) ≡ d
unfolding outgoing incoming
outgoing-incoming f d u h = elim (Option-cases (find_value (incoming f d) f.table)) [
  | inr (k, e) ↦ ground (arith, h k (get-find_value (incoming f d) k f.table u e))
  | inl e ↦ elim (Option-cases (Map.get d f.table)) [
    | inl g ↦ ground arith
    | inr (v, g) ↦ let (k', e') = find_value-get v d f.table g in absurd (ground arith)
  ]
]

map_names :
    (f : FolderMapper) (ds : List Name)
    → Map.IsDistinct f.table
    → AllShown f ds
    → map (outgoing f) (map (incoming f) ds) ≡ ds
map_names f [] u h = refl
map_names f (d ∷ ds) u h =
    ap₂ (λ (x : Name) (xs : List Name). x ∷ xs) (outgoing-incoming f d u h.0) (map_names f ds u h.1)

entered :
    (f : FolderMapper) (d : Name)
    → Map.has d f.table ≡ false
    → create d f ≡ (
      create_folder f.table d,
      true,
      record f { table = Map.put d (create_folder f.table d) f.table },
    )
unfolding create
entered f d n = ground (arith, Map.get_of_not_has d f.table n)

incoming-put :
    (f : FolderMapper) (d b : Name) → incoming (record f { table = Map.put d b f.table }) d ≡ b
unfolding incoming
incoming-put f d b = ground (arith, Map.get-put d d b f.table, list_eqb_iff d d)

created :
    (f : FolderMapper) (d : Name)
    → Map.IsDistinct f.table
    → Map.has d f.table ≡ false
    → IsShown (create d f).2 d
    → outgoing (create d f).2 (create d f).0 ≡ d
created f d u n =
    let b = create_folder f.table d in
    let f' = record f { table = Map.put d b f.table } in
    subst (λ (r : Name × Bool × FolderMapper). IsShown r.2 d → outgoing r.2 r.0 ≡ d)
      (sym (entered f d n))
      (λ h.
        ap (outgoing f') (sym (incoming-put f d b))
        ∙ outgoing-incoming f' d (Map.put-IsDistinct d b f.table u) h)

-- The reply to an action, with its names changed back.
answered_as :
    (f : FolderMapper) {a b : Messages.Action}
    → a ≡ b
    → ◌≡◌ {A = Messages.Reply × FolderMapper} (Messages.done_with a, f) (Messages.done_with b, f)
answered_as f e = ap (λ (x : Messages.Action). (Messages.done_with x, f)) e

-- An action for a worker, and then the reply that says that it is done: if the table has each name
-- once, a directory to create is new, and no name in the action is one of two that are shown for the
-- same folder, the reply gives back exactly the action that came from the user interface, and changes
-- nothing of the mapper.
pub post_message-process_action :
    (f : FolderMapper) (a : Messages.Action)
    → Map.IsDistinct f.table
    → IsNew f a
    → AllShown (Messages.process_action f a).1 (names a)
    → Messages.post_message
        (Messages.process_action f a).1
        (Messages.done_with (Messages.process_action f a).0)
      ≡ (Messages.done_with a, (Messages.process_action f a).1)
unfolding Messages.process_action Messages.post_message create
post_message-process_action f (Messages.check_mail ds) u n h =
    answered_as f (ap Messages.check_mail (map_names f ds u h))
post_message-process_action f (Messages.create_directory d) u n h =
    answered_as (create d f).2 (ap Messages.create_directory (created f d u n h.0))
post_message-process_action f (Messages.copy_messages s d) u n h =
    answered_as f
      (ap₂ Messages.copy_messages (outgoing-incoming f s u h.0) (outgoing-incoming f d u h.1.0))
post_message-process_action f (Messages.move_messages s d) u n h =
    answered_as f
      (ap₂ Messages.move_messages (outgoing-incoming f s u h.0) (outgoing-incoming f d u h.1.0))
post_message-process_action f (Messages.append_message d) u n h =
    answered_as f (ap Messages.append_message (outgoing-incoming f d u h.0))
post_message-process_action f (Messages.remove_directory d) u n h =
    answered_as f (ap Messages.remove_directory (outgoing-incoming f d u h.0))
post_message-process_action f (Messages.open_directory d) u n h =
    answered_as f (ap Messages.open_directory (outgoing-incoming f d u h.0))
post_message-process_action f (Messages.fetch_directory_contents d) u n h =
    answered_as f (ap Messages.fetch_directory_contents (outgoing-incoming f d u h.0))
post_message-process_action f (Messages.fetch_directory_threaded d) u n h =
    answered_as f (ap Messages.fetch_directory_threaded (outgoing-incoming f d u h.0))
post_message-process_action f (Messages.search_directory d) u n h =
    answered_as f (ap Messages.search_directory (outgoing-incoming f d u h.0))
post_message-process_action f (Messages.fetch_message_headers d) u n h =
    answered_as f (ap Messages.fetch_message_headers (outgoing-incoming f d u h.0))
post_message-process_action f (Messages.fetch_full_messages d) u n h =
    answered_as f (ap Messages.fetch_full_messages (outgoing-incoming f d u h.0))
post_message-process_action f (Messages.fetch_message_body_part d) u n h =
    answered_as f (ap Messages.fetch_message_body_part (outgoing-incoming f d u h.0))
post_message-process_action f (Messages.fetch_message_flags d) u n h =
    answered_as f (ap Messages.fetch_message_flags (outgoing-incoming f d u h.0))
post_message-process_action f (Messages.delete_messages d) u n h =
    answered_as f (ap Messages.delete_messages (outgoing-incoming f d u h.0))
post_message-process_action f (Messages.flag_messages d) u n h =
    answered_as f (ap Messages.flag_messages (outgoing-incoming f d u h.0))
post_message-process_action f (Messages.answered_messages d) u n h =
    answered_as f (ap Messages.answered_messages (outgoing-incoming f d u h.0))
post_message-process_action f (Messages.forwarded_messages d) u n h =
    answered_as f (ap Messages.forwarded_messages (outgoing-incoming f d u h.0))
post_message-process_action f Messages.other_action u n h = refl

-- A directory that the worker lists, other than a query, is announced under a name that leads back to
-- it: whatever the table held before, as long as it had each name once.
pub post_message-directory :
    (f : FolderMapper) (d : Name)
    → Map.IsDistinct f.table
    → (x : Name) × (f' : FolderMapper) × (Messages.post_message f (Messages.directory false d)
        ≡ (Messages.directory false x, f'))
      × (incoming f' x ≡ d)
      × Map.IsDistinct f'.table
unfolding Messages.post_message store
post_message-directory f d u =
    let k = apply f.mapping f.order d in
    let u' = Map.put-IsDistinct k d f.table u in
    (
      outgoing (store d f) d,
      store d f,
      refl,
      incoming-outgoing (store d f) k d u'
          (ground (arith, Map.get-put k k d f.table, list_eqb_iff k k)),
      u',
    )
