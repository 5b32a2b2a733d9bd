-- ===== src/Worker/Folders/Tests.antt =====
-- worker/middleware/foldermapper.go on a small table, and the theorems at it.
use aerc.Prelude.{
  ◌≡◌, ◌≢◌, refl, true, false, some, [], ◌∷◌, ◌++◌, length, drop, arith, list_eq, nat_eq,
  has_prefix,
}
use aerc.Prelude.Map
use aerc.Worker.Folders.{
  Name, FolderMapper, apply, apply_rule, incoming, create_folder, squeeze, star,
}
use aerc.Worker.Folders.Messages.{done_with, directory, move_messages, process_action, post_message}
use aerc.Worker.Folders.Lookup.{create_folder_lem, NoLonger}
use aerc.Worker.Folders.RoundTrip.{
  IsShown, AllShown, post_message-process_action, post_message-directory,
}

-- `INBOX` of the server is shown as `in`, and `G/x` as `x`.
abbrev inbox : Name
inbox = b'I' ∷ b'N' ∷ []

abbrev shown : Name
shown = b'i' ∷ []

abbrev mail : FolderMapper
mail = record {
  mapping = (shown, inbox) ∷ (star ∷ star ∷ [], b'G' ∷ b'/' ∷ star ∷ []) ∷ [];
  order = shown ∷ (star ∷ star ∷ []) ∷ [];
  table = (shown, inbox) ∷ [];
}

applied :
    (apply mail.mapping mail.order inbox ≡ shown)
    × (apply mail.mapping mail.order (b'G' ∷ b'/' ∷ b'x' ∷ []) ≡ b'x' ∷ [])
unfolding apply apply_rule squeeze
applied = (refl, refl)

-- Below the folder `i`, a new one `i/n`.
abbrev fresh : Name
fresh = b'i' ∷ b'/' ∷ b'n' ∷ []

create_folder_lem_example :
    ((k v : Name)
      → k ≢ []
      → Map.get k mail.table ≡ some v
      → has_prefix fresh k ≡ true
      → NoLonger fresh mail.table (length k)
      → create_folder mail.table fresh ≡ v ++ drop (length k) fresh)
    × (NoLonger fresh mail.table 0 → create_folder mail.table fresh ≡ fresh)
create_folder_lem_example = create_folder_lem mail.table fresh

-- The folder above is replaced.
created_below : create_folder mail.table fresh ≡ inbox ++ b'/' ∷ b'n' ∷ []
created_below =
    (create_folder_lem mail.table fresh).0 shown inbox (λ e. absurd (ground (arith, e))) refl refl
      (λ _. omega arith, tt)

only_shown : IsShown mail shown
unfolding incoming
only_shown k h = ground (arith, h)

both_shown : AllShown (process_action mail (move_messages shown shown)).1 (shown ∷ shown ∷ [])
unfolding process_action
both_shown = (only_shown, (only_shown, tt))

post_message-process_action_example :
    post_message
      (process_action mail (move_messages shown shown)).1
      (done_with (process_action mail (move_messages shown shown)).0)
    ≡ (done_with (move_messages shown shown), (process_action mail (move_messages shown shown)).1)
post_message-process_action_example =
    post_message-process_action mail (move_messages shown shown) (refl, tt) tt both_shown

post_message-directory_example :
    (x : Name) × (f' : FolderMapper) × (post_message mail (directory false inbox)
      ≡ (directory false x, f'))
    × (incoming f' x ≡ inbox)
    × Map.IsDistinct f'.table
post_message-directory_example = post_message-directory mail inbox (refl, tt)
