-- ===== src/Message/DirStore.antt =====
-- lib/dirstore.go: the folders of an account and their message stores. What a folder and a store are is
-- a parameter. `List` is left out: it sorts the names by the order.
use aerc.Prelude.{
  ◌≡◌, Option, none, some, List, [], ◌∷◌, ◌++◌, String, string_eq, eqb, if◌then◌else◌,
}
use aerc.Prelude.Map

pub record DirStore (Directory MessageStore : Type 0) : Type 0 where
  pub dirs : List (String × Directory)
  pub msg_stores : List (String × MessageStore)
  pub order : List String

module _ {Directory MessageStore : Type 0} where
  unfoldable pub new_dir_store : DirStore Directory MessageStore
  new_dir_store = record { dirs = []; msg_stores = []; order = [] }

  unfoldable pub message_store : String → DirStore Directory MessageStore → Option MessageStore
  message_store dirname store = Map.get dirname store.msg_stores

  -- The name is a field of the folder.
  unfoldable pub set_message_store :
      String
      → Directory
      → MessageStore
      → DirStore Directory MessageStore
      → DirStore Directory MessageStore
  set_message_store name dir msg_store store = record {
    dirs = Map.put name dir store.dirs;
    msg_stores = Map.put name msg_store store.msg_stores;
    order = if Map.has name store.dirs then store.order else store.order ++ name ∷ [];
  }

  -- The name stays in the order.
  unfoldable pub remove : String → DirStore Directory MessageStore → DirStore Directory MessageStore
  remove name store = record store {
    dirs = Map.delete name store.dirs;
    msg_stores = Map.delete name store.msg_stores;
  }

  unfoldable pub directory : String → DirStore Directory MessageStore → Option Directory
  directory name store = Map.get name store.dirs

  -- A store that was set is found under its name, until it is removed; no other is touched.
  pub message_store-set-remove :
      (name other : String) (dir : Directory) (s : MessageStore)
      (store : DirStore Directory MessageStore)
      → (message_store other (set_message_store name dir s store)
          ≡ (if eqb name other then some s else message_store other store))
        × (message_store other (remove name store)
            ≡ (if eqb name other then none else message_store other store))
  unfolding message_store set_message_store remove
  message_store-set-remove name other dir s store =
      (Map.get-put name other s store.msg_stores, Map.get-delete name other store.msg_stores)
