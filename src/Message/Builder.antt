-- ===== src/Message/Builder.antt =====
-- lib/threadbuilder.go: the threads that the client builds, and the order of UIDs that follows from
-- them. The mutex, the log and the time are left out. The threading itself is that of lib/jwz, which is
-- a parameter: it takes the headers and gives a forest.
pub mod Kept
pub mod Refs
pub mod Tree
pub mod Visible
mod Tests
use Prim.Native.String.{compare}
use Prim.Native.Nat.{Ordering}
use aerc.Prelude.{
  ℕ, zero, suc, ◌+◌, Bool, true, false, not, ◌&&◌, ◌||◌, Option, none, some, List, [], ◌∷◌, ◌++◌,
  map, String, string_eq, backwards, eqb, contains, ltb, ◌==◌, if◌then◌else◌, length, Outcome, done,
  panic, ◌>>=◌,
}
use aerc.Prelude.Map
use aerc.Message.Iterator.{new_iterator, walk}
use aerc.Message.Threads.{
  Node, Thread, Threads, thread, nil, cons, node_of, insert_cmp, go_on, index_map, is_gone,
  sort_threads_by,
}
use aerc.Message.Threads as T

-- What the builder reads of a message; `none` is an error of the function of that name, and a message
-- without envelope for the subject.
pub record Header : Type 0 where
  pub uid : String
  pub msg_id : Option String
  pub in_reply_to : Option String
  pub references : Option (List String)
  pub subject : Option String

-- A message whose id is known.
pub record Threadable : Type 0 where
  pub message_id : String
  pub msg_info : Header
  pub by_subject : Bool

-- The flags that a thread has kept.
pub record Flags : Type 0 where
  pub hidden : ℕ
  pub deleted : Bool

-- The threads of `thread_map` are those of the list that was rebuilt last, so the model keeps only what
-- is read of them. `reverse` says which factory of iterators it is.
pub record ThreadBuilder : Type 0 where
  pub thread_blocks : List (String × Threadable)
  pub threaded_uids : List String
  pub thread_map : List (String × Flags)
  pub reverse : Bool
  pub by_subject : Bool

unfoldable pub new_thread_builder : Bool → Bool → ThreadBuilder
new_thread_builder reverse by_subject = record {
  thread_blocks = [];
  threaded_uids = [];
  thread_map = [];
  reverse = reverse;
  by_subject = by_subject;
}

unfoldable pub new_threadable : Header → Bool → Option Threadable
new_threadable msg by_subject = elim msg.msg_id [
  | none ↦ none
  | some id ↦ some (record { message_id = id; msg_info = msg; by_subject = by_subject })
]

unfoldable pub update : Header → ThreadBuilder → ThreadBuilder
unfolding new_threadable
update msg builder = elim (new_threadable msg builder.by_subject) [
  | none ↦ builder
  | some t ↦ record builder { thread_blocks = Map.put msg.uid t builder.thread_blocks }
]

-- The loop of `cleanRefs`, with the references considered so far.
unfoldable pub clean_from : String → List String → List String → List String
clean_from m considered [] = []
clean_from m considered (r ∷ refs) =
    let fresh = clean_from m (r ∷ considered) refs in
    let rest = clean_from m considered refs in
    if not (eqb r m) && not (contains considered r) then r ∷ fresh else rest

-- The in-reply-to reference is moved to the end.
abbrev pub move_reply : String → List String → List String
move_reply irp [] = []
move_reply irp (r ∷ refs) = if not (eqb irp "") && eqb r irp then refs ++ irp ∷ [] else r ∷ refs

unfoldable pub clean_refs : String → String → List String → List String
unfolding clean_from
clean_refs m irp refs = move_reply irp (clean_from m [] refs)

abbrev pub or_empty : Option String → String
or_empty none = ""
or_empty (some s) = s

unfoldable pub message_thread_references : Threadable → List String
unfolding clean_refs
message_thread_references t =
    let irp = or_empty t.msg_info.in_reply_to in
    elim t.msg_info.references [
      | none ↦ if eqb irp "" then [] else clean_refs t.message_id irp (irp ∷ [])
      | some [] ↦ if eqb irp "" then [] else clean_refs t.message_id irp (irp ∷ [])
      | some (r ∷ refs) ↦ clean_refs t.message_id irp (r ∷ refs)
    ]

unfoldable pub subject : Threadable → String
subject t = if not t.by_subject then "" else or_empty t.msg_info.subject

-- What the threading gives: a forest of messages and of dummies.
mutual
  pub data Structure : Type 0 where
    item : String → Bool → Structures → Structure

  pub data Structures : Type 0 where
    nil_s : Structures
    cons_s : Structure → Structures → Structures

unfoldable pub new_thread : String → Bool → Threads → Thread
new_thread u is_dummy children =
    thread (record { uid = u; hidden = if is_dummy then 1 else 0; deleted = false; dummy = false })
      children

unfoldable mutual
  unfolding new_thread

  -- A node under a parent: the thread of the node, whose own children are built before it is put
  -- among those of the parent, though the code puts it there first.
  pub build_node : (Thread → Thread → Bool) → Structure → Thread
  build_node bigger (item u is_dummy cs) = new_thread u is_dummy (build_tree bigger cs nil is_dummy)

  pub build_tree : (Thread → Thread → Bool) → Structures → Threads → Bool → Threads
  build_tree bigger nil_s children root_level = children
  build_tree bigger (cons_s s ss) children root_level =
      build_tree bigger ss
        (if root_level
          then cons (build_node bigger s) children
          else insert_cmp bigger (build_node bigger s) children)
        root_level

abbrev pub is_more : String → String → Bool
is_more a b = elim (compare a b) [ Ordering.gt ↦ true | _ ↦ false ]

abbrev pub index_of : List (String × ℕ) → Thread → ℕ
index_of m t = elim (Map.get (node_of t).uid m) [ none ↦ 0 | some i ↦ i ]

-- The comparison by the order of the UIDs, and that by the subjects.
unfoldable pub bigger_uid : List String → Thread → Thread → Bool
bigger_uid uids l r = ltb (index_of (index_map uids 0 []) r) (index_of (index_map uids 0 []) l)

unfoldable pub bigger_subject : List (String × Threadable) → Thread → Thread → Bool
unfolding subject
bigger_subject blocks l r = elim (Map.get (node_of l).uid blocks) [
  | none ↦ false
  | some a ↦ elim (Map.get (node_of r).uid blocks) [
    | none ↦ false
    | some b ↦ is_more (subject a) (subject b)
  ]
]

-- A thread of its own for each UID.
abbrev pub alone : String → Thread
alone u = thread (record { uid = u; hidden = 0; deleted = false; dummy = false }) nil

-- The UIDs of messages that were not fetched.
abbrev pub unfetched : List (String × Threadable) → List String → List String
unfetched blocks [] = []
unfetched blocks (u ∷ us) =
    if Map.has u blocks then unfetched blocks us else u ∷ unfetched blocks us

abbrev pub to_list : Threads → List Thread
to_list nil = []
to_list (cons t ts) = t ∷ to_list ts

-- `none` is the nil structure.
unfoldable pub build_aerc_threads :
    Option Structures → List String → Bool → ThreadBuilder → List Thread
unfolding build_tree bigger_uid bigger_subject
build_aerc_threads none uids sort builder = map alone uids
build_aerc_threads (some structure) uids sort builder =
    let bigger = if sort then bigger_uid uids else bigger_subject builder.thread_blocks in
    map alone (unfetched builder.thread_blocks uids)
    ++ to_list (build_tree bigger structure nil true)

abbrev pub blocks_of : List (String × Threadable) → List String → List Threadable
blocks_of blocks [] = []
blocks_of blocks (u ∷ us) = elim (Map.get u blocks) [
  | none ↦ blocks_of blocks us
  | some t ↦ t ∷ blocks_of blocks us
]

abbrev pub flags_of : List (String × Flags) → Node → Flags
flags_of m n = elim (Map.get n.uid m) [
  | none ↦ record { hidden = n.hidden; deleted = n.deleted }
  | some f ↦ f
]

abbrev pub is_out : Flags → Bool
is_out f = f.deleted || ltb 0 f.hidden

-- The callback of `RebuildUids`, with the map and the UIDs of the thread so far.
abbrev pub collect :
    Node × ℕ → List (String × Flags) × List String → List (String × Flags) × List String
collect (n, l) (m, us) =
    let f = flags_of m n in (Map.put n.uid f m, if is_out f then us else us ++ n.uid ∷ [])

-- The loop over the threads, in the order of the iterator.
unfoldable pub collect_all :
    Bool → List Thread → List (String × Flags) × List String → List (String × Flags) × List String
collect_all inverse [] (m, us) = (m, us)
collect_all inverse (t ∷ ts) (m, us) =
    let (m', tus) = (T.walk (λ n l s. (go_on, collect (n, l) s)) t (m, [])).1 in
    collect_all inverse ts (m', us ++ (if inverse then backwards tus else tus))

unfoldable pub rebuild_uids : List Thread → Bool → ThreadBuilder → Outcome ThreadBuilder
unfolding collect_all
rebuild_uids threads inverse builder = do
  ts ← walk (suc (length threads)) (new_iterator builder.reverse threads)
  let (m, us) = collect_all inverse ts (builder.thread_map, [])
  result ← walk (suc (length us)) (new_iterator builder.reverse us)
  done (record builder { thread_map = m; threaded_uids = result })

-- The threading of lib/jwz is `thread_slice`. The threads get the flags that the map keeps.
abbrev pub with_flags : List (String × Flags) → Node → Node
with_flags m n = record n { hidden = (flags_of m n).hidden; deleted = (flags_of m n).deleted }

unfoldable mutual
  pub refresh : List (String × Flags) → Thread → Thread
  refresh m (thread n cs) = thread (with_flags m n) (refresh_children m cs)

  pub refresh_children : List (String × Flags) → Threads → Threads
  refresh_children m nil = nil
  refresh_children m (cons t ts) = cons (refresh m t) (refresh_children m ts)

unfoldable pub refreshed : List (String × Flags) → List Thread → List Thread
unfolding refresh
refreshed m ts = map (refresh m) ts

module _ (thread_slice : List Threadable → Option Structures) where
  unfoldable pub threads :
      List String → Bool → Bool → ThreadBuilder → Outcome (List Thread × ThreadBuilder)
  unfolding build_aerc_threads rebuild_uids refreshed
  threads uids inverse sort builder =
      let ts =
        sort_threads_by
          (build_aerc_threads (thread_slice (blocks_of builder.thread_blocks uids)) uids sort
            builder)
          uids in
      do
        builder' ← rebuild_uids ts inverse builder
        done (refreshed builder'.thread_map ts, builder')
