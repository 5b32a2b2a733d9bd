-- ===== src/Message/Store/Deleted.antt =====
-- lib/msgstore.go: messages that the worker has deleted leave the store.
use aerc.Prelude.{
  ◌≤◌, ◌≡◌, refl, Bool, true, not, ◌&&◌, inl, inr, Option, none, some, List, [], ◌∷◌, ◌++◌, String,
  string_eq, contains, ◌==◌, length, arith, Bool-cases, Option-cases, done,
}
use aerc.Prelude.Int.{ℤ}
use aerc.Prelude.Map
use aerc.Marker.{Controller}
use aerc.Message.Builder.{ThreadBuilder, refreshed}
use aerc.Message.Builder.Visible.{rebuild_uids-shown}
use aerc.Message.Threads.{Thread}
use aerc.Message.Store.{
  Store, Event, emit, update, run_thread_builder, rebuild_threads, empty_builder, updated,
  dirs_updated,
}
use aerc.Message.Store.Requests.{delete_all}
use aerc.Message.Store.Pending.{contains-remove_all}
use aerc.Message.Store.Select.{select-done, moved}
use aerc.Message.Store.Update.{
  without_all, drop_messages, unselect_empty, delete_threads, mark_deleted, on_messages_deleted,
}

contains-without_all :
    (gone us : List String) (v : String)
    → contains (without_all gone us) v ≡ (contains us v && not (contains gone v))
contains-without_all gone [] v = refl
contains-without_all gone (u ∷ us) v =
    ground (arith, contains-without_all gone us v, string_eq.beq_iff u v)

has-delete_all {ℓ} :
    {V : Type ℓ} (us : List String) (m : List (String × V)) (v : String)
    → Map.has v (delete_all us m) ≡ (Map.has v m && not (contains us v))
has-delete_all [] m v = ground arith
has-delete_all (u ∷ us) m v =
    ground (arith, has-delete_all us (Map.delete u m) v, Map.has-delete u v m)

-- A store after the list was drawn and the threads were rebuilt.
abbrev pub redrawn : Store → Option ThreadBuilder → List Thread → Bool → List Event → Store
redrawn s b ts debounce e = record s {
  builder = b;
  threads = ts;
  thread_builder_debounce = debounce;
  events = e;
}

pub update-done :
    (threads : Bool) (s : Store)
    → (b : Option ThreadBuilder) × (ts : List Thread) × (d : Bool) × (e : List Event) × (update
          threads s
        ≡ done (redrawn s b ts d e))
unfolding update rebuild_threads run_thread_builder
update-done threads s = elim (Bool-cases (s.threaded_view && threads)) [
  | inr flat ↦ (
    s.builder,
    s.threads,
    s.thread_builder_debounce,
    (s.events ++ updated ∷ []) ++ dirs_updated ∷ [],
    ground (arith, flat),
  )
  | inl threaded ↦
      let s1 = emit dirs_updated (emit updated s) in
      elim (Bool-cases s.build_threads) [
        | inl built ↦
            let s2 = run_thread_builder s1 in
            (
              s2.builder,
              s2.threads,
              s2.thread_builder_debounce,
              s2.events,
              ground (arith, threaded, built),
            )
        | inr given ↦
            let (b, f, _, _, _) =
              rebuild_uids-shown s.threads s.ui.reverse_thread_order (empty_builder s1) in
            (
              some b,
              refreshed b.thread_map s.threads,
              s.thread_builder_debounce,
              s1.events,
              ground (arith, threaded, given, f),
            )
      ]
]

unselect_empty-done :
    (s : Store)
    → (u : String) × (tc : Option ℤ) × (m : Option Controller) × (e : List Event) × (unselect_empty
          s
        ≡ done (moved s u tc m e s.result_index))
      × (s.uids ≡ [] → u ≡ "")
unfolding unselect_empty
unselect_empty-done s = elim (Bool-cases (length s.uids == 0)) [
  | inr full ↦ (
    s.selected_uid,
    s.thread_callback,
    s.marker,
    s.events,
    ground (arith, full),
    λ none_left. absurd (ground arith),
  )
  | inl empty ↦
      let (m, e, f) = select-done "" s in
      ("", none, m, e, ground (arith, empty, f), λ none_left. refl)
]

-- What the threads are marked with is not seen elsewhere.
delete_threads-same :
    (gone : List String) (s : Store)
    → (b : Option ThreadBuilder) × (ts : List Thread) × (delete_threads gone s
        ≡ record s { builder = b; threads = ts })
unfolding delete_threads
delete_threads-same gone s = elim (Option-cases s.builder) [
  | inl e ↦ (none, s.threads, ground (arith, e))
  | inr (b, e) ↦
      let m = mark_deleted gone b.thread_map in
      (some (record b { thread_map = m }), refreshed m s.threads, ground (arith, e))
]

-- Where the worker says that messages of the folder were deleted, no more than the store has, the store
-- handles it without a panic: it then has exactly the other messages, in its list, its map, its marks for
-- deletion and its results, and no selected message if none is left.
pub on_messages_deleted_lem :
    (gone : List String) (s : Store)
    → length gone ≤ length s.uids
    → (s' : Store) × (on_messages_deleted s.name gone s ≡ done s')
      × ((v : String) → contains s'.uids v ≡ (contains s.uids v && not (contains gone v)))
      × ((v : String) → Map.has v s'.messages ≡ (Map.has v s.messages && not (contains gone v)))
      × ((v : String) → contains s'.deleted v ≡ (contains s.deleted v && not (contains gone v)))
      × ((v : String) → contains s'.results v ≡ (contains s.results v && not (contains gone v)))
      × (s'.uids ≡ [] → s'.selected_uid ≡ "")
unfolding on_messages_deleted drop_messages
on_messages_deleted_lem gone s h =
    let s0 = drop_messages gone s in
    let (u, tc, m, e, f, gone_all) = unselect_empty-done s0 in
    let s1 = moved s0 u tc m e s0.result_index in
    let s2 = record s1 { results = without_all gone s.results } in
    let (b, ts, g) = delete_threads-same gone s2 in
    let (b', ts', d, e', k) = update-done true (record s2 { builder = b; threads = ts }) in
    (
      redrawn s2 b' ts' d e',
      ground (arith, h, f, g, k, string_eq.beq_iff s.name s.name),
      contains-without_all gone s.uids,
      has-delete_all gone s.messages,
      contains-remove_all gone s.deleted,
      contains-without_all gone s.results,
      gone_all,
    )
