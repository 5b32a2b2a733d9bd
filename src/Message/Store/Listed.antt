-- ===== src/Message/Store/Listed.antt =====
-- lib/msgstore.go: what a store has, and asks for, after the worker has listed the folder.
use aerc.Prelude.{
  ℕ, suc, ◌≡◌, ◌≢◌, refl, Bool, true, false, not, ◌&&◌, ◌||◌, inl, inr, Option, none, some, List,
  [], ◌∷◌, ◌++◌, String, string_eq, contains, ltb, length, get_elem?-within, if◌then◌else◌, arith,
  Bool-cases, Option-cases, Outcome, done, ◌>>=◌,
}
use aerc.Prelude.Int.{ℤ, pos, negsuc, ltb_ℤ}
use aerc.Prelude.Map
use aerc.Marker.{Controller}
use aerc.Message.Info.{MessageInfo}
use aerc.Message.Builder.{ThreadBuilder, Threadable, Structures, rebuild_uids, refreshed}
use aerc.Message.Builder as Builder
use aerc.Message.Builder.Visible.{rebuild_uids-shown}
use aerc.Message.Threads.{Thread, sort_threads_by}
use aerc.Message.Store.{
  Store, Event, flatten, get_uids, select_priv, index_ℤ, set_selected, fed_builder, updated,
}
use aerc.Message.Builder.Refs.{IsOnce}
use aerc.Message.Store.Pending.{posted}
use aerc.Message.Store.Asked.{IsNewOnScreen, asked, new_uids_lem, after_listing-asked}
use aerc.Message.Store.Select.{update_marker-done, moved}
use aerc.Message.Store.Update.{
  list_uids, new_uids, is_change, run_thread_builder_now, on_directory_contents,
}

get-list_uids :
    (s : Store) (n i : ℕ) (us : List String) (m : List (String × Option MessageInfo)) (v : String)
    → Map.get v (list_uids s n i us m)
      ≡ (if contains us v then some (flatten (Map.get v s.messages)) else Map.get v m)
get-list_uids s n i [] m v = refl
get-list_uids s n i (u ∷ us) m v =
    let x = flatten (Map.get u s.messages) in
    ground (
      arith,
      get-list_uids s n (suc i) us (Map.put u x m) v,
      Map.get-put u v x m,
      string_eq.beq_iff u v,
    )

-- The threads that the client builds leave the list and the messages as they are.
abbrev pub threaded :
    Store
    → Option ThreadBuilder
    → List Thread
    → String
    → Option ℤ
    → Option Controller
    → List Event
    → Store
threaded s b ts u tc m e = record (moved s u tc m e s.result_index) { builder = b; threads = ts }

module _ (thread_slice : List Threadable → Option Structures) where
  threads-done :
      (us : List String) (inverse sort : Bool) (b : ThreadBuilder)
      → (r : List Thread × ThreadBuilder) × (Builder.threads thread_slice us inverse sort b
          ≡ done r)
  unfolding Builder.threads
  threads-done us inverse sort b =
      let ts =
        sort_threads_by
          (Builder.build_aerc_threads (thread_slice (Builder.blocks_of b.thread_blocks us)) us sort
            b)
          us in
      let (b', f, _, _, _) = rebuild_uids-shown ts inverse b in
      ((refreshed b'.thread_map ts, b'), ground (arith, f))

  callback_done :
      (s : Store)
      → ((i : ℕ) → s.thread_callback ≢ some (negsuc i))
      → (u : String) × (tc : Option ℤ) × (m : Option Controller) × ((elim s.thread_callback
            as (λ _. Outcome Store) [
              | none ↦ done s
              | some i ↦
                  if ltb_ℤ i (pos (length (get_uids s)))
                  then index_ℤ (get_uids s) i >>= (λ u'. select_priv u' s)
                  else done s
            ])
          ≡ done (moved s u tc m s.events s.result_index))
  unfolding select_priv
  callback_done s safe = elim (Option-cases s.thread_callback) [
    | inl e ↦ (s.selected_uid, s.thread_callback, s.marker, ground (arith, e))
    | inr (negsuc i, e) ↦ absurd (safe i e)
    | inr (pos i, e) ↦ elim (Bool-cases (ltb i (length (get_uids s)))) [
      | inr out ↦ (s.selected_uid, s.thread_callback, s.marker, ground (arith, e, out))
      | inl inside ↦
          let (u, at) = get_elem?-within (get_uids s) i (ground arith) in
          let (m, f) = update_marker-done (set_selected u s) in
          (u, none, m, ground (arith, e, inside, at, f))
    ]
  ]

  run_thread_builder_now-threaded :
      (s : Store)
      → ((i : ℕ) → s.thread_callback ≢ some (negsuc i))
      → (b : Option ThreadBuilder) × (ts : List Thread) × (u : String) × (tc : Option ℤ)
        × (m : Option Controller) × (e : List Event) × (run_thread_builder_now thread_slice s
            ≡ done (threaded s b ts u tc m e))
  unfolding run_thread_builder_now
  run_thread_builder_now-threaded s safe =
      let (r, f) =
        threads-done s.uids s.ui.reverse_thread_order s.ui.sort_thread_siblings (fed_builder s) in
      let s1 = record s { builder = some r.1; threads = r.0 } in
      let (u, tc, m, g) = callback_done s1 safe in
      (some r.1, r.0, u, tc, m, s.events ++ updated ∷ [], ground (arith, f, g))

  built_done :
      (s : Store)
      → ((i : ℕ) → s.thread_callback ≢ some (negsuc i))
      → (b : Option ThreadBuilder) × (ts : List Thread) × (u : String) × (tc : Option ℤ)
        × (m : Option Controller) × (e : List Event) × ((if s.threaded_view
              then run_thread_builder_now thread_slice s
              else done s)
            ≡ done (threaded s b ts u tc m e))
  built_done s safe = elim (Bool-cases s.threaded_view) [
    | inr flat ↦ (
      s.builder,
      s.threads,
      s.selected_uid,
      s.thread_callback,
      s.marker,
      s.events,
      ground (arith, flat),
    )
    | inl view ↦
        let (b, ts, u, tc, m, e, f) = run_thread_builder_now-threaded s safe in
        (b, ts, u, tc, m, e, ground (arith, view, f))
  ]

  -- When the worker has listed the folder, which the store handles without a panic unless a callback
  -- holds a negative index, the list is as received and the map has exactly its messages, with what was
  -- known of each. The worker is asked, at most once, for the headers of exactly those messages, each
  -- once, that were neither known nor pending and whose line is on the screen; the line is counted from
  -- the first message if the order is reversed, and else from the last one. These then are pending, as
  -- are those that were.
  pub on_directory_contents_lem :
      (us : List String) (s : Store)
      → ((i : ℕ) → s.thread_callback ≢ some (negsuc i))
      → (s' : Store) × (on_directory_contents thread_slice s.name us s ≡ done s')
        × (s'.uids ≡ us)
        × (s'.directory_contents_loaded ≡ true)
        × ((v : String)
            → Map.get v s'.messages
              ≡ (if contains us v then some (flatten (Map.get v s.messages)) else none))
        × (f : List String) × (s'.actions ≡ posted f s.actions)
        × IsOnce f
        × ((i k : ℕ) (v : String)
            → IsNewOnScreen s us i k v
            → contains s.pending_headers v ≡ false
            → contains f v ≡ true)
        × ((v : String)
            → contains f v ≡ true
            → (contains s.pending_headers v ≡ false) × (i : ℕ) × (k : ℕ) × IsNewOnScreen s us i k v)
        × ((v : String)
            → contains s'.pending_headers v ≡ (contains s.pending_headers v || contains f v))
  unfolding on_directory_contents
  on_directory_contents_lem us s safe =
      let s0 = record s { messages = list_uids s (length us) 0 us []; uids = us } in
      let (b, ts, u, tc, m, e, g) = built_done s0 safe in
      let s1 = record (threaded s0 b ts u tc m e) { directory_contents_loaded = true } in
      let fresh = new_uids s (length us) 0 us in
      let (e', f, p, h, once, cf, cp) =
        after_listing-asked s.directory_contents_loaded (is_change s us) fresh s1 in
      (
        asked s1 (posted f s.actions) e' p,
        ground (arith, g, h, string_eq.beq_iff s.name s.name),
        refl,
        refl,
        λ v. get-list_uids s (length us) 0 us [] v,
        f,
        refl,
        once,
        λ i k v new idle. let c = (new_uids_lem s us v).0 i k new in ground (arith, cf v, c, idle),
        λ v c.
            let both : (contains fresh v && not (contains s.pending_headers v)) ≡ true =
              ground (arith, cf v, c) in
            let (i, k, new) = (new_uids_lem s us v).1 (ground (arith, both)) in
            (ground (arith, both), i, k, new),
        cp,
      )
