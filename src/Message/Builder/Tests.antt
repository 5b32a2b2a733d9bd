-- ===== src/Message/Builder/Tests.antt =====
-- lib/threadbuilder.go on a few messages, and the theorems at them.
use aerc.Prelude.{
  ◌⊎◌, ◌≡◌, ◌≢◌, refl, true, false, not, ◌&&◌, some, none, List, [], ◌∷◌, ◌++◌, String, string_eq,
  eqb, contains, concat_map, done,
}
use aerc.Message.Threads.{Thread, thread, nil, cons}
use aerc.Message.Builder.{
  Header, ThreadBuilder, Structures, item, nil_s, cons_s, clean_refs, rebuild_uids,
  build_aerc_threads,
}
use aerc.Message.Builder.Refs.{IsOnce, StartsWith, others, clean_refs_lem}
use aerc.Message.Builder.Tree.{count, count_all, count-build_aerc_threads}
use aerc.Message.Builder.Visible.{part, parents_last, AllKnownIn, seen, rebuild_uids-shown}
use aerc.Message.Builder.Kept.{or_else, first_flags, messages_of}
use aerc.Prelude.Map

abbrev references : List String
references = "one" ∷ "two" ∷ "me" ∷ "two" ∷ []

clean_refs_lem_example :
    ((x : String)
      → contains (clean_refs "me" "one" references) x ≡ (contains references x && not (eqb x "me")))
    × IsOnce (clean_refs "me" "one" references)
    × (◌≢◌ {A = String} "one" "" → ¬ StartsWith "one" (clean_refs "me" "one" references))
    × ((rest : List String)
        → ◌≢◌ {A = String} "one" ""
        → others "me" references ≡ "one" ∷ rest
        → clean_refs "me" "one" references ≡ rest ++ "one" ∷ [])
    × ((x : String) (rest : List String)
        → (◌≡◌ {A = String} "one" "") ⊎ (x ≢ "one")
        → others "me" references ≡ x ∷ rest
        → clean_refs "me" "one" references ≡ x ∷ rest)
    × (◌≢◌ {A = String} "one" ""
        → ◌≢◌ {A = String} "me" "one"
        → clean_refs "me" "one" ("one" ∷ []) ≡ "one" ∷ [])
clean_refs_lem_example = clean_refs_lem "me" "one" references

-- The reference that is replied to goes behind the others.
replied_to_last : clean_refs "me" "one" references ≡ "two" ∷ "one" ∷ []
unfolding clean_refs
replied_to_last = refl

abbrev leaf : String → Thread
leaf u = thread (record { uid = u; hidden = 0; deleted = false; dummy = false }) nil

-- `b` under `a`, and `c`, where `c` was folded away before.
abbrev forest : List Thread
forest =
    thread (record { uid = "a"; hidden = 0; deleted = false; dummy = false }) (cons (leaf "b") nil)
    ∷ leaf "c"
    ∷ []

abbrev builder : ThreadBuilder
builder = record {
  thread_blocks = [];
  threaded_uids = [];
  thread_map = ("c", record { hidden = 1; deleted = false }) ∷ [];
  reverse = false;
  by_subject = false;
}

rebuild_uids-shown_example :
    (b' : ThreadBuilder) × (rebuild_uids forest false builder ≡ done b')
    × (b'.threaded_uids ≡ concat_map (part (parents_last false false) b'.thread_map) forest)
    × AllKnownIn b'.thread_map forest
    × ((u : String)
        → Map.get u b'.thread_map
          ≡ or_else
              (Map.get u builder.thread_map)
              (first_flags u (messages_of (seen false forest))))
rebuild_uids-shown_example = rebuild_uids-shown forest false builder

abbrev replied : Structures
replied = cons_s (item "a" false (cons_s (item "b" false nil_s) nil_s)) nil_s

abbrev header : String → Header
header u = record {
  uid = u;
  msg_id = some u;
  in_reply_to = none;
  references = none;
  subject = none;
}

abbrev known : ThreadBuilder
known = record builder {
  thread_blocks =
      ("a", record { message_id = "a"; msg_info = header "a"; by_subject = false })
      ∷ ("b", record { message_id = "b"; msg_info = header "b"; by_subject = false })
      ∷ [];
}

count-build_aerc_threads_example :
    (count_all "b" (build_aerc_threads (some replied) ("a" ∷ "b" ∷ "c" ∷ []) true known)
      ≡ count "b" ("a" ∷ "b" ∷ "c" ∷ []))
    × (count_all "b" (build_aerc_threads none ("a" ∷ "b" ∷ "c" ∷ []) true known)
        ≡ count "b" ("a" ∷ "b" ∷ "c" ∷ []))
count-build_aerc_threads_example =
    count-build_aerc_threads "b" replied ("a" ∷ "b" ∷ "c" ∷ []) true known refl
