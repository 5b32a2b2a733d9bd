-- ===== src/Imap/Expunge.antt =====
-- worker/imap/expungehandler.go: the UIDs of messages that are being deleted, found again from the
-- sequence numbers that the server sends. The logging and the mutex are left out: each method runs
-- under the lock from its first to its last line.
pub mod Shift
pub mod Stable
pub mod LowToHigh
mod Tests
use aerc.Prelude.{
  ℕ, ◌+◌, ◌-◌, ◌%◌, Bool, true, false, ◌&&◌, ◌||◌, Option, none, some, List, [], ◌∷◌, ◌==◌,
  if◌then◌else◌, Outcome, done, ◌>>=◌, nat_eq,
}
use aerc.Prelude.Map
use aerc.Imap.SeqMap.{SeqMap, snapshot, u32_mod}

-- ExpungePolicyAuto, ExpungePolicyLowToHigh, ExpungePolicyStable
pub data Policy : Type 0 where
  auto low_to_high stable : Policy

-- The `worker` field is not kept: it is used for the snapshot, the configured policy and the log.
pub record ExpungeHandler : Type 0 where
  pub policy : Policy
  pub items : List (ℕ × ℕ)
  pub min_num : ℕ
  pub for_delete : Bool
  pub got_first : Bool

-- The new handler, and the worker's map without the UIDs.
unfoldable pub new_expunge_handler :
    SeqMap → Policy → List ℕ → Bool → Outcome (ExpungeHandler × SeqMap)
new_expunge_handler seq_map policy uids for_delete = do
  (snap, min, seq_map') ← snapshot seq_map uids
  done (
    record {
      policy = policy;
      items = snap;
      min_num = min;
      for_delete = for_delete;
      got_first = false;
    },
    seq_map',
  )

-- if h.policy == ExpungePolicyAuto { … }
unfoldable pub deduce : Policy → Bool → Policy
deduce auto is_min = if is_min then low_to_high else stable
deduce low_to_high is_min = low_to_high
deduce stable is_min = stable

-- for s, uid := range h.items { newSeq[s-1] = uid }, with uint32 subtraction
unfoldable pub shift : List (ℕ × ℕ) → List (ℕ × ℕ) → List (ℕ × ℕ)
shift [] new_seq = new_seq
shift ((s, uid) ∷ items) new_seq = shift items (Map.put ((s + u32_mod - 1) % u32_mod) uid new_seq)

unfoldable pub after_pop : Policy → Option ℕ → List (ℕ × ℕ) → List (ℕ × ℕ)
unfolding shift
after_pop low_to_high (some uid) items = shift items []
after_pop policy found items = items

-- `none` is Go's `0, false`.
unfoldable pub pop_sequence_number : ExpungeHandler → ℕ → Option ℕ × ExpungeHandler
unfolding deduce after_pop
pop_sequence_number h seq_num =
    let policy = if h.got_first then h.policy else deduce h.policy (seq_num == h.min_num) in
    let found = Map.get seq_num h.items in
    (
      found,
      record h {
        policy = policy;
        items = after_pop policy found (Map.delete seq_num h.items);
        got_first = true;
      },
    )

holds_uid : List (ℕ × ℕ) → ℕ → Bool
holds_uid [] uid = false
holds_uid ((_, u) ∷ items) uid = if u == uid then true else holds_uid items uid

unfoldable pub is_expunging_for_delete : ExpungeHandler → ℕ → Bool
unfolding holds_uid
is_expunging_for_delete h uid = if h.for_delete then holds_uid h.items uid else false

-- The calls that the worker makes, one for each EXPUNGE reply, and what they return.
unfoldable pub pop_each : ExpungeHandler → List ℕ → List (Option ℕ)
pop_each h [] = []
pop_each h (n ∷ ns) = let (found, h') = pop_sequence_number h n in found ∷ pop_each h' ns
