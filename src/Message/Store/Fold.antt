-- ===== src/Message/Store/Fold.antt =====
-- lib/msgstore.go, `doThreadFolding`: how a thread is folded and unfolded. `Hidden` of a message counts
-- the folds that it lies under, and the message with the UID itself stays.
pub mod Undo
use aerc.Prelude.{
  ℕ, zero, suc, ◌+◌, ◌-◌, ◌<◌, ◌≡◌, ◌≢◌, refl, ap, ap₂, ◌∙◌, Bool, true, false, not, ◌&&◌, Option,
  none, some, List, [], ◌∷◌, String, string_eq, eqb, ltb, ◌==◌, if◌then◌else◌, length, arith,
}
use aerc.Message.Threads.{Node, Thread, Threads, thread, nil, cons, node_of, uids}

abbrev pub less : ℕ → ℕ
less h = if ltb 1 h then h - 1 else 0

-- The cases of the callback, for the message with the count `h`.
abbrev pub new_hidden : Bool → Bool → Bool → ℕ → ℕ
new_hidden hide toggle folded h =
    if toggle then if folded then less h else h + 1 else if hide then h + 1 else less h

abbrev pub fold_node : String → Bool → Bool → Bool → Node → Node
fold_node u hide toggle folded n =
    if eqb n.uid u then n else record n { hidden = new_hidden hide toggle folded n.hidden }

-- The walk, whose callback changes each message.
unfoldable mutual
  pub fold_all : String → Bool → Bool → Bool → Thread → Thread
  fold_all u hide toggle folded (thread n cs) =
      thread (fold_node u hide toggle folded n) (fold_children u hide toggle folded cs)

  pub fold_children : String → Bool → Bool → Bool → Threads → Threads
  fold_children u hide toggle folded nil = nil
  fold_children u hide toggle folded (cons t ts) =
      cons (fold_all u hide toggle folded t) (fold_children u hide toggle folded ts)

-- `thread.FirstChild.Hidden > 0`, of a thread with a child
abbrev pub is_folded : Thread → Bool
is_folded (thread n nil) = false
is_folded (thread n (cons t ts)) = ltb 0 (node_of t).hidden

unfoldable pub do_thread_folding : String → Bool → Bool → Thread → Thread
unfolding uids fold_all
do_thread_folding u hide toggle t =
    if length (uids t) == 1
    then t
    else if not toggle && hide && is_folded t
    then t
    else fold_all u hide toggle (is_folded t) t

unfoldable pub fold_thread : String → Bool → Thread → Thread
unfolding do_thread_folding
fold_thread u toggle t = do_thread_folding u true toggle t

unfoldable pub unfold_thread : String → Bool → Thread → Thread
unfolding do_thread_folding
unfold_thread u toggle t = do_thread_folding u false toggle t
