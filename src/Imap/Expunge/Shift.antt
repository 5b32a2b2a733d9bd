-- ===== src/Imap/Expunge/Shift.antt =====
-- The renumbering loop of `PopSequenceNumber` in worker/imap/expungehandler.go.
use aerc.Prelude.{
  ℕ, ◌+◌, ◌-◌, ◌%◌, ◌<◌, ◌≡◌, refl, Option, none, some, List, [], ◌∷◌, nat_eq, arith,
}
use aerc.Prelude.Map
use aerc.Imap.SeqMap.{u32_mod}
use aerc.Imap.SeqMap.Snapshots.{KeysFit, put-KeysFit}
use aerc.Imap.Expunge.{shift}

abbrev or_else : Option ℕ → Option ℕ → Option ℕ
or_else none b = b
or_else (some a) b = some a

get-shift_from :
    (q : ℕ) (items new_seq : List (ℕ × ℕ))
    → q < u32_mod
    → KeysFit items
    → Map.IsDistinct items
    → Map.get q (shift items new_seq)
      ≡ or_else (Map.get ((q + 1) % u32_mod) items) (Map.get q new_seq)
unfolding shift
get-shift_from q [] new_seq h f d = refl
get-shift_from q ((s, uid) ∷ items) new_seq h f d = ground (
  arith,
  get-shift_from q items (Map.put ((s + u32_mod - 1) % u32_mod) uid new_seq),
  Map.get-put ((s + u32_mod - 1) % u32_mod) q uid new_seq,
  Map.get_of_not_has s items,
)

-- After the loop each number has the UID that the next one had.
pub get-shift :
    (q : ℕ) (items : List (ℕ × ℕ))
    → q < u32_mod
    → KeysFit items
    → Map.IsDistinct items
    → Map.get q (shift items []) ≡ Map.get ((q + 1) % u32_mod) items
get-shift q items h f d = ground (arith, get-shift_from q items [])

shift_from-KeysFit :
    (items new_seq : List (ℕ × ℕ)) → KeysFit new_seq → KeysFit (shift items new_seq)
unfolding shift
shift_from-KeysFit [] new_seq f = f
shift_from-KeysFit ((s, uid) ∷ items) new_seq f =
    shift_from-KeysFit items _ (put-KeysFit (s + u32_mod - 1) uid new_seq f)

shift_from-IsDistinct :
    (items new_seq : List (ℕ × ℕ)) → Map.IsDistinct new_seq → Map.IsDistinct (shift items new_seq)
unfolding shift
shift_from-IsDistinct [] new_seq d = d
shift_from-IsDistinct ((s, uid) ∷ items) new_seq d =
    shift_from-IsDistinct items _ (Map.put-IsDistinct ((s + u32_mod - 1) % u32_mod) uid new_seq d)

pub shift-KeysFit : (items : List (ℕ × ℕ)) → KeysFit (shift items [])
shift-KeysFit items = shift_from-KeysFit items [] tt

pub shift-IsDistinct : (items : List (ℕ × ℕ)) → Map.IsDistinct (shift items [])
shift-IsDistinct items = shift_from-IsDistinct items [] tt
