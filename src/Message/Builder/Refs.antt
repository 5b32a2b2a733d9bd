-- ===== src/Message/Builder/Refs.antt =====
-- The references by which lib/threadbuilder.go threads a message.
use aerc.Prelude.{
  ◌≡◌, ◌≢◌, refl, ◌∙◌, false, not, ◌&&◌, List, [], ◌∷◌, ◌++◌, String, string_eq, eqb, contains,
  contains-append, arith, true, ◌⊎◌, ap, if◌then◌else◌,
}
use aerc.Message.Builder.{clean_from, move_reply, clean_refs}

abbrev pub IsOnce : List String → Type 0
IsOnce [] = Unit
IsOnce (x ∷ xs) = (contains xs x ≡ false) × IsOnce xs

contains-clean_from :
    (m x : String) (considered refs : List String)
    → contains (clean_from m considered refs) x
      ≡ (contains refs x && not (eqb x m) && not (contains considered x))
unfolding clean_from
contains-clean_from m x considered [] = refl
contains-clean_from m x considered (r ∷ refs) = ground (
  arith,
  contains-clean_from m x (r ∷ considered) refs,
  contains-clean_from m x considered refs,
  string_eq.beq_iff r x,
  string_eq.beq_iff r m,
  string_eq.beq_iff x m,
)

clean_from-IsOnce :
    (m : String) (considered refs : List String) → IsOnce (clean_from m considered refs)
unfolding clean_from
clean_from-IsOnce m considered [] = tt
clean_from-IsOnce m considered (r ∷ refs) = ground (
  arith,
  clean_from-IsOnce m (r ∷ considered) refs,
  clean_from-IsOnce m considered refs,
  contains-clean_from m r (r ∷ considered) refs,
  string_eq.beq_iff r r,
)

snoc-IsOnce :
    (xs : List String) (x : String) → contains xs x ≡ false → IsOnce xs → IsOnce (xs ++ x ∷ [])
snoc-IsOnce [] x h o = (refl, tt)
snoc-IsOnce (y ∷ xs) x h o = ground (
  arith,
  snoc-IsOnce xs x,
  contains-append xs (x ∷ []) y,
  string_eq.beq_iff x y,
  string_eq.beq_iff y x,
)

contains-move_reply :
    (irp x : String) (xs : List String) → contains (move_reply irp xs) x ≡ contains xs x
contains-move_reply irp x [] = refl
contains-move_reply irp x (r ∷ xs) = ground (
  arith,
  contains-append xs (irp ∷ []) x,
  string_eq.beq_iff r irp,
  string_eq.beq_iff r x,
  string_eq.beq_iff irp x,
)

move_reply-IsOnce : (irp : String) (xs : List String) → IsOnce xs → IsOnce (move_reply irp xs)
move_reply-IsOnce irp [] o = tt
move_reply-IsOnce irp (r ∷ xs) o = ground (arith, snoc-IsOnce xs irp, string_eq.beq_iff r irp)

-- The first of several references.
abbrev pub StartsWith : String → List String → Type 0
StartsWith irp [] = ⊥
StartsWith irp (r ∷ []) = ⊥
StartsWith irp (r ∷ s ∷ refs) = r ≡ irp

not-StartsWith :
    (irp : String) (xs : List String) → irp ≢ "" → IsOnce xs → ¬ StartsWith irp (move_reply irp xs)
not-StartsWith irp [] ne o h = h
not-StartsWith irp (r ∷ []) ne o h =
    ground (arith, string_eq.beq_iff r irp, string_eq.beq_iff irp "")
not-StartsWith irp (r ∷ s ∷ []) ne o h =
    ground (arith, string_eq.beq_iff r irp, string_eq.beq_iff irp "", string_eq.beq_iff s r)
not-StartsWith irp (r ∷ s ∷ y ∷ xs) ne o h =
    ground (arith, string_eq.beq_iff r irp, string_eq.beq_iff irp "", string_eq.beq_iff s r)

-- The list without the given elements, and each element where it first stands.
abbrev pub leave_out : List String → List String → List String
leave_out gone [] = []
leave_out gone (x ∷ xs) = if contains gone x then leave_out gone xs else x ∷ leave_out gone xs

abbrev pub unique : List String → List String
unique [] = []
unique (x ∷ xs) = x ∷ leave_out (x ∷ []) (unique xs)

leave_out-nil : (xs : List String) → leave_out [] xs ≡ xs
leave_out-nil [] = refl
leave_out-nil (x ∷ xs) = ground (arith, leave_out-nil xs)

leave_out-cons :
    (r : String) (gone xs : List String)
    → leave_out (r ∷ gone) xs ≡ leave_out gone (leave_out (r ∷ []) xs)
leave_out-cons r gone [] = refl
leave_out-cons r gone (x ∷ xs) = ground (arith, leave_out-cons r gone xs, string_eq.beq_iff r x)

leave_out-known :
    (r : String) (gone xs : List String)
    → contains gone r ≡ true
    → leave_out (r ∷ gone) xs ≡ leave_out gone xs
leave_out-known r gone [] h = refl
leave_out-known r gone (x ∷ xs) h =
    ground (arith, h, leave_out-known r gone xs h, string_eq.beq_iff r x)

clean_from-unique :
    (m : String) (considered refs : List String)
    → clean_from m considered refs ≡ leave_out considered (unique (leave_out (m ∷ []) refs))
unfolding clean_from
clean_from-unique m considered [] = refl
clean_from-unique m considered (r ∷ refs) =
    let rest = unique (leave_out (m ∷ []) refs) in
    ground (
      arith,
      clean_from-unique m (r ∷ considered) refs,
      clean_from-unique m considered refs,
      leave_out-cons r considered rest,
      leave_out-known r considered rest,
      string_eq.beq_iff r m,
      string_eq.beq_iff m r,
    )

-- The references in the order in which they first stand, each once and without the message's own id.
abbrev pub others : String → List String → List String
others m refs = unique (leave_out (m ∷ []) refs)

-- `cleanRefs` returns the references but for the message's own id, each once: in the order in which they
-- first stand, but if the first of these is the in-reply-to, and that is not empty, it stands behind all
-- the others. So the in-reply-to is not the first of several; but where it is the only reference, and not
-- the message's own id, it stays.
pub clean_refs_lem :
    (m irp : String) (refs : List String)
    → ((x : String) → contains (clean_refs m irp refs) x ≡ (contains refs x && not (eqb x m)))
      × IsOnce (clean_refs m irp refs)
      × (irp ≢ "" → ¬ StartsWith irp (clean_refs m irp refs))
      × ((rest : List String)
          → irp ≢ ""
          → others m refs ≡ irp ∷ rest
          → clean_refs m irp refs ≡ rest ++ irp ∷ [])
      × ((x : String) (rest : List String)
          → (irp ≡ "") ⊎ (x ≢ irp)
          → others m refs ≡ x ∷ rest
          → clean_refs m irp refs ≡ x ∷ rest)
      × (irp ≢ "" → m ≢ irp → clean_refs m irp (irp ∷ []) ≡ irp ∷ [])
unfolding clean_refs
clean_refs_lem m irp refs =
    let e : clean_from m [] refs ≡ others m refs =
      clean_from-unique m [] refs ∙ leave_out-nil (others m refs) in
    let e₁ : clean_from m [] (irp ∷ []) ≡ others m (irp ∷ []) =
      clean_from-unique m [] (irp ∷ []) ∙ leave_out-nil (others m (irp ∷ [])) in
    (
      λ x.
          contains-move_reply irp x (clean_from m [] refs)
          ∙ contains-clean_from m x [] refs
          ∙ ground arith,
      move_reply-IsOnce irp (clean_from m [] refs) (clean_from-IsOnce m [] refs),
      λ ne. not-StartsWith irp (clean_from m [] refs) ne (clean_from-IsOnce m [] refs),
      λ rest ne h.
          ap (move_reply irp) (e ∙ h)
          ∙ ground (arith, string_eq.beq_iff irp irp, string_eq.beq_iff irp ""),
      λ x rest other h.
          ap (move_reply irp) (e ∙ h)
          ∙ ground (arith, string_eq.beq_iff x irp, string_eq.beq_iff irp ""),
      λ ne own.
          ap (move_reply irp) e₁
          ∙ ground
              (arith, string_eq.beq_iff m irp, string_eq.beq_iff irp irp, string_eq.beq_iff irp ""),
    )
