-- ===== src/Commands/History/Moves.antt =====
-- commands/history.go: that the place stays in the list, and what `Prev` and `Next` return.
use aerc.Prelude.{
  ℕ, zero, suc, ◌≤◌, ◌<◌, ◌≡◌, refl, ap, sym, ◌∙◌, true, false, not, ◌||◌, some, List, [], ◌∷◌,
  ◌++◌, String, leb, ◌==◌, if◌then◌else◌, length, length-append, length-drop, get_elem?,
  get_elem?-within, drop, last?, last?-snoc, string_eq, Outcome, done, ◌>>=◌, arith, Bool-cases,
  Option-cases, lt_of_get_elem?, inl, inr, if_both, if_cases,
}
use aerc.Prelude.Int.{ℤ, pos, negsuc, sub_ℕ, ◌+ℤ◌, ◌-ℤ◌, ◌≤ℤ◌, ltb_ℤ}
use aerc.Commands.History.{CmdHistory, cmd_limit, add, reset, prev, next, at_int, is_other}

-- The place is from -1 to the number of commands.
abbrev pub IsPlaced : CmdHistory → Type 0
IsPlaced h = (negsuc 0 ≤ℤ h.current) × (h.current ≤ℤ pos (length h.cmd_list))

last-pushed :
    (cmd : String) (cmds : List String)
    → last? (if is_other cmd cmds then cmds ++ cmd ∷ [] else cmds) ≡ some cmd
last-pushed cmd cmds = elim (Option-cases (last? cmds)) [
  | inl e ↦ ground (arith, last?-snoc cmds cmd)
  | inr (c, e) ↦ ground (arith, last?-snoc cmds cmd, string_eq.beq_iff c cmd)
]

length-pushed :
    (cmd : String) (cmds : List String)
    → length (if is_other cmd cmds then cmds ++ cmd ∷ [] else cmds) ≤ suc (length cmds)
length-pushed cmd cmds =
    if_both (λ (l : List String). length l ≤ suc (length cmds)) (is_other cmd cmds) _ _
      (omega (arith, length-append cmds (cmd ∷ []))) (omega arith)

length-trimmed :
    (cmds : List String)
    → length cmds ≤ cmd_limit
    → length (if leb cmd_limit (length cmds) then drop 1 cmds else cmds) < cmd_limit
length-trimmed cmds h =
    if_cases (λ (l : List String). length l < cmd_limit) (leb cmd_limit (length cmds)) _ _
      (λ full. omega (arith, length-drop 1 cmds)) (λ free. ground arith)

-- After `Add` the command is the last of the history, whether or not it was before, and the place is
-- behind it; the history stays within its limit, if it was.
pub add_lem :
    (cmd : String) (h : CmdHistory)
    → IsPlaced (add cmd h)
      × (last? (add cmd h).cmd_list ≡ some cmd)
      × ((add cmd h).current ≡ pos (length (add cmd h).cmd_list))
      × (length h.cmd_list ≤ cmd_limit → length (add cmd h).cmd_list ≤ cmd_limit)
unfolding add reset
add_lem cmd h =
    let cmds = if leb cmd_limit (length h.cmd_list) then drop 1 h.cmd_list else h.cmd_list in
    (
      (omega arith, omega arith),
      last-pushed cmd cmds,
      refl,
      λ fits. omega (arith, length-pushed cmd cmds, length-trimmed h.cmd_list fits),
    )

-- The last lines of `Prev` and `Next`.
abbrev arrive : List String → ℤ → Outcome (String × CmdHistory)
arrive cmds i = do cmd ← at_int cmds i; done (cmd, record { cmd_list = cmds; current = i })

prev_within :
    (cmds : List String) (k : ℕ) (c : String)
    → get_elem? cmds k ≡ some c
    → prev (record { cmd_list = cmds; current = pos (suc k) })
      ≡ done (c, record { cmd_list = cmds; current = pos k })
unfolding prev ◌-ℤ◌
prev_within cmds k c e =
    let i : pos (suc k) -ℤ pos 1 ≡ pos k = ground arith in
    let first : ltb_ℤ (pos (suc k)) (pos 1) ≡ false = ground arith in
    ground (arith, first, lt_of_get_elem? cmds k c e, ap (λ (x : ℤ). arrive cmds x) i)

next_within :
    (cmds : List String) (k : ℕ) (z : ℤ) (c : String)
    → z +ℤ pos 1 ≡ pos k
    → get_elem? cmds k ≡ some c
    → next (record { cmd_list = cmds; current = z })
      ≡ done (c, record { cmd_list = cmds; current = pos k })
unfolding next ◌+ℤ◌
next_within cmds k z c i e =
    let inside : ltb_ℤ z (sub_ℕ (length cmds) 1) ≡ true =
      ground (arith, lt_of_get_elem? cmds k c e) in
    ground (arith, inside, lt_of_get_elem? cmds k c e, ap (λ (x : ℤ). arrive cmds x) i)

prev_first :
    (cmds : List String) (z : ℤ)
    → z ≤ℤ pos 0
    → prev (record { cmd_list = cmds; current = z })
      ≡ done ("(Already at beginning)", record { cmd_list = cmds; current = negsuc 0 })
unfolding prev
prev_first cmds z h = let first : ltb_ℤ z (pos 1) ≡ true = ground arith in ground (arith, first)

next_last :
    (cmds : List String) (z : ℤ)
    → (not (ltb_ℤ z (sub_ℕ (length cmds) 1)) || length cmds == 0) ≡ true
    → next (record { cmd_list = cmds; current = z })
      ≡ done ("(Already at end)", record { cmd_list = cmds; current = pos (length cmds) })
unfolding next
next_last cmds z h = ground (arith, h)

prev-IsPlaced :
    (cmds : List String) (z : ℤ)
    → IsPlaced (record { cmd_list = cmds; current = z })
    → (c : String) × (h' : CmdHistory) × (prev (record { cmd_list = cmds; current = z })
        ≡ done (c, h'))
      × IsPlaced h'
prev-IsPlaced cmds (negsuc a) p =
    (_, _, prev_first cmds (negsuc a) (omega arith), (omega arith, omega arith))
prev-IsPlaced cmds (pos zero) p =
    (_, _, prev_first cmds (pos 0) (omega arith), (omega arith, omega arith))
prev-IsPlaced cmds (pos (suc k)) p =
    let (c, e) = get_elem?-within cmds k (omega (arith, p.1)) in
    (_, _, prev_within cmds k c e, (omega arith, omega (arith, p.1)))

next-IsPlaced :
    (cmds : List String) (z : ℤ)
    → IsPlaced (record { cmd_list = cmds; current = z })
    → (c : String) × (h' : CmdHistory) × (next (record { cmd_list = cmds; current = z })
        ≡ done (c, h'))
      × IsPlaced h'
unfolding ◌+ℤ◌
next-IsPlaced cmds z p =
    elim (Bool-cases (not (ltb_ℤ z (sub_ℕ (length cmds) 1)) || length cmds == 0)) [
      | inl last ↦ (_, _, next_last cmds z last, (omega arith, omega arith))
      | inr more ↦
          let (k, i, l) = step z p.0 more in
          let (c, e) = get_elem?-within cmds k l in
          (_, _, next_within cmds k z c i e, (omega arith, omega (arith, l)))
    ]
  where
    step :
        (z : ℤ)
        → negsuc 0 ≤ℤ z
        → (not (ltb_ℤ z (sub_ℕ (length cmds) 1)) || length cmds == 0) ≡ false
        → (k : ℕ) × (z +ℤ pos 1 ≡ pos k) × (k < length cmds)
    step (pos a) h m = (suc a, ground arith, ground arith)
    step (negsuc zero) h m = (0, ground arith, ground arith)
    step (negsuc (suc a)) h m = absurd (omega arith)

next_place : (k : ℕ) → pos k +ℤ pos 1 ≡ pos (suc k)
unfolding ◌+ℤ◌
next_place k = ground arith

-- With the place in the list, `Prev` and `Next` return without a panic and keep it there; and where
-- `Prev` comes to a command that is not the last, `Next` returns to the place before, and gives the
-- command there.
pub prev-next :
    (h : CmdHistory)
    → IsPlaced h
    → ((c : String) × (h' : CmdHistory) × (prev h ≡ done (c, h')) × IsPlaced h')
      × ((c : String) × (h' : CmdHistory) × (next h ≡ done (c, h')) × IsPlaced h')
      × ((k : ℕ) (c : String)
          → h.current ≡ pos (suc k)
          → get_elem? h.cmd_list (suc k) ≡ some c
          → (c' : String) × (h' : CmdHistory) × (prev h ≡ done (c', h'))
            × (get_elem? h.cmd_list k ≡ some c')
            × (next h' ≡ done (c, h)))
prev-next h p = (
  prev-IsPlaced h.cmd_list h.current p,
  next-IsPlaced h.cmd_list h.current p,
  λ k c e g.
      let (c', e') =
        get_elem?-within h.cmd_list k (omega (arith, lt_of_get_elem? h.cmd_list (suc k) c g)) in
      (
        c',
        record { cmd_list = h.cmd_list; current = pos k },
        ap (λ z. prev (record { cmd_list = h.cmd_list; current = z })) e
            ∙ prev_within h.cmd_list k c' e',
        e',
        next_within h.cmd_list (suc k) (pos k) c (next_place k) g
            ∙ ap (λ z. done (c, record { cmd_list = h.cmd_list; current = z })) (sym e),
      ),
)
