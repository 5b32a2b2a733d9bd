-- ===== src/Commands/History.antt =====
-- commands/history.go: the commands of before, and the place of the user among them. The model starts
-- where `initialize` has read the lines of the history file; writing the file back changes nothing of
-- the state and is left out, and so is `Last`.
pub mod Moves
mod Tests
use aerc.Prelude.{
  ℕ, ◌+◌, ◌-◌, Bool, true, ◌||◌, not, Option, none, some, List, [], ◌∷◌, ◌++◌, String, leb, ◌==◌,
  if◌then◌else◌, length, drop, last?, eqb, string_eq, Outcome, done, panic, index, ◌>>=◌,
}
use aerc.Prelude.Int.{ℤ, pos, negsuc, sub_ℕ, ◌+ℤ◌, ◌-ℤ◌, ltb_ℤ}

pub record CmdHistory : Type 0 where
  pub cmd_list : List String
  pub current : ℤ

abbrev pub cmd_limit : ℕ
cmd_limit = 1000

unfoldable pub reset : CmdHistory → CmdHistory
reset h = record h { current = pos (length h.cmd_list) }

-- From the lines of the history file.
unfoldable pub initialize : List String → CmdHistory
unfolding reset
initialize lines = reset (record { cmd_list = lines; current = pos 0 })

-- len(h.cmdList) == 0 || h.cmdList[len(h.cmdList)-1] != cmd
abbrev pub is_other : String → List String → Bool
is_other cmd cmds = elim (last? cmds) [ none ↦ true | some c ↦ not (eqb c cmd) ]

unfoldable pub add : String → CmdHistory → CmdHistory
unfolding reset
add cmd h =
    let cmds = if leb cmd_limit (length h.cmd_list) then drop 1 h.cmd_list else h.cmd_list in
    reset (record h { cmd_list = if is_other cmd cmds then cmds ++ cmd ∷ [] else cmds })

abbrev pub at_int : List String → ℤ → Outcome String
at_int cmds (pos i) = index cmds i
at_int cmds (negsuc i) = panic

unfoldable pub prev : CmdHistory → Outcome (String × CmdHistory)
unfolding ◌-ℤ◌
prev h =
    if ltb_ℤ h.current (pos 1) || length h.cmd_list == 0
    then done ("(Already at beginning)", record h { current = negsuc 0 })
    else do
      let i = h.current -ℤ pos 1
      cmd ← at_int h.cmd_list i
      done (cmd, record h { current = i })

unfoldable pub next : CmdHistory → Outcome (String × CmdHistory)
unfolding ◌+ℤ◌
next h =
    if not (ltb_ℤ h.current (sub_ℕ (length h.cmd_list) 1)) || length h.cmd_list == 0
    then done ("(Already at end)", record h { current = pos (length h.cmd_list) })
    else do
      let i = h.current +ℤ pos 1
      cmd ← at_int h.cmd_list i
      done (cmd, record h { current = i })
