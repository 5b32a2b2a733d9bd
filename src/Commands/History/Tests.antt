-- ===== src/Commands/History/Tests.antt =====
-- commands/history.go on a few commands, and the theorems at them.
use aerc.Prelude.{◌≡◌, refl, [], ◌∷◌, done}
use aerc.Prelude.Int.{pos, ◌-ℤ◌}
use aerc.Commands.History.{CmdHistory, initialize, prev, reset}

abbrev two : CmdHistory
two = record { cmd_list = "archive flat" ∷ "next" ∷ []; current = pos 2 }

read_back : initialize ("archive flat" ∷ "next" ∷ []) ≡ two
unfolding initialize reset
read_back = refl

back : prev two ≡ done ("next", record two { current = pos 1 })
unfolding prev ◌-ℤ◌
back = refl

abbrev earlier : CmdHistory
earlier = record two { current = pos 1 }
