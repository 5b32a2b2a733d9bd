-- ===== src/Ui/Stack.antt =====
-- lib/ui/stack.go: widgets on top of one another. To pop or to peek panics on the empty stack. Drawing
-- and mouse events, which go to the widget on top, are left out.
use aerc.Prelude.{
  ◌≡◌, none, some, List, [], ◌∷◌, ◌++◌, last?, last?-snoc, init, init-snoc, Outcome, done, panic,
  arith,
}
use aerc.Ui.Tabs.{Drawable}

pub record Stack : Type 0 where
  pub children : List Drawable

unfoldable pub push : Drawable → Stack → Stack
push d stack = record { children = stack.children ++ d ∷ [] }

unfoldable pub pop : Stack → Outcome (Drawable × Stack)
pop stack = elim (last? stack.children) [
  | none ↦ panic
  | some d ↦ done (d, record { children = init stack.children })
]

unfoldable pub peek : Stack → Outcome Drawable
peek stack = elim (last? stack.children) [ none ↦ panic | some d ↦ done d ]

-- What was pushed is what `Peek` shows and what `Pop` returns, and `Pop` leaves the stack before.
pub pop-push :
    (d : Drawable) (stack : Stack)
    → (peek (push d stack) ≡ done d) × (pop (push d stack) ≡ done (d, stack))
unfolding push pop peek
pop-push d stack = (
  ground (arith, last?-snoc stack.children d),
  ground (arith, last?-snoc stack.children d, init-snoc stack.children d),
)
