-- ===== src/Boot/Terminals.antt =====
-- The terminals after student-distrib/terminal.c has set them up.
use my_linux_os.Common.{ℕ, ◌≡◌, [], ◌∷◌, some}
use my_linux_os.Common.Int.{ℤ, pos}
use my_linux_os.Terminal.{Term, Console, Keyboard, starts_shell, terminal_swap}
use my_linux_os.Screen.{Screen}
use my_linux_os.Boot.{init_term}

-- Where a switch to another terminal leads first.
abbrev FirstSwitch : Console → ℕ → Type 0
FirstSwitch c i =
    (c1 : Console) × (terminal_swap (pos i) c ≡ some (starts_shell c1))
    × (c1.screen.curr_active_terminal ≡ pos i)

-- A console with the terminals that the loop leaves, and terminal `active` on the screen.
abbrev fresh : Screen → Keyboard → (t0 t1 t2 : Term) → ℤ → Console
fresh s keys t0 t1 t2 active = record {
  screen = record s { curr_active_terminal = active };
  keys = keys;
  term_blk = init_term 0 t0 ∷ init_term 1 t1 ∷ init_term 2 t2 ∷ [];
}
