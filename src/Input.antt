-- ===== src/Input.antt =====
-- `terminal_read` of student-distrib/terminal.c from its start: the wait for the enter key, in
-- which the keyboard interrupts, and the read of the line.
pub mod Interrupts
pub mod Typing
mod Tests
use my_linux_os.Common.{ℕ, List, [], ◌∷◌, Option, none, some, if◌then◌else◌, ◌>>=◌}
use my_linux_os.Common.Int.{ℤ, pos}
use my_linux_os.Io.{sti}
use my_linux_os.Terminal.{Console, Swapped, returns, starts_shell, read_line}
use my_linux_os.Keys.{keyboard_interrupt}

-- The loop `while(enter_flag == 0);`: in each of its turns the keyboard may interrupt with a scancode.
-- `none` is a wait that has not ended when the list has; a terminal switch that starts a shell takes
-- the processor away.
unfoldable pub wait_enter : List (Option ℕ) → Console → Option Swapped
wait_enter [] c = if c.keys.enter_flag then some (returns (pos 0) c) else none
wait_enter (none ∷ turns) c =
    let rest = wait_enter turns c in if c.keys.enter_flag then some (returns (pos 0) c) else rest
wait_enter (some key ∷ turns) c =
    let rest = keyboard_interrupt key c >>= λ swapped. elim swapped [
      | starts_shell c' ↦ some (starts_shell c')
      | returns ret c' ↦ wait_enter turns c'
    ] in
    if c.keys.enter_flag then some (returns (pos 0) c) else rest

-- How a read of the terminal ends: with a result and the bytes stored from `buf` on, or in the start of
-- a shell on another terminal.
pub data TerminalRead : Type 0 where
  line : ℤ → List ℕ → Console → TerminalRead
  suspended : Console → TerminalRead

-- `terminal_read`
unfoldable pub terminal_read : List (Option ℕ) → ℤ → Console → Option TerminalRead
unfolding wait_enter
terminal_read turns nbytes c =
    wait_enter turns (record c { screen = record (c.screen) { io = sti c.screen.io } })
    >>= λ swapped. elim swapped [
      | starts_shell c' ↦ some (suspended c')
      | returns ret c' ↦
          read_line nbytes c'.keys >>= λ r. some (line r.0 r.1 (record c' { keys = r.2 }))
    ]
