-- ===== src/Boot.antt =====
-- `init_terminal`, `terminal_open` and `terminal_close` of student-distrib/terminal.c.
pub mod Terminals
mod Tests
use my_linux_os.Common.{
  ℕ, zero, suc, ◌+◌, ◌*◌, ◌/◌, List, [], ◌∷◌, Option, none, some, ◌==◌, if◌then◌else◌, ◌>>=◌,
  get_elem?, set,
}
use my_linux_os.Common.Int.{ℤ, pos, minus_one}
use my_linux_os.Paging.{addr_video, bytes_to_align_to}
use my_linux_os.Screen.{Screen, clear, update_cursor}
use my_linux_os.Terminal.{Term, Console, max_terminals}
use my_linux_os.Kernel.{Kernel}
use my_linux_os.Process.{Frame, Executed, shell_text, syscall_execute}

-- One round of the loop of `init_terminal`, for the fields that the model has.
abbrev pub init_term : ℕ → Term → Term
init_term i t = record t {
  process_active = if i == 0 then pos 0 else minus_one;
  cursor_x = pos 0;
  cursor_y = pos 0;
  video_mem = 4096 * (addr_video / bytes_to_align_to + i + 1);
}

-- The loop, `n` rounds from `i` on; `none` is a terminal outside of the array.
unfoldable pub init_terms : ℕ → ℕ → List Term → Option (List Term)
init_terms zero i terms = some terms
init_terms (suc n) i terms =
    get_elem? terms i >>= λ t. init_terms n (i + 1) (set terms i (init_term i t))

-- `init_terminal` in front of its last call: the terminals, and a clear screen.
unfoldable pub set_terminals : Console → Option Console
unfolding init_terms
set_terminals c = init_terms max_terminals 0 c.term_blk >>= λ terms.
    some (record c { term_blk = terms; screen = clear c.screen })

-- `init_terminal`: it ends as the call of `syscall_execute("shell")` does.
unfoldable pub init_terminal : Frame → Kernel → Option Executed
unfolding set_terminals
init_terminal f k =
    set_terminals k.console >>= λ c. syscall_execute f shell_text (record k { console = c })

-- `terminal_open` and `terminal_close`
abbrev pub terminal_open : Screen → ℤ × Screen
terminal_open s = (pos 0, update_cursor s)

abbrev pub terminal_close : ℤ
terminal_close = pos 0
