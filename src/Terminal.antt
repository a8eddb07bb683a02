-- ===== src/Terminal.antt =====
-- student-distrib/keyboard.c and student-distrib/terminal.c: the keyboard's line buffer, the three
-- terminals with their saved screens, and what reads and writes of a terminal do.
pub mod Swap
pub mod Line
mod Tests
use my_linux_os.Common.{
  ℕ, zero, suc, ◌+◌, ◌-◌, ◌*◌, ◌/◌, List, [], ◌∷◌, ◌++◌, Option, none, some, Bool, true, false,
  ◌&&◌, ◌||◌, not, ◌==◌, ltb, leb, if◌then◌else◌, ◌>>=◌, get_elem?, set, length, replicate, Mem,
}
use my_linux_os.Common.Int.{
  ℤ, pos, negsuc, pos_part, minus_one, ◌+ℤ◌, ◌-ℤ◌, ltb_ℤ, eqb_ℤ, signed8, unsigned32,
}
use my_linux_os.Io.{cli, sti, inb}
use my_linux_os.Pic.{send_eoi}
use my_linux_os.Screen.{Screen, putc, backspace, clear, update_cursor}

abbrev pub extended_buffer : ℕ
extended_buffer = 256

abbrev pub max_terminals : ℕ
max_terminals = 3

-- The globals of keyboard.c.
pub record Keyboard : Type 0 where
  pub key_buffer : List ℕ
  pub buffer_index : ℤ
  pub shift_flag : Bool
  pub ctrl_flag : Bool
  pub capslock_flag : Bool
  pub enter_flag : Bool
  pub alt_flag : Bool

-- `terminal_t`, without the fields that nothing reads.
pub record Term : Type 0 where
  pub process_active : ℤ
  pub cursor_x : ℤ
  pub cursor_y : ℤ
  pub video_mem : ℕ

-- The screen, the keyboard and `term_blk`.
pub record Console : Type 0 where
  pub screen : Screen
  pub keys : Keyboard
  pub term_blk : List Term

-- `clear_keyboard_buffer`
unfoldable pub clear_keyboard_buffer : Keyboard → Keyboard
clear_keyboard_buffer k = record k { key_buffer = replicate extended_buffer 0 }

-- `memcpy` between regions that do not overlap.
unfoldable pub memcpy : ℕ → ℕ → ℕ → Mem → Mem
memcpy dest src n m a = if leb dest a && ltb a (dest + n) then m (src + (a - dest)) else m a

-- `save_visible_terminal`: an index outside `term_blk` is `none`.
unfoldable pub save_visible_terminal : ℤ → Console → Option Console
save_visible_terminal (negsuc n) c = none
save_visible_terminal (pos old) c = get_elem? c.term_blk old >>= λ t. some (record {
  screen = record (c.screen) { mem = memcpy t.video_mem 0xb8000 4096 c.screen.mem };
  keys = clear_keyboard_buffer c.keys;
  term_blk =
      set c.term_blk old (record t { cursor_x = c.screen.screen_x; cursor_y = c.screen.screen_y });
})

-- `restore_new_terminal`
unfoldable pub restore_new_terminal : ℤ → Console → Option Console
restore_new_terminal (negsuc n) c = none
restore_new_terminal (pos new) c = get_elem? c.term_blk new >>= λ t.
    let s = update_cursor (record (c.screen) { screen_x = t.cursor_x; screen_y = t.cursor_y }) in
    some (record c { screen = record s { mem = memcpy 0xb8000 t.video_mem 4096 s.mem } })

-- How `terminal_swap` ends: it returns, or it calls `syscall_execute("shell")` in a terminal that had
-- none yet; the code behind that call runs when the shell has ended.
pub data Swapped : Type 0 where
  returns : ℤ → Console → Swapped
  starts_shell : Console → Swapped

-- `cli` and `sti`
abbrev pub interrupts_off : Console → Console
interrupts_off c = record c { screen = record (c.screen) { io = cli c.screen.io } }

abbrev pub interrupts_on : Console → Console
interrupts_on c = record c { screen = record (c.screen) { io = sti c.screen.io } }

-- The two copies of `terminal_swap`, and the new active terminal.
unfoldable pub exchange : ℕ → Console → Option Console
unfolding save_visible_terminal restore_new_terminal
exchange new c = save_visible_terminal c.screen.curr_active_terminal c >>= λ saved.
    restore_new_terminal (pos new) saved >>= λ shown.
    some (record shown { screen = record (shown.screen) { curr_active_terminal = pos new } })

-- `terminal_swap`
unfoldable pub terminal_swap : ℤ → Console → Option Swapped
terminal_swap (negsuc n) c = some (returns minus_one (interrupts_off c))
terminal_swap (pos new) c =
    let off = interrupts_off c in
    if leb max_terminals new
    then some (returns minus_one off)
    else if eqb_ℤ (pos new) c.screen.curr_active_terminal
    then some (returns (pos 0) off)
    else (get_elem? c.term_blk new >>= λ t. exchange new off >>= λ done.
        if eqb_ℤ t.process_active minus_one
        then some (starts_shell done)
        else some (returns (pos 0) (interrupts_on done)))

-- The loop of `terminal_write`, `n` rounds.
unfoldable pub write_chars : ℕ → List ℕ → Screen → Option Screen
write_chars zero buf s = some s
write_chars (suc n) [] s = none
write_chars (suc n) (c ∷ buf) s = write_chars n buf (if c == 0 then s else putc c s)

-- `terminal_write`
unfoldable pub terminal_write : Option (List ℕ) → ℤ → Screen → Option (ℤ × Screen)
unfolding write_chars
terminal_write none nbytes s = some (minus_one, s)
terminal_write (some buf) nbytes s = write_chars (pos_part nbytes) buf s >>= λ s'. some (pos 0, s')

-- The loop of `terminal_read` over the key buffer, `n` rounds: the bytes stored to `buf`.
unfoldable pub copy_line : ℕ → List ℕ → Option (List ℕ)
copy_line zero keys = some []
copy_line (suc n) [] = none
copy_line (suc n) (c ∷ keys) =
    let rest = copy_line n keys in if c == 0x0a then some [] else (rest >>= λ out. some (c ∷ out))

-- `nbytes` as the bound of that loop, where the comparison is one of unsigned numbers.
abbrev pub read_bound : ℤ → ℕ
read_bound nbytes = if ltb_ℤ (pos 128) nbytes then 128 else unsigned32 nbytes

-- `terminal_read` from the moment at which its wait for `enter_flag` has ended: the result, the bytes
-- stored from `buf` on and the keyboard.
unfoldable pub read_line : ℤ → Keyboard → Option (ℤ × List ℕ × Keyboard)
unfolding copy_line
read_line nbytes k = copy_line (read_bound nbytes) k.key_buffer >>= λ out. some (
  pos (length out + 1),
  out ++ 0x0a ∷ [],
  clear_keyboard_buffer (record k { enter_flag = false; buffer_index = minus_one }),
)
