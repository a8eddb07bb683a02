-- ===== src/Terminal/Tests.antt =====
-- Three terminals with a shell each, and a line in the key buffer.
use my_linux_os.Common.{
  ℕ, ◌+◌, ◌-◌, ◌%◌, ◌≡◌, refl, [], ◌∷◌, ◌++◌, take, replicate, min, some, true, false, arith,
}
use my_linux_os.Common.Int.{pos, minus_one}
use my_linux_os.Screen.{Screen, puts}
use my_linux_os.Terminal.{
  Console, Term, Keyboard, returns, terminal_swap, read_line, terminal_write, interrupts_off,
}
use my_linux_os.Terminal.Swap.{Runs, in_page, backup, terminal_swap_back}
use my_linux_os.Terminal.Line.{read_line_lem, puts-terminal_write}

abbrev term : ℕ → Term
term i = record { process_active = pos 0; cursor_x = pos i; cursor_y = pos 7; video_mem = backup i }

abbrev keys : Keyboard
keys = record {
  key_buffer = (0x6c ∷ 0x73 ∷ []) ++ 0x0a ∷ replicate 253 0;
  buffer_index = pos 2;
  shift_flag = false;
  ctrl_flag = false;
  capslock_flag = false;
  enter_flag = true;
  alt_flag = false;
}

abbrev screen : Screen
screen = record {
  mem = λ a. a % 256;
  screen_x = pos 4;
  screen_y = pos 5;
  curr_active_terminal = pos 0;
  io = record { log = []; interrupts = true };
}

abbrev console : Console
console = record { screen = screen; keys = keys; term_blk = term 0 ∷ term 1 ∷ term 2 ∷ [] }

terminal_swap_test :
    terminal_swap (pos 3) console ≡ some (returns minus_one (interrupts_off console))
unfolding terminal_swap
terminal_swap_test = refl

console-Runs_0 : Runs console 0 (term 0)
console-Runs_0 = record { at = refl; index = omega arith; shell = refl; place = refl }

console-Runs_2 : Runs console 2 (term 2)
console-Runs_2 = record { at = refl; index = omega arith; shell = refl; place = refl }

terminal_swap_back_example :
    (c1 c2 : Console) × (terminal_swap (pos 2) console ≡ some (returns (pos 0) c1))
    × ((x : ℕ)
        → in_page 0xb8000 x ≡ true
        → c1.screen.mem x ≡ console.screen.mem (backup 2 + (x - 0xb8000)))
    × (c1.screen.screen_x ≡ pos 2)
    × (c1.screen.screen_y ≡ pos 7)
    × (terminal_swap (pos 0) c1 ≡ some (returns (pos 0) c2))
    × (c2.screen.curr_active_terminal ≡ pos 0)
    × ((x : ℕ) → in_page (backup 0) x ≡ false → c2.screen.mem x ≡ console.screen.mem x)
    × (c2.screen.screen_x ≡ pos 4)
    × (c2.screen.screen_y ≡ pos 5)
terminal_swap_back_example =
    terminal_swap_back 0 2 (term 0) (term 2) console refl (omega arith) console-Runs_0
      console-Runs_2 refl

read_line_example :
    read_line (pos 10) keys
    ≡ some (
      pos (min (min 10 128) 2 + 1),
      take (min 10 128) (0x6c ∷ 0x73 ∷ []) ++ 0x0a ∷ [],
      record keys { key_buffer = replicate 256 0; buffer_index = minus_one; enter_flag = false },
    )
read_line_example =
    read_line_lem 10 (0x6c ∷ 0x73 ∷ []) (replicate 253 0) keys (omega arith)
      (omega arith, (omega arith, tt)) refl

puts-terminal_write_example :
    (s' : Screen) × (puts ((0x6c ∷ 0x73 ∷ []) ++ 0 ∷ []) screen ≡ some (2, s'))
    × (terminal_write (some ((0x6c ∷ 0x73 ∷ []) ++ 9 ∷ [])) (pos 2) screen ≡ some (pos 0, s'))
puts-terminal_write_example =
    puts-terminal_write (0x6c ∷ 0x73 ∷ []) [] (9 ∷ []) screen (omega arith, (omega arith, tt))
