-- ===== src/Input/Tests.antt =====
-- "ab" and enter, typed during a read.
use my_linux_os.Common.{◌≡◌, refl, [], ◌∷◌, replicate, none, some, true, false, arith}
use my_linux_os.Common.Int.{pos, negsuc, minus_one}
use my_linux_os.Terminal.{Console}
use my_linux_os.Input.{line, terminal_read}
use my_linux_os.Input.Typing.{Quiet, enter, pause, press, terminal_read-Typed}

abbrev console : Console
console = record {
  screen = record {
    mem = λ a. 0;
    screen_x = pos 0;
    screen_y = pos 0;
    curr_active_terminal = pos 0;
    io = record { log = []; interrupts = false };
  };
  keys = record {
    key_buffer = replicate 256 0;
    buffer_index = negsuc 0;
    shift_flag = false;
    ctrl_flag = false;
    capslock_flag = true;
    enter_flag = false;
    alt_flag = false;
  };
  term_blk = [];
}

console-Quiet : Quiet console.keys
console-Quiet = record { waiting = refl; ctrl = refl; alt = refl; start = refl; size = refl }

terminal_read-Typed_example :
    (c' : Console) × (terminal_read
        (some 0x1e ∷ none ∷ some 0x30 ∷ some 0x1c ∷ [])
        (pos 100)
        console
      ≡ some (line (pos 3) (0x41 ∷ 0x42 ∷ 0x0a ∷ []) c'))
    × (c'.keys.key_buffer ≡ replicate 256 0)
    × (c'.keys.buffer_index ≡ minus_one)
    × (c'.keys.enter_flag ≡ false)
terminal_read-Typed_example =
    terminal_read-Typed 100 (0 ∷ 1 ∷ []) (0x1e ∷ 0x30 ∷ [])
      (some 0x1e ∷ none ∷ some 0x30 ∷ some 0x1c ∷ []) console (omega arith)
      (press 0x1e (0x30 ∷ []) (none ∷ some 0x30 ∷ some 0x1c ∷ []) (
        pause (0x30 ∷ []) (some 0x30 ∷ some 0x1c ∷ []) (press 0x30 [] (some 0x1c ∷ []) (enter []))))
      (omega arith, refl, (omega arith, refl, tt)) console-Quiet (omega arith)
