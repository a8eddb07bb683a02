-- ===== src/Keys/Tests.antt =====
-- Keys on an empty line.
use my_linux_os.Common.{◌≡◌, refl, [], replicate, set, some, true, false, arith}
use my_linux_os.Common.Int.{pos, negsuc}
use my_linux_os.Screen.{putc}
use my_linux_os.Terminal.{Console, returns}
use my_linux_os.Keys.{print_to_screen, dispatch_key, keyboard_interrupt}
use my_linux_os.Keys.Bounds.{ReturnsAtMost, keyboard_interrupt-ReturnsAtMost}
use my_linux_os.Keys.Letters.{print_to_screen-letter}

abbrev console : Console
console = record {
  screen = record {
    mem = λ a. 0;
    screen_x = pos 0;
    screen_y = pos 0;
    curr_active_terminal = pos 0;
    io = record { log = []; interrupts = true };
  };
  keys = record {
    key_buffer = replicate 256 0;
    buffer_index = negsuc 0;
    shift_flag = true;
    ctrl_flag = false;
    capslock_flag = false;
    enter_flag = false;
    alt_flag = false;
  };
  term_blk = [];
}

-- Backspace on an empty line does nothing.
dispatch_key_test : dispatch_key 0x0e console ≡ some (returns (pos 0) console)
unfolding dispatch_key
dispatch_key_test = refl

print_to_screen-letter_example :
    print_to_screen 0x30 console
    ≡ some (record console {
      keys = record (console.keys) {
        key_buffer = set (replicate 256 0) 0 0x42;
        buffer_index = pos 0;
      };
      screen = putc 0x42 console.screen;
    })
print_to_screen-letter_example =
    print_to_screen-letter 0x30 0x62 0 console refl (omega arith) refl (omega arith)

keyboard_interrupt-ReturnsAtMost_example : ReturnsAtMost 3 (keyboard_interrupt 0x0f console)
keyboard_interrupt-ReturnsAtMost_example =
    keyboard_interrupt-ReturnsAtMost 0x0f 0 console refl (record { count = refl; size = refl })
      (omega arith)
