-- ===== src/Screen/Tests.antt =====
-- A screen that shows its own addresses.
use my_linux_os.Common.{
  ℕ, ◌+◌, ◌%◌, ◌≡◌, ◌<◌, refl, [], false, ◌&&◌, ◌==◌, if◌then◌else◌, ltb, arith,
}
use my_linux_os.Common.Int.{pos, negsuc}
use my_linux_os.Screen.{Screen, update_cursor, putc, backspace, scroll}
use my_linux_os.Screen.Cells.{char_at, CursorAt}
use my_linux_os.Screen.Scroll.{in_cells, scroll_lem}
use my_linux_os.Screen.Put.{putc_prints, putc_next_row}

abbrev screen : ℕ → ℕ → Screen
screen y x = record {
  mem = λ a. a % 256;
  screen_x = pos x;
  screen_y = pos y;
  curr_active_terminal = pos 0;
  io = record { log = []; interrupts = false };
}

screen-CursorAt : (y x : ℕ) → y < 25 → x < 80 → CursorAt (screen y x) y x
screen-CursorAt y x hy hx = record { at_x = refl; at_y = refl; col = hx; row = hy }

-- From the first column the cursor goes to column -1.
backspace_test : (backspace (screen 3 0)).screen_x ≡ negsuc 0
unfolding backspace update_cursor
backspace_test = refl

putc_prints_example :
    CursorAt (putc 0x41 (screen 3 4)) 3 (4 + 1)
    × ((r k : ℕ)
        → r < 25
        → k < 80
        → char_at (putc 0x41 (screen 3 4)) r k
          ≡ (if r == 3 && k == 4 then 0x41 else char_at (screen 3 4) r k))
putc_prints_example =
    putc_prints 0x41 (screen 3 4) 3 4 (screen-CursorAt 3 4 (omega arith) (omega arith)) refl
      (omega arith)

putc_next_row_example :
    CursorAt (putc 0x41 (screen 24 79)) 24 0
    × ((putc 0x41 (screen 24 79)).mem ≡ (scroll (screen 24 79)).mem)
putc_next_row_example =
    putc_next_row 0x41 (screen 24 79) 24 79 (screen-CursorAt 24 79 (omega arith) (omega arith)) refl

scroll_example :
    ((r c : ℕ)
      → r < 25
      → c < 80
      → char_at (scroll (screen 3 4)) r c
        ≡ (if ltb r 24 then char_at (screen 3 4) (r + 1) c else 0x20))
    × (((a : ℕ) → in_cells 0 2000 a ≡ false → (scroll (screen 3 4)).mem a ≡ (screen 3 4).mem a)
        × CursorAt (scroll (screen 3 4)) 24 0)
scroll_example = scroll_lem (screen 3 4)
