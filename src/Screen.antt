-- ===== src/Screen.antt =====
-- The text screen of student-distrib/lib.c: `clear`, `putc`, `puts`, `backspace`, `scroll` and the
-- cursor. The memory is all of physical memory, so a store outside the video page is one too.
pub mod Cells
pub mod Scroll
pub mod Put
pub mod Back
pub mod Apart
mod Tests
use my_linux_os.Common.{
  ℕ, zero, suc, ◌+◌, ◌-◌, ◌*◌, ◌/◌, ◌%◌, ◌^◌, bit_and, bit_or, List, [], ◌∷◌, Option, none, some,
  Bool, true, false, ◌||◌, ◌==◌, ltb, leb, if◌then◌else◌, ◌>>=◌, Mem, store,
}
use my_linux_os.Common.Int.{ℤ, pos, negsuc, ◌+ℤ◌, ◌-ℤ◌, scale, rem, quot, ltb_ℤ, eqb_ℤ, unsigned32}
use my_linux_os.Io.{Io, outb, inb}

abbrev pub video : ℕ
video = 0xb8000

abbrev pub num_cols : ℕ
num_cols = 80

abbrev pub num_rows : ℕ
num_rows = 25

-- The statics `screen_x` and `screen_y`, the global `curr_active_terminal`, memory and the ports.
pub record Screen : Type 0 where
  pub mem : Mem
  pub screen_x : ℤ
  pub screen_y : ℤ
  pub curr_active_terminal : ℤ
  pub io : Io

-- `video_mem + (i << 1)`
unfoldable pub cell : ℤ → ℕ
cell (pos n) = (video + 2 * n) % 2 ^ 32
cell (negsuc n) = (video + 2 ^ 32 - (2 * n + 2) % 2 ^ 32) % 2 ^ 32

-- The colour of a terminal: ATTRIB, TERM2_COLOR or TERM3_COLOR.
unfoldable pub color : ℤ → Option ℕ
color (negsuc n) = none
color (pos n) =
    if n == 0 then some 0x2 else if n == 1 then some 0x4 else if n == 2 then some 0x5 else none

-- A character and the terminal's colour at the cell with address `a`.
unfoldable pub draw : ℤ → ℕ → ℕ → Mem → Mem
draw terminal c a m = elim (color terminal) [
  | none ↦ store m a c
  | some attrib ↦ store (store m a c) (a + 1) attrib
]

-- `update_cursor`; `pos` is an `uint16_t`.
unfoldable pub update_cursor : Screen → Screen
update_cursor s =
    let place : ℕ = unsigned32 (scale num_cols s.screen_y +ℤ s.screen_x) % 65536 in
    record s {
      io =
          outb (place / 256) 0x3d5
            (outb 0x0e 0x3d4 (outb (place % 256) 0x3d5 (outb 0x0f 0x3d4 s.io)));
    }

-- The loop of `clear`, `n` rounds from `i` on.
unfoldable pub clear_cells : ℕ → ℕ → ℤ → Mem → Mem
clear_cells zero i terminal m = m
clear_cells (suc n) i terminal m =
    clear_cells n (i + 1) terminal (draw terminal 0x20 (cell (pos i)) m)

-- `clear`
unfoldable pub clear : Screen → Screen
clear s = update_cursor (record s {
  mem = clear_cells (num_rows * num_cols) 0 s.curr_active_terminal s.mem;
  screen_x = pos 0;
  screen_y = pos 0;
})

-- `enable_cursor`; the two answers are what port 0x3d5 gives.
unfoldable pub enable_cursor : ℕ → ℕ → ℕ → ℕ → Screen → Screen
enable_cursor answer1 answer2 cursor_start cursor_end s =
    let io1 =
      outb (bit_or (bit_and answer1 0xc0) cursor_start) 0x3d5 (inb 0x3d5 (outb 0x0a 0x3d4 s.io)) in
    let io2 =
      outb (bit_or (bit_and answer2 0xe0) cursor_end) 0x3d5 (inb 0x3d5 (outb 0x0b 0x3d4 io1)) in
    update_cursor (record s { screen_x = pos 0; screen_y = pos 0; io = io2 })

-- The inner loop of `scroll`: `n` columns from `x` on of row `y`.
unfoldable pub scroll_cols : ℕ → ℕ → ℕ → Mem → Mem
scroll_cols zero x y m = m
scroll_cols (suc n) x y m =
    scroll_cols n (x + 1) y
      (store m (video + 2 * (num_cols * y + x)) (m (video + 2 * (num_cols * (y + 1) + x))))

-- The outer loop: `n` rows from `y` on.
unfoldable pub scroll_rows : ℕ → ℕ → Mem → Mem
scroll_rows zero y m = m
scroll_rows (suc n) y m = scroll_rows n (y + 1) (scroll_cols num_cols 0 y m)

-- The loop that clears the bottom row, `n` columns from `x` on.
unfoldable pub clear_bottom : ℕ → ℕ → Mem → Mem
clear_bottom zero x m = m
clear_bottom (suc n) x m =
    clear_bottom n (x + 1) (store m (video + 2 * (num_cols * (num_rows - 1) + x)) 0x20)

-- `scroll`
unfoldable pub scroll : Screen → Screen
scroll s = record s {
  mem = clear_bottom num_cols 0 (scroll_rows (num_rows - 1) 0 s.mem);
  screen_y = pos (num_rows - 1);
  screen_x = pos 0;
}

-- `retrieve_screen_x`, `retrieve_screen_y`, `assign_screen_x` and `assign_screen_y`
abbrev pub retrieve_screen_x : Screen → ℤ
retrieve_screen_x s = s.screen_x

abbrev pub retrieve_screen_y : Screen → ℤ
retrieve_screen_y s = s.screen_y

abbrev pub assign_screen_x : ℤ → Screen → Screen
assign_screen_x cursor_x s = record s { screen_x = cursor_x }

abbrev pub assign_screen_y : ℤ → Screen → Screen
assign_screen_y cursor_y s = record s { screen_y = cursor_y }

-- The first two branches of `putc`: to the start of the next row.
unfoldable pub next_row : Screen → Screen
next_row s =
    let s' = record s { screen_x = pos 0; screen_y = s.screen_y +ℤ pos 1 } in
    if ltb_ℤ s'.screen_y (pos num_rows) then s' else scroll s'

-- The last branch of `putc`.
unfoldable pub put_char : ℕ → Screen → Screen
put_char c s =
    let x' = s.screen_x +ℤ pos 1 in
    record s {
      mem = draw s.curr_active_terminal c (cell (scale num_cols s.screen_y +ℤ s.screen_x)) s.mem;
      screen_x = rem x' num_cols;
      screen_y = rem (s.screen_y +ℤ quot (rem x' num_cols) num_cols) num_rows;
    }

-- `putc`
unfoldable pub putc : ℕ → Screen → Screen
putc c s =
    if c == 0x0a || c == 0x0d
    then update_cursor (next_row s)
    else (if eqb_ℤ s.screen_x (pos (num_cols - 1))
        then update_cursor (next_row s)
        else update_cursor (put_char c s))

-- `backspace`
unfoldable pub backspace : Screen → Screen
backspace s =
    let x' = rem (s.screen_x -ℤ pos 1) num_cols in
    let y' = rem (s.screen_y +ℤ quot x' num_cols) num_rows in
    update_cursor (record s {
      screen_x = x';
      screen_y = y';
      mem = draw s.curr_active_terminal 0x20 (cell (scale num_cols y' +ℤ x')) s.mem;
    })

-- `puts`: the number of characters, and the screen behind them.
unfoldable pub puts : List ℕ → Screen → Option (ℕ × Screen)
puts [] s = none
puts (c ∷ text) s =
    if c == 0 then some (0, s) else (puts text (putc c s) >>= λ r. some (r.0 + 1, r.1))
