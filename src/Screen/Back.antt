-- ===== src/Screen/Back.antt =====
-- What `backspace` does to the characters and the cursor.
use my_linux_os.Common.{
  ℕ, ◌+◌, ◌-◌, ◌*◌, ◌/◌, ◌<◌, ◌≡◌, refl, ◌∙◌, ap, ◌&&◌, ◌==◌, if◌then◌else◌, arith,
}
use my_linux_os.Common.Int.{pos, ◌+ℤ◌, ◌-ℤ◌, rem, quot, add_pos}
use my_linux_os.Screen.{Screen, backspace, update_cursor}
use my_linux_os.Screen.Cells.{place, char_at, CursorAt, draw_lem}
use my_linux_os.Screen.Put.{in_range, even_place, same_cell}

minus_pos : (x : ℕ) → 0 < x → pos x -ℤ pos 1 ≡ pos (x - 1)
minus_pos x p = ground arith

back_col : (x : ℕ) → x < 80 → 0 < x → rem (pos x -ℤ pos 1) 80 ≡ pos (x - 1)
back_col x h p = ap (λ z. rem z 80) (minus_pos x p) ∙ ap pos (omega arith)

back_row : (x y : ℕ) → x < 80 → y < 25 → rem (pos y +ℤ quot (pos (x - 1)) 80) 25 ≡ pos y
back_row x y h hy = rw (add_pos y ((x - 1) / 80)) (ap pos (omega arith))

-- With the cursor on the screen and not in the first column, `backspace` blanks the character to
-- the left of the cursor, leaves the other characters as they were, and moves the cursor there.
pub backspace_lem :
    (s : Screen) (y x : ℕ)
    → CursorAt s y x
    → 0 < x
    → CursorAt (backspace s) y (x - 1)
      × ((r k : ℕ)
          → r < 25
          → k < 80
          → char_at (backspace s) r k ≡ (if r == y && k == x - 1 then 0x20 else char_at s r k))
unfolding backspace update_cursor
backspace_lem s y x h p =
    rw (h.at_x, h.at_y, back_col x h.col p, back_row x y h.col h.row, add_pos (80 * y) (x - 1))
      (
        record { at_x = refl; at_y = refl; col = omega arith; row = h.row },
        λ r k hr hk.
            draw_lem s.curr_active_terminal 0x20 (80 * y + (x - 1)) (place r k) s.mem
              (in_range y (x - 1) h.row (omega arith)) (even_place r k)
            ∙ same_cell r k y (x - 1) (char_at s r k) 0x20 hk (omega arith),
      )
