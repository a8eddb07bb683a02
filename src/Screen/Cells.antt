-- ===== src/Screen/Cells.antt =====
-- The characters on the screen, by row and column, and a cursor on it.
use my_linux_os.Common.{
  ℕ, ◌+◌, ◌*◌, ◌%◌, ◌<◌, ◌≡◌, ◌==◌, if◌then◌else◌, arith, Mem, Option-cases, inl, inr,
}
use my_linux_os.Common.Int.{ℤ, pos}
use my_linux_os.Screen.{Screen, cell, color, draw, video}

-- The address of row `r`, column `c`.
abbrev pub place : ℕ → ℕ → ℕ
place r c = video + 2 * (80 * r + c)

abbrev pub char_at : Screen → ℕ → ℕ → ℕ
char_at s r c = s.mem (place r c)

-- The cursor is at row `y`, column `x`, and that is on the screen.
pub record CursorAt (s : Screen) (y x : ℕ) : Type 0 where
  pub at_x : s.screen_x ≡ pos x
  pub at_y : s.screen_y ≡ pos y
  pub col : x < 80
  pub row : y < 25

-- A drawn character is in its cell, and in no other cell.
pub draw_lem :
    (t : ℤ) (c n a : ℕ) (m : Mem)
    → n < 2000
    → a % 2 ≡ 0
    → draw t c (cell (pos n)) m a ≡ (if a == (video + 2 * n) then c else m a)
unfolding draw cell
draw_lem t c n a m h even = elim (Option-cases (color t)) [
  | inl e ↦ rw (e, draw) (ground arith)
  | inr (v, e) ↦ rw (e, draw) (ground arith)
]
