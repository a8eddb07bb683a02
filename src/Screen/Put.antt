-- ===== src/Screen/Put.antt =====
-- What `putc` does to the characters and the cursor.
use my_linux_os.Common.{
  ℕ, ◌+◌, ◌*◌, ◌/◌, ◌%◌, ◌<◌, ◌≡◌, refl, ◌∙◌, ap, Bool, true, false, ◌&&◌, ◌||◌, ltb, ◌==◌,
  if◌then◌else◌, arith, Bool-cases, lt→ltb, ltb→lt, inl, inr,
}
use my_linux_os.Common.Int.{pos, ◌+ℤ◌, eqb_ℤ, scale, add_pos, ltb_pos}
use my_linux_os.Screen.{Screen, putc, put_char, next_row, scroll, update_cursor, draw, cell, video}
use my_linux_os.Screen.Cells.{place, char_at, CursorAt, draw_lem}
use my_linux_os.Screen.Scroll.{scroll-CursorAt}

-- Is `c` a line feed or a carriage return?
abbrev pub is_newline : ℕ → Bool
is_newline c = c == 0x0a || c == 0x0d

pub update_cursor-mem : (s : Screen) → (update_cursor s).mem ≡ s.mem
unfolding update_cursor
update_cursor-mem s = refl

pub update_cursor-CursorAt :
    (s : Screen) (y x : ℕ) → CursorAt s y x → CursorAt (update_cursor s) y x
unfolding update_cursor
update_cursor-CursorAt s y x h = record { at_x = h.at_x; at_y = h.at_y; col = h.col; row = h.row }

pub put_char-CursorAt :
    (c : ℕ) (s : Screen) (y x : ℕ) → CursorAt s y x → x < 79 → CursorAt (put_char c s) y (x + 1)
unfolding put_char
put_char-CursorAt c s y x h small = record {
  at_x = rw (h.at_x, add_pos x 1) (ap pos (omega arith));
  at_y = rw (h.at_x, h.at_y, add_pos x 1, add_pos y ((x + 1) % 80 / 80)) (ap pos (omega arith));
  col = omega arith;
  row = h.row;
}

pub in_range : (y x : ℕ) → y < 25 → x < 80 → 80 * y + x < 2000
in_range y x hy hx = omega arith

pub even_place : (r k : ℕ) → place r k % 2 ≡ 0
even_place r k = omega arith

pub same_cell :
    (r k y x old c : ℕ)
    → k < 80
    → x < 80
    → (if place r k == (video + 2 * (80 * y + x)) then c else old)
      ≡ (if r == y && k == x then c else old)
same_cell r k y x old c hk hx = ground arith

pub cell_of :
    (s : Screen) (y x : ℕ) → CursorAt s y x → scale 80 s.screen_y +ℤ s.screen_x ≡ pos (80 * y + x)
cell_of s y x h = rw (h.at_x, h.at_y) (add_pos (80 * y) x)

put_char_shows :
    (c : ℕ) (s : Screen) (y x r k : ℕ)
    → CursorAt s y x
    → r < 25
    → k < 80
    → char_at (put_char c s) r k ≡ (if r == y && k == x then c else char_at s r k)
unfolding put_char
put_char_shows c s y x r k h hr hk =
    ap (λ z. draw s.curr_active_terminal c (cell z) s.mem (place r k)) (cell_of s y x h)
    ∙ (draw_lem s.curr_active_terminal c (80 * y + x) (place r k) s.mem (in_range y x h.row h.col)
          (even_place r k)
        ∙ same_cell r k y x (char_at s r k) c hk h.col)

next_row_within :
    (s : Screen) (y x : ℕ)
    → CursorAt s y x
    → y < 24
    → next_row s ≡ record s { screen_x = pos 0; screen_y = pos (y + 1) }
unfolding next_row
next_row_within s y x h e =
    rw (h.at_y, add_pos y 1, ltb_pos (y + 1) 25, lt→ltb (y + 1) 25 (omega arith)) refl

next_row_last :
    (s : Screen) (y x : ℕ)
    → CursorAt s y x
    → y ≡ 24
    → next_row s ≡ scroll (record s { screen_x = pos 0; screen_y = pos 25 })
unfolding next_row
next_row_last s y x h e = rw (h.at_y, e) refl

not_at_79 : (s : Screen) (y x : ℕ) → CursorAt s y x → x < 79 → eqb_ℤ s.screen_x (pos 79) ≡ false
not_at_79 s y x h small = rw h.at_x (ground arith)

pub putc-put_char :
    (c : ℕ) (s : Screen) (y x : ℕ)
    → CursorAt s y x
    → is_newline c ≡ false
    → x < 79
    → putc c s ≡ update_cursor (put_char c s)
unfolding putc
putc-put_char c s y x h printable small = rw (printable, not_at_79 s y x h small) refl

edge : (a b : Bool) → a ≡ false → (a || b) ≡ true → b ≡ true
edge a b e h = ground arith

putc-next_row :
    (c : ℕ) (s : Screen)
    → (is_newline c || eqb_ℤ s.screen_x (pos 79)) ≡ true
    → putc c s ≡ update_cursor (next_row s)
unfolding putc
putc-next_row c s h = elim (Bool-cases (is_newline c)) [
  | inl e ↦ rw e refl
  | inr e ↦ rw (e, edge (is_newline c) (eqb_ℤ s.screen_x (pos 79)) e h) refl
]

-- With the cursor on the screen and before its last column, `putc` of a character that is neither
-- a line feed nor a carriage return shows it at the cursor, leaves every other character of the
-- screen as it was, and moves the cursor one column to the right.
pub putc_prints :
    (c : ℕ) (s : Screen) (y x : ℕ)
    → CursorAt s y x
    → is_newline c ≡ false
    → x < 79
    → CursorAt (putc c s) y (x + 1)
      × ((r k : ℕ)
          → r < 25
          → k < 80
          → char_at (putc c s) r k ≡ (if r == y && k == x then c else char_at s r k))
putc_prints c s y x h printable small = rw (putc-put_char c s y x h printable small) (
  update_cursor-CursorAt (put_char c s) y (x + 1) (put_char-CursorAt c s y x h small),
  λ r k hr hk.
      ap (λ m. m (place r k)) (update_cursor-mem (put_char c s))
      ∙ put_char_shows c s y x r k h hr hk,
)

at_79 : (s : Screen) (y x : ℕ) → CursorAt s y x → eqb_ℤ s.screen_x (pos 79) ≡ (x == 79)
at_79 s y x h = rw h.at_x (ground arith)

bottom : (y : ℕ) → y < 25 → ltb y 24 ≡ false → y ≡ 24
bottom y h e = ground arith

moved_down :
    (s : Screen) (y : ℕ)
    → y < 24
    → CursorAt (record s { screen_x = pos 0; screen_y = pos (y + 1) }) (y + 1) 0
moved_down s y h = record { at_x = refl; at_y = refl; col = omega arith; row = omega arith }

scroll-mem :
    (s : Screen) → (scroll (record s { screen_x = pos 0; screen_y = pos 25 })).mem ≡ (scroll s).mem
unfolding scroll
scroll-mem s = refl

-- With the cursor on the screen, `putc` of a line feed or a carriage return, and `putc` of any
-- character at all when the cursor is in the last column, moves the cursor to the start of the
-- next row and shows nothing new: above the last row the memory stays the same, in the last row
-- it is what `scroll` leaves.
pub putc_next_row :
    (c : ℕ) (s : Screen) (y x : ℕ)
    → CursorAt s y x
    → (is_newline c || (x == 79)) ≡ true
    → CursorAt (putc c s) (if ltb y 24 then y + 1 else 24) 0
      × ((putc c s).mem ≡ (if ltb y 24 then s.mem else (scroll s).mem))
unfolding update_cursor
putc_next_row c s y x h ends =
    rw
      (
        putc-next_row c s (ap (λ b. is_newline c || b) (at_79 s y x h) ∙ ends),
        update_cursor-mem (next_row s),
      )
      (elim (Bool-cases (ltb y 24)) [
        | inl e ↦
            rw (e, next_row_within s y x h (ltb→lt y 24 e))
              (
                update_cursor-CursorAt (record s { screen_x = pos 0; screen_y = pos (y + 1) })
                    (y + 1) 0 (moved_down s y (ltb→lt y 24 e)),
                refl,
              )
        | inr e ↦
            rw (e, next_row_last s y x h (bottom y h.row e))
              (
                update_cursor-CursorAt (scroll (record s { screen_x = pos 0; screen_y = pos 25 }))
                    24 0 (scroll-CursorAt (record s { screen_x = pos 0; screen_y = pos 25 })),
                scroll-mem s,
              )
      ])
