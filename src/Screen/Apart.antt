-- ===== src/Screen/Apart.antt =====
-- The memory that `putc` leaves alone: all of it but the video page.
use my_linux_os.Common.{
  ℕ, ◌+◌, ◌*◌, ◌<◌, ◌≡◌, refl, ap, ◌∙◌, Bool, true, false, ◌||◌, ltb, leb, ◌==◌, if◌then◌else◌,
  arith, Mem, Bool-cases, inl, inr, Option-cases,
}
use my_linux_os.Common.Int.{ℤ, pos}
use my_linux_os.Screen.{Screen, putc, put_char, draw, cell, color, scroll, video}
use my_linux_os.Screen.Cells.{CursorAt}
use my_linux_os.Screen.Scroll.{in_cells, scroll_lem}
use my_linux_os.Screen.Put.{
  is_newline, in_range, update_cursor-mem, update_cursor-CursorAt, put_char-CursorAt, cell_of,
  putc-put_char, putc_next_row,
}

-- Is `a` outside of the page of the screen?
abbrev pub off_screen : ℕ → Bool
off_screen a = ltb a video || leb 0xb9000 a

-- Two memories that differ on that page at most.
abbrev pub AgreeApart : Mem → Mem → Type 0
AgreeApart m m' = (a : ℕ) → off_screen a ≡ true → m' a ≡ m a

draw_apart : (t : ℤ) (c n : ℕ) (m : Mem) → n < 2000 → AgreeApart m (draw t c (cell (pos n)) m)
unfolding draw cell
draw_apart t c n m h a off = elim (Option-cases (color t)) [
  | inl e ↦ rw (e, draw) (ground arith)
  | inr (v, e) ↦ rw (e, draw) (ground arith)
]

put_char_apart :
    (c : ℕ) (s : Screen) (y x : ℕ) → CursorAt s y x → AgreeApart s.mem (put_char c s).mem
unfolding put_char
put_char_apart c s y x h a off =
    ap (λ (z : ℤ). draw s.curr_active_terminal c (cell z) s.mem a) (cell_of s y x h)
    ∙ draw_apart s.curr_active_terminal c (80 * y + x) s.mem (in_range y x h.row h.col) a off

not_cell : (a : ℕ) → off_screen a ≡ true → in_cells 0 2000 a ≡ false
not_cell a off = ground arith

either :
    (b : Bool) (m n p : Mem) → AgreeApart p m → AgreeApart p n → AgreeApart p (if b then m else n)
either true m n p f g = f
either false m n p f g = g

before_last : (x : ℕ) → x < 80 → (x == 79) ≡ false → x < 79
before_last x h e = ground arith

-- With the cursor on the screen, `putc` keeps it there and changes nothing outside of the video page.
pub putc_apart :
    (c : ℕ) (s : Screen) (y x : ℕ)
    → CursorAt s y x
    → (y' : ℕ) × (x' : ℕ) × CursorAt (putc c s) y' x' × AgreeApart s.mem (putc c s).mem
putc_apart c s y x h = elim (Bool-cases (is_newline c || (x == 79))) [
  | inl ends ↦
      let (at, is) = putc_next_row c s y x h ends in
      (
        if ltb y 24 then y + 1 else 24,
        0,
        at,
        λ a off.
            ap (λ (m : Mem). m a) is
            ∙ either (ltb y 24) s.mem (scroll s).mem s.mem (λ b _. refl)
                (λ b o. (scroll_lem s).1.0 b (not_cell b o)) a off,
      )
  | inr stays ↦
      let printable : is_newline c ≡ false = ground (arith, stays) in
      let small : x < 79 = before_last x h.col (ground (arith, stays)) in
      rw (putc-put_char c s y x h printable small) (
        y,
        x + 1,
        update_cursor-CursorAt (put_char c s) y (x + 1) (put_char-CursorAt c s y x h small),
        λ a off.
            ap (λ (m : Mem). m a) (update_cursor-mem (put_char c s))
            ∙ put_char_apart c s y x h a off,
      )
]
