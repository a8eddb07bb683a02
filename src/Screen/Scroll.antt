-- ===== src/Screen/Scroll.antt =====
-- The memory and the cursor behind `scroll`.
use my_linux_os.Common.{
  ℕ, zero, suc, ◌+◌, ◌*◌, ◌%◌, ◌<◌, ◌≡◌, refl, ◌∙◌, Bool, true, false, ◌&&◌, ltb, leb, ◌==◌,
  if◌then◌else◌, arith, Mem, store, Bool-cases, ltb→lt, inl, inr,
}
use native.Mathlib.Decide.{ℕ_discrete}
use my_linux_os.Screen.{Screen, scroll, scroll_cols, scroll_rows, clear_bottom, video}
use my_linux_os.Screen.Cells.{place, char_at, CursorAt}

-- Address `a` is a character of the cells from `lo` up to, and without, `hi`.
abbrev pub in_cells : ℕ → ℕ → ℕ → Bool
in_cells lo hi a = a % 2 == 0 && (leb (video + 2 * lo) a && ltb a (video + 2 * hi))

moved : (y x a : ℕ) → a ≡ video + 2 * (80 * y + x) → a + 160 ≡ video + 2 * (80 * (y + 1) + x)
moved y x a h = omega arith

scroll_cols_step :
    (n x y : ℕ) (m : Mem) (a : ℕ)
    → (if in_cells (80 * y + (x + 1)) (80 * y + (x + 1) + n) a
        then store m (video + 2 * (80 * y + x)) (m (video + 2 * (80 * (y + 1) + x))) (a + 160)
        else store m (video + 2 * (80 * y + x)) (m (video + 2 * (80 * (y + 1) + x))) a)
      ≡ (if in_cells (80 * y + x) (80 * y + x + suc n) a then m (a + 160) else m a)
scroll_cols_step n x y m a = elim (ℕ_discrete a (video + 2 * (80 * y + x))) [
  | yes e ↦ rw (e) (ground arith)
  | no ne ↦ ground arith
]

scroll_cols_lem :
    (n x y : ℕ) (m : Mem) (a : ℕ)
    → scroll_cols n x y m a
      ≡ (if in_cells (80 * y + x) (80 * y + x + n) a then m (a + 160) else m a)
unfolding scroll_cols
scroll_cols_lem zero x y m a = ground arith
scroll_cols_lem (suc n) x y m a =
    scroll_cols_lem n (x + 1) y
      (store m (video + 2 * (80 * y + x)) (m (video + 2 * (80 * (y + 1) + x)))) a
    ∙ scroll_cols_step n x y m a

scroll_rows_step :
    (n y : ℕ) (m : Mem) (a : ℕ)
    → (if in_cells (80 * (y + 1)) (80 * (y + 1) + 80 * n) a
        then (if in_cells (80 * y + 0) (80 * y + 0 + 80) (a + 160)
            then m (a + 160 + 160)
            else m (a + 160))
        else (if in_cells (80 * y + 0) (80 * y + 0 + 80) a then m (a + 160) else m a))
      ≡ (if in_cells (80 * y) (80 * y + 80 * suc n) a then m (a + 160) else m a)
scroll_rows_step n y m a = ground arith

scroll_rows_lem :
    (n y : ℕ) (m : Mem) (a : ℕ)
    → scroll_rows n y m a ≡ (if in_cells (80 * y) (80 * y + 80 * n) a then m (a + 160) else m a)
unfolding scroll_rows
scroll_rows_lem zero y m a = ground arith
scroll_rows_lem (suc n) y m a =
    scroll_rows_lem n (y + 1) (scroll_cols 80 0 y m) a
    ∙ rw (scroll_cols_lem 80 0 y m (a + 160), scroll_cols_lem 80 0 y m a) (scroll_rows_step n y m a)

clear_bottom_lem :
    (n x : ℕ) (m : Mem) (a : ℕ)
    → clear_bottom n x m a ≡ (if in_cells (1920 + x) (1920 + x + n) a then 0x20 else m a)
unfolding clear_bottom
clear_bottom_lem zero x m a = ground arith
clear_bottom_lem (suc n) x m a =
    clear_bottom_lem n (x + 1) (store m (video + 2 * (80 * 24 + x)) 0x20) a ∙ ground arith

-- The memory behind `scroll`, at every address.
scroll_mem :
    (s : Screen) (a : ℕ)
    → (scroll s).mem a ≡ (
        if in_cells 1920 2000 a
        then 0x20
        else if in_cells 0 1920 a
        then s.mem (a + 160)
        else s.mem a)
unfolding scroll
scroll_mem s a =
    clear_bottom_lem 80 0 (scroll_rows 24 0 s.mem) a ∙ rw (scroll_rows_lem 24 0 s.mem a) refl

pub scroll-CursorAt : (s : Screen) → CursorAt (scroll s) 24 0
unfolding scroll
scroll-CursorAt s = record { at_x = refl; at_y = refl; col = omega arith; row = omega arith }

above : (r c : ℕ) → r < 24 → c < 80 → in_cells 1920 2000 (place r c) ≡ false
above r c hr hc = ground arith

kept : (r c : ℕ) → r < 24 → c < 80 → in_cells 0 1920 (place r c) ≡ true
kept r c hr hc = ground arith

last : (r c : ℕ) → r ≡ 24 → c < 80 → in_cells 1920 2000 (place r c) ≡ true
last r c hr hc = ground arith

shown :
    (s : Screen) (r c : ℕ)
    → r < 25
    → c < 80
    → (if in_cells 1920 2000 (place r c)
        then 0x20
        else if in_cells 0 1920 (place r c)
        then s.mem (place r c + 160)
        else s.mem (place r c))
      ≡ (if ltb r 24 then char_at s (r + 1) c else 0x20)
shown s r c hr hc = elim (Bool-cases (ltb r 24)) [
  | inl e ↦
      rw (e, above r c (ltb→lt r 24 e) hc, kept r c (ltb→lt r 24 e) hc, moved r c (place r c) refl)
        refl
  | inr e ↦ rw (e, last r c (ground arith) hc) refl
]

-- `scroll` shows in each of the first 24 rows what the row below it showed, and blanks in the
-- last row; it puts the cursor at the start of the last row, and leaves alone each byte of memory
-- that is not a character of the screen: the odd bytes, which are the colours, and those outside
-- the 4000 bytes of the screen.
pub scroll_lem :
    (s : Screen)
    → ((r c : ℕ)
        → r < 25
        → c < 80
        → char_at (scroll s) r c ≡ (if ltb r 24 then char_at s (r + 1) c else 0x20))
      × (((a : ℕ) → in_cells 0 2000 a ≡ false → (scroll s).mem a ≡ s.mem a)
          × CursorAt (scroll s) 24 0)
scroll_lem s = (
  (λ r c hr hc. scroll_mem s (place r c) ∙ shown s r c hr hc),
  ((λ a h. scroll_mem s a ∙ ground arith), scroll-CursorAt s),
)
