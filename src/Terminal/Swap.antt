-- ===== src/Terminal/Swap.antt =====
-- Switching from one terminal to another and back.
use my_linux_os.Common.{
  ℕ, ◌+◌, ◌-◌, ◌*◌, ◌<◌, ◌≡◌, ◌≢◌, refl, sym, ap, ◌∙◌, some, Bool, true, false, ◌&&◌, ltb, leb,
  ◌>>=◌, get_elem?, get_elem?-set_self, get_elem?-set_ne, set, length, Mem, arith, Bool-cases, inl,
  inr,
}
use my_linux_os.Common.Int.{pos, minus_one, eqb_ℤ}
use my_linux_os.Screen.{update_cursor}
use my_linux_os.Terminal.{
  Console, Term, memcpy, save_visible_terminal, restore_new_terminal, exchange, terminal_swap,
  returns, clear_keyboard_buffer, interrupts_off, interrupts_on,
}

-- Where `init_terminal` puts the saved screen of terminal `i`.
abbrev pub backup : ℕ → ℕ
backup i = 0xb9000 + 4096 * i

-- Is `x` in the page at `a`?
abbrev pub in_page : ℕ → ℕ → Bool
in_page a x = leb a x && ltb x (a + 4096)

-- Terminal `i` of three has a shell, and its saved screen in its place.
pub record Runs (c : Console) (i : ℕ) (t : Term) : Type 0 where
  pub at : get_elem? c.term_blk i ≡ some t
  pub index : i < 3
  pub shell : eqb_ℤ t.process_active minus_one ≡ false
  pub place : t.video_mem ≡ backup i

-- The console after an exchange of terminal `a` for terminal `b`.
abbrev pub exchanged : (a b : ℕ) (ta tb : Term) → Console → Console
exchanged a b ta tb c = record {
  screen =
      record (update_cursor (record (c.screen) {
        mem = memcpy ta.video_mem 0xb8000 4096 c.screen.mem;
        screen_x = tb.cursor_x;
        screen_y = tb.cursor_y;
      })) {
        mem = memcpy 0xb8000 tb.video_mem 4096 (memcpy ta.video_mem 0xb8000 4096 c.screen.mem);
        curr_active_terminal = pos b;
      };
  keys = clear_keyboard_buffer c.keys;
  term_blk =
      set c.term_blk a (record ta { cursor_x = c.screen.screen_x; cursor_y = c.screen.screen_y });
}

exchange-exchanged :
    (a b : ℕ) (ta tb : Term) (c : Console)
    → c.screen.curr_active_terminal ≡ pos a
    → a ≢ b
    → get_elem? c.term_blk a ≡ some ta
    → get_elem? c.term_blk b ≡ some tb
    → exchange b c ≡ some (exchanged a b ta tb c)
unfolding exchange save_visible_terminal restore_new_terminal update_cursor
exchange-exchanged a b ta tb c active apart at_a at_b =
    rw
      (
        active,
        at_a,
        ◌>>=◌,
        get_elem?-set_ne c.term_blk a b
            (record ta { cursor_x = c.screen.screen_x; cursor_y = c.screen.screen_y }) apart,
        at_b,
      )
      refl

terminal_swap-exchanged :
    (a b : ℕ) (ta tb : Term) (c : Console)
    → c.screen.curr_active_terminal ≡ pos a
    → a ≢ b
    → Runs c a ta
    → Runs c b tb
    → terminal_swap (pos b) c
      ≡ some (returns (pos 0) (interrupts_on (exchanged a b ta tb (interrupts_off c))))
unfolding terminal_swap
terminal_swap-exchanged a b ta tb c active apart ra rb =
    let away : eqb_ℤ (pos b) c.screen.curr_active_terminal ≡ false =
      ap (eqb_ℤ (pos b)) active ∙ other b a apart in
    rw
      (
        not_past b rb.index,
        away,
        rb.at,
        ◌>>=◌,
        exchange-exchanged a b ta tb (interrupts_off c) active apart ra.at rb.at,
        rb.shell,
      )
      refl
  where
    not_past : (b : ℕ) → b < 3 → leb 3 b ≡ false
    not_past b h = ground arith

    other : (b a : ℕ) → a ≢ b → eqb_ℤ (pos b) (pos a) ≡ false
    other b a h = ground arith

copied : (d s a : ℕ) (m : Mem) → in_page d a ≡ true → memcpy d s 4096 m a ≡ m (s + (a - d))
unfolding memcpy
copied d s a m h = rw h refl

kept : (d s a : ℕ) (m : Mem) → in_page d a ≡ false → memcpy d s 4096 m a ≡ m a
unfolding memcpy
kept d s a m h = rw h refl

-- Memory behind the four copies of a switch from terminal `i` to terminal `j` and back.
there_and_back :
    (i j : ℕ) (m : Mem) (x : ℕ)
    → i ≢ j
    → i < 3
    → j < 3
    → in_page (backup i) x ≡ false
    → memcpy 0xb8000
        (backup i)
        4096
        (memcpy
          (backup j)
          0xb8000
          4096
          (memcpy 0xb8000 (backup j) 4096 (memcpy (backup i) 0xb8000 4096 m)))
        x
      ≡ m x
there_and_back i j m x apart hi hj out = elim (Bool-cases (in_page 0xb8000 x)) [
  | inl shown ↦
      copied 0xb8000 (backup i) x _ shown
      ∙ kept (backup j) 0xb8000 (backup i + (x - 0xb8000)) _ (ground arith)
      ∙ kept 0xb8000 (backup j) (backup i + (x - 0xb8000)) _ (ground arith)
      ∙ copied (backup i) 0xb8000 (backup i + (x - 0xb8000)) m (ground arith)
      ∙ ap m (ground arith)
  | inr hidden ↦ kept 0xb8000 (backup i) x _ hidden ∙ (elim (Bool-cases (in_page (backup j) x)) [
    | inl other ↦
        copied (backup j) 0xb8000 x _ other
        ∙ copied 0xb8000 (backup j) (0xb8000 + (x - backup j)) _ (ground arith)
        ∙ kept (backup i) 0xb8000 (backup j + (0xb8000 + (x - backup j) - 0xb8000)) m (ground arith)
        ∙ ap m (ground arith)
    | inr free ↦
        kept (backup j) 0xb8000 x _ free
        ∙ (kept 0xb8000 (backup j) x _ hidden ∙ kept (backup i) 0xb8000 x m out)
  ])
]

there_and_back_at :
    (i j p q : ℕ) (m : Mem) (x : ℕ)
    → p ≡ backup i
    → q ≡ backup j
    → i ≢ j
    → i < 3
    → j < 3
    → in_page (backup i) x ≡ false
    → memcpy 0xb8000 p 4096
        (memcpy q 0xb8000 4096 (memcpy 0xb8000 q 4096 (memcpy p 0xb8000 4096 m)))
        x
      ≡ m x
there_and_back_at i j p q m x e f apart hi hj out =
    rw (e, f) (there_and_back i j m x apart hi hj out)

entered :
    (i j p q : ℕ) (m : Mem) (x : ℕ)
    → p ≡ backup i
    → q ≡ backup j
    → i ≢ j
    → in_page 0xb8000 x ≡ true
    → memcpy 0xb8000 q 4096 (memcpy p 0xb8000 4096 m) x ≡ m (backup j + (x - 0xb8000))
entered i j p q m x e f apart shown =
    rw (e, f)
      (copied 0xb8000 (backup j) x _ shown
        ∙ kept (backup i) 0xb8000 (backup j + (x - 0xb8000)) m (ground arith))

module _ (a b : ℕ) (ta tb : Term) (c : Console) (active : c.screen.curr_active_terminal ≡ pos a)
    (apart : a ≢ b) (ra : Runs c a ta) (rb : Runs c b tb) (size : length c.term_blk ≡ 3) where
  after : Console
  after = interrupts_on (exchanged a b ta tb (interrupts_off c))

  left : Term
  left = record ta { cursor_x = c.screen.screen_x; cursor_y = c.screen.screen_y }

  Runs-left : Runs after a left
  unfolding after left
  Runs-left = record {
    at = get_elem?-set_self c.term_blk a left (omega (arith, size, ra.index));
    index = ra.index;
    shell = ra.shell;
    place = ra.place;
  }

  Runs-entered : Runs after b tb
  unfolding after left
  Runs-entered = record {
    at = get_elem?-set_ne c.term_blk a b left apart ∙ rb.at;
    index = rb.index;
    shell = rb.shell;
    place = rb.place;
  }

-- With three terminals, `a` the active one and `b` another, a shell in both and their saved screens
-- where `init_terminal` puts them: switching to `b` returns 0 and shows the saved screen of `b`
-- with its cursor; switching back to `a` returns 0, makes `a` active, and all memory but the
-- saved screen of `a`, the screen itself included, and the cursor are as they were before.
pub terminal_swap_back :
    (a b : ℕ) (ta tb : Term) (c : Console)
    → c.screen.curr_active_terminal ≡ pos a
    → a ≢ b
    → Runs c a ta
    → Runs c b tb
    → length c.term_blk ≡ 3
    → (c1 c2 : Console) × (terminal_swap (pos b) c ≡ some (returns (pos 0) c1))
      × ((x : ℕ)
          → in_page 0xb8000 x ≡ true
          → c1.screen.mem x ≡ c.screen.mem (backup b + (x - 0xb8000)))
      × (c1.screen.screen_x ≡ tb.cursor_x)
      × (c1.screen.screen_y ≡ tb.cursor_y)
      × (terminal_swap (pos a) c1 ≡ some (returns (pos 0) c2))
      × (c2.screen.curr_active_terminal ≡ pos a)
      × ((x : ℕ) → in_page (backup a) x ≡ false → c2.screen.mem x ≡ c.screen.mem x)
      × (c2.screen.screen_x ≡ c.screen.screen_x)
      × (c2.screen.screen_y ≡ c.screen.screen_y)
unfolding after left update_cursor
terminal_swap_back a b ta tb c active apart ra rb size = (
  after a b ta tb c active apart ra rb size,
  interrupts_on (
      exchanged b a tb (left a b ta tb c active apart ra rb size)
        (interrupts_off (after a b ta tb c active apart ra rb size))),
  terminal_swap-exchanged a b ta tb c active apart ra rb,
  λ x h. entered a b ta.video_mem tb.video_mem c.screen.mem x ra.place rb.place apart h,
  refl,
  refl,
  terminal_swap-exchanged b a tb (left a b ta tb c active apart ra rb size)
      (after a b ta tb c active apart ra rb size) refl (λ e. apart (sym e))
      (Runs-entered a b ta tb c active apart ra rb size)
      (Runs-left a b ta tb c active apart ra rb size),
  refl,
  λ x out.
      there_and_back_at a b ta.video_mem tb.video_mem c.screen.mem x ra.place rb.place apart
        ra.index rb.index out,
  refl,
  refl,
)
