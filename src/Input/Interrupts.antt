-- ===== src/Input/Interrupts.antt =====
-- The interrupts of the keyboard for a letter and for enter, and the turns of the wait of
-- `terminal_read`.
use my_linux_os.Common.{
  ℕ, ◌<◌, ◌≡◌, refl, sym, ap, subst, ◌∙◌, inl, inr, List, [], ◌∷◌, Option, none, some, Bool, true,
  false, ◌==◌, ◌&&◌, ◌||◌, leb, ◌>>=◌, get_elem?, set, Bool-cases, arith,
}
use my_linux_os.Common.Int.{pos, ◌+ℤ◌}
use my_linux_os.Common.Table.{holds_below, below_holds}
use my_linux_os.Io.{cli, sti, inb}
use my_linux_os.Pic.{send_eoi}
use my_linux_os.Screen.{Screen, putc}
use my_linux_os.Terminal.{Console, returns}
use my_linux_os.Keys.{key_in_array, print_to_screen, dispatch_key, report, keyboard_interrupt}
use my_linux_os.Keys.Letters.{letter, print_to_screen-found, store_key-next}
use my_linux_os.Input.{wait_enter}

-- The three rows of the letters on the keyboard, by scancode.
abbrev in_rows : ℕ → Bool
in_rows key =
    (leb 0x10 key && leb key 0x19)
    || ((leb 0x1e key && leb key 0x26) || (leb 0x2c key && leb key 0x32))

abbrev row_ok : Option ℕ → Bool
row_ok none = false
row_ok (some key) = in_rows key

unfoldable code_row : ℕ → Bool
code_row i = row_ok (get_elem? key_in_array i)

rows : holds_below 26 code_row ≡ true
unfolding holds_below code_row
rows = refl

letter-in_rows : (i key : ℕ) → i < 26 → get_elem? key_in_array i ≡ some key → in_rows key ≡ true
unfolding code_row
letter-in_rows i key h at = ap row_ok (sym at) ∙ below_holds 26 code_row i rows h

other : (key code : ℕ) → in_rows key ≡ true → in_rows code ≡ false → (key == code) ≡ false
other key code h k = elim (Bool-cases (key == code)) [
  | inl e ↦
      let same : key ≡ code = ground arith in
      absurd (ground (arith, subst (λ c. in_rows c ≡ true) same h))
  | inr e ↦ e
]

dispatch_key-letter :
    (key : ℕ) (s : Console)
    → in_rows key ≡ true
    → s.keys.ctrl_flag ≡ false
    → s.keys.alt_flag ≡ false
    → dispatch_key key s ≡ (print_to_screen key s >>= λ s'. some (returns (pos 0) s'))
unfolding dispatch_key
dispatch_key-letter key s h ctrl alt =
    rw
      (
        other key 0x36 h refl,
        other key 0x2a h refl,
        other key 0xb6 h refl,
        other key 0xaa h refl,
        other key 0x1d h refl,
        other key 0x9d h refl,
        other key 0x3a h refl,
        other key 0x0e h refl,
        other key 0x38 h refl,
        other key 0xb8 h refl,
        ctrl,
        alt,
      )
      refl

-- The screen when the interrupt of the keyboard has been acknowledged.
abbrev pub acknowledged : Screen → Screen
acknowledged s = record s { io = sti (send_eoi 1 (inb 0x60 (cli s.io))) }

abbrev pub after_key : ℕ → ℕ → Console → Console
after_key ch n c = record c {
  keys = record (c.keys) { key_buffer = set c.keys.key_buffer n ch; buffer_index = pos n };
  screen = putc ch (acknowledged c.screen);
}

pub keyboard_interrupt-letter :
    (i key n : ℕ) (c : Console)
    → i < 26
    → get_elem? key_in_array i ≡ some key
    → c.keys.ctrl_flag ≡ false
    → c.keys.alt_flag ≡ false
    → c.keys.buffer_index +ℤ pos 1 ≡ pos n
    → n < 256
    → keyboard_interrupt key c ≡ some (returns (pos 0) (after_key (letter c.keys i) n c))
unfolding keyboard_interrupt report
keyboard_interrupt-letter i key n c h at ctrl alt next small =
    let row = letter-in_rows i key h at in
    let c1 = record c { screen = acknowledged c.screen } in
    rw
      (
        other key 0x1c row refl,
        other key 0x9c row refl,
        dispatch_key-letter key c1 row ctrl alt,
        print_to_screen-found i key n c1 h at next small,
        ◌>>=◌,
      )
      refl

and_false : (b : Bool) → b && false ≡ false
and_false true = refl
and_false false = refl

dispatch_key-enter :
    (s : Console)
    → dispatch_key 0x1c s ≡ (print_to_screen 0x1c s >>= λ s'. some (returns (pos 0) s'))
unfolding dispatch_key
dispatch_key-enter s = rw (and_false s.keys.ctrl_flag, and_false s.keys.alt_flag) refl

pub keyboard_interrupt-enter :
    (n : ℕ) (c : Console)
    → c.keys.buffer_index +ℤ pos 1 ≡ pos n
    → n < 256
    → keyboard_interrupt 0x1c c
      ≡ some (
          returns
            (pos 0)
            (after_key 0x0a n (record c { keys = record (c.keys) { enter_flag = true } })))
unfolding keyboard_interrupt report print_to_screen
keyboard_interrupt-enter n c next small =
    let c1 = record c {
      screen = acknowledged c.screen;
      keys = record (c.keys) { enter_flag = true };
    } in
    rw (dispatch_key-enter c1, store_key-next 0x0a n c1 next small, ◌>>=◌) refl

pub wait_enter-done :
    (turns : List (Option ℕ)) (c : Console)
    → c.keys.enter_flag ≡ true
    → wait_enter turns c ≡ some (returns (pos 0) c)
unfolding wait_enter
wait_enter-done [] c done = rw done refl
wait_enter-done (none ∷ turns) c done = rw done refl
wait_enter-done (some key ∷ turns) c done = rw done refl

pub wait_enter-key :
    (key : ℕ) (turns : List (Option ℕ)) (c c' : Console)
    → c.keys.enter_flag ≡ false
    → keyboard_interrupt key c ≡ some (returns (pos 0) c')
    → wait_enter (some key ∷ turns) c ≡ wait_enter turns c'
unfolding wait_enter
wait_enter-key key turns c c' waiting run = rw (run, ◌>>=◌, waiting) refl

pub wait_enter-idle :
    (turns : List (Option ℕ)) (c : Console)
    → c.keys.enter_flag ≡ false
    → wait_enter (none ∷ turns) c ≡ wait_enter turns c
unfolding wait_enter
wait_enter-idle turns c waiting = rw (waiting) refl
