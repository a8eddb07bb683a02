-- ===== src/Keys.antt =====
-- student-distrib/keyboard.c: the scancode tables, `printToScreen`, `init_keyboard` and the interrupt
-- handler.
pub mod Letters
pub mod Bounds
mod Tests
use my_linux_os.Common.{
  ℕ, ◌+◌, ◌-◌, List, [], ◌∷◌, ◌++◌, Option, none, some, Bool, true, false, ◌&&◌, ◌||◌, not, ◌==◌,
  ltb, if◌then◌else◌, ◌>>=◌, get_elem?, set, require,
}
use my_linux_os.Common.Int.{ℤ, pos, negsuc, minus_one, ◌+ℤ◌, ◌-ℤ◌, eqb_ℤ, ltb_ℤ, signed8}
use my_linux_os.Io.{cli, sti, inb}
use my_linux_os.Pic.{Pic, enable_irq, send_eoi}
use my_linux_os.Screen.{Screen, putc, backspace, clear, puts}
use my_linux_os.Terminal.{Console, Keyboard, Swapped, returns, starts_shell, terminal_swap}

abbrev pub ascii_val : List ℕ
ascii_val =
    0x61 ∷ 0x62 ∷ 0x63 ∷ 0x64 ∷ 0x65 ∷ 0x66 ∷ 0x67 ∷ 0x68 ∷ 0x69 ∷ 0x6a ∷ 0x6b ∷ 0x6c ∷ 0x6d ∷ 0x6e
    ∷ 0x6f ∷ 0x70 ∷ 0x71 ∷ 0x72 ∷ 0x73 ∷ 0x74 ∷ 0x75 ∷ 0x76 ∷ 0x77 ∷ 0x78 ∷ 0x79 ∷ 0x7a ∷ 0x30
    ∷ 0x31 ∷ 0x32 ∷ 0x33 ∷ 0x34 ∷ 0x35 ∷ 0x36 ∷ 0x37 ∷ 0x38 ∷ 0x39 ∷ 0x60 ∷ 0x2d ∷ 0x3d ∷ 0x5b
    ∷ 0x5d ∷ 0x5c ∷ 0x3b ∷ 0x30 ∷ 0x2c ∷ 0x2e ∷ 0x2f ∷ 0x20 ∷ []

abbrev pub shift_ascii : List ℕ
shift_ascii =
    0x41 ∷ 0x42 ∷ 0x43 ∷ 0x44 ∷ 0x45 ∷ 0x46 ∷ 0x47 ∷ 0x48 ∷ 0x49 ∷ 0x4a ∷ 0x4b ∷ 0x4c ∷ 0x4d ∷ 0x4e
    ∷ 0x4f ∷ 0x50 ∷ 0x51 ∷ 0x52 ∷ 0x53 ∷ 0x54 ∷ 0x55 ∷ 0x56 ∷ 0x57 ∷ 0x58 ∷ 0x59 ∷ 0x5a ∷ 0x29
    ∷ 0x21 ∷ 0x40 ∷ 0x23 ∷ 0x24 ∷ 0x25 ∷ 0x5e ∷ 0x26 ∷ 0x2a ∷ 0x28 ∷ 0x7e ∷ 0x5f ∷ 0x2b ∷ 0x7b
    ∷ 0x7d ∷ 0x7c ∷ 0x3a ∷ 0x22 ∷ 0x3c ∷ 0x3e ∷ 0x3f ∷ 0x20 ∷ []

abbrev pub caps_ascii : List ℕ
caps_ascii =
    0x41 ∷ 0x42 ∷ 0x43 ∷ 0x44 ∷ 0x45 ∷ 0x46 ∷ 0x47 ∷ 0x48 ∷ 0x49 ∷ 0x4a ∷ 0x4b ∷ 0x4c ∷ 0x4d ∷ 0x4e
    ∷ 0x4f ∷ 0x50 ∷ 0x51 ∷ 0x52 ∷ 0x53 ∷ 0x54 ∷ 0x55 ∷ 0x56 ∷ 0x57 ∷ 0x58 ∷ 0x59 ∷ 0x5a ∷ 0x30
    ∷ 0x31 ∷ 0x32 ∷ 0x33 ∷ 0x34 ∷ 0x35 ∷ 0x36 ∷ 0x37 ∷ 0x38 ∷ 0x39 ∷ 0x60 ∷ 0x2d ∷ 0x3d ∷ 0x5b
    ∷ 0x5d ∷ 0x5c ∷ 0x3b ∷ 0x30 ∷ 0x2c ∷ 0x2e ∷ 0x2f ∷ 0x20 ∷ []

abbrev pub key_in_array : List ℕ
key_in_array =
    0x1e ∷ 0x30 ∷ 0x2e ∷ 0x20 ∷ 0x12 ∷ 0x21 ∷ 0x22 ∷ 0x23 ∷ 0x17 ∷ 0x24 ∷ 0x25 ∷ 0x26 ∷ 0x32 ∷ 0x31
    ∷ 0x18 ∷ 0x19 ∷ 0x10 ∷ 0x13 ∷ 0x1f ∷ 0x14 ∷ 0x16 ∷ 0x2f ∷ 0x11 ∷ 0x2d ∷ 0x15 ∷ 0x2c ∷ 0x0b
    ∷ 0x02 ∷ 0x03 ∷ 0x04 ∷ 0x05 ∷ 0x06 ∷ 0x07 ∷ 0x08 ∷ 0x09 ∷ 0x0a ∷ 0x29 ∷ 0x0c ∷ 0x0d ∷ 0x1a
    ∷ 0x1b ∷ 0x2b ∷ 0x27 ∷ 0x28 ∷ 0x33 ∷ 0x34 ∷ 0x35 ∷ 0x39 ∷ []

-- `init_keyboard`
unfoldable pub init_keyboard : Pic → Keyboard → Pic × Keyboard
init_keyboard pic k = (enable_irq 1 pic, record k { buffer_index = minus_one })

-- `key_buffer[buffer_index] = ch; putc(key_buffer[buffer_index]);` at the index `i`, with `none` for
-- an index outside the buffer.
unfoldable pub store_at : ℤ → ℕ → Console → Option Console
store_at (negsuc n) ch s = none
store_at (pos n) ch s = require (ltb n 256) >>= λ _. some (record s {
  keys = record (s.keys) { key_buffer = set s.keys.key_buffer n ch; buffer_index = pos n };
  screen = putc ch s.screen;
})

-- The same behind `buffer_index++`.
unfoldable pub store_key : ℕ → Console → Option Console
unfolding store_at
store_key ch s = store_at (s.keys.buffer_index +ℤ pos 1) ch s

-- The search of `printToScreen`: the index of the scancode.
unfoldable pub find_key : ℤ → List ℕ → ℕ → Option ℕ
find_key key [] i = none
find_key key (k ∷ codes) i =
    let rest = find_key key codes (i + 1) in if eqb_ℤ key (pos k) then some i else rest

-- The table of the four branches on the flags.
unfoldable pub table_of_flags : Keyboard → List ℕ
table_of_flags k =
    if k.shift_flag && not k.capslock_flag
    then shift_ascii
    else if k.capslock_flag && not k.shift_flag
    then caps_ascii
    else ascii_val

-- `printToScreen`; the scancode is a `char`.
unfoldable pub print_to_screen : ℕ → Console → Option Console
unfolding find_key
print_to_screen key_in s =
    let key = signed8 key_in in
    if eqb_ℤ key (pos 0x0f)
    then (store_key 0x20 s >>= store_key 0x20 >>= store_key 0x20)
    else if eqb_ℤ key (pos 0x1c)
    then store_key 0x0a s
    else elim (find_key key key_in_array 0) [
      | none ↦ some s
      | some i ↦ get_elem? (table_of_flags s.keys) i >>= λ ch. store_key ch s
    ]

-- The flags of the first two tests of `keyboard_interrupt`.
abbrev pub set_enter : ℕ → Keyboard → Keyboard
set_enter key k =
    if key == 0x1c
    then record k { enter_flag = true }
    else if key == 0x9c
    then record k { enter_flag = false }
    else k

abbrev pub set_keys : (Keyboard → Keyboard) → Console → Option Swapped
set_keys f s = some (returns (pos 0) (record s { keys = f s.keys }))

-- The chain of `keyboard_interrupt` behind those tests. The result is `retval`, or a shell to start.
unfoldable pub dispatch_key : ℕ → Console → Option Swapped
dispatch_key key s =
    if key == 0x36 || key == 0x2a
    then set_keys (λ k. record k { shift_flag = true }) s
    else if key == 0xb6 || key == 0xaa
    then set_keys (λ k. record k { shift_flag = false }) s
    else if key == 0x1d
    then set_keys (λ k. record k { ctrl_flag = true }) s
    else if key == 0x9d
    then set_keys (λ k. record k { ctrl_flag = false }) s
    else if key == 0x3a
    then set_keys (λ k. record k { capslock_flag = not k.capslock_flag }) s
    else if key == 0x0e
    then (if ltb_ℤ s.keys.buffer_index (pos 0)
        then some (returns (pos 0) s)
        else some (
            returns (pos 0) (record s {
              screen = backspace s.screen;
              keys = record (s.keys) { buffer_index = s.keys.buffer_index -ℤ pos 1 };
            })))
    else if key == 0x38
    then set_keys (λ k. record k { alt_flag = true }) s
    else if key == 0xb8
    then set_keys (λ k. record k { alt_flag = false }) s
    else if s.keys.ctrl_flag && key == 0x26
    then some (returns (pos 0) (record s { screen = clear s.screen }))
    else if s.keys.alt_flag && key == 0x3b
    then terminal_swap (pos 0) s
    else if s.keys.alt_flag && key == 0x3c
    then terminal_swap (pos 1) s
    else if s.keys.alt_flag && key == 0x3d
    then terminal_swap (pos 2) s
    else (print_to_screen key s >>= λ s'. some (returns (pos 0) s'))

-- The message of `keyboard_interrupt`, `failure in swap \n`; `printf` of it is `puts`.
abbrev pub failure_text : List ℕ
failure_text =
    0x66 ∷ 0x61 ∷ 0x69 ∷ 0x6c ∷ 0x75 ∷ 0x72 ∷ 0x65 ∷ 0x20 ∷ 0x69 ∷ 0x6e ∷ 0x20 ∷ 0x73 ∷ 0x77 ∷ 0x61
    ∷ 0x70 ∷ 0x20 ∷ 0x0a ∷ 0 ∷ []

-- The end of `keyboard_interrupt`: what the chain has returned is printed if it is -1.
unfoldable pub report : Swapped → Option Swapped
report (starts_shell s) = some (starts_shell s)
report (returns ret s) =
    let printed = puts failure_text s.screen in
    if eqb_ℤ ret minus_one
    then (printed >>= λ r. some (returns ret (record s { screen = r.1 })))
    else some (returns ret s)

-- `keyboard_interrupt`; `key` is what port 0x60 answers.
unfoldable pub keyboard_interrupt : ℕ → Console → Option Swapped
keyboard_interrupt key s =
    let io = sti (send_eoi 1 (inb 0x60 (cli s.screen.io))) in
    dispatch_key key
      (record s { screen = record (s.screen) { io = io }; keys = set_enter key s.keys })
    >>= report
