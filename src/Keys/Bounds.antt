-- ===== src/Keys/Bounds.antt =====
-- The index of the line buffer, over single keyboard interrupts.
use my_linux_os.Common.{
  ℕ, zero, suc, ◌+◌, ◌≤◌, ◌<◌, ◌≡◌, refl, ◌∙◌, List, [], ◌∷◌, Option, some, Bool, true, false, ◌&&◌,
  ◌||◌, not, ◌==◌, if◌then◌else◌, ◌>>=◌, get_elem?_in_range, length, length-set, set, arith,
  Bool-cases, Option-cases, lt→ltb, inl, inr,
}
use my_linux_os.Common.Int.{ℤ, pos, negsuc, ◌+ℤ◌, ◌-ℤ◌, ltb_ℤ, eqb_ℤ, signed8, add_pos}
use my_linux_os.Screen.{putc, clear, backspace}
use my_linux_os.Terminal.{Console, Keyboard, Swapped, returns}
use my_linux_os.Io.{cli, sti, inb}
use my_linux_os.Pic.{send_eoi}
use my_linux_os.Keys.{
  store_at, store_key, find_key, key_in_array, table_of_flags, shift_ascii, caps_ascii, ascii_val,
  print_to_screen, set_enter, dispatch_key, report, keyboard_interrupt,
}

-- The line buffer has its 256 bytes, and the first `c` of them are in use.
pub record Counts (c : ℕ) (k : Keyboard) : Type 0 where
  pub count : k.buffer_index +ℤ pos 1 ≡ pos c
  pub size : length k.key_buffer ≡ 256

-- A result with at most `limit` bytes in use.
abbrev pub HoldsAtMost : ℕ → Option Console → Type 0
HoldsAtMost limit r = (c : ℕ) × (s : Console) × (r ≡ some s) × Counts c s.keys × (c ≤ limit)

abbrev pub ReturnsAtMost : ℕ → Option Swapped → Type 0
ReturnsAtMost limit r =
    (c : ℕ) × (s : Console) × (r ≡ some (returns (pos 0) s)) × Counts c s.keys × (c ≤ limit)

store_key-Counts :
    (ch c : ℕ) (s : Console)
    → Counts c s.keys
    → c < 256
    → (s' : Console) × (store_key ch s ≡ some s') × Counts (c + 1) s'.keys
unfolding store_key store_at
store_key-Counts ch c s h room = (
  record s {
    keys = record (s.keys) { key_buffer = set s.keys.key_buffer c ch; buffer_index = pos c };
    screen = putc ch s.screen;
  },
  rw (h.count, lt→ltb c 256 room) refl,
  record { count = add_pos c 1; size = length-set s.keys.key_buffer c ch ∙ h.size },
)

store_key-once :
    (ch c limit : ℕ) (s : Console)
    → Counts c s.keys
    → c < 256
    → c < limit
    → HoldsAtMost limit (store_key ch s)
store_key-once ch c limit s h room low =
    let (s', is, at) = store_key-Counts ch c s h room in (c + 1, s', is, at, omega arith)

found_within :
    (key : ℤ) (codes : List ℕ) (n i : ℕ) → find_key key codes n ≡ some i → i < n + length codes
unfolding find_key
found_within key [] n i h = absurd (ground (arith, h))
found_within key (k ∷ codes) n i h = elim (Bool-cases (eqb_ℤ key (pos k))) [
  | inl e ↦ at_head (rw e at h)
  | inr e ↦ omega (arith, found_within key codes (n + 1) i (rw e at h))
]
  where
    at_head : some n ≡ some i → i < n + suc (length codes)
    at_head same = ground (arith, same)

if_keeps {ℓ} :
    {A : Type ℓ} (P : A → Type 0) (b : Bool) (x y : A) → P x → P y → P (if b then x else y)
if_keeps P true x y p q = p
if_keeps P false x y p q = q

if_off {ℓ} :
    {A : Type ℓ} (P : A → Type 0) (a b : Bool) (x y : A)
    → a ≡ false
    → P y
    → P (if a && b then x else y)
if_off P true b x y off q = absurd (ground (arith, off))
if_off P false b x y off q = q

table_size : (k : Keyboard) → length (table_of_flags k) ≡ 48
unfolding table_of_flags
table_size k =
    if_keeps (λ (t : List ℕ). length t ≡ 48) (k.shift_flag && not k.capslock_flag) shift_ascii _
      refl
      (if_keeps (λ (t : List ℕ). length t ≡ 48) (k.capslock_flag && not k.shift_flag) caps_ascii
        ascii_val refl refl)

store_three :
    (ch c : ℕ) (s : Console)
    → Counts c s.keys
    → c ≤ 253
    → HoldsAtMost (c + 3) (store_key ch s >>= store_key ch >>= store_key ch)
store_three ch c s h room =
    let (s1, is1, h1) = store_key-Counts ch c s h (omega arith) in
    let (s2, is2, h2) = store_key-Counts ch (c + 1) s1 h1 (omega arith) in
    let (s3, is3, h3) = store_key-Counts ch (c + 1 + 1) s2 h2 (omega arith) in
    (c + 1 + 1 + 1, s3, rw (is1, ◌>>=◌, is2, ◌>>=◌) is3, h3, omega arith)

print_to_screen-HoldsAtMost :
    (key c : ℕ) (s : Console)
    → Counts c s.keys
    → c ≤ 253
    → HoldsAtMost (c + 3) (print_to_screen key s)
unfolding print_to_screen
print_to_screen-HoldsAtMost key c s h room =
    if_keeps (HoldsAtMost (c + 3)) (eqb_ℤ (signed8 key) (pos 0x0f)) _ _
      (store_three 0x20 c s h room)
      (if_keeps (HoldsAtMost (c + 3)) (eqb_ℤ (signed8 key) (pos 0x1c)) _ _
        (store_key-once 0x0a c (c + 3) s h (omega arith) (omega arith))
        (elim (Option-cases (find_key (signed8 key) key_in_array 0)) [
          | inl missing ↦ rw missing (c, s, refl, h, omega arith)
          | inr (i, found) ↦
              let (ch, is) = get_elem?_in_range (table_of_flags s.keys) i (
                omega
                  (arith, table_size s.keys, found_within (signed8 key) key_in_array 0 i found)) in
              rw (found, is, ◌>>=◌) (store_key-once ch c (c + 3) s h (omega arith) (omega arith))
        ]))

back_index :
    (z : ℤ) (c : ℕ)
    → z +ℤ pos 1 ≡ pos c
    → ltb_ℤ z (pos 0) ≡ false
    → (c' : ℕ) × (z -ℤ pos 1 +ℤ pos 1 ≡ pos c') × (c' ≤ c)
back_index (pos zero) c h e = (0, refl, omega arith)
back_index (pos (suc n)) c h e =
    let down : pos (suc n) -ℤ pos 1 ≡ pos n = ground arith in
    (n + 1, rw down (add_pos n 1), ground (arith, h))
back_index (negsuc n) c h e = absurd (ground (arith, e))

-- The flags that are set, and the others that change neither the buffer nor its index.
unchanged :
    (f : Keyboard → Keyboard) (c limit : ℕ) (s : Console)
    → Counts c (f s.keys)
    → c ≤ limit
    → ReturnsAtMost limit (some (returns (pos 0) (record s { keys = f s.keys })))
unchanged f c limit s h low = (c, record s { keys = f s.keys }, refl, h, low)

erased :
    (c limit : ℕ) (s : Console)
    → Counts c s.keys
    → c ≤ limit
    → ReturnsAtMost limit (
        if ltb_ℤ s.keys.buffer_index (pos 0)
        then some (returns (pos 0) s)
        else some (
            returns (pos 0) (record s {
              screen = backspace s.screen;
              keys = record (s.keys) { buffer_index = s.keys.buffer_index -ℤ pos 1 };
            })))
erased c limit s h low = elim (Bool-cases (ltb_ℤ s.keys.buffer_index (pos 0))) [
  | inl e ↦ rw e (c, s, refl, h, low)
  | inr e ↦
      let (c', is, less) = back_index s.keys.buffer_index c h.count e in
      rw e (
        c',
        record s {
          screen = backspace s.screen;
          keys = record (s.keys) { buffer_index = s.keys.buffer_index -ℤ pos 1 };
        },
        refl,
        record { count = is; size = h.size },
        omega arith,
      )
]

dispatch_key-ReturnsAtMost :
    (key c : ℕ) (s : Console)
    → s.keys.alt_flag ≡ false
    → Counts c s.keys
    → c ≤ 253
    → ReturnsAtMost (c + 3) (dispatch_key key s)
unfolding dispatch_key
dispatch_key-ReturnsAtMost key c s alt h room =
    let P = ReturnsAtMost (c + 3) in
    let low : c ≤ c + 3 = omega arith in
    let (c', s', is, at, least) = print_to_screen-HoldsAtMost key c s h room in
    if_keeps P (key == 0x36 || key == 0x2a) _ _
      (unchanged (λ k. record k { shift_flag = true }) c (c + 3) s
        (record { count = h.count; size = h.size }) low)
      (if_keeps P (key == 0xb6 || key == 0xaa) _ _
        (unchanged (λ k. record k { shift_flag = false }) c (c + 3) s
          (record { count = h.count; size = h.size }) low)
        (if_keeps P (key == 0x1d) _ _
          (unchanged (λ k. record k { ctrl_flag = true }) c (c + 3) s
            (record { count = h.count; size = h.size }) low)
          (if_keeps P (key == 0x9d) _ _
            (unchanged (λ k. record k { ctrl_flag = false }) c (c + 3) s
              (record { count = h.count; size = h.size }) low)
            (if_keeps P (key == 0x3a) _ _
              (unchanged (λ k. record k { capslock_flag = not k.capslock_flag }) c (c + 3) s
                (record { count = h.count; size = h.size }) low)
              (if_keeps P (key == 0x0e) _ _ (erased c (c + 3) s h low) (
                if_keeps P (key == 0x38) _ _
                  (unchanged (λ k. record k { alt_flag = true }) c (c + 3) s
                    (record { count = h.count; size = h.size }) low)
                  (if_keeps P (key == 0xb8) _ _
                    (unchanged (λ k. record k { alt_flag = false }) c (c + 3) s
                      (record { count = h.count; size = h.size }) low)
                    (if_keeps P (s.keys.ctrl_flag && key == 0x26) _ _
                      (c, record s { screen = clear s.screen }, refl, h, low)
                      (if_off P s.keys.alt_flag (key == 0x3b) _ _ alt (
                        if_off P s.keys.alt_flag (key == 0x3c) _ _ alt (
                          if_off P s.keys.alt_flag (key == 0x3d) _ _ alt
                            (c', s', rw (is, ◌>>=◌) refl, at, least))))))))))))

set_enter-Counts :
    (key c : ℕ) (k : Keyboard)
    → Counts c k
    → Counts c (set_enter key k) × ((set_enter key k).alt_flag ≡ k.alt_flag)
set_enter-Counts key c k h = elim (Bool-cases (key == 0x1c)) [
  | inl e ↦ rw e (record { count = h.count; size = h.size }, refl)
  | inr e ↦ elim (Bool-cases (key == 0x9c)) [
    | inl f ↦ rw (e, f) (record { count = h.count; size = h.size }, refl)
    | inr f ↦ rw (e, f) (h, refl)
  ]
]

-- With at most 253 of the 256 bytes of the line buffer in use, and the alt key not held, no keyboard
-- interrupt stores outside of the buffer: it returns 0, the buffer keeps its size, and at most three
-- bytes more are in use.
pub keyboard_interrupt-ReturnsAtMost :
    (key c : ℕ) (s : Console)
    → s.keys.alt_flag ≡ false
    → Counts c s.keys
    → c ≤ 253
    → ReturnsAtMost (c + 3) (keyboard_interrupt key s)
unfolding keyboard_interrupt report
keyboard_interrupt-ReturnsAtMost key c s alt h room =
    let (h', same) = set_enter-Counts key c s.keys h in
    let io = sti (send_eoi 1 (inb 0x60 (cli s.screen.io))) in
    let s1 : Console = record s {
      screen = record (s.screen) { io = io };
      keys = set_enter key s.keys;
    } in
    let (c', s', is, at, low) = dispatch_key-ReturnsAtMost key c s1 (same ∙ alt) h' room in
    (c', s', rw (is, ◌>>=◌) refl, at, low)
