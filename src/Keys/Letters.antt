-- ===== src/Keys/Letters.antt =====
-- Typing a letter.
use my_linux_os.Programs.Text.{chars}
use my_linux_os.Common.{
  List, ltb, leb, ◌||◌, ◌≢◌, ◌-◌, ◌++◌, replicate, get_elem?_bound, both, ℕ, ◌+◌, ◌≡◌, ◌<◌, refl,
  ap, ◌∙◌, Option, none, some, Bool, true, false, ◌&&◌, not, ◌==◌, lt→ltb, if◌then◌else◌, ◌>>=◌,
  get_elem?, set, arith,
}
use my_linux_os.Common.Int.{pos, eqb_ℤ, ◌+ℤ◌, signed8}
use my_linux_os.Common.Table.{holds_below, below_holds}
use my_linux_os.Screen.{putc}
use my_linux_os.Terminal.{Console, Keyboard}
use my_linux_os.Keys.{
  ascii_val, shift_ascii, caps_ascii, key_in_array, find_key, table_of_flags, store_key, store_at,
  print_to_screen,
}

-- Letter `i` of the alphabet: a capital if one of shift and caps lock is on, and not both.
abbrev pub letter : Keyboard → ℕ → ℕ
letter k i =
    if k.shift_flag
    then (if k.capslock_flag then 0x61 + i else 0x41 + i)
    else (if k.capslock_flag then 0x41 + i else 0x61 + i)

abbrev holds_number : Option ℕ → ℕ → Bool
holds_number none n = false
holds_number (some j) n = j == n

holds_number-some : (o : Option ℕ) (n : ℕ) → holds_number o n ≡ true → o ≡ some n
holds_number-some none n h = ground arith
holds_number-some (some j) n h = ground arith

-- The scancode of letter `i` is found at `i`, and it is neither tab nor enter.
unfoldable code_ok : ℕ → Bool
unfolding find_key
code_ok i = elim (get_elem? key_in_array i) [
  | none ↦ false
  | some key ↦
      holds_number (find_key (signed8 key) key_in_array 0) i
      && (not (eqb_ℤ (signed8 key) (pos 0x0f)) && not (eqb_ℤ (signed8 key) (pos 0x1c)))
]

codes : holds_below 26 code_ok ≡ true
unfolding holds_below code_ok
codes = refl

lower : ℕ → Bool
lower i = holds_number (get_elem? ascii_val i) (0x61 + i)

upper : ℕ → Bool
upper i =
    holds_number (get_elem? shift_ascii i) (0x41 + i)
    && holds_number (get_elem? caps_ascii i) (0x41 + i)

lowers : holds_below 26 lower ≡ true
unfolding holds_below lower
lowers = refl

uppers : holds_below 26 upper ≡ true
unfolding holds_below upper
uppers = refl

refuted : (a : Bool) → not a ≡ true → a ≡ false
refuted true h = ground arith
refuted false h = refl

code_is :
    (i key : ℕ)
    → i < 26
    → get_elem? key_in_array i ≡ some key
    → (find_key (signed8 key) key_in_array 0 ≡ some i)
      × (eqb_ℤ (signed8 key) (pos 0x0f) ≡ false)
      × (eqb_ℤ (signed8 key) (pos 0x1c) ≡ false)
unfolding code_ok
code_is i key h at =
    let ok : code_ok i ≡ true = below_holds 26 code_ok i codes h in
    let (found, rest) = both _ _ (rw at at ok) in
    let (tab, enter) = both _ _ rest in
    (
      holds_number-some (find_key (signed8 key) key_in_array 0) i found,
      refuted _ tab,
      refuted _ enter,
    )

char_is : (k : Keyboard) (i : ℕ) → i < 26 → get_elem? (table_of_flags k) i ≡ some (letter k i)
unfolding table_of_flags lower upper
char_is k i h = by_flags k.shift_flag k.capslock_flag
  where
    low : get_elem? ascii_val i ≡ some (0x61 + i)
    low = holds_number-some (get_elem? ascii_val i) (0x61 + i) (below_holds 26 lower i lowers h)

    high : (get_elem? shift_ascii i ≡ some (0x41 + i)) × (get_elem? caps_ascii i ≡ some (0x41 + i))
    high =
        let (a, b) =
          both (holds_number (get_elem? shift_ascii i) (0x41 + i))
            (holds_number (get_elem? caps_ascii i) (0x41 + i)) (below_holds 26 upper i uppers h) in
        (
          holds_number-some (get_elem? shift_ascii i) (0x41 + i) a,
          holds_number-some (get_elem? caps_ascii i) (0x41 + i) b,
        )

    by_flags :
        (shift caps : Bool)
        → get_elem?
            (if shift && not caps
              then shift_ascii
              else if caps && not shift
              then caps_ascii
              else ascii_val)
            i
          ≡ some (
              if shift
              then (if caps then 0x61 + i else 0x41 + i)
              else (if caps then 0x41 + i else 0x61 + i))
    by_flags true true = low
    by_flags true false = high.0
    by_flags false true = high.1
    by_flags false false = low

pub store_key-next :
    (ch n : ℕ) (s : Console)
    → s.keys.buffer_index +ℤ pos 1 ≡ pos n
    → n < 256
    → store_key ch s
      ≡ some (record s {
        keys = record (s.keys) { key_buffer = set s.keys.key_buffer n ch; buffer_index = pos n };
        screen = putc ch s.screen;
      })
unfolding store_key store_at
store_key-next ch n s next small = ap (λ z. store_at z ch s) next ∙ rw (lt→ltb n 256 small) refl

-- The same by the number of the letter in the code's table of scancodes.
pub print_to_screen-found :
    (i key n : ℕ) (s : Console)
    → i < 26
    → get_elem? key_in_array i ≡ some key
    → s.keys.buffer_index +ℤ pos 1 ≡ pos n
    → n < 256
    → print_to_screen key s
      ≡ some (record s {
        keys = record (s.keys) {
          key_buffer = set s.keys.key_buffer n (letter s.keys i);
          buffer_index = pos n;
        };
        screen = putc (letter s.keys i) s.screen;
      })
unfolding print_to_screen
print_to_screen-found i key n s h at next small =
    let (found, tab, enter) = code_is i key h at in
    rw (tab, enter, found, char_is s.keys i h, ◌>>=◌)
      (store_key-next (letter s.keys i) n s next small)

-- The letters of a keyboard in the order of the scancodes: the row from `q` starts at 16, the one from
-- `a` at 30 and the one from `z` at 44. A 0 is a key without a letter.
abbrev pub layout : List ℕ
layout =
    replicate 16 0
    ++ (chars "qwertyuiop"
        ++ (replicate 4 0 ++ (chars "asdfghjkl" ++ (replicate 5 0 ++ chars "zxcvbnm"))))

abbrev pub on_key : ℕ → Option ℕ
on_key key = get_elem? layout key

-- The letter as it is typed: a capital if one of shift and caps lock is on, and not both.
abbrev pub cased : Keyboard → ℕ → ℕ
cased k c =
    if k.shift_flag
    then (if k.capslock_flag then c else c - 0x20)
    else (if k.capslock_flag then c - 0x20 else c)

-- The table of scancodes has the key at the place of its letter in the alphabet.
unfoldable key_ok : ℕ → Bool
key_ok key = elim (on_key key) [
  | none ↦ false
  | some c ↦
      c == 0 || (leb 0x61 c && (ltb c 0x7b && holds_number (get_elem? key_in_array (c - 0x61)) key))
]

key_table : holds_below 51 key_ok ≡ true
unfolding holds_below key_ok
key_table = refl

on_key-bound : (key c : ℕ) → on_key key ≡ some c → key < 51
on_key-bound key c at = get_elem?_bound layout key c at

cased-letter : (k : Keyboard) (i c : ℕ) → c ≡ 0x61 + i → letter k i ≡ cased k c
cased-letter k i c h = ground (arith, h)

key_is :
    (key c : ℕ)
    → on_key key ≡ some c
    → c ≢ 0
    → (i : ℕ) × (i < 26) × (c ≡ 0x61 + i) × (get_elem? key_in_array i ≡ some key)
unfolding key_ok
key_is key c at some_letter =
    let ok : key_ok key ≡ true = below_holds 51 key_ok key key_table (on_key-bound key c at) in
    let here : (leb 0x61 c && (ltb c 0x7b && holds_number (get_elem? key_in_array (c - 0x61)) key))
        ≡ true =
      ground (arith, rw at at ok) in
    let place : Bool = holds_number (get_elem? key_in_array (c - 0x61)) key in
    let (low, rest) = both (leb 0x61 c) (ltb c 0x7b && place) here in
    let (high, found) = both (ltb c 0x7b) place rest in
    (
      c - 0x61,
      ground (arith, low, high),
      ground (arith, low),
      holds_number-some (get_elem? key_in_array (c - 0x61)) key found,
    )

-- With the next place of the line buffer inside its 256 bytes, the key of a letter, by its place in the
-- three rows of the keyboard, puts the letter there, moves the index to it and prints it with
-- `putc`: a capital if exactly one of shift and caps lock is on, a small letter otherwise.
pub print_to_screen-letter :
    (key c n : ℕ) (s : Console)
    → on_key key ≡ some c
    → c ≢ 0
    → s.keys.buffer_index +ℤ pos 1 ≡ pos n
    → n < 256
    → print_to_screen key s
      ≡ some (record s {
        keys = record (s.keys) {
          key_buffer = set s.keys.key_buffer n (cased s.keys c);
          buffer_index = pos n;
        };
        screen = putc (cased s.keys c) s.screen;
      })
print_to_screen-letter key c n s on some_letter next small =
    let (i, h, is, at) = key_is key c on some_letter in
    print_to_screen-found i key n s h at next small
    ∙ ap
        (λ (ch : ℕ). some (record s {
          keys = record (s.keys) { key_buffer = set s.keys.key_buffer n ch; buffer_index = pos n };
          screen = putc ch s.screen;
        }))
        (cased-letter s.keys i c is)
