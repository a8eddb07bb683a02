-- ===== src/Input/Typing.antt =====
-- A word that is typed during `terminal_read`.
use my_linux_os.Common.{
  ℕ, suc, ◌+◌, ◌<◌, ◌^◌, ◌≡◌, ◌≢◌, refl, sym, ap, ◌∙◌, List, [], ◌∷◌, ◌++◌, Option, none, some,
  Bool, true, false, if◌then◌else◌, ◌>>=◌, get_elem?, set, length, length-append, take, map,
  replicate, min, arith,
}
use mathlib.Core.List.{append_assoc, append-nil}
use my_linux_os.Common.Int.{pos, add_pos, minus_one, ◌+ℤ◌}
use my_linux_os.Io.{sti}
use my_linux_os.Terminal.{Console, Keyboard, returns}
use my_linux_os.Terminal.Line.{OneLine, read_line_lem}
use my_linux_os.Keys.{key_in_array}
use my_linux_os.Keys.Letters.{letter}
use my_linux_os.Input.{wait_enter, line, terminal_read}
use my_linux_os.Input.Interrupts.{
  after_key, keyboard_interrupt-letter, keyboard_interrupt-enter, wait_enter-done, wait_enter-key,
  wait_enter-idle,
}

-- The scancodes of letters of the alphabet.
abbrev pub Codes : List ℕ → List ℕ → Type 0
Codes [] [] = Unit
Codes (i ∷ is) (key ∷ keys) = (i < 26) × (get_elem? key_in_array i ≡ some key) × Codes is keys
Codes [] (key ∷ keys) = ⊥
Codes (i ∷ is) [] = ⊥

-- The interrupts of typing: the keys, with any number of idle turns in front of each.
pub data Typed : List ℕ → List (Option ℕ) → Type 0 where
  enter : (more : List (Option ℕ)) → Typed [] (some 0x1c ∷ more)
  pause : (keys : List ℕ) (turns : List (Option ℕ)) → Typed keys turns → Typed keys (none ∷ turns)
  press :
      (k : ℕ) (keys : List ℕ) (turns : List (Option ℕ))
      → Typed keys turns
      → Typed (k ∷ keys) (some k ∷ turns)

set-append :
    (text rest : List ℕ) (b v : ℕ)
    → set (text ++ b ∷ rest) (length text) v ≡ (text ++ v ∷ []) ++ rest
set-append [] rest b v = refl
set-append (c ∷ text) rest b v = ap (◌∷◌ c) (set-append text rest b v)

-- The console when the keyboard has put `text` in its buffer and the wait goes on.
record Holds (text rest : List ℕ) (c : Console) : Type 0 where
  waiting : c.keys.enter_flag ≡ false
  ctrl : c.keys.ctrl_flag ≡ false
  alt : c.keys.alt_flag ≡ false
  place : c.keys.buffer_index +ℤ pos 1 ≡ pos (length text)
  buffer : c.keys.key_buffer ≡ text ++ rest
  room : length text + length rest ≡ 256

-- The wait, to its end.
wait_enter-Typed :
    (is keys : List ℕ) (turns : List (Option ℕ)) (text rest : List ℕ) (c : Console)
    → Typed keys turns
    → Codes is keys
    → Holds text rest c
    → length is < length rest
    → (c' : Console) × (more : List ℕ) × (wait_enter turns c ≡ some (returns (pos 0) c'))
      × (c'.keys.key_buffer ≡ (text ++ map (letter c.keys) is) ++ 0x0a ∷ more)
wait_enter-Typed (i ∷ is) _ _ text rest c (enter more) codes h fits = elim codes [ ]
wait_enter-Typed [] _ _ text [] c (enter more) codes h fits = absurd (omega arith)
wait_enter-Typed [] _ _ text (b ∷ rest) c (enter more) codes h fits =
    let n : ℕ = length text in
    let c1 = after_key 0x0a n (record c { keys = record (c.keys) { enter_flag = true } }) in
    (
      c1,
      rest,
      wait_enter-key 0x1c more c c1 h.waiting
            (keyboard_interrupt-enter n c h.place (omega (arith, h.room)))
          ∙ wait_enter-done more c1 refl,
      ap (λ buf. set buf n 0x0a) h.buffer
          ∙ set-append text rest b 0x0a
          ∙ append_assoc text (0x0a ∷ []) rest
          ∙ ap (λ t. t ++ 0x0a ∷ rest) (sym (append-nil text)),
    )
wait_enter-Typed is keys _ text rest c (pause _ turns t) codes h fits =
    let (c', more, run, is') = wait_enter-Typed is keys turns text rest c t codes h fits in
    (c', more, wait_enter-idle turns c h.waiting ∙ run, is')
wait_enter-Typed [] _ _ text rest c (press k keys turns t) codes h fits = elim codes [ ]
wait_enter-Typed (i ∷ is) _ _ text [] c (press k keys turns t) codes h fits = absurd (omega arith)
wait_enter-Typed (i ∷ is) _ _ text (b ∷ rest) c (press k keys turns t) (small, at, codes) h fits =
    let n : ℕ = length text in
    let ch : ℕ = letter c.keys i in
    let c1 = after_key ch n c in
    let next : Holds (text ++ ch ∷ []) rest c1 = record {
      waiting = h.waiting;
      ctrl = h.ctrl;
      alt = h.alt;
      place = add_pos n 1 ∙ ap pos (sym (length-append text (ch ∷ [])));
      buffer = ap (λ buf. set buf n ch) h.buffer ∙ set-append text rest b ch;
      room = omega (arith, h.room, length-append text (ch ∷ []));
    } in
    let (c', more, run, is') =
      wait_enter-Typed is keys turns (text ++ ch ∷ []) rest c1 t codes next (omega arith) in
    (
      c',
      more,
      wait_enter-key k turns c c1 h.waiting (
            keyboard_interrupt-letter i k n c small at h.ctrl h.alt h.place (omega (arith, h.room)))
          ∙ run,
      is' ∙ ap (λ t. t ++ 0x0a ∷ more) (append_assoc text (ch ∷ []) (map (letter c.keys) is)),
    )

letter-no_feed : (k : Keyboard) (i : ℕ) → letter k i ≢ 0x0a
letter-no_feed k i = by_flags k.shift_flag k.capslock_flag
  where
    by_flags :
        (shift caps : Bool)
        → (if shift
            then (if caps then 0x61 + i else 0x41 + i)
            else (if caps then 0x41 + i else 0x61 + i))
          ≢ 0x0a
    by_flags true true e = omega arith
    by_flags true false e = omega arith
    by_flags false true e = omega arith
    by_flags false false e = omega arith

letters-OneLine : (k : Keyboard) (is : List ℕ) → OneLine (map (letter k) is)
letters-OneLine k [] = tt
letters-OneLine k (i ∷ is) = (letter-no_feed k i, letters-OneLine k is)

pub length-map_letters : (k : Keyboard) (is : List ℕ) → length (map (letter k) is) ≡ length is
length-map_letters k [] = refl
length-map_letters k (i ∷ is) = ap suc (length-map_letters k is)

-- No key is pending and none is held down, but for the shift.
pub record Quiet (k : Keyboard) : Type 0 where
  pub waiting : k.enter_flag ≡ false
  pub ctrl : k.ctrl_flag ≡ false
  pub alt : k.alt_flag ≡ false
  pub start : k.buffer_index ≡ minus_one
  pub size : length k.key_buffer ≡ 256

-- `terminal_read` of `n` bytes, `n` below 2^31, at the start of a line, with the keys for control
-- and alt up, while fewer than 256 keys of letters come in and then enter, with any number of turns
-- of the wait between them: it returns. It stores the letters, cut at `n` and at 128, and a line
-- feed behind them, and returns how many bytes these are; a letter is a capital if exactly one of
-- shift and caps lock is on. The next line starts with a blank buffer and no enter pending.
pub terminal_read-Typed :
    (n : ℕ) (is keys : List ℕ) (turns : List (Option ℕ)) (c : Console)
    → n < 2 ^ 31
    → Typed keys turns
    → Codes is keys
    → Quiet c.keys
    → length is < 256
    → (c' : Console) × (terminal_read turns (pos n) c
        ≡ some (
            line
              (pos (min (min n 128) (length is) + 1))
              (take (min n 128) (map (letter c.keys) is) ++ 0x0a ∷ [])
              c'))
      × (c'.keys.key_buffer ≡ replicate 256 0)
      × (c'.keys.buffer_index ≡ minus_one)
      × (c'.keys.enter_flag ≡ false)
unfolding terminal_read
terminal_read-Typed n is keys turns c small typed codes quiet fits =
    let c0 = record c { screen = record (c.screen) { io = sti c.screen.io } } in
    let start : Holds [] c.keys.key_buffer c0 = record {
      waiting = quiet.waiting;
      ctrl = quiet.ctrl;
      alt = quiet.alt;
      place = ap (λ z. z +ℤ pos 1) quiet.start;
      buffer = refl;
      room = omega (arith, quiet.size);
    } in
    let text : List ℕ = map (letter c.keys) is in
    let (c', more, run, buffer) =
      wait_enter-Typed is keys turns [] c.keys.key_buffer c0 typed codes start
        (omega (arith, quiet.size)) in
    (
      record c' {
        keys = record (c'.keys) {
          key_buffer = replicate 256 0;
          buffer_index = minus_one;
          enter_flag = false;
        };
      },
      rw
          (
            run,
            ◌>>=◌,
            read_line_lem n text more c'.keys small (letters-OneLine c.keys is) buffer,
            ◌>>=◌,
            length-map_letters c.keys is,
          )
          refl,
      refl,
      refl,
      refl,
    )
