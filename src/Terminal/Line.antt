-- ===== src/Terminal/Line.antt =====
-- Lines of text: what a read of the terminal gives, and what a write shows.
use my_linux_os.Common.{
  ℕ, zero, suc, ◌+◌, ◌^◌, ◌<◌, ◌≡◌, ◌≢◌, refl, ap, ◌∙◌, List, [], ◌∷◌, ◌++◌, some, false, ◌>>=◌,
  length, length-take, take, replicate, min, arith, All, ne→==,
}
use my_linux_os.Common.Int.{pos, minus_one}
use my_linux_os.Screen.{Screen, putc, puts}
use my_linux_os.Str.Length.{NoNul}
use my_linux_os.Terminal.{
  Keyboard, copy_line, read_line, read_bound, clear_keyboard_buffer, write_chars, terminal_write,
}

-- No byte of the text is a line feed.
abbrev pub OneLine : List ℕ → Type 0
OneLine = All (λ c. c ≢ 0x0a)

copy_line-take :
    (n : ℕ) (text rest : List ℕ)
    → OneLine text
    → copy_line n (text ++ 0x0a ∷ rest) ≡ some (take n text)
unfolding copy_line
copy_line-take zero text rest line = refl
copy_line-take (suc n) [] rest line = refl
copy_line-take (suc n) (c ∷ text) rest (plain, line) =
    rw (ne→== c 0x0a plain, copy_line-take n text rest line) refl

-- With a line in the key buffer, a read of `n` bytes, once enter has been pressed, stores the line, cut
-- at `n` bytes and at 128, with a line feed behind it, returns the number of bytes stored, which is
-- one more than the cut line has, and leaves the key buffer blank, with no enter pending.
pub read_line_lem :
    (n : ℕ) (text rest : List ℕ) (k : Keyboard)
    → n < 2 ^ 31
    → OneLine text
    → k.key_buffer ≡ text ++ 0x0a ∷ rest
    → read_line (pos n) k
      ≡ some (
        pos (min (min n 128) (length text) + 1),
        take (min n 128) text ++ 0x0a ∷ [],
        record k { key_buffer = replicate 256 0; buffer_index = minus_one; enter_flag = false },
      )
unfolding read_line clear_keyboard_buffer
read_line_lem n text rest k small line is =
    let bound : read_bound (pos n) ≡ min n 128 = ground arith in
    let copied : copy_line (min n 128) k.key_buffer ≡ some (take (min n 128) text) =
      ap (copy_line (min n 128)) is ∙ copy_line-take (min n 128) text rest line in
    rw (bound, copied, ◌>>=◌, length-take (min n 128) text) refl

-- `puts` of a string and `terminal_write` of the same characters, as many bytes as the string has,
-- both succeed and leave the same screen; `puts` returns the length of the string and
-- `terminal_write` returns 0.
pub puts-terminal_write :
    (text rest more : List ℕ) (s : Screen)
    → NoNul text
    → (s' : Screen) × (puts (text ++ 0 ∷ rest) s ≡ some (length text, s'))
      × (terminal_write (some (text ++ more)) (pos (length text)) s ≡ some (pos 0, s'))
unfolding puts terminal_write write_chars
puts-terminal_write [] rest more s plain = (s, refl, refl)
puts-terminal_write (c ∷ text) rest more s (plain, nonul) =
    let (s', shown, written) = puts-terminal_write text rest more (putc c s) nonul in
    (
      s',
      rw (ne→== c 0 plain, shown, ◌>>=◌) (ap (λ n. some (n, s')) (omega arith)),
      rw (ne→== c 0 plain) written,
    )
