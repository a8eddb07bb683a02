-- ===== src/Printf.antt =====
-- `printf` of student-distrib/lib.c.
pub mod Pieces
pub mod Numbers
pub mod Shown
mod Tests
use my_linux_os.Common.{
  ℕ, ◌-◌, ◌^◌, ◌+◌, ◌%◌, List, [], ◌∷◌, ◌++◌, Option, none, some, Bool, true, false, ◌==◌, ◌||◌,
  ltb, if◌then◌else◌, ◌>>=◌, drop, take, replicate,
}
use my_linux_os.Str.{strlen, itoa}
use my_linux_os.Screen.{Screen, putc, puts}

-- An argument on the stack: the 32 bits of a number, or a pointer, given as the buffer it leads to.
pub data Arg : Type 0 where
  word : ℕ → Arg
  string : List ℕ → Arg

-- The next argument; `none` is an argument that is missing or of the other kind.
abbrev pub next_word : List Arg → Option (ℕ × List Arg)
next_word (word v ∷ args) = some (v, args)
next_word (string s ∷ args) = none
next_word [] = none

abbrev pub next_string : List Arg → Option (List ℕ × List Arg)
next_string (string s ∷ args) = some (s, args)
next_string (word v ∷ args) = none
next_string [] = none

-- The text of `%#x`: the digits are put at place 8 of `conv_buf`, and zeros from the place that is
-- their number up to there.
unfoldable pub padded_hex : List ℕ → ℕ → Option (List ℕ)
padded_hex conv_buf v = itoa v (drop 8 conv_buf) 16 >>= λ digits.
    strlen digits >>= λ n. some (replicate (8 - n) 0x30 ++ drop (n - 8) digits)

-- The text of `%d`
unfoldable pub signed_text : List ℕ → ℕ → Option (List ℕ)
signed_text [] v = none
signed_text (b ∷ conv_buf) v =
    if ltb v (2 ^ 31)
    then itoa v (b ∷ conv_buf) 10
    else (itoa (2 ^ 32 - v) conv_buf 10 >>= λ digits. some (0x2d ∷ digits))

-- The text of a number by its conversion character, in a buffer with the bytes `stack`.
unfoldable pub number_text : List ℕ → (alternate : Bool) → ℕ → ℕ → Option (List ℕ)
unfolding padded_hex signed_text
number_text stack alternate c v =
    if c == 0x78
    then if alternate then padded_hex (take 64 stack) v else itoa v (take 64 stack) 16
    else if c == 0x75
    then itoa v (take 36 stack) 10
    else signed_text (take 36 stack) v

-- One conversion: the arguments that are left, and the screen.
unfoldable pub convert : List ℕ → Bool → ℕ → List Arg → Screen → Option (List Arg × Screen)
unfolding number_text
convert stack alternate c args s =
    if c == 0x25
    then some (args, putc 0x25 s)
    else if c == 0x78 || (c == 0x75 || c == 0x64)
    then (next_word args >>= λ a.
        number_text stack alternate c a.0 >>= λ text. puts text s >>= λ shown. some (a.1, shown.1))
    else if c == 0x63
    then (next_word args >>= λ a. some (a.1, putc (a.0 % 256) s))
    else if c == 0x73
    then (next_string args >>= λ a. puts a.0 s >>= λ shown. some (a.1, shown.1))
    else some (args, s)

-- Where the scan of the format is: outside of a conversion, or behind its `%`.
pub data Mode : Type 0 where
  plain : Mode
  conversion : (alternate : Bool) → Mode

-- One character of the format, not its end.
unfoldable pub print_step :
    List ℕ → Mode → ℕ → List Arg → Screen → Option (Mode × List Arg × Screen)
unfolding convert
print_step stack plain c args s =
    if c == 0x25 then some (conversion false, args, s) else some (plain, args, putc c s)
print_step stack (conversion alternate) c args s =
    if c == 0x23
    then some (conversion true, args, s)
    else (convert stack alternate c args s >>= λ r. some (plain, r.0, r.1))

abbrev pub at_end : Mode → ℕ → Bool
at_end plain c = c == 0
at_end (conversion alternate) c = false

-- The loop over the format: how many characters it has passed, and the screen.
unfoldable pub scan_format : List ℕ → Mode → List ℕ → List Arg → Screen → Option (ℕ × Screen)
unfolding print_step
scan_format stack mode [] args s = none
scan_format stack mode (c ∷ format) args s =
    if at_end mode c
    then some (0, s)
    else (print_step stack mode c args s >>= λ next.
        scan_format stack next.0 format next.1 next.2 >>= λ r. some (r.0 + 1, r.1))

-- `printf`; `stack` has the bytes of the uninitialised `conv_buf`.
abbrev pub printf : List ℕ → List ℕ → List Arg → Screen → Option (ℕ × Screen)
printf stack format args s = scan_format stack plain format args s
