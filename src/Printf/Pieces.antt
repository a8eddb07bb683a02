-- ===== src/Printf/Pieces.antt =====
-- A format as a list of pieces, and the text that `printf` of student-distrib/lib.c shows for it.
use my_linux_os.Common.{
  ℕ, ◌+◌, ◌^◌, ◌%◌, ◌<◌, ◌≡◌, ◌≢◌, refl, ap, List, [], ◌∷◌, ◌++◌, some, Bool, true, false, ◌==◌,
  ◌||◌, ◌>>=◌, length, arith, ne→==,
}
use my_linux_os.Common.Int.{ℤ, pos, negsuc, unsigned32}
use my_linux_os.Str.Length.{NoNul}
use my_linux_os.Str.Digits.{Numeral, IsShortest}
use my_linux_os.Screen.{Screen, putc, puts}
use my_linux_os.Printf.{Arg, word, string, plain, number_text, convert, print_step, scan_format}

-- A character that stands for itself, or a conversion with its argument; a string has the bytes of its
-- buffer behind it.
pub data Piece : Type 0 where
  letter : ℕ → Piece
  percent : Piece
  hex : ℕ → Piece
  hex8 : ℕ → Piece
  unsigned : ℕ → Piece
  signed : ℤ → Piece
  char : ℕ → Piece
  str : (text rest : List ℕ) → Piece

-- How the piece is written in a format.
abbrev pub code : Piece → List ℕ
code (letter c) = c ∷ []
code percent = 0x25 ∷ 0x25 ∷ []
code (hex v) = 0x25 ∷ 0x78 ∷ []
code (hex8 v) = 0x25 ∷ 0x23 ∷ 0x78 ∷ []
code (unsigned v) = 0x25 ∷ 0x75 ∷ []
code (signed z) = 0x25 ∷ 0x64 ∷ []
code (char c) = 0x25 ∷ 0x63 ∷ []
code (str text rest) = 0x25 ∷ 0x73 ∷ []

abbrev pub args_of : Piece → List Arg
args_of (letter c) = []
args_of percent = []
args_of (hex v) = word v ∷ []
args_of (hex8 v) = word v ∷ []
args_of (unsigned v) = word v ∷ []
args_of (signed z) = word (unsigned32 z) ∷ []
args_of (char c) = word c ∷ []
args_of (str text rest) = string (text ++ 0 ∷ rest) ∷ []

-- Numbers are of 32 bits, a string has no null in it.
abbrev pub Fits : Piece → Type 0
Fits (letter c) = (c ≢ 0) × (c ≢ 0x25)
Fits percent = Unit
Fits (hex v) = v < 2 ^ 32
Fits (hex8 v) = v < 2 ^ 32
Fits (unsigned v) = v < 2 ^ 32
Fits (signed (pos n)) = n < 2 ^ 31
Fits (signed (negsuc n)) = n < 2 ^ 31
Fits (char c) = Unit
Fits (str text rest) = NoNul text

-- A numeral without zeros in front.
abbrev pub ShortNumeral : (radix v : ℕ) → List ℕ → Type 0
ShortNumeral radix v t = Numeral radix v t × IsShortest radix v t

-- What a piece shows.
abbrev pub Shows : Piece → List ℕ → Type 0
Shows (letter c) t = t ≡ c ∷ []
Shows percent t = t ≡ 0x25 ∷ []
Shows (hex v) t = ShortNumeral 16 v t
Shows (hex8 v) t = Numeral 16 v t × (length t ≡ 8)
Shows (unsigned v) t = ShortNumeral 10 v t
Shows (signed (pos n)) t = ShortNumeral 10 n t
Shows (signed (negsuc n)) t = (ds : List ℕ) × (t ≡ 0x2d ∷ ds) × ShortNumeral 10 (n + 1) ds
Shows (char c) t = t ≡ c % 256 ∷ []
Shows (str text rest) t = t ≡ text

-- Characters, put on the screen one behind the other.
abbrev pub put_all : List ℕ → Screen → Screen
put_all [] s = s
put_all (c ∷ text) s = put_all text (putc c s)

pub put_all-append : (a b : List ℕ) (s : Screen) → put_all (a ++ b) s ≡ put_all b (put_all a s)
put_all-append [] b s = refl
put_all-append (c ∷ a) b s = put_all-append a b (putc c s)

puts-put_all :
    (text rest : List ℕ) (s : Screen)
    → NoNul text
    → puts (text ++ 0 ∷ rest) s ≡ some (length text, put_all text s)
unfolding puts
puts-put_all [] rest s nonul = refl
puts-put_all (c ∷ text) rest s (nul, nonul) =
    rw (ne→== c 0 nul, puts-put_all text rest (putc c s) nonul, ◌>>=◌)
      (ap (λ n. some (n, put_all text (putc c s))) (omega arith))

module _ (stack : List ℕ) (s : Screen) where
  pub convert-number :
      (alternate : Bool) (c v : ℕ) (args : List Arg) (text rest : List ℕ)
      → (c == 0x25) ≡ false
      → (c == 0x78 || (c == 0x75 || c == 0x64)) ≡ true
      → number_text stack alternate c v ≡ some (text ++ 0 ∷ rest)
      → NoNul text
      → convert stack alternate c (word v ∷ args) s ≡ some (args, put_all text s)
  unfolding convert
  convert-number alternate c v args text rest other is run nonul =
      rw (other, is, run, puts-put_all text rest s nonul, ◌>>=◌) refl

  -- The two characters of a conversion.
  pub scan-conversion :
      (c n : ℕ) (format : List ℕ) (args args' : List Arg) (s1 s2 : Screen)
      → c ≢ 0x23
      → convert stack false c args s ≡ some (args', s1)
      → scan_format stack plain format args' s1 ≡ some (n, s2)
      → scan_format stack plain (0x25 ∷ c ∷ format) args s ≡ some (2 + n, s2)
  unfolding scan_format print_step
  scan-conversion c n format args args' s1 s2 h run more =
      rw (ne→== c 0x23 h, run, more, ◌>>=◌) (ap (λ m. some (m, s2)) (omega arith))

  -- The three characters of `%#x`.
  pub scan-alternate :
      (n : ℕ) (format : List ℕ) (args args' : List Arg) (s1 s2 : Screen)
      → convert stack true 0x78 args s ≡ some (args', s1)
      → scan_format stack plain format args' s1 ≡ some (n, s2)
      → scan_format stack plain (0x25 ∷ 0x23 ∷ 0x78 ∷ format) args s ≡ some (3 + n, s2)
  unfolding scan_format print_step
  scan-alternate n format args args' s1 s2 run more =
      rw (run, more, ◌>>=◌) (ap (λ m. some (m, s2)) (omega arith))

  pub scan-letter :
      (c n : ℕ) (format : List ℕ) (args : List Arg) (s' : Screen)
      → c ≢ 0
      → c ≢ 0x25
      → scan_format stack plain format args (putc c s) ≡ some (n, s')
      → scan_format stack plain (c ∷ format) args s ≡ some (1 + n, s')
  unfolding scan_format print_step
  scan-letter c n format args s' nul other more =
      rw (ne→== c 0 nul, ne→== c 0x25 other, more, ◌>>=◌) (ap (λ m. some (m, s')) (omega arith))

  pub convert-string :
      (args : List Arg) (text rest : List ℕ)
      → NoNul text
      → convert stack false 0x73 (string (text ++ 0 ∷ rest) ∷ args) s ≡ some (args, put_all text s)
  unfolding convert
  convert-string args text rest nonul = rw (puts-put_all text rest s nonul, ◌>>=◌) refl

  pub convert-percent :
      (args : List Arg) → convert stack false 0x25 args s ≡ some (args, putc 0x25 s)
  unfolding convert
  convert-percent args = refl

  pub convert-char :
      (c : ℕ) (args : List Arg)
      → convert stack false 0x63 (word c ∷ args) s ≡ some (args, putc (c % 256) s)
  unfolding convert
  convert-char c args = refl
