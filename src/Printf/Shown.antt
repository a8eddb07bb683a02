-- ===== src/Printf/Shown.antt =====
-- `printf` of a format as a list of pieces: what it shows.
use my_linux_os.Common.{
  ℕ, ◌+◌, ◌%◌, ◌≤◌, ◌≡◌, ◌≢◌, refl, sym, ap, ap₂, ◌∙◌, List, [], ◌∷◌, ◌++◌, some, true, false, ◌==◌,
  ◌||◌, take, length, length-take, length-append, All, arith,
}
use mathlib.Core.List.{append_assoc}
use my_linux_os.Common.Int.{unsigned32}
use my_linux_os.Str.Length.{NoNul}
use my_linux_os.Str.Number.{itoa_within}
use my_linux_os.Screen.{Screen}
use my_linux_os.Printf.{Arg, word, plain, number_text, scan_format, printf}
use my_linux_os.Printf.Pieces.{
  Piece, letter, percent, hex, hex8, unsigned, signed, char, str, code, args_of, Fits, Shows,
  put_all, put_all-append, convert-number, scan-conversion, scan-alternate, scan-letter,
  convert-string, convert-percent, convert-char,
}
use my_linux_os.Printf.Numbers.{
  padded_hex_lem, number_text-hex, number_text-hex8, number_text-unsigned, number_text-signed,
  signed_text_lem,
}

-- What it takes for the scan to show the text of a piece and go on behind it.
abbrev Scans : List ℕ → Piece → Screen → List ℕ → Type 0
Scans stack p s t =
    (format : List ℕ) (args : List Arg) (n : ℕ) (s' : Screen)
    → scan_format stack plain format args (put_all t s) ≡ some (n, s')
    → scan_format stack plain (code p ++ format) (args_of p ++ args) s
      ≡ some (length (code p) + n, s')

scans_digits :
    (stack : List ℕ) (s : Screen) (c v : ℕ) (t rest : List ℕ)
    → c ≢ 0x23
    → (c == 0x25) ≡ false
    → (c == 0x78 || (c == 0x75 || c == 0x64)) ≡ true
    → number_text stack false c v ≡ some (t ++ 0 ∷ rest)
    → NoNul t
    → (format : List ℕ) (args : List Arg) (n : ℕ) (s' : Screen)
    → scan_format stack plain format args (put_all t s) ≡ some (n, s')
    → scan_format stack plain (0x25 ∷ c ∷ format) (word v ∷ args) s ≡ some (2 + n, s')
scans_digits stack s c v t rest h other is run nonul format args n s' more =
    scan-conversion stack s c n format (word v ∷ args) args (put_all t s) s' h
      (convert-number stack s false c v args t rest other is run nonul) more

piece-Shows :
    (stack : List ℕ) (p : Piece) (s : Screen)
    → Fits p
    → 64 ≤ length stack
    → (t : List ℕ) × Shows p t × Scans stack p s t
piece-Shows stack (letter c) s (nul, other) room =
    (c ∷ [], refl, λ format args n s' more. scan-letter stack s c n format args s' nul other more)
piece-Shows stack percent s h room = (
  0x25 ∷ [],
  refl,
  λ format args n s' more.
      scan-conversion stack s 0x25 n format args args _ s' (omega arith)
        (convert-percent stack s args) more,
)
piece-Shows stack (hex v) s small room =
    let (t, run, nonul, numeral, short, _) =
      itoa_within v (take 64 stack) 16 8 small (omega arith) (omega arith) (omega arith)
        (omega (arith, length-take 64 stack)) in
    (
      t,
      (numeral, short),
      scans_digits stack s 0x78 v t _ (omega arith) refl refl (number_text-hex stack v ∙ run) nonul,
    )
piece-Shows stack (hex8 v) s small room =
    let (t, rest, run, nonul, numeral, eight) =
      padded_hex_lem (take 64 stack) v small (omega (arith, length-take 64 stack)) in
    (
      t,
      (numeral, eight),
      λ format args n s' more.
          scan-alternate stack s n format (word v ∷ args) args (put_all t s) s'
            (convert-number stack s true 0x78 v args t rest refl refl
              (number_text-hex8 stack v ∙ run) nonul)
            more,
    )
piece-Shows stack (unsigned v) s small room =
    let (t, run, nonul, numeral, short, _) =
      itoa_within v (take 36 stack) 10 10 (omega arith) (omega arith) (omega arith) (omega arith)
        (omega (arith, length-take 36 stack)) in
    (
      t,
      (numeral, short),
      scans_digits stack s 0x75 v t _ (omega arith) refl refl (number_text-unsigned stack v ∙ run)
          nonul,
    )
piece-Shows stack (signed z) s fits room =
    let (t, rest, run, nonul, is) =
      signed_text_lem z (take 36 stack) fits (omega (arith, length-take 36 stack)) in
    (
      t,
      is,
      scans_digits stack s 0x64 (unsigned32 z) t rest (omega arith) refl refl
          (number_text-signed stack (unsigned32 z) ∙ run) nonul,
    )
piece-Shows stack (char c) s h room = (
  c % 256 ∷ [],
  refl,
  λ format args n s' more.
      scan-conversion stack s 0x63 n format (word c ∷ args) args _ s' (omega arith)
        (convert-char stack s c args) more,
)
piece-Shows stack (str text rest) s nonul room = (
  text,
  refl,
  λ format args n s' more.
      scan-conversion stack s 0x73 n format _ args _ s' (omega arith)
        (convert-string stack s args text rest nonul) more,
)

abbrev pub format_of : List Piece → List ℕ
format_of [] = []
format_of (p ∷ ps) = code p ++ format_of ps

abbrev pub all_args : List Piece → List Arg
all_args [] = []
all_args (p ∷ ps) = args_of p ++ all_args ps

-- A text that is made of what the pieces show, one behind the other.
abbrev pub Shown : List Piece → List ℕ → Type 0
Shown [] t = t ≡ []
Shown (p ∷ ps) t = (a b : List ℕ) × Shows p a × Shown ps b × (t ≡ a ++ b)

-- `printf` of a format that consists of characters, `%%`, `%x`, `%#x`, `%u`, `%d`, `%c` and `%s`,
-- with an argument of the right kind for each, a number of 32 bits or a string that ends in a null,
-- shows on the screen, character by character, a text made of the pieces: the characters and
-- strings as they are, and numerals for the numbers, made of digits of the base, `0` to `9` and then
-- `A` to `Z`: of exactly 8 digits for `%#x`, else without a zero in front, and with a minus sign
-- for a negative number; it returns the length of the format. It is so whatever the bytes of
-- its buffers are.
pub printf_lem :
    (stack : List ℕ) (ps : List Piece) (rest : List ℕ) (s : Screen)
    → 64 ≤ length stack
    → All Fits ps
    → (t : List ℕ) × Shown ps t
      × (printf stack (format_of ps ++ 0 ∷ rest) (all_args ps) s
          ≡ some (length (format_of ps), put_all t s))
unfolding scan_format
printf_lem stack [] rest s room fits = ([], refl, refl)
printf_lem stack (p ∷ ps) rest s room (fit, fits) =
    let (a, is, scans) = piece-Shows stack p s fit room in
    let (b, are, run) = printf_lem stack ps rest (put_all a s) room fits in
    (
      a ++ b,
      (a, b, is, are, refl),
      ap (λ f. printf stack f (args_of p ++ all_args ps) s)
            (append_assoc (code p) (format_of ps) (0 ∷ rest))
          ∙ scans (format_of ps ++ 0 ∷ rest) (all_args ps) (length (format_of ps)) _ run
          ∙ ap₂ (λ (n : ℕ) (s' : Screen). some (n, s'))
              (sym (length-append (code p) (format_of ps))) (sym (put_all-append a b s)),
    )
