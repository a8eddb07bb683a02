-- ===== src/Command/Words.antt =====
-- The parse of a command line that is written as words and spaces.
use my_linux_os.Common.{
  ℕ, zero, suc, ◌-◌, ◌≤◌, ◌<◌, ◌≡◌, ◌≢◌, refl, sym, ap, ◌∙◌, List, [], ◌∷◌, ◌++◌, some, true, leb,
  ◌>>=◌, length, replicate, All, arith, ne→==, lt→ltb,
}
use mathlib.Core.List.{append_assoc}
use my_linux_os.Str.Length.{NoNul, strlen_text}
use my_linux_os.Command.{
  skip_spaces, scan_name, text_of, parse_command, rest_of, Rest, behind, from_start,
  filename_length, arg_length,
}

-- A word of a command line: no null, space or line feed in it.
abbrev pub IsWord : List ℕ → Type 0
IsWord = All (λ c. (c ≢ 0) × (c ≢ 0x20) × (c ≢ 0x0a))

-- A text that does not begin with a space.
abbrev pub Starts : List ℕ → Type 0
Starts [] = Unit
Starts (c ∷ cs) = c ≢ 0x20

abbrev pub spaces : ℕ → List ℕ
spaces n = replicate n 0x20

skip_spaces-spaces : (n : ℕ) (s : List ℕ) → skip_spaces (spaces n ++ s) ≡ skip_spaces s
unfolding skip_spaces
skip_spaces-spaces zero s = refl
skip_spaces-spaces (suc n) s = skip_spaces-spaces n s

skip_spaces-Starts : (s rest : List ℕ) → Starts s → skip_spaces (s ++ 0 ∷ rest) ≡ s ++ 0 ∷ rest
unfolding skip_spaces
skip_spaces-Starts [] rest h = refl
skip_spaces-Starts (c ∷ s) rest h = rw (ne→== c 0x20 h) refl

text_of-text : (s rest : List ℕ) → NoNul s → text_of (s ++ 0 ∷ rest) ≡ s
unfolding text_of
text_of-text [] rest plain = refl
text_of-text (c ∷ s) rest (plain, nonul) =
    rw (ne→== c 0 plain) (ap (◌∷◌ c) (text_of-text s rest nonul))

-- A name in front of a character that ends it.
scan_name-space :
    (name cs : List ℕ) (room : ℕ)
    → IsWord name
    → length name ≤ room
    → scan_name room (name ++ 0x20 ∷ cs) ≡ some (name, behind (skip_spaces cs))
unfolding scan_name skip_spaces
scan_name-space [] cs zero word fits = refl
scan_name-space [] cs (suc room) word fits = refl
scan_name-space (c ∷ name) cs zero word fits = absurd (omega arith)
scan_name-space (c ∷ name) cs (suc room) ((nul, space, feed), word) fits =
    rw
      (
        ne→== c 0x0a feed,
        ne→== c 0x20 space,
        ne→== c 0 nul,
        scan_name-space name cs room word (omega arith),
      )
      refl

scan_name-end :
    (name cs : List ℕ) (room : ℕ)
    → IsWord name
    → length name ≤ room
    → scan_name room (name ++ 0 ∷ cs) ≡ some (name, behind (0 ∷ cs))
unfolding scan_name skip_spaces
scan_name-end [] cs zero word fits = refl
scan_name-end [] cs (suc room) word fits = refl
scan_name-end (c ∷ name) cs zero word fits = absurd (omega arith)
scan_name-end (c ∷ name) cs (suc room) ((nul, space, feed), word) fits =
    rw
      (
        ne→== c 0x0a feed,
        ne→== c 0x20 space,
        ne→== c 0 nul,
        scan_name-end name cs room word (omega arith),
      )
      refl

scan_name-feed :
    (name cs : List ℕ) (room : ℕ)
    → IsWord name
    → length name ≤ room
    → scan_name room (name ++ 0x0a ∷ cs) ≡ some (name, from_start)
unfolding scan_name
scan_name-feed [] cs zero word fits = refl
scan_name-feed [] cs (suc room) word fits = refl
scan_name-feed (c ∷ name) cs zero word fits = absurd (omega arith)
scan_name-feed (c ∷ name) cs (suc room) ((nul, space, feed), word) fits =
    rw
      (
        ne→== c 0x0a feed,
        ne→== c 0x20 space,
        ne→== c 0 nul,
        scan_name-feed name cs room word (omega arith),
      )
      refl

NoNul-append : (s t : List ℕ) → NoNul s → NoNul t → NoNul (s ++ t)
NoNul-append [] t a b = b
NoNul-append (c ∷ s) t (plain, a) b = (plain, NoNul-append s t a b)

NoNul-spaces : (n : ℕ) → NoNul (spaces n)
NoNul-spaces zero = tt
NoNul-spaces (suc n) = (omega arith, NoNul-spaces n)

NoNul-word : (s : List ℕ) → IsWord s → NoNul s
NoNul-word [] word = tt
NoNul-word (c ∷ s) ((nul, space, feed), word) = (nul, NoNul-word s word)

skip_spaces-word :
    (name rest : List ℕ) → IsWord name → 0 < length name → skip_spaces (name ++ rest) ≡ name ++ rest
unfolding skip_spaces
skip_spaces-word [] rest word some_name = absurd (omega arith)
skip_spaces-word (c ∷ name) rest ((nul, space, feed), word) some_name = rw (ne→== c 0x20 space) refl

-- A text in a buffer of `n` bytes, with nulls behind it.
abbrev pub padded : ℕ → List ℕ → List ℕ
padded n s = s ++ replicate (n - length s) 0

-- The end of the parse, when the first two loops are done.
parse_command-scanned :
    (text rest name : List ℕ) (r : Rest) (args : List ℕ)
    → NoNul text
    → length text < 256
    → scan_name filename_length (skip_spaces (text ++ 0 ∷ rest)) ≡ some (name, r)
    → text_of (rest_of r (text ++ 0 ∷ rest)) ≡ args
    → length args ≤ arg_length
    → parse_command (text ++ 0 ∷ rest) ≡ some (padded filename_length name, padded arg_length args)
unfolding parse_command
parse_command-scanned text rest name r args nonul short scanned are fits =
    rw
      (
        strlen_text text rest nonul,
        ◌>>=◌,
        lt→ltb (length text) 256 short,
        scanned,
        are,
        within (length args) fits,
      )
      refl
  where
    within : (n : ℕ) → n ≤ 128 → leb n 128 ≡ true
    within n h = ground arith

-- A command line of words: spaces, the name of the program, and behind a gap the arguments.
abbrev pub command_line : (lead gap : ℕ) (name args : List ℕ) → List ℕ
command_line lead gap name args = spaces lead ++ (name ++ (spaces gap ++ args))

scanned :
    (lead gap : ℕ) (name args rest : List ℕ)
    → IsWord name
    → 0 < length name
    → length name ≤ filename_length
    → Starts args
    → (gap ≡ 0 → args ≡ [])
    → scan_name filename_length (skip_spaces (command_line lead gap name args ++ 0 ∷ rest))
      ≡ some (name, behind (args ++ 0 ∷ rest))
scanned lead gap name args rest word some_name fits starts apart =
    ap (λ s. scan_name filename_length (skip_spaces s))
      (append_assoc (spaces lead) (name ++ (spaces gap ++ args)) (0 ∷ rest))
    ∙ ap (scan_name filename_length)
        (skip_spaces-spaces lead ((name ++ (spaces gap ++ args)) ++ 0 ∷ rest))
    ∙ ap (λ s. scan_name filename_length (skip_spaces s))
        (append_assoc name (spaces gap ++ args) (0 ∷ rest))
    ∙ ap (scan_name filename_length)
        (skip_spaces-word name ((spaces gap ++ args) ++ 0 ∷ rest) word some_name)
    ∙ by_gap gap apart
  where
    by_gap :
        (gap : ℕ)
        → (gap ≡ 0 → args ≡ [])
        → scan_name filename_length (name ++ ((spaces gap ++ args) ++ 0 ∷ rest))
          ≡ some (name, behind (args ++ 0 ∷ rest))
    by_gap zero apart =
        ap (λ a. scan_name filename_length (name ++ (a ++ 0 ∷ rest))) (apart refl)
        ∙ scan_name-end name rest filename_length word fits
        ∙ ap (λ a. some (name, behind (a ++ 0 ∷ rest))) (sym (apart refl))
    by_gap (suc n) apart =
        scan_name-space name ((spaces n ++ args) ++ 0 ∷ rest) filename_length word fits
        ∙ ap (λ s. some (name, behind s))
            (ap skip_spaces (append_assoc (spaces n) args (0 ∷ rest))
              ∙ skip_spaces-spaces n (args ++ 0 ∷ rest)
              ∙ skip_spaces-Starts args rest starts)

-- A command line of fewer than 256 characters, with any spaces in front, a name of 1 to 32 characters
-- and, behind any number of spaces, arguments of at most 128 characters that do not begin with a
-- space (none if no space is between), is taken apart into the name and the arguments, each padded
-- with nulls.
pub parse_command-command_line :
    (lead gap : ℕ) (name args rest : List ℕ)
    → IsWord name
    → 0 < length name
    → length name ≤ filename_length
    → NoNul args
    → Starts args
    → (gap ≡ 0 → args ≡ [])
    → length args ≤ arg_length
    → length (command_line lead gap name args) < 256
    → parse_command (command_line lead gap name args ++ 0 ∷ rest)
      ≡ some (padded filename_length name, padded arg_length args)
parse_command-command_line lead gap name args rest word some_name fits nonul starts apart fit
      short =
    parse_command-scanned (command_line lead gap name args) rest name (behind (args ++ 0 ∷ rest))
      args
      (NoNul-append (spaces lead) (name ++ (spaces gap ++ args)) (NoNul-spaces lead) (
        NoNul-append name (spaces gap ++ args) (NoNul-word name word)
          (NoNul-append (spaces gap) args (NoNul-spaces gap) nonul)))
      short (scanned lead gap name args rest word some_name fits starts apart)
      (text_of-text args rest nonul) fit

-- When a line feed ends the name, the arguments are the whole command, the name included. It is so for
-- a command of at most 128 bytes, without nulls, that starts with the name, a word of 1 to 32
-- bytes.
pub parse_command-feed :
    (name more rest : List ℕ)
    → IsWord name
    → 0 < length name
    → length name ≤ filename_length
    → NoNul more
    → length (name ++ 0x0a ∷ more) ≤ arg_length
    → parse_command ((name ++ 0x0a ∷ more) ++ 0 ∷ rest)
      ≡ some (padded filename_length name, padded arg_length (name ++ 0x0a ∷ more))
parse_command-feed name more rest word some_name fits nonul fit =
    let plain : NoNul (name ++ 0x0a ∷ more) =
      NoNul-append name (0x0a ∷ more) (NoNul-word name word) (omega arith, nonul) in
    parse_command-scanned (name ++ 0x0a ∷ more) rest name from_start (name ++ 0x0a ∷ more) plain
      (omega arith)
      (ap (λ s. scan_name filename_length (skip_spaces s))
          (append_assoc name (0x0a ∷ more) (0 ∷ rest))
        ∙ ap (scan_name filename_length)
            (skip_spaces-word name ((0x0a ∷ more) ++ 0 ∷ rest) word some_name)
        ∙ scan_name-feed name (more ++ 0 ∷ rest) filename_length word fits)
      (text_of-text (name ++ 0x0a ∷ more) rest plain) fit
