-- ===== src/Programs/Seats.antt =====
-- Programs at a seat: the shell with four lines typed, the programs that greet, and grep.
use my_linux_os.Common.{
  ltb, ◌&&◌, replicate, ℕ, ◌+◌, ◌≡◌, refl, List, [], ◌∷◌, ◌++◌, Option, some, get_or, length, take,
  ◌==◌, if◌then◌else◌,
}
use my_linux_os.Common.Int.{ℤ, pos, negsuc, minus_one}
use my_linux_os.Support.{ece391_strlen, ece391_strcmp, ece391_strncmp, ece391_strcpy}
use my_linux_os.Programs.{System, ece391_fdputs}
use my_linux_os.Programs.Text.{chars, c_string, no_nul-NoNul}
use my_linux_os.Programs.Hello.{hello, testprint}
use my_linux_os.Programs.Grep.{search_lines, matches}
use my_linux_os.Programs.Grep.Matches.{contains, matches-contains}
use my_linux_os.Programs.Shell.{shell}

-- The lines that are still to be typed, and the bytes shown.
record Seat : Type 0 where
  typed : List (List ℕ)
  output : List ℕ

abbrev next_line : List (List ℕ) → Seat → Option (ℤ × List ℕ × Seat)
next_line [] s = some (minus_one, [], s)
next_line (l ∷ typed) s = some (pos (length l + 1), l ++ 0x0a ∷ [], record s { typed = typed })

abbrev shows : List ℕ → ℤ → Seat → Option (ℤ × Seat)
shows buf nbytes s = elim nbytes [
  | pos n ↦ some (pos 0, record s { output = s.output ++ take n buf })
  | negsuc n ↦ some (minus_one, s)
]

-- A program is found when its name begins with `l`.
abbrev seats : System Seat
seats = record {
  ece391_read = λ fd nbytes s. next_line s.typed s;
  ece391_write = λ fd buf nbytes s. shows buf nbytes s;
  ece391_open = λ name s. some (minus_one, s);
  ece391_close = λ fd s. some (minus_one, s);
  ece391_getargs = λ nbytes s. some (minus_one, [], s);
  ece391_vidmap = λ screen_start s. some (minus_one, s);
  ece391_execute = λ command s. some (if get_or command 0 0 == 0x6c then pos 0 else minus_one, s);
  call_sys = λ num s. some (minus_one, s);
}

-- An empty line, two programs, one of which is not found, and the end of the shell.
shell_test :
    shell seats 5 []
      (record { typed = [] ∷ chars "ls" ∷ chars "dir" ∷ chars "exit" ∷ []; output = [] })
    ≡ some (
      0,
      record {
        typed = [];
        output = chars "Starting 391 Shell\n391OS> 391OS> 391OS> no such command\n391OS> ";
      },
    )
unfolding shell ece391_fdputs ece391_strlen ece391_strcmp
shell_test = refl

-- The greetings, with what they show.
hello_test :
    hello seats (replicate 1024 0) (record { typed = chars "Ann" ∷ []; output = [] })
    ≡ some (0, record { typed = []; output = chars "Hi, what's your name? Hello, Ann\n" })
unfolding hello ece391_fdputs ece391_strlen
hello_test = refl

testprint_test :
    testprint seats (record { typed = []; output = [] })
    ≡ some (
      0,
      record { typed = []; output = chars "Hello, if this ran, the program was correct. Yay!\n" },
    )
unfolding testprint ece391_fdputs ece391_strlen
testprint_test = refl

-- The lines of a buffer that hold a text, and the start of a line that the buffer ends in.
search_lines_test :
    search_lines seats 9
      (c_string "c")
      1
      (c_string "f")
      7
      7
      0
      (chars "ab\ncd\nx" ++ replicate 4 0)
      (record { typed = []; output = [] })
    ≡ some (
      0x78 ∷ 0 ∷ 0 ∷ 0x63 ∷ 0x64 ∷ 0 ∷ 0x78 ∷ 0 ∷ 0 ∷ 0 ∷ 0 ∷ [],
      1,
      record { typed = []; output = chars "f:cd\n" },
    )
unfolding search_lines ece391_fdputs ece391_strlen ece391_strncmp ece391_strcpy
search_lines_test = refl

matches-contains_example :
    matches 4 3 (chars "os" ++ 0 ∷ []) 2 (chars "ab\n" ++ (chars "diso" ++ 0 ∷ []))
    ≡ some (ltb 0x6f 128 && contains (chars "os") (chars "diso"))
matches-contains_example =
    matches-contains 0x6f (chars "s") [] (chars "ab\n") (chars "diso") []
      (no_nul-NoNul (chars "os") refl) (no_nul-NoNul (chars "diso") refl)
