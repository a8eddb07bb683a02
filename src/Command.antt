-- ===== src/Command.antt =====
-- The command line in `syscall_execute` of student-distrib/syscall.c: the name of the program and its
-- arguments.
pub mod Words
mod Tests
use my_linux_os.Common.{
  ℕ, zero, suc, ◌-◌, List, [], ◌∷◌, ◌++◌, Option, none, some, Bool, ◌==◌, ◌||◌, ltb, leb,
  if◌then◌else◌, ◌>>=◌, require, length, take, replicate,
}
use my_linux_os.Str.{strlen}

abbrev pub filename_length : ℕ
filename_length = 32

abbrev pub arg_length : ℕ
arg_length = 128

-- `while(command[i] == ' ') i++;`, and the same loop on `j`.
unfoldable pub skip_spaces : List ℕ → List ℕ
skip_spaces [] = []
skip_spaces (c ∷ cs) = if c == 0x20 then skip_spaces cs else c ∷ cs

-- Where the arguments begin: behind the spaces that follow the name, or, since `j` stays 0 then, at the
-- start of the command if a line feed ends the name.
pub data Rest : Type 0 where
  behind : List ℕ → Rest
  from_start : Rest

-- The loop that fills `exe_name`, with `room` places left: the name and where the arguments begin.
-- `none` is a store behind `exe_name` or a read behind the command.
unfoldable pub scan_name : ℕ → List ℕ → Option (List ℕ × Rest)
unfolding skip_spaces
scan_name room [] = none
scan_name zero (c ∷ cs) =
    if c == 0x0a
    then some ([], from_start)
    else if c == 0x20 || c == 0
    then some ([], behind (skip_spaces (c ∷ cs)))
    else none
scan_name (suc room) (c ∷ cs) =
    let rest = scan_name room cs in
    if c == 0x0a
    then some ([], from_start)
    else if c == 0x20 || c == 0
    then some ([], behind (skip_spaces (c ∷ cs)))
    else (rest >>= λ r. some (c ∷ r.0, r.1))

-- The characters of a C string in front of its terminator.
unfoldable pub text_of : List ℕ → List ℕ
text_of [] = []
text_of (c ∷ cs) = if c == 0 then [] else c ∷ text_of cs

abbrev pub rest_of : Rest → List ℕ → List ℕ
rest_of (behind cs) command = cs
rest_of from_start command = command

-- The parse: `exe_name` and `args`. The indices are bytes, so from 256 characters on a loop does not
-- end inside its buffer; arguments of more than 128 characters are stored behind `args`.
unfoldable pub parse_command : List ℕ → Option (List ℕ × List ℕ)
unfolding scan_name text_of
parse_command command = strlen command >>= λ n. require (ltb n 256) >>= λ _.
    scan_name filename_length (skip_spaces command) >>= λ r.
    let args = text_of (rest_of r.1 command) in
    require (leb (length args) arg_length) >>= λ _. some (
      r.0 ++ replicate (filename_length - length r.0) 0,
      args ++ replicate (arg_length - length args) 0,
    )
