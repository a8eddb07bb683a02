-- ===== src/Programs/Shell.antt =====
-- myLinuxOS/syscalls/ece391shell.c: the shell.
pub mod Session
pub mod OnKernel
use my_linux_os.Common.{
  ℕ, zero, suc, List, [], ◌∷◌, Option, none, some, Bool, true, false, overwrite, get_elem?, set,
  ◌==◌, ◌&&◌, if◌then◌else◌, ◌>>=◌,
}
use my_linux_os.Common.Int.{ℤ, pos, negsuc, minus_one, eqb_ℤ, ltb_ℤ, ◌-ℤ◌}
use my_linux_os.Support.{ece391_strcmp}
use my_linux_os.Programs.{System, read_into, ece391_fdputs}
use my_linux_os.Programs.Text.{c_string}
use my_linux_os.Programs.Buffer.{at, put_at}

-- `if (cnt > 0 && '\n' == buf[cnt - 1]) cnt--; buf[cnt] = '\0';`
unfoldable pub end_line : ℤ → List ℕ → Option (List ℕ)
end_line cnt buf =
    if ltb_ℤ (pos 0) cnt
    then (at buf (cnt -ℤ pos 1) >>= λ c. put_at buf (if c == 0x0a then cnt -ℤ pos 1 else cnt) 0)
    else put_at buf cnt 0

-- How a round of the loop ends: in the next one, with the buffer, or in the value of `main`.
pub data Round (S : Type 0) : Type 0 where
  goes_on : List ℕ → S → Round S
  ends : ℕ → S → Round S

module _ {S : Type 0} (sys : System S) where
  -- What the shell says to the result of a program.
  unfoldable pub say_result : ℤ → S → Option S
  say_result rval s =
      if eqb_ℤ rval minus_one
      then ece391_fdputs sys (pos 1) (c_string "no such command\n") s
      else if eqb_ℤ rval (pos 256)
      then ece391_fdputs sys (pos 1) (c_string "program terminated by exception\n") s
      else if eqb_ℤ rval (pos 0)
      then some s
      else ece391_fdputs sys (pos 1) (c_string "program terminated abnormally\n") s

  -- The body of the loop behind the read.
  unfoldable pub obey : List ℕ → S → Option (Round S)
  unfolding say_result
  obey buf s = ece391_strcmp buf (c_string "exit") >>= λ differs.
      if eqb_ℤ differs (pos 0)
      then some (ends 0 s)
      else (at buf (pos 0) >>= λ first.
          if first == 0
          then some (goes_on buf s)
          else (sys.ece391_execute buf s >>= λ r. say_result r.0 r.1 >>= λ t. some (goes_on buf t)))

  -- The body of the loop.
  unfoldable pub shell_round : List ℕ → S → Option (Round S)
  unfolding obey end_line
  shell_round buf s = ece391_fdputs sys (pos 1) (c_string "391OS> ") s >>= λ s1.
      read_into sys (pos 0) buf (pos 1023) s1 >>= λ r.
      if eqb_ℤ r.0 minus_one
      then (ece391_fdputs sys (pos 1) (c_string "read from keyboard failed\n") r.2 >>= λ t.
          some (ends 3 t))
      else (end_line r.0 r.1 >>= λ text. obey text r.2)

  -- The loop, at most `fuel` rounds.
  unfoldable pub shell_loop : ℕ → List ℕ → S → Option (ℕ × S)
  unfolding shell_round
  shell_loop zero buf s = none
  shell_loop (suc fuel) buf s = shell_round buf s >>= λ r. elim r [
    | goes_on buf' s' ↦ shell_loop fuel buf' s'
    | ends value s' ↦ some (value, s')
  ]

  -- `main`
  unfoldable pub shell : ℕ → List ℕ → S → Option (ℕ × S)
  unfolding shell_loop
  shell fuel buf s =
      ece391_fdputs sys (pos 1) (c_string "Starting 391 Shell\n") s >>= shell_loop fuel buf
