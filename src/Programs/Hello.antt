-- ===== src/Programs/Hello.antt =====
-- myLinuxOS/syscalls/ece391hello.c and ece391testprint.c: the programs that greet.
use my_linux_os.Common.{ℕ, List, Option, some, if◌then◌else◌, ◌>>=◌}
use my_linux_os.Common.Int.{pos, minus_one, eqb_ℤ}
use my_linux_os.Programs.{System, read_into, ece391_fdputs}
use my_linux_os.Programs.Text.{c_string}
use my_linux_os.Programs.Buffer.{put_at}

module _ {S : Type 0} (sys : System S) where
  -- `main` of ece391hello.c; `buf` is its buffer of 1024 bytes.
  unfoldable pub hello : List ℕ → S → Option (ℕ × S)
  hello buf s = ece391_fdputs sys (pos 1) (c_string "Hi, what's your name? ") s >>= λ s1.
      read_into sys (pos 0) buf (pos 1023) s1 >>= λ r.
      if eqb_ℤ r.0 minus_one
      then (ece391_fdputs sys (pos 1) (c_string "Can't read name from keyboard.\n") r.2 >>= λ t.
          some (3, t))
      else (put_at r.1 r.0 0 >>= λ name.
          ece391_fdputs sys (pos 1) (c_string "Hello, ") r.2 >>= λ s2.
          ece391_fdputs sys (pos 1) name s2 >>= λ t. some (0, t))

  -- `main` of ece391testprint.c
  unfoldable pub testprint : S → Option (ℕ × S)
  testprint s =
      ece391_fdputs sys (pos 1) (c_string "Hello, if this ran, the program was correct. Yay!\n") s
      >>= λ t. some (0, t)
