-- ===== src/Programs/Syserr.antt =====
-- myLinuxOS/syscalls/ece391syserr.c: the programs' tests of the errors of system calls. `buf` is the
-- uninitialised buffer of a test.
pub mod Passes
use my_linux_os.Common.{
  ℕ, zero, suc, ◌+◌, List, [], ◌∷◌, Option, none, some, Bool, true, false, ◌==◌, if◌then◌else◌,
  ◌>>=◌, get_elem?,
}
use my_linux_os.Common.Int.{ℤ, pos, negsuc, minus_one, eqb_ℤ, ◌+ℤ◌, ◌-ℤ◌}
use my_linux_os.Programs.{System, read_into, ece391_fdputs}
use my_linux_os.Programs.Text.{c_string}

abbrev pub neg_fd : ℤ
neg_fd = negsuc 1073741822

abbrev pub big_fd : ℤ
big_fd = pos 1073741823

abbrev pub big_num : ℤ
big_num = pos 1073741823

abbrev pub neg_num : ℤ
neg_num = negsuc 1073741822

module _ {S : Type 0} (sys : System S) where
  abbrev puts1 : List ℕ → S → Option S
  puts1 text s = ece391_fdputs sys (pos 1) text s

  -- `if (-1 != call) { fail = 2; ece391_fdputs (1, message); }`
  unfoldable pub expect_failure : List ℕ → ℤ → ℕ → S → Option (ℕ × S)
  expect_failure message r fail s =
      if eqb_ℤ r minus_one then some (fail, s) else (puts1 message s >>= λ s'. some (2, s'))

  -- `if (fail) ... else ...`, and the return.
  unfoldable pub verdict : (failed passed : List ℕ) → ℕ × S → Option (ℕ × S)
  verdict failed passed (fail, s) =
      puts1 (if fail == 0 then passed else failed) s >>= λ s'. some (fail, s')

  -- The three calls of `err_neg_fd` and of `err_big_fd`.
  unfoldable pub calls_fail : ℤ → List ℕ → S → Option (ℕ × S)
  unfolding expect_failure
  calls_fail fd buf s = read_into sys fd buf (pos 31) s >>= λ r.
      expect_failure (c_string "read fail\n") r.0 0 r.2 >>= λ a.
      sys.ece391_write fd r.1 (pos 31) a.1 >>= λ w.
      expect_failure (c_string "write fail\n") w.0 a.0 w.1 >>= λ b.
      sys.ece391_close fd b.1 >>= λ c. expect_failure (c_string "close fail\n") c.0 b.0 c.1

  -- `err_neg_fd`
  unfoldable pub err_neg_fd : List ℕ → S → Option (ℕ × S)
  unfolding calls_fail verdict
  err_neg_fd buf s =
      calls_fail neg_fd buf s
      >>= verdict (c_string "err_neg_fd: FAIL\n") (c_string "err_neg_fd: PASS\n")

  -- `err_big_fd`
  unfoldable pub err_big_fd : List ℕ → S → Option (ℕ × S)
  unfolding calls_fail verdict
  err_big_fd buf s =
      calls_fail big_fd buf s
      >>= verdict (c_string "err_big_fd: FAIL\n") (c_string "err_big_fd: PASS\n")

  -- The first loop of `err_open_lots`, `n` rounds: how many of the calls fail.
  unfoldable pub open_lots : ℕ → ℕ → S → Option (ℕ × S)
  open_lots zero cnt s = some (cnt, s)
  open_lots (suc n) cnt s = sys.ece391_open (c_string ".") s >>= λ r.
      open_lots n (if eqb_ℤ r.0 minus_one then cnt + 1 else cnt) r.1

  -- Its second loop, `n` rounds from descriptor `i` on.
  unfoldable pub close_lots : ℕ → ℕ → S → Option S
  close_lots zero i s = some s
  close_lots (suc n) i s = sys.ece391_close (pos i) s >>= λ r. close_lots n (i + 1) r.1

  -- `err_open_lots`
  unfoldable pub err_open_lots : S → Option (ℕ × S)
  unfolding open_lots close_lots
  err_open_lots s = open_lots 7 0 s >>= λ a. close_lots 6 2 a.1 >>= λ s'.
      if a.0 == 1
      then (puts1 (c_string "err_open_lots: PASS\n") s' >>= λ t. some (0, t))
      else (puts1 (c_string "err_open_lots: FAIL\n") s' >>= λ t. some (2, t))

  -- `err_open`
  unfoldable pub err_open : S → Option (ℕ × S)
  unfolding expect_failure verdict
  err_open s = sys.ece391_open (c_string "helloo") s >>= λ r.
      expect_failure (c_string "'helloo' fail\n") r.0 0 r.1 >>= λ a.
      sys.ece391_open (c_string "shel") a.1 >>= λ q.
      expect_failure (c_string "'shel' fail\n") q.0 a.0 q.1 >>= λ b.
      sys.ece391_open (c_string "") b.1 >>= λ p.
      expect_failure (c_string "empty string fail\n") p.0 b.0 p.1
      >>= verdict (c_string "err_open: FAIL\n") (c_string "err_open: PASS\n")

  -- The loops of `err_unopened`, `n` rounds from descriptor `i` on.
  unfoldable pub close_unopened : ℕ → ℕ → ℕ → S → Option (ℕ × S)
  unfolding expect_failure
  close_unopened zero i fail s = some (fail, s)
  close_unopened (suc n) i fail s = sys.ece391_close (pos i) s >>= λ r.
      expect_failure (c_string "close unopened or invalid fd fail\n") r.0 fail r.1 >>= λ a.
      close_unopened n (i + 1) a.0 a.1

  unfoldable pub read_unopened : ℕ → ℕ → List ℕ → ℕ → S → Option (ℕ × List ℕ × S)
  unfolding expect_failure
  read_unopened zero i buf fail s = some (fail, buf, s)
  read_unopened (suc n) i buf fail s = read_into sys (pos i) buf (pos 31) s >>= λ r.
      expect_failure (c_string "read from unopened fd fail\n") r.0 fail r.2 >>= λ a.
      read_unopened n (i + 1) r.1 a.0 a.1

  unfoldable pub write_unopened : ℕ → ℕ → List ℕ → ℕ → S → Option (ℕ × S)
  unfolding expect_failure
  write_unopened zero i buf fail s = some (fail, s)
  write_unopened (suc n) i buf fail s = sys.ece391_write (pos i) buf (pos 31) s >>= λ r.
      expect_failure (c_string "write to unopened fd fail\n") r.0 fail r.1 >>= λ a.
      write_unopened n (i + 1) buf a.0 a.1

  -- `err_unopened`
  unfoldable pub err_unopened : List ℕ → S → Option (ℕ × S)
  unfolding close_unopened read_unopened write_unopened verdict
  err_unopened buf s = close_unopened 8 0 0 s >>= λ a. read_unopened 6 2 buf a.0 a.1 >>= λ b.
      write_unopened 6 2 b.1 b.0 b.2
      >>= verdict (c_string "err_unopened: FAIL\n") (c_string "err_unopened: PASS\n")

  -- `err_vidmap`
  unfoldable pub err_vidmap : S → Option (ℕ × S)
  unfolding expect_failure verdict
  err_vidmap s = sys.ece391_vidmap 0 s >>= λ r.
      expect_failure (c_string "Null pointer fail\n") r.0 0 r.1 >>= λ a.
      sys.ece391_vidmap 0x400000 a.1 >>= λ q.
      expect_failure (c_string "Kernel pointer fail fail\n") q.0 a.0 q.1
      >>= verdict (c_string "err_vidmap: FAIL\n") (c_string "err_vidmap: PASS\n")

  -- `err_stdin_out`
  unfoldable pub err_stdin_out : List ℕ → S → Option (ℕ × S)
  unfolding expect_failure verdict
  err_stdin_out buf s = sys.ece391_write (pos 0) buf (pos 31) s >>= λ r.
      expect_failure (c_string "write to stdin fail\n") r.0 0 r.1 >>= λ a.
      read_into sys (pos 1) buf (pos 31) a.1 >>= λ q.
      expect_failure (c_string "read from stdout fail\n") q.0 a.0 q.2
      >>= verdict (c_string "err_stdin_out: FAIL\n") (c_string "err_stdin_out: PASS\n")

  -- `err_syscall_num`
  unfoldable pub err_syscall_num : S → Option (ℕ × S)
  unfolding expect_failure verdict
  err_syscall_num s = sys.call_sys big_num s >>= λ r.
      expect_failure (c_string "syscall 0 fail\n") r.0 0 r.1 >>= λ a.
      sys.call_sys neg_num a.1 >>= λ q.
      expect_failure (c_string "big num syscall fail\n") q.0 a.0 q.1 >>= λ b.
      sys.call_sys (pos 0) b.1 >>= λ p.
      expect_failure (c_string "neg num syscall fail\n") p.0 b.0 p.1
      >>= verdict (c_string "err_syscall_num: FAIL\n") (c_string "err_syscall_num: PASS\n")

  -- `fail += test();`
  abbrev pub and_then : (S → Option (ℕ × S)) → ℕ × S → Option (ℕ × S)
  and_then test (fail, s) = test s >>= λ r. some (fail + r.0, r.1)

  -- Case 0 of `main`: all tests, in order.
  unfoldable pub run_all : (ℕ → List ℕ) → S → Option (ℕ × S)
  unfolding err_neg_fd err_big_fd err_open_lots err_open err_unopened err_vidmap err_stdin_out
      err_syscall_num
  run_all bufs s =
      and_then (err_neg_fd (bufs 1)) (0, s)
      >>= and_then (err_big_fd (bufs 2))
      >>= and_then err_open_lots
      >>= and_then err_open
      >>= and_then (err_unopened (bufs 5))
      >>= and_then err_vidmap
      >>= and_then (err_stdin_out (bufs 7))
      >>= and_then err_syscall_num
      >>= verdict (c_string "\nOverall Tests: FAIL\n") (c_string "\nOverall Tests: PASS\n")

  -- The `switch` of `main` on `buf[0] - '0'`.
  unfoldable pub select_test : (ℕ → List ℕ) → ℤ → S → Option (ℕ × S)
  unfolding run_all
  select_test bufs select s =
      if eqb_ℤ select (pos 0)
      then run_all bufs s
      else if eqb_ℤ select (pos 1)
      then err_neg_fd (bufs 1) s
      else if eqb_ℤ select (pos 2)
      then err_big_fd (bufs 2) s
      else if eqb_ℤ select (pos 3)
      then err_open_lots s
      else if eqb_ℤ select (pos 4)
      then err_open s
      else if eqb_ℤ select (pos 5)
      then err_unopened (bufs 5) s
      else if eqb_ℤ select (pos 6)
      then err_vidmap s
      else if eqb_ℤ select (pos 7)
      then err_stdin_out (bufs 7) s
      else if eqb_ℤ select (pos 8)
      then err_syscall_num s
      else (puts1 (c_string "Invalid test number. Choose from tests 1-8 or 0") s >>= λ s'.
          some (0, s'))

  -- `main`; `buf` is its own buffer, `bufs` has those of the tests by their numbers.
  unfoldable pub main : List ℕ → (ℕ → List ℕ) → S → Option (ℕ × S)
  unfolding select_test
  main buf bufs s = puts1 (c_string "Choose from tests 1-8. 0 to run all: ") s >>= λ s1.
      read_into sys (pos 0) buf (pos 127) s1 >>= λ r.
      if eqb_ℤ r.0 minus_one
      then (puts1 (c_string "Can't read test #\n") r.2 >>= λ s2. some (2, s2))
      else (get_elem? r.1 0 >>= λ digit. select_test bufs (pos digit -ℤ pos 48) r.2)
