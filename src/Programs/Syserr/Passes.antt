-- ===== src/Programs/Syserr/Passes.antt =====
-- The tests of ece391syserr.c, run on the kernel.
use my_linux_os.Common.{
  ℕ, zero, suc, ◌+◌, ◌≤◌, ◌<◌, ◌≡◌, ◌≢◌, refl, sym, ap, subst, ◌∙◌, List, [], ◌∷◌, ◌++◌, Option,
  some, true, ◌>>=◌, get_elem?, arith,
}
use native.Mathlib.Decide.{dec_lt}
use my_linux_os.Common.Int.{ℤ, pos}
use my_linux_os.Str.Length.{NoNul}
use my_linux_os.Pcb.{Pcb, FileDescriptor, stdin_ops}
use my_linux_os.Printf.Pieces.{put_all}
use my_linux_os.Kernel.{Kernel, curr_pcb, with_screen}
use my_linux_os.Kernel.Refusals.{Refused, negative, too_large, closed}
use my_linux_os.Programs.Text.{chars, c_string, no_nul, no_nul-NoNul}
use my_linux_os.Programs.OnKernel.{Machine, Outside, kernel_system}
use my_linux_os.Programs.OnKernel.Terminal.{Prints, shown, fdputs-shown}
use my_linux_os.Programs.OnKernel.Refused.{
  later, Unclosable, below, terminal, above, unopened, read-Refused, write-Refused,
  close-Unclosable, write-stdin, read-stdout, vidmap-outside, call_sys-outside,
}
use my_linux_os.Programs.Syserr.{
  neg_fd, big_fd, big_num, neg_num, expect_failure, verdict, calls_fail, err_neg_fd, err_big_fd,
  close_unopened, read_unopened, write_unopened, err_unopened, err_vidmap, err_stdin_out,
  err_syscall_num,
}

-- A process with the terminal at the descriptors 0 and 1, and the others closed.
pub record OnlyTerminal (p : Pcb) : Type 0 where
  pub prints : Prints p
  pub stdin : FileDescriptor
  pub at : get_elem? p.fd_array 0 ≡ some stdin
  pub in_use : stdin.flags ≢ 0
  pub table : stdin.file_ops_table ≡ some stdin_ops
  pub rest :
      (i : ℕ)
      → 2 ≤ i
      → i < 8
      → (d : FileDescriptor) × (get_elem? p.fd_array i ≡ some d) × (d.flags ≡ 0)

-- A test that returns 0 and has shown its line, with the rest of the kernel as before.
abbrev pub PassesWith : List ℕ → Machine → Option (ℕ × Machine) → Type 0
PassesWith text m r =
    (m' : Machine) × (r ≡ some (0, m'))
    × (m'.kernel ≡ with_screen (put_all text m.kernel.console.screen) m.kernel)

unclosable : (p : Pcb) → OnlyTerminal p → (j : ℕ) → j < 8 → Unclosable p (pos j)
unclosable p f j h = elim (dec_lt j 2) [
  | yes low ↦ terminal j low
  | no high ↦ let (d, at, is) = f.rest j (omega arith) h in unopened j d (omega arith) h at is
]

module _ (o : Outside) where
  verdict-passed :
      (failed text : List ℕ) (m : Machine)
      → Prints (curr_pcb m.kernel)
      → NoNul text
      → verdict (kernel_system o) failed (text ++ 0 ∷ []) (0, m) ≡ some (0, shown text m)
  unfolding verdict
  verdict-passed failed text m p plain = rw (fdputs-shown o m text p plain, ◌>>=◌) refl

  calls_fail-Refused :
      (fd : ℤ) (buf : List ℕ) (m : Machine)
      → ((b : Option (List ℕ)) → Refused (curr_pcb m.kernel) fd b)
      → Unclosable (curr_pcb m.kernel) fd
      → calls_fail (kernel_system o) fd buf m ≡ some (0, later 3 m)
  unfolding calls_fail expect_failure
  calls_fail-Refused fd buf m r u =
      rw
        (
          read-Refused o m fd (pos 31) (r (some [])),
          ◌>>=◌,
          write-Refused o (later 1 m) fd (pos 31) buf (r (some buf)),
          ◌>>=◌,
          close-Unclosable o (later 2 m) fd u,
          ◌>>=◌,
        )
        refl

  close_unopened-shut :
      (n i : ℕ) (m : Machine)
      → i + n ≤ 8
      → ((j : ℕ) → j < 8 → Unclosable (curr_pcb m.kernel) (pos j))
      → close_unopened (kernel_system o) n i 0 m ≡ some (0, later n m)
  unfolding close_unopened expect_failure
  close_unopened-shut zero i m h shut = refl
  close_unopened-shut (suc n) i m h shut =
      rw (close-Unclosable o m (pos i) (shut i (omega arith)), ◌>>=◌)
        (close_unopened-shut n (i + 1) (later 1 m) (omega arith) shut)

  read_unopened-shut :
      (n i : ℕ) (buf : List ℕ) (m : Machine)
      → i + n ≤ 8
      → 2 ≤ i
      → ((j : ℕ) → 2 ≤ j → j < 8 → (b : Option (List ℕ)) → Refused (curr_pcb m.kernel) (pos j) b)
      → read_unopened (kernel_system o) n i buf 0 m ≡ some (0, buf, later n m)
  unfolding read_unopened expect_failure
  read_unopened-shut zero i buf m h k shut = refl
  read_unopened-shut (suc n) i buf m h k shut =
      rw (read-Refused o m (pos i) (pos 31) (shut i k (omega arith) (some [])), ◌>>=◌)
        (read_unopened-shut n (i + 1) buf (later 1 m) (omega arith) (omega arith) shut)

  write_unopened-shut :
      (n i : ℕ) (buf : List ℕ) (m : Machine)
      → i + n ≤ 8
      → 2 ≤ i
      → ((j : ℕ) → 2 ≤ j → j < 8 → (b : Option (List ℕ)) → Refused (curr_pcb m.kernel) (pos j) b)
      → write_unopened (kernel_system o) n i buf 0 m ≡ some (0, later n m)
  unfolding write_unopened expect_failure
  write_unopened-shut zero i buf m h k shut = refl
  write_unopened-shut (suc n) i buf m h k shut =
      rw (write-Refused o m (pos i) (pos 31) buf (shut i k (omega arith) (some buf)), ◌>>=◌)
        (write_unopened-shut n (i + 1) buf (later 1 m) (omega arith) (omega arith) shut)

  passed :
      (failed text : List ℕ) (m m1 : Machine) (run : Option (ℕ × Machine))
      → Prints (curr_pcb m.kernel)
      → no_nul text ≡ true
      → m1.kernel ≡ m.kernel
      → run ≡ verdict (kernel_system o) failed (text ++ 0 ∷ []) (0, m1)
      → PassesWith text m run
  passed failed text m m1 run p plain same is = (
    shown text m1,
    is
        ∙ verdict-passed failed text m1 (subst (λ (k : Kernel). Prints (curr_pcb k)) (sym same) p)
            (no_nul-NoNul text plain),
    ap (λ (k : Kernel). with_screen (put_all text k.console.screen) k) same,
  )

  -- In a process with the terminal at the descriptors 0 and 1 and the others closed, six of the eight
  -- tests of the programs pass on the kernel: those of a negative and of a big descriptor, of the
  -- descriptors that are not open, of the pointers for the video memory, of writes to the keyboard
  -- and reads from the screen, and of the numbers that no call has. Each returns 0, shows its line
  -- with PASS and nothing else, and leaves the rest of the kernel as it was.
  pub tests_pass :
      (buf : List ℕ) (m : Machine)
      → OnlyTerminal (curr_pcb m.kernel)
      → PassesWith (chars "err_neg_fd: PASS\n") m (err_neg_fd (kernel_system o) buf m)
        × PassesWith (chars "err_big_fd: PASS\n") m (err_big_fd (kernel_system o) buf m)
        × PassesWith (chars "err_unopened: PASS\n") m (err_unopened (kernel_system o) buf m)
        × PassesWith (chars "err_vidmap: PASS\n") m (err_vidmap (kernel_system o) m)
        × PassesWith (chars "err_stdin_out: PASS\n") m (err_stdin_out (kernel_system o) buf m)
        × PassesWith (chars "err_syscall_num: PASS\n") m (err_syscall_num (kernel_system o) m)
  unfolding err_neg_fd err_big_fd err_unopened err_vidmap err_stdin_out err_syscall_num
      expect_failure
  tests_pass buf m f =
      let shut : (j : ℕ)
          → 2 ≤ j
          → j < 8
          → (b : Option (List ℕ)) → Refused (curr_pcb m.kernel) (pos j) b =
        λ j a c b. (let (d, at, is) = f.rest j a c in closed j d b c at is) in
      (
        passed (c_string "err_neg_fd: FAIL\n") (chars "err_neg_fd: PASS\n") m (later 3 m)
            (err_neg_fd (kernel_system o) buf m) f.prints refl refl
            (rw
              (
                calls_fail-Refused neg_fd buf m (λ b. negative 1073741822 b) (below 1073741822),
                ◌>>=◌,
              )
              refl),
        passed (c_string "err_big_fd: FAIL\n") (chars "err_big_fd: PASS\n") m (later 3 m)
            (err_big_fd (kernel_system o) buf m) f.prints refl refl
            (rw
              (
                calls_fail-Refused big_fd buf m (λ b. too_large 1073741823 b (omega arith))
                    (above 1073741823 (omega arith)),
                ◌>>=◌,
              )
              refl),
        passed (c_string "err_unopened: FAIL\n") (chars "err_unopened: PASS\n") m
            (later 6 (later 6 (later 8 m))) (err_unopened (kernel_system o) buf m) f.prints refl
            refl
            (rw
              (
                close_unopened-shut 8 0 m (omega arith) (unclosable (curr_pcb m.kernel) f),
                ◌>>=◌,
                read_unopened-shut 6 2 buf (later 8 m) (omega arith) (omega arith) shut,
                ◌>>=◌,
                write_unopened-shut 6 2 buf (later 6 (later 8 m)) (omega arith) (omega arith) shut,
                ◌>>=◌,
              )
              refl),
        passed (c_string "err_vidmap: FAIL\n") (chars "err_vidmap: PASS\n") m (later 2 m)
            (err_vidmap (kernel_system o) m) f.prints refl refl
            (rw
              (
                vidmap-outside o m 0 (omega arith),
                ◌>>=◌,
                vidmap-outside o (later 1 m) 0x400000 (omega arith),
                ◌>>=◌,
              )
              refl),
        passed (c_string "err_stdin_out: FAIL\n") (chars "err_stdin_out: PASS\n") m (later 2 m)
            (err_stdin_out (kernel_system o) buf m) f.prints refl refl
            (rw
              (
                write-stdin o m 0 31 f.stdin buf (omega arith) f.at f.in_use f.table,
                ◌>>=◌,
                read-stdout o (later 1 m) 1 (pos 31) f.prints.entry (omega arith) f.prints.at
                    f.prints.in_use f.prints.table,
                ◌>>=◌,
              )
              refl),
        passed (c_string "err_syscall_num: FAIL\n") (chars "err_syscall_num: PASS\n") m (later 3 m)
            (err_syscall_num (kernel_system o) m) f.prints refl refl
            (rw
              (
                call_sys-outside o m big_num refl,
                ◌>>=◌,
                call_sys-outside o (later 1 m) neg_num refl,
                ◌>>=◌,
                call_sys-outside o (later 2 m) (pos 0) refl,
                ◌>>=◌,
              )
              refl),
      )
