-- ===== src/Exceptions/Squash.antt =====
-- A program that raises an exception ends with the value 256.
use my_linux_os.Common.{
  ℕ, zero, suc, ◌≡◌, ◌≢◌, refl, sym, ap, subst, ◌∙◌, List, [], ◌∷◌, ◌++◌, some, Bool, true, ◌==◌,
  ◌&&◌, ◌||◌, not, ◌>>=◌, get_elem?, set, length, All, arith,
}
use my_linux_os.Screen.{Screen, putc}
use my_linux_os.Printf.{printf, scan_format}
use my_linux_os.Printf.Pieces.{put_all, put_all-append, scan-letter}
use my_linux_os.Kernel.{Kernel, curr_pcb, with_screen, set_pcb}
use my_linux_os.Process.{
  Frame, resumes, leave, exit_value, syscall_halt, close_all, stack_top, kernel_ds,
}
use my_linux_os.Process.Leave.{halt-leave}
use my_linux_os.Paging.{syscall_helper}
use my_linux_os.Exceptions.{prefix, messages, print_message, exceptions}

-- A text without a null or a percent sign.
abbrev IsPlain : List ℕ → Type 0
IsPlain = All (λ c. (c ≢ 0) × (c ≢ 0x25))

printf-IsPlain :
    (stack text : List ℕ) (s : Screen)
    → IsPlain text
    → printf stack (text ++ 0 ∷ []) [] s ≡ some (length text, put_all text s)
unfolding scan_format
printf-IsPlain stack [] s h = refl
printf-IsPlain stack (c ∷ text) s ((nul, other), h) =
    scan-letter stack s c (length text) (text ++ 0 ∷ []) [] (put_all text (putc c s)) nul other
      (printf-IsPlain stack text (putc c s) h)
    ∙ ap (λ n. some (n, put_all text (putc c s))) (omega arith)

plain_char : ℕ → Bool
plain_char c = not (c == 0 || c == 0x25)

plain_text : List ℕ → Bool
plain_text [] = true
plain_text (c ∷ text) = plain_char c && plain_text text

plain_text-IsPlain : (text : List ℕ) → plain_text text ≡ true → IsPlain text
unfolding plain_text plain_char
plain_text-IsPlain [] h = tt
plain_text-IsPlain (c ∷ text) h =
    ((ground arith, ground arith), plain_text-IsPlain text (ground arith))

plain_texts : List (List ℕ) → Bool
plain_texts [] = true
plain_texts (text ∷ texts) = plain_text text && plain_texts texts

messages_plain : plain_texts messages ≡ true
unfolding plain_texts plain_text plain_char
messages_plain = refl

IsPlain-at :
    (texts : List (List ℕ)) (i : ℕ) (text : List ℕ)
    → plain_texts texts ≡ true
    → get_elem? texts i ≡ some text
    → IsPlain text
unfolding plain_texts
IsPlain-at [] i text h at = absurd (ground (arith, at))
IsPlain-at (t ∷ texts) zero text h at =
    let same : t ≡ text = cc in subst IsPlain same (plain_text-IsPlain t (ground arith))
IsPlain-at (t ∷ texts) (suc i) text h at = IsPlain-at texts i text (ground arith) at

prefix_plain : plain_text prefix ≡ true
unfolding plain_text plain_char
prefix_plain = refl

IsPlain-append : (a b : List ℕ) → IsPlain a → IsPlain b → IsPlain (a ++ b)
IsPlain-append [] b h k = k
IsPlain-append (c ∷ a) b (first, h) k = (first, IsPlain-append a b h k)

print_message_lem :
    (stack : List ℕ) (entry : ℕ) (message : List ℕ) (s : Screen)
    → get_elem? messages entry ≡ some message
    → print_message stack (some message) s ≡ some (put_all (prefix ++ message) s)
unfolding print_message
print_message_lem stack entry message s at =
    rw
      (
        printf-IsPlain stack (prefix ++ message) s (
            IsPlain-append prefix message (plain_text-IsPlain prefix prefix_plain)
              (IsPlain-at messages entry message messages_plain at)),
        ◌>>=◌,
      )
      refl

-- An exception from 0 to 19 in a process other than number 0: its message and a line feed are put on
-- the screen, the number of the process is free, its parent goes on in the frame of the
-- `syscall_execute` that started the process, with the value 256, and no exception is pending.
pub exceptions_lem :
    (stack : List ℕ) (f : Frame) (entry : ℕ) (k : Kernel) (message : List ℕ)
    → get_elem? messages entry ≡ some message
    → (curr_pcb k).pid ≢ 0
    → (k' : Kernel) × (exceptions stack f entry k
        ≡ some (resumes (curr_pcb k).execute_esp (curr_pcb k).execute_ebp 256 k'))
      × (k'.console.screen ≡ put_all ((prefix ++ message) ++ 0x0a ∷ []) k.console.screen)
      × (k'.pid_array ≡ set k.pid_array k.pid 0)
      × (k'.pid ≡ (curr_pcb k).parent_pid)
      × (k'.globalflag ≡ 0)
unfolding exceptions leave exit_value
exceptions_lem stack f entry k message at program =
    let p = curr_pcb k in
    let s1 : Screen = put_all (prefix ++ message) k.console.screen in
    let k1 = record (with_screen (putc 0x0a s1) k) { globalflag = 1 } in
    let runs : exceptions stack f entry k ≡ syscall_halt f 0 k1 =
      rw
        (
          at,
          print_message_lem stack entry message k.console.screen at,
          ◌>>=◌,
          printf-IsPlain stack (0x0a ∷ []) s1 ((omega arith, omega arith), tt),
          ◌>>=◌,
        )
        refl in
    (
      record k1 {
        pid_array = set k.pid_array k.pid 0;
        pid = p.parent_pid;
        parent_pid = (set_pcb k.pid (close_all p) k.pcbs p.parent_pid).parent_pid;
        paging = syscall_helper p.parent_pid k.paging;
        esp0 = stack_top p.parent_pid;
        ss0 = kernel_ds;
        pcbs =
            set_pcb k.pid (record (close_all p) { exception_flag = 256 })
              (set_pcb k.pid (close_all p) k.pcbs);
        globalflag = 0;
      },
      runs ∙ halt-leave f 0 k1 p refl program,
      sym (put_all-append (prefix ++ message) (0x0a ∷ []) k.console.screen),
      refl,
      refl,
      refl,
    )
