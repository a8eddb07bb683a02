-- ===== src/Programs/Counter/Up.antt =====
-- The loop of the counter, on the kernel.
use my_linux_os.Common.{
  ℕ, zero, suc, ◌+◌, ◌^◌, ◌<◌, ◌≡◌, refl, sym, ◌∙◌, List, [], ◌∷◌, ◌++◌, some, ◌>>=◌, length,
  length-append, length-drop, drop, arith,
}
use my_linux_os.Str.Length.{NoNul}
use my_linux_os.Str.Digits.{Numeral, IsShortest}
use my_linux_os.Str.Number.{itoa-number}
use my_linux_os.Printf.Pieces.{put_all, put_all-append}
use my_linux_os.Kernel.{curr_pcb}
use my_linux_os.Support.{ece391_itoa}
use my_linux_os.Support.Number.{ece391_itoa-itoa}
use my_linux_os.Programs.Text.{chars, no_nul-NoNul}
use my_linux_os.Programs.OnKernel.{Machine, Outside, kernel_system}
use my_linux_os.Programs.OnKernel.Terminal.{Prints, shown, fdputs_rest, fdputs-shown}
use my_linux_os.Programs.Counter.{count_up}

-- The decimal numerals of the `n` numbers behind `i`, without zeros in front, each with a line feed
-- behind it.
pub data CountsUp : ℕ → ℕ → List ℕ → Type 0 where
  done : (i : ℕ) → CountsUp i zero []
  counted :
      (i n : ℕ) (numeral text : List ℕ)
      → Numeral 10 (i + 1) numeral
      → IsShortest 10 (i + 1) numeral
      → CountsUp (i + 1) n text
      → CountsUp i (suc n) (numeral ++ 0x0a ∷ text)

Numeral-buffer :
    (i : ℕ) (buf : List ℕ)
    → i + 1 < 2 ^ 32
    → 32 < length buf
    → (t rest : List ℕ) × (ece391_itoa (i + 1) buf 10 ≡ some (t ++ 0 ∷ rest))
      × NoNul t
      × Numeral 10 (i + 1) t
      × IsShortest 10 (i + 1) t
      × (length (t ++ 0 ∷ rest) ≡ length buf)
Numeral-buffer i buf small room =
    let (t, is, plain, numeral, shortest, short) =
      itoa-number (i + 1) buf 10 small (omega arith) (omega arith) room in
    (
      t,
      drop (suc (length t)) buf,
      ece391_itoa-itoa (i + 1) buf 10 ∙ is,
      plain,
      numeral,
      shortest,
      length-append t (0 ∷ drop (suc (length t)) buf)
          ∙ omega (arith, length-drop (suc (length t)) buf, short, room),
    )

-- The loop of the counter, on the kernel with the terminal at descriptor 1: from `i` on, `n` rounds
-- of it show the decimal numerals of the `n` numbers behind `i`, in order: the digits `0` to `9`
-- without a zero in front, and a line feed behind each number, as long as those numbers are below
-- 2^32 and the buffer has more than 32 bytes.
pub count_up-CountsUp :
    (o : Outside) (n i : ℕ) (buf : List ℕ) (m : Machine)
    → Prints (curr_pcb m.kernel)
    → i + n < 2 ^ 32
    → 32 < length buf
    → (text : List ℕ) × (m' : Machine) × CountsUp i n text
      × (count_up (kernel_system o) n i buf m ≡ some m')
      × (m'.kernel.console.screen ≡ put_all text m.kernel.console.screen)
unfolding count_up
count_up-CountsUp o zero i buf m p small room = ([], m, done i, refl, refl)
count_up-CountsUp o (suc n) i buf m p small room =
    let (t, rest, is, plain, numeral, shortest, size) = Numeral-buffer i buf (omega arith) room in
    let m2 : Machine = shown (chars "\n") (shown t m) in
    let (text, m', counts, runs, seen) =
      count_up-CountsUp o n (i + 1) (t ++ 0 ∷ rest) m2 p (omega arith) (omega (arith, size)) in
    (
      t ++ 0x0a ∷ text,
      m',
      counted i n t text numeral shortest counts,
      rw
          (
            is,
            ◌>>=◌,
            fdputs_rest o m t rest p plain,
            ◌>>=◌,
            fdputs-shown o (shown t m) (chars "\n") p (no_nul-NoNul (chars "\n") refl),
            ◌>>=◌,
          )
          runs,
      seen ∙ sym (put_all-append t (0x0a ∷ text) m.kernel.console.screen),
    )
