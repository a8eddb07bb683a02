-- ===== src/Programs/Shell/OnKernel.antt =====
-- The reads of the shell on the kernel: lines that are typed while it waits.
use my_linux_os.Common.{
  ℕ, zero, suc, ◌+◌, ◌≤◌, min, ◌≡◌, ◌≢◌, refl, ap, ap₂, List, [], ◌∷◌, ◌++◌, some, map, take,
  length, get_elem?, ◌>>=◌, arith,
}
use my_linux_os.Common.Int.{pos}
use my_linux_os.Str.Length.{NoNul}
use my_linux_os.Pcb.{FileDescriptor, stdin_ops}
use my_linux_os.Keys.Letters.{letter}
use my_linux_os.Input.Typing.{Quiet, Typed, Codes, length-map_letters, terminal_read-Typed}
use my_linux_os.Kernel.{Kernel, curr_pcb, read_fn}
use my_linux_os.Kernel.Dispatch.{syscall_read-table}
use my_linux_os.Programs.Text.{chars, no_nul-NoNul}
use my_linux_os.Programs.OnKernel.{Machine, Outside, next, world, kernel_system}
use my_linux_os.Programs.OnKernel.Terminal.{Prints, shown, fdputs-shown}
use my_linux_os.Programs.Shell.Session.{Reads}

-- Descriptor 0 of the caller is the keyboard.
pub record Types (k : Kernel) : Type 0 where
  pub entry : FileDescriptor
  pub at : get_elem? (curr_pcb k).fd_array 0 ≡ some entry
  pub in_use : entry.flags ≢ 0
  pub table : entry.file_ops_table ≡ some stdin_ops

take_all : (n : ℕ) (xs : List ℕ) → length xs ≤ n → take n xs ≡ xs
take_all zero [] h = refl
take_all zero (x ∷ xs) h = absurd (omega arith)
take_all (suc n) [] h = refl
take_all (suc n) (x ∷ xs) h = ap (λ (t : List ℕ). x ∷ t) (take_all n xs (omega arith))

-- The kernel shows the prompt and gives the shell the line of letters that is typed during the read.
pub Reads-typed :
    (o : Outside) (is keys : List ℕ) (m : Machine)
    → Prints (curr_pcb m.kernel)
    → Types m.kernel
    → Quiet m.kernel.console.keys
    → Codes is keys
    → Typed keys (world o (shown (chars "391OS> ") m)).keys
    → length is ≤ 128
    → NoNul (map (letter m.kernel.console.keys) is)
    → (m' : Machine) × Reads (kernel_system o) (map (letter m.kernel.console.keys) is) m m'
unfolding read_fn
Reads-typed o is keys m p d quiet codes typed short plain =
    let text : List ℕ = map (letter m.kernel.console.keys) is in
    let m1 : Machine = shown (chars "391OS> ") m in
    let size : length text ≡ length is = length-map_letters m.kernel.console.keys is in
    let (c', run, _, _, _) =
      terminal_read-Typed 1023 is keys (world o m1).keys m1.kernel.console (omega arith) typed codes
        quiet (omega arith) in
    let count : min (min 1023 128) (length is) + 1 ≡ length text + 1 = omega (arith, size) in
    (
      next m1 (record (m1.kernel) { console = c' }),
      record {
        prompted = m1;
        prompt = fdputs-shown o m (chars "391OS> ") p (no_nul-NoNul (chars "391OS> ") refl);
        is_line = record { text = plain; short = omega (arith, size) };
        reads =
            rw
              (
                syscall_read-table (world o m1) m1.kernel 0 (pos 1023) d.entry stdin_ops
                    (omega arith) d.at d.in_use d.table,
                ◌>>=◌,
                run,
                ◌>>=◌,
              )
              (ap₂
                (λ (n : ℕ) (t : List ℕ).
                  some (pos n, t ++ 0x0a ∷ [], next m1 (record (m1.kernel) { console = c' })))
                count (take_all 128 text (omega (arith, size))));
      },
    )
