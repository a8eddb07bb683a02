-- ===== src/Programs/OnKernel/Terminal.antt =====
-- What a program writes to the terminal, through the kernel.
use my_linux_os.Common.{
  ◌∙◌, ◌≤◌, get_elem?-set_ne, ℕ, ◌≡◌, ◌≢◌, refl, ap, List, [], ◌∷◌, ◌++◌, some, ◌==◌, if◌then◌else◌,
  ◌>>=◌, get_elem?, length, arith, ne→==, Bool-cases, inl, inr,
}
use my_linux_os.Common.Int.{pos}
use my_linux_os.Str.Length.{NoNul}
use my_linux_os.Pcb.{Pcb, FileDescriptor, stdout_ops}
use my_linux_os.Screen.{Screen, putc}
use my_linux_os.Printf.Pieces.{put_all}
use my_linux_os.Terminal.{terminal_write, write_chars}
use my_linux_os.Support.{ece391_strlen}
use my_linux_os.Screen.Cells.{CursorAt}
use my_linux_os.Screen.Apart.{AgreeApart, putc_apart}
use my_linux_os.Kernel.Blocks.{set_pcb_self}
use my_linux_os.Kernel.Dispatch.{moved}
use my_linux_os.Kernel.{Kernel, curr_pcb, with_screen, write_fn}
use my_linux_os.Programs.{ece391_fdputs}
use my_linux_os.Kernel.Dispatch.{syscall_write-table}
use my_linux_os.Programs.OnKernel.{world, Machine, next, Outside, kernel_system}

-- Descriptor 1 of the process is the terminal.
pub record Prints (p : Pcb) : Type 0 where
  pub entry : FileDescriptor
  pub at : get_elem? p.fd_array 1 ≡ some entry
  pub in_use : entry.flags ≢ 0
  pub table : entry.file_ops_table ≡ some stdout_ops

-- What the terminal shows of a text: the bytes that are not null.
abbrev pub visible : List ℕ → List ℕ
visible [] = []
visible (c ∷ text) = if c == 0 then visible text else c ∷ visible text

pub visible-NoNul : (text : List ℕ) → NoNul text → visible text ≡ text
visible-NoNul [] plain = refl
visible-NoNul (c ∷ text) (nul, plain) =
    rw (ne→== c 0 nul) (ap (λ (t : List ℕ). c ∷ t) (visible-NoNul text plain))

pub visible-append : (a b : List ℕ) → visible (a ++ b) ≡ visible a ++ visible b
visible-append [] b = refl
visible-append (c ∷ a) b = elim (Bool-cases (c == 0)) [
  | inl e ↦ rw e (visible-append a b)
  | inr e ↦ rw e (ap (λ (t : List ℕ). c ∷ t) (visible-append a b))
]

write_chars-visible :
    (text more : List ℕ) (s : Screen)
    → write_chars (length text) (text ++ more) s ≡ some (put_all (visible text) s)
unfolding write_chars
write_chars-visible [] more s = refl
write_chars-visible (c ∷ text) more s = elim (Bool-cases (c == 0)) [
  | inl e ↦ rw e (write_chars-visible text more s)
  | inr e ↦ rw e (write_chars-visible text more (putc c s))
]

strlen_text :
    (text rest : List ℕ) → NoNul text → ece391_strlen (text ++ 0 ∷ rest) ≡ some (length text)
unfolding ece391_strlen
strlen_text [] rest plain = refl
strlen_text (c ∷ text) rest (nul, plain) =
    rw (ne→== c 0 nul, strlen_text text rest plain, ◌>>=◌) (ap (λ n. some n) (omega arith))

-- The machine when the program has shown a text.
abbrev pub shown : List ℕ → Machine → Machine
shown text m = next m (with_screen (put_all text m.kernel.console.screen) m.kernel)

pub write-visible :
    (o : Outside) (m : Machine) (text more : List ℕ)
    → Prints (curr_pcb m.kernel)
    → (kernel_system o).ece391_write (pos 1) (text ++ more) (pos (length text)) m
      ≡ some (pos 0, shown (visible text) m)
unfolding write_fn terminal_write
write-visible o m text more p =
    rw
      (
        syscall_write-table (world o m) m.kernel 1 (length text) (text ++ more) p.entry stdout_ops
            (omega arith) p.at p.in_use p.table,
        ◌>>=◌,
        write_chars-visible text more m.kernel.console.screen,
      )
      refl

pub fdputs_rest :
    (o : Outside) (m : Machine) (text rest : List ℕ)
    → Prints (curr_pcb m.kernel)
    → NoNul text
    → ece391_fdputs (kernel_system o) (pos 1) (text ++ 0 ∷ rest) m ≡ some (shown text m)
unfolding ece391_fdputs
fdputs_rest o m text rest p plain =
    rw
      (
        strlen_text text rest plain,
        ◌>>=◌,
        write-visible o m text (0 ∷ rest) p,
        visible-NoNul text plain,
      )
      refl

pub fdputs-shown :
    (o : Outside) (m : Machine) (text : List ℕ)
    → Prints (curr_pcb m.kernel)
    → NoNul text
    → ece391_fdputs (kernel_system o) (pos 1) (text ++ 0 ∷ []) m ≡ some (shown text m)
fdputs-shown o m text p plain = fdputs_rest o m text [] p plain

-- The cursor is on the screen.
pub record OnScreen (s : Screen) : Type 0 where
  pub row : ℕ
  pub col : ℕ
  pub cursor : CursorAt s row col

pub put_all_apart :
    (text : List ℕ) (s : Screen)
    → OnScreen s
    → OnScreen (put_all text s) × AgreeApart s.mem (put_all text s).mem
put_all_apart [] s c = (c, λ a off. refl)
put_all_apart (b ∷ text) s c =
    let (y, x, at, same) = putc_apart b s c.row c.col c.cursor in
    let (on, all) = put_all_apart text (putc b s) (record { row = y; col = x; cursor = at }) in
    (on, λ a off. all a off ∙ same a off)

pub Prints-moved :
    (k : Kernel) (fd n : ℕ) (d : FileDescriptor)
    → 2 ≤ fd
    → Prints (curr_pcb k)
    → Prints (curr_pcb (moved fd d n k))
Prints-moved k fd n d h p = record {
  entry = p.entry;
  at =
      ap (λ (q : Pcb). get_elem? q.fd_array 1) (set_pcb_self k.pid _ k.pcbs)
      ∙ get_elem?-set_ne (curr_pcb k).fd_array fd 1 _ (omega arith)
      ∙ p.at;
  in_use = p.in_use;
  table = p.table;
}
