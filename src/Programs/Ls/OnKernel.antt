-- ===== src/Programs/Ls/OnKernel.antt =====
-- `ls` on the kernel: its loop shows the names of the directory.
use mathlib.Core.List.{append_assoc}
use my_linux_os.Common.{
  ℕ, zero, suc, ◌+◌, ◌*◌, ◌≤◌, ◌<◌, ◌≡◌, ◌≢◌, inl, inr, refl, sym, ap, ◌∙◌, List, [], ◌∷◌, ◌++◌,
  some, false, ◌>>=◌, length, length-append, arith, Mem,
}
use native.Mathlib.Decide.{dec_lt}
use my_linux_os.Common.Int.{pos, minus_one, eqb_ℤ, ◌+ℤ◌, add_pos}
use my_linux_os.Str.Length.{NoNul}
use my_linux_os.Pcb.{FileDescriptor}
use my_linux_os.FileSys.{FileSys, dentry_at, total_dentries, addr}
use my_linux_os.FileSys.Names.{length-bytes}
use my_linux_os.Screen.Apart.{AgreeApart}
use my_linux_os.Printf.Pieces.{put_all, put_all-append}
use my_linux_os.Kernel.{Kernel, got, memory, curr_pcb}
use my_linux_os.Kernel.Dispatch.{moved, moved_at}
use my_linux_os.Programs.Text.{chars, no_nul-NoNul}
use my_linux_os.Programs.OnKernel.{Machine, Outside, next, world, kernel_system}
use my_linux_os.Programs.OnKernel.Terminal.{
  Prints, OnScreen, put_all_apart, Prints-moved, shown, visible, visible-append, visible-NoNul,
  write-visible, fdputs-shown,
}
use my_linux_os.Programs.Ls.{list_entries}
use my_linux_os.Programs.Ls.Rows.{empty_or_not, cut-NoNul, row_of}
use my_linux_os.Programs.Ls.Entries.{
  entry_at, name_at, DirApart, ListsTo, ended, failed, named, OpenDirectory, syscall_read-entry,
  syscall_read-behind,
}

-- Descriptor `fd` is open on the directory at entry `i`, and writes show on the screen, where `base` is
-- the memory but for the screen.
pub record DirLeft (base : Mem) (fd i : ℕ) (k : Kernel) : Type 0 where
  pub entry : FileDescriptor
  pub opened : OpenDirectory k fd i entry
  pub same : AgreeApart base (memory k)
  pub screen : OnScreen k.console.screen
  pub prints : Prints (curr_pcb k)

some_named : (xs : List ℕ) → xs ≢ [] → eqb_ℤ (pos (length xs)) (pos 0) ≡ false
some_named [] h = absurd (h refl)
some_named (x ∷ xs) h = ground arith

not_failed : (n : ℕ) → eqb_ℤ (pos n) minus_one ≡ false
not_failed n = ground arith

one_more : (name : List ℕ) → pos (length name) +ℤ pos 1 ≡ pos (length (name ++ 0x0a ∷ []))
one_more name = add_pos (length name) 1 ∙ ap pos (sym (length-append name (0x0a ∷ [])))

raw_length : (m : Mem) (fs : FileSys) (i : ℕ) → length (entry_at m fs i).file_name ≡ 32
unfolding dentry_at
raw_length m fs i = length-bytes m (addr (fs.boot + 64 + 64 * i)) 32

row_visible : (name : List ℕ) → NoNul name → visible (name ++ 0x0a ∷ []) ≡ name ++ 0x0a ∷ []
row_visible name plain =
    visible-append name (0x0a ∷ []) ∙ ap (λ (t : List ℕ). t ++ 0x0a ∷ []) (visible-NoNul name plain)

-- The machine when the row of an entry has been read and shown.
abbrev rowed : (fd : ℕ) → FileDescriptor → List ℕ → Machine → Machine
rowed fd d row m = shown row (next m (moved fd d 1 m.kernel))

module _ (o : Outside) (base : Mem) (fd i : ℕ) (m : Machine) (two : 2 ≤ fd)
    (left : DirLeft base fd i m.kernel) (apart : DirApart base m.kernel.fs) where
  named_round :
      (fuel : ℕ) (buf : List ℕ)
      → i ≤ total_dentries base m.kernel.fs
      → name_at base m.kernel.fs i ≢ []
      → length buf ≡ 33
      → (row : List ℕ) × (length row ≡ 33)
        × (list_entries (kernel_system o) (suc fuel) (pos fd) buf m
            ≡ list_entries
                (kernel_system o)
                fuel
                (pos fd)
                row
                (rowed fd left.entry (name_at base m.kernel.fs i ++ 0x0a ∷ []) m))
  unfolding list_entries
  named_round fuel buf inside some_name size =
      let k = m.kernel in
      let name : List ℕ = name_at base k.fs i in
      let (more, row, long) =
        row_of 0x0a (entry_at base k.fs i).file_name buf (raw_length base k.fs i) size in
      let m1 : Machine = next m (moved fd left.entry 1 k) in
      let read =
        syscall_read-entry base k left.same apart (world o m) fd i left.entry left.opened inside in
      let wrote =
        write-visible o m1 (name ++ 0x0a ∷ []) more
          (Prints-moved k fd 1 left.entry two left.prints) in
      (
        (name ++ 0x0a ∷ []) ++ more,
        long,
        rw
            (
              read,
              ◌>>=◌,
              some_named name some_name,
              not_failed (length name),
              row,
              ◌>>=◌,
              one_more name,
              wrote,
              ◌>>=◌,
              row_visible name (cut-NoNul 32 (entry_at base k.fs i).file_name),
            )
            refl,
      )

  named_left : (row : List ℕ) → DirLeft base fd (i + 1) (rowed fd left.entry row m).kernel
  named_left row =
      let (on, changed) = put_all_apart row m.kernel.console.screen left.screen in
      record {
        entry = record left.entry { file_pos = left.entry.file_pos + 1 };
        opened = record {
          at = moved_at m.kernel fd 1 left.entry left.opened.at;
          slot = left.opened.slot;
          in_use = left.opened.in_use;
          table = left.opened.table;
          position = ap (λ n. n + 1) left.opened.position;
        };
        same = λ a off. changed a off ∙ left.same a off;
        screen = on;
        prints = Prints-moved m.kernel fd 1 left.entry two left.prints;
      }

  failed_round :
      (fuel : ℕ) (buf : List ℕ)
      → total_dentries base m.kernel.fs < i
      → list_entries (kernel_system o) (suc fuel) (pos fd) buf m
        ≡ some (3, shown (chars "directory entry read failed\n") (next m m.kernel))
  unfolding list_entries
  failed_round fuel buf behind =
      rw
        (
          syscall_read-behind base m.kernel left.same apart (world o m) fd i left.entry left.opened
              behind,
          ◌>>=◌,
          fdputs-shown o (next m m.kernel) (chars "directory entry read failed\n") left.prints
              (no_nul-NoNul (chars "directory entry read failed\n") refl),
          ◌>>=◌,
        )
        refl

  ended_round :
      (fuel : ℕ) (buf : List ℕ)
      → i ≤ total_dentries base m.kernel.fs
      → name_at base m.kernel.fs i ≡ []
      → list_entries (kernel_system o) (suc fuel) (pos fd) buf m
        ≡ some (0, next m (moved fd left.entry 1 m.kernel))
  unfolding list_entries
  ended_round fuel buf inside empty =
      rw
        (
          syscall_read-entry base m.kernel left.same apart (world o m) fd i left.entry left.opened
                inside
              ∙ ap
                  (λ (name : List ℕ). some (
                    got (pos (length name)) (entry_at base m.kernel.fs i).file_name
                      (moved fd left.entry 1 m.kernel)))
                  empty,
          ◌>>=◌,
        )
        refl

-- The loop of `ls`, on the kernel, with a descriptor that is open on the directory: it ends, and
-- shows the names of the entries from the descriptor's position on, each followed by a line feed.
-- It stops and returns 0 at the first entry without a name, up to index `total_dentries`, one
-- behind the last entry of the directory; when there is none, it shows a message behind the names
-- and returns 3. It is so when the directory lies outside of the page of the screen, the types of
-- its entries are below 2^24, the cursor is on the screen and descriptor 1 is the terminal; two
-- rounds more than there are entries left are enough.
pub list_entries-ListsTo :
    (o : Outside) (base : Mem) (fd fuel i : ℕ) (buf : List ℕ) (m : Machine)
    → 2 ≤ fd
    → DirApart base m.kernel.fs
    → DirLeft base fd i m.kernel
    → length buf ≡ 33
    → i ≤ total_dentries base m.kernel.fs + 1
    → total_dentries base m.kernel.fs + 2 ≤ i + fuel
    → (text : List ℕ) × (value : ℕ) × (m' : Machine) × ListsTo base m.kernel.fs i text value
      × (list_entries (kernel_system o) fuel (pos fd) buf m ≡ some (value, m'))
      × (m'.kernel.console.screen ≡ put_all text m.kernel.console.screen)
list_entries-ListsTo o base fd zero i buf m two apart left size low enough = absurd (omega arith)
list_entries-ListsTo o base fd (suc fuel) i buf m two apart left size low enough =
    let fs : FileSys = m.kernel.fs in
    elim (dec_lt (total_dentries base fs) i) [
      | yes behind ↦ (
        chars "directory entry read failed\n",
        3,
        shown (chars "directory entry read failed\n") (next m m.kernel),
        failed i behind,
        failed_round o base fd i m two left apart fuel buf behind,
        refl,
      )
      | no within ↦
          let inside : i ≤ total_dentries base fs = omega arith in
          elim (empty_or_not (name_at base fs i)) [
            | inl empty ↦ (
              [],
              0,
              next m (moved fd left.entry 1 m.kernel),
              ended i inside empty,
              ended_round o base fd i m two left apart fuel buf inside empty,
              refl,
            )
            | inr some_name ↦
                let row : List ℕ = name_at base fs i ++ 0x0a ∷ [] in
                let (buf', size', is) =
                  named_round o base fd i m two left apart fuel buf inside some_name size in
                let (text, value, m', lists, ends, seen) =
                  list_entries-ListsTo o base fd fuel (i + 1) buf' (rowed fd left.entry row m) two
                    apart (named_left o base fd i m two left apart row) size' (omega arith)
                    (omega arith) in
                (
                  name_at base fs i ++ 0x0a ∷ text,
                  value,
                  m',
                  named i text value inside some_name lists,
                  is ∙ ends,
                  seen
                      ∙ sym (put_all-append row text m.kernel.console.screen)
                      ∙ ap (λ (t : List ℕ). put_all t m.kernel.console.screen)
                          (append_assoc (name_at base fs i) (0x0a ∷ []) text),
                )
          ]
    ]
