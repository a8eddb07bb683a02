-- ===== src/Descriptors/Open.antt =====
-- Which descriptor `syscall_open` takes.
use my_linux_os.Common.{
  if◌then◌else◌, ◌==◌, ℕ, zero, suc, ◌+◌, ◌≤◌, ◌<◌, ◌≡◌, refl, ◌≢◌, List, ◌∷◌, Option, none, some,
  ◌>>=◌, get_elem?, get_elem?_in_range, set, ◌++◌, length, Mem, arith, ne→==,
}
use my_linux_os.Common.Int.{ℤ, pos, minus_one}
use my_linux_os.Pcb.{OpsTable, rtc_ops, dir_ops, file_ops, Pcb, FileDescriptor, get_fd, set_fd}
use my_linux_os.FileSys.{FileSys, Dentry, read_dentry_by_name, boot_size, filename_max_length}
use native.Mathlib.Decide.{ℕ_discrete}
use my_linux_os.Str.Length.{NoNul, strlen_text}
use my_linux_os.Str.Compare.{AreBytes}
use my_linux_os.FileSys.Names.{HoldsBytes, Finds, read_dentry_by_name-Finds}
use my_linux_os.Descriptors.{allocate, opened, table_for, syscall_open}

-- Descriptor `i` is in the array, and it is in use; or it is free.
abbrev pub InUse : Pcb → ℕ → Type 0
InUse p i = (d : FileDescriptor) × (get_elem? p.fd_array i ≡ some d) × (d.flags ≢ 0)

abbrev pub Free : Pcb → ℕ → Type 0
Free p i = (d : FileDescriptor) × (get_elem? p.fd_array i ≡ some d) × (d.flags ≡ 0)

-- The jump table for a file of a type, and the old one for a type that is not known.
abbrev pub driver : ℕ → Option OpsTable → Option OpsTable
driver zero old = some rtc_ops
driver (suc zero) old = some dir_ops
driver (suc (suc zero)) old = some file_ops
driver (suc (suc (suc n))) old = old

-- A descriptor at the start of a file.
abbrev pub at_start : Dentry → FileDescriptor → FileDescriptor
at_start e d = record {
  file_ops_table = driver e.kind d.file_ops_table;
  inode = e.inode;
  file_pos = 0;
  flags = 1;
}

table_for-driver :
    (e : Dentry) (d : FileDescriptor) → table_for e d ≡ driver e.kind d.file_ops_table
unfolding table_for
table_for-driver e d = by_kind e.kind
  where
    by_kind :
        (k : ℕ)
        → (if k == 0
            then some rtc_ops
            else if k == 1
            then some dir_ops
            else if k == 2
            then some file_ops
            else d.file_ops_table)
          ≡ driver k d.file_ops_table
    by_kind zero = refl
    by_kind (suc zero) = refl
    by_kind (suc (suc zero)) = refl
    by_kind (suc (suc (suc n))) = ground arith

opened-at_start : (e : Dentry) (d : FileDescriptor) → opened e d ≡ at_start e d
unfolding opened
opened-at_start e d = rw (table_for-driver e d) refl

-- What the search over the descriptors from `lo` up to, and without, `hi` gives for the file `e`.
pub data Allocates (p : Pcb) (e : Dentry) (lo hi : ℕ) : ℤ → Pcb → Type 0 where
  taken :
      (i : ℕ) (d : FileDescriptor)
      → lo ≤ i
      → i < hi
      → get_elem? p.fd_array i ≡ some d
      → d.flags ≡ 0
      → ((j : ℕ) → lo ≤ j → j < i → InUse p j)
      → Allocates p e lo hi (pos i) (record p { fd_array = set p.fd_array i (at_start e d) })
  full : ((j : ℕ) → lo ≤ j → j < hi → InUse p j) → Allocates p e lo hi minus_one p

Allocates-skip :
    {p : Pcb} {e : Dentry} (lo n : ℕ) {r : ℤ} {q : Pcb}
    → InUse p lo
    → Allocates p e (lo + 1) (lo + 1 + n) r q
    → Allocates p e lo (lo + suc n) r q
Allocates-skip {p} {e} lo n busy (taken i d a b at free below) =
    taken i d (omega arith) (omega arith) at free (λ j c f. elim (ℕ_discrete j lo) [
      | yes same ↦ rw same busy
      | no more ↦ below j (omega arith) f
    ])
Allocates-skip {p} {e} lo n busy (full all) = full (λ j c f. elim (ℕ_discrete j lo) [
  | yes same ↦ rw same busy
  | no more ↦ all j (omega arith) (omega arith)
])

allocate-Allocates :
    (n i : ℕ) (e : Dentry) (p : Pcb)
    → i + n ≤ length p.fd_array
    → (r : ℤ) × (q : Pcb) × (allocate n i e p ≡ some (r, q)) × Allocates p e i (i + n) r q
unfolding allocate get_fd set_fd
allocate-Allocates zero i e p h = (minus_one, p, refl, full (λ j a b. absurd (omega arith)))
allocate-Allocates (suc n) i e p h =
    let (d, at) = get_elem?_in_range p.fd_array i (omega arith) in
    let (r, q, run, ok) = allocate-Allocates n (i + 1) e p (omega arith) in
    elim (ℕ_discrete d.flags 0) [
      | yes free ↦ (
        pos i,
        record p { fd_array = set p.fd_array i (at_start e d) },
        rw (at, ◌>>=◌, free, opened-at_start e d) refl,
        taken i d (omega arith) (omega arith) at free (λ j a b. absurd (omega arith)),
      )
      | no busy ↦
          (r, q, rw (at, ◌>>=◌, ne→== d.flags 0 busy) run, Allocates-skip i n (d, at, busy) ok)
    ]

-- What opening gives when the lookup of the name gave the first argument.
pub data Opens (p : Pcb) : Option Dentry → ℤ → Pcb → Type 0 where
  unknown : Opens p none minus_one p
  known : {e : Dentry} {r : ℤ} {q : Pcb} → Allocates p e 2 8 r q → Opens p (some e) r q

-- `syscall_open` of a name that is a string of 1 to 32 bytes, in a memory of bytes, by a process
-- with 8 descriptors: the call returns. If none of the 64 entries has the name it returns -1 and
-- changes nothing; otherwise it takes the lowest free descriptor from 2 to 7 for the first entry
-- with the name, stores the entry's inode, position 0, the flag and the table of the entry's type
-- there, and returns the descriptor; if none is free it returns -1 and changes nothing.
pub syscall_open-Opens :
    (m : Mem) (fs : FileSys) (s rest : List ℕ) (p : Pcb)
    → HoldsBytes m
    → AreBytes (s ++ 0 ∷ rest)
    → NoNul s
    → 0 < length s
    → length s ≤ filename_max_length
    → length p.fd_array ≡ 8
    → (c : Option Dentry) × (r : ℤ) × (q : Pcb) × Finds m fs (s ++ 0 ∷ rest) 0 boot_size c
      × (syscall_open m fs (some (s ++ 0 ∷ rest)) p ≡ some (r, q))
      × Opens p c r q
unfolding syscall_open
syscall_open-Opens m fs s rest p holds are nonul some_name short eight =
    let (c, run, finds) = read_dentry_by_name-Finds m fs s rest holds are nonul short in
    opens c run finds
  where
    opens :
        (c : Option Dentry)
        → read_dentry_by_name m fs (some (s ++ 0 ∷ rest)) ≡ some c
        → Finds m fs (s ++ 0 ∷ rest) 0 boot_size c
        → (c : Option Dentry) × (r : ℤ) × (q : Pcb) × Finds m fs (s ++ 0 ∷ rest) 0 boot_size c
          × (syscall_open m fs (some (s ++ 0 ∷ rest)) p ≡ some (r, q))
          × Opens p c r q
    opens none run finds = (
      none,
      minus_one,
      p,
      finds,
      rw (strlen_text s rest nonul, ◌>>=◌, ne→== (length s) 0 (omega arith), run) refl,
      unknown,
    )
    opens (some e) run finds =
        let (r, q, gives, ok) = allocate-Allocates 6 2 e p (omega arith) in
        (
          some e,
          r,
          q,
          finds,
          rw (strlen_text s rest nonul, ◌>>=◌, ne→== (length s) 0 (omega arith), run) gives,
          known ok,
        )
