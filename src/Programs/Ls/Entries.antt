-- ===== src/Programs/Ls/Entries.antt =====
-- The entries that `ls` shows, and the reads of a directory that give them.
use my_linux_os.Common.{
  ℕ, zero, suc, ◌+◌, ◌*◌, ◌^◌, ◌≤◌, ◌<◌, ◌≡◌, ◌≢◌, refl, sym, ap, ap₂, subst, ◌∙◌, List, [], ◌∷◌,
  ◌++◌, some, true, false, ◌>>=◌, length, get_elem?, arith, bytes, Mem,
}
use my_linux_os.Common.Int.{pos, minus_one}
use my_linux_os.Str.Compare.{cut}
use my_linux_os.Pcb.{FileDescriptor, dir_ops, get_fd, set_fd}
use my_linux_os.FileSys.{FileSys, Dentry, dentry_at, total_dentries, addr}
use my_linux_os.FileSys.Read.{dir_read_lem, dir_read_past}
use my_linux_os.FileSys.Apart.{word_off, word_same}
use my_linux_os.Screen.Apart.{off_screen, AgreeApart}
use my_linux_os.Kernel.{Kernel, World, got, memory, curr_pcb, with_pcb, read_fn, syscall_read}
use my_linux_os.Kernel.Blocks.{with_pcb_same}
use my_linux_os.Kernel.Dispatch.{moved, syscall_read-table}
use my_linux_os.Programs.Text.{chars}

abbrev pub entry_at : Mem → FileSys → ℕ → Dentry
entry_at m fs i = dentry_at m (addr (fs.boot + 64 + 64 * i))

-- The name of the entry with index `i`.
abbrev pub name_at : Mem → FileSys → ℕ → List ℕ
name_at m fs i = cut 32 (entry_at m fs i).file_name

-- The directory is outside of the page of the screen, with one entry behind its last one, and the types
-- of the entries are below 2^24.
pub record DirApart (m : Mem) (fs : FileSys) : Type 0 where
  pub count : word_off fs.boot ≡ true
  pub small : total_dentries m fs < 2 ^ 31
  pub entries :
      (i j : ℕ)
      → i ≤ total_dentries m fs
      → j < 64
      → off_screen (addr (fs.boot + 64 + 64 * i) + j) ≡ true
  pub kinds : (i : ℕ) → i ≤ total_dentries m fs → (entry_at m fs i).kind < 2 ^ 24

-- What a listing from index `i` on shows, and the value that `ls` returns behind it: the names up
-- to the first empty one, or, when none is empty up to index `total_dentries`, all of them and a
-- message.
pub data ListsTo (m : Mem) (fs : FileSys) : ℕ → List ℕ → ℕ → Type 0 where
  ended : (i : ℕ) → i ≤ total_dentries m fs → name_at m fs i ≡ [] → ListsTo m fs i [] 0
  failed :
      (i : ℕ) → total_dentries m fs < i → ListsTo m fs i (chars "directory entry read failed\n") 3
  named :
      (i : ℕ) (text : List ℕ) (value : ℕ)
      → i ≤ total_dentries m fs
      → name_at m fs i ≢ []
      → ListsTo m fs (i + 1) text value
      → ListsTo m fs i (name_at m fs i ++ 0x0a ∷ text) value

at_same : (m m' : Mem) (a b : ℕ) → a ≡ b → m' a ≡ m a → m' b ≡ m b
at_same m m' a b e h = subst (λ (x : ℕ). m' x ≡ m x) e h

bytes_same :
    (m m' : Mem) (n a : ℕ) → ((j : ℕ) → j < n → m' (a + j) ≡ m (a + j)) → bytes m' a n ≡ bytes m a n
unfolding bytes
bytes_same m m' zero a h = refl
bytes_same m m' (suc n) a h = ap₂ ◌∷◌ (at_same m m' (a + 0) a (omega arith) (h 0 (omega arith))) (
    bytes_same m m' n (a + 1)
      (λ j c. at_same m m' (a + (j + 1)) (a + 1 + j) (omega arith) (h (j + 1) (omega arith))))

module _ (m m' : Mem) (a : ℕ) (h : (j : ℕ) → j < 64 → m' (a + j) ≡ m (a + j)) where
  file_name_same : (dentry_at m' a).file_name ≡ (dentry_at m a).file_name
  unfolding dentry_at
  file_name_same = bytes_same m m' 32 a (λ j c. h j (omega arith))

  kind_same : (dentry_at m' a).kind ≡ (dentry_at m a).kind
  unfolding dentry_at
  kind_same =
      rw
        (
          h 32 (omega arith),
          at_same m m' (a + 33) (a + 32 + 1) (omega arith) (h 33 (omega arith)),
          at_same m m' (a + 34) (a + 32 + 2) (omega arith) (h 34 (omega arith)),
          at_same m m' (a + 35) (a + 32 + 3) (omega arith) (h 35 (omega arith)),
        )
        refl

-- Descriptor `fd` is open on the directory, at the entry with index `i`.
pub record OpenDirectory (k : Kernel) (fd i : ℕ) (d : FileDescriptor) : Type 0 where
  pub at : get_elem? (curr_pcb k).fd_array fd ≡ some d
  pub slot : fd < 8
  pub in_use : d.flags ≢ 0
  pub table : d.file_ops_table ≡ some dir_ops
  pub position : d.file_pos ≡ i

module _ (base : Mem) (k : Kernel) (same : AgreeApart base (memory k))
    (apart : DirApart base k.fs) where
  count_same : total_dentries (memory k) k.fs ≡ total_dentries base k.fs
  count_same = word_same base (memory k) same k.fs.boot apart.count

  entry_apart :
      (i : ℕ)
      → i ≤ total_dentries base k.fs
      → (j : ℕ) → j < 64
      → memory k (addr (k.fs.boot + 64 + 64 * i) + j) ≡ base (addr (k.fs.boot + 64 + 64 * i) + j)
  entry_apart i h j c = same (addr (k.fs.boot + 64 + 64 * i) + j) (apart.entries i j h c)

  pub raw_same :
      (i : ℕ)
      → i ≤ total_dentries base k.fs
      → (entry_at (memory k) k.fs i).file_name ≡ (entry_at base k.fs i).file_name
  raw_same i h = file_name_same base (memory k) (addr (k.fs.boot + 64 + 64 * i)) (entry_apart i h)

  pub syscall_read-entry :
      (w : World) (fd i : ℕ) (d : FileDescriptor)
      → OpenDirectory k fd i d
      → i ≤ total_dentries base k.fs
      → syscall_read w (pos fd) false (pos 32) k
        ≡ some (
            got
              (pos (length (name_at base k.fs i)))
              (entry_at base k.fs i).file_name
              (moved fd d 1 k))
  unfolding read_fn set_fd get_fd
  syscall_read-entry w fd i d o h =
      let small : d.file_pos < 2 ^ 31 = omega (arith, o.position, apart.small) in
      let inside : d.file_pos ≤ total_dentries (memory k) k.fs =
        omega (arith, o.position, count_same) in
      let here : i ≡ d.file_pos = sym o.position in
      let there : d.file_pos ≤ total_dentries base k.fs = omega (arith, o.position) in
      let kind : (entry_at (memory k) k.fs d.file_pos).kind < 2 ^ 24 = omega (
        arith,
        kind_same base (memory k) (addr (k.fs.boot + 64 + 64 * d.file_pos))
            (entry_apart d.file_pos there),
        apart.kinds d.file_pos there,
      ) in
      syscall_read-table w k fd (pos 32) d dir_ops o.slot o.at o.in_use o.table
      ∙ ap (λ r. r >>= λ r. some (got r.0 r.1 (with_pcb r.2 k)))
          (dir_read_lem (memory k) k.fs (curr_pcb k) fd d o.at small inside kind)
      ∙ ap (λ (name : List ℕ). some (got (pos (length (cut 32 name))) name (moved fd d 1 k)))
          (raw_same d.file_pos there ∙ ap (λ (x : ℕ). (entry_at base k.fs x).file_name) o.position)

  pub syscall_read-behind :
      (w : World) (fd i : ℕ) (d : FileDescriptor)
      → OpenDirectory k fd i d
      → total_dentries base k.fs < i
      → syscall_read w (pos fd) false (pos 32) k ≡ some (got minus_one [] k)
  unfolding read_fn get_fd
  syscall_read-behind w fd i d o h =
      let behind : total_dentries (memory k) k.fs < d.file_pos =
        omega (arith, o.position, count_same) in
      syscall_read-table w k fd (pos 32) d dir_ops o.slot o.at o.in_use o.table
      ∙ ap (λ r. r >>= λ r. some (got r.0 r.1 (with_pcb r.2 k)))
          (dir_read_past (memory k) k.fs (curr_pcb k) fd d o.at behind)
      ∙ ap (λ (k' : Kernel). some (got minus_one [] k')) (with_pcb_same k)
