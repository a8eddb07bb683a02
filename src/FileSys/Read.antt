-- ===== src/FileSys/Read.antt =====
-- `file_read` and `dir_read`: the calls that move a descriptor's file position.
use my_linux_os.Common.{
  ℕ, zero, suc, ◌+◌, ◌*◌, ◌/◌, ◌%◌, ◌^◌, ◌≤◌, ◌<◌, min, ◌≡◌, refl, ap, ◌∙◌, ◌≢◌, List, [], ◌∷◌,
  ◌++◌, some, false, arith, length, ltb, ◌==◌, if◌then◌else◌, ◌||◌, ◌>>=◌, Bool-cases, inl, inr,
  Mem, get_elem?, get_elem?-set_self,
}
use my_linux_os.Common.Int.{pos, minus_one, signed32, ltb_ℤ, eqb_ℤ}
use my_linux_os.Str.{strlen}
use my_linux_os.Str.Compare.{cut}
use my_linux_os.Pcb.{Pcb, FileDescriptor, get_fd, set_fd}
use my_linux_os.FileSys.{
  FileSys, Dentry, dentry_at, total_inodes, total_dentries, file_read, dir_read,
  read_dentry_by_index, name_length, word_bytes, max_num_fd, filename_max_length, addr,
}
use my_linux_os.FileSys.Data.{file_bytes, available, read_data_lem, file_bytes-append}
use my_linux_os.FileSys.Names.{length-bytes}

get_elem?-lt :
    (fds : List FileDescriptor) (i : ℕ) {d : FileDescriptor}
    → get_elem? fds i ≡ some d
    → i < length fds
get_elem?-lt [] i h = absurd (ground arith)
get_elem?-lt (x ∷ fds) zero h = omega arith
get_elem?-lt (x ∷ fds) (suc i) h = omega (arith, get_elem?-lt fds i h)

get_fd-set_fd :
    (p : Pcb) (fd : ℕ) {d : FileDescriptor} (e : FileDescriptor)
    → get_fd p (pos fd) ≡ some d
    → get_fd (set_fd p (pos fd) e) (pos fd) ≡ some e
unfolding get_fd set_fd
get_fd-set_fd p fd e h = get_elem?-set_self p.fd_array fd e (get_elem?-lt p.fd_array fd h)

module _ (m : Mem) (fs : FileSys) where
  -- A descriptor on a file of the image, and a read of `n` bytes that stays below 2^31.
  pub record CanRead (p : Pcb) (fd : ℕ) (d : FileDescriptor) (n : ℕ) : Type 0 where
    pub opened : get_fd p (pos fd) ≡ some d
    pub slot : fd ≤ max_num_fd
    pub not_zero : d.inode ≢ 0
    pub in_table : d.inode < total_inodes m fs
    pub small : d.file_pos + n < 2 ^ 31

  -- The descriptor after a read of `k` bytes.
  abbrev pub advance : FileDescriptor → ℕ → FileDescriptor
  advance d k = record d { file_pos = d.file_pos + k }

  -- Through a descriptor on a file of the image, with an inode number other than 0 and with the end
  -- of the request below 2^31, a read returns the number of bytes up to the requested count or the
  -- end of the file, stores exactly the bytes of the file at its position, and moves the position
  -- by that number.
  pub file_read_lem :
      (p : Pcb) (fd : ℕ) (d : FileDescriptor) (n : ℕ)
      → CanRead p fd d n
      → let k = available m fs d.inode d.file_pos n in
        file_read m fs p (pos fd) false (pos n)
        ≡ some (pos k, file_bytes m fs d.inode d.file_pos k, set_fd p (pos fd) (advance d k))
  unfolding file_read
  file_read_lem p fd d n c =
      let k : ℕ = available m fs d.inode d.file_pos n in
      let valid : (ltb_ℤ (pos n) (pos 0)
            || (ltb_ℤ (pos fd) (pos 0) || ltb_ℤ (pos max_num_fd) (pos fd)))
          ≡ false =
        ground (arith, c.slot) in
      let count : n % 2 ^ 32 ≡ n = omega (arith, c.small) in
      let sign : signed32 k ≡ pos k = ground (arith, c.small) in
      let no_error : eqb_ℤ (pos k) minus_one ≡ false = ground arith in
      let moved : (d.file_pos + k % 2 ^ 32) % 2 ^ 32 ≡ d.file_pos + k = omega (arith, c.small) in
      let run =
        read_data_lem m fs d.inode d.file_pos n c.not_zero c.in_table (omega (arith, c.small)) in
      rw (valid, c.opened, count, run, sign) (rw (no_error, moved))

  -- Through a descriptor on a file of the image, with an inode number other than 0 and `a + b`
  -- bytes from its position on below 2^31, two reads of `a` and then `b` bytes give, one after the
  -- other, the bytes that one read of `a + b` gives, and leave the position behind them.
  file_read_twice :
      (p : Pcb) (fd : ℕ) (d : FileDescriptor) (a b : ℕ)
      → CanRead p fd d (a + b)
      → let n = available m fs d.inode d.file_pos (a + b) in
        (out1 out2 : List ℕ) × (k1 k2 : ℕ) × (p1 p2 : Pcb) × (file_read m fs p
            (pos fd)
            false
            (pos a)
          ≡ some (pos k1, out1, p1))
        × (file_read m fs p1 (pos fd) false (pos b) ≡ some (pos k2, out2, p2))
        × (out1 ++ out2 ≡ file_bytes m fs d.inode d.file_pos n)
        × (k1 + k2 ≡ n)
        × (get_fd p2 (pos fd) ≡ some (advance d n))
  file_read_twice p fd d a b c =
      let k1 : ℕ = available m fs d.inode d.file_pos a in
      let c1 : CanRead p fd d a = record {
        opened = c.opened;
        slot = c.slot;
        not_zero = c.not_zero;
        in_table = c.in_table;
        small = omega (arith, c.small);
      } in
      let d1 : FileDescriptor = advance d k1 in
      let p1 : Pcb = set_fd p (pos fd) d1 in
      let open1 : get_fd p1 (pos fd) ≡ some d1 = get_fd-set_fd p fd d1 c.opened in
      let k2 : ℕ = available m fs d.inode (d.file_pos + k1) b in
      let c2 : CanRead p1 fd d1 b = record {
        opened = open1;
        slot = c.slot;
        not_zero = c.not_zero;
        in_table = c.in_table;
        small = omega (arith, c.small);
      } in
      let total : k1 + k2 ≡ available m fs d.inode d.file_pos (a + b) = omega arith in
      let end : d.file_pos + k1 + k2 ≡ d.file_pos + available m fs d.inode d.file_pos (a + b) =
        omega arith in
      (
        file_bytes m fs d.inode d.file_pos k1,
        file_bytes m fs d.inode (d.file_pos + k1) k2,
        k1,
        k2,
        p1,
        set_fd p1 (pos fd) (advance d1 k2),
        file_read_lem p fd d a c1,
        file_read_lem p1 fd d1 b c2,
        file_bytes-append m fs d.inode d.file_pos k1 k2
            ∙ ap (file_bytes m fs d.inode d.file_pos) total,
        total,
        get_fd-set_fd p1 fd (advance d1 k2) open1
            ∙ ap (λ (t : ℕ). some (record d { file_pos = t })) end,
      )

-- Where the `n` bytes of `s` end in a string: at the first null, or behind it.
strlen-cut :
    (s t : List ℕ) (k : ℕ)
    → strlen t ≡ some k
    → (j : ℕ) × (strlen (s ++ t) ≡ some j) × (min (length s) j ≡ length (cut (length s) s))
unfolding strlen
strlen-cut [] t k h = (k, h, omega arith)
strlen-cut (c ∷ s) t k h =
    let (j, e, q) = strlen-cut s t k h in
    elim (Bool-cases (c == 0)) [
      | inl nul ↦ (0, rw nul, rw nul (omega arith))
      | inr more ↦ (j + 1, rw (more, e), rw more (omega arith))
    ]

strlen_defined : (s rest : List ℕ) → (k : ℕ) × (strlen (s ++ 0 ∷ rest) ≡ some k)
unfolding strlen
strlen_defined [] rest = (0, refl)
strlen_defined (c ∷ s) rest =
    let (k, e) = strlen_defined s rest in
    elim (Bool-cases (c == 0)) [ inl nul ↦ (0, rw nul) | inr more ↦ (k + 1, rw (more, e)) ]

-- The fields behind the name hold a null: the top byte of a small `type` is one.
fields_end :
    (e : Dentry)
    → e.kind < 2 ^ 24
    → (k : ℕ) × (strlen (word_bytes e.kind ++ (word_bytes e.inode ++ e.reserved)) ≡ some k)
fields_end e h =
    let top : e.kind / 16777216 % 256 ≡ 0 = omega arith in
    let rest : List ℕ = word_bytes e.inode ++ e.reserved in
    let low : List ℕ = e.kind % 256 ∷ e.kind / 256 % 256 ∷ e.kind / 65536 % 256 ∷ [] in
    let (k, found) = strlen_defined low rest in
    (k, ap (λ (b : ℕ). strlen (low ++ b ∷ rest)) top ∙ found)

min_test : (a b : ℕ) {c : ℕ} → min a b ≡ c → (if ltb a b then a else b) ≡ c
min_test a b h = ground arith

name_length_lem :
    (e : Dentry)
    → length e.file_name ≡ filename_max_length
    → e.kind < 2 ^ 24
    → name_length e ≡ some (length (cut filename_max_length e.file_name))
unfolding name_length
name_length_lem e full kind =
    let (k, fields) = fields_end e kind in
    let (j, run, cuts) =
      strlen-cut e.file_name (word_bytes e.kind ++ (word_bytes e.inode ++ e.reserved)) k fields in
    rw run (ap some (min_test filename_max_length j (cut_at j full cuts)))
  where
    cut_at :
        (j : ℕ)
        → length e.file_name ≡ filename_max_length
        → min (length e.file_name) j ≡ length (cut (length e.file_name) e.file_name)
        → min filename_max_length j ≡ length (cut filename_max_length e.file_name)
    cut_at j full q = rw full at q

read_dentry_by_index_within :
    (m : Mem) (fs : FileSys) (i : ℕ)
    → i ≤ total_dentries m fs
    → read_dentry_by_index m fs i ≡ some (dentry_at m (addr (fs.boot + 64 + 64 * i)))
unfolding read_dentry_by_index
read_dentry_by_index_within m fs i h = ground arith

module _ (m : Mem) (fs : FileSys) (p : Pcb) (fd : ℕ) (d : FileDescriptor)
    (opened : get_fd p (pos fd) ≡ some d) where
  -- Reading a directory at an index up to `total_dentries` stores the 32 bytes of that entry's name,
  -- returns the length of the name, at most 32, and moves to the next entry; it is so for every entry
  -- whose type is below 2^24.
  pub dir_read_lem :
      d.file_pos < 2 ^ 31
      → d.file_pos ≤ total_dentries m fs
      → (dentry_at m (addr (fs.boot + 64 + 64 * d.file_pos))).kind < 2 ^ 24
      → let e = dentry_at m (addr (fs.boot + 64 + 64 * d.file_pos)) in
        dir_read m fs p (pos fd)
        ≡ some (
          pos (length (cut filename_max_length e.file_name)),
          e.file_name,
          set_fd p (pos fd) (record d { file_pos = d.file_pos + 1 }),
        )
  unfolding dir_read
  dir_read_lem small le kind =
      let e : Dentry = dentry_at m (addr (fs.boot + 64 + 64 * d.file_pos)) in
      let next : (d.file_pos + 1) % 2 ^ 32 ≡ d.file_pos + 1 = omega arith in
      rw (
        opened,
        ◌>>=◌,
        read_dentry_by_index_within m fs d.file_pos le,
        name_length_lem e (full (addr (fs.boot + 64 + 64 * d.file_pos))) kind,
        next,
      )
    where
      full : (a : ℕ) → length (dentry_at m a).file_name ≡ filename_max_length
      full a = unfold dentry_at in length-bytes m a 32

  -- Reading a directory through a descriptor whose position is past `total_dentries` returns -1 and
  -- changes nothing.
  pub dir_read_past :
      total_dentries m fs < d.file_pos → dir_read m fs p (pos fd) ≡ some (minus_one, [], p)
  unfolding dir_read read_dentry_by_index
  dir_read_past h = ground (arith, opened)
