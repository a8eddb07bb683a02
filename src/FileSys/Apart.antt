-- ===== src/FileSys/Apart.antt =====
-- Files that writes to the screen leave alone.
use my_linux_os.Common.{
  both, ℕ, zero, suc, ◌+◌, ◌*◌, ◌/◌, ◌%◌, ◌≤◌, ◌<◌, ◌≡◌, refl, ap₂, ◌∷◌, Bool, true, ◌&&◌, arith,
  word, Mem,
}
use my_linux_os.FileSys.{
  FileSys, file_length, total_inodes, inode_addr, data_start, addr, block_4kb,
}
use my_linux_os.FileSys.Data.{file_byte, file_bytes}
use my_linux_os.Screen.Apart.{off_screen, AgreeApart}

-- Is the word at `a` outside of the page of the screen?
abbrev pub word_off : ℕ → Bool
word_off a = off_screen a && (off_screen (a + 1) && (off_screen (a + 2) && off_screen (a + 3)))

-- What a read of the inode's file looks at is outside of the page of the screen: the number of inodes,
-- the length, the table of its blocks and its bytes.
pub record FileApart (m : Mem) (fs : FileSys) (inode : ℕ) : Type 0 where
  pub inodes : word_off (addr (fs.boot + 4)) ≡ true
  pub size : word_off (inode_addr fs inode) ≡ true
  pub blocks :
      (k : ℕ)
      → k < file_length m fs inode
      → word_off (addr (inode_addr fs inode + 4 + 4 * (k / block_4kb))) ≡ true
  pub contents :
      (k : ℕ)
      → k < file_length m fs inode
      → off_screen (
          addr (
            data_start m fs
            + word m (addr (inode_addr fs inode + 4 + 4 * (k / block_4kb))) * block_4kb
            + k % block_4kb))
        ≡ true

module _ (m m' : Mem) (same : AgreeApart m m') where
  pub word_same : (a : ℕ) → word_off a ≡ true → word m' a ≡ word m a
  word_same a off =
      let (a0, off1) =
        both (off_screen a) (off_screen (a + 1) && (off_screen (a + 2) && off_screen (a + 3)))
          off in
      let (a1, off2) = both (off_screen (a + 1)) (off_screen (a + 2) && off_screen (a + 3)) off1 in
      let (a2, a3) = both (off_screen (a + 2)) (off_screen (a + 3)) off2 in
      rw (same a a0, same (a + 1) a1, same (a + 2) a2, same (a + 3) a3) refl

  module _ (fs : FileSys) (inode : ℕ) (f : FileApart m fs inode) where
    pub total_inodes_same : total_inodes m' fs ≡ total_inodes m fs
    total_inodes_same = word_same (addr (fs.boot + 4)) f.inodes

    pub file_length_same : file_length m' fs inode ≡ file_length m fs inode
    file_length_same = word_same (inode_addr fs inode) f.size

    file_byte_same :
        (k : ℕ) → k < file_length m fs inode → file_byte m' fs inode k ≡ file_byte m fs inode k
    file_byte_same k h =
        rw
          (
            total_inodes_same,
            word_same (addr (inode_addr fs inode + 4 + 4 * (k / block_4kb))) (f.blocks k h),
          )
          (same
            (addr (
              data_start m fs
              + word m (addr (inode_addr fs inode + 4 + 4 * (k / block_4kb))) * block_4kb
              + k % block_4kb))
            (f.contents k h))

    pub file_bytes_same :
        (n k : ℕ)
        → k + n ≤ file_length m fs inode
        → file_bytes m' fs inode k n ≡ file_bytes m fs inode k n
    file_bytes_same zero k h = refl
    file_bytes_same (suc n) k h =
        ap₂ ◌∷◌ (file_byte_same k (omega arith)) (file_bytes_same n (k + 1) (omega arith))
