-- ===== src/Programs.antt =====
-- The system calls as programs see them, and the support library's output, as the programs of
-- myLinuxOS/syscalls use both. The calls are an interface: OnKernel fills it with the kernel.
pub mod Text
pub mod Syserr
pub mod Cat
pub mod Shell
pub mod Ls
pub mod Buffer
pub mod Counter
pub mod Hello
pub mod Grep
pub mod OnKernel
mod Tests
mod Seats
use my_linux_os.Common.{ℕ, List, Option, some, ◌++◌, ◌>>=◌, overwrite}
use my_linux_os.Common.Int.{ℤ, pos}
use my_linux_os.Support.{ece391_strlen}

-- The calls of ece391syscall.h that programs make, on a state of type `S`. A read gives the bytes
-- that it stores from the buffer on; `none` is a call that does not return.
pub record System (S : Type 0) : Type 0 where
  pub ece391_read : (fd nbytes : ℤ) → S → Option (ℤ × List ℕ × S)
  pub ece391_write : (fd : ℤ) → List ℕ → (nbytes : ℤ) → S → Option (ℤ × S)
  pub ece391_open : List ℕ → S → Option (ℤ × S)
  pub ece391_close : (fd : ℤ) → S → Option (ℤ × S)
  pub ece391_getargs : (nbytes : ℤ) → S → Option (ℤ × List ℕ × S)
  pub ece391_vidmap : (screen_start : ℕ) → S → Option (ℤ × S)
  pub ece391_execute : List ℕ → S → Option (ℤ × S)
  pub call_sys : ℤ → S → Option (ℤ × S)

module _ {S : Type 0} (sys : System S) where
  -- A read to a buffer: the result, the buffer and the state.
  abbrev pub read_into : ℤ → List ℕ → ℤ → S → Option (ℤ × List ℕ × S)
  read_into fd buf nbytes s =
      sys.ece391_read fd nbytes s >>= λ r. some (r.0, overwrite r.1 buf, r.2)

  -- `ece391_fdputs`
  unfoldable pub ece391_fdputs : ℤ → List ℕ → S → Option S
  ece391_fdputs fd text s =
      ece391_strlen text >>= λ n. sys.ece391_write fd text (pos n) s >>= λ r. some r.1
