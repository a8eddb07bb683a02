-- ===== src/Programs/Counter.antt =====
-- myLinuxOS/syscalls/ece391counter.c: the program that counts up.
pub mod Up
use my_linux_os.Common.{
  ℕ, zero, suc, ◌+◌, List, [], ◌∷◌, Option, none, some, ◌==◌, ◌&&◌, ◌||◌, ltb, if◌then◌else◌, ◌>>=◌,
  get_elem?,
}
use my_linux_os.Common.Int.{ℤ, pos, minus_one, eqb_ℤ}
use my_linux_os.Support.{ece391_strlen, ece391_itoa}
use my_linux_os.Programs.{System, read_into, ece391_fdputs}
use my_linux_os.Programs.Text.{c_string}
use my_linux_os.Programs.Buffer.{put_at}

-- The choice: `none` is the wrong one, and a character without a case leaves `max` at 0.
unfoldable pub choose : List ℕ → Option (Option ℕ)
choose buf = ece391_strlen buf >>= λ n. get_elem? buf 0 >>= λ c. some (
    if ltb 2 n || (n == 2 && (ltb c 0x30 || ltb 0x32 c))
    then none
    else some
        (if c == 0x30 then 100 else if c == 0x31 then 10000 else if c == 0x32 then 100000 else 0))

module _ {S : Type 0} (sys : System S) where
  -- The loop, `n` rounds from `i` on.
  unfoldable pub count_up : ℕ → ℕ → List ℕ → S → Option S
  count_up zero i buf s = some s
  count_up (suc n) i buf s = ece391_itoa (i + 1) buf 10 >>= λ buf'.
      ece391_fdputs sys (pos 1) buf' s >>= λ s1.
      ece391_fdputs sys (pos 1) (c_string "\n") s1 >>= λ s2. count_up n (i + 1) buf' s2

  -- `main`; `buf` is its buffer of 1024 bytes.
  unfoldable pub counter : List ℕ → S → Option (ℕ × S)
  unfolding count_up choose
  counter buf s =
      ece391_fdputs sys (pos 1)
        (c_string "Enter the Test Number: (0): 100, (1): 10000, (2): 100000\n") s
      >>= λ s1. read_into sys (pos 0) buf (pos 1023) s1 >>= λ r.
          if eqb_ℤ r.0 minus_one
          then (ece391_fdputs sys (pos 1) (c_string "Can't read the number from keyboard.\n") r.2
              >>= λ t. some (3, t))
          else (put_at r.1 r.0 0 >>= λ text. choose text >>= λ max. elim max [
            | none ↦ ece391_fdputs sys (pos 1) (c_string "Wrong Choice!\n") r.2 >>= λ t. some (0, t)
            | some n ↦ count_up n 0 text r.2 >>= λ t. some (0, t)
          ])
