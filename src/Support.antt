-- ===== src/Support.antt =====
-- The functions of the programs' support library, syscalls/ece391support.c. Buffers are lists
-- of bytes as for the kernel's string functions; the bytes are unsigned here.
pub mod Compare
pub mod Number
mod Tests
use my_linux_os.Str.{swap_ends, put_digits, put_zero}
use my_linux_os.Common.{
  leb, ◌-◌, require, not, ℕ, zero, suc, ◌+◌, ◌/◌, ◌%◌, List, [], ◌∷◌, Option, none, some, ◌==◌,
  ◌||◌, if◌then◌else◌, ◌>>=◌,
}
use my_linux_os.Common.Int.{ℤ, pos, ◌-ℤ◌}

-- `ece391_strlen`
unfoldable pub ece391_strlen : List ℕ → Option ℕ
ece391_strlen [] = none
ece391_strlen (c ∷ s) = if c == 0 then some 0 else (ece391_strlen s >>= λ n. some (n + 1))

-- `ece391_strcpy`
unfoldable pub ece391_strcpy : List ℕ → List ℕ → Option (List ℕ)
ece391_strcpy dst [] = none
ece391_strcpy [] (c ∷ src) = none
ece391_strcpy (d ∷ dst) (c ∷ src) =
    if c == 0 then some (c ∷ dst) else (ece391_strcpy dst src >>= λ out. some (c ∷ out))

-- `ece391_strcmp`
unfoldable pub ece391_strcmp : List ℕ → List ℕ → Option ℤ
ece391_strcmp [] s2 = none
ece391_strcmp (a ∷ s1) [] = none
ece391_strcmp (a ∷ s1) (b ∷ s2) =
    let rest = ece391_strcmp s1 s2 in
    if a == b then if a == 0 then some (pos 0) else rest else some (pos a -ℤ pos b)

-- `ece391_strncmp`
unfoldable pub ece391_strncmp : List ℕ → List ℕ → ℕ → Option ℤ
ece391_strncmp s1 s2 zero = some (pos 0)
ece391_strncmp [] s2 (suc n) = none
ece391_strncmp (a ∷ s1) [] (suc n) = none
ece391_strncmp (a ∷ s1) (b ∷ s2) (suc n) =
    let rest = ece391_strncmp s1 s2 n in
    if a == b then if a == 0 || n == 0 then some (pos 0) else rest else some (pos a -ℤ pos b)

-- `ece391_strrev`. For the empty string `end` is -1.
unfoldable pub ece391_strrev : List ℕ → Option (List ℕ)
unfolding ece391_strlen
ece391_strrev s = ece391_strlen s >>= λ n. if leb n 1 then some s else swap_ends n 0 (n - 1) s

-- `ece391_itoa`, whose digit loop and special case have the text of those of the kernel's `itoa`. A
-- radix of 0 is a division fault.
unfoldable pub ece391_itoa : ℕ → List ℕ → ℕ → Option (List ℕ)
unfolding ece391_strrev
ece391_itoa value buf radix =
    if value == 0
    then put_zero buf
    else (require (not (radix == 0)) >>= λ _. put_digits buf value radix >>= ece391_strrev)
