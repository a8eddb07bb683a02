-- ===== src/Str.antt =====
-- The string routines of student-distrib/lib.c. A C string is read from a buffer, the list of the
-- bytes from the pointer to the end of the object; `none` is an access past that end. A routine
-- that writes returns the buffer as it leaves it.
pub mod Length
pub mod Reverse
pub mod Compare
pub mod Digits
pub mod Number
mod Tests
use my_linux_os.Common.{
  ℕ, zero, suc, ◌+◌, ◌-◌, ◌/◌, ◌%◌, List, [], ◌∷◌, Option, none, some, Bool, true, false, ◌||◌, not,
  ◌==◌, ltb, if◌then◌else◌, ◌>>=◌, ◌>>◌, require, get_elem?, set, length,
}
use my_linux_os.Common.Int.{ℤ, pos, ◌-ℤ◌, signed8}

-- `strlen`
unfoldable pub strlen : List ℕ → Option ℕ
strlen [] = none
strlen (c ∷ s) = if c == 0 then some 0 else (strlen s >>= λ n. some (n + 1))

-- `strncmp`: the comparison is on `int8_t`, a signed type.
unfoldable pub strncmp : List ℕ → List ℕ → ℕ → Option ℤ
strncmp s1 s2 zero = some (pos 0)
strncmp (a ∷ s1) (b ∷ s2) (suc n) =
    if not (a == b) || a == 0 then some (signed8 a -ℤ signed8 b) else strncmp s1 s2 n
strncmp [] s2 (suc n) = none
strncmp (a ∷ s1) [] (suc n) = none

-- `strcpy`: the buffer at `dest` after the copy.
unfoldable pub strcpy : List ℕ → List ℕ → Option (List ℕ)
strcpy dest [] = none
strcpy [] (c ∷ src) = none
strcpy (d ∷ dest) (c ∷ src) =
    if c == 0 then some (0 ∷ dest) else (strcpy dest src >>= λ out. some (c ∷ out))

-- The second loop of `strncpy`.
pub pad : List ℕ → ℕ → Option (List ℕ)
pad dest zero = some dest
pad [] (suc n) = none
pad (d ∷ dest) (suc n) = pad dest n >>= λ out. some (0 ∷ out)

-- `strncpy`: `src[i]` is read before `i < n` is tested.
unfoldable pub strncpy : List ℕ → List ℕ → ℕ → Option (List ℕ)
unfolding pad
strncpy dest [] n = none
strncpy dest (c ∷ src) zero = some dest
strncpy [] (c ∷ src) (suc n) = if c == 0 then pad [] (suc n) else none
strncpy (d ∷ dest) (c ∷ src) (suc n) =
    if c == 0 then pad (d ∷ dest) (suc n) else (strncpy dest src n >>= λ out. some (c ∷ out))

-- The loop of `strrev`, `beg` and `end` moving towards each other, on fuel.
pub swap_ends : ℕ → ℕ → ℕ → List ℕ → Option (List ℕ)
swap_ends zero beg end s = none
swap_ends (suc fuel) beg end s = elim (ltb beg end) [
  | true ↦ do
    tmp ← get_elem? s end
    b ← get_elem? s beg
    swap_ends fuel (beg + 1) (end - 1) (set (set s end b) beg tmp)
  | false ↦ some s
]

-- `strrev`. For the empty string `end` is -1, and the loop does not run.
unfoldable pub strrev : List ℕ → Option (List ℕ)
unfolding swap_ends strlen
strrev s = do n ← strlen s; if n == 0 then some s else swap_ends n 0 (n - 1) s

-- The characters of `lookup` in `itoa`, with the literal's final null.
abbrev pub lookup : List ℕ
lookup =
    0x30 ∷ 0x31 ∷ 0x32 ∷ 0x33 ∷ 0x34 ∷ 0x35 ∷ 0x36 ∷ 0x37 ∷ 0x38 ∷ 0x39 ∷ 0x41 ∷ 0x42 ∷ 0x43 ∷ 0x44
    ∷ 0x45 ∷ 0x46 ∷ 0x47 ∷ 0x48 ∷ 0x49 ∷ 0x4a ∷ 0x4b ∷ 0x4c ∷ 0x4d ∷ 0x4e ∷ 0x4f ∷ 0x50 ∷ 0x51
    ∷ 0x52 ∷ 0x53 ∷ 0x54 ∷ 0x55 ∷ 0x56 ∷ 0x57 ∷ 0x58 ∷ 0x59 ∷ 0x5a ∷ 0 ∷ []

-- The digit loop of `itoa` and the null behind it, from `newbuf` on.
pub put_digits : List ℕ → ℕ → ℕ → Option (List ℕ)
put_digits [] newval radix = none
put_digits (b ∷ buf) newval radix =
    if newval == 0
    then some (0 ∷ buf)
    else (get_elem? lookup (newval % radix) >>= λ c.
        put_digits buf (newval / radix) radix >>= λ out. some (c ∷ out))

-- The special case of zero in `itoa`.
pub put_zero : List ℕ → Option (List ℕ)
put_zero (a ∷ b ∷ rest) = some (0x30 ∷ 0 ∷ rest)
put_zero (a ∷ []) = none
put_zero [] = none

-- `itoa`. A radix of 0 is a division fault.
unfoldable pub itoa : ℕ → List ℕ → ℕ → Option (List ℕ)
unfolding put_digits put_zero strrev
itoa value buf radix =
    if value == 0
    then put_zero buf
    else (require (not (radix == 0)) >>= λ _. put_digits buf value radix >>= strrev)
