-- ===== src/Support/Number.antt =====
-- The number function of the programs against the kernel's.
use my_linux_os.Common.{
  ℕ, ◌≡◌, refl, ap, List, [], ◌∷◌, Option, not, ◌==◌, if◌then◌else◌, ◌>>=◌, require, fun_ext,
}
use my_linux_os.Str.{strlen, strrev, itoa, put_digits, put_zero}
use my_linux_os.Str.Reverse.{strrev-cases}
use my_linux_os.Support.{ece391_strlen, ece391_strrev, ece391_itoa}

ece391_strlen-strlen : (s : List ℕ) → ece391_strlen s ≡ strlen s
unfolding ece391_strlen strlen
ece391_strlen-strlen [] = refl
ece391_strlen-strlen (c ∷ s) = rw (ece391_strlen-strlen s) refl

ece391_strrev-strrev : (s : List ℕ) → ece391_strrev s ≡ strrev s
unfolding ece391_strrev
ece391_strrev-strrev s = rw (ece391_strlen-strlen s) (strrev-cases s)

-- The programs' `ece391_itoa` writes what the kernel's `itoa` writes.
pub ece391_itoa-itoa :
    (value : ℕ) (buf : List ℕ) (radix : ℕ) → ece391_itoa value buf radix ≡ itoa value buf radix
unfolding ece391_itoa itoa
ece391_itoa-itoa value buf radix =
    ap
      (λ (rev : List ℕ → Option (List ℕ)).
        if value == 0
        then put_zero buf
        else (require (not (radix == 0)) >>= λ _. put_digits buf value radix >>= rev))
      (fun_ext (λ s. ece391_strrev-strrev s))
