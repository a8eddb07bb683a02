-- ===== src/Str/Tests.antt =====
-- The string functions on short strings.
use my_linux_os.Common.{
  ℕ, ◌≡◌, ◌≤◌, refl, List, [], ◌∷◌, ◌++◌, length, drop, replicate, some, arith, suc,
}
use my_linux_os.Common.Int.{negsuc}
use my_linux_os.Str.{strncmp, itoa}
use my_linux_os.Str.Length.{NoNul}
use my_linux_os.Str.Digits.{Numeral, IsShortest}
use my_linux_os.Str.Number.{itoa-number}

abbrev ab : List ℕ
ab = 0x61 ∷ 0x62 ∷ []

ab-NoNul : NoNul ab
ab-NoNul = (omega arith, (omega arith, tt))

strncmp_test : strncmp (0x61 ∷ 0x62 ∷ 0 ∷ []) (0x61 ∷ 0x64 ∷ 0 ∷ []) 2 ≡ some (negsuc 1)
unfolding strncmp
strncmp_test = refl

itoa_test : itoa 255 (replicate 4 7) 16 ≡ some (0x46 ∷ 0x46 ∷ 0 ∷ 7 ∷ [])
unfolding itoa
itoa_test = refl

itoa_example :
    (text : List ℕ) × (itoa 255 (replicate 40 0) 16
      ≡ some (text ++ 0 ∷ drop (suc (length text)) (replicate 40 0)))
    × NoNul text
    × Numeral 16 255 text
    × IsShortest 16 255 text
    × (length text ≤ 32)
itoa_example =
    itoa-number 255 (replicate 40 0) 16 (omega arith) (omega arith) (omega arith) (omega arith)
