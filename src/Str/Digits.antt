-- ===== src/Str/Digits.antt =====
-- Numerals: what a text of digits stands for.
use my_linux_os.Common.{
  ℕ, ◌+◌, ◌-◌, ◌*◌, ◌^◌, ◌≤◌, ◌<◌, ◌≡◌, ◌≢◌, ◌⊎◌, List, [], ◌∷◌, All, length, ltb, if◌then◌else◌,
}

-- The value of a digit character, `0`-`9` and then `A`-`Z`.
abbrev pub digit_value : ℕ → ℕ
digit_value c = if ltb c 0x3a then c - 0x30 else c - 0x37

abbrev pub digit_char : ℕ → ℕ
digit_char d = if ltb d 10 then d + 0x30 else d + 0x37

-- Reading a numeral from left to right.
abbrev pub number_from : ℕ → ℕ → List ℕ → ℕ
number_from radix acc [] = acc
number_from radix acc (c ∷ s) = number_from radix (acc * radix + digit_value c) s

abbrev pub number : ℕ → List ℕ → ℕ
number radix s = number_from radix 0 s

-- A digit of the base: the character of a number below it.
abbrev pub IsDigit : ℕ → ℕ → Type 0
IsDigit radix c = (d : ℕ) × (d < radix) × (c ≡ digit_char d)

-- A text of digits of the base that stands for `v`.
pub record Numeral (radix v : ℕ) (t : List ℕ) : Type 0 where
  pub digits : All (IsDigit radix) t
  pub value : number radix t ≡ v
  pub some_digit : t ≢ []

-- No zero in front: a numeral of `n + 1` digits, `n` not 0, stands for at least the base to the
-- power `n`.
abbrev pub IsShortest : ℕ → ℕ → List ℕ → Type 0
IsShortest radix v t = (length t ≡ 1) ⊎ (radix ^ length t ≤ v * radix)
