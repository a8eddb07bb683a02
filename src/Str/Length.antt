-- ===== src/Str/Length.antt =====
-- `strlen`, and what a C string in a buffer is.
use my_linux_os.Common.{ℕ, ◌≡◌, refl, ◌≢◌, List, [], ◌∷◌, ◌++◌, some, arith, length, All}
use my_linux_os.Str.{strlen}

-- No byte of the text is the terminator.
abbrev pub NoNul : List ℕ → Type 0
NoNul = All (λ c. c ≢ 0)

-- `strlen` stops at the first null, whatever stands behind it.
pub strlen_text : (s rest : List ℕ) → NoNul s → strlen (s ++ 0 ∷ rest) ≡ some (length s)
unfolding strlen
strlen_text [] rest h = refl
strlen_text (c ∷ s) rest h = ground (arith, strlen_text s rest h.1, h.0)
