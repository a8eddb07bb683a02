-- ===== src/Programs/Text.antt =====
-- The string constants of C code.
use Prim.Native.Char.{code}
use Prim.Native.String.{String}
use my_linux_os.Common.{ℕ, List, [], ◌∷◌, ◌++◌, ◌≡◌, Bool, true, ◌==◌, ◌&&◌, not, arith}
use my_linux_os.Str.Length.{NoNul}

-- The characters of a text.
abbrev pub chars : String → List ℕ
chars String.[] = []
chars (String.◌∷◌ c s) = code c ∷ chars s

-- A string constant, with the terminator.
abbrev pub c_string : String → List ℕ
c_string s = chars s ++ 0 ∷ []

abbrev pub no_nul : List ℕ → Bool
no_nul [] = true
no_nul (c ∷ s) = not (c == 0) && no_nul s

pub no_nul-NoNul : (s : List ℕ) → no_nul s ≡ true → NoNul s
no_nul-NoNul [] h = tt
no_nul-NoNul (c ∷ s) h = (ground arith, no_nul-NoNul s (ground arith))
