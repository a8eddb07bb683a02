-- ===== src/Programs/Buffer.antt =====
-- The buffers of programs, indexed by an `int32_t`; `none` is an access outside of one.
use my_linux_os.Common.{ℕ, List, Option, none, some, get_elem?, set, ◌>>=◌}
use my_linux_os.Common.Int.{ℤ, pos, negsuc}

-- `buf[i]`
abbrev pub at : List ℕ → ℤ → Option ℕ
at buf (pos i) = get_elem? buf i
at buf (negsuc i) = none

-- `buf[i] = v`
abbrev pub put_at : List ℕ → ℤ → ℕ → Option (List ℕ)
put_at buf i v = at buf i >>= λ _. elim i [ pos n ↦ some (set buf n v) | negsuc n ↦ none ]
