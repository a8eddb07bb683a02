-- ===== src/Common/Memory.antt =====
-- Memory as a function from addresses to bytes, and 32-bit words in it, low byte first.
use Prim.Native.Nat.{ℕ, zero, suc, ◌+◌, ◌*◌}
use mathlib.Core.Path.{◌≡◌}
use mathlib.Core.Logic.{◌≢◌}
use mathlib.Core.List.{List, [], ◌∷◌}
use native.Mathlib.Omega.{arith}
use my_linux_os.Common.Tests.{◌==◌, if◌then◌else◌}

abbrev pub Mem : Type 0
Mem = ℕ → ℕ

abbrev pub store : Mem → ℕ → ℕ → Mem
store m a v b = if a == b then v else m b

-- The `n` bytes from address `a` on.
unfoldable pub bytes : Mem → ℕ → ℕ → List ℕ
bytes m a zero = []
bytes m a (suc n) = m a ∷ bytes m (a + 1) n

abbrev pub word : Mem → ℕ → ℕ
word m a = m a + 256 * m (a + 1) + 65536 * m (a + 2) + 16777216 * m (a + 3)

pub store_self : (m : Mem) (a v : ℕ) → store m a v a ≡ v
store_self m a v = ground arith

pub store_ne : (m : Mem) (a b v : ℕ) → a ≢ b → store m a v b ≡ m b
store_ne m a b v h = ground arith
