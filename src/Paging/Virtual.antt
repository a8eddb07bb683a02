-- ===== src/Paging/Virtual.antt =====
-- Stores of the kernel to virtual addresses, which the tables lead to physical ones.
use my_linux_os.Common.{ℕ, ◌+◌, ◌%◌, ◌^◌, List, [], ◌∷◌, Option, ◌>>=◌, some, false, Mem, store}
use my_linux_os.Paging.{Paging}
use my_linux_os.Paging.Translate.{translate}

-- The bytes stored one after the other from a virtual address on; `none` is a page fault.
unfoldable pub store_virtual : Paging → ℕ → List ℕ → Mem → Option Mem
store_virtual p v [] m = some m
store_virtual p v (b ∷ bytes) m =
    translate false p v >>= λ a. store_virtual p ((v + 1) % 2 ^ 32) bytes (store m a b)
