-- ===== src/Exceptions.antt =====
-- student-distrib/exceptions.c: the message of an exception, and the end of the program that raised it.
pub mod Squash
mod Tests
use my_linux_os.Common.{
  ℕ, ◌+◌, List, [], ◌∷◌, ◌++◌, Option, none, some, ◌==◌, if◌then◌else◌, ◌>>=◌, get_elem?,
}
use my_linux_os.Screen.{Screen}
use my_linux_os.Printf.{printf}
use my_linux_os.Kernel.{Kernel, with_screen}
use my_linux_os.Process.{Frame, Halted, syscall_halt}

-- "EXCEPTION: ", which all messages begin with.
abbrev pub prefix : List ℕ
prefix = 0x45 ∷ 0x58 ∷ 0x43 ∷ 0x45 ∷ 0x50 ∷ 0x54 ∷ 0x49 ∷ 0x4f ∷ 0x4e ∷ 0x3a ∷ 0x20 ∷ []

-- The messages behind it, by the number of the exception.
abbrev pub messages : List (List ℕ)
messages =
    (0x44 ∷ 0x69 ∷ 0x76 ∷ 0x69 ∷ 0x64 ∷ 0x65 ∷ 0x20 ∷ 0x62 ∷ 0x79 ∷ 0x20 ∷ 0x5a ∷ 0x65 ∷ 0x72 ∷ 0x6f
      ∷ [])
    ∷ (0x44 ∷ 0x65 ∷ 0x62 ∷ 0x75 ∷ 0x67 ∷ [])
    ∷ (0x4e ∷ 0x4d ∷ 0x49 ∷ 0x20 ∷ 0x49 ∷ 0x6e ∷ 0x74 ∷ 0x65 ∷ 0x72 ∷ 0x72 ∷ 0x75 ∷ 0x70 ∷ 0x74
        ∷ [])
    ∷ (0x42 ∷ 0x72 ∷ 0x65 ∷ 0x61 ∷ 0x6b ∷ 0x70 ∷ 0x6f ∷ 0x69 ∷ 0x6e ∷ 0x74 ∷ [])
    ∷ (0x4f ∷ 0x76 ∷ 0x65 ∷ 0x72 ∷ 0x46 ∷ 0x6c ∷ 0x6f ∷ 0x77 ∷ [])
    ∷ (0x42 ∷ 0x4f ∷ 0x55 ∷ 0x4e ∷ 0x44 ∷ 0x20 ∷ 0x52 ∷ 0x61 ∷ 0x6e ∷ 0x67 ∷ 0x65 ∷ 0x20 ∷ 0x45
        ∷ 0x78 ∷ 0x63 ∷ 0x65 ∷ 0x65 ∷ 0x64 ∷ [])
    ∷ (0x49 ∷ 0x6e ∷ 0x76 ∷ 0x61 ∷ 0x6c ∷ 0x69 ∷ 0x64 ∷ 0x20 ∷ 0x4f ∷ 0x70 ∷ 0x63 ∷ 0x6f ∷ 0x64
        ∷ 0x65 ∷ [])
    ∷ (0x44 ∷ 0x65 ∷ 0x76 ∷ 0x69 ∷ 0x63 ∷ 0x65 ∷ 0x20 ∷ 0x4e ∷ 0x6f ∷ 0x74 ∷ 0x20 ∷ 0x41 ∷ 0x76
        ∷ 0x61 ∷ 0x69 ∷ 0x6c ∷ 0x61 ∷ 0x62 ∷ 0x6c ∷ 0x65 ∷ [])
    ∷ (0x44 ∷ 0x6f ∷ 0x75 ∷ 0x62 ∷ 0x6c ∷ 0x65 ∷ 0x20 ∷ 0x46 ∷ 0x61 ∷ 0x75 ∷ 0x6c ∷ 0x74 ∷ [])
    ∷ (0x43 ∷ 0x6f ∷ 0x70 ∷ 0x72 ∷ 0x6f ∷ 0x63 ∷ 0x65 ∷ 0x73 ∷ 0x73 ∷ 0x6f ∷ 0x72 ∷ 0x20 ∷ 0x53
        ∷ 0x65 ∷ 0x67 ∷ 0x6d ∷ 0x65 ∷ 0x6e ∷ 0x74 ∷ 0x20 ∷ 0x4f ∷ 0x76 ∷ 0x65 ∷ 0x72 ∷ 0x72 ∷ 0x75
        ∷ 0x6e ∷ [])
    ∷ (0x49 ∷ 0x6e ∷ 0x76 ∷ 0x61 ∷ 0x6c ∷ 0x69 ∷ 0x64 ∷ 0x20 ∷ 0x54 ∷ 0x53 ∷ 0x53 ∷ [])
    ∷ (0x53 ∷ 0x65 ∷ 0x67 ∷ 0x6d ∷ 0x65 ∷ 0x6e ∷ 0x74 ∷ 0x20 ∷ 0x4e ∷ 0x6f ∷ 0x74 ∷ 0x20 ∷ 0x50
        ∷ 0x72 ∷ 0x65 ∷ 0x73 ∷ 0x65 ∷ 0x6e ∷ 0x74 ∷ [])
    ∷ (0x53 ∷ 0x74 ∷ 0x61 ∷ 0x63 ∷ 0x6b ∷ 0x20 ∷ 0x46 ∷ 0x61 ∷ 0x75 ∷ 0x6c ∷ 0x74 ∷ [])
    ∷ (0x47 ∷ 0x65 ∷ 0x6e ∷ 0x65 ∷ 0x72 ∷ 0x61 ∷ 0x6c ∷ 0x20 ∷ 0x50 ∷ 0x72 ∷ 0x6f ∷ 0x74 ∷ 0x65
        ∷ 0x63 ∷ 0x74 ∷ 0x69 ∷ 0x6f ∷ 0x6e ∷ [])
    ∷ (0x50 ∷ 0x61 ∷ 0x67 ∷ 0x65 ∷ 0x2d ∷ 0x46 ∷ 0x61 ∷ 0x75 ∷ 0x6c ∷ 0x74 ∷ 0x20 ∷ 0x45 ∷ 0x78
        ∷ 0x63 ∷ 0x65 ∷ 0x70 ∷ 0x74 ∷ 0x69 ∷ 0x6f ∷ 0x6e ∷ [])
    ∷ (0x49 ∷ 0x6e ∷ 0x74 ∷ 0x65 ∷ 0x6c ∷ 0x20 ∷ 0x52 ∷ 0x65 ∷ 0x73 ∷ 0x65 ∷ 0x72 ∷ 0x76 ∷ 0x65
        ∷ 0x64 ∷ [])
    ∷ (0x46 ∷ 0x50 ∷ 0x55 ∷ 0x20 ∷ 0x46 ∷ 0x6c ∷ 0x6f ∷ 0x61 ∷ 0x74 ∷ 0x69 ∷ 0x6e ∷ 0x67 ∷ 0x20
        ∷ 0x50 ∷ 0x6f ∷ 0x69 ∷ 0x6e ∷ 0x74 ∷ [])
    ∷ (0x41 ∷ 0x6c ∷ 0x69 ∷ 0x67 ∷ 0x6e ∷ 0x6d ∷ 0x65 ∷ 0x6e ∷ 0x74 ∷ 0x20 ∷ 0x43 ∷ 0x68 ∷ 0x65
        ∷ 0x63 ∷ 0x6b ∷ [])
    ∷ (0x4d ∷ 0x61 ∷ 0x63 ∷ 0x68 ∷ 0x69 ∷ 0x6e ∷ 0x65 ∷ 0x2d ∷ 0x43 ∷ 0x68 ∷ 0x65 ∷ 0x63 ∷ 0x6b
        ∷ [])
    ∷ (0x53 ∷ 0x49 ∷ 0x4d ∷ 0x44 ∷ 0x20 ∷ 0x46 ∷ 0x6c ∷ 0x6f ∷ 0x61 ∷ 0x74 ∷ 0x69 ∷ 0x6e ∷ 0x20
        ∷ 0x50 ∷ 0x6f ∷ 0x69 ∷ 0x6e ∷ 0x74 ∷ [])
    ∷ []

-- The `switch` over the exceptions: any other number prints nothing.
unfoldable pub print_message : List ℕ → Option (List ℕ) → Screen → Option Screen
print_message stack none s = some s
print_message stack (some message) s =
    printf stack ((prefix ++ message) ++ 0 ∷ []) [] s >>= λ r. some r.1

-- `exceptions`
unfoldable pub exceptions : List ℕ → Frame → ℕ → Kernel → Option Halted
unfolding print_message
exceptions stack f entry k =
    print_message stack (get_elem? messages entry) k.console.screen >>= λ s1.
    printf stack (0x0a ∷ 0 ∷ []) [] s1 >>= λ r.
    syscall_halt f 0 (record (with_screen r.1 k) { globalflag = 1 })
