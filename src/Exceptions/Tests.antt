-- ===== src/Exceptions/Tests.antt =====
-- A division by zero in process 1 of the sample kernel.
use my_linux_os.Common.{ℕ, ◌≡◌, refl, List, [], ◌∷◌, ◌++◌, replicate, some, set, arith}
use my_linux_os.Printf.Pieces.{put_all}
use my_linux_os.Kernel.{Kernel}
use my_linux_os.Kernel.Sample.{kernel, pcb}
use my_linux_os.Process.{Frame, resumes}
use my_linux_os.Exceptions.{prefix, exceptions}
use my_linux_os.Exceptions.Squash.{exceptions_lem}

abbrev in_program : Kernel
in_program = record kernel {
  pid_array = 1 ∷ 1 ∷ 0 ∷ 0 ∷ 0 ∷ 0 ∷ [];
  pid = 1;
  pcbs = λ i. record pcb { pid = i; execute_esp = 0x7fd000; execute_ebp = 0x7fd010 };
}

abbrev frame : Frame
frame = record {
  world = record { reg_a_temp = 0; ticks = []; keys = [] };
  esp = 0x7fb000;
  ebp = 0x7fb010;
  buffer = replicate 4 0;
  exec_buffer = replicate 4 0;
}

-- "Divide by Zero"
abbrev divide_by_zero : List ℕ
divide_by_zero =
    0x44 ∷ 0x69 ∷ 0x76 ∷ 0x69 ∷ 0x64 ∷ 0x65 ∷ 0x20 ∷ 0x62 ∷ 0x79 ∷ 0x20 ∷ 0x5a ∷ 0x65 ∷ 0x72 ∷ 0x6f
    ∷ []

exceptions_example :
    (k' : Kernel) × (exceptions (replicate 64 0) frame 0 in_program
      ≡ some (resumes 0x7fd000 0x7fd010 256 k'))
    × (k'.console.screen ≡ put_all ((prefix ++ divide_by_zero) ++ 0x0a ∷ []) kernel.console.screen)
    × (k'.pid_array ≡ set in_program.pid_array 1 0)
    × (k'.pid ≡ 0)
    × (k'.globalflag ≡ 0)
exceptions_example =
    exceptions_lem (replicate 64 0) frame 0 in_program divide_by_zero refl (omega arith)
