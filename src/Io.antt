-- ===== src/Io.antt =====
-- Port input and output, and the interrupt flag: the inline functions of student-distrib/lib.h.
use my_linux_os.Common.{ℕ, List, ◌∷◌, Bool, true, false}

-- `out v p` is the byte `v` written to port `p`, `inp p` a read of port `p`.
pub data PortEvent : Type 0 where
  out : ℕ → ℕ → PortEvent
  inp : ℕ → PortEvent

-- What the kernel has done to the ports, newest first, and whether it takes interrupts.
pub record Io : Type 0 where
  pub log : List PortEvent
  pub interrupts : Bool

abbrev pub outb : ℕ → ℕ → Io → Io
outb v p io = record io { log = out v p ∷ io.log }

-- The byte that the device answers is an argument of each function that reads one.
abbrev pub inb : ℕ → Io → Io
inb p io = record io { log = inp p ∷ io.log }

abbrev pub cli : Io → Io
cli io = record io { interrupts = false }

abbrev pub sti : Io → Io
sti io = record io { interrupts = true }
