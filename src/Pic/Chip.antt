-- ===== src/Pic/Chip.antt =====
-- An 8259 as the bytes written to its two ports set it up, and the two controllers of a PC.
use my_linux_os.Common.{ℕ, ◌-◌, ◌^◌, ◌/◌, ◌%◌, ◌≡◌, refl, List, [], ◌∷◌, ◌==◌, if◌then◌else◌}
use my_linux_os.Io.{Io, PortEvent, out, inp}
use my_linux_os.Pic.{i8259_init, clear_bit}

-- The word that the data port takes next: the three of the initialisation, or the mask.
pub data Awaits : Type 0 where
  vector cascade mode mask : Awaits

-- What a controller has been told: the first word of its initialisation, the vector of its line 0, how
-- the two are connected, its mode and which of its lines are masked.
pub record Chip : Type 0 where
  pub awaits : Awaits
  pub first_word : ℕ
  pub base : ℕ
  pub connection : ℕ
  pub mode_word : ℕ
  pub mask_word : ℕ

-- A byte written to the command port: with bit 4 set, it starts the initialisation, which clears
-- the mask and the mode.
abbrev pub command : ℕ → Chip → Chip
command v chip =
    if v / 16 % 2 == 1
    then record chip { awaits = vector; first_word = v; mode_word = 0; mask_word = 0 }
    else chip

-- Behind the connection, or behind the vector of a single controller, comes the mode, if bit 0 of the
-- first word is set.
abbrev pub last_word : Chip → Awaits
last_word chip = if chip.first_word % 2 == 1 then mode else mask

-- A byte written to the data port. Bit 1 of the first word says that there is no second controller.
abbrev pub data_byte : ℕ → Chip → Chip
data_byte v chip = elim chip.awaits [
  | vector ↦ record chip {
    awaits = if chip.first_word / 2 % 2 == 1 then last_word chip else cascade;
    base = v;
  }
  | cascade ↦ record chip { awaits = last_word chip; connection = v }
  | mode ↦ record chip { awaits = mask; mode_word = v }
  | mask ↦ record chip { mask_word = v }
]

-- A controller with the given ports, after the events of a log, newest first.
abbrev pub chip_after : (command_port data_port : ℕ) → Chip → List PortEvent → Chip
chip_after cp dp chip [] = chip
chip_after cp dp chip (inp p ∷ log) = chip_after cp dp chip log
chip_after cp dp chip (out v p ∷ log) =
    let before = chip_after cp dp chip log in
    if p == cp then command v before else if p == dp then data_byte v before else before

abbrev pub master_after : Chip → List PortEvent → Chip
master_after = chip_after 0x20 0x21

abbrev pub slave_after : Chip → List PortEvent → Chip
slave_after = chip_after 0xa0 0xa1

-- Whatever the two controllers were told before, also in the middle of an initialisation, after
-- `i8259_init` both wait for masks. The first one's lines have the vectors from 0x20 on and the
-- second one's those from 0x28 on; the second is connected to line 2 of the first, and the first
-- has a controller on that line only; both take their lines by the edge, and are in the mode for
-- x86, without automatic ends of interrupts. The masks are those in the two globals: on the first
-- every line but line 2, on the second every line.
pub i8259_init_lem :
    (first second : Chip) (io : Io)
    → let log = (i8259_init io).io.log in
      (master_after first log ≡ record {
        awaits = mask;
        first_word = 0x11;
        base = 0x20;
        connection = 2 ^ 2;
        mode_word = 1;
        mask_word = 0xff - 2 ^ 2;
      })
      × (slave_after second log ≡ record {
        awaits = mask;
        first_word = 0x11;
        base = 0x28;
        connection = 2;
        mode_word = 1;
        mask_word = 0xff;
      })
      × ((i8259_init io).master_mask ≡ 0xff - 2 ^ 2)
      × ((i8259_init io).slave_mask ≡ 0xff)
unfolding i8259_init clear_bit
i8259_init_lem first second io = (refl, refl, refl, refl)
