-- ===== src/Pic/Tests.antt =====
-- The controllers, from the initialisation on.
use my_linux_os.Common.{◌≡◌, refl, [], false, arith, ◌-◌, ◌^◌}
use my_linux_os.Io.{Io}
use my_linux_os.Pic.{clear_bit, i8259_init}
use my_linux_os.Pic.Lines.{IsSynced, i8259_init-IsSynced}
use my_linux_os.Pic.Chip.{Chip, mode, mask, master_after, slave_after, i8259_init_lem}

abbrev quiet : Io
quiet = record { log = []; interrupts = false }

quiet-IsSynced : IsSynced (i8259_init quiet)
quiet-IsSynced = (i8259_init-IsSynced quiet 0 (omega arith)).0

i8259_init_test : (i8259_init quiet).master_mask ≡ 0xfb
unfolding i8259_init clear_bit
i8259_init_test = refl

-- A controller in the middle of an initialisation.
abbrev halfway : Chip
halfway = record {
  awaits = mode;
  first_word = 0x13;
  base = 8;
  connection = 0;
  mode_word = 0;
  mask_word = 0;
}

i8259_init_example :
    (master_after halfway (i8259_init quiet).io.log ≡ record {
      awaits = mask;
      first_word = 0x11;
      base = 0x20;
      connection = 2 ^ 2;
      mode_word = 1;
      mask_word = 0xff - 2 ^ 2;
    })
    × (slave_after halfway (i8259_init quiet).io.log ≡ record {
      awaits = mask;
      first_word = 0x11;
      base = 0x28;
      connection = 2;
      mode_word = 1;
      mask_word = 0xff;
    })
    × ((i8259_init quiet).master_mask ≡ 0xff - 2 ^ 2)
    × ((i8259_init quiet).slave_mask ≡ 0xff)
i8259_init_example = i8259_init_lem halfway halfway quiet
