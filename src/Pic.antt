-- ===== src/Pic.antt =====
-- student-distrib/i8259.c: the two interrupt controllers and their mask registers.
pub mod Lines
pub mod Chip
mod Tests
use my_linux_os.Common.{ℕ, ◌+◌, ◌-◌, ◌%◌, ◌^◌, bit_and, bit_or, ltb, leb, if◌then◌else◌}
use my_linux_os.Io.{Io, outb}

abbrev pub master_8259_port : ℕ
master_8259_port = 0x20

abbrev pub slave_8259_port : ℕ
slave_8259_port = 0xa0

abbrev pub master_pic_data : ℕ
master_pic_data = 0x21

abbrev pub slave_pic_data : ℕ
slave_pic_data = 0xa1

abbrev pub max_pic_ports : ℕ
max_pic_ports = 8

abbrev pub slave_master_connect : ℕ
slave_master_connect = 2

abbrev pub eoi : ℕ
eoi = 0x60

-- The globals `master_mask` and `slave_mask`, and the ports.
pub record Pic : Type 0 where
  pub master_mask : ℕ
  pub slave_mask : ℕ
  pub io : Io

-- `1 << n` in 32 bits; the processor takes the count modulo 32.
abbrev pub bit : ℕ → ℕ
bit n = 2 ^ (n % 32)

-- `mask & ~(1 << n)` and `mask | (1 << n)`, stored in a byte.
unfoldable pub clear_bit : ℕ → ℕ → ℕ
clear_bit mask n = bit_and mask (2 ^ 32 - 1 - bit n) % 256

unfoldable pub set_bit : ℕ → ℕ → ℕ
set_bit mask n = bit_or mask (bit n) % 256

-- `enable_irq`
unfoldable pub enable_irq : ℕ → Pic → Pic
enable_irq irq_num pic =
    if ltb irq_num max_pic_ports
    then (let mask = clear_bit pic.master_mask irq_num in
        record pic { master_mask = mask; io = outb mask master_pic_data pic.io })
    else (let mask = clear_bit pic.slave_mask (irq_num - max_pic_ports) in
        record pic { slave_mask = mask; io = outb mask slave_pic_data pic.io })

-- `disable_irq`
unfoldable pub disable_irq : ℕ → Pic → Pic
disable_irq irq_num pic =
    if ltb irq_num max_pic_ports
    then (let mask = set_bit pic.master_mask irq_num in
        record pic { master_mask = mask; io = outb mask master_pic_data pic.io })
    else (let mask = set_bit pic.slave_mask (irq_num - max_pic_ports) in
        record pic { slave_mask = mask; io = outb mask slave_pic_data pic.io })

-- `send_eoi`; the value is cut to the byte that `outb` takes.
unfoldable pub send_eoi : ℕ → Io → Io
send_eoi irq_num io =
    if leb max_pic_ports irq_num
    then outb (bit_or eoi (irq_num - max_pic_ports) % 256) slave_8259_port
        (outb (bit_or eoi 2 % 256) master_8259_port io)
    else outb (bit_or eoi irq_num % 256) master_8259_port io

-- `i8259_init`
unfoldable pub i8259_init : Io → Pic
unfolding enable_irq
i8259_init io =
    let io1 =
      outb 0x01 master_pic_data
        (outb 0x04 master_pic_data (outb 0x20 master_pic_data (outb 0x11 master_8259_port io))) in
    let io2 =
      outb 0x01 slave_pic_data
        (outb 0x02 slave_pic_data (outb 0x28 slave_pic_data (outb 0x11 slave_8259_port io1))) in
    let io3 = outb 0xff slave_pic_data (outb 0xff master_pic_data io2) in
    enable_irq slave_master_connect (record { master_mask = 0xff; slave_mask = 0xff; io = io3 })
