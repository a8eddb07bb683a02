-- ===== src/Idt/Tests.antt =====
-- The clock's vector, taken by a program, in a table of zeros.
use my_linux_os.Common.{◌≡◌, some, false, arith, ◌+◌, ◌*◌}
use my_linux_os.Idt.{IdtDesc, Symbols, Idt, initialize_idt}
use my_linux_os.Idt.Deliver.{take_interrupt, initialize_idt_lem}

abbrev symbols : Symbols
symbols = record {
  exception = λ i. 0x400000 + 16 * i;
  key_interrupt = 0x401000;
  rtc_interrupt = 0x401040;
  syscall_asm = 0x401080;
  idt_desc_ptr = 0x402000;
}

abbrev blank : IdtDesc
blank = record {
  offset_15_00 = 0;
  seg_selector = 0;
  reserved4 = 0;
  reserved3 = 0;
  reserved2 = 0;
  reserved1 = 0;
  size = 0;
  reserved0 = 0;
  dpl = 0;
  present = 0;
  offset_31_16 = 0;
}

abbrev table : Idt
table = record { idt = λ i. blank; loaded = 0 }

initialize_idt_example :
    take_interrupt (initialize_idt symbols table).idt 3 0x28
    ≡ some (record { selector = 0x10; address = 0x401040; enabled = false })
initialize_idt_example = initialize_idt_lem symbols table 3 0x28 (omega arith) (omega arith)
