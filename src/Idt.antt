-- ===== src/Idt.antt =====
-- The interrupt descriptor table: student-distrib/idt.c, and the entries and macros of
-- student-distrib/x86_desc.h.
pub mod Deliver
mod Tests
use my_linux_os.Common.{ℕ, ◌+◌, ◌*◌, ◌/◌, ◌%◌, ◌^◌, Bool, ltb, ◌==◌, if◌then◌else◌}
use my_linux_os.Paging.{Array, put, for_entries}

-- `idt_desc_t`, without the overlaid words.
pub record IdtDesc : Type 0 where
  pub offset_15_00 : ℕ
  pub seg_selector : ℕ
  pub reserved4 : ℕ
  pub reserved3 : ℕ
  pub reserved2 : ℕ
  pub reserved1 : ℕ
  pub size : ℕ
  pub reserved0 : ℕ
  pub dpl : ℕ
  pub present : ℕ
  pub offset_31_16 : ℕ

abbrev pub num_vec : ℕ
num_vec = 256

abbrev pub kernel_cs : ℕ
kernel_cs = 0x10

abbrev pub reserved : ℕ
reserved = 32

abbrev pub user_level : ℕ
user_level = 3

abbrev pub keyboard_interrupt_index : ℕ
keyboard_interrupt_index = 0x21

abbrev pub rtc_interrupt_index : ℕ
rtc_interrupt_index = 0x28

abbrev pub syscall_interrupt_idx : ℕ
syscall_interrupt_idx = 0x80

-- The addresses that the linker gives to the handlers and to the operand of `lidt`.
pub record Symbols : Type 0 where
  pub exception : ℕ → ℕ
  pub key_interrupt : ℕ
  pub rtc_interrupt : ℕ
  pub syscall_asm : ℕ
  pub idt_desc_ptr : ℕ

-- The table, and the operand that `lidt` was last given.
pub record Idt : Type 0 where
  pub idt : Array IdtDesc
  pub loaded : ℕ

-- `SET_IDT_ENTRY`
unfoldable pub set_idt_entry : ℕ → IdtDesc → IdtDesc
set_idt_entry handler str = record str {
  offset_31_16 = handler % 2 ^ 32 / 65536;
  offset_15_00 = handler % 65536;
}

-- One round of the loop of `initialize_idt`.
unfoldable pub init_entry : ℕ → IdtDesc → IdtDesc
init_entry i e =
    let filled = record e {
      seg_selector = kernel_cs;
      reserved4 = 0;
      reserved2 = 1;
      reserved1 = 1;
      reserved0 = 0;
      size = 1;
      present = 1;
    } in
    if ltb i reserved
    then record filled { reserved3 = 1; dpl = 0 }
    else record filled { reserved3 = 0; dpl = user_level }

-- `SET_IDT_ENTRY(idt[i], handler)`
abbrev pub connect : ℕ → ℕ → Array IdtDesc → Array IdtDesc
connect i handler table = put table i (set_idt_entry handler (table i))

-- `initialize_idt`
unfoldable pub initialize_idt : Symbols → Idt → Idt
unfolding init_entry set_idt_entry
initialize_idt sym t =
    let filled = for_entries num_vec 0 init_entry t.idt in
    let exceptions = for_entries 20 0 (λ i e. set_idt_entry (sym.exception i) e) filled in
    let key = connect keyboard_interrupt_index sym.key_interrupt exceptions in
    let clock = connect rtc_interrupt_index sym.rtc_interrupt key in
    record t {
      idt = connect syscall_interrupt_idx sym.syscall_asm clock;
      loaded = sym.idt_desc_ptr;
    }
