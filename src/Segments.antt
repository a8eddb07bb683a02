-- ===== src/Segments.antt =====
-- The segment descriptors of student-distrib/x86_desc.h and the two that student-distrib/kernel.c puts
-- into the descriptor table at start-up.
pub mod Decode
mod Tests
use my_linux_os.Common.{ℕ, ◌+◌, ◌*◌, ◌/◌, ◌%◌, ◌^◌}
use my_linux_os.Process.{kernel_ds}

-- `seg_desc_t`, without the overlaid words.
pub record SegDesc : Type 0 where
  pub seg_lim_15_00 : ℕ
  pub base_15_00 : ℕ
  pub base_23_16 : ℕ
  pub kind : ℕ
  pub sys : ℕ
  pub dpl : ℕ
  pub present : ℕ
  pub seg_lim_19_16 : ℕ
  pub avail : ℕ
  pub reserved : ℕ
  pub opsize : ℕ
  pub granularity : ℕ
  pub base_31_24 : ℕ

-- `SET_LDT_PARAMS`, and `SET_TSS_PARAMS` with the same text. The limit's middle bits go into a field of
-- 4 bits.
unfoldable pub set_params : ℕ → ℕ → SegDesc → SegDesc
set_params addr lim str = record str {
  base_31_24 = addr % 2 ^ 32 / 2 ^ 24;
  base_23_16 = addr % 2 ^ 24 / 2 ^ 16;
  base_15_00 = addr % 2 ^ 16;
  seg_lim_19_16 = lim % 2 ^ 20 / 2 ^ 16;
  seg_lim_15_00 = lim % 2 ^ 16;
}

abbrev pub kernel_tss : ℕ
kernel_tss = 0x30

abbrev pub kernel_ldt : ℕ
kernel_ldt = 0x38

abbrev pub tss_bytes : ℕ
tss_bytes = 104

-- The addresses and sizes that the assembly files define.
pub record Layout : Type 0 where
  pub ldt : ℕ
  pub ldt_size : ℕ
  pub tss : ℕ
  pub tss_size : ℕ

-- The two descriptors, the fields of the task state that are set here, and the registers that `lldt`
-- and `ltr` load.
pub record DescriptorTable : Type 0 where
  pub ldt_desc_ptr : SegDesc
  pub tss_desc_ptr : SegDesc
  pub ldt_segment_selector : ℕ
  pub ss0 : ℕ
  pub esp0 : ℕ
  pub ldtr : ℕ
  pub task_register : ℕ

-- The block "Construct an LDT entry in the GDT" of `entry`; `blank` is what is on the stack.
unfoldable pub construct_ldt : SegDesc → Layout → DescriptorTable → DescriptorTable
unfolding set_params
construct_ldt blank l d =
    let the_ldt_desc = record blank {
      granularity = 0;
      opsize = 1;
      reserved = 0;
      avail = 0;
      present = 1;
      dpl = 0;
      sys = 0;
      kind = 2;
    } in
    record d { ldt_desc_ptr = set_params l.ldt l.ldt_size the_ldt_desc; ldtr = kernel_ldt }

-- The block "Construct a TSS entry in the GDT".
unfoldable pub construct_tss : SegDesc → Layout → DescriptorTable → DescriptorTable
unfolding set_params
construct_tss blank l d =
    let the_tss_desc = record blank {
      granularity = 0;
      opsize = 0;
      reserved = 0;
      avail = 0;
      seg_lim_19_16 = tss_bytes / 2 ^ 16 * 2 ^ 16 % 16;
      present = 1;
      dpl = 0;
      sys = 0;
      kind = 9;
      seg_lim_15_00 = tss_bytes % 2 ^ 16;
    } in
    record d {
      tss_desc_ptr = set_params l.tss l.tss_size the_tss_desc;
      ldt_segment_selector = kernel_ldt;
      ss0 = kernel_ds;
      esp0 = 0x800000;
      task_register = kernel_tss;
    }
