-- ===== src/Segments/Tests.antt =====
-- The descriptors for one layout of the kernel, constructed over zeros.
use my_linux_os.Common.{◌≡◌, some, arith}
use my_linux_os.Segments.{SegDesc, Layout, DescriptorTable, construct_ldt, construct_tss}
use my_linux_os.Segments.Decode.{decode, construct_lem}

abbrev blank : SegDesc
blank = record {
  seg_lim_15_00 = 0;
  base_15_00 = 0;
  base_23_16 = 0;
  kind = 0;
  sys = 0;
  dpl = 0;
  present = 0;
  seg_lim_19_16 = 0;
  avail = 0;
  reserved = 0;
  opsize = 0;
  granularity = 0;
  base_31_24 = 0;
}

abbrev layout : Layout
layout = record { ldt = 0x412340; ldt_size = 31; tss = 0x412360; tss_size = 104 }

abbrev at_boot : DescriptorTable
at_boot = record {
  ldt_desc_ptr = blank;
  tss_desc_ptr = blank;
  ldt_segment_selector = 0;
  ss0 = 0;
  esp0 = 0;
  ldtr = 0;
  task_register = 0;
}

abbrev set_up : DescriptorTable
set_up = construct_tss blank layout (construct_ldt blank layout at_boot)

construct_example :
    (decode set_up.ldt_desc_ptr ≡ some (record { kind = 2; base = 0x412340; limit = 31 }))
    × (decode set_up.tss_desc_ptr ≡ some (record { kind = 9; base = 0x412360; limit = 104 }))
    × (set_up.ldtr ≡ 0x38)
    × (set_up.task_register ≡ 0x30)
    × (set_up.esp0 ≡ 0x800000)
construct_example =
    construct_lem blank blank layout at_boot (omega arith) (omega arith) (omega arith) (omega arith)
