-- ===== src/Segments/Decode.antt =====
-- What the processor reads from the two segment descriptors.
use my_linux_os.Common.{
  ℕ, ◌+◌, ◌*◌, ◌/◌, ◌%◌, ◌^◌, ◌<◌, ◌≡◌, refl, ap₂, Option, some, none, ◌==◌, ◌&&◌, if◌then◌else◌,
  arith,
}
use my_linux_os.Segments.{SegDesc, Layout, DescriptorTable, construct_ldt, construct_tss}

-- A system segment: its type, where it starts and the last offset in it, or its size if the granularity
-- bit counts in pages.
pub record Segment : Type 0 where
  pub kind : ℕ
  pub base : ℕ
  pub limit : ℕ

-- How the processor reads a system descriptor that is present, for the kernel only.
abbrev pub decode : SegDesc → Option Segment
decode e =
    if e.present == 1 && (e.sys == 0 && e.dpl == 0)
    then some (record {
      kind = e.kind;
      base = e.base_31_24 * 2 ^ 24 + e.base_23_16 * 2 ^ 16 + e.base_15_00;
      limit =
          (if e.granularity == 0
            then e.seg_lim_19_16 * 2 ^ 16 + e.seg_lim_15_00
            else (e.seg_lim_19_16 * 2 ^ 16 + e.seg_lim_15_00) * 4096 + 4095);
    })
    else none

whole_base :
    (a : ℕ)
    → a < 2 ^ 32
    → a % 2 ^ 32 / 2 ^ 24 * 2 ^ 24 + a % 2 ^ 24 / 2 ^ 16 * 2 ^ 16 + a % 2 ^ 16 ≡ a
whole_base a h = omega arith

whole_limit : (l : ℕ) → l < 2 ^ 20 → l % 2 ^ 20 / 2 ^ 16 * 2 ^ 16 + l % 2 ^ 16 ≡ l
whole_limit l h = omega arith

-- For 32-bit addresses and sizes below 2^20, the processor reads the descriptors that the kernel has
-- constructed as a local descriptor table (type 2) and an available task state (type 9), present and
-- privileged, at the addresses and with the limits given; the registers select their places in the
-- table, and the kernel's stack for entries from programs starts at 0x800000.
pub construct_lem :
    (blank blank2 : SegDesc) (l : Layout) (d : DescriptorTable)
    → l.ldt < 2 ^ 32
    → l.ldt_size < 2 ^ 20
    → l.tss < 2 ^ 32
    → l.tss_size < 2 ^ 20
    → let d' = construct_tss blank2 l (construct_ldt blank l d) in
      (decode d'.ldt_desc_ptr ≡ some (record { kind = 2; base = l.ldt; limit = l.ldt_size }))
      × (decode d'.tss_desc_ptr ≡ some (record { kind = 9; base = l.tss; limit = l.tss_size }))
      × (d'.ldtr ≡ 0x38)
      × (d'.task_register ≡ 0x30)
      × (d'.esp0 ≡ 0x800000)
unfolding construct_ldt construct_tss
construct_lem blank blank2 l d a b c e = (
  ap₂ (λ (x y : ℕ). some (record { kind = 2; base = x; limit = y })) (whole_base l.ldt a)
      (whole_limit l.ldt_size b),
  ap₂ (λ (x y : ℕ). some (record { kind = 9; base = x; limit = y })) (whole_base l.tss c)
      (whole_limit l.tss_size e),
  refl,
  refl,
  refl,
)
