-- ===== src/Segments.antt =====
-- The segment descriptors of student-distrib/x86_desc.h, and the part of `entry` in kernel.c that fills
-- those of the local table and of the task.
use system_engineering.Base.{ℕ, ◌+◌, ◌*◌, ◌/◌, ◌%◌, ◌^◌, bit_and}
use system_engineering.Kernel.{Kernel, kernel_ds}
pub mod Fields
mod Tests

-- `seg_desc_t`
pub record SegDesc : Type 0 where
  pub seg_lim_15_00 : ℕ
  pub base_15_00 : ℕ
  pub base_23_16 : ℕ
  pub type : ℕ
  pub sys : ℕ
  pub dpl : ℕ
  pub present : ℕ
  pub seg_lim_19_16 : ℕ
  pub avail : ℕ
  pub reserved : ℕ
  pub opsize : ℕ
  pub granularity : ℕ
  pub base_31_24 : ℕ

-- The two words of the union, the fields from the lowest bit up.
pub val : SegDesc → ℕ × ℕ
val d = (
  d.seg_lim_15_00 + 2 ^ 16 * d.base_15_00,
  d.base_23_16
      + 2 ^ 8 * d.type
      + 2 ^ 12 * d.sys
      + 2 ^ 13 * d.dpl
      + 2 ^ 15 * d.present
      + 2 ^ 16 * d.seg_lim_19_16
      + 2 ^ 20 * d.avail
      + 2 ^ 21 * d.reserved
      + 2 ^ 22 * d.opsize
      + 2 ^ 23 * d.granularity
      + 2 ^ 24 * d.base_31_24,
)

abbrev pub kernel_tss : ℕ
kernel_tss = 0x30

abbrev pub kernel_ldt : ℕ
kernel_ldt = 0x38

-- `SET_LDT_PARAMS` and `SET_TSS_PARAMS`, which are the same.
pub set_params : SegDesc → (addr lim : ℕ) → SegDesc
set_params str addr lim = record str {
  base_31_24 = bit_and addr 0xFF000000 / 2 ^ 24;
  base_23_16 = bit_and addr 0x00FF0000 / 2 ^ 16;
  base_15_00 = bit_and addr 0x0000FFFF;
  seg_lim_19_16 = bit_and lim 0x000F0000 / 2 ^ 16;
  seg_lim_15_00 = bit_and lim 0x0000FFFF;
}

-- `the_ldt_desc` and `the_tss_desc`. `old` is what the local variable holds before.
pub the_ldt_desc : (old : SegDesc) → (ldt ldt_size : ℕ) → SegDesc
the_ldt_desc old ldt ldt_size =
    let filled = record old {
      granularity = 0;
      opsize = 1;
      reserved = 0;
      avail = 0;
      present = 1;
      dpl = 0;
      sys = 0;
      type = 2;
    } in
    set_params filled ldt ldt_size

pub the_tss_desc : (old : SegDesc) → (tss tss_size : ℕ) → SegDesc
the_tss_desc old tss tss_size =
    let filled = record old {
      granularity = 0;
      opsize = 0;
      reserved = 0;
      avail = 0;
      seg_lim_19_16 = bit_and 104 0x000F0000;
      present = 1;
      dpl = 0;
      sys = 0;
      type = 9;
      seg_lim_15_00 = bit_and 104 0x0000FFFF;
    } in
    set_params filled tss tss_size

-- What the processor uses of it: the two descriptors, the selector in the task's segment, and the two
-- registers that hold selectors.
pub record Segments : Type 0 where
  pub ldt_desc_ptr : SegDesc
  pub tss_desc_ptr : SegDesc
  pub ldt_segment_selector : ℕ
  pub ldtr : ℕ
  pub tr : ℕ

pub set_up_segments : (old : SegDesc) → (ldt ldt_size tss tss_size : ℕ) → Kernel → Segments × Kernel
set_up_segments old ldt ldt_size tss tss_size k = (
  record {
    ldt_desc_ptr = the_ldt_desc old ldt ldt_size;
    tss_desc_ptr = the_tss_desc old tss tss_size;
    ldt_segment_selector = kernel_ldt;
    ldtr = kernel_ldt;
    tr = kernel_tss;
  },
  record k { ss0 = kernel_ds; esp0 = 0x800000 },
)
