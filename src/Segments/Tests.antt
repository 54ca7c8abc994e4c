-- ===== src/Segments/Tests.antt =====
-- A local table of 16 bytes and a task's segment of 104.
use system_engineering.Base.{arith}
use system_engineering.Kernel.Sample.{sample_kernel}
use system_engineering.Segments.{SegDesc, set_up_segments}
use system_engineering.Segments.Fields.{Described, set_up_segments-Described}

abbrev ones : SegDesc
ones = record {
  seg_lim_15_00 = 1;
  base_15_00 = 1;
  base_23_16 = 1;
  type = 1;
  sys = 1;
  dpl = 1;
  present = 1;
  seg_lim_19_16 = 1;
  avail = 1;
  reserved = 1;
  opsize = 1;
  granularity = 1;
  base_31_24 = 1;
}

set_up_segments-Described_example :
    Described 0x12345678 16 0x89ABCDEF 104
      (set_up_segments ones 0x12345678 16 0x89ABCDEF 104 sample_kernel).0
      (set_up_segments ones 0x12345678 16 0x89ABCDEF 104 sample_kernel).1
set_up_segments-Described_example =
    set_up_segments-Described ones 0x12345678 16 0x89ABCDEF 104 sample_kernel (omega arith)
      (omega arith) (omega arith) (omega arith)
