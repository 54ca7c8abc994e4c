-- ===== src/Idt/Tests.antt =====
-- The gate of the clock.
use system_engineering.Base.{true, arith}
use system_engineering.Idt.{Gate, idt_init}
use system_engineering.Idt.Gates.{GateOf, listed_in, idt_init-GateOf}

abbrev blank : Gate
blank = record {
  offset_15_00 = 0;
  seg_selector = 0;
  reserved4 = 0;
  reserved3 = 0;
  reserved2 = 0;
  reserved1 = 0;
  size = 0;
  reserved0 = 0;
  dpl = 0;
  present = 0;
  offset_31_16 = 0;
}

idt_init-GateOf_example :
    GateOf 0x28 true 0x401234 blank (idt_init (λ v. 0x401234) (λ i. blank) 0x28)
unfolding listed_in
idt_init-GateOf_example = idt_init-GateOf (λ v. 0x401234) (λ i. blank) 0x28 (omega arith)
