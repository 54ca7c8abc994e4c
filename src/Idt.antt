-- ===== src/Idt.antt =====
-- student-distrib/idt.c and the gates of x86_desc.h: the table of the interrupt vectors.
use system_engineering.Base.{
  ℕ, zero, suc, ◌+◌, ◌/◌, ◌%◌, ◌^◌, List, [], ◌∷◌, Bool, false, ◌&&◌, ◌||◌, leb, ◌==◌,
  if◌then◌else◌, Arr, update, bit_and, u16,
}
pub mod Gates
mod Tests

-- `idt_desc_t`
pub record Gate : Type 0 where
  pub offset_15_00 : ℕ
  pub seg_selector : ℕ
  pub reserved4 : ℕ
  pub reserved3 : ℕ
  pub reserved2 : ℕ
  pub reserved1 : ℕ
  pub size : ℕ
  pub reserved0 : ℕ
  pub dpl : ℕ
  pub present : ℕ
  pub offset_31_16 : ℕ

abbrev pub num_vec : ℕ
num_vec = 256

abbrev pub kernel_cs : ℕ
kernel_cs = 0x10

abbrev pub system_call_vector : ℕ
system_call_vector = 0x80

-- One round of the loop: every field but the offset.
pub prepared : ℕ → Gate → Gate
prepared i g = record g {
  present = 1;
  dpl = if i == system_call_vector then 3 else 0;
  size = 1;
  seg_selector = kernel_cs;
  reserved0 = 0;
  reserved1 = 1;
  reserved2 = 1;
  reserved3 = if leb 0x20 i && leb i 0x2F then 0 else 1;
  reserved4 = 0;
}

-- The loop, over the rounds left.
pub prepare_gates : ℕ → Arr Gate → ℕ → Arr Gate
prepare_gates zero idt i = idt
prepare_gates (suc k) idt i = prepare_gates k (update idt i (prepared i (idt i))) (i + 1)

-- `SET_IDT_ENTRY`
pub set_idt_entry : Gate → (handler : ℕ) → Gate
set_idt_entry g handler = record g {
  offset_31_16 = bit_and handler 0xFFFF0000 / 2 ^ 16;
  offset_15_00 = bit_and handler 0xFFFF;
}

-- The vectors that are given a handler, in the order of the source: the exceptions, the keyboard, the
-- clock, the system calls and the timer.
abbrev pub vectors : List ℕ
vectors =
    0 ∷ 1 ∷ 2 ∷ 3 ∷ 4 ∷ 5 ∷ 6 ∷ 7 ∷ 8 ∷ 9 ∷ 10 ∷ 11 ∷ 12 ∷ 13 ∷ 14 ∷ 16 ∷ 17 ∷ 18 ∷ 19 ∷ 0x21 ∷ 0x28
    ∷ 0x80 ∷ 0x20 ∷ []

-- `handler` is the address of the wrapper, in assembly, that serves a vector.
pub set_entries : (handler : Arr ℕ) → List ℕ → Arr Gate → Arr Gate
set_entries handler [] idt = idt
set_entries handler (v ∷ vs) idt =
    set_entries handler vs (update idt v (set_idt_entry (idt v) (handler v)))

pub idt_init : (handler : Arr ℕ) → Arr Gate → Arr Gate
idt_init handler idt = set_entries handler vectors (prepare_gates num_vec idt 0)
