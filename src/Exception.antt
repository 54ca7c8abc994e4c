-- ===== src/Exception.antt =====
-- student-distrib/exception_handler.c: the handlers of the processor's exceptions.
use system_engineering.Base.{ℕ, List, [], ◌∷◌, ◌++◌, Option, none, some, Mem}
use system_engineering.Base.Text.{codes, text}
use system_engineering.Kernel.{Kernel}
use system_engineering.Print.{printf}
use system_engineering.Process.{Outcome, fault, halt}
pub mod Abort
mod Tests

-- The exceptions that have a handler, in the order of the source.
pub data Exception : Type 0 where
  de db nmi bp of br ud nm df cso ts np ss gp pf mf ac mc xf : Exception

-- The message of each. The macro turns the literal into text, so its quotes are printed too.
abbrev title : Exception → List ℕ
title de = codes "Divide Error"
title db = codes "RESERVED"
title nmi = codes "NMI Interrupt"
title bp = codes "Breakpoint Exception"
title of = codes "Overflow Exception"
title br = codes "BOUND Range Exceeded"
title ud = codes "Invalid Opcode"
title nm = codes "Device Not Available"
title df = codes "Double Fault"
title cso = codes "Coprocessor Segment Overrun"
title ts = codes "Invalid TSS"
title np = codes "Segment Not Present"
title ss = codes "Stack-Segment Fault"
title gp = codes "General Protection"
title pf = codes "Page Fault"
title mf = codes "x87 FPU Floating-Point error"
title ac = codes "Alignment Check"
title mc = codes "Machine Check"
title xf = codes "SIMD Floating-Point Exception"

abbrev pub message : Exception → List ℕ
message e = 34 ∷ title e ++ (34 ∷ [])

-- "%s\n"
abbrev pub message_format : Mem
message_format = text (37 ∷ 115 ∷ 10 ∷ [])

-- The handler, up to `halt(1)`. The message lies at the start of the memory that `printf` reads.
pub exception : (fuel : ℕ) → Exception → Kernel → Option Outcome
exception fuel e k = elim (printf fuel (text (message e)) (λ i. 0) k.stack k message_format) [
  | none ↦ none
  | some (k', printed) ↦ some (halt fuel (record k' { global_halt = 1 }) 1)
]
