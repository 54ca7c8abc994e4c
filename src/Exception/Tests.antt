-- ===== src/Exception/Tests.antt =====
-- A page fault in a process that another one started.
use system_engineering.Base.{update, ◌≡◌, refl, arith, [], ◌∷◌, ◌++◌, some}
use system_engineering.Base.Int.{pos}
use system_engineering.Kernel.{Kernel, put_all}
use system_engineering.Kernel.Sample.{sample_kernel, sample_pcb}
use system_engineering.Process.{returned}
use system_engineering.Process.Halt.{Back}
use system_engineering.Exception.{Exception, exception, message}
use system_engineering.Exception.Abort.{exception-Back}

abbrev started_by_other : Kernel
started_by_other = record sample_kernel {
  pcbs = update sample_pcb 0 (record (sample_pcb 0) { parent_pid = pos 1; parent_pcb = some 1 });
}

exception-Back_example :
    (k' : Kernel) × (exception 40 Exception.pf started_by_other ≡ some (returned k' (pos 256)))
    × Back (put_all started_by_other (message Exception.pf ++ (10 ∷ []))) k' 0 1
exception-Back_example =
    exception-Back Exception.pf started_by_other 0 1 40 (omega arith) refl refl refl
