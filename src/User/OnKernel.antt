-- ===== src/User/OnKernel.antt =====
-- student-distrib/system_call.c as the calls that the user programs make.
use system_engineering.Base.{ℕ, none, some, Option, Mem}
use system_engineering.Base.Int.{ℤ, pos}
use system_engineering.Kernel.{Kernel}
use system_engineering.Process.{close}
use system_engineering.Syscall.{read, write, open_file, getargs}
use system_engineering.User.{Calls}

-- The result of a read whose buffer is not NULL.
abbrev pub with_buffer : Option (Kernel × Option Mem × ℤ) → Option (Kernel × Mem × ℤ)
with_buffer none = none
with_buffer (some (k, none, code)) = none
with_buffer (some (k, some out, code)) = some (k, out, code)

-- `wait` is what happens while a handler waits for an interrupt, and `run` what a program that `execute`
-- starts does until it halts.
module _ (wait : Kernel → Kernel) (run : Kernel → Mem → Option (Kernel × ℤ)) where
  abbrev kernel_getargs : Kernel → Mem → ℕ → Option (Kernel × Mem × ℤ)
  kernel_getargs k buf n = elim (getargs k (some buf) (pos n)) [
    | none ↦ none
    | some (none, code) ↦ none
    | some (some out, code) ↦ some (k, out, code)
  ]

  abbrev kernel_read : Kernel → ℤ → Mem → ℕ → Option (Kernel × Mem × ℤ)
  kernel_read k fd buf n = with_buffer (read wait k fd (some buf) (pos n))

  abbrev pub kernel_calls : Calls
  kernel_calls = record {
    State = Kernel;
    getargs = kernel_getargs;
    open_file = λ k name. open_file k (some name);
    read = kernel_read;
    close_file = close;
    write = λ k fd buf n. write k fd (some buf) n;
    execute = run;
  }
