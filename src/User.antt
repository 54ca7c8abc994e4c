-- ===== src/User.antt =====
-- syscalls: the programs that run on the kernel, over the calls that they make. The calls are a record
-- of functions on a state.
use system_engineering.Base.{ℕ, Option, Mem}
use system_engineering.Base.Int.{ℤ}
pub mod Support
pub mod Programs
pub mod Search
pub mod View
pub mod Cat
pub mod OnKernel
pub mod OpenFile
pub mod KernelView
pub mod SysErr
pub mod PingPong
mod Tests

-- The system calls that the programs use. `none` means that the call does not return.
pub record Calls : Type 1 where
  pub State : Type 0
  pub getargs : State → Mem → ℕ → Option (State × Mem × ℤ)
  pub open_file : State → Mem → Option (State × ℤ)
  pub read : State → ℤ → Mem → ℕ → Option (State × Mem × ℤ)
  pub close_file : State → ℤ → Option (State × ℤ)
  pub write : State → ℤ → Mem → ℤ → Option (State × ℤ)
  pub execute : State → Mem → Option (State × ℤ)
