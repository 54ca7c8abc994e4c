-- ===== src/Process/RoundTrip.antt =====
-- A program that `execute` starts and that halts gives everything back.
use system_engineering.Base.{ℕ, ◌<◌, ◌≢◌, ◌≡◌, some}
use system_engineering.Kernel.{Kernel, vacant, user_page, kernel_stack, current}

-- The kernel `k'` after a program of `k`, with the process `q` running, came and went in slot `i`.
pub record Restored (k k' : Kernel) (q i : ℕ) : Type 0 where
  pub slot : i < 6
  pub was_free : k.pid i ≡ vacant
  pub table : (j : ℕ) → k'.pid j ≡ k.pid j
  pub counter : k'.process_counter ≡ k.process_counter
  pub running : current k' ≡ some q
  pub directory : k'.page_directory 32 ≡ user_page (k.pcbs q).pid
  pub stacked : k'.esp0 ≡ kernel_stack (k.pcbs q).pid
  pub frame : k'.cpu ≡ k.cpu
  pub caller : k'.pcbs q ≡ record (k.pcbs q) { halt_frame = k.cpu }
  pub others : (j : ℕ) → j ≢ i → j ≢ q → k'.pcbs j ≡ k.pcbs j
