-- ===== src/Process/Root.antt =====
-- `halt` of a root shell, which starts the shell again, and `halt` without a process.
use system_engineering.Base.{ℕ, ◌≡◌, refl, update, some, none}
use system_engineering.Base.Int.{negsuc, decr}
use system_engineering.Kernel.{Kernel, vacant, current, set_current}
use system_engineering.Process.{Outcome, returned, started, fault, execute, halt, shell}

-- The kernel when the shell is started again.
abbrev pub root_freed : Kernel → ℕ → Kernel
root_freed k p =
    set_current
      (record k {
        pid = update k.pid (k.pcbs p).pid vacant;
        process_counter = decr k.process_counter;
      })
      none

-- The shell that is started, or a fault if it does not start.
abbrev pub only_started : Outcome → Outcome
only_started (returned k code) = fault
only_started (started k entry) = started k entry
only_started fault = fault

pub halt-idle : (fuel : ℕ) (k : Kernel) (status : ℕ) → current k ≡ none → halt fuel k status ≡ fault
unfolding halt
halt-idle fuel k status e = rw (halt, e) refl

pub halt-root :
    (fuel : ℕ) (k : Kernel) (status p n : ℕ)
    → current k ≡ some p
    → (k.pcbs p).parent_pid ≡ negsuc n
    → halt fuel k status ≡ only_started (execute fuel (root_freed k p) (some shell))
unfolding halt
halt-root fuel k status p n run root =
    rw (halt, run, root) (again (execute fuel (root_freed k p) (some shell)))
  where
    again :
        (o : Outcome)
        → elim o as (λ _. Outcome) [
          | returned k'' code ↦ fault
          | started k'' entry ↦ started k'' entry
          | fault ↦ fault
        ]
          ≡ only_started o
    again (returned k'' code) = refl
    again (started k'' entry) = refl
    again fault = refl
