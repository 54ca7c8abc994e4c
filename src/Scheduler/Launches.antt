-- ===== src/Scheduler/Launches.antt =====
-- The ticks that find a terminal without a process.
use system_engineering.Base.{ℕ, ◌+◌, ◌%◌, ◌≡◌, refl, ==_iff, some, none, true, false, ◌∙◌}
use system_engineering.Kernel.{Kernel, current, emit}
use system_engineering.Pic.{send_eoi}
use system_engineering.Process.{started, execute, shell}
use system_engineering.Scheduler.{launched, launch, next_terminal, schedule, scheduler}
use system_engineering.Scheduler.Turns.{
  Turns, later-Turns, next_terminal-Turns, cleared, cleared-Quiet, Quiet-Turns,
}
use system_engineering.System.Quiet.{Quiet, Quiet-trans, Quiet-current, console-Quiet}

-- The kernel `before` in which the tick starts a shell.
pub record Launching (fuel : ℕ) (k : Kernel) : Type 0 where
  pub before : Kernel
  pub same : Turns k before
  pub idle : current before ≡ none
  pub files : before.fs ≡ k.fs
  pub locals : before.stack ≡ k.stack
  pub launching :
      (k' : Kernel) (entry : ℕ)
      → execute fuel before (some shell) ≡ started k' entry
      → scheduler fuel k ≡ launched k' entry

launch-started :
    (fuel : ℕ) (k : Kernel) {k' : Kernel} {entry : ℕ}
    → execute fuel k (some shell) ≡ started k' entry
    → launch fuel k ≡ launched k' entry
unfolding launch
launch-started fuel k e = rw (launch, e) refl

-- The tick behind its first two steps.
abbrev ticked : Kernel → Kernel
ticked k = record (emit k (send_eoi 0)) { interrupts = false }

ticked-Quiet : (k : Kernel) → Quiet k (ticked k)
ticked-Quiet k = console-Quiet refl refl refl (record { scheduled = refl; running = λ t. refl })

-- The first tick.
pub first-Launching :
    (fuel : ℕ) (k : Kernel)
    → current k ≡ none
    → k.console.curr_scheduler ≡ 0
    → (l : Launching fuel k) × (l.before.console.curr_scheduler ≡ k.console.curr_scheduler)
unfolding scheduler
first-Launching fuel k idle first =
    let zeroth = (==_iff k.console.curr_scheduler 0).1 first in
    let q = Quiet-trans (ticked-Quiet k) (cleared-Quiet (ticked k)) in
    (
      record {
        before = cleared (ticked k);
        same = Quiet-Turns q;
        idle = Quiet-current q ∙ idle;
        files = refl;
        locals = refl;
        launching =
            λ k' entry e. rw (scheduler, idle, zeroth) (launch-started fuel (cleared (ticked k)) e);
      },
      q.scheduled,
    )

-- A tick with no process at the next terminal.
pub next-Launching :
    (fuel : ℕ) (k : Kernel) (p : ℕ)
    → current k ≡ some p
    → (k.console.terminal ((k.console.curr_scheduler + 1) % 3)).pcb ≡ none
    → (l : Launching fuel k) × (l.before.console.curr_scheduler
        ≡ (k.console.curr_scheduler + 1) % 3)
unfolding scheduler schedule next_terminal
next-Launching fuel k p run idle =
    let t = later-Turns (ticked-Quiet k) (next_terminal-Turns (ticked k) p) in
    (
      record {
        before = record (next_terminal (ticked k) p) { interrupts = true };
        same = record {
          table = t.table;
          counter = t.counter;
          turned = t.turned;
          running = t.running;
          slots = t.slots;
        };
        idle = idle;
        files = refl;
        locals = refl;
        launching = λ k' entry e.
            rw (scheduler, run)
              (rw (schedule, idle)
                (launch-started fuel (record (next_terminal (ticked k) p) { interrupts = true })
                  e));
      },
      refl,
    )
