-- ===== src/System/Ticks.antt =====
-- The ticks that start the root shells.
use system_engineering.Base.{ℕ, ◌+◌, ◌%◌, ◌<◌, ◌≡◌, ◌⊎◌, inl, inr, sym, ◌∙◌, subst, some, none}
use system_engineering.Kernel.{Kernel, current}
use system_engineering.Process.Shell.{HasShell, execute-shell}
use system_engineering.Scheduler.{launched, scheduler}
use system_engineering.Scheduler.Launches.{Launching, first-Launching, next-Launching}
use system_engineering.System.{Stacks, total, IsStacked}
use system_engineering.System.Push.{push, push-IsStacked}
use system_engineering.System.Calls.{execute-Adds}
use system_engineering.System.Invariant.{Turns-IsStacked}
use system_engineering.System.Room.{room-find_pid}

-- A tick that finds the terminal `t` without a process.
pub record Launched (fuel : ℕ) (k : Kernel) (s : Stacks) (t : ℕ) : Type 0 where
  pub after : Kernel
  pub entry : ℕ
  pub slot : ℕ
  pub tick : scheduler fuel k ≡ launched after entry
  pub stacked : IsStacked after (push s t slot)
  pub scheduled : after.console.curr_scheduler ≡ t
  pub files : after.fs ≡ k.fs
  pub locals : after.stack ≡ k.stack

Launching-Launched :
    (fuel : ℕ) (k : Kernel) (s : Stacks) (t : ℕ)
    → 5 < fuel
    → IsStacked k s
    → total s < 6
    → HasShell k.fs k.stack
    → (l : Launching fuel k) → l.before.console.curr_scheduler ≡ t
    → Launched fuel k s t
Launching-Launched fuel k s t enough h room there l at =
    let stacked : IsStacked l.before s = Turns-IsStacked l.same h in
    let (i, free) = room-find_pid stacked room in
    let ready =
      subst (λ f. HasShell f l.before.stack) (sym l.files)
        (subst (HasShell k.fs) (sym l.locals) there) in
    let (k', entry, e, files, locals) = execute-shell fuel l.before i enough l.idle free ready in
    let (j, a) = execute-Adds fuel l.before _ e in
    record {
      after = k';
      entry = entry;
      slot = j;
      tick = l.launching k' entry e;
      stacked = subst (λ n. IsStacked k' (push s n j)) at (push-IsStacked stacked a);
      scheduled = a.scheduled ∙ at;
      files = files ∙ l.files;
      locals = locals ∙ l.locals;
    }

-- On stacked processes that leave a pid free, with the shell's program in the file system and fuel for
-- its name, a tick that finds the first terminal, or the terminal behind that of the process that runs,
-- without a process starts a shell there, which is the only new process, and schedules that terminal.
-- The file system and the memory of local arrays stay.
pub scheduler-Launched :
    (fuel : ℕ) (k : Kernel) (s : Stacks) (t : ℕ)
    → 5 < fuel
    → IsStacked k s
    → total s < 6
    → HasShell k.fs k.stack
    → ((current k ≡ none) × (k.console.curr_scheduler ≡ 0) × (t ≡ 0))
      ⊎ ((p : ℕ) × (current k ≡ some p)
          × ((k.console.terminal ((k.console.curr_scheduler + 1) % 3)).pcb ≡ none)
          × (t ≡ (k.console.curr_scheduler + 1) % 3))
    → Launched fuel k s t
scheduler-Launched fuel k s t enough h room there (inl (idle, first, at)) =
    let l = first-Launching fuel k idle first in
    Launching-Launched fuel k s t enough h room there l.0 (l.1 ∙ first ∙ sym at)
scheduler-Launched fuel k s t enough h room there (inr (p, run, idle, at)) =
    let l = next-Launching fuel k p run idle in
    Launching-Launched fuel k s t enough h room there l.0 (l.1 ∙ sym at)
