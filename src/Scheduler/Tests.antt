-- ===== src/Scheduler/Tests.antt =====
-- A tick of the sample kernel.
use system_engineering.Base.{
  ℕ, ◌+◌, ◌*◌, ◌%◌, ◌<◌, ltb, if◌then◌else◌, some, none, arith, ◌≡◌, refl, sym, subst,
}
use system_engineering.Kernel.{Kernel, current, user_page, kernel_stack}
use system_engineering.Kernel.Sample.{sample_kernel, sample_console}
use system_engineering.Scheduler.{scheduler, resumed}
use system_engineering.Scheduler.Rotation.{scheduler-Switched}
use system_engineering.Scheduler.Screen.{frame_address, by_tick, Switches-Shows}
use system_engineering.Console.{Terminal, putc}
use system_engineering.Console.Cursor.{Printed}
use system_engineering.Console.Pages.{IsSane, pen}
use system_engineering.Scheduler.Rounds.{Undisturbed, scheduler-Round}

-- The tick resumes process 1, in the background.
abbrev next_kernel : Kernel
next_kernel = (scheduler-Switched 10 sample_kernel 0 1 refl refl).0

next_kernel-IsSane : IsSane next_kernel.console
next_kernel-IsSane =
    let s = (scheduler-Switched 10 sample_kernel 0 1 refl refl).2 in
    record {
      cursors = λ t lt.
          subst (λ (a : ℕ → Terminal). 80 * (a t).screen_y + (a t).screen_x < 2000)
            (sym s.terminals) (omega arith);
      current = omega (arith, s.visible);
      scheduled = omega (arith, s.scheduled);
    }

Switches-Shows_example :
    (next_kernel.page_table_video 0 % 4096 ≡ 7)
    × Printed
        (frame_address (next_kernel.page_table_video 0))
        65
        (pen next_kernel.console)
        (pen (putc next_kernel.console 65).0)
Switches-Shows_example =
    Switches-Shows (by_tick 10 next_kernel (scheduler-Switched 10 sample_kernel 0 1 refl refl).1)
      next_kernel-IsSane 65

-- Three terminals that run the processes 0, 1 and 2; what runs between ticks changes its own frame.
abbrev three_running : Kernel
three_running = record sample_kernel {
  console = record sample_console {
    terminal = λ t. record { pcb = if ltb t 3 then some t else none; screen_x = 0; screen_y = 0 };
  };
}

abbrev moved : Kernel → Kernel
moved k = record k { cpu = (k.cpu.0 + 4, k.cpu.1) }

moved-Undisturbed : (k : Kernel) (p : ℕ) → current k ≡ some p → Undisturbed k (moved k) p
moved-Undisturbed k p runs = record {
  scheduled = refl;
  running = λ t. refl;
  own_pid = refl;
  others = λ j ne. refl;
}

scheduler-Round_example :
    (k1 : Kernel) × (k2 : Kernel) × (k3 : Kernel) × (scheduler 10 three_running ≡ resumed k1)
    × (scheduler 10 (moved k1) ≡ resumed k2)
    × (scheduler 10 (moved k2) ≡ resumed k3)
    × (current k1 ≡ some 1)
    × (current k2 ≡ some 2)
    × (current k3 ≡ some 0)
    × (k3.console.curr_scheduler ≡ 0)
    × (k3.cpu ≡ (7, 8))
    × (k3.page_directory 32 ≡ user_page 0)
    × (k3.esp0 ≡ kernel_stack 0)
scheduler-Round_example =
    scheduler-Round moved moved-Undisturbed 10 three_running 0 1 2
      (record { here = refl; next = refl; last = refl; terminal = omega arith }) (omega arith)
      (omega arith) (omega arith)
