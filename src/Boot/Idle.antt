-- ===== src/Boot/Idle.antt =====
-- The processes that the initialisers leave, which are none.
use system_engineering.Base.{ℕ, ◌<◌, [], Arr, Mem, ◌≡◌, refl, arith}
use system_engineering.Base.Int.{negsuc}
use system_engineering.Kernel.{Kernel, vacant}
use system_engineering.Keyboard.{keyboard_init, terminal_init}
use system_engineering.Pic.{i8259_init, enable_irq}
use system_engineering.Rtc.{rtc_init}
use system_engineering.Scheduler.{paging_init, pit_init}
use system_engineering.System.{IsStacked}
use system_engineering.Boot.{Machine, Reads, init_pic, init_clock, initialise}
use system_engineering.Boot.Ready.{initialise-idle}

-- The variables that `system_call.c` and `pit.c` give a first value.
pub record Loaded (k : Kernel) : Type 0 where
  pub free : (i : ℕ) → i < 6 → k.pid i ≡ vacant
  pub counter : k.process_counter ≡ negsuc 0
  pub scheduled : k.console.curr_scheduler ≡ 0

-- The kernel that the initialisers leave, from the values that its variables are loaded with, runs no
-- process: the three stacks are empty.
pub initialise-IsStacked :
    (handler : Arr ℕ) (r : Reads) (table : ℕ) (image : Mem) (start_addr : ℕ) (m : Machine)
    → Loaded m.kernel
    → IsStacked (initialise handler r table image start_addr m).kernel (λ t. [])
unfolding initialise init_pic init_clock keyboard_init terminal_init i8259_init enable_irq rtc_init
    paging_init pit_init
initialise-IsStacked handler r table image start_addr m h = record {
  terminal = omega (arith, h.scheduled);
  linked = initialise-idle handler r table image start_addr m;
  small = λ i le. refl;
  once = λ i. omega arith;
  table = h.free;
  counter = h.counter;
}
