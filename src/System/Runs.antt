-- ===== src/System/Runs.antt =====
-- What can happen on the machine after it has booted: programs compute and make calls, the timer ticks
-- and keys are pressed, one after the other. Each is handled to its end before the next one comes, but
-- for a read that waits, which lets other things come before it ends, and a write, which lets them come
-- between its characters. The source leaves interrupts on in `halt` and `open` too, so a tick can come
-- inside them there, and such runs are not among these. Neither are those in which something is a fault.
use system_engineering.Base.{ℕ, ◌≤◌, [], ◌∷◌, Bool, Option, some, Mem, Arr, ◌≡◌}
use system_engineering.Base.Int.{ℤ}
use system_engineering.Exception.{Exception, exception}
use system_engineering.Kernel.{Kernel, Frame, put_all}
use system_engineering.Keyboard.{keyboard_handler, Handled, handled, halted}
use system_engineering.Process.{Outcome, returned, started, execute, halt, close}
use system_engineering.Scheduler.{scheduler, Tick, resumed, launched, vidmap}
use system_engineering.Syscall.{open_file, read, write}

-- What a program can change by itself: its frame, its memory with the screen that `vidmap` may show it,
-- and the memory that local arrays will lie in. The ports and the interrupt flag change with it.
pub record Computed : Type 0 where
  pub cpu : Frame
  pub interrupts : Bool
  pub programs : Arr Mem
  pub inb : ℕ → ℕ
  pub stack : Mem
  pub memory : Mem

abbrev pub computed : Kernel → Computed → Kernel
computed k c = record k {
  cpu = c.cpu;
  interrupts = c.interrupts;
  programs = c.programs;
  inb = c.inb;
  stack = c.stack;
  console = record k.console { memory = c.memory };
}

-- How `execute`, `halt` and the handlers leave the kernel.
pub data Leaves : Outcome → Kernel → Type 0 where
  returns : (k : Kernel) (code : ℤ) → Leaves (returned k code) k
  enters : (k : Kernel) (entry : ℕ) → Leaves (started k entry) k

pub data TickLeaves : Tick → Kernel → Type 0 where
  resumes : (k : Kernel) → TickLeaves (resumed k) k
  enters_shell : (k : Kernel) (entry : ℕ) → TickLeaves (launched k entry) k

pub data KeyLeaves : Handled → Kernel → Type 0 where
  returns_key : (k : Kernel) → KeyLeaves (handled k) k
  halts_process : (o : Outcome) (k : Kernel) → Leaves o k → KeyLeaves (halted o) k

-- From one kernel to another. Each thing that happens comes last.
pub data Runs : Kernel → Kernel → Type 0 where
  begin : (k : Kernel) → Runs k k
  computes : {k0 k : Kernel} → Runs k0 k → (c : Computed) → Runs k0 (computed k c)
  executes :
      {k0 k k' : Kernel}
      → Runs k0 k
      → (fuel : ℕ) (command : Option Mem) → Leaves (execute fuel k command) k'
      → Runs k0 k'
  halts_itself :
      {k0 k k' : Kernel}
      → Runs k0 k
      → (fuel status : ℕ) → Leaves (halt fuel k status) k'
      → Runs k0 k'
  raises :
      {k0 k k' : Kernel}
      → Runs k0 k
      → (fuel : ℕ) (e : Exception) (o : Outcome) → 32 ≤ fuel
      → exception fuel e k ≡ some o
      → Leaves o k'
      → Runs k0 k'
  ticks :
      {k0 k k' : Kernel} → Runs k0 k → (fuel : ℕ) → TickLeaves (scheduler fuel k) k' → Runs k0 k'
  key_pressed :
      {k0 k k' : Kernel}
      → Runs k0 k
      → (fuel : ℕ) → KeyLeaves (keyboard_handler fuel k) k'
      → Runs k0 k'
  opens :
      {k0 k k' : Kernel}
      → Runs k0 k
      → (filename : Option Mem) (code : ℤ) → open_file k filename ≡ some (k', code)
      → Runs k0 k'
  closes :
      {k0 k k' : Kernel} → Runs k0 k → (fd code : ℤ) → close k fd ≡ some (k', code) → Runs k0 k'
  writes :
      {k0 k k' : Kernel}
      → Runs k0 k
      → (fd : ℤ) (buf : Option Mem) (nbytes code : ℤ) → write k fd buf nbytes ≡ some (k', code)
      → Runs k0 k'
  reads :
      {k0 k k' : Kernel}
      → Runs k0 k
      → (wait : Kernel → Kernel) → ((w : Kernel) → Runs w (wait w))
      → (fd : ℤ) (buf : Option Mem) (nbytes : ℤ) (out : Option Mem) (code : ℤ)
      → read wait k fd buf nbytes ≡ some (k', out, code)
      → Runs k0 k'
  -- A character of a write, when other things come between its characters.
  prints : {k0 k : Kernel} → Runs k0 k → (c : ℕ) → Runs k0 (put_all k (c ∷ []))
  vidmaps :
      {k0 k : Kernel}
      → Runs k0 k
      → (table screen_start : ℕ) → Runs k0 (vidmap table k screen_start).0
