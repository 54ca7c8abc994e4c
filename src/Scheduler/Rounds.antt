-- ===== src/Scheduler/Rounds.antt =====
-- A process gets the processor back: three ticks go once around the terminals.
use system_engineering.Base.{ℕ, ◌+◌, ◌%◌, ◌<◌, ◌≡◌, ◌≢◌, sym, ap, ◌∙◌, arith, some}
use system_engineering.Console.{Terminal}
use system_engineering.Kernel.{Kernel, Pcb, current, user_page, kernel_stack}
use system_engineering.Scheduler.{scheduler, resumed}
use system_engineering.Scheduler.Rotation.{Switched, scheduler-Switched}

-- What the code that runs in process `p` between two ticks leaves alone: which terminal is scheduled,
-- which process each terminal runs, the pid of `p` and every other slot.
pub record Undisturbed (k k' : Kernel) (p : ℕ) : Type 0 where
  pub scheduled : k'.console.curr_scheduler ≡ k.console.curr_scheduler
  pub running : (t : ℕ) → (k'.console.terminal t).pcb ≡ (k.console.terminal t).pcb
  pub own_pid : (k'.pcbs p).pid ≡ (k.pcbs p).pid
  pub others : (j : ℕ) → j ≢ p → k'.pcbs j ≡ k.pcbs j

-- The processes of the three terminals, from the one that is scheduled on.
pub record Round (k : Kernel) (p q r : ℕ) : Type 0 where
  pub here : (k.console.terminal k.console.curr_scheduler).pcb ≡ some p
  pub next : (k.console.terminal ((k.console.curr_scheduler + 1) % 3)).pcb ≡ some q
  pub last : (k.console.terminal ((k.console.curr_scheduler + 2) % 3)).pcb ≡ some r
  pub terminal : k.console.curr_scheduler < 3

module _ {k k1 k2 : Kernel} {p q r : ℕ} (h : Round k p q r) (s : Switched k k1 p q)
    (u : Undisturbed k1 k2 q) where
  -- The terminal of `k` whose process a terminal of `k2` runs.
  same_process : (t t' : ℕ) → t ≡ t' → (k2.console.terminal t).pcb ≡ (k.console.terminal t').pcb
  same_process t t' e =
      u.running t
      ∙ ap (λ (a : ℕ → Terminal). (a t).pcb) s.terminals
      ∙ ap (λ x. (k.console.terminal x).pcb) e

  at_next : k2.console.curr_scheduler ≡ (k.console.curr_scheduler + 1) % 3
  at_next = u.scheduled ∙ s.scheduled

  -- One tick turns the round by one.
  turned-Round : Round k2 q r p
  turned-Round = record {
    here = same_process _ _ at_next ∙ h.next;
    next = same_process _ ((k.console.curr_scheduler + 2) % 3) (omega (arith, at_next)) ∙ h.last;
    last = same_process _ k.console.curr_scheduler (omega (arith, at_next, h.terminal)) ∙ h.here;
    terminal = omega (arith, at_next);
  }

  -- A process that does not run keeps its slot.
  kept_slot : (j : ℕ) → j ≢ p → j ≢ q → k2.pcbs j ≡ k.pcbs j
  kept_slot j not_p not_q = u.others j not_q ∙ s.frames j not_p

module _ (work : Kernel → Kernel)
    (undisturbed : (k : Kernel) (p : ℕ) → current k ≡ some p → Undisturbed k (work k) p) where
  -- When the three terminals run three different processes and the code between the ticks leaves that
  -- alone, the third tick from now resumes the process that runs now, in the frame that this tick
  -- saves, on its page and its kernel stack, with its terminal scheduled.
  pub scheduler-Round :
      (fuel : ℕ) (k : Kernel) (p q r : ℕ)
      → Round k p q r
      → p ≢ q
      → q ≢ r
      → r ≢ p
      → (k1 : Kernel) × (k2 : Kernel) × (k3 : Kernel) × (scheduler fuel k ≡ resumed k1)
        × (scheduler fuel (work k1) ≡ resumed k2)
        × (scheduler fuel (work k2) ≡ resumed k3)
        × (current k1 ≡ some q)
        × (current k2 ≡ some r)
        × (current k3 ≡ some p)
        × (k3.console.curr_scheduler ≡ k.console.curr_scheduler)
        × (k3.cpu ≡ k.cpu)
        × (k3.page_directory 32 ≡ user_page (k.pcbs p).pid)
        × (k3.esp0 ≡ kernel_stack (k.pcbs p).pid)
  scheduler-Round fuel k p q r h pq qr rp =
      let (k1, first, s1) = scheduler-Switched fuel k p q h.here h.next in
      let u1 = undisturbed k1 q s1.running in
      let h1 = turned-Round h s1 u1 in
      let (k2, second, s2) = scheduler-Switched fuel (work k1) q r h1.here h1.next in
      let u2 = undisturbed k2 r s2.running in
      let h2 = turned-Round h1 s2 u2 in
      let (k3, third, s3) = scheduler-Switched fuel (work k2) r p h2.here h2.next in
      let slot : (work k2).pcbs p ≡ k1.pcbs p =
        kept_slot h1 s2 u2 p pq (λ e. rp (sym e)) ∙ u1.others p pq in
      let pid : ((work k2).pcbs p).pid ≡ (k.pcbs p).pid =
        ap (λ (x : Pcb). x.pid) slot ∙ s1.pids p in
      (
        k1,
        k2,
        k3,
        first,
        second,
        third,
        s1.running,
        s2.running,
        s3.running,
        omega (arith, s3.scheduled, at_next h1 s2 u2, at_next h s1 u1, h.terminal),
        s3.frame ∙ ap (λ (x : Pcb). x.frame) (s3.frames p (λ e. rp (sym e)) ∙ slot) ∙ s1.saved,
        s3.program ∙ ap user_page pid,
        s3.stacked ∙ ap kernel_stack pid,
      )
