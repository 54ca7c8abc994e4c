-- ===== src/Scheduler/Rotation.antt =====
-- What a tick of the timer does when both terminals concerned run a process.
use system_engineering.Base.{
  ℕ, ◌+◌, ◌%◌, ◌≢◌, ◌==◌, true, false, if◌then◌else◌, Arr, update, update_self, update_ne, ◌≡◌, inl,
  inr, refl, ◌∙◌, ap, arith, Bool-cases, some,
}
use system_engineering.Pic.{send_eoi, enable_irq, disable_irq}
use system_engineering.Kernel.{Kernel, Pcb, current, user_page, kernel_stack, emit}
use system_engineering.Scheduler.{
  scheduler, schedule, next_terminal, switch_to, shown_entry, resumed,
}

-- What the switch from process `p` to process `q` leaves of `k`.
pub record Switched (k k' : Kernel) (p q : ℕ) : Type 0 where
  pub scheduled : k'.console.curr_scheduler ≡ (k.console.curr_scheduler + 1) % 3
  pub visible : k'.console.current_terminal ≡ k.console.current_terminal
  pub running : current k' ≡ some q
  pub terminals : k'.console.terminal ≡ k.console.terminal
  pub pids : (j : ℕ) → (k'.pcbs j).pid ≡ (k.pcbs j).pid
  pub program : k'.page_directory 32 ≡ user_page (k.pcbs q).pid
  pub stacked : k'.esp0 ≡ kernel_stack (k.pcbs q).pid
  pub screen : k'.page_table_video 0 ≡ shown_entry k'
  pub saved : (k'.pcbs p).frame ≡ k.cpu
  pub frames : (j : ℕ) → j ≢ p → k'.pcbs j ≡ k.pcbs j
  pub frame : k'.cpu ≡ (k'.pcbs q).frame
  pub keyboard_line : k'.masks ≡ (
      if k'.console.curr_scheduler == k'.console.current_terminal
      then (enable_irq k.masks 1).0
      else (disable_irq k.masks 1).0)
  pub enabled : k'.interrupts ≡ true

module _ (k : Kernel) (p : ℕ) where
  next_terminal-masks : (next_terminal k p).masks ≡ (
      if (k.console.curr_scheduler + 1) % 3 == k.console.current_terminal
      then (enable_irq k.masks 1).0
      else (disable_irq k.masks 1).0)
  unfolding next_terminal
  next_terminal-masks =
      elim (Bool-cases ((k.console.curr_scheduler + 1) % 3 == k.console.current_terminal)) [
        | inl same ↦ rw same
        | inr other ↦ rw other
      ]

  next_terminal_lem :
      ((next_terminal k p).pcbs ≡ update k.pcbs p (record (k.pcbs p) { frame = k.cpu }))
      × ((next_terminal k p).console.curr_scheduler ≡ (k.console.curr_scheduler + 1) % 3)
      × ((next_terminal k p).console.current_terminal ≡ k.console.current_terminal)
      × ((next_terminal k p).console.terminal ≡ k.console.terminal)
  unfolding next_terminal
  next_terminal_lem = (refl, refl, refl, refl)

  -- Saving the frame keeps the pids.
  saved_pid :
      (q : ℕ) → (update k.pcbs p (record (k.pcbs p) { frame = k.cpu }) q).pid ≡ (k.pcbs q).pid
  saved_pid q = elim (Bool-cases (q == p)) [ inl same ↦ ground arith | inr other ↦ ground arith ]

  -- The state behind a tick from process `p` to process `q`.
  switched : ℕ → Kernel
  switched q = switch_to (next_terminal k p) q

  switched-Switched :
      (q : ℕ)
      → (k.console.terminal ((k.console.curr_scheduler + 1) % 3)).pcb ≡ some q
      → Switched k (switched q) p q
  unfolding switched switch_to next_terminal
  switched-Switched q run =
      let (slots, scheduled, visible, terminals) = next_terminal_lem in
      let pid = ap (λ (a : Arr Pcb). (a q).pid) slots ∙ saved_pid q in
      record {
        scheduled = scheduled;
        visible = visible;
        running = run;
        terminals = terminals;
        pids = λ j. ap (λ (a : Arr Pcb). (a j).pid) slots ∙ saved_pid j;
        program = ap user_page pid;
        stacked = ap kernel_stack pid;
        screen = refl;
        saved =
            ap (λ (a : Arr Pcb). (a p).frame) slots
            ∙ ap (λ (x : Pcb). x.frame) (update_self k.pcbs p _);
        frames = λ j ne. ap (λ (a : Arr Pcb). a j) slots ∙ update_ne k.pcbs p _ j ne;
        frame = refl;
        keyboard_line = next_terminal-masks;
        enabled = refl;
      }

  schedule-switched :
      (fuel q : ℕ) → current (next_terminal k p) ≡ some q → schedule fuel k p ≡ resumed (switched q)
  unfolding schedule switched
  schedule-switched fuel q run = rw (schedule, run) refl

-- If the terminal that is scheduled runs process `p` and the next one runs process `q`, a tick resumes
-- `q`: the next terminal is scheduled, the page of the user program, the kernel stack and the frame are
-- those of `q`, the screen's entry names video memory or the terminal's own page, the frame of `p` is
-- saved and no other slot changes, and the keyboard's line is enabled if the terminal is the visible
-- one and disabled if not.
pub scheduler-Switched :
    (fuel : ℕ) (k : Kernel) (p q : ℕ)
    → current k ≡ some p
    → (k.console.terminal ((k.console.curr_scheduler + 1) % 3)).pcb ≡ some q
    → (k' : Kernel) × (scheduler fuel k ≡ resumed k') × Switched k k' p q
unfolding scheduler next_terminal
scheduler-Switched fuel k p q run next =
    let start = record (emit k (send_eoi 0)) { interrupts = false } in
    let s = switched-Switched start p q next in
    (
      switched start p q,
      rw (scheduler, run) (schedule-switched start p fuel q next),
      record {
        scheduled = s.scheduled;
        visible = s.visible;
        running = s.running;
        terminals = s.terminals;
        pids = s.pids;
        program = s.program;
        stacked = s.stacked;
        screen = s.screen;
        saved = s.saved;
        frames = s.frames;
        frame = s.frame;
        keyboard_line = s.keyboard_line;
        enabled = s.enabled;
      },
    )
