-- ===== src/Scheduler/Turns.antt =====
-- What a tick of the timer leaves of the processes.
use system_engineering.Base.{
  ℕ, ◌+◌, ◌%◌, ◌≡◌, ◌⊎◌, refl, inl, inr, ◌==◌, ◌||◌, ltb, Bool-cases, Option-cases, some, none, ap,
  true, false, ◌∙◌,
}
use system_engineering.Console.{clear, clear_set}
use system_engineering.Console.Running.{clear-SameRunning, clear_set-SameRunning}
use system_engineering.Kernel.{Kernel, current, emit, on_console}
use system_engineering.Pic.{send_eoi}
use system_engineering.Process.{Outcome, returned, started, fault, execute, shell}
use system_engineering.System.Stacks.{SameLinks}
use system_engineering.System.Quiet.{
  frame-SameLinks, SameLinks-trans, Quiet, Quiet-trans, Quiet-current, console-Quiet,
}
use system_engineering.Scheduler.{
  Tick, resumed, launched, crashed, launch, switch_to, next_terminal, schedule, scheduler, vidmap,
  map_video_memory,
}

-- The scheduled terminal stays or is the next one, and the processes are the same.
pub record Turns (k k' : Kernel) : Type 0 where
  pub table : k'.pid ≡ k.pid
  pub counter : k'.process_counter ≡ k.process_counter
  pub turned :
      (k'.console.curr_scheduler ≡ k.console.curr_scheduler)
      ⊎ (k'.console.curr_scheduler ≡ (k.console.curr_scheduler + 1) % 3)
  pub running : (t : ℕ) → (k'.console.terminal t).pcb ≡ (k.console.terminal t).pcb
  pub slots : (j : ℕ) → SameLinks (k.pcbs j) (k'.pcbs j)

-- How a tick ends: with the processes turned, or with a shell of a terminal that had none.
pub data TickDoes (fuel : ℕ) (k : Kernel) : Tick → Type 0 where
  turns : (k' : Kernel) → Turns k k' → TickDoes fuel k (resumed k')
  launches :
      (k1 k' : Kernel) (entry : ℕ)
      → Turns k k1
      → current k1 ≡ none
      → execute fuel k1 (some shell) ≡ started k' entry
      → TickDoes fuel k (launched k' entry)
  crashes : TickDoes fuel k crashed

launch-Does :
    (fuel : ℕ) (k k1 : Kernel) → Turns k k1 → current k1 ≡ none → TickDoes fuel k (launch fuel k1)
unfolding launch
launch-Does fuel k k1 t idle = go (execute fuel k1 (some shell)) refl
  where
    go : (o : Outcome) → execute fuel k1 (some shell) ≡ o → TickDoes fuel k (launch fuel k1)
    go (returned k' code) e = rw (launch, e) crashes
    go (started k' entry) e = rw (launch, e) (launches k1 k' entry t idle e)
    go fault e = rw (launch, e) crashes

pub next_terminal-Turns : (k : Kernel) (p : ℕ) → Turns k (next_terminal k p)
unfolding next_terminal
next_terminal-Turns k p =
    elim (Bool-cases ((k.console.curr_scheduler + 1) % 3 == k.console.current_terminal)) [
      | inl shown ↦ rw shown (record {
        table = refl;
        counter = refl;
        turned = inr refl;
        running = λ t. refl;
        slots = frame-SameLinks k.pcbs p k.cpu;
      })
      | inr hidden ↦ rw hidden (record {
        table = refl;
        counter = refl;
        turned = inr refl;
        running = λ t. refl;
        slots = frame-SameLinks k.pcbs p k.cpu;
      })
    ]

switch_to-Turns : (k k1 : Kernel) (q : ℕ) → Turns k k1 → Turns k (switch_to k1 q)
unfolding switch_to
switch_to-Turns k k1 q t = record {
  table = t.table;
  counter = t.counter;
  turned = t.turned;
  running = t.running;
  slots = t.slots;
}

schedule-Does : (fuel : ℕ) (k : Kernel) (p : ℕ) → TickDoes fuel k (schedule fuel k p)
unfolding schedule
schedule-Does fuel k p =
    let next = next_terminal k p in
    let t = next_terminal-Turns k p in
    elim (Option-cases (current next)) [
      | inl idle ↦
          rw (schedule, idle)
            (launch-Does fuel k (record next { interrupts = true })
              (record {
                table = t.table;
                counter = t.counter;
                turned = t.turned;
                running = t.running;
                slots = t.slots;
              })
              idle)
      | inr (q, run) ↦ rw (schedule, run) (turns _ (switch_to-Turns k next q t))
    ]

pub later-Turns : {k k1 k2 : Kernel} → Quiet k k1 → Turns k1 k2 → Turns k k2
later-Turns q t = record {
  table = t.table ∙ q.table;
  counter = t.counter ∙ q.counter;
  turned = elim t.turned [
    | inl same ↦ inl (same ∙ q.scheduled)
    | inr next ↦ inr (next ∙ ap (λ n. (n + 1) % 3) q.scheduled)
  ];
  running = λ u. t.running u ∙ q.running u;
  slots = λ j. SameLinks-trans (q.slots j) (t.slots j);
}

pub Quiet-Turns : {k k' : Kernel} → Quiet k k' → Turns k k'
Quiet-Turns q = record {
  table = q.table;
  counter = q.counter;
  turned = inl q.scheduled;
  running = q.running;
  slots = q.slots;
}

-- The first tick clears the screen.
abbrev pub cleared : Kernel → Kernel
cleared k =
    on_console (record k { console = clear k.console; interrupts = true })
      (clear_set (clear k.console))

pub cleared-Quiet : (k : Kernel) → Quiet k (cleared k)
cleared-Quiet k =
    let first = clear-SameRunning k.console in
    let then_set = clear_set-SameRunning (clear k.console) in
    console-Quiet refl refl refl (record {
      scheduled = then_set.scheduled ∙ first.scheduled;
      running = λ t. then_set.running t ∙ first.running t;
    })

Does-later :
    (fuel : ℕ) {k k1 : Kernel} {o : Tick} → Quiet k k1 → TickDoes fuel k1 o → TickDoes fuel k o
Does-later fuel {k} {k1} q (turns k' t) = turns k' (later-Turns q t)
Does-later fuel {k} {k1} q (launches k2 k' entry t idle e) =
    launches k2 k' entry (later-Turns q t) idle e
Does-later fuel q crashes = crashes

pub scheduler-Does : (fuel : ℕ) (k : Kernel) → TickDoes fuel k (scheduler fuel k)
unfolding scheduler
scheduler-Does fuel k' =
    let k = record (emit k' (send_eoi 0)) { interrupts = false } in
    let q : Quiet k' k =
      console-Quiet refl refl refl (record { scheduled = refl; running = λ t. refl }) in
    elim (Option-cases (current k)) [
      | inr (p, run) ↦ rw (scheduler, run) (Does-later fuel q (schedule-Does fuel k p))
      | inl idle ↦ elim (Bool-cases (k.console.curr_scheduler == 0)) [
        | inr other ↦ rw (scheduler, idle, other) crashes
        | inl first ↦
            rw (scheduler, idle, first)
              (launch-Does fuel k' (cleared k) (Quiet-Turns (Quiet-trans q (cleared-Quiet k)))
                (Quiet-current (cleared-Quiet k) ∙ idle))
      ]
    ]

pub vidmap-Quiet :
    (table : ℕ) (k : Kernel) (screen_start : ℕ) → Quiet k (vidmap table k screen_start).0
unfolding vidmap map_video_memory
vidmap-Quiet table k screen_start =
    elim (Bool-cases
      (screen_start == 0 || (ltb screen_start 0x8000000 || ltb 0x8400000 screen_start))) [
        | inl refused ↦
            rw (vidmap, refused)
              (console-Quiet refl refl refl (record { scheduled = refl; running = λ t. refl }))
        | inr mapped ↦
            rw (vidmap, mapped)
              (console-Quiet refl refl refl (record { scheduled = refl; running = λ t. refl }))
      ]
