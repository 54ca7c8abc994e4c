-- ===== src/Process/Halt.antt =====
-- What `halt` of a process with a parent gives back.
use system_engineering.Base.{
  ℕ, zero, suc, ◌+◌, ◌≢◌, ◌==◌, ◌||◌, true, false, ltb, if◌then◌else◌, Arr, update, update_self,
  update_ne, ==_of_ne, ◌≡◌, ◌⊎◌, inl, inr, refl, sym, subst, ◌∙◌, ap, arith, Bool-cases, Option,
  some,
}
use system_engineering.Base.Int.{pos, decr}
use system_engineering.Console.{Console, Terminal}
use system_engineering.Kernel.{
  Kernel, FileDescriptor, vacant, user_page, kernel_stack, current, set_current, set_descriptor,
}
use system_engineering.Process.{
  returned, close, closed, close_all, restored, finished, halt, resume,
}

-- Only the descriptors of slot `p` differ.
pub record SameBut (p : ℕ) (k k' : Kernel) : Type 0 where
  pub table : k'.pid ≡ k.pid
  pub counter : k'.process_counter ≡ k.process_counter
  pub console : k'.console ≡ k.console
  pub directory : k'.page_directory ≡ k.page_directory
  pub stacked : k'.esp0 ≡ k.esp0
  pub running : k'.cpu ≡ k.cpu
  pub halting : k'.global_halt ≡ k.global_halt
  pub slots : (j : ℕ) → j ≢ p → k'.pcbs j ≡ k.pcbs j

SameBut-refl : (p : ℕ) (k : Kernel) → SameBut p k k
SameBut-refl p k = record {
  table = refl;
  counter = refl;
  console = refl;
  directory = refl;
  stacked = refl;
  running = refl;
  halting = refl;
  slots = λ j ne. refl;
}

SameBut-trans : {p : ℕ} {a b c : Kernel} → SameBut p a b → SameBut p b c → SameBut p a c
SameBut-trans x y = record {
  table = y.table ∙ x.table;
  counter = y.counter ∙ x.counter;
  console = y.console ∙ x.console;
  directory = y.directory ∙ x.directory;
  stacked = y.stacked ∙ x.stacked;
  running = y.running ∙ x.running;
  halting = y.halting ∙ x.halting;
  slots = λ j ne. y.slots j ne ∙ x.slots j ne;
}

-- `close` of a current process that is `p`: it does nothing, or clears a descriptor of `p`.
closed-cases :
    (p : ℕ) (k : Kernel) (i : ℕ)
    → current k ≡ some p
    → (closed k i ≡ k) ⊎ ((d : FileDescriptor) × (closed k i ≡ set_descriptor k p i d))
unfolding close
closed-cases p k i e = elim (Bool-cases (ltb i 2 || ltb 7 i)) [
  | inl out ↦ inl (ground arith)
  | inr inside ↦ elim (Bool-cases (((k.pcbs p).file_descriptor i).flags == 0)) [
    | inl shut ↦ inl (ground arith)
    | inr opened ↦ inr (
      record ((k.pcbs p).file_descriptor i) { inode = 0; file_position = 0; flags = 0 },
      ground arith,
    )
  ]
]

set_descriptor-SameBut :
    (p : ℕ) (k : Kernel) (i : ℕ) (d : FileDescriptor) → SameBut p k (set_descriptor k p i d)
set_descriptor-SameBut p k i d = record {
  table = refl;
  counter = refl;
  console = refl;
  directory = refl;
  stacked = refl;
  running = refl;
  halting = refl;
  slots = λ j ne. update_ne k.pcbs p _ j ne;
}

closed-SameBut : (p : ℕ) (k : Kernel) (i : ℕ) → current k ≡ some p → SameBut p k (closed k i)
closed-SameBut p k i e = elim (closed-cases p k i e) [
  | inl same ↦ subst (SameBut p k) (sym same) (SameBut-refl p k)
  | inr (d, set) ↦ subst (SameBut p k) (sym set) (set_descriptor-SameBut p k i d)
]

close_all-SameBut :
    (r : ℕ) (p : ℕ) (k : Kernel) (i : ℕ) → current k ≡ some p → SameBut p k (close_all r k p i)
unfolding close_all
close_all-SameBut zero p k i e = SameBut-refl p k
close_all-SameBut (suc r) p k i e = elim (Bool-cases (((k.pcbs p).file_descriptor i).flags == 1)) [
  | inl opened ↦
      let first = closed-SameBut p k i e in
      rw opened (
        SameBut-trans first (
          close_all-SameBut r p (closed k i) (i + 1)
            (ap (λ (c : Console). (c.terminal c.curr_scheduler).pcb) first.console ∙ e)))
  | inr shut ↦ rw shut (close_all-SameBut r p k (i + 1) e)
]

-- What the parent `q` of the halting process `p` finds, with `k` the kernel before.
pub record Back (k k' : Kernel) (p q : ℕ) : Type 0 where
  pub table : k'.pid ≡ update k.pid (k.pcbs p).pid vacant
  pub counter : k'.process_counter ≡ decr k.process_counter
  pub running : current k' ≡ some q
  pub directory : k'.page_directory 32 ≡ user_page (k.pcbs q).pid
  pub stacked : k'.esp0 ≡ kernel_stack (k.pcbs q).pid
  pub frame : k'.cpu ≡ (k.pcbs q).halt_frame
  pub slots : (j : ℕ) → j ≢ p → k'.pcbs j ≡ k.pcbs j
  pub scheduled : k'.console.curr_scheduler ≡ k.console.curr_scheduler
  pub others :
      (t : ℕ)
      → t ≢ k.console.curr_scheduler
      → (k'.console.terminal t).pcb ≡ (k.console.terminal t).pcb
  pub screens : k'.console.memory ≡ k.console.memory
  pub cursors :
      (t : ℕ)
      → ((k'.console.terminal t).screen_x ≡ (k.console.terminal t).screen_x)
        × ((k'.console.terminal t).screen_y ≡ (k.console.terminal t).screen_y)

resume-thrown :
    (k : Kernel)
    → (k.global_halt == 1) ≡ true
    → resume k ≡ returned (record k { global_halt = 0 }) (pos 256)
unfolding resume
resume-thrown k e = rw e

resume-quiet : (k : Kernel) → (k.global_halt == 1) ≡ false → resume k ≡ returned k (pos 0)
unfolding resume
resume-quiet k e = rw e

-- `set_current` changes the current process and the console only.
set_current-running : (k : Kernel) (o : Option ℕ) → current (set_current k o) ≡ o
set_current-running k o =
    ap (λ (t : Terminal). t.pcb)
      (update_self k.console.terminal k.console.curr_scheduler
        (record (k.console.terminal k.console.curr_scheduler) { pcb = o }))

-- The console behind `set_current`, when it was that of `k` before.
set_current-others :
    (k k' : Kernel) (o : Option ℕ)
    → k'.console ≡ k.console
    → (t : ℕ) → t ≢ k.console.curr_scheduler
    → ((set_current k' o).console.terminal t).pcb ≡ (k.console.terminal t).pcb
set_current-others k k' o same t ne =
    ap
      (λ (c : Console).
        ((update c.terminal c.curr_scheduler (record (c.terminal c.curr_scheduler) { pcb = o }))
          t).pcb)
      same
    ∙ rw (==_of_ne t k.console.curr_scheduler ne) refl

-- `set_current` moves no cursor.
set_current-cursor :
    (k : Kernel) (o : Option ℕ) (t : ℕ)
    → (((set_current k o).console.terminal t).screen_x ≡ (k.console.terminal t).screen_x)
      × (((set_current k o).console.terminal t).screen_y ≡ (k.console.terminal t).screen_y)
set_current-cursor k o t = elim (Bool-cases (t == k.console.curr_scheduler)) [
  | inl here ↦ (ground arith, ground arith)
  | inr other ↦ (rw other refl, rw other refl)
]

module _ (k : Kernel) (p q status : ℕ) (run : current k ≡ some p) where
  freed : Kernel
  freed = record k { pid = update k.pid (k.pcbs p).pid vacant }

  finished-Back :
      (h : ℕ) → Back k (record (finished freed p (k.pcbs q).pid q status) { global_halt = h }) p q
  unfolding finished restored freed
  finished-Back h =
      let start = restored freed (k.pcbs q).pid q in
      let same = close_all-SameBut 8 p start 0 run in
      record {
        table = same.table;
        counter = ap decr same.counter;
        running = set_current-running (close_all 8 start p 0) (some q);
        directory = ap (λ (d : Arr ℕ). d 32) same.directory ∙ refl;
        stacked = same.stacked;
        frame = same.running;
        slots = same.slots;
        scheduled = ap (λ (c : Console). c.curr_scheduler) same.console;
        others = set_current-others k (close_all 8 start p 0) (some q) same.console;
        screens = ap (λ (c : Console). c.memory) same.console;
        cursors = λ t.
            let (x, y) = set_current-cursor (close_all 8 start p 0) (some q) t in
            (
              x ∙ ap (λ (c : Console). (c.terminal t).screen_x) same.console,
              y ∙ ap (λ (c : Console). (c.terminal t).screen_y) same.console,
            );
      }

  finished-halting : (finished freed p (k.pcbs q).pid q status).global_halt ≡ k.global_halt
  unfolding finished restored freed
  finished-halting = (close_all-SameBut 8 p (restored freed (k.pcbs q).pid q) 0 run).halting

  halt-resume :
      (fuel : ℕ)
      → (k.pcbs p).parent_pid ≡ pos (k.pcbs q).pid
      → (k.pcbs p).parent_pcb ≡ some q
      → halt fuel k status ≡ resume (finished freed p (k.pcbs q).pid q status)
  unfolding halt freed
  halt-resume fuel pp pq = ground arith

  -- `halt` of a process `p` whose parent is the process in slot `q` frees the pid of `p` alone, takes one
  -- off the process counter, and goes back to where the parent called `execute`: on the parent's page,
  -- kernel stack and frame, with 256 as the result after an exception, and 0 otherwise. No slot but that
  -- of `p` changes.
  pub halt-Back :
      (fuel : ℕ)
      → (k.pcbs p).parent_pid ≡ pos (k.pcbs q).pid
      → (k.pcbs p).parent_pcb ≡ some q
      → (k' : Kernel) × (halt fuel k status
          ≡ returned k' (if k.global_halt == 1 then pos 256 else pos 0))
        × Back k k' p q
  halt-Back fuel pp pq =
      let back = finished freed p (k.pcbs q).pid q status in
      let e = halt-resume fuel pp pq in
      elim (Bool-cases (k.global_halt == 1)) [
        | inl thrown ↦ (
          record back { global_halt = 0 },
          e ∙ rw thrown (resume-thrown back (rw finished-halting thrown)),
          finished-Back 0,
        )
        | inr quiet ↦ (
          back,
          e ∙ rw quiet (resume-quiet back (rw finished-halting quiet)),
          finished-Back back.global_halt,
        )
      ]
