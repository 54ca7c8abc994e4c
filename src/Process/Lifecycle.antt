-- ===== src/Process/Lifecycle.antt =====
-- A program's life: what `execute` sets up, and what `halt` of the new process gives back.
use system_engineering.Base.{
  ℕ, ◌≢◌, ◌==◌, false, if◌then◌else◌, Mem, update, update_self, ◌≡◌, inl, inr, refl, ◌∙◌, ap, arith,
  Bool, ==_refl, ==_of_ne, Option, some, none, Option-cases,
}
use system_engineering.Base.Int.{pos, negsuc, incr}
use system_engineering.FileSys.{Dentry, read_dentry_by_name}
use system_engineering.Console.{Console, Terminal}
use system_engineering.Kernel.{
  Kernel, Pcb, occupied, user_page, kernel_stack, current, virtual_memory_start,
}
use system_engineering.Process.{
  started, Parsed, parse, no_fuel, bad, parsed, execute, execute_parsed, execute_named, new_process,
  start, set_up, prepare, save_parent, find_pid, init_pcb,
}

-- What `start` leaves of `k`, with the new process in slot `i`.
pub record Started (k : Kernel) (i : ℕ) (k' : Kernel) : Type 0 where
  pub table : k'.pid ≡ update k.pid i occupied
  pub counter : k'.process_counter ≡ k.process_counter
  pub scheduled : k'.console.curr_scheduler ≡ k.console.curr_scheduler
  pub running : current k' ≡ some i
  pub mapped : k'.page_directory ≡ update k.page_directory virtual_memory_start (user_page i)
  pub stacked : k'.esp0 ≡ kernel_stack i
  pub child_pid : (k'.pcbs i).pid ≡ i
  pub child_parent : (k'.pcbs i).parent_pcb ≡ current k
  pub child_parent_pid : (q : ℕ) → current k ≡ some q → (k'.pcbs i).parent_pid ≡ pos (k.pcbs q).pid
  pub child_root : current k ≡ none → (k'.pcbs i).parent_pid ≡ negsuc 0
  pub halting : k'.global_halt ≡ k.global_halt
  pub others :
      (t : ℕ)
      → t ≢ k.console.curr_scheduler
      → (k'.console.terminal t).pcb ≡ (k.console.terminal t).pcb

-- Whether a pointer names slot `j`.
abbrev pub is_slot : Option ℕ → ℕ → Bool
is_slot none j = false
is_slot (some q) j = j == q

save_parent_lem :
    (k : Kernel) (o : Option ℕ)
    → ((save_parent k o).pid ≡ k.pid)
      × ((save_parent k o).process_counter ≡ k.process_counter)
      × ((save_parent k o).console ≡ k.console)
      × ((save_parent k o).page_directory ≡ k.page_directory)
      × ((save_parent k o).esp0 ≡ k.esp0)
      × ((save_parent k o).global_halt ≡ k.global_halt)
save_parent_lem k none = (refl, refl, refl, refl, refl, refl)
save_parent_lem k (some q) = (refl, refl, refl, refl, refl, refl)

-- The slots after `save_parent`: only the parent's changes, by the frame.
save_parent-pcbs :
    (k : Kernel) (o : Option ℕ) (j : ℕ)
    → (save_parent k o).pcbs j
      ≡ (if is_slot o j then record (k.pcbs j) { halt_frame = k.cpu } else k.pcbs j)
save_parent-pcbs k none j = refl
save_parent-pcbs k (some q) j = ground arith

module _ (k : Kernel) (arg : Mem) (d : Dentry) (i : ℕ) where
  set_up-parent : ((set_up k arg d i).pcbs i).parent_pcb ≡ current k
  unfolding set_up init_pcb
  set_up-parent = rw (==_refl i)

  set_up-parent_pid :
      (q : ℕ) → current k ≡ some q → ((set_up k arg d i).pcbs i).parent_pid ≡ pos (k.pcbs q).pid
  unfolding set_up init_pcb
  set_up-parent_pid q e = rw (==_refl i, e)

  set_up-root : current k ≡ none → ((set_up k arg d i).pcbs i).parent_pid ≡ negsuc 0
  unfolding set_up init_pcb
  set_up-root e = rw (==_refl i, e)

  set_up-others :
      (t : ℕ)
      → t ≢ k.console.curr_scheduler
      → ((set_up k arg d i).console.terminal t).pcb ≡ (k.console.terminal t).pcb
  unfolding set_up init_pcb
  set_up-others t ne = rw (==_of_ne t k.console.curr_scheduler ne)

  set_up-pid : ((set_up k arg d i).pcbs i).pid ≡ i
  unfolding set_up init_pcb
  set_up-pid = rw (==_refl i)

  set_up-slot : (j : ℕ) → j ≢ i → (set_up k arg d i).pcbs j ≡ k.pcbs j
  unfolding set_up init_pcb
  set_up-slot j ne = rw (==_of_ne j i ne)

  scheduled_slot : current (set_up k arg d i) ≡ some i
  unfolding set_up init_pcb
  scheduled_slot =
      ap (λ (t : Terminal). t.pcb)
        (update_self k.console.terminal k.console.curr_scheduler
          (record (k.console.terminal k.console.curr_scheduler) { pcb = some i }))

  set_up-Started :
      ((set_up k arg d i).pid ≡ update k.pid i occupied)
      × ((set_up k arg d i).process_counter ≡ k.process_counter)
      × ((set_up k arg d i).console.curr_scheduler ≡ k.console.curr_scheduler)
      × (current (set_up k arg d i) ≡ some i)
      × ((set_up k arg d i).page_directory
          ≡ update k.page_directory virtual_memory_start (user_page i))
      × ((set_up k arg d i).esp0 ≡ kernel_stack i)
      × ((set_up k arg d i).global_halt ≡ k.global_halt)
      × ((set_up k arg d i).cpu ≡ k.cpu)
  unfolding set_up init_pcb
  set_up-Started = (refl, refl, refl, scheduled_slot, refl, refl, refl, refl)

  prepare-save_parent : prepare k arg d i ≡ save_parent (set_up k arg d i) (current k)
  unfolding prepare
  prepare-save_parent = ap (save_parent (set_up k arg d i)) set_up-parent

  -- Starting a program in slot `i` makes it the current process: its pid is `i` and marked as occupied,
  -- its parent is the process that was current, the entry for user programs maps its page, the kernel
  -- stack is its own, and no other pid or entry of the page directory changes.
  pub prepare-Started : Started k i (prepare k arg d i)
  prepare-Started =
      let (table, counter, sch, run, mapped, stack, halting, cpu) = set_up-Started in
      let ready = set_up k arg d i in
      let (a, b, c, e, f, g) = save_parent_lem ready (current k) in
      rw prepare-save_parent (record {
        table = a ∙ table;
        counter = b ∙ counter;
        scheduled = ap (λ (x : Console). x.curr_scheduler) c ∙ sch;
        running = ap (λ (x : Console). (x.terminal x.curr_scheduler).pcb) c ∙ run;
        mapped = e ∙ mapped;
        stacked = f ∙ stack;
        halting = g ∙ halting;
        child_pid =
            ap (λ (x : Pcb). x.pid) (save_parent-pcbs ready (current k) i)
            ∙ ground (arith, set_up-pid);
        child_parent_pid = λ q e.
            ap (λ (x : Pcb). x.parent_pid) (save_parent-pcbs ready (current k) i)
            ∙ ground (arith, set_up-parent_pid q e);
        child_root = λ e.
            ap (λ (x : Pcb). x.parent_pid) (save_parent-pcbs ready (current k) i)
            ∙ ground (arith, set_up-root e);
        others = λ t ne. ap (λ (x : Console). (x.terminal t).pcb) c ∙ set_up-others t ne;
        child_parent =
            ap (λ (x : Pcb). x.parent_pcb) (save_parent-pcbs ready (current k) i)
            ∙ ground (arith, set_up-parent);
      })

  -- Every other slot stays, but that the parent remembers its frame.
  pub prepare-slot :
      (j : ℕ)
      → j ≢ i
      → (prepare k arg d i).pcbs j
        ≡ (if is_slot (current k) j then record (k.pcbs j) { halt_frame = k.cpu } else k.pcbs j)
  prepare-slot j ne =
      let ready = set_up k arg d i in
      let cpu = set_up-Started.7 in
      ap (λ (x : Kernel). x.pcbs j) prepare-save_parent
      ∙ save_parent-pcbs ready (current k) j
      ∙ rw (set_up-slot j ne, cpu)

-- What it takes to start a program: a slot that `find_pid` finds, in `k` with the process counted.
abbrev pub counted : Kernel → Kernel
counted k = record k { process_counter = incr k.process_counter; interrupts = false }

pub record StartedBy (k k' : Kernel) : Type 0 where
  pub arg : Mem
  pub dentry : Dentry
  pub slot : ℕ
  pub found : find_pid k.pid ≡ some slot
  pub state : k' ≡ prepare k arg dentry slot

new_process-StartedBy :
    (k : Kernel) (arg : Mem) (d : Dentry) {k' : Kernel} {entry : ℕ}
    → new_process k arg d ≡ started k' entry
    → StartedBy k k'
unfolding new_process start
new_process-StartedBy k arg d e = elim (Option-cases (find_pid k.pid)) [
  | inl none_left ↦ ground arith
  | inr (i, found) ↦ record { arg = arg; dentry = d; slot = i; found = found; state = ground arith }
]

execute_named-StartedBy :
    (k : Kernel) (filename arg : Mem) {k' : Kernel} {entry : ℕ}
    → execute_named k filename arg ≡ started k' entry
    → StartedBy (record k { process_counter = incr k.process_counter }) k'
unfolding execute_named
execute_named-StartedBy k filename arg {k'} {entry} e =
    elim (Option-cases (read_dentry_by_name k.fs filename)) [
      | inl missing ↦ ground arith
      | inr (d, found) ↦
          new_process-StartedBy (record k { process_counter = incr k.process_counter }) arg d
            {k' = k'} {entry = entry} (ground arith)
    ]

parsed-StartedBy :
    (k : Kernel) (p : Parsed) {k' : Kernel} {entry : ℕ}
    → execute_parsed k p ≡ started k' entry
    → StartedBy (record k { process_counter = incr k.process_counter }) k'
unfolding execute_parsed
parsed-StartedBy k no_fuel e = absurd (cc)
parsed-StartedBy k bad e = absurd (cc)
parsed-StartedBy k (parsed filename arg) e = execute_named-StartedBy k filename arg e

-- `execute` starts a program only in the slot that `find_pid` finds.
pub execute-StartedBy :
    (fuel : ℕ) (k : Kernel) (command : Option Mem) {k' : Kernel} {entry : ℕ}
    → execute fuel k command ≡ started k' entry
    → StartedBy (counted k) k'
unfolding execute
execute-StartedBy fuel k command e =
    parsed-StartedBy (record k { interrupts = false }) (parse fuel command k.stack k.stack) e
