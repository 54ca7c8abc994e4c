-- ===== src/System/Calls.antt =====
-- `execute` pushes a process on the stack of the terminal that calls it, and `halt` pops one.
use system_engineering.Base.{
  ℕ, ◌<◌, ◌==◌, if◌then◌else◌, List, ◌∷◌, Option, some, none, Mem, update, ◌≡◌, inl, inr, refl, sym,
  ap, ◌∙◌, subst, false, Bool-cases,
}
use system_engineering.Base.Int.{ℤ, pos}
use system_engineering.Kernel.{Kernel, Pcb, vacant, current}
use system_engineering.Process.{returned, started, execute, halt, too_many}
use system_engineering.Process.Table.{find_pid-vacant}
use system_engineering.Process.Lifecycle.{
  Started, StartedBy, counted, is_slot, prepare-Started, prepare-slot, execute-StartedBy,
}
use system_engineering.Process.Failed.{execute-Refused}
use system_engineering.Process.Halt.{Back, halt-Back}
use system_engineering.System.{Stacks, held, Linked, IsStacked}
use system_engineering.System.Stacks.{SameLinks}
use system_engineering.System.Quiet.{
  Quiet, Quiet-trans, console-Quiet, put_all-Quiet, same_links, SameLinks-of_eq, SameLinks-trans,
}
use system_engineering.System.Push.{push, Adds, Adds-unheld, push-IsStacked}
use system_engineering.System.Pop.{Removes, pop-IsStacked}

frame_links :
    (o : Option ℕ) (x : Pcb) (f : ℕ × ℕ) (j : ℕ)
    → SameLinks x (if is_slot o j then record x { halt_frame = f } else x)
frame_links none x f j = same_links x
frame_links (some q) x f j = elim (Bool-cases (j == q)) [
  | inl here ↦ rw here (record { pid = refl; parent_pid = refl; parent_pcb = refl })
  | inr there ↦ rw there (same_links x)
]

StartedBy-Adds : (k k' : Kernel) (b : StartedBy (counted k) k') → Adds k k' b.slot
StartedBy-Adds k k' b =
    let (lt, free) = find_pid-vacant k.pid b.slot b.found in
    let s : Started (counted k) b.slot k' =
      subst (Started (counted k) b.slot) (sym b.state)
        (prepare-Started (counted k) b.arg b.dentry b.slot) in
    record {
      slot = lt;
      free = free;
      table = s.table;
      counter = s.counter;
      scheduled = s.scheduled;
      running = ap (λ t. (k'.console.terminal t).pcb) (sym s.scheduled) ∙ s.running;
      others = s.others;
      own_pid = s.child_pid;
      parent = s.child_parent;
      parent_pid = s.child_parent_pid;
      root = s.child_root;
      slots = λ j ne. SameLinks-trans (frame_links (current k) (k.pcbs j) k.cpu j) (
          SameLinks-of_eq (
            ap (λ (x : Kernel). x.pcbs j) b.state
            ∙ prepare-slot (counted k) b.arg b.dentry b.slot j ne));
    }

pub execute-Adds :
    (fuel : ℕ) (k : Kernel) (command : Option Mem) {k' : Kernel} {entry : ℕ}
    → execute fuel k command ≡ started k' entry
    → (i : ℕ) × Adds k k' i
execute-Adds fuel k command {k'} e =
    let b = execute-StartedBy fuel k command e in (b.slot, StartedBy-Adds k k' b)

pub execute-Quiet :
    (fuel : ℕ) (k : Kernel) (command : Option Mem) {k' : Kernel} {code : ℤ}
    → execute fuel k command ≡ returned k' code
    → Quiet k k'
execute-Quiet fuel k command e =
    let off = record k { interrupts = false } in
    let q : Quiet k off =
      console-Quiet refl refl refl (record { scheduled = refl; running = λ t. refl }) in
    elim (execute-Refused fuel k command e) [
      | inl same ↦ subst (Quiet k) (sym same) q
      | inr printed ↦ subst (Quiet k) (sym printed) (Quiet-trans q (put_all-Quiet off too_many))
    ]

-- With a command line that starts a program, `execute` takes a slot that no process holds and pushes it
-- on the stack of the terminal that is scheduled.
pub execute-pushes :
    (fuel : ℕ) (k : Kernel) (s : Stacks) (command : Option Mem) (k' : Kernel) (entry : ℕ)
    → IsStacked k s
    → execute fuel k command ≡ started k' entry
    → (i : ℕ) × (i < 6) × (held s i ≡ 0) × IsStacked k' (push s k.console.curr_scheduler i)
execute-pushes fuel k s command k' entry h e =
    let (i, a) = execute-Adds fuel k command e in (i, a.slot, Adds-unheld h a, push-IsStacked h a)

Back-Removes :
    (k k' : Kernel) (p q : ℕ)
    → (k.pcbs p).pid ≡ p
    → (k.pcbs p).parent_pcb ≡ some q
    → Back k k' p q
    → Removes k k' p
Back-Removes k k' p q own parent b = record {
  table = b.table ∙ ap (λ n. update k.pid n vacant) own;
  counter = b.counter;
  scheduled = b.scheduled;
  running = ap (λ t. (k'.console.terminal t).pcb) (sym b.scheduled) ∙ b.running ∙ sym parent;
  others = b.others;
  slots = λ j ne. SameLinks-of_eq (b.slots j ne);
}

-- `halt` of a process that another one has started pops it, and returns to that one.
pub halt-pops :
    (fuel : ℕ) (k : Kernel) (s : Stacks) (status p q : ℕ) (rest : List ℕ)
    → IsStacked k s
    → s k.console.curr_scheduler ≡ p ∷ q ∷ rest
    → (k' : Kernel) × (code : ℤ) × (halt fuel k status ≡ returned k' code)
      × (current k' ≡ some q)
      × IsStacked k' (update s k.console.curr_scheduler (q ∷ rest))
halt-pops fuel k s status p q rest h e =
    let (run, own, parent, (caller, own', _, _)) =
      subst (Linked k.pcbs (current k)) e (h.linked k.console.curr_scheduler h.terminal) in
    let (k', done, b) = halt-Back k p q status run fuel (parent ∙ ap pos (sym own')) caller in
    (k', _, done, b.running, pop-IsStacked h e (Back-Removes k k' p q own caller b))
