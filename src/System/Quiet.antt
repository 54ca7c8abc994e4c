-- ===== src/System/Quiet.antt =====
-- What leaves the stacks as they are.
use system_engineering.Base.{
  ℕ, ◌≡◌, refl, ◌∙◌, ap, Arr, update, List, ◌==◌, inl, inr, Bool-cases, ==_iff, arith,
}
use system_engineering.Base.Int.{ℤ}
use system_engineering.Console.Running.{SameRunning}
use system_engineering.Kernel.{Kernel, Pcb, FileDescriptor, set_descriptor, put_all, current}
use system_engineering.Print.Frame.{put_all-Printing}
use system_engineering.System.{Stacks, IsStacked}
use system_engineering.System.Stacks.{SameLinks, Linked-keep}

pub record Quiet (k k' : Kernel) : Type 0 where
  pub table : k'.pid ≡ k.pid
  pub counter : k'.process_counter ≡ k.process_counter
  pub scheduled : k'.console.curr_scheduler ≡ k.console.curr_scheduler
  pub running : (t : ℕ) → (k'.console.terminal t).pcb ≡ (k.console.terminal t).pcb
  pub slots : (j : ℕ) → SameLinks (k.pcbs j) (k'.pcbs j)

abbrev pub same_links : (x : Pcb) → SameLinks x x
same_links x = record { pid = refl; parent_pid = refl; parent_pcb = refl }

pub SameLinks-trans : {x y z : Pcb} → SameLinks x y → SameLinks y z → SameLinks x z
SameLinks-trans a b = record {
  pid = b.pid ∙ a.pid;
  parent_pid = b.parent_pid ∙ a.parent_pid;
  parent_pcb = b.parent_pcb ∙ a.parent_pcb;
}

pub SameLinks-of_eq : {x y : Pcb} → y ≡ x → SameLinks x y
SameLinks-of_eq e = record {
  pid = ap (λ (z : Pcb). z.pid) e;
  parent_pid = ap (λ (z : Pcb). z.parent_pid) e;
  parent_pcb = ap (λ (z : Pcb). z.parent_pcb) e;
}

pub Quiet-refl : (k : Kernel) → Quiet k k
Quiet-refl k = record {
  table = refl;
  counter = refl;
  scheduled = refl;
  running = λ t. refl;
  slots = λ j. same_links (k.pcbs j);
}

pub Quiet-trans : {a b c : Kernel} → Quiet a b → Quiet b c → Quiet a c
Quiet-trans x y = record {
  table = y.table ∙ x.table;
  counter = y.counter ∙ x.counter;
  scheduled = y.scheduled ∙ x.scheduled;
  running = λ t. y.running t ∙ x.running t;
  slots = λ j. SameLinks-trans (x.slots j) (y.slots j);
}

pub Quiet-IsStacked : {k k' : Kernel} {s : Stacks} → Quiet k k' → IsStacked k s → IsStacked k' s
Quiet-IsStacked {k} {k'} {s} q h = record {
  terminal = omega (arith, q.scheduled, h.terminal);
  linked = λ t lt.
      Linked-keep k.pcbs k'.pcbs (k.console.terminal t).pcb (k'.console.terminal t).pcb (s t)
        (q.running t) (λ j some_held. q.slots j) (h.linked t lt);
  small = h.small;
  once = h.once;
  table = λ i lt. ap (λ (x : Arr ℤ). x i) q.table ∙ h.table i lt;
  counter = q.counter ∙ h.counter;
}

pub Quiet-current : {k k' : Kernel} → Quiet k k' → current k' ≡ current k
Quiet-current {k} {k'} q =
    ap (λ t. (k'.console.terminal t).pcb) q.scheduled ∙ q.running k.console.curr_scheduler

pub put_all-Quiet : (k : Kernel) (cs : List ℕ) → Quiet k (put_all k cs)
put_all-Quiet k cs =
    let p = put_all-Printing cs k in
    record {
      table = p.table;
      counter = p.counter;
      scheduled = p.scheduled;
      running = p.running;
      slots = λ j. SameLinks-of_eq (ap (λ (x : Arr Pcb). x j) p.slots);
    }

-- A slot that gets another descriptor, and nothing else.
update-SameLinks :
    (pcbs : Arr Pcb) (p : ℕ) (x : Pcb)
    → SameLinks (pcbs p) x
    → (j : ℕ) → SameLinks (pcbs j) (update pcbs p x j)
update-SameLinks pcbs p x same j = elim (Bool-cases (j == p)) [
  | inl here ↦ let e : j ≡ p = (==_iff j p).0 here in rw (here) (rw e same)
  | inr there ↦ rw there (same_links (pcbs j))
]

pub set_descriptor-Quiet :
    (k : Kernel) (p fd : ℕ) (d : FileDescriptor) → Quiet k (set_descriptor k p fd d)
set_descriptor-Quiet k p fd d = record {
  table = refl;
  counter = refl;
  scheduled = refl;
  running = λ t. refl;
  slots =
      update-SameLinks k.pcbs p
        (record (k.pcbs p) { file_descriptor = update (k.pcbs p).file_descriptor fd d })
        (record { pid = refl; parent_pid = refl; parent_pcb = refl });
}

-- A frame that is saved in a slot.
pub frame-SameLinks :
    (pcbs : Arr Pcb) (p : ℕ) (f : ℕ × ℕ) (j : ℕ)
    → SameLinks (pcbs j) (update pcbs p (record (pcbs p) { frame = f }) j)
frame-SameLinks pcbs p f =
    update-SameLinks pcbs p (record (pcbs p) { frame = f })
      (record { pid = refl; parent_pid = refl; parent_pcb = refl })

-- A new console that runs the same, with nothing else of the processes changed.
pub console-Quiet :
    {k k' : Kernel}
    → k'.pid ≡ k.pid
    → k'.process_counter ≡ k.process_counter
    → k'.pcbs ≡ k.pcbs
    → SameRunning k.console k'.console
    → Quiet k k'
console-Quiet table counter slots c = record {
  table = table;
  counter = counter;
  scheduled = c.scheduled;
  running = c.running;
  slots = λ j. SameLinks-of_eq (ap (λ (x : Arr Pcb). x j) slots);
}
