-- ===== src/System.antt =====
-- The kernel as a whole, of student-distrib/system_call.c, pit.c and keyboard.c: what its processes look
-- like from above, three stacks of callers, one for each terminal.
use system_engineering.Base.{
  ℕ, zero, suc, ◌+◌, ◌≤◌, ◌<◌, ◌==◌, if◌then◌else◌, List, [], ◌∷◌, length, Option, none, some, Arr,
  ◌≡◌,
}
use system_engineering.Base.Int.{ℤ, pos, negsuc, sub_ℕ}
use system_engineering.Kernel.{Kernel, Pcb, vacant, occupied}
pub mod Stacks
pub mod Quiet
pub mod Calls
pub mod Halts
pub mod Push
pub mod Pop
pub mod Runs
pub mod Invariant
pub mod Room
pub mod Ticks
mod Tests

-- For each terminal the slots of its processes, from the one that runs down to its root shell.
abbrev pub Stacks : Type 0
Stacks = Arr (List ℕ)

-- How often a slot stands in a stack, and in the three stacks.
abbrev pub count : ℕ → List ℕ → ℕ
count i [] = 0
count i (x ∷ xs) = (if x == i then 1 else 0) + count i xs

abbrev pub held : Stacks → ℕ → ℕ
held s i = count i (s 0) + count i (s 1) + count i (s 2)

abbrev pub total : Stacks → ℕ
total s = length (s 0) + length (s 1) + length (s 2)

-- The pid of the process that called, as `parent_pid` holds it.
abbrev pub caller_pid : List ℕ → ℤ
caller_pid [] = negsuc 0
caller_pid (q ∷ rest) = pos q

-- A pointer leads to the top of a stack, and from each process to its caller.
abbrev pub Linked : Arr Pcb → Option ℕ → List ℕ → Type 0
Linked pcbs o [] = o ≡ none
Linked pcbs o (p ∷ rest) =
    (o ≡ some p)
    × ((pcbs p).pid ≡ p)
    × ((pcbs p).parent_pid ≡ caller_pid rest)
    × Linked pcbs (pcbs p).parent_pcb rest

-- The kernel's processes are those of the stacks: each terminal runs the top of its stack, a slot
-- stands in one stack at most, the pid table marks the slots that stand in one, and the process counter
-- is one less than their number.
pub record IsStacked (k : Kernel) (s : Stacks) : Type 0 where
  pub terminal : k.console.curr_scheduler < 3
  pub linked : (t : ℕ) → t < 3 → Linked k.pcbs (k.console.terminal t).pcb (s t)
  pub small : (i : ℕ) → 6 ≤ i → held s i ≡ 0
  pub once : (i : ℕ) → held s i ≤ 1
  pub table : (i : ℕ) → i < 6 → k.pid i ≡ (if held s i == 0 then vacant else occupied)
  pub counter : k.process_counter ≡ sub_ℕ (total s) 1
