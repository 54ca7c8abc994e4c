-- ===== src/System/Room.antt =====
-- The pid table has room whenever `execute` of a running process asks for it.
use system_engineering.Base.{
  ℕ, zero, suc, ◌+◌, ◌≤◌, ◌<◌, ◌==◌, if◌then◌else◌, List, [], ◌∷◌, length, ltb, Option, some, none,
  ◌≡◌, ◌⊎◌, inl, inr, refl, sym, ap, ◌∙◌, arith, Mem, false, Bool-cases, Option-cases,
}
use system_engineering.Base.Int.{ℤ, pos, sub_ℕ}
use system_engineering.FileSys.{read_dentry_by_name, equal_strings}
use system_engineering.Kernel.{Kernel, current, max_pid}
use system_engineering.Process.{
  Outcome, returned, started, fault, execute, find_pid, parse, parsed, exit_name,
}
use system_engineering.Process.Table.{find_pid_lem}
use system_engineering.Process.Failed.{execute-Faulted, full-counted}
use system_engineering.System.{Stacks, count, held, total, IsStacked}
use system_engineering.System.Quiet.{Quiet-IsStacked}
use system_engineering.System.Push.{push, push-IsStacked}
use system_engineering.System.Calls.{execute-Quiet, execute-Adds}

-- How many elements of a list are below a bound.
below : ℕ → List ℕ → ℕ
below zero xs = 0
below (suc n) xs = below n xs + count n xs

below-nil : (n : ℕ) → below n [] ≡ 0
unfolding below
below-nil zero = refl
below-nil (suc n) = omega (arith, below-nil n)

below-cons : (n x : ℕ) (xs : List ℕ) → below n (x ∷ xs) ≡ (if ltb x n then 1 else 0) + below n xs
unfolding below
below-cons zero x xs = ground arith
below-cons (suc n) x xs = ground (arith, below-cons n x xs)

-- A list whose elements are all below `n` has as many elements as it has below `n`.
below-length : (n : ℕ) (xs : List ℕ) → ((i : ℕ) → n ≤ i → count i xs ≡ 0) → below n xs ≡ length xs
below-length n [] small = below-nil n
below-length n (x ∷ xs) small =
    let rest = below-length n xs (λ i le. omega (arith, small i le)) in
    ground (arith, rest, below-cons n x xs, small x)

-- The slots of the three stacks, counted by slot and by stack.
held_below : ℕ → Stacks → ℕ
held_below n s = below n (s 0) + below n (s 1) + below n (s 2)

held_below-total : (s : Stacks) → ((i : ℕ) → 6 ≤ i → held s i ≡ 0) → held_below 6 s ≡ total s
unfolding held_below
held_below-total s small = omega (
  arith,
  below-length 6 (s 0) (λ i le. omega (arith, small i le)),
  below-length 6 (s 1) (λ i le. omega (arith, small i le)),
  below-length 6 (s 2) (λ i le. omega (arith, small i le)),
)

-- If each of the six slots is held once, there are six processes.
all_held :
    (s : Stacks) → ((i : ℕ) → 6 ≤ i → held s i ≡ 0) → ((i : ℕ) → i < 6 → held s i ≡ 1) → total s ≡ 6
unfolding held_below below
all_held s small one = omega (
  arith,
  held_below-total s small,
  one 0 (omega arith),
  one 1 (omega arith),
  one 2 (omega arith),
  one 3 (omega arith),
  one 4 (omega arith),
  one 5 (omega arith),
)

module _ {k : Kernel} {s : Stacks} (h : IsStacked k s) where
  -- A table without a free pid is that of six processes.
  none_left-counter : find_pid k.pid ≡ none → k.process_counter ≡ pos max_pid
  none_left-counter e = h.counter ∙ ap (λ n. sub_ℕ n 1) (all_held s h.small one)
    where
      one : (i : ℕ) → i < 6 → held s i ≡ 1
      one i lt = elim (find_pid_lem k.pid) [
        | inl (missing, taken) ↦ elim (Bool-cases (held s i == 0)) [
          | inl free ↦ absurd (taken i lt (h.table i lt ∙ rw free refl))
          | inr used ↦ ground (arith, h.once i)
        ]
        | inr (j, found, lt', free, first) ↦ ground arith
      ]

  -- With fewer than six processes a pid is free.
  pub room-find_pid : total s < 6 → (i : ℕ) × (find_pid k.pid ≡ some i)
  room-find_pid room = elim (Option-cases (find_pid k.pid)) [
    | inl missing ↦
        let six : sub_ℕ (total s) 1 ≡ pos max_pid = sym h.counter ∙ none_left-counter missing in
        ground arith
    | inr found ↦ found
  ]

-- What `execute` of a running process answers.
abbrev pub Answers : (fuel : ℕ) → Kernel → Option Mem → Stacks → Type 0
Answers fuel k command s =
    ((k' : Kernel) × (code : ℤ) × (execute fuel k command ≡ returned k' code) × IsStacked k' s)
    ⊎ ((k' : Kernel) × (entry : ℕ) × (i : ℕ) × (execute fuel k command ≡ started k' entry)
        × IsStacked k' (push s k.console.curr_scheduler i))

-- On stacked processes, `execute` from a process that runs never goes on without a pid: with a command
-- line whose name is not `exit`, or not that of a file, it returns and leaves the stacks as they are, or
-- pushes a process.
pub execute-Answers :
    (fuel : ℕ) (k : Kernel) (s : Stacks) (p : ℕ) (command : Option Mem) (filename arg : Mem)
    → IsStacked k s
    → current k ≡ some p
    → parse fuel command k.stack k.stack ≡ parsed filename arg
    → (equal_strings filename exit_name 5 ≡ false) ⊎ (read_dentry_by_name k.fs filename ≡ none)
    → Answers fuel k command s
execute-Answers fuel k s p command filename arg h run parses name =
    answer (execute fuel k command) refl
  where
    answer : (o : Outcome) → execute fuel k command ≡ o → Answers fuel k command s
    answer (returned k' code) e =
        inl (k', code, e, Quiet-IsStacked (execute-Quiet fuel k command e) h)
    answer (started k' entry) e =
        let (i, a) = execute-Adds fuel k command e in inr (k', entry, i, e, push-IsStacked h a)
    answer fault e =
        let f = execute-Faulted fuel k command filename arg parses e in
        let many =
          full-counted (record k { interrupts = false }) p run (none_left-counter h f.none_left) in
        elim name [
          | inl other ↦ ground (arith, many, f.allowed)
          | inr missing ↦ cc (missing, f.found)
        ]
