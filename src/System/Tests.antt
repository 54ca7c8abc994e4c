-- ===== src/System/Tests.antt =====
-- The processes of the sample kernel, with a root shell on each of two terminals.
use system_engineering.Base.{
  ℕ, zero, suc, ◌<◌, ◌==◌, if◌then◌else◌, [], ◌∷◌, some, none, update, ◌≡◌, inl, inr, refl, sym,
  subst, arith, false, ltb,
}
use system_engineering.Base.Int.{ℤ, pos}
use system_engineering.CString.{strncmp, strncmp_loop}
use system_engineering.FileSys.{dentry, equal_strings}
use system_engineering.FileSys.Sample.{
  disk, shell_disk, noughts, name_a, typed_a, shell_disk-finds-shell,
}
use system_engineering.Kernel.{Kernel, vacant, occupied, current}
use system_engineering.Kernel.Sample.{sample_kernel, sample_pcb, sample_console}
use system_engineering.Process.{returned, started, halt, entry_point, exit_name}
use system_engineering.Process.Command.Sample.{cleared, parse_a, shell-is_exe}
use system_engineering.Process.Lifecycle.{counted}
use system_engineering.Process.Sample.{a_started, execute_a}
use system_engineering.Process.Shell.{HasShell}
use system_engineering.System.{Stacks, held, Linked, IsStacked}
use system_engineering.System.Push.{push}
use system_engineering.System.Calls.{execute-pushes, halt-pops}
use system_engineering.System.Halts.{halt-restarts}
use system_engineering.System.Room.{Answers, execute-Answers}
use system_engineering.System.Ticks.{Launched, scheduler-Launched}
use system_engineering.System.Runs.{Runs, begin, executes, enters, Leaves}
use system_engineering.System.Invariant.{Stacked, Runs-Stacked}

abbrev two_roots : Stacks
two_roots t = if t == 0 then 0 ∷ [] else if t == 1 then 1 ∷ [] else []

two_roots-links : (t : ℕ) → t < 3 → Linked sample_pcb (sample_console.terminal t).pcb (two_roots t)
two_roots-links zero lt = (refl, refl, refl, refl)
two_roots-links (suc zero) lt = (refl, refl, refl, refl)
two_roots-links (suc (suc zero)) lt = refl
two_roots-links (suc (suc (suc t))) lt = absurd (omega arith)

two_roots-held : (i : ℕ) → held two_roots i ≡ (if ltb i 2 then 1 else 0)
two_roots-held zero = refl
two_roots-held (suc zero) = refl
two_roots-held (suc (suc i)) = ground arith

sample-IsStacked : IsStacked sample_kernel two_roots
sample-IsStacked = record {
  terminal = omega arith;
  linked = two_roots-links;
  small = λ i le. ground (arith, two_roots-held i);
  once = λ i. ground (arith, two_roots-held i);
  table = λ i lt. ground (arith, two_roots-held i);
  counter = refl;
}

execute-pushes_example :
    (i : ℕ) × (i < 6) × (held two_roots i ≡ 0) × IsStacked a_started (push two_roots 0 i)
execute-pushes_example =
    execute-pushes 10 sample_kernel two_roots (some name_a) a_started
      (entry_point (counted sample_kernel) (dentry disk 0)) sample-IsStacked execute_a

-- The first root shell has started the process of slot 2.
abbrev nested : Stacks
nested t = if t == 0 then 2 ∷ 0 ∷ [] else if t == 1 then 1 ∷ [] else []

abbrev nested_kernel : Kernel
nested_kernel = record sample_kernel {
  console = record sample_console {
    terminal = λ t. record {
      pcb = if t == 0 then some 2 else if t == 1 then some 1 else none;
      screen_x = 0;
      screen_y = 0;
    };
  };
  pid = λ i. if ltb i 3 then occupied else vacant;
  process_counter = pos 2;
  pcbs = λ i.
      if i == 2
      then record (sample_pcb 2) { parent_pid = pos 0; parent_pcb = some 0 }
      else sample_pcb i;
}

nested-links :
    (t : ℕ) → t < 3 → Linked nested_kernel.pcbs (nested_kernel.console.terminal t).pcb (nested t)
nested-links zero lt = (refl, refl, refl, (refl, refl, refl, refl))
nested-links (suc zero) lt = (refl, refl, refl, refl)
nested-links (suc (suc zero)) lt = refl
nested-links (suc (suc (suc t))) lt = absurd (omega arith)

nested-held : (i : ℕ) → held nested i ≡ (if ltb i 3 then 1 else 0)
nested-held zero = refl
nested-held (suc zero) = refl
nested-held (suc (suc zero)) = refl
nested-held (suc (suc (suc i))) = ground arith

nested-IsStacked : IsStacked nested_kernel nested
nested-IsStacked = record {
  terminal = omega arith;
  linked = nested-links;
  small = λ i le. ground (arith, nested-held i);
  once = λ i. ground (arith, nested-held i);
  table = λ i lt. ground (arith, nested-held i);
  counter = refl;
}

halt-pops_example :
    (k' : Kernel) × (code : ℤ) × (halt 10 nested_kernel 0 ≡ returned k' code)
    × (current k' ≡ some 0)
    × IsStacked k' (update nested 0 (0 ∷ []))
halt-pops_example = halt-pops 10 nested_kernel nested 0 2 0 [] nested-IsStacked refl

typed_a-not_exit : equal_strings typed_a exit_name 5 ≡ false
unfolding strncmp strncmp_loop
typed_a-not_exit = refl

execute-Answers_example : Answers 10 sample_kernel (some name_a) two_roots
execute-Answers_example =
    execute-Answers 10 sample_kernel two_roots 0 (some name_a) typed_a cleared sample-IsStacked refl
      parse_a (inl typed_a-not_exit)

-- The same kernel, with the shell's program in its file system.
abbrev shell_kernel : Kernel
shell_kernel = record sample_kernel { fs = shell_disk }

shell-IsStacked : IsStacked shell_kernel two_roots
shell-IsStacked = record {
  terminal = sample-IsStacked.terminal;
  linked = sample-IsStacked.linked;
  small = sample-IsStacked.small;
  once = sample-IsStacked.once;
  table = sample-IsStacked.table;
  counter = sample-IsStacked.counter;
}

shell_disk-HasShell : HasShell shell_disk noughts
shell_disk-HasShell = record {
  dentry = dentry shell_disk 0;
  found = shell_disk-finds-shell;
  program = shell-is_exe;
}

halt-restarts_example :
    (k' : Kernel) × (entry : ℕ) × (i : ℕ) × (halt 6 shell_kernel 0 ≡ started k' entry)
    × IsStacked k' (push (update two_roots 0 []) 0 i)
halt-restarts_example = halt-restarts shell-IsStacked refl 6 0 (omega arith) shell_disk-HasShell

-- The second terminal runs its shell, and the third has none.
abbrev second_kernel : Kernel
second_kernel = record shell_kernel { console = record sample_console { curr_scheduler = 1 } }

second-IsStacked : IsStacked second_kernel two_roots
second-IsStacked = record {
  terminal = omega arith;
  linked = sample-IsStacked.linked;
  small = sample-IsStacked.small;
  once = sample-IsStacked.once;
  table = sample-IsStacked.table;
  counter = sample-IsStacked.counter;
}

scheduler-Launched_example : Launched 6 second_kernel two_roots 2
scheduler-Launched_example =
    scheduler-Launched 6 second_kernel two_roots 2 (omega arith) second-IsStacked (omega arith)
      shell_disk-HasShell (inr (1, refl, refl, refl))

-- The program "a" is started and halts.
a_started-Runs : Runs sample_kernel a_started
a_started-Runs = executes (begin sample_kernel) 10 (some name_a) (
    subst (λ o. Leaves o a_started) (sym execute_a)
      (enters a_started (entry_point (counted sample_kernel) (dentry disk 0))))

Runs-Stacked_example : Stacked a_started
Runs-Stacked_example = Runs-Stacked a_started-Runs (two_roots, sample-IsStacked)
