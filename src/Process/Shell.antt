-- ===== src/Process/Shell.antt =====
-- The start of a root shell.
use system_engineering.Base.{
  ℕ, zero, suc, ◌+◌, ◌<◌, ◌≢◌, ◌≡◌, refl, Mem, Option, some, none, true, false, arith, inr, ap, ◌∙◌,
}
use system_engineering.Base.Int.{incr}
use system_engineering.FileSys.{FileSys, Dentry, read_dentry_by_name}
use system_engineering.Kernel.{Kernel, current}
use system_engineering.Process.{
  started, parse, parsed, execute, execute_parsed, execute_named, new_process, start, prepare,
  set_up, init_pcb, save_parent, find_pid, full, is_exe, shell,
}
use system_engineering.Process.Command.Parse.{Words, stored, parse_lem}

-- The name as `parse` stores it.
abbrev pub shell_name : Mem → Mem
shell_name stack = stored shell 0 5 0 stack

-- The file system has a program that is called shell.
pub record HasShell (fs : FileSys) (stack : Mem) : Type 0 where
  pub dentry : Dentry
  pub found : read_dentry_by_name fs (shell_name stack) ≡ some dentry
  pub program : is_exe fs stack (shell_name stack) ≡ true

shell-letters : (j : ℕ) → j < 5 → (shell j ≢ 32) × (shell j ≢ 0)
shell-letters zero lt = (λ e. ground arith, λ e. ground arith)
shell-letters (suc zero) lt = (λ e. ground arith, λ e. ground arith)
shell-letters (suc (suc zero)) lt = (λ e. ground arith, λ e. ground arith)
shell-letters (suc (suc (suc zero))) lt = (λ e. ground arith, λ e. ground arith)
shell-letters (suc (suc (suc (suc zero)))) lt = (λ e. ground arith, λ e. ground arith)
shell-letters (suc (suc (suc (suc (suc j))))) lt = absurd (omega arith)

at_start : (j : ℕ) → 0 + j ≡ j
at_start j = omega arith

shell-Words : Words shell 0 5 0 0
shell-Words = record {
  lead = λ j lt. absurd (omega arith);
  some_name = omega arith;
  name = λ j lt. rw (at_start j) (shell-letters j lt);
  gap = λ j lt. absurd (omega arith);
  gap_ends = λ e. ground arith;
  argument = λ j lt. absurd (omega arith);
  ends = refl;
  separated = inr refl;
}

parse-shell :
    (fuel : ℕ) (a b : Mem)
    → 5 < fuel
    → parse fuel (some shell) a b ≡ parsed (shell_name a) (stored shell 5 0 0 b)
parse-shell fuel a b enough = parse_lem fuel shell 0 5 0 0 a b shell-Words (omega arith)

full-idle : (k : Kernel) → current k ≡ none → full k ≡ false
unfolding full
full-idle k e = rw (full, e) refl

save_parent-files :
    (k : Kernel) (o : Option ℕ)
    → ((save_parent k o).fs ≡ k.fs) × ((save_parent k o).stack ≡ k.stack)
save_parent-files k none = (refl, refl)
save_parent-files k (some q) = (refl, refl)

prepare-files :
    (k : Kernel) (arg : Mem) (d : Dentry) (i : ℕ)
    → ((prepare k arg d i).fs ≡ k.fs) × ((prepare k arg d i).stack ≡ k.stack)
unfolding prepare set_up init_pcb
prepare-files k arg d i =
    let (files, locals) = save_parent-files (set_up k arg d i) _ in (files, locals)

execute_named-program :
    (k : Kernel) (filename arg : Mem) (d : Dentry) (i : ℕ)
    → current k ≡ none
    → find_pid k.pid ≡ some i
    → read_dentry_by_name k.fs filename ≡ some d
    → is_exe k.fs k.stack filename ≡ true
    → (k' : Kernel) × (entry : ℕ) × (execute_named k filename arg ≡ started k' entry)
      × (k'.fs ≡ k.fs)
      × (k'.stack ≡ k.stack)
unfolding execute_named new_process start
execute_named-program k filename arg d i idle free found program =
    let counted = record k { process_counter = incr k.process_counter } in
    let allowed : execute_named k filename arg ≡ new_process counted arg d =
      rw (execute_named, full-idle k idle, found, program) refl in
    let runs : new_process counted arg d ≡ start counted arg d i = rw (new_process, free) refl in
    let (files, locals) = prepare-files counted arg d i in (_, _, allowed ∙ runs, files, locals)

-- On a terminal without a process, with a free pid and the shell's program there, `execute` starts it,
-- and leaves the file system and the memory of local arrays.
pub execute-shell :
    (fuel : ℕ) (k : Kernel) (i : ℕ)
    → 5 < fuel
    → current k ≡ none
    → find_pid k.pid ≡ some i
    → HasShell k.fs k.stack
    → (k' : Kernel) × (entry : ℕ) × (execute fuel k (some shell) ≡ started k' entry)
      × (k'.fs ≡ k.fs)
      × (k'.stack ≡ k.stack)
unfolding execute execute_parsed
execute-shell fuel k i enough idle free h =
    let (k', entry, e, files, locals) =
      execute_named-program (record k { interrupts = false }) (shell_name k.stack)
        (stored shell 5 0 0 k.stack) h.dentry i idle free h.found h.program in
    (
      k',
      entry,
      ap (execute_parsed (record k { interrupts = false }))
            (parse-shell fuel k.stack k.stack enough)
          ∙ e,
      files,
      locals,
    )
