-- ===== src/Process/Failed.antt =====
-- The calls of `execute` that start no program.
use system_engineering.Base.{
  ◌≡◌, ◌⊎◌, ℕ, inl, inr, false, true, ◌&&◌, not, Bool-cases, Mem, Option, some, none, Option-cases,
  arith, refl, ap, sym, ◌∙◌,
}
use system_engineering.Base.Int.{ℤ, pos, incr}
use system_engineering.FileSys.{Dentry, read_dentry_by_name, equal_strings}
use system_engineering.Kernel.{Kernel, put_all, current, max_pid}
use system_engineering.Process.{
  returned, fault, Parsed, parse, no_fuel, bad, parsed, execute, execute_parsed, execute_named,
  new_process, start, find_pid, full, too_many, exit_name, is_exe,
}

-- What `execute` leaves when it returns.
abbrev pub Refused : (k k' : Kernel) → Type 0
Refused k k' = (k' ≡ k) ⊎ (k' ≡ put_all k too_many)

new_process-starts :
    (k : Kernel) (arg : Mem) (d : Dentry) {k' : Kernel} {code : ℤ}
    → ¬ (new_process k arg d ≡ returned k' code)
unfolding new_process start
new_process-starts k arg d e = elim (Option-cases (find_pid k.pid)) [
  | inl none_left ↦ ground arith
  | inr (i, found) ↦ ground arith
]

execute_named-Refused :
    (k : Kernel) (filename arg : Mem) {k' : Kernel} {code : ℤ}
    → execute_named k filename arg ≡ returned k' code
    → Refused k k'
unfolding execute_named
execute_named-Refused k filename arg {k'} {code} e =
    elim (Bool-cases (full k && not (equal_strings filename exit_name 5))) [
      | inl refused ↦ inr (ground arith)
      | inr allowed ↦ elim (Option-cases (read_dentry_by_name k.fs filename)) [
        | inl missing ↦ inl (ground arith)
        | inr (d, found) ↦ elim (Bool-cases (is_exe k.fs k.stack filename)) [
          | inl program ↦ absurd (
              new_process-starts (record k { process_counter = incr k.process_counter }) arg d
                {k' = k'} {code = code} (ground arith))
          | inr other ↦ inl (ground arith)
        ]
      ]
    ]

execute_parsed-Refused :
    (k : Kernel) (p : Parsed) {k' : Kernel} {code : ℤ}
    → execute_parsed k p ≡ returned k' code
    → Refused k k'
unfolding execute_parsed
execute_parsed-Refused k no_fuel e = absurd (cc)
execute_parsed-Refused k bad e = inl (cc)
execute_parsed-Refused k (parsed filename arg) e = execute_named-Refused k filename arg e

-- `execute` that returns has done nothing, or printed that the table is full.
pub execute-Refused :
    (fuel : ℕ) (k : Kernel) (command : Option Mem) {k' : Kernel} {code : ℤ}
    → execute fuel k command ≡ returned k' code
    → Refused (record k { interrupts = false }) k'
unfolding execute
execute-Refused fuel k command e =
    execute_parsed-Refused (record k { interrupts = false }) (parse fuel command k.stack k.stack) e

-- What a fault of `execute` takes: no pid is left, and either the table does not count as full or the
-- program is called as `exit` is, and its file is there.
pub record Faulted (k : Kernel) (filename : Mem) : Type 0 where
  pub none_left : find_pid k.pid ≡ none
  pub allowed : (full k && not (equal_strings filename exit_name 5)) ≡ false
  pub dentry : Dentry
  pub found : read_dentry_by_name k.fs filename ≡ some dentry

new_process-fault :
    (k : Kernel) (arg : Mem) (d : Dentry) → new_process k arg d ≡ fault → find_pid k.pid ≡ none
unfolding new_process start
new_process-fault k arg d e = elim (Option-cases (find_pid k.pid)) [
  | inl none_left ↦ none_left
  | inr (i, found) ↦ ground arith
]

execute_named-Faulted :
    (k : Kernel) (filename arg : Mem) → execute_named k filename arg ≡ fault → Faulted k filename
unfolding execute_named
execute_named-Faulted k filename arg e =
    elim (Bool-cases (full k && not (equal_strings filename exit_name 5))) [
      | inl refused ↦ ground arith
      | inr allowed ↦ elim (Option-cases (read_dentry_by_name k.fs filename)) [
        | inl missing ↦ ground arith
        | inr (d, found) ↦ elim (Bool-cases (is_exe k.fs k.stack filename)) [
          | inl program ↦ record {
            none_left =
                new_process-fault (record k { process_counter = incr k.process_counter }) arg d
                  (ground arith);
            allowed = allowed;
            dentry = d;
            found = found;
          }
          | inr other ↦ ground arith
        ]
      ]
    ]

pub execute-Faulted :
    (fuel : ℕ) (k : Kernel) (command : Option Mem) (filename arg : Mem)
    → parse fuel command k.stack k.stack ≡ parsed filename arg
    → execute fuel k command ≡ fault
    → Faulted (record k { interrupts = false }) filename
unfolding execute execute_parsed
execute-Faulted fuel k command filename arg p e =
    execute_named-Faulted (record k { interrupts = false }) filename arg
      (sym (ap (execute_parsed (record k { interrupts = false })) p) ∙ e)

-- A terminal that runs a process may not ask for more than the table holds.
pub full-counted :
    (k : Kernel) (p : ℕ) → current k ≡ some p → k.process_counter ≡ pos max_pid → full k ≡ true
unfolding full
full-counted k p run e = rw (full, run, e) refl
