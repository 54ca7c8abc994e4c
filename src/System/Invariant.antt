-- ===== src/System/Invariant.antt =====
-- The stacks are kept by all that happens.
use system_engineering.Base.{
  ℕ, ◌≤◌, ◌++◌, [], ◌∷◌, Option, some, Mem, Arr, ◌≡◌, inl, inr, refl, sym, subst, arith, ap, ◌∙◌,
}
use system_engineering.Base.Int.{ℤ}
use system_engineering.Exception.{Exception, exception, message}
use system_engineering.Exception.Abort.{exception-halt}
use system_engineering.Kernel.{Kernel, put_all}
use system_engineering.Keyboard.{Handled}
use system_engineering.Keyboard.Quiet.{KeyDoes, only_typed, halts, keyboard_handler-Does}
use system_engineering.Process.{Outcome, execute, halt}
use system_engineering.Scheduler.{Tick}
use system_engineering.Scheduler.Turns.{
  Turns, TickDoes, turns, launches, crashes, scheduler-Does, vidmap-Quiet,
}
use system_engineering.Syscall.Quiet.{open_file-Quiet, close-Quiet, write-Quiet, read-Waited}
use system_engineering.System.{Stacks, IsStacked}
use system_engineering.System.Stacks.{Linked-keep}
use system_engineering.System.Quiet.{
  Quiet, Quiet-trans, Quiet-IsStacked, console-Quiet, put_all-Quiet,
}
use system_engineering.System.Push.{push-IsStacked}
use system_engineering.System.Calls.{execute-Quiet, execute-Adds}
use system_engineering.System.Halts.{halt-returned-IsStacked, halt-started-IsStacked}
use system_engineering.System.Runs.{
  Runs, begin, computes, executes, halts_itself, raises, ticks, key_pressed, opens, closes, writes,
  reads, prints, vidmaps, Leaves, returns, enters, TickLeaves, resumes, enters_shell, KeyLeaves,
  returns_key, halts_process,
}

-- The processes of a kernel are stacked, whichever they are.
abbrev pub Stacked : Kernel → Type 0
Stacked k = (s : Stacks) × IsStacked k s

Quiet-Stacked : {k k' : Kernel} → Quiet k k' → Stacked k → Stacked k'
Quiet-Stacked q (s, h) = (s, Quiet-IsStacked q h)

pub Turns-IsStacked : {k k' : Kernel} {s : Stacks} → Turns k k' → IsStacked k s → IsStacked k' s
Turns-IsStacked {k} {k'} {s} t h = record {
  terminal = elim t.turned [
    | inl same ↦ omega (arith, same, h.terminal)
    | inr next ↦ omega (arith, next)
  ];
  linked = λ u lt.
      Linked-keep k.pcbs k'.pcbs (k.console.terminal u).pcb (k'.console.terminal u).pcb (s u)
        (t.running u) (λ j some_held. t.slots j) (h.linked u lt);
  small = h.small;
  once = h.once;
  table = λ i lt. ap (λ (x : Arr ℤ). x i) t.table ∙ h.table i lt;
  counter = t.counter ∙ h.counter;
}

Turns-Stacked : {k k' : Kernel} → Turns k k' → Stacked k → Stacked k'
Turns-Stacked t (s, h) = (s, Turns-IsStacked t h)

execute-Stacked :
    (fuel : ℕ) {k : Kernel} (command : Option Mem) (o : Outcome) {k' : Kernel}
    → execute fuel k command ≡ o
    → Leaves o k'
    → Stacked k
    → Stacked k'
execute-Stacked fuel command _ e (returns k' code) st =
    Quiet-Stacked (execute-Quiet fuel _ command e) st
execute-Stacked fuel command _ e (enters k' entry) (s, h) =
    let (i, a) = execute-Adds fuel _ command e in (_, push-IsStacked h a)

halt-Stacked :
    (fuel : ℕ) {k : Kernel} (status : ℕ) (o : Outcome) {k' : Kernel}
    → halt fuel k status ≡ o
    → Leaves o k'
    → Stacked k
    → Stacked k'
halt-Stacked fuel {k} status _ e (returns k' code) (s, h) =
    halt-returned-IsStacked fuel k s status h e
halt-Stacked fuel {k} status _ e (enters k' entry) (s, h) =
    halt-started-IsStacked fuel k s status h e

tick-Stacked :
    (fuel : ℕ) {k : Kernel} {t : Tick} {k' : Kernel}
    → TickDoes fuel k t
    → TickLeaves t k'
    → Stacked k
    → Stacked k'
tick-Stacked fuel (turns _ t) (resumes k') st = Turns-Stacked t st
tick-Stacked fuel (launches k1 _ _ t idle e) (enters_shell k' entry) st =
    execute-Stacked fuel _ _ e (enters k' entry) (Turns-Stacked t st)
tick-Stacked fuel crashes l st = elim l [ ]

key-Stacked :
    (fuel : ℕ) {k : Kernel} {o : Handled} {k' : Kernel}
    → KeyDoes fuel k o
    → KeyLeaves o k'
    → Stacked k
    → Stacked k'
key-Stacked fuel (only_typed _ q) (returns_key k') st = Quiet-Stacked q st
key-Stacked fuel (halts k1 q) (halts_process _ k' l) st =
    halt-Stacked fuel 2 _ refl l (Quiet-Stacked q st)

exception-Stacked :
    (fuel : ℕ) {k : Kernel} (e : Exception) (o : Outcome) {k' : Kernel}
    → 32 ≤ fuel
    → exception fuel e k ≡ some o
    → Leaves o k'
    → Stacked k
    → Stacked k'
exception-Stacked fuel {k} e o enough done l st =
    let line = message e ++ (10 ∷ []) in
    let same : some (halt fuel (record (put_all k line) { global_halt = 1 }) 1) ≡ some o =
      sym (exception-halt e k fuel enough) ∙ done in
    let q = Quiet-trans (put_all-Quiet k line) (
      console-Quiet {k = put_all k line} {k' = record (put_all k line) { global_halt = 1 }} refl
        refl refl (record { scheduled = refl; running = λ t. refl })) in
    halt-Stacked fuel 1 o (cc) l (Quiet-Stacked q st)

-- If the processes of a kernel are stacked, so are those of every kernel that runs lead to. A run is a
-- sequence of calls, exceptions, ticks and keys in any order, each handled to its end before the next
-- comes, but for a read that waits and a write, which let others come before they end; none of them is a
-- fault. Then the processes of each terminal are a stack of callers with the process that runs at its
-- top, no slot is used twice, the pid table marks exactly the slots that are used, and the process
-- counter is one less than their number.
pub Runs-Stacked : {k k' : Kernel} → Runs k k' → Stacked k → Stacked k'
Runs-Stacked (begin k) st = st
Runs-Stacked (computes r c) st =
    Quiet-Stacked (console-Quiet refl refl refl (record { scheduled = refl; running = λ t. refl }))
      (Runs-Stacked r st)
Runs-Stacked (executes r fuel command l) st =
    execute-Stacked fuel command _ refl l (Runs-Stacked r st)
Runs-Stacked (halts_itself r fuel status l) st =
    halt-Stacked fuel status _ refl l (Runs-Stacked r st)
Runs-Stacked (raises r fuel e o enough done l) st =
    exception-Stacked fuel e o enough done l (Runs-Stacked r st)
Runs-Stacked (ticks r fuel l) st = tick-Stacked fuel (scheduler-Does fuel _) l (Runs-Stacked r st)
Runs-Stacked (key_pressed r fuel l) st =
    key-Stacked fuel (keyboard_handler-Does fuel _) l (Runs-Stacked r st)
Runs-Stacked (opens r filename code e) st =
    Quiet-Stacked (open_file-Quiet _ filename e) (Runs-Stacked r st)
Runs-Stacked (closes r fd code e) st = Quiet-Stacked (close-Quiet _ fd e) (Runs-Stacked r st)
Runs-Stacked (writes r fd buf nbytes code e) st =
    Quiet-Stacked (write-Quiet _ fd buf nbytes e) (Runs-Stacked r st)
Runs-Stacked (reads r wait while fd buf nbytes out code e) st =
    let w = read-Waited wait _ fd buf nbytes e in
    let before = Quiet-Stacked w.waiting (Runs-Stacked r st) in
    Quiet-Stacked w.woken (elim w.wakes [
      | inl same ↦ subst Stacked (sym same) before
      | inr waited ↦ subst Stacked (sym waited) (Runs-Stacked (while w.before) before)
    ])
Runs-Stacked (prints r c) st = Quiet-Stacked (put_all-Quiet _ (c ∷ [])) (Runs-Stacked r st)
Runs-Stacked (vidmaps r table screen_start) st =
    Quiet-Stacked (vidmap-Quiet table _ screen_start) (Runs-Stacked r st)
