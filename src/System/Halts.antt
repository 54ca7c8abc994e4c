-- ===== src/System/Halts.antt =====
-- `halt` of whatever process runs.
use system_engineering.Base.{
  ℕ, ◌<◌, List, [], ◌∷◌, some, none, update, update_ne, update_self, ◌≡◌, refl, sym, ap, ◌∙◌, subst,
  arith, ==_refl, Arr, ltb, ltb→lt, Bool-cases, inl, inr,
}
use system_engineering.Base.Int.{ℤ, negsuc}
use system_engineering.Console.{Terminal}
use system_engineering.Kernel.{Kernel, vacant, current}
use system_engineering.Process.{Outcome, returned, started, fault, execute, halt, find_pid, shell}
use system_engineering.Process.Table.{find_pid_lem}
use system_engineering.Process.Shell.{HasShell, execute-shell}
use system_engineering.Process.Root.{root_freed, only_started, halt-idle, halt-root}
use system_engineering.System.{Stacks, count, Linked, IsStacked}
use system_engineering.System.Stacks.{count-le-held}
use system_engineering.System.Quiet.{same_links}
use system_engineering.System.Push.{push, push-IsStacked}
use system_engineering.System.Pop.{Removes, pop-IsStacked}
use system_engineering.System.Calls.{execute-Adds, halt-pops}

-- The process at the top of a stack, alone on it.
module _ {k : Kernel} {s : Stacks} {p : ℕ} (h : IsStacked k s)
    (alone : s k.console.curr_scheduler ≡ p ∷ []) where
  alone_links :
      (current k ≡ some p)
      × ((k.pcbs p).pid ≡ p)
      × ((k.pcbs p).parent_pid ≡ negsuc 0)
      × ((k.pcbs p).parent_pcb ≡ none)
  alone_links =
      subst (Linked k.pcbs (current k)) alone (h.linked k.console.curr_scheduler h.terminal)

  root-Removes : Removes k (root_freed k p) p
  root-Removes = record {
    table = ap (λ n. update k.pid n vacant) alone_links.1;
    counter = refl;
    scheduled = refl;
    running =
        ap (λ (t : Terminal). t.pcb) (update_self k.console.terminal k.console.curr_scheduler _)
        ∙ sym alone_links.3;
    others = λ t ne.
        ap (λ (x : Terminal). x.pcb) (update_ne k.console.terminal k.console.curr_scheduler _ t ne);
    slots = λ j ne. same_links (k.pcbs j);
  }

  root_freed-IsStacked : IsStacked (root_freed k p) (update s k.console.curr_scheduler [])
  root_freed-IsStacked = pop-IsStacked h alone root-Removes

  only_started-started :
      (o : Outcome) {k' : Kernel} {entry : ℕ}
      → only_started o ≡ started k' entry
      → o ≡ started k' entry
  only_started-started (returned k1 code) e = absurd (cc)
  only_started-started (started k1 entry1) e = e
  only_started-started fault e = absurd (cc)

  only_started-returned :
      (o : Outcome) {k' : Kernel} {code : ℤ} → ¬ (only_started o ≡ returned k' code)
  only_started-returned (returned k1 code) e = absurd (cc)
  only_started-returned (started k1 entry1) e = absurd (cc)
  only_started-returned fault e = absurd (cc)

  root-started :
      (fuel status : ℕ) (k' : Kernel) (entry : ℕ)
      → halt fuel k status ≡ started k' entry
      → (i : ℕ) × IsStacked k'
          (push (update s k.console.curr_scheduler []) k.console.curr_scheduler i)
  root-started fuel status k' entry e =
      let again =
        only_started-started (execute fuel (root_freed k p) (some shell))
          (sym (halt-root fuel k status p 0 alone_links.0 alone_links.2) ∙ e) in
      let (i, a) = execute-Adds fuel (root_freed k p) (some shell) again in
      (i, push-IsStacked root_freed-IsStacked a)

  root-returns :
      (fuel status : ℕ) {k' : Kernel} {code : ℤ} → ¬ (halt fuel k status ≡ returned k' code)
  root-returns fuel status {k'} {code} e =
      only_started-returned (execute fuel (root_freed k p) (some shell)) {k' = k'} {code = code}
        (sym (halt-root fuel k status p 0 alone_links.0 alone_links.2) ∙ e)

  alone-small : p < 6
  alone-small = elim (Bool-cases (ltb p 6)) [
    | inl small ↦ ltb→lt p 6 small
    | inr large ↦
        let counted : count p (s k.console.curr_scheduler) ≡ 1 =
          ap (count p) alone ∙ ground (arith, ==_refl p) in
        absurd (
          omega (
            arith,
            counted,
            count-le-held s k.console.curr_scheduler p h.terminal,
            h.small p (ground arith),
          ))
  ]

  root_freed-find_pid : (i : ℕ) × (find_pid (root_freed k p).pid ≡ some i)
  root_freed-find_pid = elim (find_pid_lem (root_freed k p).pid) [
    | inl (missing, taken) ↦ absurd (
        taken p alone-small
          (ap (λ (x : Arr ℤ). x p) root-Removes.table ∙ update_self k.pid p vacant))
    | inr (i, found, lt, free, first) ↦ (i, found)
  ]

  -- A root shell that halts is the only process of its terminal. With the shell's program in the file
  -- system and fuel for its name, the shell is started again, as the only process of the terminal.
  pub halt-restarts :
      (fuel status : ℕ)
      → 5 < fuel
      → HasShell k.fs k.stack
      → (k' : Kernel) × (entry : ℕ) × (i : ℕ) × (halt fuel k status ≡ started k' entry)
        × IsStacked k' (push (update s k.console.curr_scheduler []) k.console.curr_scheduler i)
  halt-restarts fuel status enough shell_there =
      let (i, free) = root_freed-find_pid in
      let (k', entry, e, files, locals) =
        execute-shell fuel (root_freed k p) i enough
          (ap (λ (t : Terminal). t.pcb) (update_self k.console.terminal k.console.curr_scheduler _))
          free shell_there in
      let restarted : halt fuel k status ≡ started k' entry =
        halt-root fuel k status p 0 alone_links.0 alone_links.2 ∙ ap only_started e in
      let (j, stacked) = root-started fuel status k' entry restarted in
      (k', entry, j, restarted, stacked)

-- Whatever process halts, the processes are stacked again.
pub halt-returned-IsStacked :
    (fuel : ℕ) (k : Kernel) (s : Stacks) (status : ℕ) {k' : Kernel} {code : ℤ}
    → IsStacked k s
    → halt fuel k status ≡ returned k' code
    → (s' : Stacks) × IsStacked k' s'
halt-returned-IsStacked fuel k s status {k'} {code} h e = by_top (s k.console.curr_scheduler) refl
  where
    by_top : (xs : List ℕ) → s k.console.curr_scheduler ≡ xs → (s' : Stacks) × IsStacked k' s'
    by_top [] top =
        let idle =
          halt-idle fuel k status (
            subst (Linked k.pcbs (current k)) top (h.linked k.console.curr_scheduler h.terminal)) in
        absurd (cc)
    by_top (p ∷ []) top = absurd (root-returns h top fuel status {k' = k'} {code = code} e)
    by_top (p ∷ q ∷ rest) top =
        let (k1, code1, done, run, stacked) = halt-pops fuel k s status p q rest h top in
        let same : k1 ≡ k' = cc in
        (
          update s k.console.curr_scheduler (q ∷ rest),
          subst (λ x. IsStacked x (update s k.console.curr_scheduler (q ∷ rest))) same stacked,
        )

pub halt-started-IsStacked :
    (fuel : ℕ) (k : Kernel) (s : Stacks) (status : ℕ) {k' : Kernel} {entry : ℕ}
    → IsStacked k s
    → halt fuel k status ≡ started k' entry
    → (s' : Stacks) × IsStacked k' s'
halt-started-IsStacked fuel k s status {k'} {entry} h e = by_top (s k.console.curr_scheduler) refl
  where
    by_top : (xs : List ℕ) → s k.console.curr_scheduler ≡ xs → (s' : Stacks) × IsStacked k' s'
    by_top [] top =
        let idle =
          halt-idle fuel k status (
            subst (Linked k.pcbs (current k)) top (h.linked k.console.curr_scheduler h.terminal)) in
        absurd (cc)
    by_top (p ∷ []) top =
        let (i, stacked) = root-started h top fuel status k' entry e in (_, stacked)
    by_top (p ∷ q ∷ rest) top =
        let (k1, code1, done, run, stacked) = halt-pops fuel k s status p q rest h top in
        absurd (cc)
