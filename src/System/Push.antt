-- ===== src/System/Push.antt =====
-- A new process stands on the stack of the scheduled terminal.
use system_engineering.Base.{
  ℕ, suc, ◌+◌, ◌<◌, ◌≢◌, ◌==◌, if◌then◌else◌, List, [], ◌∷◌, Option, none, some, Arr, update,
  update_self, update_ne, ◌≡◌, refl, sym, ap, ◌∙◌, arith, subst, Bool-cases, inl, inr, ==_iff,
}
use system_engineering.Base.Int.{ℤ, pos, negsuc, incr, sub_ℕ}
use system_engineering.Kernel.{Kernel, vacant, occupied, current}
use system_engineering.System.{Stacks, count, held, total, caller_pid, Linked, IsStacked}
use system_engineering.System.Stacks.{
  held-update, total-update, count-le-held, SameLinks, Linked-keep,
}

-- The stacks with `i` on top of that of terminal `t`.
abbrev pub push : Stacks → (t i : ℕ) → Stacks
push s t i = update s t (i ∷ s t)

-- What the start of a process in slot `i` does, seen from the stacks.
pub record Adds (k k' : Kernel) (i : ℕ) : Type 0 where
  pub slot : i < 6
  pub free : k.pid i ≡ vacant
  pub table : k'.pid ≡ update k.pid i occupied
  pub counter : k'.process_counter ≡ incr k.process_counter
  pub scheduled : k'.console.curr_scheduler ≡ k.console.curr_scheduler
  pub running : (k'.console.terminal k.console.curr_scheduler).pcb ≡ some i
  pub others :
      (t : ℕ)
      → t ≢ k.console.curr_scheduler
      → (k'.console.terminal t).pcb ≡ (k.console.terminal t).pcb
  pub own_pid : (k'.pcbs i).pid ≡ i
  pub parent : (k'.pcbs i).parent_pcb ≡ current k
  pub parent_pid : (q : ℕ) → current k ≡ some q → (k'.pcbs i).parent_pid ≡ pos (k.pcbs q).pid
  pub root : current k ≡ none → (k'.pcbs i).parent_pid ≡ negsuc 0
  pub slots : (j : ℕ) → j ≢ i → SameLinks (k.pcbs j) (k'.pcbs j)

vacant-occupied : vacant ≢ occupied
vacant-occupied = λ e. ground arith

incr-sub : (n : ℕ) → incr (sub_ℕ n 1) ≡ sub_ℕ (suc n) 1
incr-sub n = ground arith

module _ {k k' : Kernel} {s : Stacks} {i : ℕ} (h : IsStacked k s) (a : Adds k k' i) where
  t : ℕ
  t = k.console.curr_scheduler

  pub Adds-unheld : held s i ≡ 0
  Adds-unheld = elim (Bool-cases (held s i == 0)) [
    | inl zero_held ↦ (==_iff _ _).0 zero_held
    | inr more ↦ absurd (vacant-occupied (sym a.free ∙ h.table i a.slot ∙ rw more refl))
  ]

  held-push : (j : ℕ) → held (push s t i) j ≡ (if i == j then 1 else 0) + held s j
  unfolding t
  held-push j = omega (arith, held-update s t (i ∷ s t) j h.terminal)

  -- A slot of a stack is not the new one.
  elsewhere : (u j : ℕ) → u < 3 → 0 < count j (s u) → j ≢ i
  elsewhere u j lt some_held e =
      let here : held s j ≡ 0 = ap (held s) e ∙ Adds-unheld in
      absurd (omega (arith, count-le-held s u j lt))

  below_kept :
      (u : ℕ) (o : Option ℕ) → u < 3 → o ≡ (k.console.terminal u).pcb → Linked k'.pcbs o (s u)
  below_kept u o lt e =
      Linked-keep k.pcbs k'.pcbs (k.console.terminal u).pcb o (s u) e
        (λ j some_held. a.slots j (elsewhere u j lt some_held)) (h.linked u lt)

  new_parent_pid :
      (xs : List ℕ) → Linked k.pcbs (current k) xs → (k'.pcbs i).parent_pid ≡ caller_pid xs
  new_parent_pid [] l = a.root l
  new_parent_pid (q ∷ rest) (top, pid, parent, below) = a.parent_pid q top ∙ ap pos pid

  new_top : Linked k'.pcbs (k'.console.terminal t).pcb (i ∷ s t)
  unfolding t
  new_top = (
    a.running,
    a.own_pid,
    new_parent_pid (s t) (h.linked t h.terminal),
    below_kept t (k'.pcbs i).parent_pcb h.terminal a.parent,
  )

  push-Linked : (u : ℕ) → u < 3 → Linked k'.pcbs (k'.console.terminal u).pcb (push s t i u)
  unfolding t
  push-Linked u lt = elim (Bool-cases (u == t)) [
    | inl here ↦
        let same : u ≡ t = (==_iff u t).0 here in
        rw same (
          subst (Linked k'.pcbs (k'.console.terminal t).pcb) (sym (update_self s t (i ∷ s t)))
            new_top)
    | inr there ↦
        let ne : u ≢ t = λ e. ground arith in
        subst (Linked k'.pcbs (k'.console.terminal u).pcb) (sym (update_ne s t (i ∷ s t) u ne))
          (below_kept u (k'.console.terminal u).pcb lt (a.others u ne))
  ]

  push-table : (j : ℕ) → j < 6 → k'.pid j ≡ (if held (push s t i) j == 0 then vacant else occupied)
  push-table j lt = ap (λ (x : Arr ℤ). x j) a.table ∙ ground (arith, held-push j, h.table j)

  -- The new process is pushed.
  pub push-IsStacked : IsStacked k' (push s k.console.curr_scheduler i)
  unfolding t
  push-IsStacked = record {
    terminal = omega (arith, a.scheduled, h.terminal);
    linked = push-Linked;
    small = λ j le. ground (arith, held-push j, h.small j, a.slot);
    once = λ j. ground (arith, held-push j, h.once j, Adds-unheld);
    table = push-table;
    counter =
        a.counter
        ∙ ap incr h.counter
        ∙ incr-sub (total s)
        ∙ ap (λ n. sub_ℕ n 1) (omega (arith, total-update s t (i ∷ s t) h.terminal));
  }
