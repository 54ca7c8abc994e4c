-- ===== src/System/Pop.antt =====
-- A process that ends leaves the stack of its terminal.
use system_engineering.Base.{
  ℕ, suc, ◌+◌, ◌<◌, ◌≢◌, ◌==◌, if◌then◌else◌, List, ◌∷◌, length, Option, Arr, update, ◌≡◌, ap, ◌∙◌,
  arith, subst, Bool-cases, inl, inr, ==_iff,
}
use system_engineering.Base.Int.{ℤ, decr, sub_ℕ}
use system_engineering.Kernel.{Kernel, vacant, occupied, current}
use system_engineering.System.{Stacks, count, held, total, Linked, IsStacked}
use system_engineering.System.Stacks.{
  held-update, total-update, count-le-held, SameLinks, Linked-keep,
}

-- What the end of process `p` does, seen from the stacks.
pub record Removes (k k' : Kernel) (p : ℕ) : Type 0 where
  pub table : k'.pid ≡ update k.pid p vacant
  pub counter : k'.process_counter ≡ decr k.process_counter
  pub scheduled : k'.console.curr_scheduler ≡ k.console.curr_scheduler
  pub running : (k'.console.terminal k.console.curr_scheduler).pcb ≡ (k.pcbs p).parent_pcb
  pub others :
      (t : ℕ)
      → t ≢ k.console.curr_scheduler
      → (k'.console.terminal t).pcb ≡ (k.console.terminal t).pcb
  pub slots : (j : ℕ) → j ≢ p → SameLinks (k.pcbs j) (k'.pcbs j)

decr-sub : (n : ℕ) → decr (sub_ℕ (suc n) 1) ≡ sub_ℕ n 1
decr-sub n = ground arith

-- `rest` is what stands below `p` on the scheduled terminal's stack.
module _ {k k' : Kernel} {s : Stacks} {p : ℕ} {rest : List ℕ} (h : IsStacked k s)
    (top : s k.console.curr_scheduler ≡ p ∷ rest) (r : Removes k k' p) where
  t : ℕ
  t = k.console.curr_scheduler

  top_count :
      (j : ℕ) → count j (s k.console.curr_scheduler) ≡ (if p == j then 1 else 0) + count j rest
  top_count j = ap (count j) top

  top_length : length (s k.console.curr_scheduler) ≡ suc (length rest)
  top_length = ap length top

  held-pop : (j : ℕ) → (if p == j then 1 else 0) + held (update s t rest) j ≡ held s j
  unfolding t
  held-pop j = omega (arith, held-update s t rest j h.terminal, top_count j)

  -- The process stands in no other place, so the rest of its stack and the other stacks keep their slots.
  alone : held (update s t rest) p ≡ 0
  alone = ground (arith, held-pop p, h.once p)

  not_p : (u j : ℕ) → u < 3 → 0 < count j (update s t rest u) → j ≢ p
  not_p u j lt some_held e =
      let gone : held (update s t rest) j ≡ 0 = ap (held (update s t rest)) e ∙ alone in
      absurd (omega (arith, count-le-held (update s t rest) u j lt))

  -- What a terminal ran before, with the caller of `p` in the place of `p`.
  before : ℕ → Option ℕ
  before u = if u == t then (k.pcbs p).parent_pcb else (k.console.terminal u).pcb

  running-before : (u : ℕ) → (k'.console.terminal u).pcb ≡ before u
  unfolding before t
  running-before u = elim (Bool-cases (u == t)) [
    | inl here ↦ rw here (ap (λ x. (k'.console.terminal x).pcb) ((==_iff u t).0 here) ∙ r.running)
    | inr there ↦ rw there (r.others u (λ e. ground arith))
  ]

  below_top : Linked k.pcbs (k.pcbs p).parent_pcb rest
  below_top =
      (subst (Linked k.pcbs (current k)) top (h.linked k.console.curr_scheduler h.terminal)).3

  before-Linked : (u : ℕ) → u < 3 → Linked k.pcbs (before u) (update s t rest u)
  unfolding before t
  before-Linked u lt = elim (Bool-cases (u == t)) [
    | inl here ↦ rw here below_top
    | inr there ↦ rw there (h.linked u lt)
  ]

  pop-Linked : (u : ℕ) → u < 3 → Linked k'.pcbs (k'.console.terminal u).pcb (update s t rest u)
  pop-Linked u lt =
      Linked-keep k.pcbs k'.pcbs (before u) (k'.console.terminal u).pcb (update s t rest u)
        (running-before u) (λ j some_held. r.slots j (not_p u j lt some_held)) (before-Linked u lt)

  pop-table :
      (j : ℕ) → j < 6 → k'.pid j ≡ (if held (update s t rest) j == 0 then vacant else occupied)
  pop-table j lt = ap (λ (x : Arr ℤ). x j) r.table ∙ ground (arith, held-pop j, h.table j, h.once j)

  -- The process is popped.
  pub pop-IsStacked : IsStacked k' (update s k.console.curr_scheduler rest)
  unfolding t
  pop-IsStacked = record {
    terminal = omega (arith, r.scheduled, h.terminal);
    linked = pop-Linked;
    small = λ j le. ground (arith, held-pop j, h.small j);
    once = λ j. ground (arith, held-pop j, h.once j);
    table = pop-table;
    counter =
        r.counter
        ∙ ap decr h.counter
        ∙ ap (λ n. decr (sub_ℕ n 1)) (omega (arith, total-update s t rest h.terminal, top_length))
        ∙ decr-sub (total (update s t rest));
  }
