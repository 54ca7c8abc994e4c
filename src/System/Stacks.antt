-- ===== src/System/Stacks.antt =====
-- Stacks: how a change of one stack changes the counts, and what keeps the links of a stack.
use system_engineering.Base.{
  ℕ, zero, suc, ◌+◌, ◌≤◌, ◌<◌, List, [], ◌∷◌, length, Option, Arr, update, ◌≡◌, ◌∙◌, arith, ==_refl,
}
use system_engineering.Kernel.{Pcb}
use system_engineering.System.{Stacks, count, held, total, Linked}

pub held-update :
    (s : Stacks) (t : ℕ) (xs : List ℕ) (i : ℕ)
    → t < 3
    → held (update s t xs) i + count i (s t) ≡ held s i + count i xs
held-update s zero xs i h = omega arith
held-update s (suc zero) xs i h = omega arith
held-update s (suc (suc zero)) xs i h = omega arith
held-update s (suc (suc (suc t))) xs i h = absurd (omega arith)

pub total-update :
    (s : Stacks) (t : ℕ) (xs : List ℕ)
    → t < 3
    → total (update s t xs) + length (s t) ≡ total s + length xs
total-update s zero xs h = omega arith
total-update s (suc zero) xs h = omega arith
total-update s (suc (suc zero)) xs h = omega arith
total-update s (suc (suc (suc t))) xs h = absurd (omega arith)

pub count-le-held : (s : Stacks) (t i : ℕ) → t < 3 → count i (s t) ≤ held s i
count-le-held s zero i h = omega arith
count-le-held s (suc zero) i h = omega arith
count-le-held s (suc (suc zero)) i h = omega arith
count-le-held s (suc (suc (suc t))) i h = absurd (omega arith)

-- Two slots name the same process and the same caller.
pub record SameLinks (x y : Pcb) : Type 0 where
  pub pid : y.pid ≡ x.pid
  pub parent_pid : y.parent_pid ≡ x.parent_pid
  pub parent_pcb : y.parent_pcb ≡ x.parent_pcb

pub Linked-keep :
    (a b : Arr Pcb) (o o' : Option ℕ) (xs : List ℕ)
    → o' ≡ o
    → ((j : ℕ) → 0 < count j xs → SameLinks (a j) (b j))
    → Linked a o xs
    → Linked b o' xs
Linked-keep a b o o' [] e same l = e ∙ l
Linked-keep a b o o' (p ∷ rest) e same (top, pid, parent, below) =
    let here = same p (ground (arith, ==_refl p)) in
    (
      e ∙ top,
      here.pid ∙ pid,
      here.parent_pid ∙ parent,
      Linked-keep a b (a p).parent_pcb (b p).parent_pcb rest here.parent_pcb
          (λ j lt. same j (ground arith)) below,
    )
