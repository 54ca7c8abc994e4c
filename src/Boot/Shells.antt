-- ===== src/Boot/Shells.antt =====
-- The first ticks after the boot: each starts the shell of one terminal.
use system_engineering.Base.{
  ℕ, ◌+◌, ◌%◌, ◌<◌, ◌≤◌, ◌≢◌, [], ◌∷◌, List, Arr, Mem, ◌≡◌, refl, sym, subst, ◌∙◌, ap, arith, inl,
  inr, some, none, ◌==◌, if◌then◌else◌,
}
use system_engineering.FileSys.{file_sys_init}
use system_engineering.Kernel.{Kernel, current}
use system_engineering.Keyboard.{keyboard_init, terminal_init}
use system_engineering.Pic.{i8259_init, enable_irq}
use system_engineering.Process.Shell.{HasShell}
use system_engineering.Rtc.{rtc_init}
use system_engineering.Scheduler.{paging_init, pit_init, scheduler, launched}
use system_engineering.System.{Stacks, held, total, Linked, IsStacked}
use system_engineering.System.Push.{push}
use system_engineering.System.Ticks.{Launched, scheduler-Launched}
use system_engineering.Boot.{Machine, Reads, init_pic, init_clock, initialise}
use system_engineering.Boot.Idle.{Loaded, initialise-IsStacked}

-- What runs between two ticks, when it leaves the processes, the terminal that is scheduled, the files
-- and the memory that local arrays lie in.
pub record Harmless (work : Kernel → Kernel) : Type 0 where
  pub stacked : (k : Kernel) (s : Stacks) → IsStacked k s → IsStacked (work k) s
  pub scheduled : (k : Kernel) → (work k).console.curr_scheduler ≡ k.console.curr_scheduler
  pub files : (k : Kernel) → (work k).fs ≡ k.fs
  pub locals : (k : Kernel) → (work k).stack ≡ k.stack

-- No terminal runs a process.
abbrev pub no_process : Stacks
no_process t = []

-- The three ticks, and the slots that their shells take.
pub record ThreeShells (fuel : ℕ) (work : Kernel → Kernel) (k : Kernel) : Type 0 where
  pub k1 : Kernel
  pub k2 : Kernel
  pub k3 : Kernel
  pub entry : Arr ℕ
  pub a : ℕ
  pub b : ℕ
  pub c : ℕ
  pub first : scheduler fuel k ≡ launched k1 (entry 0)
  pub second : scheduler fuel (work k1) ≡ launched k2 (entry 1)
  pub third : scheduler fuel (work k2) ≡ launched k3 (entry 2)
  pub stacked : IsStacked k3 (push (push (push no_process 0 a) 1 b) 2 c)
  pub distinct : (a ≢ b) × (b ≢ c) × (a ≢ c)
  pub scheduled : k3.console.curr_scheduler ≡ 2

-- A tick behind one that has scheduled terminal `t`, where the process of slot `p` runs now, and that
-- finds the terminal behind it without a process.
next_shell :
    (fuel : ℕ) (work : Kernel → Kernel) (k : Kernel) (s : Stacks) (t p : ℕ) (rest : List ℕ)
    → 5 < fuel
    → Harmless work
    → IsStacked k s
    → k.console.curr_scheduler ≡ t
    → t + 1 < 3
    → s t ≡ p ∷ rest
    → s (t + 1) ≡ []
    → total s < 6
    → HasShell k.fs k.stack
    → Launched fuel (work k) s (t + 1)
next_shell fuel work k s t p rest enough w h at lt top idle room there =
    let there' =
      subst (λ f. HasShell f (work k).stack) (sym (w.files k))
        (subst (HasShell k.fs) (sym (w.locals k)) there) in
    let h' = w.stacked k s h in
    let at' : (work k).console.curr_scheduler ≡ t = w.scheduled k ∙ at in
    let here = subst (Linked (work k).pcbs _) top (h'.linked t (omega arith)) in
    let behind = subst (Linked (work k).pcbs _) idle (h'.linked (t + 1) lt) in
    let after : ((work k).console.curr_scheduler + 1) % 3 ≡ t + 1 = omega arith in
    let running : current (work k) ≡ some p =
      ap (λ n. ((work k).console.terminal n).pcb) at' ∙ here.0 in
    scheduler-Launched fuel (work k) s (t + 1) enough h' room there'
      (inr (p, running, ap (λ n. ((work k).console.terminal n).pcb) after ∙ behind, sym after))

apart :
    (a b c : ℕ)
    → ((i : ℕ) → held (push (push (push no_process 0 a) 1 b) 2 c) i ≤ 1)
    → (a ≢ b) × (b ≢ c) × (a ≢ c)
apart a b c once = (
  λ e. absurd (ground (arith, once a)),
  λ e. absurd (ground (arith, once b)),
  λ e. absurd (ground (arith, once a)),
)

ticks-ThreeShells :
    (fuel : ℕ) (work : Kernel → Kernel) (k : Kernel)
    → 5 < fuel
    → Harmless work
    → IsStacked k no_process
    → k.console.curr_scheduler ≡ 0
    → HasShell k.fs k.stack
    → ThreeShells fuel work k
ticks-ThreeShells fuel work k enough w h zeroth there =
    let idle : current k ≡ none =
      ap (λ n. (k.console.terminal n).pcb) zeroth ∙ h.linked 0 (omega arith) in
    let l1 =
      scheduler-Launched fuel k no_process 0 enough h (omega arith) there
        (inl (idle, zeroth, refl)) in
    let s1 = push no_process 0 l1.slot in
    let shell_in = λ (k' : Kernel) (f : k'.fs ≡ k.fs) (l : k'.stack ≡ k.stack).
      subst (λ x. HasShell x k'.stack) (sym f) (subst (HasShell k.fs) (sym l) there) in
    let l2 =
      next_shell fuel work l1.after s1 0 l1.slot [] enough w l1.stacked l1.scheduled (omega arith)
        refl refl (omega arith) (shell_in l1.after l1.files l1.locals) in
    let s2 = push s1 1 l2.slot in
    let files2 = l2.files ∙ w.files l1.after ∙ l1.files in
    let locals2 = l2.locals ∙ w.locals l1.after ∙ l1.locals in
    let l3 =
      next_shell fuel work l2.after s2 1 l2.slot [] enough w l2.stacked l2.scheduled (omega arith)
        refl refl (omega arith) (shell_in l2.after files2 locals2) in
    record {
      k1 = l1.after;
      k2 = l2.after;
      k3 = l3.after;
      entry = λ i. if i == 0 then l1.entry else if i == 1 then l2.entry else l3.entry;
      a = l1.slot;
      b = l2.slot;
      c = l3.slot;
      first = l1.tick;
      second = l2.tick;
      third = l3.tick;
      stacked = l3.stacked;
      distinct = apart l1.slot l2.slot l3.slot l3.stacked.once;
      scheduled = l3.scheduled;
    }

-- Once the initialisers have run, from the values that the kernel's variables are loaded with, and with
-- the shell's program in the file system, the first three ticks start a shell on the first, the second and
-- the third terminal, as the only process of each, in three different slots, if what runs between the
-- ticks leaves the processes, the terminal that is scheduled, the files and the memory of local arrays.
pub initialise-ThreeShells :
    (handler : Arr ℕ) (r : Reads) (table : ℕ) (image : Mem) (start_addr : ℕ) (m : Machine)
    (fuel : ℕ) (work : Kernel → Kernel)
    → Loaded m.kernel
    → 5 < fuel
    → Harmless work
    → HasShell (file_sys_init image start_addr) m.kernel.stack
    → ThreeShells fuel work (initialise handler r table image start_addr m).kernel
unfolding initialise init_pic init_clock keyboard_init terminal_init i8259_init enable_irq rtc_init
    paging_init pit_init
initialise-ThreeShells handler r table image start_addr m fuel work loaded enough w there =
    ticks-ThreeShells fuel work _ enough w
      (initialise-IsStacked handler r table image start_addr m loaded) loaded.scheduled there
