-- ===== src/Print/Frame.antt =====
-- What printing leaves alone.
use system_engineering.Base.{ℕ, List, [], ◌∷◌, ◌≡◌, refl, ◌∙◌, ap}
use system_engineering.Console.Pages.{putc-curr_scheduler, putc-pcb}
use system_engineering.Kernel.{Kernel, put_all, current}
use system_engineering.Print.{put}

-- Printing changes the console and the port writes only, and lets every terminal run what it ran.
pub record Printing (k k' : Kernel) : Type 0 where
  pub table : k'.pid ≡ k.pid
  pub counter : k'.process_counter ≡ k.process_counter
  pub slots : k'.pcbs ≡ k.pcbs
  pub files : k'.fs ≡ k.fs
  pub scheduled : k'.console.curr_scheduler ≡ k.console.curr_scheduler
  pub running : (t : ℕ) → (k'.console.terminal t).pcb ≡ (k.console.terminal t).pcb

put-Printing : (k : Kernel) (c : ℕ) → Printing k (put k c)
put-Printing k c = record {
  table = refl;
  counter = refl;
  slots = refl;
  files = refl;
  scheduled = putc-curr_scheduler k.console c;
  running = λ t. putc-pcb k.console c t;
}

pub put_all-Printing : (cs : List ℕ) (k : Kernel) → Printing k (put_all k cs)
unfolding put_all
put_all-Printing [] k = record {
  table = refl;
  counter = refl;
  slots = refl;
  files = refl;
  scheduled = refl;
  running = λ t. refl;
}
put_all-Printing (c ∷ cs) k =
    let first = put-Printing k c in
    let rest = put_all-Printing cs (put k c) in
    record {
      table = rest.table;
      counter = rest.counter;
      slots = rest.slots;
      files = rest.files;
      scheduled = rest.scheduled ∙ first.scheduled;
      running = λ t. rest.running t ∙ first.running t;
    }

pub Printing-current : {k k' : Kernel} → Printing k k' → current k' ≡ current k
Printing-current {k} {k'} p =
    ap (λ t. (k'.console.terminal t).pcb) p.scheduled ∙ p.running k.console.curr_scheduler
