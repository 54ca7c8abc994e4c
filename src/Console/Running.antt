-- ===== src/Console/Running.antt =====
-- What the console's functions leave alone: which terminal is scheduled, and what each terminal runs.
use system_engineering.Base.{
  ℕ, ◌≡◌, refl, Arr, update, ◌==◌, inl, inr, Bool-cases, ==_iff, sym, ap, ◌∙◌,
}
use system_engineering.Console.{Console, Terminal, clear, clear_set, delete, swap_vid_mem, putc}
use system_engineering.Console.Pages.{putc-curr_scheduler, putc-pcb}

pub record SameRunning (c c' : Console) : Type 0 where
  pub scheduled : c'.curr_scheduler ≡ c.curr_scheduler
  pub running : (t : ℕ) → (c'.terminal t).pcb ≡ (c.terminal t).pcb

-- A terminal whose cursor moves.
update-running :
    (a : Arr Terminal) (i : ℕ) (x : Terminal)
    → x.pcb ≡ (a i).pcb
    → (t : ℕ) → (update a i x t).pcb ≡ (a t).pcb
update-running a i x same t = elim (Bool-cases (t == i)) [
  | inl here ↦ rw here (same ∙ ap (λ u. (a u).pcb) (sym ((==_iff t i).0 here)))
  | inr there ↦ rw there refl
]

pub putc-SameRunning : (c : Console) (x : ℕ) → SameRunning c (putc c x).0
putc-SameRunning c x = record { scheduled = putc-curr_scheduler c x; running = putc-pcb c x }

pub clear-SameRunning : (c : Console) → SameRunning c (clear c)
unfolding clear
clear-SameRunning c = record { scheduled = refl; running = λ t. refl }

pub clear_set-SameRunning : (c : Console) → SameRunning c (clear_set c).0
unfolding clear_set
clear_set-SameRunning c = record {
  scheduled = refl;
  running = update-running c.terminal c.current_terminal _ refl;
}

pub delete-SameRunning : (c : Console) → SameRunning c (delete c).0
unfolding delete
delete-SameRunning c = record {
  scheduled = refl;
  running = update-running c.terminal c.current_terminal _ refl;
}

pub swap_vid_mem-SameRunning : (c : Console) (t : ℕ) → SameRunning c (swap_vid_mem c t)
unfolding swap_vid_mem clear
swap_vid_mem-SameRunning c t = record { scheduled = refl; running = λ u. refl }
