-- ===== src/Scheduler/Screen.antt =====
-- What the program that runs sees of its screen: the entry 0 of the table of the video memory, which a
-- tick and a switch of the terminals set.
use system_engineering.Base.{
  ℕ, zero, suc, ◌*◌, ◌/◌, ◌%◌, ◌<◌, ◌==◌, if◌then◌else◌, ◌≡◌, refl, ◌∙◌, ap, subst, sym, arith,
  Bool, true, false, Bool-cases, inl, inr, bit_or, some, none, Option,
}
use system_engineering.Console.{vid_page, putc}
use system_engineering.Console.Cursor.{Printed}
use system_engineering.Console.Pages.{IsSane, pen, printed_page, putc-pen}
use system_engineering.Kernel.{Kernel, current, emit}
use system_engineering.Pic.{send_eoi}
use system_engineering.Process.{Outcome, returned, started, fault, execute, shell}
use system_engineering.Scheduler.{
  Tick, resumed, launched, crashed, scheduler, schedule, next_terminal, switch_to, launch,
  shown_entry, terminal_switch,
}

-- The address of the page that an entry of a page table names.
abbrev pub frame_address : (entry : ℕ) → ℕ
frame_address entry = entry / 4096 * 4096

-- Entry 0 is present, open to programs and writable, and names the page that `putc` prints on.
pub record ShowsScreen (k : Kernel) : Type 0 where
  pub flags : k.page_table_video 0 % 4096 ≡ 7
  pub page : frame_address (k.page_table_video 0) ≡ printed_page k.console

-- The switches: a tick that resumes a process, and a new visible terminal.
pub data Switches (k : Kernel) : Kernel → Type 0 where
  by_tick : (fuel : ℕ) (k' : Kernel) → scheduler fuel k ≡ resumed k' → Switches k k'
  by_key : (t : ℕ) → Switches k (terminal_switch k t)

vid_page-entry :
    (t : ℕ)
    → t < 3
    → (bit_or (vid_page t) 7 % 4096 ≡ 7) × (frame_address (bit_or (vid_page t) 7) ≡ vid_page t)
vid_page-entry zero lt = (refl, refl)
vid_page-entry (suc zero) lt = (refl, refl)
vid_page-entry (suc (suc zero)) lt = (refl, refl)
vid_page-entry (suc (suc (suc t))) lt = absurd (omega arith)

shown_entry-page :
    (k : Kernel)
    → k.console.curr_scheduler < 3
    → (shown_entry k % 4096 ≡ 7) × (frame_address (shown_entry k) ≡ printed_page k.console)
shown_entry-page k lt = elim (Bool-cases (k.console.curr_scheduler == k.console.current_terminal)) [
  | inl seen ↦ rw seen (refl, refl)
  | inr hidden ↦ rw hidden (vid_page-entry k.console.curr_scheduler lt)
]

-- A kernel whose entry is that of another with the same terminals.
entry-ShowsScreen :
    (k k' : Kernel)
    → k'.page_table_video 0 ≡ shown_entry k
    → k'.console ≡ k.console
    → k'.console.curr_scheduler < 3
    → ShowsScreen k'
entry-ShowsScreen k k' e same lt =
    let (flags, page) = shown_entry-page k (subst (λ c. c.curr_scheduler < 3) same lt) in
    record {
      flags = ap (λ x. x % 4096) e ∙ flags;
      page = ap frame_address e ∙ page ∙ ap printed_page (sym same);
    }

switch_to-ShowsScreen :
    (k : Kernel) (p : ℕ) → k.console.curr_scheduler < 3 → ShowsScreen (switch_to k p)
unfolding switch_to
switch_to-ShowsScreen k p lt = entry-ShowsScreen k (switch_to k p) refl refl lt

outcome-not_resumed :
    (o : Outcome) (k' : Kernel)
    → ◌≡◌ {A = Tick}
        (elim o [
          | returned k1 code ↦ crashed
          | started k1 entry ↦ launched k1 entry
          | fault ↦ crashed
        ])
        (resumed k')
    → ShowsScreen k'
outcome-not_resumed (returned k1 code) k' e = cc
outcome-not_resumed (started k1 entry) k' e = cc
outcome-not_resumed fault k' e = cc

launch-not_resumed : (fuel : ℕ) (k k' : Kernel) → launch fuel k ≡ resumed k' → ShowsScreen k'
unfolding launch
launch-not_resumed fuel k k' e = outcome-not_resumed (execute fuel k (some shell)) k' e

next-ShowsScreen :
    (fuel : ℕ) (next idle : Kernel) (o : Option ℕ) (k' : Kernel)
    → ◌≡◌ {A = Tick}
        (elim o [ none ↦ launch fuel idle | some q ↦ resumed (switch_to next q) ])
        (resumed k')
    → k'.console.curr_scheduler < 3
    → ShowsScreen k'
unfolding switch_to
next-ShowsScreen fuel next idle none k' e lt = launch-not_resumed fuel idle k' e
next-ShowsScreen fuel next idle (some q) k' e lt =
    let same : switch_to next q ≡ k' = cc in
    subst ShowsScreen same
      (switch_to-ShowsScreen next q (subst (λ x. x.console.curr_scheduler < 3) (sym same) lt))

schedule-ShowsScreen :
    (fuel : ℕ) (k : Kernel) (p : ℕ) (k' : Kernel)
    → schedule fuel k p ≡ resumed k'
    → k'.console.curr_scheduler < 3
    → ShowsScreen k'
unfolding schedule
schedule-ShowsScreen fuel k p k' e lt =
    let next = next_terminal k p in
    next-ShowsScreen fuel next (record next { interrupts = true }) (current next) k' e lt

first-ShowsScreen :
    (fuel : ℕ) (off idle : Kernel) (o : Option ℕ) (first : Bool) (k' : Kernel)
    → ◌≡◌ {A = Tick}
        (elim o [
          | some p ↦ schedule fuel off p
          | none ↦ if first then launch fuel idle else crashed
        ])
        (resumed k')
    → k'.console.curr_scheduler < 3
    → ShowsScreen k'
first-ShowsScreen fuel off idle (some p) first k' e lt = schedule-ShowsScreen fuel off p k' e lt
first-ShowsScreen fuel off idle none true k' e lt = launch-not_resumed fuel idle k' e
first-ShowsScreen fuel off idle none false k' e lt = cc

scheduler-ShowsScreen :
    (fuel : ℕ) (k k' : Kernel)
    → scheduler fuel k ≡ resumed k'
    → k'.console.curr_scheduler < 3
    → ShowsScreen k'
unfolding scheduler
scheduler-ShowsScreen fuel k k' e lt =
    let off = record (emit k (send_eoi 0)) { interrupts = false } in
    first-ShowsScreen fuel off _ (current off) (off.console.curr_scheduler == 0) k' e lt

Switches-ShowsScreen :
    {k k' : Kernel} → Switches k k' → k'.console.curr_scheduler < 3 → ShowsScreen k'
unfolding terminal_switch
Switches-ShowsScreen (by_tick fuel k' e) lt = scheduler-ShowsScreen fuel _ k' e lt
Switches-ShowsScreen {k} (by_key t) lt =
    entry-ShowsScreen (record k { console = (terminal_switch k t).console }) (terminal_switch k t)
      refl refl lt

-- After a tick that resumes a process, and after a switch of the visible terminal, when every cursor is on
-- its page and the terminal that is scheduled is one of the three, entry 0 of the table of the video
-- memory, the entry that shows the running program its screen is present, open to it and writable, and
-- the page that it names is the one on which `putc` prints each character for this program: what the
-- program stores through its screen and what it prints stand on the same page.
pub Switches-Shows :
    {k k' : Kernel}
    → Switches k k'
    → IsSane k'.console
    → (c : ℕ)
    → (k'.page_table_video 0 % 4096 ≡ 7)
      × Printed
          (frame_address (k'.page_table_video 0))
          c
          (pen k'.console)
          (pen (putc k'.console c).0)
Switches-Shows {k} {k'} s v c =
    let h = Switches-ShowsScreen s v.scheduled in
    (
      h.flags,
      subst (λ page. Printed page c (pen k'.console) (pen (putc k'.console c).0)) (sym h.page)
          (putc-pen k'.console c v),
    )
