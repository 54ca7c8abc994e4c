-- ===== src/Console/Pages.antt =====
-- Who writes on which page.
use system_engineering.Base.{
  [], ℕ, zero, suc, ◌+◌, ◌*◌, ◌^◌, ◌≤◌, ◌<◌, ◌≢◌, ◌==◌, ltb, if◌then◌else◌, Mem, update_ne,
  update_self, subst, ◌≡◌, ◌⊎◌, inl, inr, refl, ap, ==_iff, ◌∙◌, arith, Bool-cases, ltb→lt, ==_refl,
  ==_of_ne, sym,
}
use system_engineering.Console.{
  Console, Terminal, Pen, putc, put_char, video_mem, vid_page, swap_vid_mem, clear, clear_loop,
}
use system_engineering.Console.Cursor.{Printed, put_char-Printed}
use system_engineering.Memory.{memcpy}
use system_engineering.Memory.Copies.{copied, memcpy-copied}

-- Every cursor is on its page, and both terminal numbers name a terminal.
pub record IsSane (s : Console) : Type 0 where
  pub cursors : (t : ℕ) → t < 3 → 80 * (s.terminal t).screen_y + (s.terminal t).screen_x < 2000
  pub current : s.current_terminal < 3
  pub scheduled : s.curr_scheduler < 3

-- The page that `putc` prints on, and its pen.
abbrev pub printed_page : Console → ℕ
printed_page s =
    if s.curr_scheduler == s.current_terminal then video_mem else vid_page s.curr_scheduler

abbrev pub pen : Console → Pen
pen s =
    let t = s.terminal s.curr_scheduler in record { ink = s.memory; x = t.screen_x; y = t.screen_y }

printed_page-low : (s : Console) → s.curr_scheduler < 3 → printed_page s + 4000 < 2 ^ 32
printed_page-low s h = ground arith

page_above : (t u a : ℕ) {page : ℕ} → t < u → page ≡ vid_page t → page + 4000 ≤ vid_page u + a
page_above t u a h e = omega arith

module _ (s : Console) (c : ℕ) (v : IsSane s) where
  putc-Printed : Printed (printed_page s) c (pen s) (put_char (printed_page s) c (pen s))
  putc-Printed =
      put_char-Printed (printed_page s) c (pen s) (printed_page-low s v.scheduled)
        (v.cursors s.curr_scheduler v.scheduled)

  -- `putc` prints on the page and with the cursor of the terminal that is scheduled.
  pub putc-pen : Printed (printed_page s) c (pen s) (pen (putc s c).0)
  unfolding putc
  putc-pen =
      let after : pen (putc s c).0 ≡ put_char (printed_page s) c (pen s) =
        ap
          (λ (t : Terminal).
            let p : Pen = record { ink = (putc s c).0.memory; x = t.screen_x; y = t.screen_y } in p)
          (update_self s.terminal s.curr_scheduler _) in
      subst (Printed (printed_page s) c (pen s)) (sym after) putc-Printed

  -- `putc` keeps every cursor on its page.
  pub putc-IsSane : IsSane (putc s c).0
  unfolding putc
  putc-IsSane = record {
    cursors = λ t h. elim (Bool-cases (t == s.curr_scheduler)) [
      | inl here ↦ rw here putc-Printed.on_page
      | inr other ↦ rw other (v.cursors t h)
    ];
    current = v.current;
    scheduled = v.scheduled;
  }

  -- `putc` of a process in the background, with every cursor on its page, prints on the page of its own
  -- terminal, at its own cursor: a line break starts a row, any other character stands with its attribute
  -- in the cell before the new cursor, which has gone on by one cell, or to the last row when the page is
  -- scrolled. The visible screen, the pages of the other terminals and their cursors stay, and the
  -- hardware cursor does not move.
  pub putc-background :
      s.curr_scheduler ≢ s.current_terminal
      → Printed (vid_page s.curr_scheduler) c (pen s) (pen (putc s c).0)
        × ((a : ℕ) → video_mem ≤ a → a < video_mem + 4000 → (putc s c).0.memory a ≡ s.memory a)
        × ((t a : ℕ)
            → t < 3
            → t ≢ s.curr_scheduler
            → a < 4000
            → (putc s c).0.memory (vid_page t + a) ≡ s.memory (vid_page t + a))
        × ((t : ℕ) → t ≢ s.curr_scheduler → (putc s c).0.terminal t ≡ s.terminal t)
        × ((putc s c).1 ≡ [])
  unfolding putc
  putc-background ne =
      let there : printed_page s ≡ vid_page s.curr_scheduler = rw (==_of_ne _ _ ne) in
      let same = putc-Printed.frame in
      (
        subst (λ page. Printed page c (pen s) (pen (putc s c).0)) there putc-pen,
        (λ a lo hi. same a (inl (omega (arith, there)))),
        (λ t a h other small. elim (Bool-cases (ltb t s.curr_scheduler)) [
          | inl below ↦ same _ (inl (omega (arith, there, ltb→lt t s.curr_scheduler below)))
          | inr above ↦ same _ (inr (page_above s.curr_scheduler t a (ground arith) there))
        ]),
        (λ t other. update_ne s.terminal s.curr_scheduler _ t other),
        rw (==_of_ne _ _ ne),
      )

clear_loop-frame :
    (k i : ℕ) (m : Mem) (a : ℕ)
    → i + k ≤ 2000
    → (a < video_mem) ⊎ (video_mem + 4000 ≤ a)
    → clear_loop k i m a ≡ m a
unfolding clear_loop
clear_loop-frame zero i m a h out = refl
clear_loop-frame (suc k) i m a h out =
    clear_loop-frame k (i + 1) _ a (omega arith) out ∙ ground arith

clear-frame :
    (s : Console) (a : ℕ)
    → (a < video_mem) ⊎ (video_mem + 4000 ≤ a)
    → (clear s).memory a ≡ s.memory a
unfolding clear
clear-frame s a out = clear_loop-frame 2000 0 s.memory a (omega arith) out

copied_page :
    (m : Mem) (t u a : ℕ)
    → a < 4096
    → copied m (vid_page t) video_mem 4096 (vid_page u + a)
      ≡ (if u == t then m (video_mem + a) else m (vid_page u + a))
copied_page m t u a h = ground arith

copied_shown :
    (m : Mem) (page a : ℕ) → a < 4096 → copied m video_mem page 4096 (video_mem + a) ≡ m (page + a)
copied_shown m page a h = ground arith

copied_above : (m : Mem) (page b : ℕ) → video_mem + 4096 ≤ b → copied m video_mem page 4096 b ≡ m b
copied_above m page b h = ground arith

-- The console that `swap_vid_mem` leaves before it shows the new page.
abbrev saved : Console → Console
saved s = clear (record s { memory = memcpy (vid_page s.current_terminal) video_mem 4096 s.memory })

module _ (s : Console) where
  saved_lem :
      (a : ℕ)
      → video_mem + 4096 ≤ a
      → (saved s).memory a ≡ copied s.memory (vid_page s.current_terminal) video_mem 4096 a
  saved_lem a h =
      clear-frame _ a (inr (omega arith))
      ∙ memcpy-copied (vid_page s.current_terminal) video_mem 4096 s.memory a (inr (omega arith))

  saved_page :
      (u a : ℕ)
      → a < 4096
      → (saved s).memory (vid_page u + a)
        ≡ (if u == s.current_terminal then s.memory (video_mem + a) else s.memory (vid_page u + a))
  saved_page u a h =
      saved_lem (vid_page u + a) (omega arith) ∙ copied_page s.memory s.current_terminal u a h

  swap_lem :
      (t a : ℕ)
      → (swap_vid_mem s t).memory a ≡ copied (saved s).memory video_mem (vid_page t) 4096 a
  unfolding swap_vid_mem
  swap_lem t a = memcpy-copied video_mem (vid_page t) 4096 (saved s).memory a (inl (omega arith))

  -- `swap_vid_mem` saves the screen on the page of the terminal that was visible, shows the page of the
  -- new one (the screen stays if they are the same), and leaves the page of every other terminal.
  swap_vid_mem-pages :
      (t a : ℕ)
      → a < 4096
      → ((swap_vid_mem s t).memory (video_mem + a) ≡ (
          if t == s.current_terminal then s.memory (video_mem + a) else s.memory (vid_page t + a)))
        × ((swap_vid_mem s t).memory (vid_page s.current_terminal + a) ≡ s.memory (video_mem + a))
        × ((u : ℕ)
            → u ≢ s.current_terminal
            → (swap_vid_mem s t).memory (vid_page u + a) ≡ s.memory (vid_page u + a))
  swap_vid_mem-pages t a h = (
    swap_lem t (video_mem + a) ∙ copied_shown (saved s).memory (vid_page t) a h ∙ saved_page t a h,
    swap_lem t (vid_page s.current_terminal + a)
        ∙ copied_above (saved s).memory (vid_page t) _ (omega arith)
        ∙ saved_page s.current_terminal a h
        ∙ rw (==_refl s.current_terminal),
    λ u ne.
        swap_lem t (vid_page u + a)
        ∙ copied_above (saved s).memory (vid_page t) _ (omega arith)
        ∙ saved_page u a h
        ∙ rw (==_of_ne _ _ ne),
  )

-- Switching to another terminal and back shows the screen as it was.
pub swap_vid_mem-back :
    (s : Console) (t a : ℕ)
    → t ≢ s.current_terminal
    → a < 4096
    → (swap_vid_mem (record (swap_vid_mem s t) { current_terminal = t }) s.current_terminal).memory
        (video_mem + a)
      ≡ s.memory (video_mem + a)
swap_vid_mem-back s t a ne h =
    let there = record (swap_vid_mem s t) { current_terminal = t } in
    let cur = s.current_terminal in
    (swap_vid_mem-pages there cur a h).0
    ∙ rw (==_of_ne cur t (λ e. ne (sym e))) (swap_vid_mem-pages s t a h).1

-- Printing changes neither which terminal is scheduled nor what a terminal runs.
pub putc-curr_scheduler : (s : Console) (c : ℕ) → (putc s c).0.curr_scheduler ≡ s.curr_scheduler
unfolding putc
putc-curr_scheduler s c = refl

pub putc-pcb : (s : Console) (c t : ℕ) → ((putc s c).0.terminal t).pcb ≡ (s.terminal t).pcb
unfolding putc
putc-pcb s c t = elim (Bool-cases (t == s.curr_scheduler)) [
  | inl here ↦ rw here (ap (λ i. (s.terminal i).pcb) (sym ((==_iff t s.curr_scheduler).0 here)))
  | inr other ↦ rw other refl
]
