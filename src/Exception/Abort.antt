-- ===== src/Exception/Abort.antt =====
-- How a program that raises an exception ends.
use system_engineering.Base.{
  ℕ, suc, ◌-◌, ◌≤◌, ◌<◌, true, length, [], ◌∷◌, ◌++◌, ◌≡◌, refl, sym, ◌∙◌, ap, arith, some, Arr,
  subst,
}
use system_engineering.Base.Int.{pos}
use system_engineering.Base.Text.{text}
use system_engineering.CString.Props.{no_nul}
use system_engineering.Kernel.{Kernel, Pcb, put_all, current}
use system_engineering.Print.{printf}
use system_engineering.Print.Text.{printf-string_line}
use system_engineering.Print.Frame.{Printing, put_all-Printing, Printing-current}
use system_engineering.Process.{returned, halt}
use system_engineering.Process.Halt.{Back, halt-Back}
use system_engineering.Exception.{
  Exception, de, db, nmi, bp, of, br, ud, nm, df, cso, ts, np, ss, gp, pf, mf, ac, mc, xf,
  exception, message, message_format,
}

-- A message is a text of fewer than 32 characters.
message_lem : (e : Exception) → (no_nul (message e) ≡ true) × (length (message e) < 32)
unfolding no_nul
message_lem de = (refl, omega arith)
message_lem db = (refl, omega arith)
message_lem nmi = (refl, omega arith)
message_lem bp = (refl, omega arith)
message_lem of = (refl, omega arith)
message_lem br = (refl, omega arith)
message_lem ud = (refl, omega arith)
message_lem nm = (refl, omega arith)
message_lem df = (refl, omega arith)
message_lem cso = (refl, omega arith)
message_lem ts = (refl, omega arith)
message_lem np = (refl, omega arith)
message_lem ss = (refl, omega arith)
message_lem gp = (refl, omega arith)
message_lem pf = (refl, omega arith)
message_lem mf = (refl, omega arith)
message_lem ac = (refl, omega arith)
message_lem mc = (refl, omega arith)
message_lem xf = (refl, omega arith)

-- The handler prints the message in its quotes and a line break, and halts the process.
pub exception-halt :
    (e : Exception) (k : Kernel) (fuel : ℕ)
    → 32 ≤ fuel
    → exception fuel e k
      ≡ some (halt fuel (record (put_all k (message e ++ (10 ∷ []))) { global_halt = 1 }) 1)
unfolding exception
exception-halt e k fuel enough =
    let (clean, short) = message_lem e in
    let rounds : suc (suc (suc (suc (fuel - 4)))) ≡ fuel = omega arith in
    let printed =
      subst
        (λ f.
          printf f (text (message e)) (λ i. 0) k.stack k message_format
          ≡ some (put_all k (message e ++ (10 ∷ [])), 3))
        rounds (printf-string_line k (message e) (fuel - 4) clean (omega arith)) in
    rw (exception, printed) refl

-- The halt of the handler, from any kernel that printing leaves.
module _ (k shown : Kernel) (p q fuel : ℕ) (same : Printing k shown) (run : current k ≡ some p)
    (pp : (k.pcbs p).parent_pid ≡ pos (k.pcbs q).pid) (pq : (k.pcbs p).parent_pcb ≡ some q) where
  thrown : Kernel
  thrown = record shown { global_halt = 1 }

  parent_pid_there : (shown.pcbs p).parent_pid ≡ pos (shown.pcbs q).pid
  parent_pid_there =
      ap (λ (s : Arr Pcb). (s p).parent_pid) same.slots
      ∙ pp
      ∙ sym (ap (λ (s : Arr Pcb). pos (s q).pid) same.slots)

  thrown-Back : (k' : Kernel) × (halt fuel thrown 1 ≡ returned k' (pos 256)) × Back shown k' p q
  unfolding thrown
  thrown-Back =
      let (k', done, b) =
        halt-Back thrown p q 1 (Printing-current same ∙ run) fuel parent_pid_there
          (ap (λ (s : Arr Pcb). (s p).parent_pcb) same.slots ∙ pq) in
      (
        k',
        done,
        record {
          table = b.table;
          counter = b.counter;
          running = b.running;
          directory = b.directory;
          stacked = b.stacked;
          frame = b.frame;
          slots = b.slots;
          scheduled = b.scheduled;
          others = b.others;
          screens = b.screens;
          cursors = b.cursors;
        },
      )

-- A program of process `p`, started by process `q`, that raises an exception: `execute` returns to `q`
-- with 256, with the pid of `p` free, on the page, the kernel stack and the frame of `q`, and with no other
-- slot changed. The memory of the screens and the cursors are those that `putc` of the message in its
-- quotes and of a line break leaves.
pub exception-Back :
    (e : Exception) (k : Kernel) (p q fuel : ℕ)
    → 32 ≤ fuel
    → current k ≡ some p
    → (k.pcbs p).parent_pid ≡ pos (k.pcbs q).pid
    → (k.pcbs p).parent_pcb ≡ some q
    → (k' : Kernel) × (exception fuel e k ≡ some (returned k' (pos 256)))
      × Back (put_all k (message e ++ (10 ∷ []))) k' p q
unfolding thrown
exception-Back e k p q fuel enough run pp pq =
    let line = message e ++ (10 ∷ []) in
    let (k', done, back) =
      thrown-Back k (put_all k line) p q fuel (put_all-Printing line k) run pp pq in
    (k', exception-halt e k fuel enough ∙ ap some done, back)
