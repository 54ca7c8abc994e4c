-- ===== src/User/SysErr/Passes.antt =====
-- The tests that only make calls that fail, on the kernel's calls.
use system_engineering.Base.{
  ℕ, ◌≤◌, ◌<◌, true, false, List, [], length, Option, none, some, Mem, ◌≡◌, refl, ap, ◌∙◌, arith,
}
use system_engineering.Base.Int.{ℤ, pos}
use system_engineering.Base.Text.{codes, text}
use system_engineering.CString.Props.{no_nul}
use system_engineering.FileSys.{FileSys, read_dentry_by_name}
use system_engineering.Kernel.{Kernel}
use system_engineering.Process.{close}
use system_engineering.Scheduler.Tables.{vidmap-refused}
use system_engineering.Syscall.{failure, read, write, open_file}
use system_engineering.Syscall.Errors.{
  read-negative, read-large, read-invalid, write-negative, write-large, write-invalid,
  close-negative, close-outside, open_file-empty, open_file-missing,
}
use system_engineering.User.OnKernel.{kernel_calls, with_buffer}
use system_engineering.User.SysErr.{
  neg_fd, big_fd, err_fd, err_neg_fd, err_big_fd, err_open, err_vidmap, err_stdin_out,
  err_syscall_num, kernel_vidmap, system_call,
}
use system_engineering.User.SysErr.Lemmas.{
  Tester, Tester-same, Tester-position, Passed, Passed-of, verdict-Passed, pass_line, expect-fails,
  expect_read-fails,
}

module _ (wait : Kernel → Kernel) (run : Kernel → Mem → Option (Kernel × ℤ)) (table : ℕ)
    (dispatch : Kernel → ℕ → Option (Kernel × ℤ)) (fuel : ℕ) (enough : 64 < fuel) (fs : FileSys)
    (p : ℕ) where
  err_fd-Passed :
      (name : List ℕ) (fd : ℤ) (k : Kernel) (locals : Mem)
      → Tester fs k p
      → no_nul (pass_line name) ≡ true
      → length (pass_line name) ≤ 64
      → read wait k fd (some locals) (pos 31) ≡ some (k, some locals, failure)
      → write k fd (some locals) (pos 31) ≡ some (k, failure)
      → close k fd ≡ some (k, failure)
      → Passed fs p (
          err_fd
            (kernel_calls wait run)
            (kernel_vidmap table)
            (system_call dispatch)
            fuel
            name
            fd
            k
            locals)
  unfolding err_fd
  err_fd-Passed name fd k locals t clean short no_read no_write no_close =
      Passed-of
        (expect_read-fails _ _ _ _ _ enough (codes "read fail") 0 _ (ap with_buffer no_read)
          ∙ expect-fails _ _ _ _ _ enough (codes "write fail") 0 _ no_write
          ∙ expect-fails _ _ _ _ _ enough (codes "close fail") 0 _ no_close)
        (verdict-Passed _ _ _ _ _ enough name clean short t)

  pub err_neg_fd-Passed :
      (k : Kernel) (locals : Mem)
      → Tester fs k p
      → Passed fs p (
          err_neg_fd
            (kernel_calls wait run)
            (kernel_vidmap table)
            (system_call dispatch)
            fuel
            k
            locals)
  unfolding err_neg_fd no_nul
  err_neg_fd-Passed k locals t =
      err_fd-Passed (codes "err_neg_fd") neg_fd k locals t refl (omega arith)
        (read-negative wait k locals 31 _) (write-negative wait k locals 31 _)
        (close-negative k p t.runs _)

  pub err_big_fd-Passed :
      (k : Kernel) (locals : Mem)
      → Tester fs k p
      → Passed fs p (
          err_big_fd
            (kernel_calls wait run)
            (kernel_vidmap table)
            (system_call dispatch)
            fuel
            k
            locals)
  unfolding err_big_fd no_nul
  err_big_fd-Passed k locals t =
      err_fd-Passed (codes "err_big_fd") big_fd k locals t refl (omega arith)
        (read-large wait k locals 31 1073741823 (omega arith))
        (write-large wait k locals 31 1073741823 (omega arith))
        (close-outside k p t.runs 1073741823 refl)

  -- A name that the file system does not have.
  open_missing :
      (k : Kernel) (name : List ℕ)
      → Tester fs k p
      → read_dentry_by_name fs (text name) ≡ none
      → open_file k (some (text name)) ≡ some (k, failure)
  open_missing k name t missing =
      open_file-missing k (text name)
        (ap (λ f. read_dentry_by_name f (text name)) t.files ∙ missing)

  pub err_open-Passed :
      (k : Kernel)
      → Tester fs k p
      → read_dentry_by_name fs (text (codes "helloo")) ≡ none
      → read_dentry_by_name fs (text (codes "shel")) ≡ none
      → Passed fs p
          (err_open (kernel_calls wait run) (kernel_vidmap table) (system_call dispatch) fuel k)
  unfolding err_open no_nul
  err_open-Passed k t no_helloo no_shel =
      Passed-of
        (expect-fails _ _ _ _ _ enough (codes "'helloo' fail") 0 _
            (open_missing k (codes "helloo") t no_helloo)
          ∙ expect-fails _ _ _ _ _ enough (codes "'shel' fail") 0 _
              (open_missing k (codes "shel") t no_shel)
          ∙ expect-fails _ _ _ _ _ enough (codes "empty string fail") 0 _
              (open_file-empty k (text []) refl))
        (verdict-Passed _ _ _ _ _ enough (codes "err_open") refl (omega arith) t)

  pub err_vidmap-Passed :
      (k : Kernel)
      → Tester fs k p
      → Passed fs p
          (err_vidmap (kernel_calls wait run) (kernel_vidmap table) (system_call dispatch) fuel k)
  unfolding err_vidmap no_nul
  err_vidmap-Passed k t =
      let off = record k { interrupts = false } in
      let as_call : Kernel × ℤ × Option ℕ → Option (Kernel × ℤ) = λ r. some (r.0, r.1) in
      Passed-of
        (expect-fails _ _ _ _ _ enough (codes "Null pointer fail") 0 _
            (ap as_call (vidmap-refused table k 0 refl))
          ∙ expect-fails _ _ _ _ _ enough (codes "Kernel pointer fail fail") 0 _
              (ap as_call (vidmap-refused table off 0x400000 refl)))
        (verdict-Passed _ _ _ _ _ enough (codes "err_vidmap") refl (omega arith)
          (Tester-same refl refl refl t))

  pub err_syscall_num-Passed :
      (k : Kernel)
      → Tester fs k p
      → Passed fs p (
          err_syscall_num
            (kernel_calls wait run)
            (kernel_vidmap table)
            (system_call dispatch)
            fuel
            k)
  unfolding err_syscall_num no_nul
  err_syscall_num-Passed k t =
      Passed-of
        (expect-fails _ _ _ _ _ enough (codes "syscall 0 fail") 0 _ refl
          ∙ expect-fails _ _ _ _ _ enough (codes "big num syscall fail") 0 _ refl
          ∙ expect-fails _ _ _ _ _ enough (codes "neg num syscall fail") 0 _ refl)
        (verdict-Passed _ _ _ _ _ enough (codes "err_syscall_num") refl (omega arith) t)

  pub err_stdin_out-Passed :
      (k : Kernel) (locals : Mem)
      → Tester fs k p
      → Passed fs p (
          err_stdin_out
            (kernel_calls wait run)
            (kernel_vidmap table)
            (system_call dispatch)
            fuel
            k
            locals)
  unfolding err_stdin_out no_nul
  err_stdin_out-Passed k locals t =
      Passed-of
        (expect-fails _ _ _ _ _ enough (codes "write to stdin fail") 0 _
            (write-invalid wait k locals 31 p 0 t.runs (omega arith) t.stdin_open t.stdin_write)
          ∙ expect_read-fails _ _ _ _ _ enough (codes "read from stdout fail") 0 _ (
              ap with_buffer (
                read-invalid wait k locals 31 p 1 t.runs (omega arith) t.stdout_open
                  t.stdout_read)))
        (verdict-Passed _ _ _ _ _ enough (codes "err_stdin_out") refl (omega arith)
          (Tester-position _ t))
