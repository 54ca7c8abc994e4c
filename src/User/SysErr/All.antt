-- ===== src/User/SysErr/All.antt =====
-- All the tests in turn.
use system_engineering.Base.{ℕ, ◌<◌, [], ◌∷◌, ◌++◌, Option, none, some, Mem, ◌≡◌, refl, arith}
use system_engineering.Base.Int.{ℤ}
use system_engineering.Base.Text.{codes, text}
use system_engineering.CString.Props.{no_nul}
use system_engineering.FileSys.{FileSys, Dentry, read_dentry_by_name}
use system_engineering.Kernel.{Kernel}
use system_engineering.User.OnKernel.{kernel_calls}
use system_engineering.User.SysErr.{add_test, run_all, kernel_vidmap, system_call}
use system_engineering.User.SysErr.Lemmas.{Tester, Passed, Passed-of, tell-Passed, then_test-some}
use system_engineering.User.SysErr.Passes.{
  err_neg_fd-Passed, err_big_fd-Passed, err_open-Passed, err_vidmap-Passed, err_stdin_out-Passed,
  err_syscall_num-Passed,
}
use system_engineering.User.SysErr.Opens.{err_open_lots-Passed}
use system_engineering.User.SysErr.Unopened.{err_unopened-Passed}

-- What the tests need of the file system.
pub record TestFiles (fs : FileSys) : Type 0 where
  pub no_helloo : read_dentry_by_name fs (text (codes "helloo")) ≡ none
  pub no_shel : read_dentry_by_name fs (text (codes "shel")) ≡ none
  pub here : Dentry
  pub found : read_dentry_by_name fs (text (codes ".")) ≡ some here
  pub kind : here.file_type ≡ 1

module _ (wait : Kernel → Kernel) (run : Kernel → Mem → Option (Kernel × ℤ)) (table : ℕ)
    (dispatch : Kernel → ℕ → Option (Kernel × ℤ)) (fuel : ℕ) (enough : 64 < fuel) (fs : FileSys)
    (p : ℕ) where
  add-Passed :
      {t : Option (Kernel × ℕ)} (next : Kernel → ℕ → Option (Kernel × ℕ))
      → (h : Passed fs p t) → Passed fs p (next h.after 0)
      → Passed fs p (
          add_test
            (kernel_calls wait run)
            (kernel_vidmap table)
            (system_call dispatch)
            fuel
            t
            0
            next)
  unfolding add_test
  add-Passed next h rest = Passed-of (then_test-some _ _ _ _ _ enough _ h.passes) rest

  -- The kernel passes the tests that the system calls come with: run by a process whose descriptors 0 and
  -- 1 are the terminal's and whose others are closed, on a file system with a directory "." and without
  -- files "helloo" and "shel", with fuel for the messages, the eight tests of bad descriptors, too many
  -- opens, unknown names, unopened descriptors, bad pointers, the wrong direction of the terminal and
  -- unknown call numbers all return 0. The same process runs then, on the same file system, its descriptors
  -- 0 and 1 are open to the terminal as before, and the others are closed.
  pub run_all-Passed :
      (k : Kernel) (locals : Mem)
      → Tester fs k p
      → TestFiles fs
      → Passed fs p (
          run_all
            (kernel_calls wait run)
            (kernel_vidmap table)
            (system_call dispatch)
            fuel
            k
            locals)
  unfolding run_all no_nul
  run_all-Passed k locals t f =
      let t1 = err_neg_fd-Passed wait run table dispatch fuel enough fs p k locals t in
      let t2 =
        err_big_fd-Passed wait run table dispatch fuel enough fs p t1.after locals t1.ready in
      let t3 =
        err_open_lots-Passed wait run table dispatch fuel enough fs p t2.after t2.ready f.here
          f.found f.kind in
      let t4 =
        err_open-Passed wait run table dispatch fuel enough fs p t3.after t3.ready f.no_helloo
          f.no_shel in
      let t5 =
        err_unopened-Passed wait run table dispatch fuel enough fs p t4.after t4.ready locals in
      let t6 = err_vidmap-Passed wait run table dispatch fuel enough fs p t5.after t5.ready in
      let t7 =
        err_stdin_out-Passed wait run table dispatch fuel enough fs p t6.after locals t6.ready in
      let t8 = err_syscall_num-Passed wait run table dispatch fuel enough fs p t7.after t7.ready in
      add-Passed _ t1 (
        add-Passed _ t2 (
          add-Passed _ t3 (
            add-Passed _ t4 (
              add-Passed _ t5 (
                add-Passed _ t6 (
                  add-Passed _ t7 (
                    add-Passed _ t8 (
                      tell-Passed _ _ _ _ _ enough (10 ∷ codes "Overall Tests: PASS" ++ (10 ∷ []))
                        refl (omega arith) t8.ready))))))))
