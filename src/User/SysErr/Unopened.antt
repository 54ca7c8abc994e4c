-- ===== src/User/SysErr/Unopened.antt =====
-- The test of descriptors that are not open.
use system_engineering.Base.{
  ℕ, zero, suc, ◌+◌, ◌≤◌, ◌<◌, ltb, Option, some, Mem, ◌≡◌, refl, ap, ◌∙◌, arith, Bool-cases, inl,
  inr,
}
use system_engineering.Base.Int.{ℤ, pos}
use system_engineering.Base.Text.{codes}
use system_engineering.CString.Props.{no_nul}
use system_engineering.FileSys.{FileSys}
use system_engineering.Kernel.{Kernel}
use system_engineering.Process.{close}
use system_engineering.Syscall.{failure}
use system_engineering.Syscall.Errors.{read-shut, write-shut, close-outside, close-shut}
use system_engineering.User.OnKernel.{kernel_calls, with_buffer}
use system_engineering.User.SysErr.{
  close_each, read_each, write_each, err_unopened, kernel_vidmap, system_call,
}
use system_engineering.User.SysErr.Lemmas.{
  Tester, Passed, Passed-of, verdict-Passed, expect-fails, expect_read-fails, then_test-some,
}

module _ (wait : Kernel → Kernel) (run : Kernel → Mem → Option (Kernel × ℤ)) (table : ℕ)
    (dispatch : Kernel → ℕ → Option (Kernel × ℤ)) (fuel : ℕ) (enough : 64 < fuel) (fs : FileSys)
    (p : ℕ) (k : Kernel) (t : Tester fs k p) where
  close-unopened : (i : ℕ) → i ≤ 7 → close k (pos i) ≡ some (k, failure)
  close-unopened i le = elim (Bool-cases (ltb i 2)) [
    | inl standard ↦ close-outside k p t.runs i (ground arith)
    | inr other ↦ close-shut k p t.runs i (t.shut i (ground arith) le)
  ]

  close_each_lem :
      (r i fail : ℕ)
      → i + r ≤ 8
      → close_each
          (kernel_calls wait run)
          (kernel_vidmap table)
          (system_call dispatch)
          fuel
          r
          k
          i
          fail
        ≡ some (k, fail)
  unfolding close_each
  close_each_lem zero i fail le = refl
  close_each_lem (suc r) i fail le =
      expect-fails _ _ _ _ _ enough (codes "close unopened or invalid fd fail") fail _
        (close-unopened i (omega arith))
      ∙ close_each_lem r (i + 1) fail (omega arith)

  read_each_lem :
      (r i : ℕ) (buf : Mem) (fail : ℕ) (next : Kernel → Mem → ℕ → Option (Kernel × ℕ))
      → 2 ≤ i
      → i + r ≤ 8
      → read_each
          (kernel_calls wait run)
          (kernel_vidmap table)
          (system_call dispatch)
          fuel
          r
          k
          i
          buf
          fail
          next
        ≡ next k buf fail
  unfolding read_each
  read_each_lem zero i buf fail next lo le = refl
  read_each_lem (suc r) i buf fail next lo le =
      expect_read-fails _ _ _ _ _ enough (codes "read from unopened fd fail") fail _ (
        ap with_buffer
          (read-shut wait k buf 31 p i t.runs (omega arith) (t.shut i lo (omega arith))))
      ∙ read_each_lem r (i + 1) buf fail next (omega arith) (omega arith)

  write_each_lem :
      (r i : ℕ) (buf : Mem) (fail : ℕ)
      → 2 ≤ i
      → i + r ≤ 8
      → write_each
          (kernel_calls wait run)
          (kernel_vidmap table)
          (system_call dispatch)
          fuel
          r
          k
          i
          buf
          fail
        ≡ some (k, fail)
  unfolding write_each
  write_each_lem zero i buf fail lo le = refl
  write_each_lem (suc r) i buf fail lo le =
      expect-fails _ _ _ _ _ enough (codes "write to unopened fd fail") fail _
        (write-shut wait k buf 31 p i t.runs (omega arith) (t.shut i lo (omega arith)))
      ∙ write_each_lem r (i + 1) buf fail (omega arith) (omega arith)

  pub err_unopened-Passed :
      (locals : Mem)
      → Passed fs p (
          err_unopened
            (kernel_calls wait run)
            (kernel_vidmap table)
            (system_call dispatch)
            fuel
            k
            locals)
  unfolding err_unopened no_nul
  err_unopened-Passed locals =
      Passed-of
        (then_test-some _ _ _ _ _ enough _ (close_each_lem 8 0 0 (omega arith))
          ∙ read_each_lem 6 2 locals 0 _ (omega arith) (omega arith)
          ∙ then_test-some _ _ _ _ _ enough _
              (write_each_lem 6 2 locals 0 (omega arith) (omega arith)))
        (verdict-Passed _ _ _ _ _ enough (codes "err_unopened") refl (omega arith) t)
