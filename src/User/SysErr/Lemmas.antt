-- ===== src/User/SysErr/Lemmas.antt =====
-- What the tests of the calls need of the kernel, and what they print.
use system_engineering.Base.{
  ℕ, ◌≤◌, ◌<◌, true, List, [], ◌∷◌, ◌++◌, length, Option, some, Mem, ◌≡◌, refl, ap, ◌∙◌, arith, Arr,
  update, update_self,
}
use system_engineering.Base.Int.{ℤ, pos}
use system_engineering.Base.Text.{codes, text}
use system_engineering.CString.Props.{no_nul, bytes_of-text}
use system_engineering.FileSys.{FileSys}
use system_engineering.Kernel.{
  Kernel, Pcb, set_descriptor, ReadHandler, WriteHandler, current, put_all,
}
use system_engineering.Print.Frame.{put_all-Printing, Printing-current}
use system_engineering.Syscall.{failure}
use system_engineering.Syscall.Blocks.{write-put_all}
use system_engineering.Syscall.Errors.{descriptor}
use system_engineering.User.OnKernel.{kernel_calls}
use system_engineering.User.Support.{ece391_fdputs}
use system_engineering.User.Support.Output.{fdputs-write}
use system_engineering.User.SysErr.{tell, expect_error, expect, expect_read, verdict, then_test}

-- Process `p` runs the tests: its two descriptors for the terminal are open and its others closed.
pub record Tester (fs : FileSys) (k : Kernel) (p : ℕ) : Type 0 where
  pub runs : current k ≡ some p
  pub files : k.fs ≡ fs
  pub stdin_open : (descriptor k p 0).flags ≡ 1
  pub stdin_write : (descriptor k p 0).pointer.write_op ≡ WriteHandler.invalid
  pub stdout_open : (descriptor k p 1).flags ≡ 1
  pub stdout_write : (descriptor k p 1).pointer.write_op ≡ WriteHandler.terminal
  pub stdout_read : (descriptor k p 1).pointer.read_op ≡ ReadHandler.invalid
  pub shut : (i : ℕ) → 2 ≤ i → i ≤ 7 → (descriptor k p i).flags ≡ 0

-- A kernel with the same process control blocks, files and current process.
pub Tester-same :
    {fs : FileSys} {k k' : Kernel} {p : ℕ}
    → k'.pcbs ≡ k.pcbs
    → k'.fs ≡ k.fs
    → current k' ≡ current k
    → Tester fs k p
    → Tester fs k' p
Tester-same {fs} {k} {k'} {p} slots files run t =
    let same : (fd : ℕ) → descriptor k' p fd ≡ descriptor k p fd =
      λ fd. ap (λ (s : Arr Pcb). (s p).file_descriptor fd) slots in
    record {
      runs = run ∙ t.runs;
      files = files ∙ t.files;
      stdin_open = ap (λ d. d.flags) (same 0) ∙ t.stdin_open;
      stdin_write = ap (λ d. d.pointer.write_op) (same 0) ∙ t.stdin_write;
      stdout_open = ap (λ d. d.flags) (same 1) ∙ t.stdout_open;
      stdout_write = ap (λ d. d.pointer.write_op) (same 1) ∙ t.stdout_write;
      stdout_read = ap (λ d. d.pointer.read_op) (same 1) ∙ t.stdout_read;
      shut = λ i lo hi. ap (λ d. d.flags) (same i) ∙ t.shut i lo hi;
    }

pub Tester-put_all :
    {fs : FileSys} {k : Kernel} {p : ℕ} → (cs : List ℕ) → Tester fs k p → Tester fs (put_all k cs) p
Tester-put_all {fs} {k} cs t =
    let p = put_all-Printing cs k in Tester-same p.slots p.files (Printing-current p) t

-- A position of standard output that has moved.
pub Tester-position :
    {fs : FileSys} {k : Kernel} {p : ℕ} (n : ℕ)
    → Tester fs k p
    → Tester fs (set_descriptor k p 1 (record (descriptor k p 1) { file_position = n })) p
Tester-position {fs} {k} {p} n t =
    let moved = record (descriptor k p 1) { file_position = n } in
    let descriptors : (fd : ℕ)
        → descriptor (set_descriptor k p 1 moved) p fd
          ≡ update (k.pcbs p).file_descriptor 1 moved fd =
      λ fd. ap (λ (x : Pcb). x.file_descriptor fd) (update_self k.pcbs p _) in
    record {
      runs = t.runs;
      files = t.files;
      stdin_open = ap (λ d. d.flags) (descriptors 0) ∙ t.stdin_open;
      stdin_write = ap (λ d. d.pointer.write_op) (descriptors 0) ∙ t.stdin_write;
      stdout_open = ap (λ d. d.flags) (descriptors 1) ∙ t.stdout_open;
      stdout_write = ap (λ d. d.pointer.write_op) (descriptors 1) ∙ t.stdout_write;
      stdout_read = ap (λ d. d.pointer.read_op) (descriptors 1) ∙ t.stdout_read;
      shut = λ i lo hi. ap (λ d. d.flags) (descriptors i) ∙ ground (arith, t.shut i);
    }

-- A test that passes, and lets the next one start as it did.
pub record Passed (fs : FileSys) (p : ℕ) (t : Option (Kernel × ℕ)) : Type 0 where
  pub after : Kernel
  pub passes : t ≡ some (after, 0)
  pub ready : Tester fs after p

-- The same test, computed further.
pub Passed-of :
    {fs : FileSys} {p : ℕ} {t t' : Option (Kernel × ℕ)} → t ≡ t' → Passed fs p t' → Passed fs p t
Passed-of e h = record { after = h.after; passes = e ∙ h.passes; ready = h.ready }

-- What a test prints that passes.
abbrev pub pass_line : List ℕ → List ℕ
pass_line name = name ++ codes ": PASS" ++ (10 ∷ [])

module _ (wait : Kernel → Kernel) (run : Kernel → Mem → Option (Kernel × ℤ))
    (vidmap : Kernel → ℕ → Option (Kernel × ℤ)) (call_sys : Kernel → ℤ → Option (Kernel × ℤ))
    (fuel : ℕ) (enough : 64 < fuel) where
  -- A call that fails as it is expected to.
  pub expect-fails :
      {r : Option (Kernel × ℤ)} {k : Kernel} (message : List ℕ) (fail : ℕ)
      (next : Kernel → ℕ → Option (Kernel × ℕ))
      → r ≡ some (k, failure)
      → expect (kernel_calls wait run) vidmap call_sys fuel r message fail next ≡ next k fail
  unfolding expect expect_error
  expect-fails message fail next e = rw e refl

  pub expect_read-fails :
      {r : Option (Kernel × Mem × ℤ)} {k : Kernel} {buf : Mem} (message : List ℕ) (fail : ℕ)
      (next : Kernel → Mem → ℕ → Option (Kernel × ℕ))
      → r ≡ some (k, buf, failure)
      → expect_read (kernel_calls wait run) vidmap call_sys fuel r message fail next
        ≡ next k buf fail
  unfolding expect_read expect_error
  expect_read-fails message fail next e = rw e refl

  pub then_test-some :
      {r : Option (Kernel × ℕ)} {k : Kernel} {fail : ℕ} (next : Kernel → ℕ → Option (Kernel × ℕ))
      → r ≡ some (k, fail)
      → then_test (kernel_calls wait run) vidmap call_sys fuel r next ≡ next k fail
  unfolding then_test
  then_test-some next e = rw e refl

  fdputs-put_all :
      {fs : FileSys} {k : Kernel} {p : ℕ} (cs : List ℕ)
      → no_nul cs ≡ true
      → length cs ≤ 64
      → Tester fs k p
      → ece391_fdputs (kernel_calls wait run) fuel k (pos 1) (text cs) ≡ some (put_all k cs)
  fdputs-put_all {fs} {k} {p} cs clean short t =
      fdputs-write (kernel_calls wait run) fuel k (pos 1) cs clean (omega arith) (
        write-put_all k p 1 (length cs) (text cs) t.runs (omega arith)
          (ground (arith, t.stdout_open)) t.stdout_write)
      ∙ ap (λ x. some (put_all k x))
          (bytes_of-text cs (text cs) 0 (λ j. ap (text cs) (omega arith)))

  pub tell-Passed :
      {fs : FileSys} {k : Kernel} {p : ℕ} (cs : List ℕ)
      → no_nul cs ≡ true
      → length cs ≤ 64
      → Tester fs k p
      → Passed fs p (tell (kernel_calls wait run) vidmap call_sys fuel k cs 0)
  unfolding tell
  tell-Passed {fs} {k} cs clean short t = record {
    after = put_all k cs;
    passes = rw (tell, fdputs-put_all cs clean short t) refl;
    ready = Tester-put_all cs t;
  }

  pub verdict-Passed :
      {fs : FileSys} {k : Kernel} {p : ℕ} (name : List ℕ)
      → no_nul (pass_line name) ≡ true
      → length (pass_line name) ≤ 64
      → Tester fs k p
      → Passed fs p (verdict (kernel_calls wait run) vidmap call_sys fuel name k 0)
  unfolding verdict
  verdict-Passed name clean short t = tell-Passed (pass_line name) clean short t
