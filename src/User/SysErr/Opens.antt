-- ===== src/User/SysErr/Opens.antt =====
-- The test that opens a directory more often than there are descriptors.
use system_engineering.Base.{
  ℕ, zero, suc, ◌+◌, ◌≤◌, ◌<◌, ◌≢◌, ◌==◌, ◌&&◌, leb, ltb, false, [], ◌∷◌, ◌++◌, Option, some,
  if◌then◌else◌, Mem, ◌≡◌, refl, ap, ◌∙◌, arith, Bool-cases, inl, inr,
}
use system_engineering.Base.Int.{ℤ, pos}
use system_engineering.Base.Text.{codes, text}
use system_engineering.CString.Props.{no_nul}
use system_engineering.FileSys.{FileSys, Dentry, read_dentry_by_name}
use system_engineering.Kernel.{Kernel, FileDescriptor, current, set_descriptor}
use system_engineering.Syscall.Errors.{descriptor}
use system_engineering.Syscall.Opens.{directory, open_file-directory, open_file-full}
use system_engineering.Syscall.Files.{close-in_use, set_descriptor-descriptor}
use system_engineering.User.OnKernel.{kernel_calls}
use system_engineering.User.Programs.{failed}
use system_engineering.User.SysErr.{
  open_lots, close_lots, err_open_lots, tell, kernel_vidmap, system_call,
}
use system_engineering.User.SysErr.Lemmas.{Tester, Passed, Passed-of, tell-Passed}

-- Process `p` of `k` is as in `k0`, but for the descriptors from `lo` up to `hi`, which alone of those
-- from 2 on are open.
record Half (k0 k : Kernel) (p lo hi : ℕ) : Type 0 where
  runs : current k ≡ some p
  files : k.fs ≡ k0.fs
  standard : (i : ℕ) → i < 2 → descriptor k p i ≡ descriptor k0 p i
  flags :
      (i : ℕ) → 2 ≤ i → i ≤ 7 → (descriptor k p i).flags ≡ (if leb lo i && ltb i hi then 1 else 0)

Half-set :
    {k0 k : Kernel} {p lo hi lo' hi' : ℕ} (fd : ℕ) (f : FileDescriptor)
    → 2 ≤ fd
    → f.flags ≡ (if leb lo' fd && ltb fd hi' then 1 else 0)
    → ((i : ℕ) → 2 ≤ i → i ≤ 7 → i ≢ fd → (leb lo i && ltb i hi) ≡ (leb lo' i && ltb i hi'))
    → Half k0 k p lo hi
    → Half k0 (set_descriptor k p fd f) p lo' hi'
Half-set {k0} {k} {p} fd f lo own others h = record {
  runs = h.runs;
  files = h.files;
  standard = λ i lt. set_descriptor-descriptor k p fd f i ∙ ground (arith, h.standard i lt);
  flags = λ i le hi. elim (Bool-cases (i == fd)) [
    | inl here ↦
        ap (λ (x : FileDescriptor). x.flags) (set_descriptor-descriptor k p fd f i)
        ∙ ground (arith, own)
    | inr there ↦
        ap (λ (x : FileDescriptor). x.flags) (set_descriptor-descriptor k p fd f i)
        ∙ ground (arith, h.flags i le hi, others i le hi)
  ];
}

module _ (wait : Kernel → Kernel) (run : Kernel → Mem → Option (Kernel × ℤ)) (table : ℕ)
    (dispatch : Kernel → ℕ → Option (Kernel × ℤ)) (fuel : ℕ) (enough : 64 < fuel) (fs : FileSys)
    (p : ℕ) (k0 : Kernel) (t : Tester fs k0 p) where
  begin_opens : Half k0 k0 p 2 2
  begin_opens = record {
    runs = t.runs;
    files = refl;
    standard = λ i lt. refl;
    flags = λ i lo hi. ground (arith, t.shut i lo hi);
  }

  -- Once all are closed again.
  ended : (k : Kernel) → Half k0 k p 8 8 → Tester fs k p
  ended k h = record {
    runs = h.runs;
    files = h.files ∙ t.files;
    stdin_open = ap (λ d. d.flags) (h.standard 0 (omega arith)) ∙ t.stdin_open;
    stdin_write = ap (λ d. d.pointer.write_op) (h.standard 0 (omega arith)) ∙ t.stdin_write;
    stdout_open = ap (λ d. d.flags) (h.standard 1 (omega arith)) ∙ t.stdout_open;
    stdout_write = ap (λ d. d.pointer.write_op) (h.standard 1 (omega arith)) ∙ t.stdout_write;
    stdout_read = ap (λ d. d.pointer.read_op) (h.standard 1 (omega arith)) ∙ t.stdout_read;
    shut = λ i lo hi. ground (arith, h.flags i lo hi);
  }

  close_lots_lem :
      (r n : ℕ) (k : Kernel)
      → 2 ≤ n
      → n + r ≡ 8
      → Half k0 k p n 8
      → (k' : Kernel) × (close_lots
            (kernel_calls wait run)
            (kernel_vidmap table)
            (system_call dispatch)
            fuel
            r
            k
            n
          ≡ some k')
        × Half k0 k' p 8 8
  unfolding close_lots
  close_lots_lem zero n k lo e h = (
    k,
    refl,
    record {
      runs = h.runs;
      files = h.files;
      standard = h.standard;
      flags = λ i le hi. ground (arith, h.flags i le hi);
    },
  )
  close_lots_lem (suc r) n k lo e h =
      let used : (descriptor k p n).flags ≡ 1 = ground (arith, h.flags n) in
      let closes = close-in_use k p n h.runs lo (omega arith) used in
      let shut = record (descriptor k p n) { inode = 0; file_position = 0; flags = 0 } in
      let next : Half k0 (set_descriptor k p n shut) p (n + 1) 8 =
        Half-set n shut lo (ground arith) (λ i le hi ne. ground arith) h in
      let (k', done, all) =
        close_lots_lem r (n + 1) (set_descriptor k p n shut) (omega arith) (omega arith) next in
      (k', rw (close_lots, closes) done, all)

  module _ (d : Dentry) (found : read_dentry_by_name fs (text (codes ".")) ≡ some d)
      (kind : d.file_type ≡ 1) where
    open_lots_lem :
        (r n : ℕ) (k : Kernel) (cnt : ℕ)
        → 2 ≤ n
        → n + r ≡ 9
        → n ≤ 8
        → Half k0 k p 2 n
        → (k' : Kernel) × (open_lots
              (kernel_calls wait run)
              (kernel_vidmap table)
              (system_call dispatch)
              fuel
              r
              k
              cnt
            ≡ some (k', cnt + 1))
          × Half k0 k' p 2 8
    unfolding open_lots
    open_lots_lem zero n k cnt lo e le h = absurd (omega arith)
    open_lots_lem (suc r) n k cnt lo e le h = elim (Bool-cases (ltb n 8)) [
      | inl room ↦
          let opens =
            open_file-directory k p (text (codes ".")) d h.runs (λ z. ground arith)
              (ap (λ f. read_dentry_by_name f (text (codes "."))) (h.files ∙ t.files) ∙ found) n
              kind lo (ground arith) (ground (arith, h.flags n))
              (λ j lo' lt. ground (arith, h.flags j)) in
          let answered : failed (pos n) ≡ false = ground arith in
          let next : Half k0 (set_descriptor k p n directory) p 2 (n + 1) =
            Half-set n directory lo (ground arith) (λ i le' hi ne. ground arith) h in
          let (k', done, all) =
            open_lots_lem r (n + 1) (set_descriptor k p n directory) cnt (omega arith) (omega arith)
              (ground arith) next in
          (k', rw (open_lots, opens, answered) done, all)
      | inr full ↦
          let refused =
            open_file-full k p (text (codes ".")) d h.runs (λ z. ground arith)
              (ap (λ f. read_dentry_by_name f (text (codes "."))) (h.files ∙ t.files) ∙ found)
              (λ j lo' hi. ground (arith, h.flags j)) in
          let last : r ≡ 0 = ground arith in
          (
            k,
            rw (open_lots, refused) (rw last refl),
            record {
              runs = h.runs;
              files = h.files;
              standard = h.standard;
              flags = λ i lo' hi. ground (arith, h.flags i lo' hi);
            },
          )
    ]

    pub err_open_lots-Passed :
        Passed fs p (
          err_open_lots
            (kernel_calls wait run)
            (kernel_vidmap table)
            (system_call dispatch)
            fuel
            k0)
    unfolding err_open_lots no_nul
    err_open_lots-Passed =
        let (k1, opened, half) =
          open_lots_lem 7 2 k0 0 (omega arith) (omega arith) (omega arith) begin_opens in
        let (k2, closed, back) = close_lots_lem 6 2 k1 (omega arith) (omega arith) half in
        let message = codes "err_open_lots: PASS" ++ (10 ∷ []) in
        let chain : err_open_lots (kernel_calls wait run) (kernel_vidmap table)
              (system_call dispatch) fuel k0
            ≡ tell (kernel_calls wait run) (kernel_vidmap table) (system_call dispatch) fuel k2
                message 0 =
          rw (err_open_lots, opened) (rw closed refl) in
        Passed-of chain (tell-Passed _ _ _ _ _ enough message refl (omega arith) (ended k2 back))
