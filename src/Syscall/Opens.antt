-- ===== src/Syscall/Opens.antt =====
-- Opening a directory.
use system_engineering.Base.{
  ℕ, zero, suc, ◌+◌, ◌≤◌, ◌<◌, ◌≢◌, ◌==◌, ◌≡◌, refl, arith, Arr, Mem, some, none, ==_of_ne,
  Bool-cases, inl, inr,
}
use system_engineering.Base.Int.{pos}
use system_engineering.FileSys.{Dentry, read_dentry_by_name}
use system_engineering.Kernel.{Kernel, FileDescriptor, current, set_descriptor}
use system_engineering.Process.{init_fops_table}
use system_engineering.Syscall.{find_fd, opened, call_open, open_dentry, open_file, failure}
use system_engineering.Syscall.Errors.{descriptor}

-- The search finds the first descriptor that is not in use.
find_fd-first :
    (k : ℕ) (d : Arr FileDescriptor) (i m : ℕ)
    → i ≤ m
    → m < i + k
    → (d m).flags ≡ 0
    → ((j : ℕ) → i ≤ j → j < m → (d j).flags ≢ 0)
    → find_fd k d i ≡ some m
unfolding find_fd
find_fd-first zero d i m le lt free before = absurd (omega arith)
find_fd-first (suc k) d i m le lt free before = elim (Bool-cases (i == m)) [
  | inl here ↦ ground arith
  | inr later ↦
      let rest =
        find_fd-first k d (i + 1) m (ground arith) (omega arith) free
          (λ j p q. before j (omega arith) q) in
      rw (find_fd, ==_of_ne _ _ (before i (omega arith) (ground arith))) rest
]

find_fd-none :
    (k : ℕ) (d : Arr FileDescriptor) (i : ℕ)
    → ((j : ℕ) → i ≤ j → j < i + k → (d j).flags ≢ 0)
    → find_fd k d i ≡ none
unfolding find_fd
find_fd-none zero d i used = refl
find_fd-none (suc k) d i used =
    let rest = find_fd-none k d (i + 1) (λ j p q. used j (omega arith) (omega arith)) in
    rw (find_fd, ==_of_ne _ _ (used i (omega arith) (omega arith))) rest

-- The descriptor of a directory that was just opened.
abbrev pub directory : FileDescriptor
directory = record { pointer = init_fops_table.dir_fops; inode = 0; file_position = 0; flags = 1 }

module _ (k : Kernel) (p : ℕ) (name : Mem) (d : Dentry) (run : current k ≡ some p)
    (named : name 0 ≢ 0) (found : read_dentry_by_name k.fs name ≡ some d) where
  pub open_file-directory :
      (fd : ℕ)
      → d.file_type ≡ 1
      → 2 ≤ fd
      → fd ≤ 7
      → (descriptor k p fd).flags ≡ 0
      → ((j : ℕ) → 2 ≤ j → j < fd → (descriptor k p j).flags ≢ 0)
      → open_file k (some name) ≡ some (set_descriptor k p fd directory, pos fd)
  unfolding open_file open_dentry opened call_open
  open_file-directory fd kind lo hi free before =
      let first = find_fd-first 6 (k.pcbs p).file_descriptor 2 fd lo (omega arith) free before in
      rw (open_file, ==_of_ne _ _ named, found, run)
        (rw (open_dentry, first) (rw (opened, kind) refl))

  pub open_file-full :
      ((j : ℕ) → 2 ≤ j → j ≤ 7 → (descriptor k p j).flags ≢ 0)
      → open_file k (some name) ≡ some (k, failure)
  unfolding open_file open_dentry
  open_file-full used =
      let none_free =
        find_fd-none 6 (k.pcbs p).file_descriptor 2 (λ j lo hi. used j lo (omega arith)) in
      rw (open_file, ==_of_ne _ _ named, found, run) (rw (open_dentry, none_free) refl)
