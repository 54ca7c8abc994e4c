-- ===== src/Syscall/Errors.antt =====
-- The calls that fail, and what the terminal's handlers do.
use system_engineering.Base.{
  ℕ, ◌≤◌, ◌<◌, ◌||◌, ◌+◌, ltb, true, Mem, u32, ◌≡◌, refl, ap, arith, some, none,
}
use system_engineering.Base.Int.{pos, negsuc}
use system_engineering.FileSys.{read_dentry_by_name}
use system_engineering.Kernel.{
  Kernel, FileDescriptor, ReadHandler, WriteHandler, current, set_descriptor,
}
use system_engineering.Process.{close}
use system_engineering.Syscall.{
  read, read_checked, call_read, advance, write, write_checked, call_write, open_file, failure,
  success, to_u32,
}

-- Descriptor `fd` of process `p`.
abbrev pub descriptor : Kernel → (p fd : ℕ) → FileDescriptor
descriptor k p fd = (k.pcbs p).file_descriptor fd

module _ (wait : Kernel → Kernel) (k : Kernel) (buf : Mem) (n : ℕ) where
  pub read-negative :
      (m : ℕ) → read wait k (negsuc m) (some buf) (pos n) ≡ some (k, some buf, failure)
  unfolding read read_checked
  read-negative m = refl

  pub read-large :
      (fd : ℕ) → 7 < fd → read wait k (pos fd) (some buf) (pos n) ≡ some (k, some buf, failure)
  unfolding read read_checked
  read-large fd lt = ground arith

  pub read-shut :
      (p fd : ℕ)
      → current k ≡ some p
      → fd ≤ 7
      → (descriptor k p fd).flags ≡ 0
      → read wait k (pos fd) (some buf) (pos n) ≡ some (k, some buf, failure)
  unfolding read read_checked
  read-shut p fd run le shut = ground arith

  called :
      (p fd : ℕ)
      → current k ≡ some p
      → fd ≤ 7
      → (descriptor k p fd).flags ≡ 1
      → (descriptor k p fd).pointer.read_op ≡ ReadHandler.invalid
      → read_checked wait k (pos fd) buf n ≡ advance wait fd (k, buf, failure)
  unfolding read_checked call_read
  called p fd run le used invalid =
      let answer : call_read wait (descriptor k p fd).pointer.read_op k p fd buf n
          ≡ some (k, buf, failure) =
        ap (λ h. call_read wait h k p fd buf n) invalid in
      ground (arith, answer)

  -- The position moves by -1 all the same.
  pub read-invalid :
      (p fd : ℕ)
      → current k ≡ some p
      → fd ≤ 7
      → (descriptor k p fd).flags ≡ 1
      → (descriptor k p fd).pointer.read_op ≡ ReadHandler.invalid
      → read wait k (pos fd) (some buf) (pos n)
        ≡ some (
          set_descriptor k p fd (record (descriptor k p fd) {
            file_position = u32 ((descriptor k p fd).file_position + to_u32 failure);
          }),
          some buf,
          failure,
        )
  unfolding read advance
  read-invalid p fd run le used invalid =
      rw (read, called p fd run le used invalid) (rw (advance, run) refl)

  clock_called :
      (p fd : ℕ)
      → current k ≡ some p
      → fd ≤ 7
      → (descriptor k p fd).flags ≡ 1
      → (descriptor k p fd).pointer.read_op ≡ ReadHandler.rtc
      → read_checked wait k (pos fd) buf n ≡ advance wait fd (wait k, buf, success)
  unfolding read_checked call_read
  clock_called p fd run le used clock =
      let answer : call_read wait (descriptor k p fd).pointer.read_op k p fd buf n
          ≡ some (wait k, buf, success) =
        ap (λ h. call_read wait h k p fd buf n) clock in
      ground (arith, answer)

  -- A read of the clock waits, and returns 0.
  pub read-clock :
      (p fd : ℕ)
      → current k ≡ some p
      → fd ≤ 7
      → (descriptor k p fd).flags ≡ 1
      → (descriptor k p fd).pointer.read_op ≡ ReadHandler.rtc
      → current (wait k) ≡ some p
      → read wait k (pos fd) (some buf) (pos n)
        ≡ some (
          set_descriptor (wait k) p fd (record (descriptor (wait k) p fd) {
            file_position = u32 ((descriptor (wait k) p fd).file_position + to_u32 success);
          }),
          some buf,
          success,
        )
  unfolding read advance
  read-clock p fd run le used clock still =
      rw (read, clock_called p fd run le used clock) (rw (advance, still) refl)

  pub write-negative : (m : ℕ) → write k (negsuc m) (some buf) (pos n) ≡ some (k, failure)
  unfolding write write_checked
  write-negative m = refl

  pub write-large : (fd : ℕ) → 7 < fd → write k (pos fd) (some buf) (pos n) ≡ some (k, failure)
  unfolding write write_checked
  write-large fd lt = ground arith

  pub write-shut :
      (p fd : ℕ)
      → current k ≡ some p
      → fd ≤ 7
      → (descriptor k p fd).flags ≡ 0
      → write k (pos fd) (some buf) (pos n) ≡ some (k, failure)
  unfolding write write_checked
  write-shut p fd run le shut = ground arith

  pub write-invalid :
      (p fd : ℕ)
      → current k ≡ some p
      → fd ≤ 7
      → (descriptor k p fd).flags ≡ 1
      → (descriptor k p fd).pointer.write_op ≡ WriteHandler.invalid
      → write k (pos fd) (some buf) (pos n) ≡ some (k, failure)
  unfolding write write_checked call_write
  write-invalid p fd run le used invalid = ground (arith, invalid)

module _ (k : Kernel) (p : ℕ) (run : current k ≡ some p) where
  pub close-negative : (m : ℕ) → close k (negsuc m) ≡ some (k, failure)
  unfolding close
  close-negative m = ground arith

  pub close-outside : (fd : ℕ) → ltb fd 2 || ltb 7 fd ≡ true → close k (pos fd) ≡ some (k, failure)
  unfolding close
  close-outside fd out = ground arith

  pub close-shut : (fd : ℕ) → (descriptor k p fd).flags ≡ 0 → close k (pos fd) ≡ some (k, failure)
  unfolding close
  close-shut fd shut = ground arith

pub open_file-empty :
    (k : Kernel) (filename : Mem) → filename 0 ≡ 0 → open_file k (some filename) ≡ some (k, failure)
unfolding open_file
open_file-empty k filename e = ground arith

pub open_file-missing :
    (k : Kernel) (filename : Mem)
    → read_dentry_by_name k.fs filename ≡ none
    → open_file k (some filename) ≡ some (k, failure)
unfolding open_file
open_file-missing k filename missing = ground arith
