-- ===== src/Syscall/Quiet.antt =====
-- What the calls on files leave of the processes: all of it, but what happens while a read waits.
use system_engineering.Base.{
  ℕ, ◌+◌, u32, ◌≡◌, ◌⊎◌, refl, inl, inr, ltb, ◌||◌, ◌==◌, Bool-cases, Option-cases, Option, some,
  none, Mem, arith, subst, List,
}
use system_engineering.Base.Int.{ℤ, pos, negsuc}
use system_engineering.Base.Text.{bytes_of}
use system_engineering.FileSys.{Dentry, read_dentry_by_name, dir_read}
use system_engineering.Kernel.{Kernel, current, emit, OpenHandler, ReadHandler, WriteHandler}
use system_engineering.Pic.{Out}
use system_engineering.Process.{close}
use system_engineering.Syscall.{
  open_file, open_dentry, opened, find_fd, call_open, directory_read, file_read, call_read,
  terminal_read, locked, advance, to_u32, read_checked, read, write, write_checked, call_write,
}
use system_engineering.System.Quiet.{
  Quiet, Quiet-refl, Quiet-trans, console-Quiet, set_descriptor-Quiet, put_all-Quiet,
}

emit-Quiet : (k : Kernel) (outs : List Out) → Quiet k (emit k outs)
emit-Quiet k outs = console-Quiet refl refl refl (record { scheduled = refl; running = λ t. refl })

call_open-Quiet : (h : OpenHandler) (k : Kernel) → Quiet k (call_open h k)
unfolding call_open
call_open-Quiet OpenHandler.rtc k = emit-Quiet k _
call_open-Quiet OpenHandler.terminal k = Quiet-refl k
call_open-Quiet OpenHandler.dir k = Quiet-refl k
call_open-Quiet OpenHandler.file k = Quiet-refl k

open_dentry-Quiet : (k : Kernel) (p : ℕ) (d : Dentry) → Quiet k (open_dentry k p d).0
unfolding open_dentry
open_dentry-Quiet k p d = elim (Option-cases (find_fd 6 (k.pcbs p).file_descriptor 2)) [
  | inl no_room ↦ rw (open_dentry, no_room) (Quiet-refl k)
  | inr (fd, room) ↦ elim (Option-cases (opened d)) [
    | inl unknown ↦ rw (open_dentry, room, unknown) (Quiet-refl k)
    | inr (f, file) ↦
        rw (open_dentry, room, file)
          (Quiet-trans (set_descriptor-Quiet k p fd f) (call_open-Quiet f.pointer.open_op _))
  ]
]

-- `open` changes no more than a descriptor of the current process.
pub open_file-Quiet :
    (k : Kernel) (filename : Option Mem) {k' : Kernel} {code : ℤ}
    → open_file k filename ≡ some (k', code)
    → Quiet k k'
unfolding open_file
open_file-Quiet k none e = subst (Quiet k) (cc) (Quiet-refl k)
open_file-Quiet k (some filename) {k'} {code} e = elim (Bool-cases (filename 0 == 0)) [
  | inl empty ↦ subst (Quiet k) (ground arith) (Quiet-refl k)
  | inr named ↦ elim (Option-cases (read_dentry_by_name k.fs filename)) [
    | inl missing ↦ subst (Quiet k) (ground arith) (Quiet-refl k)
    | inr (d, found) ↦ elim (Option-cases (current k)) [
      | inl idle ↦ ground arith
      | inr (p, run) ↦ subst (Quiet k) (ground arith) (open_dentry-Quiet k p d)
    ]
  ]
]

pub close-Quiet :
    (k : Kernel) (fd : ℤ) {k' : Kernel} {code : ℤ} → close k fd ≡ some (k', code) → Quiet k k'
unfolding close
close-Quiet k fd {k'} {code} e = elim (Option-cases (current k)) [
  | inl idle ↦ ground arith
  | inr (p, run) ↦ closed_of p run fd e
]
  where
    closed_of : (p : ℕ) → current k ≡ some p → (x : ℤ) → close k x ≡ some (k', code) → Quiet k k'
    closed_of p run (negsuc n) c = subst (Quiet k) (ground arith) (Quiet-refl k)
    closed_of p run (pos n) c = elim (Bool-cases (ltb n 2 || ltb 7 n)) [
      | inl out ↦ subst (Quiet k) (ground arith) (Quiet-refl k)
      | inr inside ↦ elim (Bool-cases (((k.pcbs p).file_descriptor n).flags == 0)) [
        | inl shut ↦ subst (Quiet k) (ground arith) (Quiet-refl k)
        | inr in_use ↦ subst (Quiet k) (ground arith) (
            set_descriptor-Quiet k p n
              (record ((k.pcbs p).file_descriptor n) { inode = 0; file_position = 0; flags = 0 }))
      ]
    ]

call_write-Quiet :
    (h : WriteHandler) (k : Kernel) (buf : Mem) (nbytes : ℕ) → Quiet k (call_write h k buf nbytes).0
unfolding call_write
call_write-Quiet WriteHandler.terminal k buf nbytes = put_all-Quiet k (bytes_of nbytes buf 0)
call_write-Quiet WriteHandler.rtc k buf nbytes = emit-Quiet k _
call_write-Quiet WriteHandler.dir k buf nbytes = Quiet-refl k
call_write-Quiet WriteHandler.file k buf nbytes = Quiet-refl k
call_write-Quiet WriteHandler.invalid k buf nbytes = Quiet-refl k

write_checked-Quiet :
    (k : Kernel) (fd : ℤ) (buf : Mem) (nbytes : ℕ) {k' : Kernel} {code : ℤ}
    → write_checked k fd buf nbytes ≡ some (k', code)
    → Quiet k k'
unfolding write_checked
write_checked-Quiet k (negsuc n) buf nbytes e = subst (Quiet k) (cc) (Quiet-refl k)
write_checked-Quiet k (pos fd) buf nbytes e = elim (Bool-cases (ltb 7 fd)) [
  | inl out ↦ subst (Quiet k) (ground arith) (Quiet-refl k)
  | inr inside ↦ elim (Option-cases (current k)) [
    | inl idle ↦ ground arith
    | inr (p, run) ↦ elim (Bool-cases (((k.pcbs p).file_descriptor fd).flags == 0)) [
      | inl shut ↦ subst (Quiet k) (ground arith) (Quiet-refl k)
      | inr in_use ↦
          subst (Quiet k) (ground arith)
            (call_write-Quiet ((k.pcbs p).file_descriptor fd).pointer.write_op k buf nbytes)
    ]
  ]
]

pub write-Quiet :
    (k : Kernel) (fd : ℤ) (buf : Option Mem) (nbytes : ℤ) {k' : Kernel} {code : ℤ}
    → write k fd buf nbytes ≡ some (k', code)
    → Quiet k k'
unfolding write
write-Quiet k fd buf (negsuc n) e = subst (Quiet k) (cc) (Quiet-refl k)
write-Quiet k fd none (pos nbytes) e = subst (Quiet k) (cc) (Quiet-refl k)
write-Quiet k fd (some buf) (pos nbytes) e = write_checked-Quiet k fd buf nbytes e

directory_read-Quiet :
    (k : Kernel) (buf : Mem) {k' : Kernel} {out : Mem} {code : ℤ}
    → directory_read k buf ≡ some (k', out, code)
    → Quiet k k'
unfolding directory_read
directory_read-Quiet k buf {k'} {out} {code} e =
    let r = dir_read k.fs k.directory_index (some buf) in
    elim (Option-cases r.code) [
      | inl no_code ↦ ground arith
      | inr (x, has_code) ↦ elim (Option-cases r.buf) [
        | inl no_buf ↦ ground arith
        | inr (y, has_buf) ↦ subst (Quiet k) (ground arith) (
            console-Quiet {k = k} {k' = record k { directory_index = r.directory_index }} refl refl
              refl (record { scheduled = refl; running = λ t. refl }))
      ]
    ]

-- A read is quiet but for the time that it waits: the kernel that the wait ends in is followed by
-- nothing but quiet steps, or nothing was waited for.
pub record Waited (wait : Kernel → Kernel) (k k' : Kernel) : Type 0 where
  pub before : Kernel
  pub after : Kernel
  pub waiting : Quiet k before
  pub wakes : (after ≡ before) ⊎ (after ≡ wait before)
  pub woken : Quiet after k'

module _ (wait : Kernel → Kernel) where
  Quiet-Waited : (k : Kernel) {k' : Kernel} → Quiet k k' → Waited wait k k'
  Quiet-Waited k q = record {
    before = k;
    after = k;
    waiting = Quiet-refl k;
    wakes = inl refl;
    woken = q;
  }

  wait-Waited : (k k0 k' : Kernel) → Quiet k k0 → k' ≡ wait k0 → Waited wait k k'
  wait-Waited k k0 k' q e = record {
    before = k0;
    after = k';
    waiting = q;
    wakes = inr e;
    woken = Quiet-refl k';
  }

  call_read-Waited :
      (h : ReadHandler) (k : Kernel) (p fd : ℕ) (buf : Mem) (nbytes : ℕ) {k' : Kernel} {out : Mem}
      {code : ℤ}
      → call_read wait h k p fd buf nbytes ≡ some (k', out, code)
      → Waited wait k k'
  unfolding call_read terminal_read file_read
  call_read-Waited ReadHandler.terminal k p fd buf nbytes {k'} e =
      wait-Waited k (locked k) k'
        (console-Quiet refl refl refl (record { scheduled = refl; running = λ t. refl })) (cc)
  call_read-Waited ReadHandler.invalid k p fd buf nbytes e =
      subst (Waited wait k) (cc) (Quiet-Waited k (Quiet-refl k))
  call_read-Waited ReadHandler.rtc k p fd buf nbytes {k'} e = wait-Waited k k k' (Quiet-refl k) (cc)
  call_read-Waited ReadHandler.dir k p fd buf nbytes e =
      Quiet-Waited k (directory_read-Quiet k buf e)
  call_read-Waited ReadHandler.file k p fd buf nbytes e =
      subst (Waited wait k) (cc) (Quiet-Waited k (Quiet-refl k))

  advance-Quiet :
      (fd : ℕ) (k : Kernel) (buf : Mem) (value : ℤ) {k' : Kernel} {out : Mem} {code : ℤ}
      → advance wait fd (k, buf, value) ≡ some (k', out, code)
      → Quiet k k'
  unfolding advance
  advance-Quiet fd k buf value e = elim (Option-cases (current k)) [
    | inl idle ↦ ground arith
    | inr (p, run) ↦
        let d = (k.pcbs p).file_descriptor fd in
        subst (Quiet k) (ground arith) (
          set_descriptor-Quiet k p fd
            (record d { file_position = u32 (d.file_position + to_u32 value) }))
  ]

  Waited-Quiet : {a b c : Kernel} → Waited wait a b → Quiet b c → Waited wait a c
  Waited-Quiet w q = record {
    before = w.before;
    after = w.after;
    waiting = w.waiting;
    wakes = w.wakes;
    woken = Quiet-trans w.woken q;
  }

  read_checked-Waited :
      (k : Kernel) (fd : ℤ) (buf : Mem) (nbytes : ℕ) {k' : Kernel} {out : Mem} {code : ℤ}
      → read_checked wait k fd buf nbytes ≡ some (k', out, code)
      → Waited wait k k'
  unfolding read_checked
  read_checked-Waited k (negsuc n) buf nbytes e =
      subst (Waited wait k) (cc) (Quiet-Waited k (Quiet-refl k))
  read_checked-Waited k (pos fd) buf nbytes {k'} {out} {code} e = elim (Bool-cases (ltb 7 fd)) [
    | inl outside ↦ subst (Waited wait k) (ground arith) (Quiet-Waited k (Quiet-refl k))
    | inr inside ↦ elim (Option-cases (current k)) [
      | inl idle ↦ ground arith
      | inr (p, run) ↦
          let d = (k.pcbs p).file_descriptor fd in
          elim (Bool-cases (d.flags == 0)) [
            | inl shut ↦ subst (Waited wait k) (ground arith) (Quiet-Waited k (Quiet-refl k))
            | inr in_use ↦
                elim (Option-cases (call_read wait d.pointer.read_op k p fd buf nbytes)) [
                  | inl crashed ↦ ground arith
                  | inr ((k1, buf1, value), done) ↦
                      Waited-Quiet (call_read-Waited d.pointer.read_op k p fd buf nbytes done)
                        (advance-Quiet fd k1 buf1 value {out = out} {code = code} (ground arith))
                ]
          ]
    ]
  ]

  pub read-Waited :
      (k : Kernel) (fd : ℤ) (buf : Option Mem) (nbytes : ℤ) {k' : Kernel} {out : Option Mem}
      {code : ℤ}
      → read wait k fd buf nbytes ≡ some (k', out, code)
      → Waited wait k k'
  unfolding read
  read-Waited k fd buf (negsuc n) e = subst (Waited wait k) (cc) (Quiet-Waited k (Quiet-refl k))
  read-Waited k fd none (pos nbytes) e = subst (Waited wait k) (cc) (Quiet-Waited k (Quiet-refl k))
  read-Waited k fd (some buf) (pos nbytes) e =
      elim (Option-cases (read_checked wait k fd buf nbytes)) [
        | inl crashed ↦ ground arith
        | inr ((k1, buf1, value), done) ↦
            subst (Waited wait k) (ground arith) (read_checked-Waited k fd buf nbytes done)
      ]
