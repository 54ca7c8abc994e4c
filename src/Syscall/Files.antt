-- ===== src/Syscall/Files.antt =====
-- Descriptors: which one `open` takes, and that `close` gives it back.
use system_engineering.Base.{
  ℕ, zero, suc, ◌+◌, ◌≤◌, ◌<◌, ◌≢◌, ◌==◌, Arr, Mem, update, update_self, update_ne, ◌≡◌, inl, inr,
  refl, subst, ◌∙◌, ap, arith, Bool-cases, ==_iff, some, Option-cases,
}
use system_engineering.Base.Int.{pos}
use system_engineering.FileSys.{Dentry, read_dentry_by_name}
use system_engineering.Console.{Console}
use system_engineering.Kernel.{Kernel, Pcb, FileDescriptor, OpenHandler, current, set_descriptor}
use system_engineering.Process.{close}
use system_engineering.Syscall.{find_fd, opened, call_open, open_dentry, open_file}

find_fd_lem :
    (k : ℕ) (d : Arr FileDescriptor) (i fd : ℕ)
    → find_fd k d i ≡ some fd
    → (i ≤ fd) × (fd < i + k) × ((d fd).flags ≡ 0) × ((j : ℕ) → i ≤ j → j < fd → (d j).flags ≢ 0)
unfolding find_fd
find_fd_lem zero d i fd e = absurd (cc)
find_fd_lem (suc k) d i fd e = elim (Bool-cases ((d i).flags == 0)) [
  | inl free ↦
      let here : i ≡ fd = ground arith in
      subst
        (λ m.
          (i ≤ m)
          × (m < i + suc k)
          × ((d m).flags ≡ 0)
          × ((j : ℕ) → i ≤ j → j < m → (d j).flags ≢ 0))
        here (omega arith, omega arith, (==_iff _ _).0 free, λ j p q. absurd (omega arith))
  | inr taken ↦
      let (lo, hi, z, before) = find_fd_lem k d (i + 1) fd (ground arith) in
      (
        omega arith,
        omega arith,
        z,
        λ j p q. elim (Bool-cases (j == i)) [
          | inl here ↦ rw ((==_iff j i).0 here) (ground arith)
          | inr after ↦ before j (ground arith) q
        ],
      )
]

opened-flags : (d : Dentry) {f : FileDescriptor} → opened d ≡ some f → f.flags ≡ 1
unfolding opened
opened-flags d e = ground arith

-- The handlers of `open` leave the processes and the terminals.
call_open-pcbs : (o : OpenHandler) (k : Kernel) → (call_open o k).pcbs ≡ k.pcbs
unfolding call_open
call_open-pcbs OpenHandler.rtc k = refl
call_open-pcbs _ k = refl

call_open-console : (o : OpenHandler) (k : Kernel) → (call_open o k).console ≡ k.console
unfolding call_open
call_open-console OpenHandler.rtc k = refl
call_open-console _ k = refl

-- What an `open` of process `p` that returned `fd` has done.
pub record Opened (k k' : Kernel) (p fd : ℕ) : Type 0 where
  pub low : 2 ≤ fd
  pub high : fd ≤ 7
  pub was_free : ((k.pcbs p).file_descriptor fd).flags ≡ 0
  pub least : (j : ℕ) → 2 ≤ j → j < fd → ((k.pcbs p).file_descriptor j).flags ≢ 0
  pub file : FileDescriptor
  pub in_use : file.flags ≡ 1
  pub slots : k'.pcbs ≡ (set_descriptor k p fd file).pcbs
  pub running : k'.console ≡ k.console

open_dentry-Opened :
    (k : Kernel) (p : ℕ) (d : Dentry) {k' : Kernel} {fd : ℕ}
    → open_dentry k p d ≡ (k', pos fd)
    → Opened k k' p fd
unfolding open_dentry
open_dentry-Opened k p d {k'} {fd} e =
    elim (Option-cases (find_fd 6 (k.pcbs p).file_descriptor 2)) [
      | inl full ↦ absurd (ground arith)
      | inr (m, found) ↦ elim (Option-cases (opened d)) [
        | inl odd ↦ absurd (ground arith)
        | inr (f, kind) ↦
            let same : m ≡ fd = ground arith in
            let (lo, hi, z, before) =
              find_fd_lem 6 (k.pcbs p).file_descriptor 2 fd (found ∙ ap some same) in
            let state : k' ≡ call_open f.pointer.open_op (set_descriptor k p m f) = ground arith in
            record {
              low = lo;
              high = omega arith;
              was_free = z;
              least = before;
              file = f;
              in_use = opened-flags d kind;
              slots =
                  ap (λ (x : Kernel). x.pcbs) state
                  ∙ call_open-pcbs f.pointer.open_op (set_descriptor k p m f)
                  ∙ ap (λ n. (set_descriptor k p n f).pcbs) same;
              running =
                  ap (λ (x : Kernel). x.console) state
                  ∙ call_open-console f.pointer.open_op (set_descriptor k p m f);
            }
      ]
    ]

open_file-Opened :
    (k : Kernel) (p : ℕ) (filename : Mem) {k' : Kernel} {fd : ℕ}
    → current k ≡ some p
    → open_file k (some filename) ≡ some (k', pos fd)
    → Opened k k' p fd
unfolding open_file
open_file-Opened k p filename {k'} {fd} run e =
    elim (Option-cases (read_dentry_by_name k.fs filename)) [
      | inl missing ↦ absurd (ground arith)
      | inr (d, found) ↦ open_dentry-Opened k p d {k' = k'} {fd = fd} (ground arith)
    ]

pub close-in_use :
    (k : Kernel) (p fd : ℕ)
    → current k ≡ some p
    → 2 ≤ fd
    → fd ≤ 7
    → ((k.pcbs p).file_descriptor fd).flags ≡ 1
    → close k (pos fd)
      ≡ some (
        set_descriptor k p fd
            (record ((k.pcbs p).file_descriptor fd) { inode = 0; file_position = 0; flags = 0 }),
        pos 0,
      )
unfolding close
close-in_use k p fd run lo hi e = ground arith

-- The descriptors of process `p` after `set_descriptor`.
pub set_descriptor-descriptor :
    (k : Kernel) (p fd : ℕ) (f : FileDescriptor) (j : ℕ)
    → ((set_descriptor k p fd f).pcbs p).file_descriptor j
      ≡ update (k.pcbs p).file_descriptor fd f j
set_descriptor-descriptor k p fd f j =
    ap (λ (x : Pcb). x.file_descriptor j) (update_self k.pcbs p _)

-- What `open` and `close` leave: `fd` was the least free one and is free again, and the other
-- descriptors of `p` and the other slots are those of before.
pub record Reclosed (k k2 : Kernel) (p fd : ℕ) : Type 0 where
  pub low : 2 ≤ fd
  pub high : fd ≤ 7
  pub was_free : ((k.pcbs p).file_descriptor fd).flags ≡ 0
  pub least : (j : ℕ) → 2 ≤ j → j < fd → ((k.pcbs p).file_descriptor j).flags ≢ 0
  pub free_again : ((k2.pcbs p).file_descriptor fd).flags ≡ 0
  pub others : (j : ℕ) → j ≢ fd → (k2.pcbs p).file_descriptor j ≡ (k.pcbs p).file_descriptor j
  pub slots : (q : ℕ) → q ≢ p → k2.pcbs q ≡ k.pcbs q

module _ (k k1 : Kernel) (p fd : ℕ) (o : Opened k k1 p fd) where
  opened_descriptor :
      (j : ℕ) → (k1.pcbs p).file_descriptor j ≡ update (k.pcbs p).file_descriptor fd o.file j
  opened_descriptor j =
      ap (λ (x : Arr Pcb). (x p).file_descriptor j) o.slots
      ∙ set_descriptor-descriptor k p fd o.file j

  shut : FileDescriptor
  shut = record ((k1.pcbs p).file_descriptor fd) { inode = 0; file_position = 0; flags = 0 }

  after : Kernel
  after = set_descriptor k1 p fd shut

  after-Reclosed : Reclosed k after p fd
  unfolding after shut
  after-Reclosed = record {
    low = o.low;
    high = o.high;
    was_free = o.was_free;
    least = o.least;
    free_again =
        ap (λ (x : FileDescriptor). x.flags)
          (set_descriptor-descriptor k1 p fd shut fd
            ∙ update_self (k1.pcbs p).file_descriptor fd shut);
    others = λ j ne.
        set_descriptor-descriptor k1 p fd shut j
        ∙ update_ne (k1.pcbs p).file_descriptor fd shut j ne
        ∙ opened_descriptor j
        ∙ update_ne (k.pcbs p).file_descriptor fd o.file j ne;
    slots = λ q ne.
        update_ne k1.pcbs p _ q ne ∙ ap (λ (x : Arr Pcb). x q) o.slots ∙ update_ne k.pcbs p _ q ne;
  }

  close-after : current k ≡ some p → close k1 (pos fd) ≡ some (after, pos 0)
  unfolding after shut
  close-after run =
      close-in_use k1 p fd (ap (λ (c : Console). (c.terminal c.curr_scheduler).pcb) o.running ∙ run)
        o.low o.high
        (ap (λ (x : FileDescriptor). x.flags)
            (opened_descriptor fd ∙ update_self (k.pcbs p).file_descriptor fd o.file)
          ∙ o.in_use)

-- If `open`, in process `p`, returns a descriptor, then it is the least of 2 to 7 that was free, and a
-- `close` of it succeeds and frees it again, with every other descriptor of `p`, and every other
-- process, as it was before the `open`.
pub open_file-close :
    (k k1 : Kernel) (p fd : ℕ) (filename : Mem)
    → current k ≡ some p
    → open_file k (some filename) ≡ some (k1, pos fd)
    → (k2 : Kernel) × (close k1 (pos fd) ≡ some (k2, pos 0)) × Reclosed k k2 p fd
open_file-close k k1 p fd filename run e =
    let o = open_file-Opened k p filename {k' = k1} {fd = fd} run e in
    (after k k1 p fd o, close-after k k1 p fd o run, after-Reclosed k k1 p fd o)
