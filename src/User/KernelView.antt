-- ===== src/User/KernelView.antt =====
-- An open file of the kernel, read in blocks by a process that writes to the terminal.
use system_engineering.Base.{
  ℕ, ◌+◌, ◌^◌, ◌%◌, ◌*◌, min, update_self, update_ne, ◌<◌, ◌≤◌, ◌≡◌, ◌≢◌, refl, sym, ap, ◌∙◌, subst,
  ◌==◌, false, List, [], ◌++◌, length, Option, none, some, Arr, Mem, arith, ltb, if◌then◌else◌,
  update,
}
use mathlib.Core.Path.{ap₂}
use system_engineering.Base.Int.{ℤ, pos}
use system_engineering.Base.Text.{bytes_of}
use system_engineering.FileSys.{FileSys, inode_count, inode_length, data_block_num, read_data}
use system_engineering.FileSys.Data.{file_byte, reachable, read_data_lem, read_data-refuses}
use system_engineering.Kernel.{
  Kernel, Pcb, FileDescriptor, ReadHandler, WriteHandler, current, put_all,
}
use system_engineering.Print.Frame.{put_all-Printing, Printing-current}
use system_engineering.Syscall.Blocks.{moved_on, read-read_data, write-put_all}
use system_engineering.User.OnKernel.{with_buffer, kernel_calls}
use system_engineering.User.View.{FileView}
use system_engineering.User.Cat.{length-bytes_of}
use system_engineering.User.OpenFile.{
  bytes_of-ext, bytes_of-append, printed, printed-append, put_all-printed, left, left_none,
  left_some, left_block,
}
pub mod Screen

-- Process `p` runs, the descriptor `d` is an open file whose blocks the file system has, and the
-- descriptor `t` is a terminal's.
pub record Readable (p : ℕ) (runs_now : Option ℕ) (d t : FileDescriptor) (fs : FileSys)
    : Type 0 where
  pub runs : runs_now ≡ some p
  pub exists : d.inode < inode_count fs
  pub in_use : (d.flags == 0) ≡ false
  pub reader : d.pointer.read_op ≡ ReadHandler.file
  pub fits : d.file_position + left (inode_length fs d.inode) d.file_position ≤ reachable fs
  pub terminal_in_use : (t.flags == 0) ≡ false
  pub writer : t.pointer.write_op ≡ WriteHandler.terminal

-- The bytes that reads of the file deliver from its position on.
abbrev pub remaining_of : FileSys → FileDescriptor → List ℕ
remaining_of fs d =
    bytes_of (left (inode_length fs d.inode) d.file_position) (file_byte fs d.inode) d.file_position

module _ (wait : Kernel → Kernel) (run : Kernel → Mem → Option (Kernel × ℤ)) (p fd : ℕ)
    (range : fd ≤ 7) (not_terminal : fd ≢ 1) where
  abbrev file : Kernel → FileDescriptor
  file k = (k.pcbs p).file_descriptor fd

  abbrev terminal : Kernel → FileDescriptor
  terminal k = (k.pcbs p).file_descriptor 1

  abbrev Open : Kernel → Type 0
  Open k = Readable p (current k) (file k) (terminal k) k.fs

  abbrev rest_of : Kernel → List ℕ
  rest_of k = remaining_of k.fs (file k)

  -- A read of `count` bytes, which the file system has delivered.
  read-moved_on :
      (k : Kernel) (buf out : Mem) (count : ℕ)
      → Open k
      → read_data k.fs (file k).inode (file k).file_position (some buf) 1024 ≡ (pos count, some out)
      → (kernel_calls wait run).read k (pos fd) buf 1024
        ≡ some (moved_on k p fd count, out, pos count)
  read-moved_on k buf out count h delivered =
      ap with_buffer
        (read-read_data wait k p fd 1024 count buf out h.runs range h.in_use h.reader delivered)

  printing-Open : (k : Kernel) (xs : List ℕ) → Open k → Open (put_all k xs)
  printing-Open k xs h =
      let same = put_all-Printing xs k in
      subst (λ c. Readable p c (file (put_all k xs)) (terminal (put_all k xs)) (put_all k xs).fs)
        (sym (Printing-current same))
        (subst
          (λ s.
            Readable p (current k) ((s p).file_descriptor fd) ((s p).file_descriptor 1)
              (put_all k xs).fs)
          (sym same.slots)
          (subst (Readable p (current k) (file k) (terminal k)) (sym same.files) h))

  printing-rest_of : (k : Kernel) (xs : List ℕ) → rest_of (put_all k xs) ≡ rest_of k
  printing-rest_of k xs =
      let same = put_all-Printing xs k in
      ap (λ s. remaining_of (put_all k xs).fs ((s p).file_descriptor fd)) same.slots
      ∙ ap (λ f. remaining_of f (file k)) same.files

  abbrev Displays : Kernel → Kernel → List ℕ → Type 0
  Displays k k' xs = k'.console ≡ printed k.console xs

  Displays-append :
      (k k1 k2 : Kernel) (xs ys : List ℕ)
      → Displays k k1 xs
      → Displays k1 k2 ys
      → Displays k k2 (xs ++ ys)
  Displays-append k k1 k2 xs ys first second =
      second ∙ ap (λ c. printed c ys) first ∙ sym (printed-append k.console xs ys)

  read_end :
      (k : Kernel) (buf : Mem)
      → Open k
      → length (rest_of k) ≡ 0
      → (k' : Kernel) × (buf' : Mem) × ((kernel_calls wait run).read k (pos fd) buf 1024
          ≡ some (k', buf', pos 0))
        × Displays k k' []
  unfolding printed
  read_end k buf h e =
      let at_end =
        left_none (inode_length k.fs (file k).inode) (file k).file_position
          (sym (length-bytes_of _ _ _) ∙ e) in
      (
        moved_on k p fd 0,
        buf,
        read-moved_on k buf buf 0 h (
            (read_data-refuses k.fs (file k).inode (file k).file_position buf 1024).2 h.exists
              at_end),
        refl,
      )

  abbrev advanced : FileDescriptor → FileDescriptor
  advanced d = record d { file_position = d.file_position + 1024 }

  moved-file :
      (k : Kernel)
      → (file k).file_position + 1024 < 2 ^ 32
      → file (moved_on k p fd 1024) ≡ advanced (file k)
  moved-file k lt =
      ap (λ (x : Pcb). x.file_descriptor fd) (update_self k.pcbs p _)
      ∙ update_self (k.pcbs p).file_descriptor fd _
      ∙ ap (λ x. record (file k) { file_position = x }) (omega arith)

  moved-terminal : (k : Kernel) → terminal (moved_on k p fd 1024) ≡ terminal k
  moved-terminal k =
      ap (λ (x : Pcb). x.file_descriptor 1) (update_self k.pcbs p _)
      ∙ update_ne (k.pcbs p).file_descriptor fd _ 1 (λ e. not_terminal (sym e))

  module _ (k : Kernel) (h : Open k)
      (inside : (file k).file_position < inode_length k.fs (file k).inode) where
    more_left :
        left (inode_length k.fs (file k).inode) (file k).file_position
        ≡ 1024 + left (inode_length k.fs (file k).inode) ((file k).file_position + 1024)
    more_left = left_block _ _ inside

    block_fits : (file k).file_position + 1024 ≤ reachable k.fs
    block_fits = omega (arith, more_left, h.fits)

    no_wrap : (file k).file_position + 1024 < 2 ^ 32
    no_wrap = ground (arith, block_fits)

    advanced-Readable : Readable p (current k) (advanced (file k)) (terminal k) k.fs
    advanced-Readable = record {
      runs = h.runs;
      exists = h.exists;
      in_use = h.in_use;
      reader = h.reader;
      fits = omega (arith, more_left, h.fits);
      terminal_in_use = h.terminal_in_use;
      writer = h.writer;
    }

    moved-Open : Open (moved_on k p fd 1024)
    moved-Open =
        subst (λ d. Readable p (current k) d (terminal (moved_on k p fd 1024)) k.fs)
          (sym (moved-file k no_wrap))
          (subst (λ t. Readable p (current k) (advanced (file k)) t k.fs) (sym (moved-terminal k))
            advanced-Readable)

    block_delivered :
        (out : Mem)
        → ((j : ℕ) → j < 1024 → out j ≡ file_byte k.fs (file k).inode ((file k).file_position + j))
        → rest_of k ≡ bytes_of 1024 out 0 ++ rest_of (moved_on k p fd 1024)
    block_delivered out same =
        bytes_of-append 1024 _ _ (file_byte k.fs (file k).inode) (file k).file_position more_left
        ∙ ap₂ ◌++◌
            (bytes_of-ext 1024 (file_byte k.fs (file k).inode) out (file k).file_position 0
              (λ m lt. sym (same m lt) ∙ ap out (omega arith)))
            (ap (remaining_of k.fs) (sym (moved-file k no_wrap)))

  read_more :
      (k : Kernel) (buf : Mem)
      → Open k
      → 0 < length (rest_of k)
      → (k' : Kernel) × (buf' : Mem) × (n : ℕ) × (0 < n)
        × ((kernel_calls wait run).read k (pos fd) buf 1024 ≡ some (k', buf', pos n))
        × Open k'
        × Displays k k' []
        × (rest_of k ≡ bytes_of n buf' 0 ++ rest_of k')
  unfolding printed
  read_more k buf h lt =
      let inside =
        left_some (inode_length k.fs (file k).inode) (file k).file_position
          (subst (λ n. 0 < n) (length-bytes_of _ _ _) lt) in
      let (out, delivered, same) =
        read_data_lem k.fs (file k).inode (file k).file_position buf 1024 h.exists inside
          (block_fits k h inside) in
      (
        moved_on k p fd 1024,
        out,
        1024,
        omega arith,
        read-moved_on k buf out 1024 h delivered,
        moved-Open k h inside,
        refl,
        block_delivered k h inside out (λ j less. same j ∙ ground arith),
      )

  -- An open file of the kernel is a file in the sense of the programs.
  pub kernel_view : FileView (kernel_calls wait run) (pos fd)
  kernel_view = record {
    Valid = Open;
    remaining = rest_of;
    Shows = Displays;
    shows_both = λ {s} {s1} {s2} {cs} {ds}. Displays-append s s1 s2 cs ds;
    read_end = read_end;
    read_more = read_more;
    write_all = λ k buf n h. (
      put_all k (bytes_of n buf 0),
      n,
      write-put_all k p 1 n buf h.runs (omega arith) h.terminal_in_use h.writer,
      printing-Open k (bytes_of n buf 0) h,
      put_all-printed k (bytes_of n buf 0),
      printing-rest_of k (bytes_of n buf 0),
    );
  }
