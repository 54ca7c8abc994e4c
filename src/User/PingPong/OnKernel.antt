-- ===== src/User/PingPong/OnKernel.antt =====
-- The kernel's calls as those that ece391pingpong.c makes.
use system_engineering.Base.{
  ℕ, ◌≤◌, ◌==◌, Option, some, Mem, ◌≡◌, refl, ap, ◌∙◌, arith, update, update_self, Bool-cases, inl,
  inr,
}
use system_engineering.Base.Int.{ℤ, pos}
use system_engineering.Kernel.{Kernel, Pcb, set_descriptor, ReadHandler, WriteHandler, current}
use system_engineering.Print.Frame.{put_all-Printing, Printing-current}
use system_engineering.Syscall.Blocks.{write-put_all}
use system_engineering.Syscall.Errors.{descriptor, read-clock}
use system_engineering.User.OnKernel.{kernel_calls, with_buffer}
use system_engineering.User.PingPong.Rounds.{Returns}

-- Process `p` runs, its standard output is the terminal, and `fd` is open on the clock.
pub record HasClock (p fd : ℕ) (k : Kernel) : Type 0 where
  pub runs : current k ≡ some p
  pub stdout_open : (descriptor k p 1).flags ≡ 1
  pub stdout_write : (descriptor k p 1).pointer.write_op ≡ WriteHandler.terminal
  pub clock_open : (descriptor k p fd).flags ≡ 1
  pub clock_read : (descriptor k p fd).pointer.read_op ≡ ReadHandler.rtc

module _ (p fd : ℕ) (k : Kernel) (h : HasClock p fd k) where
  printed-HasClock : (k' : Kernel) → k'.pcbs ≡ k.pcbs → current k' ≡ current k → HasClock p fd k'
  printed-HasClock k' slots run =
      let same : (i : ℕ) → descriptor k' p i ≡ descriptor k p i =
        λ i. ap (λ (s : ℕ → Pcb). (s p).file_descriptor i) slots in
      record {
        runs = run ∙ h.runs;
        stdout_open = ap (λ d. d.flags) (same 1) ∙ h.stdout_open;
        stdout_write = ap (λ d. d.pointer.write_op) (same 1) ∙ h.stdout_write;
        clock_open = ap (λ d. d.flags) (same fd) ∙ h.clock_open;
        clock_read = ap (λ d. d.pointer.read_op) (same fd) ∙ h.clock_read;
      }

  -- The position of a descriptor has moved.
  moved-HasClock :
      (n : ℕ)
      → HasClock p fd (set_descriptor k p fd (record (descriptor k p fd) { file_position = n }))
  moved-HasClock n =
      let moved = record (descriptor k p fd) { file_position = n } in
      let there : (i : ℕ)
          → descriptor (set_descriptor k p fd moved) p i
            ≡ update (k.pcbs p).file_descriptor fd moved i =
        λ i. ap (λ (x : Pcb). x.file_descriptor i) (update_self k.pcbs p _) in
      let flags : (i : ℕ)
          → (update (k.pcbs p).file_descriptor fd moved i).flags ≡ (descriptor k p i).flags =
        λ i. elim (Bool-cases (i == fd)) [
          | inl at ↦ rw at (ap (λ j. (descriptor k p j).flags) (ground arith))
          | inr other ↦ rw other refl
        ] in
      let pointers : (i : ℕ)
          → (update (k.pcbs p).file_descriptor fd moved i).pointer ≡ (descriptor k p i).pointer =
        λ i. elim (Bool-cases (i == fd)) [
          | inl at ↦ rw at (ap (λ j. (descriptor k p j).pointer) (ground arith))
          | inr other ↦ rw other refl
        ] in
      record {
        runs = h.runs;
        stdout_open = ap (λ d. d.flags) (there 1) ∙ flags 1 ∙ h.stdout_open;
        stdout_write =
            ap (λ d. d.pointer.write_op) (there 1)
            ∙ ap (λ f. f.write_op) (pointers 1)
            ∙ h.stdout_write;
        clock_open = ap (λ d. d.flags) (there fd) ∙ flags fd ∙ h.clock_open;
        clock_read =
            ap (λ d. d.pointer.read_op) (there fd)
            ∙ ap (λ f. f.read_op) (pointers fd)
            ∙ h.clock_read;
      }

-- The kernel's calls return, if what happens during a wait leaves the process and its descriptors.
pub kernel-Returns :
    (wait : Kernel → Kernel) (run : Kernel → Mem → Option (Kernel × ℤ)) (p fd : ℕ)
    → fd ≤ 7
    → ((k : Kernel) → HasClock p fd k → HasClock p fd (wait k))
    → Returns (kernel_calls wait run) (pos fd) (HasClock p fd)
kernel-Returns wait run p fd le keeps = record {
  writes = λ k buf h.
      let shown = put_all-Printing _ k in
      (
        _,
        pos 80,
        write-put_all k p 1 80 buf h.runs (omega arith) (ground (arith, h.stdout_open))
            h.stdout_write,
        printed-HasClock p fd k h _ shown.slots (Printing-current shown),
      );
  reads = λ k h.
      let there = keeps k h in
      (
        _,
        λ i. 0,
        pos 0,
        ap with_buffer
            (read-clock wait k (λ i. 0) 4 p fd h.runs le h.clock_open h.clock_read there.runs),
        moved-HasClock p fd (wait k) there _,
      );
}
