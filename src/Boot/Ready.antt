-- ===== src/Boot/Ready.antt =====
-- The state that the initialisers leave.
use system_engineering.Base.{
  ℕ, zero, suc, ◌<◌, ◌≡◌, refl, ◌∙◌, ap, ◌==◌, ◌||◌, if◌then◌else◌, Arr, Mem, none, true, Bool,
  arith, ==_iff, bit_or,
}
use system_engineering.Base.Table.{every_below, every_below-holds}
use system_engineering.Idt.{vectors}
use system_engineering.Idt.Gates.{GateOf, listed_in, idt_init-GateOf}
use system_engineering.Keyboard.{keyboard_init, terminal_init}
use system_engineering.Pic.{PicMasks, boot_masks, i8259_init, enable_irq}
use system_engineering.Pic.Masks.{line}
use system_engineering.Rtc.{rtc_init}
use system_engineering.Scheduler.{paging_init, pit_init}
use system_engineering.Scheduler.Tables.{paging_init-no_program, paging_init-kernel}
use system_engineering.Boot.{Machine, Reads, init_pic, init_clock, initialise}

-- The lines that are served: the timer, the keyboard, the second controller and the clock.
abbrev pub served : ℕ → Bool
served j = j == 0 || (j == 1 || (j == 2 || j == 8))

abbrev booted_masks : PicMasks
booted_masks = record { master_mask = 0xF8; slave_mask = 0xFE }

served-line : (j : ℕ) → j < 16 → line booted_masks j ≡ (if served j then 0 else 1)
unfolding every_below
served-line j lt =
    (==_iff _ _).0
      (every_below-holds 16 (λ i. line booted_masks i == (if served i then 0 else 1)) j refl lt)

-- The machine as the first tick of the timer finds it.
pub record Ready (handler : Arr ℕ) (old m : Machine) : Type 0 where
  pub lines : (j : ℕ) → j < 16 → line m.kernel.masks j ≡ (if served j then 0 else 1)
  pub enabled : m.kernel.interrupts ≡ true
  pub idle : (t : ℕ) → t < 3 → (m.kernel.console.terminal t).pcb ≡ none
  pub kernel_page : m.kernel.page_directory 1 ≡ bit_or 0x400000 0x83
  pub no_program : (i : ℕ) → 1 < i → i < 1024 → m.kernel.page_directory i ≡ 0
  pub gates : (i : ℕ) → i < 256 → GateOf i (listed_in vectors i) (handler i) (old.idt i) (m.idt i)

module _ (handler : Arr ℕ) (r : Reads) (table : ℕ) (image : Mem) (start_addr : ℕ)
    (m : Machine) where
  booted : Machine
  booted = initialise handler r table image start_addr m

  booted-masks : m.kernel.masks ≡ boot_masks → booted.kernel.masks ≡ booted_masks
  unfolding booted initialise init_pic init_clock keyboard_init terminal_init i8259_init enable_irq
      rtc_init paging_init pit_init
  booted-masks h = rw h refl

  pub initialise-idle :
      (t : ℕ)
      → t < 3
      → ((initialise handler r table image start_addr m).kernel.console.terminal t).pcb ≡ none
  unfolding initialise init_pic init_clock keyboard_init terminal_init i8259_init enable_irq
      rtc_init paging_init pit_init
  initialise-idle zero lt = refl
  initialise-idle (suc zero) lt = refl
  initialise-idle (suc (suc zero)) lt = refl
  initialise-idle (suc (suc (suc t))) lt = absurd (omega arith)

-- On a machine whose controllers are masked, the initialisers leave exactly the lines of the timer, the
-- keyboard, the second controller and the clock unmasked, interrupts enabled, no terminal with a process,
-- the kernel's page and no page of a program in the page directory, and every gate of the interrupt
-- table as `idt_init` sets it.
pub initialise-Ready :
    (handler : Arr ℕ) (r : Reads) (table : ℕ) (image : Mem) (start_addr : ℕ) (m : Machine)
    → m.kernel.masks ≡ boot_masks
    → Ready handler m (initialise handler r table image start_addr m)
unfolding booted initialise init_pic init_clock keyboard_init terminal_init i8259_init enable_irq
    rtc_init pit_init
initialise-Ready handler r table image start_addr m h = record {
  lines = λ j lt.
      ap (λ x. line x j) (booted-masks handler r table image start_addr m h) ∙ served-line j lt;
  enabled = refl;
  idle = initialise-idle handler r table image start_addr m;
  kernel_page = paging_init-kernel table _;
  no_program = λ i low high. paging_init-no_program table _ i low high;
  gates = idt_init-GateOf handler m.idt;
}
