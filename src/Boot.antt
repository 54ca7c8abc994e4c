-- ===== src/Boot.antt =====
-- student-distrib/kernel.c: what `entry` does once the boot information is printed and the segments are
-- set up, which is to call the initialisers in order and to enable interrupts.
use system_engineering.Base.{ℕ, Arr, Mem, true}
use system_engineering.FileSys.{file_sys_init}
use system_engineering.Pic.{i8259_init}
use system_engineering.Rtc.{rtc_init}
use system_engineering.Kernel.{Kernel, emit}
use system_engineering.Keyboard.{keyboard_init, terminal_init}
use system_engineering.Scheduler.{paging_init, pit_init}
use system_engineering.Idt.{Gate, idt_init}
pub mod Ready
pub mod Idle
pub mod Shells
mod Tests

pub record Machine : Type 0 where
  pub kernel : Kernel
  pub idt : Arr Gate

-- What the ports give that are read: the two registers of the cursor, and two of the clock.
pub record Reads : Type 0 where
  pub cursor_start : ℕ
  pub cursor_end : ℕ
  pub prev_b : ℕ
  pub prev_a : ℕ

-- `i8259_init` and `rtc_init`, as steps of the kernel.
init_pic : Kernel → Kernel
init_pic k = let (masks, outs) = i8259_init k.masks in emit (record k { masks = masks }) outs

init_clock : Reads → Kernel → Kernel
init_clock r k =
    let (masks, outs) = rtc_init k.masks r.prev_b r.prev_a in emit (record k { masks = masks }) outs

-- `handler` gives the addresses of the wrappers, `table` that of the page table, and `start_addr` that
-- of the file system in `image`.
pub initialise :
    (handler : Arr ℕ) → Reads → (table : ℕ) → (image : Mem) → (start_addr : ℕ) → Machine → Machine
initialise handler r table image start_addr m =
    let k1 = paging_init table (keyboard_init r.cursor_start r.cursor_end (init_pic m.kernel)) in
    let k2 = record (init_clock r k1) { fs = file_sys_init image start_addr } in
    let k3 = pit_init (terminal_init k2) in
    record { kernel = record k3 { interrupts = true }; idt = idt_init handler m.idt }
