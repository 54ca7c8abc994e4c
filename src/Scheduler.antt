-- ===== src/Scheduler.antt =====
-- student-distrib/pit.c and paging.c: the scheduler's tick, the page tables that it changes, and the
-- two other functions that change them, `vidmap` of system_call.c and `terminal_switch` of keyboard.c.
use system_engineering.Base.{
  ℕ, zero, suc, ◌+◌, ◌-◌, ◌*◌, ◌/◌, ◌^◌, ◌%◌, List, [], ◌∷◌, ◌++◌, Option, none, some, Bool, true,
  false, not, ◌&&◌, ◌||◌, ltb, leb, ◌==◌, if◌then◌else◌, Arr, Mem, update, u32, bit_or,
}
use system_engineering.Base.Int.{ℤ, pos, negsuc}
use system_engineering.Pic.{PicMasks, Out, outb, enable_irq, disable_irq, send_eoi}
use system_engineering.Console.{
  Console, clear, clear_set, swap_vid_mem, swap_kb_cursor, video_mem, vid_page,
}
use system_engineering.Kernel.{
  Kernel, Pcb, Frame, current, set_current, emit, on_console, virtual_memory_start, kernel_ds,
  user_page, kernel_stack,
}
use system_engineering.Process.{Outcome, returned, started, fault, execute, shell}
pub mod Rotation
pub mod Tables
pub mod Rounds
pub mod Turns
pub mod Launches
pub mod Screen
mod Tests

abbrev pub vid_mem_flag : ℕ
vid_mem_flag = 7

-- The entry that shows the scheduled process the screen: video memory if its terminal is visible, and
-- else its terminal's own page.
abbrev pub shown_entry : Kernel → ℕ
shown_entry k =
    if k.console.curr_scheduler == k.console.current_terminal
    then bit_or video_mem vid_mem_flag
    else bit_or (vid_page k.console.curr_scheduler) vid_mem_flag

-- `outb((int8_t)PIT_FREQ >> SHIFT_8)` shifts the low byte, as an `int8_t`: -100 >> 8 is -1.
unfoldable pub pit_init : Kernel → Kernel
pit_init k =
    let (masks, outs) = enable_irq k.masks 0 in
    emit (record k { masks = masks })
      (outb 0x37 0x43 ∷ outb (11932 % 256) 0x40 ∷ outb 0xFF 0x40 ∷ outs)

-- The loop of `paging_init`, and the entries that it sets then. The page table of the video memory
-- lies at `table`.
pub clear_entries : ℕ → Arr ℕ → ℕ → Arr ℕ
clear_entries zero a i = a
clear_entries (suc k) a i = clear_entries k (update a i 0) (i + 1)

unfoldable pub paging_init : (table : ℕ) → Kernel → Kernel
paging_init table k =
    let directory = update (clear_entries 1024 k.page_directory 0) 0 (bit_or table 3) in
    let pages = update (clear_entries 1024 k.page_table_video 0) 0xB8 (bit_or video_mem 3) in
    record k {
      page_directory = update directory 1 (bit_or 0x400000 0x83);
      page_table_video =
          update (update (update pages 0xB9 (bit_or (vid_page 0) 3)) 0xBA (bit_or (vid_page 1) 3))
            0xBB (bit_or (vid_page 2) 3);
    }

pub map_video_memory : (table virtual_addr phys_addr : ℕ) → Kernel → Kernel
map_video_memory table virtual_addr phys_addr k = record k {
  page_directory = update k.page_directory (virtual_addr / 0x400000) (bit_or table vid_mem_flag);
  page_table_video = update k.page_table_video 0 (bit_or phys_addr vid_mem_flag);
}

-- `vidmap`: the kernel, the value, and what is written to `*screen_start`. The index of the last write
-- to the table is the address of video memory, as in the source.
pub vidmap : (table : ℕ) → Kernel → (screen_start : ℕ) → Kernel × ℤ × Option ℕ
vidmap table k screen_start =
    let off = record k { interrupts = false } in
    let on = map_video_memory table 0x8800000 video_mem off in
    if screen_start == 0 || (ltb screen_start 0x8000000 || ltb 0x8400000 screen_start)
    then (off, negsuc 0, none)
    else (
      record on {
        page_table_video = update on.page_table_video video_mem (shown_entry on);
        interrupts = true;
      },
      pos 0,
      some 0x8800000,
    )

-- `terminal_switch`
unfoldable pub terminal_switch : Kernel → ℕ → Kernel
terminal_switch k new_terminal =
    let c = swap_vid_mem k.console new_terminal in
    let outs = swap_kb_cursor c new_terminal in
    let k' = emit (record k { console = record c { current_terminal = new_terminal } }) outs in
    record k' { page_table_video = update k'.page_table_video 0 (shown_entry k') }

-- How a tick ends: in the process that was scheduled, or as `execute` does.
pub data Tick : Type 0 where
  resumed : Kernel → Tick
  launched : Kernel → ℕ → Tick
  crashed : Tick

-- A shell is started; if that fails, the code goes on with a NULL `pcb`.
launch : ℕ → Kernel → Tick
launch fuel k = elim (execute fuel k (some shell)) [
  | returned k' code ↦ crashed
  | started k' entry ↦ launched k' entry
  | fault ↦ crashed
]

-- The end of `scheduler`, for the process `p` of the terminal that is scheduled now.
pub switch_to : Kernel → ℕ → Kernel
switch_to k p = record k {
  page_table_video = update k.page_table_video 0 (shown_entry k);
  page_directory = update k.page_directory virtual_memory_start (user_page (k.pcbs p).pid);
  ss0 = kernel_ds;
  esp0 = kernel_stack (k.pcbs p).pid;
  cpu = (k.pcbs p).frame;
  interrupts = true;
}

-- The middle of `scheduler`: the frame of process `p` is saved, the next terminal scheduled, and the
-- keyboard's line unmasked or masked.
pub next_terminal : Kernel → ℕ → Kernel
next_terminal k p =
    let c = k.console in
    let next = (c.curr_scheduler + 1) % 3 in
    let (masks, outs) =
      if next == c.current_terminal then enable_irq k.masks 1 else disable_irq k.masks 1 in
    emit
      (record k {
        pcbs = update k.pcbs p (record (k.pcbs p) { frame = k.cpu });
        console = record c { curr_scheduler = next };
        masks = masks;
      })
      outs

-- `scheduler` from the point where the terminal runs process `p`.
schedule : ℕ → Kernel → ℕ → Tick
schedule fuel k p =
    let next = next_terminal k p in
    elim (current next) [
      | none ↦ launch fuel (record next { interrupts = true })
      | some q ↦ resumed (switch_to next q)
    ]

-- `scheduler`, the handler of the timer.
pub scheduler : (fuel : ℕ) → Kernel → Tick
scheduler fuel k' =
    let k = record (emit k' (send_eoi 0)) { interrupts = false } in
    elim (current k) [
      | some p ↦ schedule fuel k p
      | none ↦
          if k.console.curr_scheduler == 0
          then launch fuel (
              on_console (record k { console = clear k.console; interrupts = true })
                (clear_set (clear k.console)))
          else crashed
    ]

pub pit_handler : (fuel : ℕ) → Kernel → Tick
pit_handler fuel k = scheduler fuel k
