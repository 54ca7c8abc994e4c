-- ===== src/Kernel.antt =====
-- The state that the parts of the kernel share: pcb.h, and the globals of system_call.c, keyboard.c,
-- paging.c and pit.c. User memory is one array for each page that the entry for 128 MB can name.
use system_engineering.Base.{
  ℕ, zero, suc, ◌+◌, ◌-◌, ◌*◌, ◌^◌, ◌%◌, List, [], ◌∷◌, ◌++◌, Option, none, some, Bool, true, false,
  Arr, Mem, update, u32, bit_or,
}
use system_engineering.Base.Int.{ℤ, pos, negsuc}
use system_engineering.Pic.{PicMasks, Out}
use system_engineering.FileSys.{FileSys}
use system_engineering.Console.{Console, Terminal, putc}
pub mod Sample

-- The handlers that a `fops_t` can point at.
pub data OpenHandler : Type 0 where
  terminal rtc dir file : OpenHandler

pub data CloseHandler : Type 0 where
  terminal rtc dir file : CloseHandler

pub data ReadHandler : Type 0 where
  terminal invalid rtc dir file : ReadHandler

pub data WriteHandler : Type 0 where
  terminal invalid rtc dir file : WriteHandler

-- `fops_t`
pub record Fops : Type 0 where
  pub open_op : OpenHandler
  pub close_op : CloseHandler
  pub read_op : ReadHandler
  pub write_op : WriteHandler

-- `file_array_t`
pub record FileDescriptor : Type 0 where
  pub pointer : Fops
  pub inode : ℕ
  pub file_position : ℕ
  pub flags : ℕ

-- A pair of `%ebp` and `%esp`.
abbrev pub Frame : Type 0
Frame = ℕ × ℕ

-- `pcb_t`. A `pcb_t*` is the number of its 8 KB slot.
pub record Pcb : Type 0 where
  pub pid : ℕ
  pub parent_pid : ℤ
  pub halt_frame : Frame
  pub frame : Frame
  pub argument : Mem
  pub file_descriptor : Arr FileDescriptor
  pub parent_pcb : Option ℕ

pub record Keyboard : Type 0 where
  pub shift : ℕ
  pub capslock : ℕ
  pub caps_checker : ℕ
  pub control : ℕ
  pub left_alt : ℕ
  pub keybuffer_count : Arr ℕ
  pub key_buf : Arr Mem
  pub read_flag : Arr ℕ

pub record Kernel : Type 0 where
  pub console : Console
  pub keyboard : Keyboard
  pub masks : PicMasks
  pub page_directory : Arr ℕ
  pub page_table_video : Arr ℕ
  pub ss0 : ℕ
  pub esp0 : ℕ
  -- the frame of the running code, and whether interrupts are enabled
  pub cpu : Frame
  pub interrupts : Bool
  pub pid : Arr ℤ
  pub process_counter : ℤ
  pub pcbs : Arr Pcb
  pub global_halt : ℕ
  pub global_status : ℕ
  pub fs : FileSys
  pub directory_index : ℤ
  -- user memory, by the entry of the page directory that maps it
  pub programs : Arr Mem
  -- what `inb` reads from a port, and what a local array holds before it is written
  pub inb : ℕ → ℕ
  pub stack : Mem
  -- the port writes so far, oldest first
  pub outs : List Out

abbrev pub vacant : ℤ
vacant = negsuc 0

abbrev pub occupied : ℤ
occupied = pos 1

abbrev pub max_pid : ℕ
max_pid = 5

abbrev pub virtual_memory_start : ℕ
virtual_memory_start = 32

abbrev pub kernel_ds : ℕ
kernel_ds = 0x18

-- `(EIGHT_MB + pid * FOUR_MB) | PAGING_USER_ON`
abbrev pub user_page : ℕ → ℕ
user_page pid = bit_or (u32 (0x800000 + pid * 0x400000)) 0x87

-- `(EIGHT_MB - pid * EIGHT_KB) - FOUR_BYTE`
abbrev pub kernel_stack : ℕ → ℕ
kernel_stack pid = u32 (0x800000 + (2 ^ 32 - u32 (pid * 0x2000)) + (2 ^ 32 - 4))

-- `terminal[curr_scheduler].pcb`
abbrev pub current : Kernel → Option ℕ
current k = (k.console.terminal k.console.curr_scheduler).pcb

abbrev pub set_current : Kernel → Option ℕ → Kernel
set_current k p =
    let c = k.console in
    record k {
      console = record c {
        terminal =
            update c.terminal c.curr_scheduler (record (c.terminal c.curr_scheduler) { pcb = p });
      };
    }

abbrev pub set_descriptor : Kernel → (p fd : ℕ) → FileDescriptor → Kernel
set_descriptor k p fd d = record k {
  pcbs =
      update k.pcbs p
        (record (k.pcbs p) { file_descriptor = update (k.pcbs p).file_descriptor fd d });
}

-- A call of the console, and port writes.
abbrev pub on_console : Kernel → Console × List Out → Kernel
on_console k (c, outs) = record k { console = c; outs = k.outs ++ outs }

abbrev pub emit : Kernel → List Out → Kernel
emit k outs = record k { outs = k.outs ++ outs }

-- `putc` of each character.
unfoldable pub put_all : Kernel → List ℕ → Kernel
put_all k [] = k
put_all k (c ∷ cs) = put_all (on_console k (putc k.console c)) cs
