-- ===== src/Kernel/Sample.antt =====
-- A kernel for the tests: terminals 0 and 1 run the processes of slots 0 and 1, the first is visible
-- and scheduled, and descriptors 0 to 2 of every process are in use.
use system_engineering.Base.{ℕ, ◌+◌, true, ltb, if◌then◌else◌, [], some, none}
use system_engineering.Base.Int.{pos, negsuc}
use system_engineering.Pic.{boot_masks}
use system_engineering.FileSys.Sample.{disk, noughts}
use system_engineering.Console.{Console}
use system_engineering.Kernel.{
  Kernel, Pcb, Fops, OpenHandler, CloseHandler, ReadHandler, WriteHandler, vacant, occupied,
}

abbrev pub file_handlers : Fops
file_handlers = record {
  open_op = OpenHandler.file;
  close_op = CloseHandler.file;
  read_op = ReadHandler.file;
  write_op = WriteHandler.file;
}

abbrev pub sample_pcb : ℕ → Pcb
sample_pcb i = record {
  pid = i;
  parent_pid = negsuc 0;
  halt_frame = (0, 0);
  frame = (100 + i, 200 + i);
  argument = noughts;
  file_descriptor = λ fd. record {
    pointer = file_handlers;
    inode = 0;
    file_position = 0;
    flags = if ltb fd 3 then 1 else 0;
  };
  parent_pcb = none;
}

abbrev pub sample_console : Console
sample_console = record {
  memory = noughts;
  terminal = λ t. record { pcb = if ltb t 2 then some t else none; screen_x = 0; screen_y = 0 };
  current_terminal = 0;
  curr_scheduler = 0;
}

abbrev pub sample_kernel : Kernel
sample_kernel = record {
  console = sample_console;
  keyboard = record {
    shift = 0;
    capslock = 0;
    caps_checker = 0;
    control = 0;
    left_alt = 0;
    keybuffer_count = λ t. 0;
    key_buf = λ t j. 0;
    read_flag = λ t. 0;
  };
  masks = boot_masks;
  page_directory = λ i. 0;
  page_table_video = λ i. 0;
  ss0 = 0;
  esp0 = 0;
  cpu = (7, 8);
  interrupts = true;
  pid = λ i. if ltb i 2 then occupied else vacant;
  process_counter = pos 1;
  pcbs = sample_pcb;
  global_halt = 0;
  global_status = 0;
  fs = disk;
  directory_index = negsuc 0;
  programs = λ page j. 0;
  inb = λ port. 0;
  stack = noughts;
  outs = [];
}
