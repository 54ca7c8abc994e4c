-- ===== src/Process.antt =====
-- student-distrib/system_call.c: processes. `execute` and `halt` up to the point where the processor
-- goes on with other code, the process table, and the command line.
use system_engineering.Base.{
  ℕ, zero, suc, ◌+◌, ◌-◌, ◌*◌, ◌^◌, ◌%◌, List, [], ◌∷◌, ◌++◌, Option, none, some, Bool, true, false,
  not, ◌&&◌, ◌||◌, ltb, leb, ◌==◌, if◌then◌else◌, Arr, Mem, update, u32,
}
use system_engineering.Base.Text.{codes, text}
use system_engineering.Base.Int.{ℤ, pos, negsuc, eqb_ℤ, incr, decr, pos_part}
use system_engineering.CString.{strncmp}
use system_engineering.FileSys.{
  FileSys, Dentry, read_dentry_by_name, read_data, inode_length, word, equal_strings,
}
use system_engineering.Console.{Console}
use system_engineering.Kernel.{
  Kernel, Pcb, Fops, FileDescriptor, Frame, vacant, occupied, max_pid, virtual_memory_start,
  kernel_ds, user_page, kernel_stack, current, set_current, set_descriptor, put_all, OpenHandler,
  CloseHandler, ReadHandler, WriteHandler,
}
pub mod Command
pub mod Table
pub mod Halt
pub mod Lifecycle
pub mod RoundTrip
pub mod Failed
pub mod Root
pub mod Shell
pub mod Sample
mod Tests
pub use Command.{Parsed, no_fuel, bad, parsed, parse, is_exe}
use system_engineering.Process.Command.{buffer_after}

abbrev pub shell : Mem
shell = text (codes "shell")

abbrev pub exit_name : Mem
exit_name = text (codes "exit")

abbrev pub too_many : List ℕ
too_many = codes "Maximum number of process reached. Exit please" ++ (10 ∷ [])

-- The five tables that `init_fops_table` fills.
pub record Tables : Type 0 where
  pub stdin_fops : Fops
  pub stdout_fops : Fops
  pub rtc_fops : Fops
  pub dir_fops : Fops
  pub file_fops : Fops

abbrev pub init_fops_table : Tables
init_fops_table = record {
  stdin_fops = record {
    open_op = OpenHandler.terminal;
    close_op = CloseHandler.terminal;
    read_op = ReadHandler.terminal;
    write_op = WriteHandler.invalid;
  };
  stdout_fops = record {
    open_op = OpenHandler.terminal;
    close_op = CloseHandler.terminal;
    read_op = ReadHandler.invalid;
    write_op = WriteHandler.terminal;
  };
  rtc_fops = record {
    open_op = OpenHandler.rtc;
    close_op = CloseHandler.rtc;
    read_op = ReadHandler.rtc;
    write_op = WriteHandler.rtc;
  };
  dir_fops = record {
    open_op = OpenHandler.dir;
    close_op = CloseHandler.dir;
    read_op = ReadHandler.dir;
    write_op = WriteHandler.dir;
  };
  file_fops = record {
    open_op = OpenHandler.file;
    close_op = CloseHandler.file;
    read_op = ReadHandler.file;
    write_op = WriteHandler.file;
  };
}

-- The loop of `find_pid`.
find_pid_loop : ℕ → Arr ℤ → ℕ → Option ℕ
find_pid_loop zero pid i = none
find_pid_loop (suc k) pid i =
    let rest = find_pid_loop k pid (i + 1) in if eqb_ℤ (pid i) vacant then some i else rest

pub find_pid : Arr ℤ → Option ℕ
find_pid pid = find_pid_loop (max_pid + 1) pid 0

-- The loop of `init_pcb` that clears the flags, over the rounds left.
pub clear_flags : ℕ → ℕ → Arr FileDescriptor → Arr FileDescriptor
clear_flags zero i d = d
clear_flags (suc k) i d = clear_flags k (i + 1) (update d i (record (d i) { flags = 0 }))

abbrev std : Fops → FileDescriptor
std f = record { pointer = f; inode = 0; file_position = 0; flags = 1 }

-- `init_pcb` of the slot `this_pid`: `BEGINING_FDA` is 2 and `END_OF_FDA` is 7. The source keeps a pointer
-- to the argument in the frame of `execute`; the model keeps what the array holds now, which is what
-- stands there as long as that frame is not used again.
pub init_pcb : Kernel → Mem → ℕ → Kernel
init_pcb k arg this_pid =
    let old = k.pcbs this_pid in
    let parent = elim (current k) as (λ _. ℤ) [ none ↦ negsuc 0 | some q ↦ pos (k.pcbs q).pid ] in
    let opened =
      update (update old.file_descriptor 0 (std init_fops_table.stdin_fops)) 1
        (std init_fops_table.stdout_fops) in
    let new = record old {
      pid = this_pid;
      parent_pid = parent;
      argument = arg;
      file_descriptor = clear_flags 5 2 opened;
      parent_pcb = current k;
    } in
    set_current
      (record k { pid = update k.pid this_pid occupied; pcbs = update k.pcbs this_pid new })
      (some this_pid)

-- How a call leaves the kernel: with a value, at the entry point of a program, or by a fault.
pub data Outcome : Type 0 where
  returned : Kernel → ℤ → Outcome
  started : Kernel → ℕ → Outcome
  fault : Outcome

-- The program image goes to 0x08048000, which is 0x48000 into the page at 128 MB.
abbrev load_image : Kernel → (inode : ℕ) → Kernel
load_image k inode =
    let page = k.page_directory virtual_memory_start in
    let old = k.programs page in
    let image =
      buffer_after (λ j. old (0x48000 + j))
        (read_data k.fs inode 0 (some (λ j. old (0x48000 + j))) (inode_length k.fs inode)) in
    record k {
      programs = update k.programs page (λ a. if ltb a 0x48000 then old a else image (a - 0x48000));
    }

-- `pcb_process->parent_pcb` remembers where `execute` was called.
abbrev save_parent : Kernel → Option ℕ → Kernel
save_parent k none = k
save_parent k (some q) = record k {
  pcbs = update k.pcbs q (record (k.pcbs q) { halt_frame = k.cpu });
}

-- `execute` from the point where the new process has its pid: the kernel when the processor goes to
-- the program, and the entry point that it goes to.
set_up : Kernel → Mem → Dentry → ℕ → Kernel
set_up k arg d this_pid =
    let mapped = record k {
      page_directory = update k.page_directory virtual_memory_start (user_page this_pid);
    } in
    let loaded = load_image (init_pcb mapped arg this_pid) d.inode_num in
    record loaded { ss0 = kernel_ds; esp0 = kernel_stack this_pid }

pub prepare : Kernel → Mem → Dentry → ℕ → Kernel
prepare k arg d this_pid =
    let ready = set_up k arg d this_pid in save_parent ready (ready.pcbs this_pid).parent_pcb

pub entry_point : Kernel → Dentry → ℕ
entry_point k d = word (buffer_after k.stack (read_data k.fs d.inode_num 24 (some k.stack) 4)) 0

start : Kernel → Mem → Dentry → ℕ → Outcome
start k arg d this_pid = started (prepare k arg d this_pid) (entry_point k d)

-- With no pid left, which a program named `exit` or a terminal without a process can meet, the source goes
-- on with pid -1, before the start of the table: the model ends in a fault there.
new_process : Kernel → Mem → Dentry → Outcome
new_process k arg d = elim (find_pid k.pid) [ none ↦ fault | some i ↦ start k arg d i ]

-- Whether a terminal that runs a process asks for one more than the table holds.
pub full : Kernel → Bool
full k = elim (current k) [ none ↦ false | some p ↦ eqb_ℤ k.process_counter (pos max_pid) ]

-- The checks of `execute` behind `parse`, and what follows them.
execute_named : Kernel → Mem → Mem → Outcome
execute_named k filename arg =
    if full k && not (equal_strings filename exit_name 5)
    then returned (put_all k too_many) (negsuc 0)
    else elim (read_dentry_by_name k.fs filename) [
      | none ↦ returned k (negsuc 0)
      | some d ↦
          if is_exe k.fs k.stack filename
          then new_process (record k { process_counter = incr k.process_counter }) arg d
          else returned k (negsuc 0)
    ]

execute_parsed : Kernel → Parsed → Outcome
execute_parsed k no_fuel = fault
execute_parsed k bad = returned k (negsuc 0)
execute_parsed k (parsed filename arg) = execute_named k filename arg

-- `fuel` bounds the rounds of each loop of `parse`.
pub execute : (fuel : ℕ) → Kernel → Option Mem → Outcome
execute fuel k' command =
    let k = record k' { interrupts = false } in
    execute_parsed k (parse fuel command k.stack k.stack)

-- `close`, whose handlers all do nothing. `none` is a fault: there is no current process.
unfoldable pub close : Kernel → ℤ → Option (Kernel × ℤ)
close k fd = elim (current k) [
  | none ↦ none
  | some p ↦ elim fd [
    | negsuc n ↦ some (k, negsuc 0)
    | pos n ↦
        if ltb n 2 || ltb 7 n
        then some (k, negsuc 0)
        else if ((k.pcbs p).file_descriptor n).flags == 0
        then some (k, negsuc 0)
        else some (
          set_descriptor k p n
              (record ((k.pcbs p).file_descriptor n) { inode = 0; file_position = 0; flags = 0 }),
          pos 0,
        )
  ]
]

-- The kernel after `close(i)`, whatever it returns.
abbrev closed : Kernel → ℕ → Kernel
closed k i = elim (close k (pos i)) [ none ↦ k | some (k', code) ↦ k' ]

-- The loop of `halt` that closes the files of process `p`, over the rounds left.
close_all : ℕ → Kernel → (p i : ℕ) → Kernel
close_all zero k p i = k
close_all (suc r) k p i =
    close_all r (if ((k.pcbs p).file_descriptor i).flags == 1 then closed k i else k) p (i + 1)

-- The end of `execute`, where `halt` jumps to.
resume : Kernel → Outcome
resume k =
    if k.global_halt == 1
    then returned (record k { global_halt = 0 }) (pos 256)
    else returned k (pos 0)

-- `halt` of process `p` with the parent `q`, whose pid is `parent_pid`: the parent's page and stack,
-- then the files, then the process itself.
restored : Kernel → (parent_pid q : ℕ) → Kernel
restored k parent_pid q = record k {
  page_directory = update k.page_directory virtual_memory_start (user_page parent_pid);
  esp0 = kernel_stack parent_pid;
  cpu = (k.pcbs q).halt_frame;
}

finished : Kernel → (p parent_pid q status : ℕ) → Kernel
finished k p parent_pid q status =
    let back = set_current (close_all 8 (restored k parent_pid q) p 0) (some q) in
    record back { process_counter = decr back.process_counter; global_status = status }

pub halt : (fuel : ℕ) → Kernel → (status : ℕ) → Outcome
halt fuel k status = elim (current k) [
  | none ↦ fault
  | some p ↦
      let freed = record k { pid = update k.pid (k.pcbs p).pid vacant } in
      elim ((k.pcbs p).parent_pid) [
        | negsuc n ↦ root (record freed { process_counter = decr k.process_counter })
        | pos parent_pid ↦ elim ((k.pcbs p).parent_pcb) [
          | none ↦ fault
          | some q ↦ resume (finished freed p parent_pid q status)
        ]
      ]
]
  where
    -- A root shell is started again; if that fails, the code goes on with a NULL `pcb`.
    root : Kernel → Outcome
    root k' = elim (execute fuel (set_current k' none) (some shell)) [
      | returned k'' code ↦ fault
      | started k'' entry ↦ started k'' entry
      | fault ↦ fault
    ]
