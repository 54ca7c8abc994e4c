-- ===== src/Syscall.antt =====
-- student-distrib/system_call.c: the calls on files, and what they dispatch to in keyboard.c, rtc.c and
-- file_sys.c. `none` is a fault: the terminal runs no process. A handler that waits for an interrupt is
-- given `wait`, which takes the kernel as the wait begins to the kernel as it ends.
use system_engineering.Base.{
  ℕ, zero, suc, ◌+◌, ◌-◌, ◌*◌, ◌^◌, ◌%◌, List, [], ◌∷◌, ◌++◌, Option, none, some, Bool, true, false,
  not, ◌&&◌, ◌||◌, ltb, leb, ◌==◌, if◌then◌else◌, Arr, Mem, update, u32,
}
use system_engineering.Base.Text.{bytes_of}
use system_engineering.Base.Int.{ℤ, pos, negsuc, eqb_ℤ, ltb_ℤ}
use system_engineering.CString.{strlen, strncpy}
use system_engineering.FileSys
use system_engineering.FileSys.{Dentry, word, read_dentry_by_name, read_data, dir_read}
use system_engineering.Rtc.{rtc_open, rtc_write}
use system_engineering.Kernel.{
  Kernel, Keyboard, Pcb, Fops, FileDescriptor, current, set_descriptor, emit, put_all, ReadHandler,
  WriteHandler, OpenHandler,
}
use system_engineering.Process.{init_fops_table}
pub mod Files
pub mod Blocks
pub mod Lines
pub mod Quiet
pub mod Errors
pub mod Opens
mod Tests

abbrev pub success : ℤ
success = pos 0

abbrev pub failure : ℤ
failure = negsuc 0

-- The bits of an `int32_t` as a `uint32_t`.
abbrev pub to_u32 : ℤ → ℕ
to_u32 (pos n) = u32 n
to_u32 (negsuc n) = u32 (2 ^ 32 - 1 - n)

-- The search of `open` for a free descriptor, over the rounds left.
pub find_fd : ℕ → Arr FileDescriptor → ℕ → Option ℕ
find_fd zero d i = none
find_fd (suc k) d i = let rest = find_fd k d (i + 1) in if (d i).flags == 0 then some i else rest

-- The descriptor of a file just opened; every other file type than the three is refused.
pub opened : Dentry → Option FileDescriptor
opened d =
    if d.file_type == 0
    then some (fresh init_fops_table.rtc_fops 0)
    else if d.file_type == 1
    then some (fresh init_fops_table.dir_fops 0)
    else if d.file_type == 2
    then some (fresh init_fops_table.file_fops d.inode_num)
    else none
  where
    fresh : Fops → ℕ → FileDescriptor
    fresh f inode = record { pointer = f; inode = inode; file_position = 0; flags = 1 }

-- `pointer_.open_(filename)`: the clock's handler talks to the clock, the others do nothing.
pub call_open : OpenHandler → Kernel → Kernel
call_open OpenHandler.rtc k = emit k (rtc_open (k.inb 0x71)).1
call_open _ k = k

-- `open` behind its checks of the name, for process `p`.
pub open_dentry : Kernel → ℕ → Dentry → Kernel × ℤ
open_dentry k p d = elim (find_fd 6 (k.pcbs p).file_descriptor 2) [
  | none ↦ (k, failure)
  | some fd ↦ elim (opened d) [
    | none ↦ (k, failure)
    | some f ↦ (call_open f.pointer.open_op (set_descriptor k p fd f), pos fd)
  ]
]

-- `open`; `filename` is `none` for NULL.
pub open_file : Kernel → Option Mem → Option (Kernel × ℤ)
open_file k none = some (k, failure)
open_file k (some filename) =
    if filename 0 == 0 then some (k, failure) else elim (read_dentry_by_name k.fs filename) [
      | none ↦ some (k, failure)
      | some d ↦ elim (current k) [ none ↦ none | some p ↦ some (open_dentry k p d) ]
    ]

-- The loop of `terminal_read` over the rounds left: the count and the buffer.
pub terminal_read_loop : ℕ → (nbytes i : ℕ) → (line buf : Mem) → ℕ × Mem
terminal_read_loop zero nbytes i line buf = (i, buf)
terminal_read_loop (suc k) nbytes i line buf =
    let rest = terminal_read_loop k nbytes (i + 1) line (update buf i (line i)) in
    if i + 1 == nbytes
    then (i + 1, update buf i 10)
    else if line i == 10
    then (i + 1, update buf i (line i))
    else rest

-- `readFlag[curr_scheduler] = LOCK`
abbrev pub locked : Kernel → Kernel
locked k =
    let b = k.keyboard in
    record k { keyboard = record b { read_flag = update b.read_flag k.console.curr_scheduler 1 } }

-- What a read leaves: the kernel, the buffer and the value.
abbrev pub ReadResult : Type 0
ReadResult = Kernel × Mem × ℤ

-- A directory's read, which also moves the kernel's index.
directory_read : Kernel → Mem → Option ReadResult
directory_read k buf =
    let r = dir_read k.fs k.directory_index (some buf) in
    let k' = record k { directory_index = r.directory_index } in
    elim r.code [
      | none ↦ none
      | some code ↦ elim r.buf [ none ↦ none | some out ↦ some (k', out, code) ]
    ]

-- A file's read: the buffer is not NULL here.
pub file_read : Kernel → (p fd : ℕ) → Mem → (nbytes : ℕ) → ReadResult
file_read k p fd buf nbytes =
    let d = (k.pcbs p).file_descriptor fd in
    let (code, out) = read_data k.fs d.inode d.file_position (some buf) nbytes in
    (k, elim out [ none ↦ buf | some b ↦ b ], code)

module _ (wait : Kernel → Kernel) where
  terminal_read : Kernel → Mem → (nbytes : ℕ) → ReadResult
  terminal_read k buf nbytes =
      let k' = wait (locked k) in
      let (count, out) =
        terminal_read_loop nbytes nbytes 0 (k'.keyboard.key_buf k'.console.curr_scheduler) buf in
      (k', out, pos count)

  -- `pointer_.read_(fd, buf, nbytes)`
  pub call_read : ReadHandler → Kernel → (p fd : ℕ) → Mem → (nbytes : ℕ) → Option ReadResult
  call_read ReadHandler.terminal k p fd buf nbytes = some (terminal_read k buf nbytes)
  call_read ReadHandler.invalid k p fd buf nbytes = some (k, buf, failure)
  call_read ReadHandler.rtc k p fd buf nbytes = some (wait k, buf, success)
  call_read ReadHandler.dir k p fd buf nbytes = directory_read k buf
  call_read ReadHandler.file k p fd buf nbytes = some (file_read k p fd buf nbytes)

  -- `file_position_ += num_read`, for the process that runs after the handler.
  advance : ℕ → ReadResult → Option ReadResult
  advance fd (k, out, code) = elim (current k) [
    | none ↦ none
    | some p ↦
        let d = (k.pcbs p).file_descriptor fd in
        some (
          set_descriptor k p fd (record d { file_position = u32 (d.file_position + to_u32 code) }),
          out,
          code,
        )
  ]

  -- `read` behind its checks of `nbytes` and `buf`.
  read_checked : Kernel → ℤ → Mem → (nbytes : ℕ) → Option ReadResult
  read_checked k (negsuc n) buf nbytes = some (k, buf, failure)
  read_checked k (pos fd) buf nbytes =
      if ltb 7 fd then some (k, buf, failure) else elim (current k) [
        | none ↦ none
        | some p ↦
            let d = (k.pcbs p).file_descriptor fd in
            if d.flags == 0
            then some (k, buf, failure)
            else elim (call_read d.pointer.read_op k p fd buf nbytes) [
              | none ↦ none
              | some r ↦ advance fd r
            ]
      ]

  -- `read`; `buf` is `none` for NULL, and then no buffer comes back.
  pub read : Kernel → ℤ → Option Mem → ℤ → Option (Kernel × Option Mem × ℤ)
  read k fd buf (negsuc n) = some (k, buf, failure)
  read k fd none (pos nbytes) = some (k, none, failure)
  read k fd (some buf) (pos nbytes) = elim (read_checked k fd buf nbytes) [
    | none ↦ none
    | some (k', out, code) ↦ some (k', some out, code)
  ]

-- `pointer_.write_(fd, buf, nbytes)`
pub call_write : WriteHandler → Kernel → Mem → (nbytes : ℕ) → Kernel × ℤ
call_write WriteHandler.terminal k buf nbytes = (put_all k (bytes_of nbytes buf 0), pos nbytes)
call_write WriteHandler.rtc k buf nbytes =
    let (code, outs) = rtc_write (some (word buf 0)) (pos nbytes) (k.inb 0x71) in
    (emit k outs, code)
call_write _ k buf nbytes = (k, failure)

write_checked : Kernel → ℤ → Mem → (nbytes : ℕ) → Option (Kernel × ℤ)
write_checked k (negsuc n) buf nbytes = some (k, failure)
write_checked k (pos fd) buf nbytes = if ltb 7 fd then some (k, failure) else elim (current k) [
  | none ↦ none
  | some p ↦
      let d = (k.pcbs p).file_descriptor fd in
      if d.flags == 0 then some (k, failure) else some (call_write d.pointer.write_op k buf nbytes)
]

pub write : Kernel → ℤ → Option Mem → ℤ → Option (Kernel × ℤ)
write k fd buf (negsuc n) = some (k, failure)
write k fd none (pos nbytes) = some (k, failure)
write k fd (some buf) (pos nbytes) = write_checked k fd buf nbytes

-- Whether one of the first bytes is a NUL.
has_nul : ℕ → Mem → ℕ → Bool
has_nul zero buf i = false
has_nul (suc n) buf i = let rest = has_nul n buf (i + 1) in if buf i == 0 then true else rest

-- `getargs`, with the buffer after it. A process's argument is terminated within 129 bytes.
pub getargs : Kernel → Option Mem → ℤ → Option (Option Mem × ℤ)
getargs k buf (negsuc n) = some (buf, failure)
getargs k none (pos n) = some (none, failure)
getargs k (some buf) (pos n) = if n == 0 then some (some buf, failure) else elim (current k) [
  | none ↦ none
  | some p ↦ elim (strlen 129 (k.pcbs p).argument) [
    | none ↦ none
    | some len ↦
        if len == 0
        then some (some buf, failure)
        else let out = strncpy buf (k.pcbs p).argument n in
          some (some out, if has_nul n out 0 then success else failure)
  ]
]

-- The two calls on signals, which do nothing.
pub set_handler : (signum : ℤ) (handler_address : ℕ) → ℤ
set_handler signum handler_address = failure

pub sigreturn : ℤ
sigreturn = failure
