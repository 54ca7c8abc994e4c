-- ===== src/Syscall/Blocks.antt =====
-- `read` of an open file and `write` to the terminal, through the descriptors of the running process.
use system_engineering.Base.{ℕ, ◌+◌, ◌≤◌, ◌≡◌, refl, ◌==◌, false, ltb, some, Mem, u32, arith, ap}
use system_engineering.Base.Int.{pos}
use system_engineering.Base.Text.{bytes_of}
use system_engineering.FileSys.{read_data}
use system_engineering.Kernel.{Kernel, ReadHandler, WriteHandler, current, set_descriptor, put_all}
use system_engineering.Syscall.{
  read, read_checked, call_read, file_read, advance, write, write_checked, call_write,
}

-- The kernel with the position of a descriptor moved on.
abbrev pub moved_on : Kernel → (p fd count : ℕ) → Kernel
moved_on k p fd count =
    let d = (k.pcbs p).file_descriptor fd in
    set_descriptor k p fd (record d { file_position = u32 (d.file_position + u32 count) })

in_range : (fd : ℕ) → fd ≤ 7 → ltb 7 fd ≡ false
in_range fd h = ground arith

file_read-read_data :
    (k : Kernel) (p fd n count : ℕ) (buf out : Mem)
    → read_data k.fs
        ((k.pcbs p).file_descriptor fd).inode
        ((k.pcbs p).file_descriptor fd).file_position
        (some buf)
        n
      ≡ (pos count, some out)
    → file_read k p fd buf n ≡ (k, out, pos count)
unfolding file_read
file_read-read_data k p fd n count buf out delivered = rw (delivered) refl

advance_lem :
    (wait : Kernel → Kernel) (k : Kernel) (p fd count : ℕ) (out : Mem)
    → current k ≡ some p
    → advance wait fd (k, out, pos count) ≡ some (moved_on k p fd count, out, pos count)
unfolding advance
advance_lem wait k p fd count out runs = rw (runs, advance) refl

call_read-read_data :
    (wait : Kernel → Kernel) (k : Kernel) (p fd n count : ℕ) (buf out : Mem) (reader : ReadHandler)
    → reader ≡ ReadHandler.file
    → read_data k.fs
        ((k.pcbs p).file_descriptor fd).inode
        ((k.pcbs p).file_descriptor fd).file_position
        (some buf)
        n
      ≡ (pos count, some out)
    → call_read wait reader k p fd buf n ≡ some (k, out, pos count)
unfolding call_read
call_read-read_data wait k p fd n count buf out reader file delivered =
    rw file (ap some (file_read-read_data k p fd n count buf out delivered))

-- A read through the descriptor of a file is `read_data` at its position, which moves by the count.
pub read-read_data :
    (wait : Kernel → Kernel) (k : Kernel) (p fd n count : ℕ) (buf out : Mem)
    → current k ≡ some p
    → fd ≤ 7
    → (((k.pcbs p).file_descriptor fd).flags == 0) ≡ false
    → ((k.pcbs p).file_descriptor fd).pointer.read_op ≡ ReadHandler.file
    → read_data k.fs
        ((k.pcbs p).file_descriptor fd).inode
        ((k.pcbs p).file_descriptor fd).file_position
        (some buf)
        n
      ≡ (pos count, some out)
    → read wait k (pos fd) (some buf) (pos n) ≡ some (moved_on k p fd count, some out, pos count)
unfolding read read_checked
read-read_data wait k p fd n count buf out runs range in_use reader delivered =
    let called = call_read-read_data wait k p fd n count buf out _ reader delivered in
    rw
      (
        read,
        read_checked,
        in_range fd range,
        runs,
        in_use,
        called,
        advance_lem wait k p fd count out runs,
      )
      refl

-- A write through a descriptor of the terminal prints the bytes.
pub write-put_all :
    (k : Kernel) (p fd n : ℕ) (buf : Mem)
    → current k ≡ some p
    → fd ≤ 7
    → (((k.pcbs p).file_descriptor fd).flags == 0) ≡ false
    → ((k.pcbs p).file_descriptor fd).pointer.write_op ≡ WriteHandler.terminal
    → write k (pos fd) (some buf) (pos n) ≡ some (put_all k (bytes_of n buf 0), pos n)
unfolding write write_checked call_write
write-put_all k p fd n buf runs range in_use writer =
    rw (in_range fd range, runs, in_use, writer) refl
