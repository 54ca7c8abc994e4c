-- ===== src/User/KernelView/Screen.antt =====
-- What cat leaves on the screen of the kernel.
use system_engineering.Base.{ℕ, ◌+◌, ◌-◌, ◌<◌, ◌≤◌, ◌≡◌, ◌≢◌, ◌∙◌, ap, Option, some, Mem, arith}
use system_engineering.Base.Int.{ℤ, pos}
use system_engineering.Base.Text.{bytes_of}
use system_engineering.FileSys.{inode_length}
use system_engineering.FileSys.Data.{file_byte}
use system_engineering.Kernel.{Kernel, current}
use system_engineering.User.Programs.{cat_loop}
use system_engineering.User.Cat.{cat_loop_lem, length-bytes_of}
use system_engineering.User.OnKernel.{kernel_calls}
use system_engineering.User.OpenFile.{printed, left}
use system_engineering.User.KernelView.{Readable, kernel_view}

left_padding :
    (size position : ℕ)
    → position ≤ size
    → (padding : ℕ) × (padding < 1024) × (left size position ≡ size - position + padding)
unfolding left
left_padding size position h = (left size position - (size - position), omega arith, omega arith)

-- Process `p` reads an open file through descriptor `fd`, not behind its end, writes to the terminal
-- through descriptor 1, and the file system has the file's blocks. Given at least as many rounds as bytes
-- can be read, the loop of cat ends with 0, and the console has printed the file from its position to
-- its end, and after it fewer than 1024 bytes from behind the end.
pub cat_loop-printed :
    (wait : Kernel → Kernel) (run : Kernel → Mem → Option (Kernel × ℤ)) (k : Kernel)
    (p fd fuel rounds : ℕ) (buf : Mem)
    → fd ≤ 7
    → fd ≢ 1
    → Readable p (current k) ((k.pcbs p).file_descriptor fd) ((k.pcbs p).file_descriptor 1) k.fs
    → ((k.pcbs p).file_descriptor fd).file_position
      ≤ inode_length k.fs ((k.pcbs p).file_descriptor fd).inode
    → inode_length k.fs ((k.pcbs p).file_descriptor fd).inode + 1024 ≤ rounds
    → (k' : Kernel) × (padding : ℕ) × (padding < 1024)
      × (cat_loop (kernel_calls wait run) fuel rounds k (pos fd) buf ≡ some (k', pos 0))
      × (k'.console
          ≡ printed k.console (
              bytes_of
                (inode_length k.fs ((k.pcbs p).file_descriptor fd).inode
                  - ((k.pcbs p).file_descriptor fd).file_position
                  + padding)
                (file_byte k.fs ((k.pcbs p).file_descriptor fd).inode)
                ((k.pcbs p).file_descriptor fd).file_position))
unfolding kernel_view
cat_loop-printed wait run k p fd fuel rounds buf range not_terminal h inside enough =
    let d = (k.pcbs p).file_descriptor fd in
    let (padding, short, total) = left_padding (inode_length k.fs d.inode) d.file_position inside in
    let count =
      length-bytes_of (left (inode_length k.fs d.inode) d.file_position) (file_byte k.fs d.inode)
        d.file_position in
    let (k', done, shown) =
      cat_loop_lem (kernel_calls wait run) fuel (pos fd)
        (kernel_view wait run p fd range not_terminal) rounds k buf h (omega arith) in
    (
      k',
      padding,
      short,
      done,
      shown
          ∙ ap (λ n. printed k.console (bytes_of n (file_byte k.fs d.inode) d.file_position)) total,
    )
