-- ===== src/Syscall/Tests.antt =====
-- The file calls of the sample kernel.
use system_engineering.Base.{◌≡◌, refl, some}
use system_engineering.Base.Int.{pos}
use system_engineering.FileSys.{word}
use system_engineering.FileSys.Sample.{name_a, disk-finds-a}
use system_engineering.Base.{◌<◌, ◌≢◌, Mem, ℕ, zero, suc, ◌==◌, if◌then◌else◌, arith}
use system_engineering.Syscall.{call_read, locked}
use system_engineering.Syscall.Lines.{line_read, terminal_read_lem}
use system_engineering.Kernel.{ReadHandler, Kernel, set_descriptor}
use system_engineering.Kernel.Sample.{sample_kernel, file_handlers}
use system_engineering.Process.{close}
use system_engineering.Syscall.{open_file, find_fd, opened, open_dentry, call_open}
use system_engineering.Syscall.Files.{Reclosed, open_file-close}

abbrev opened_a : Kernel
opened_a =
    set_descriptor sample_kernel 0 3
      (record { pointer = file_handlers; inode = 0; file_position = 0; flags = 1 })

open_a : open_file sample_kernel (some name_a) ≡ some (opened_a, pos 3)
unfolding open_file open_dentry find_fd opened word call_open
open_a = rw disk-finds-a refl

open_file-close_example :
    (k2 : Kernel) × (close opened_a (pos 3) ≡ some (k2, pos 0)) × Reclosed sample_kernel k2 0 3
open_file-close_example = open_file-close sample_kernel opened_a 0 3 name_a refl open_a

-- While the read waits, "a" and enter are typed.
abbrev a_line : Mem
a_line j = if j == 0 then 97 else 10

abbrev types_a : Kernel → Kernel
types_a k =
    let b = k.keyboard in
    record k { keyboard = record b { key_buf = λ t. a_line; read_flag = λ t. 0 } }

terminal_read_lem_example :
    (out : Mem) × (call_read types_a ReadHandler.terminal sample_kernel 0 0 (λ j. 0) 128
      ≡ some (types_a (locked sample_kernel), out, pos 2))
    × ((j : ℕ) → out j ≡ line_read 128 1 0 a_line (λ j. 0) j)
terminal_read_lem_example = terminal_read_lem types_a sample_kernel (λ j. 0) 128 1 refl before_one
  where
    before_one : (j : ℕ) → j < 1 → a_line j ≢ 10
    before_one zero h = omega arith
    before_one (suc j) h = absurd (omega arith)
