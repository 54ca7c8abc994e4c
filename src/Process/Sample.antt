-- ===== src/Process/Sample.antt =====
-- The start of a program of the sample disk, in the sample kernel.
use system_engineering.Base.{◌≡◌, refl, some}
use system_engineering.FileSys.{dentry}
use system_engineering.FileSys.Sample.{disk, name_a, disk-finds-typed_a}
use system_engineering.Kernel.{Kernel}
use system_engineering.Kernel.Sample.{sample_kernel}
use system_engineering.Process.{
  started, execute, execute_parsed, execute_named, full, new_process, find_pid, find_pid_loop,
  start, prepare, entry_point,
}
use system_engineering.Process.Command.Sample.{cleared, parse_a, a-is_exe}
use system_engineering.Process.Lifecycle.{counted}

abbrev pub a_started : Kernel
a_started = prepare (counted sample_kernel) cleared (dentry disk 0) 2

pub execute_a :
    execute 10 sample_kernel (some name_a)
    ≡ started a_started (entry_point (counted sample_kernel) (dentry disk 0))
unfolding execute execute_parsed execute_named full new_process start find_pid find_pid_loop
execute_a = rw (parse_a, disk-finds-typed_a, a-is_exe) refl
