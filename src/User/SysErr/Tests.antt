-- ===== src/User/SysErr/Tests.antt =====
-- The tests of the calls in the sample kernel, run by process 0 on the sample disk.
use system_engineering.Base.{◌==◌, ltb, if◌then◌else◌, none, refl, arith}
use system_engineering.FileSys.{dir_dentry, word}
use system_engineering.FileSys.Sample.{
  disk, noughts, disk-finds-dot, disk-misses-helloo, disk-misses-shel,
}
use system_engineering.Kernel.{Kernel}
use system_engineering.Kernel.Sample.{sample_kernel, sample_pcb}
use system_engineering.Process.{init_fops_table}
use system_engineering.User.OnKernel.{kernel_calls}
use system_engineering.User.SysErr.{run_all, kernel_vidmap, system_call}
use system_engineering.User.SysErr.Lemmas.{Tester, Passed}
use system_engineering.User.SysErr.All.{TestFiles, run_all-Passed}

abbrev tester_kernel : Kernel
tester_kernel = record sample_kernel {
  pcbs = λ i. record (sample_pcb i) {
    file_descriptor = λ fd. record {
      pointer = if fd == 0 then init_fops_table.stdin_fops else init_fops_table.stdout_fops;
      inode = 0;
      file_position = 0;
      flags = if ltb fd 2 then 1 else 0;
    };
  };
}

tester_kernel-Tester : Tester disk tester_kernel 0
tester_kernel-Tester = record {
  runs = refl;
  files = refl;
  stdin_open = refl;
  stdin_write = refl;
  stdout_open = refl;
  stdout_write = refl;
  stdout_read = refl;
  shut = λ i lo hi. ground arith;
}

disk-TestFiles : TestFiles disk
unfolding word
disk-TestFiles = record {
  no_helloo = disk-misses-helloo;
  no_shel = disk-misses-shel;
  here = dir_dentry disk;
  found = disk-finds-dot;
  kind = refl;
}

run_all-Passed_example : Passed disk 0 (
    run_all
      (kernel_calls (λ k. k) (λ k command. none))
      (kernel_vidmap 0x5000)
      (system_call (λ k n. none))
      65
      tester_kernel
      noughts)
run_all-Passed_example =
    run_all-Passed (λ k. k) (λ k command. none) 0x5000 (λ k n. none) 65 (omega arith) disk 0
      tester_kernel noughts tester_kernel-Tester disk-TestFiles
