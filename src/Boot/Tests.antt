-- ===== src/Boot/Tests.antt =====
-- The boot of the sample kernel, with a table of empty gates.
use system_engineering.Base.{ℕ, ◌+◌, ◌*◌, refl, Arr, subst, sym, arith}
use system_engineering.FileSys.{dentry, file_sys_init}
use system_engineering.FileSys.Sample.{
  sample_image, shell_disk, shell_disk_init, noughts, shell_disk-finds-shell,
}
use system_engineering.Idt.{Gate}
use system_engineering.Kernel.Sample.{sample_kernel}
use system_engineering.Boot.{Machine, Reads, initialise}
use system_engineering.Base.Int.{negsuc}
use system_engineering.Kernel.{vacant}
use system_engineering.Boot.Shells.{ThreeShells, initialise-ThreeShells}
use system_engineering.Process.Command.Sample.{shell-is_exe}
use system_engineering.Process.Shell.{HasShell}
use system_engineering.Boot.Ready.{Ready, initialise-Ready}

abbrev empty_gate : Gate
empty_gate = record {
  offset_15_00 = 0;
  seg_selector = 0;
  reserved4 = 0;
  reserved3 = 0;
  reserved2 = 0;
  reserved1 = 0;
  size = 0;
  reserved0 = 0;
  dpl = 0;
  present = 0;
  offset_31_16 = 0;
}

abbrev switched_on : Machine
switched_on = record { kernel = sample_kernel; idt = λ i. empty_gate }

abbrev sample_reads : Reads
sample_reads = record { cursor_start = 0; cursor_end = 0; prev_b = 2; prev_a = 0x26 }

abbrev wrappers : Arr ℕ
wrappers i = 0x400000 + 16 * i

initialise-Ready_example :
    Ready wrappers switched_on (initialise wrappers sample_reads 0x5000 sample_image 0 switched_on)
initialise-Ready_example =
    initialise-Ready wrappers sample_reads 0x5000 sample_image 0 switched_on refl

-- The machine with the values that the variables are loaded with.
abbrev just_loaded : Machine
just_loaded = record switched_on {
  kernel = record sample_kernel { pid = λ i. vacant; process_counter = negsuc 0 };
}

-- The image with the shell's program.
shell_image-HasShell : HasShell (file_sys_init shell_disk.image 0) noughts
shell_image-HasShell =
    subst (λ fs. HasShell fs noughts) (sym shell_disk_init)
      (record {
        dentry = dentry shell_disk 0;
        found = shell_disk-finds-shell;
        program = shell-is_exe;
      })

initialise-ThreeShells_example :
    ThreeShells 6
      (λ k. record k { cpu = (k.cpu.0 + 4, k.cpu.1) })
      (initialise wrappers sample_reads 0x5000 shell_disk.image 0 just_loaded).kernel
initialise-ThreeShells_example =
    initialise-ThreeShells wrappers sample_reads 0x5000 shell_disk.image 0 just_loaded 6
      (λ k. record k { cpu = (k.cpu.0 + 4, k.cpu.1) })
      (record { free = λ i lt. refl; counter = refl; scheduled = refl }) (omega arith)
      (record {
        stacked = λ k s h. record {
          terminal = h.terminal;
          linked = h.linked;
          small = h.small;
          once = h.once;
          table = h.table;
          counter = h.counter;
        };
        scheduled = λ k. refl;
        files = λ k. refl;
        locals = λ k. refl;
      })
      shell_image-HasShell
