-- ===== src/User/PingPong/Tests.antt =====
-- Two rounds on the kernel's calls, in process 0 with descriptor 2 open on the clock.
use system_engineering.Base.{◌==◌, if◌then◌else◌, none, some, Mem, ◌≡◌, refl, arith}
use system_engineering.Base.Int.{pos}
use system_engineering.Kernel.{Kernel}
use system_engineering.Kernel.Sample.{sample_kernel, sample_pcb}
use system_engineering.Process.{init_fops_table}
use system_engineering.User.OnKernel.{kernel_calls}
use system_engineering.User.PingPong.{rounds, walls}
use system_engineering.User.PingPong.Frames.{IsWorld, walls-IsWorld}
use system_engineering.User.PingPong.OnKernel.{HasClock, kernel-Returns}
use system_engineering.User.PingPong.Rounds.{Shows, shown_in, rounds-Shows}

abbrev pingpong_kernel : Kernel
pingpong_kernel = record sample_kernel {
  pcbs = λ i. record (sample_pcb i) {
    file_descriptor = λ fd. record {
      pointer = if fd == 2 then init_fops_table.rtc_fops else init_fops_table.stdout_fops;
      inode = 0;
      file_position = 0;
      flags = 1;
    };
  };
}

-- While the program waits, the clock is read.
abbrev clock_ticks : Kernel → Kernel
clock_ticks k = record k { inb = λ port. 0x26 }

clock_ticks-HasClock : (k : Kernel) → HasClock 0 2 k → HasClock 0 2 (clock_ticks k)
clock_ticks-HasClock k h = record {
  runs = h.runs;
  stdout_open = h.stdout_open;
  stdout_write = h.stdout_write;
  clock_open = h.clock_open;
  clock_read = h.clock_read;
}

rounds-Shows_example :
    (k' : Kernel) × (buf' : Mem) × (rounds
        (kernel_calls clock_ticks (λ k command. none))
        81
        2
        pingpong_kernel
        (pos 2)
        90
        (walls (λ i. 0))
      ≡ some (k', buf'))
    × IsWorld buf'
    × Shows
        (kernel_calls clock_ticks (λ k command. none))
        (pos 2)
        pingpong_kernel
        (shown_in 2 90)
        k'
    × HasClock 0 2 k'
rounds-Shows_example =
    rounds-Shows (kernel_calls clock_ticks (λ k command. none)) (pos 2) (HasClock 0 2)
      (kernel-Returns clock_ticks (λ k command. none) 0 2 (omega arith) clock_ticks-HasClock) 81
      (omega arith) 2 pingpong_kernel 90 (walls (λ i. 0))
      (record {
        runs = refl;
        stdout_open = refl;
        stdout_write = refl;
        clock_open = refl;
        clock_read = refl;
      })
      (walls-IsWorld (λ i. 0)) (omega arith) (omega arith)
