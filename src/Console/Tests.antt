-- ===== src/Console/Tests.antt =====
-- The console with a shell on each terminal, the second scheduled and the first visible.
use system_engineering.Base.{ℕ, ◌+◌, ◌≤◌, ◌<◌, ◌≢◌, Mem, ◌≡◌, arith, [], some}
use system_engineering.Console.{Console, Pen, put_char, putc, swap_vid_mem, video_mem, vid_page}
use system_engineering.Console.Cursor.{Printed, put_char-Printed}
use system_engineering.Console.Pages.{IsSane, pen, putc-IsSane, putc-background, swap_vid_mem-back}

abbrev addresses : Mem
addresses a = a

abbrev busy : Console
busy = record {
  memory = addresses;
  terminal = λ t. record { pcb = some t; screen_x = 79; screen_y = 24 };
  current_terminal = 0;
  curr_scheduler = 1;
}

abbrev last_pen : Pen
last_pen = record { ink = addresses; x = 79; y = 24 }

busy-IsSane : IsSane busy
busy-IsSane = record {
  cursors = λ t h. omega arith;
  current = omega arith;
  scheduled = omega arith;
}

put_char-Printed_example : Printed video_mem 65 last_pen (put_char video_mem 65 last_pen)
put_char-Printed_example = put_char-Printed video_mem 65 last_pen (omega arith) (omega arith)

putc-IsSane_example : IsSane (putc busy 65).0
putc-IsSane_example = putc-IsSane busy 65 busy-IsSane

putc-background_example :
    Printed (vid_page 1) 65 (record { ink = addresses; x = 79; y = 24 }) (pen (putc busy 65).0)
    × ((a : ℕ) → video_mem ≤ a → a < video_mem + 4000 → (putc busy 65).0.memory a ≡ busy.memory a)
    × ((t a : ℕ)
        → t < 3
        → t ≢ 1
        → a < 4000
        → (putc busy 65).0.memory (vid_page t + a) ≡ busy.memory (vid_page t + a))
    × ((t : ℕ) → t ≢ 1 → (putc busy 65).0.terminal t ≡ busy.terminal t)
    × ((putc busy 65).1 ≡ [])
putc-background_example = putc-background busy 65 busy-IsSane (omega arith)

swap_vid_mem-back_example :
    (swap_vid_mem (record (swap_vid_mem busy 2) { current_terminal = 2 }) 0).memory (video_mem + 4)
    ≡ video_mem + 4
swap_vid_mem-back_example = swap_vid_mem-back busy 2 4 (omega arith) (omega arith)
