-- ===== src/Rtc/Tests.antt =====
-- The clock at concrete rates and schedules.
use system_engineering.Base.{◌*◌, ◌≡◌, arith, [], ◌∷◌, some}
use system_engineering.Base.Int.{pos}
use system_engineering.Pic.{outb}
use system_engineering.Rtc.{rtc_write, select_a, rtc_read_write}
use system_engineering.Rtc.Rate.{rtc_write-power}

rtc_write-power_example :
    (rtc_write (some 64) (pos 4) 0x26
      ≡ (pos 0, select_a ∷ select_a ∷ outb 0x2A rtc_read_write ∷ []))
    × (64 * 512 ≡ 32768)
rtc_write-power_example = rtc_write-power 6 0x26 (omega arith) (omega arith) (omega arith)
