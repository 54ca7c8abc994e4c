-- ===== src/Rtc.antt =====
-- student-distrib/rtc.c: the real time clock driver. The state is the flag that `rtc_handler`
-- clears; what `inb` reads from the chip is an argument, and the `outb` calls are returned in order.
use system_engineering.Base.{
  ℕ, ◌+◌, ◌-◌, ◌^◌, List, [], ◌∷◌, ◌++◌, Option, none, some, ◌==◌, Bool, true, false, if◌then◌else◌,
  u32, bit_and, bit_or,
}
use system_engineering.Base.Int.{ℤ, pos, negsuc, eqb_ℤ}
use system_engineering.Pic.{PicMasks, Out, outb, enable_irq, send_eoi}
pub mod Rate
pub mod Wait
mod Tests

abbrev pub rtc_reg_num : ℕ
rtc_reg_num = 0x70

abbrev pub rtc_read_write : ℕ
rtc_read_write = 0x71

abbrev pub rtc_reg_a : ℕ
rtc_reg_a = 0x8A

abbrev pub rtc_reg_b : ℕ
rtc_reg_b = 0x8B

abbrev pub rtc_reg_c : ℕ
rtc_reg_c = 0x8C

abbrev pub rtc_irq : ℕ
rtc_irq = 8

abbrev pub select_a : Out
select_a = outb rtc_reg_a rtc_reg_num

abbrev pub success : ℤ
success = pos 0

abbrev pub failure : ℤ
failure = negsuc 0

abbrev pub unlock : ℕ
unlock = 0

abbrev pub lock : ℕ
lock = 1

-- `prev` is the old value of register A.
pub rtc_open : (prev : ℕ) → ℤ × List Out
rtc_open prev =
    (success, select_a ∷ select_a ∷ outb (bit_or (bit_and prev 0xF0) 0x0F) rtc_read_write ∷ [])

-- `prev_b` and `prev_a` are the old values of registers B and A.
unfoldable pub rtc_init : PicMasks → (prev_b prev_a : ℕ) → PicMasks × List Out
rtc_init m prev_b prev_a =
    let (code, outs) = rtc_open prev_a in
    let (m', irq_outs) = enable_irq m rtc_irq in
    (
      m',
      outb rtc_reg_b rtc_reg_num
          ∷ outb rtc_reg_b rtc_reg_num
          ∷ outb (bit_or prev_b 0x40) rtc_read_write
          ∷ (outs ++ irq_outs),
    )

-- The flag after the handler, its code and its port writes.
pub rtc_handler : ℕ × ℤ × List Out
rtc_handler = (unlock, success, send_eoi rtc_irq ++ (outb rtc_reg_c rtc_reg_num ∷ []))

-- `while(rtc_interrupt_occurred == LOCK){}`: an entry of the schedule says whether the handler runs
-- before the next test of the flag. `none`: the schedule ends and the loop still runs.
pub rtc_wait : ℕ → List Bool → Option (List Bool)
rtc_wait flag [] = if flag == lock then none else some []
rtc_wait flag (fires ∷ rest) =
    let again = rtc_wait (if fires then rtc_handler.0 else flag) rest in
    if flag == lock then again else some (fires ∷ rest)

-- The result and what is left of the schedule.
pub rtc_read : List Bool → Option (ℤ × List Bool)
rtc_read schedule = elim (rtc_wait lock schedule) [ none ↦ none | some rest ↦ some (success, rest) ]

-- The switch of `rtc_write`.
pub rate : ℕ → Option ℕ
rate value =
    if value == 0
    then some 0x00
    else if value == 2
    then some 0x0F
    else if value == 4
    then some 0x0E
    else if value == 8
    then some 0x0D
    else if value == 16
    then some 0x0C
    else if value == 32
    then some 0x0B
    else if value == 64
    then some 0x0A
    else if value == 128
    then some 0x09
    else if value == 256
    then some 0x08
    else if value == 512
    then some 0x07
    else if value == 1024
    then some 0x06
    else none

-- `value & (value - 1)`
abbrev pub power_of_two : ℕ → ℕ
power_of_two value = bit_and value (u32 (value + (2 ^ 32 - 1)))

-- `buf` is `none` for NULL and else the word that it points at.
pub rtc_write : (buf : Option ℕ) (nbytes : ℤ) (prev_a : ℕ) → ℤ × List Out
rtc_write none nbytes prev_a = (failure, [])
rtc_write (some value) nbytes prev_a =
    if eqb_ℤ nbytes (pos 4)
    then (if power_of_two value == 0 then switch (rate value) else (failure, select_a ∷ []))
    else (failure, [])
  where
    switch : Option ℕ → ℤ × List Out
    switch none = (failure, select_a ∷ [])
    switch (some r) = (
      success,
      select_a
          ∷ select_a
          ∷ outb (bit_or (bit_and prev_a 0xF0) (bit_and r 0x0F)) rtc_read_write
          ∷ [],
    )

pub rtc_close : ℤ
rtc_close = success
