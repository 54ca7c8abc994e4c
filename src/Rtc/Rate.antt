-- ===== src/Rtc/Rate.antt =====
-- Which frequencies `rtc_write` accepts, and what it programs.
use system_engineering.Base.{
  ℕ, ◌+◌, ◌-◌, ◌*◌, ◌/◌, ◌^◌, ◌<◌, ◌≤◌, ◌≡◌, ◌≢◌, refl, true, arith, Bool, ◌&&◌, ◌||◌, ◌==◌, ==_iff,
  Option, none, some, bit_and, bit_or, ltb, [], ◌∷◌,
}
use system_engineering.Base.Int.{pos, negsuc}
use system_engineering.Base.Table.{every_below, every_below-holds}
use system_engineering.Pic.{outb}
use system_engineering.Rtc.{rate, rtc_write, rtc_read_write, select_a, power_of_two}

is_some_of : Option ℕ → ℕ → Bool
is_some_of none r = ltb r 0
is_some_of (some s) r = s == r

some_of : (o : Option ℕ) (r : ℕ) → is_some_of o r ≡ true → o ≡ some r
unfolding is_some_of
some_of none r h = ground arith
some_of (some s) r h = ground arith

powers : ℕ → Bool
unfolding is_some_of rate
powers k =
    k == 0
    || ((power_of_two (2 ^ k) == 0)
        && (is_some_of (rate (2 ^ k)) (16 - k) && 2 ^ k * 2 ^ (16 - k - 1) == 32768))

powers_table : every_below 11 powers ≡ true
unfolding every_below powers
powers_table = refl

module _ (k : ℕ) (h : 1 ≤ k) (h' : k ≤ 10) where
  powers_at : powers k ≡ true
  powers_at = every_below-holds 11 powers k powers_table (omega arith)

  power_of_two-pow : power_of_two (2 ^ k) ≡ 0
  unfolding powers
  power_of_two-pow = ground (arith, powers_at)

  rate-pow : rate (2 ^ k) ≡ some (16 - k)
  unfolding powers
  rate-pow = some_of (rate (2 ^ k)) (16 - k) (ground (arith, powers_at))

  rate_frequency : 2 ^ k * 2 ^ (16 - k - 1) ≡ 32768
  unfolding powers
  rate_frequency = ground (arith, powers_at)

keeps_top : ℕ → ℕ → Bool
keeps_top prev r = bit_or (bit_and prev 0xF0) (bit_and r 0x0F) == prev / 16 * 16 + r

keeps_table : every_below 256 (λ prev. every_below 16 (keeps_top prev)) ≡ true
unfolding every_below keeps_top
keeps_table = refl

register-byte :
    (prev r : ℕ)
    → prev < 256
    → r < 16
    → bit_or (bit_and prev 0xF0) (bit_and r 0x0F) ≡ prev / 16 * 16 + r
unfolding keeps_top
register-byte prev r h h' = (==_iff _ _).0 (
    every_below-holds 16 (keeps_top prev) r
      (every_below-holds 256 (λ prev. every_below 16 (keeps_top prev)) prev keeps_table h) h')

-- `rtc_write` of four bytes that hold 2 ^ k, for k from 1 to 10, succeeds, and its last write puts
-- the rate 16 - k into the low half of register A and keeps the high half: the frequency of that
-- rate, 32768 / 2 ^ (rate - 1), is the one asked for.
pub rtc_write-power :
    (k prev : ℕ)
    → 1 ≤ k
    → k ≤ 10
    → prev < 256
    → (rtc_write (some (2 ^ k)) (pos 4) prev
        ≡ (pos 0, select_a ∷ select_a ∷ outb (prev / 16 * 16 + (16 - k)) rtc_read_write ∷ []))
      × (2 ^ k * 2 ^ (16 - k - 1) ≡ 32768)
unfolding rtc_write
rtc_write-power k prev h h' hp = (
  rw (power_of_two-pow k h h', rate-pow k h h', register-byte prev (16 - k) hp (omega arith)),
  rate_frequency k h h',
)

-- Any other non-zero value fails, and register A is selected but not written.
rtc_write-rejects :
    (value prev : ℕ)
    → value ≢ 0
    → ((k : ℕ) → 1 ≤ k → k ≤ 10 → value ≢ 2 ^ k)
    → rtc_write (some value) (pos 4) prev ≡ (negsuc 0, select_a ∷ [])
unfolding rtc_write rate
rtc_write-rejects value prev h0 h =
    ground (arith, h 1, h 2, h 3, h 4, h 5, h 6, h 7, h 8, h 9, h 10)
