-- ===== src/Rtc/Wait.antt =====
-- When `rtc_read` returns.
use system_engineering.Base.{
  ℕ, zero, suc, ◌≡◌, refl, true, false, arith, Bool, none, some, [], List, ◌∷◌, ◌++◌,
}
use system_engineering.Base.Int.{pos}
use system_engineering.Rtc.{rtc_wait, rtc_read, rtc_handler, lock, unlock}

-- `n` tests of the flag with no interrupt before them.
abbrev pub quiet : ℕ → List Bool
quiet zero = []
quiet (suc n) = false ∷ quiet n

rtc_wait-unlocked : (rest : List Bool) → rtc_wait unlock rest ≡ some rest
unfolding rtc_wait
rtc_wait-unlocked [] = refl
rtc_wait-unlocked (b ∷ rest) = refl

rtc_wait-fires : (n : ℕ) (rest : List Bool) → rtc_wait lock (quiet n ++ (true ∷ rest)) ≡ some rest
unfolding rtc_wait rtc_handler
rtc_wait-fires zero rest = rtc_wait-unlocked rest
rtc_wait-fires (suc n) rest = rtc_wait-fires n rest

rtc_wait-quiet : (n : ℕ) → rtc_wait lock (quiet n) ≡ none
unfolding rtc_wait
rtc_wait-quiet zero = refl
rtc_wait-quiet (suc n) = rtc_wait-quiet n

-- `rtc_read` returns 0 at the first interrupt of the clock, however many tests of the flag come
-- before it, and consumes nothing of the schedule behind that interrupt; it does not return while
-- no interrupt comes, so an interrupt from before the call does not count.
rtc_read_lem :
    (n : ℕ) (rest : List Bool)
    → (rtc_read (quiet n ++ (true ∷ rest)) ≡ some (pos 0, rest)) × (rtc_read (quiet n) ≡ none)
unfolding rtc_read
rtc_read_lem n rest = ground (arith, rtc_wait-fires n rest, rtc_wait-quiet n)
