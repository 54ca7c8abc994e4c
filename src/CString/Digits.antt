-- ===== src/CString/Digits.antt =====
-- Digits, and the number that an array of digits stands for.
use system_engineering.Base.{
  ℕ, zero, suc, ◌+◌, ◌-◌, ◌*◌, ◌<◌, ◌≤◌, ◌&&◌, ◌||◌, not, true, ltb, leb, ◌==◌, if◌then◌else◌, Mem,
  ◌≡◌, ◌≢◌, refl, ◌∙◌, ap, arith, Bool, ◌⊎◌, inl, inr, Bool-cases,
}
use system_engineering.Base.Table.{every_below, every_below-holds}
use system_engineering.CString.{digit}

-- The characters of the digits.
abbrev pub InTable : ℕ → Type 0
InTable c = ((48 ≤ c) × (c ≤ 57)) ⊎ ((65 ≤ c) × (c ≤ 90))

-- The value of a digit: 0 to 9, and from A on what follows 9.
abbrev pub digit_value : ℕ → ℕ
digit_value c = if ltb c 58 then c - 48 else c - 55

-- A digit of a radix: one of the characters 0 to 9 and A to Z whose value is below the radix.
abbrev pub IsDigit : (radix c : ℕ) → Type 0
IsDigit radix c = InTable c × (digit_value c < radix)

-- The number that the first `n` characters stand for, if they are digits, the lowest digit last.
unfoldable pub number : (radix n : ℕ) → Mem → ℕ
number radix zero s = 0
number radix (suc n) s = number radix n s * radix + digit_value (s n)

-- The same with the lowest digit first.
unfoldable pub number_up : (radix n : ℕ) → Mem → ℕ
number_up radix zero s = 0
number_up radix (suc n) s = digit_value (s 0) + radix * number_up radix n (λ j. s (suc j))

-- What a digit's character is: in the table, not NUL, of the digit's value, and a zero for 0 only.
abbrev digit_test : (c d : ℕ) → Bool
digit_test c d =
    (digit_value c == d)
    && ((not (c == 0) && ((d == 0) || not (c == 48)))
        && ((leb 48 c && leb c 57) || (leb 65 c && leb c 90)))

digit_test_lem :
    (c d : ℕ) → digit_test c d ≡ true → (digit_value c ≡ d) × (c ≢ 0) × (d ≢ 0 → c ≢ 48) × InTable c
digit_test_lem c d t = (
  ground arith,
  ground arith,
  (λ h. ground arith),
  elim (Bool-cases (leb 48 c && leb c 57)) [
    | inl low ↦ inl (ground arith)
    | inr high ↦ inr (ground arith)
  ],
)

digit_table : every_below 36 (λ d. digit_test (digit d) d) ≡ true
unfolding every_below
digit_table = refl

pub digit_lem :
    (d : ℕ)
    → d < 36
    → (digit_value (digit d) ≡ d) × (digit d ≢ 0) × (d ≢ 0 → digit d ≢ 48) × InTable (digit d)
digit_lem d h =
    digit_test_lem (digit d) d (every_below-holds 36 (λ d. digit_test (digit d) d) d digit_table h)

pub number_ext :
    (radix n : ℕ) (s t : Mem) → ((j : ℕ) → j < n → s j ≡ t j) → number radix n s ≡ number radix n t
unfolding number
number_ext radix zero s t h = refl
number_ext radix (suc n) s t h =
    let same : s n ≡ t n = h n (omega arith) in
    let rest = number_ext radix n s t (λ j p. h j (omega arith)) in rw (same, rest)

-- Reversing the digits goes from one reading to the other.
pub number-reversed :
    (radix n : ℕ) (s : Mem) → number radix n (λ j. s (n - 1 - j)) ≡ number_up radix n s
unfolding number number_up
number-reversed radix zero s = refl
number-reversed radix (suc n) s =
    let shifted =
      number_ext radix n (λ j. s (suc n - 1 - j)) (λ j. s (suc (n - 1 - j)))
        (λ j h. ap s (omega arith)) in
    let rest = number-reversed radix n (λ j. s (suc j)) in
    let last : suc n - 1 - n ≡ 0 = omega arith in rw last (sum (shifted ∙ rest))
  where
    sum :
        number radix n (λ j. s (suc n - 1 - j)) ≡ number_up radix n (λ j. s (suc j))
        → number radix n (λ j. s (suc n - 1 - j)) * radix + digit_value (s 0)
          ≡ digit_value (s 0) + radix * number_up radix n (λ j. s (suc j))
    sum e = rw e (grind arith)
