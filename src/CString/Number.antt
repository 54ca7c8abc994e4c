-- ===== src/CString/Number.antt =====
-- What `itoa` writes.
use system_engineering.Base.{
  ℕ, zero, suc, ◌+◌, ◌-◌, ◌/◌, ◌%◌, ◌^◌, ◌≤◌, ◌<◌, ltb, ◌==◌, if◌then◌else◌, Mem, update, ◌≡◌, ◌≢◌,
  refl, sym, subst, ◌∙◌, ap, arith, inl, inr, ◌⊎◌, Bool-cases, some, fun_ext, ==_iff,
}
use native.Mathlib.Nat.{div-lt_iff_lt-mul, div-add-mod, mod-lt, mul-zero, pow-suc, pow-zero}
use system_engineering.CString.{digit, itoa_loop, itoa}
use system_engineering.CString.Digits.{
  InTable, IsDigit, digit_value, number, number_up, digit_lem, number_ext, number-reversed,
}
use system_engineering.CString.Props.{IsString}
use system_engineering.CString.Reverse.{strrev_lem}

-- The `n` digits of `v` from `at` on, the lowest first, with a NUL behind them.
record HasDigits (radix v at n : ℕ) (old out : Mem) : Type 0 where
  ends : out (at + n) ≡ 0
  runs : (j : ℕ) → j < n → out (at + j) ≢ 0
  digits : (j : ℕ) → j < n → IsDigit radix (out (at + j))
  value : number_up radix n (λ j. out (at + j)) ≡ v
  empty : v ≡ 0 → n ≡ 0
  top : v ≢ 0 → (0 < n) × (out (at + (n - 1)) ≢ 48)
  below : (j : ℕ) → j < at → out j ≡ old j
  above : (j : ℕ) → at + n < j → out j ≡ old j

-- A round divides the number by the radix.
quotient_lt : (radix v m : ℕ) → 2 ≤ radix → v < radix ^ suc m → v / radix < radix ^ m
quotient_lt radix v m h lt =
    (div-lt_iff_lt-mul (omega arith)).1 (subst (λ p. v < p) (pow-suc radix m) lt)

no_digits : (radix at : ℕ) (buf : Mem) → HasDigits radix 0 at 0 buf (update buf at 0)
unfolding number_up
no_digits radix at buf = record {
  ends = ground arith;
  runs = λ j h. absurd (omega arith);
  digits = λ j h. absurd (omega arith);
  value = refl;
  empty = λ h. refl;
  top = λ h. absurd (h refl);
  below = λ j h. ground arith;
  above = λ j h. ground arith;
}

module _ (radix v at n : ℕ) (low : 2 ≤ radix) (high : radix ≤ 36) (buf out : Mem)
    (some_left : v ≢ 0)
    (h : HasDigits radix (v / radix) (at + 1) n (update buf at (digit (v % radix))) out) where
  lowest : out at ≡ digit (v % radix)
  lowest = h.below at (omega arith) ∙ ground arith

  shifted : (j : ℕ) → out (at + suc j) ≡ out (at + 1 + j)
  shifted j = ap out (omega arith)

  digit_at :
      (digit_value (digit (v % radix)) ≡ v % radix)
      × (digit (v % radix) ≢ 0)
      × (v % radix ≢ 0 → digit (v % radix) ≢ 48)
      × InTable (digit (v % radix))
  digit_at = digit_lem (v % radix) (omega (arith, mod-lt v {m = radix} (omega arith)))

  one_more : HasDigits radix v at (suc n) buf out
  unfolding number_up
  one_more = record {
    ends = ap out (omega arith) ∙ h.ends;
    runs = runs_on;
    digits = digits_on;
    value = lowest_first;
    empty = λ z. absurd (some_left z);
    top = λ ne. (omega arith, highest);
    below = λ j lt. h.below j (omega arith) ∙ ground arith;
    above = λ j lt. h.above j (omega arith) ∙ ground arith;
  }
    where
      runs_on : (j : ℕ) → j < suc n → out (at + j) ≢ 0
      runs_on zero lt e = digit_at.1 (sym lowest ∙ ap out (omega arith) ∙ e)
      runs_on (suc j) lt e = h.runs j (omega arith) (sym (shifted j) ∙ e)

      digits_on : (j : ℕ) → j < suc n → IsDigit radix (out (at + j))
      digits_on zero lt =
          let here : out (at + 0) ≡ digit (v % radix) = ap out (omega arith) ∙ lowest in
          let small : digit_value (digit (v % radix)) < radix =
            rw digit_at.0 (mod-lt v {m = radix} (omega arith)) in
          subst (IsDigit radix) (sym here) (digit_at.3, small)
      digits_on (suc j) lt = subst (IsDigit radix) (sym (shifted j)) (h.digits j (omega arith))

      lowest_first : number_up radix (suc n) (λ j. out (at + j)) ≡ v
      lowest_first =
          let here : out (at + 0) ≡ digit (v % radix) = ap out (omega arith) ∙ lowest in
          let rest : number_up radix n (λ j. out (at + suc j)) ≡ v / radix =
            ap (number_up radix n) (fun_ext shifted) ∙ h.value in
          rw (here, rest, digit_at.0) (omega (arith, div-add-mod v radix))

      highest : out (at + (suc n - 1)) ≢ 48
      highest e = elim (Bool-cases (v / radix == 0)) [
        | inl none_left ↦
            let zero_left : v / radix ≡ 0 = (==_iff _ _).0 none_left in
            let one_digit = h.empty zero_left in
            let same : v % radix ≡ v = ground (arith, div-add-mod v radix, mul-zero radix) in
            digit_at.2 (λ z. some_left (sym same ∙ z)) (sym lowest ∙ ap out (omega arith) ∙ e)
        | inr more ↦ let (pos, ne) = h.top (λ z. ground arith) in ne (ap out (omega arith) ∙ e)
      ]

-- A number of at most `m` digits has them written, given a round for each and one for the NUL.
itoa_loop_lem :
    (m k radix v at : ℕ) (buf : Mem)
    → 2 ≤ radix
    → radix ≤ 36
    → m ≤ k
    → v < radix ^ m
    → (n : ℕ) × (n ≤ m)
      × (out : Mem) × (itoa_loop (suc k) v radix buf at ≡ some out)
      × HasDigits radix v at n buf out
unfolding itoa_loop
itoa_loop_lem zero k radix v at buf low high le lt =
    let zero_left : v ≡ 0 = omega (arith, pow-zero radix) in
    rw zero_left (0, omega arith, update buf at 0, refl, no_digits radix at buf)
itoa_loop_lem (suc m) zero radix v at buf low high le lt = absurd (omega arith)
itoa_loop_lem (suc m) (suc k) radix v at buf low high le lt = elim (Bool-cases (v == 0)) [
  | inl none_left ↦
      let zero_left : v ≡ 0 = (==_iff _ _).0 none_left in
      rw zero_left (0, omega arith, update buf at 0, refl, no_digits radix at buf)
  | inr some_left ↦
      let (n, small, out, done, digits) =
        itoa_loop_lem m k radix (v / radix) (at + 1) (update buf at (digit (v % radix))) low high
          (omega arith) (quotient_lt radix v m low lt) in
      (
        suc n,
        omega arith,
        out,
        rw some_left done,
        one_more radix v at n low high buf out (ground arith) digits,
      )
]

-- The string of the `n` digits of a value, in a buffer whose cells behind it stay.
pub record Numeral (radix value n : ℕ) (buf out : Mem) : Type 0 where
  pub string : IsString out n
  pub some_digits : 1 ≤ n
  pub digits : (j : ℕ) → j < n → IsDigit radix (out j)
  pub stands_for : number radix n out ≡ value
  pub no_padding : (value ≡ 0) ⊎ (out 0 ≢ 48)
  pub rest : (j : ℕ) → n < j → out j ≡ buf j

zero-Numeral :
    (radix : ℕ) (buf : Mem) → 2 ≤ radix → Numeral radix 0 1 buf (update (update buf 0 48) 1 0)
unfolding number
zero-Numeral radix buf low = record {
  string = record { ends = refl; runs = λ j h. ground arith };
  some_digits = omega arith;
  digits = λ j h.
      let first : j ≡ 0 = omega arith in
      subst (λ i. IsDigit radix (update (update buf 0 48) 1 0 i)) (sym first)
        (inl (omega arith), omega arith);
  stands_for = omega arith;
  no_padding = inl refl;
  rest = λ j h. ground arith;
}

digits-IsString :
    (radix value n : ℕ) (buf digits : Mem)
    → HasDigits radix value 0 n buf digits
    → IsString digits n
digits-IsString radix value n buf digits h = record {
  ends = ap digits (omega arith) ∙ h.ends;
  runs = λ j lt e. h.runs j lt (ap digits (omega arith) ∙ e);
}

-- Reversing the digits of a value makes its numeral.
module _ (radix value n : ℕ) (buf digits out : Mem) (some_left : value ≢ 0)
    (h : HasDigits radix value 0 n buf digits)
    (same : (j : ℕ) → out j ≡ (if ltb j n then digits (n - 1 - j) else digits j)) where
  ends_there : out n ≡ 0
  ends_there = same n ∙ ground (arith, h.ends, digits-IsString radix value n buf digits h)

  reversed_digit : (j : ℕ) → j < n → out j ≡ digits (n - 1 - j)
  reversed_digit j lt = same j ∙ ground arith

  reversed-Numeral : Numeral radix value n buf out
  reversed-Numeral =
      let (pos, highest) = h.top some_left in
      record {
        string = record {
          ends = ends_there;
          runs = λ j lt e.
              h.runs (n - 1 - j) (omega arith)
                (ap digits (omega arith) ∙ sym (reversed_digit j lt) ∙ e);
        };
        some_digits = pos;
        digits = λ j lt.
            subst (IsDigit radix) (ap digits (omega arith) ∙ sym (reversed_digit j lt))
              (h.digits (n - 1 - j) (omega arith));
        stands_for =
            number_ext radix n out (λ j. digits (n - 1 - j)) reversed_digit
            ∙ number-reversed radix n digits
            ∙ ap (number_up radix n) (fun_ext (λ j. ap digits (omega arith)))
            ∙ h.value;
        no_padding = inr (λ e. highest (ap digits (omega arith) ∙ sym (reversed_digit 0 pos) ∙ e));
        rest = λ j lt. same j ∙ ground (arith, h.above j);
      }

-- `itoa` of a value of at most `m` digits in a radix from 2 to 36, with fuel for them and the NUL,
-- returns and has written a string of 1 to `m` characters, each a digit of the radix from 0 to 9 or A to
-- Z, that stands for the value, with no leading zero unless the value is 0; the buffer behind the string
-- stays.
pub itoa-Numeral :
    (value radix m k : ℕ) (buf : Mem)
    → 2 ≤ radix
    → radix ≤ 36
    → 1 ≤ m
    → m ≤ k
    → value < radix ^ m
    → (n : ℕ) × (out : Mem) × (n ≤ m)
      × (itoa (suc k) value buf radix ≡ some out)
      × Numeral radix value n buf out
unfolding itoa
itoa-Numeral value radix m k buf low high pos le lt = elim (Bool-cases (value == 0)) [
  | inl none_left ↦
      let zero_left : value ≡ 0 = (==_iff _ _).0 none_left in
      rw zero_left (1, update (update buf 0 48) 1 0, pos, refl, zero-Numeral radix buf low)
  | inr some_left ↦
      let (n, small, digits, done, h) = itoa_loop_lem m k radix value 0 buf low high le lt in
      let ne : value ≢ 0 = ground arith in
      let (out, reversed, same) =
        strrev_lem (suc k) digits n (digits-IsString radix value n buf digits h) (omega arith) in
      (
        n,
        out,
        small,
        rw (some_left, done) reversed,
        reversed-Numeral radix value n buf digits out ne h same,
      )
]
