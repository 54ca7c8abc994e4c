-- ===== src/Print/Hex.antt =====
-- What `%#x` prints.
use system_engineering.Base.{
  ℕ, zero, suc, ◌+◌, ◌-◌, ◌^◌, ◌≤◌, ◌<◌, ◌&&◌, ltb, leb, if◌then◌else◌, Mem, update, ◌≡◌, ◌≢◌, refl,
  sym, subst, ◌∙◌, ap, arith, some, Bool-cases, inl, inr,
}
use system_engineering.CString.{itoa}
use system_engineering.CString.Digits.{IsDigit, number}
use system_engineering.CString.Number.{Numeral, itoa-Numeral}
use system_engineering.CString.Props.{IsString, strlen_lem}
use system_engineering.Print.{from, fill_zeros, hex_padded}

fill_zeros_lem :
    (r : ℕ) (buf : Mem) (i j : ℕ)
    → 8 ≤ i + r
    → fill_zeros r buf i j ≡ (if leb i j && ltb j 8 then 48 else buf j)
unfolding fill_zeros
fill_zeros_lem zero buf i j h = ground arith
fill_zeros_lem (suc r) buf i j h = ground (arith, fill_zeros_lem r (update buf i 48) (i + 1) j)

number-zeros : (radix z : ℕ) (s : Mem) → ((j : ℕ) → j < z → s j ≡ 48) → number radix z s ≡ 0
unfolding number
number-zeros radix zero s h = refl
number-zeros radix (suc z) s h =
    rw (h z (omega arith), number-zeros radix z s (λ j lt. h j (omega arith))) (omega arith)

-- Zeros in front of digits do not change the number.
number-behind_zeros :
    (radix z n t : ℕ) (s digits : Mem)
    → z + n ≡ t
    → ((j : ℕ) → j < z → s j ≡ 48)
    → ((j : ℕ) → s (z + j) ≡ digits j)
    → number radix t s ≡ number radix n digits
unfolding number
number-behind_zeros radix z zero t s digits e zeros rest =
    let same : t ≡ z = omega arith in rw same (number-zeros radix z s zeros)
number-behind_zeros radix z (suc n) zero s digits e zeros rest = absurd (omega arith)
number-behind_zeros radix z (suc n) (suc t) s digits e zeros rest =
    let last : s t ≡ digits n = ap s (omega arith) ∙ rest n in
    rw (last, number-behind_zeros radix z n t s digits (omega arith) zeros rest)

module _ (value n : ℕ) (locals digits : Mem) (small : n ≤ 8)
    (h : Numeral 16 value n (from locals 8) digits) where
  padded : Mem
  padded = from (fill_zeros 8 (λ j. if ltb j 8 then locals j else digits (j - 8)) n) n

  padded_zero : (j : ℕ) → j < 8 - n → padded j ≡ 48
  unfolding padded
  padded_zero j lt = fill_zeros_lem 8 _ n (n + j) (omega arith) ∙ ground arith

  padded_digit : (j : ℕ) → padded (8 - n + j) ≡ digits j
  unfolding padded
  padded_digit j =
      let at : n + (8 - n + j) ≡ 8 + j = omega arith in
      fill_zeros_lem 8 _ n (n + (8 - n + j)) (omega arith) ∙ rw at (ground arith)

  padded_nonzero : (j : ℕ) → j < 8 → padded j ≢ 0
  padded_nonzero j lt e = elim (Bool-cases (ltb j (8 - n))) [
    | inl zeros ↦ ground (arith, padded_zero j)
    | inr on ↦
        let back : 8 - n + (j - (8 - n)) ≡ j = ground arith in
        h.string.runs (j - (8 - n)) (ground arith)
          (sym (padded_digit (j - (8 - n))) ∙ ap padded back ∙ e)
  ]

  padded-IsDigit : (j : ℕ) → j < 8 → IsDigit 16 (padded j)
  padded-IsDigit j lt = elim (Bool-cases (ltb j (8 - n))) [
    | inl zeros ↦
        subst (IsDigit 16) (sym (padded_zero j (ground arith))) (inl (omega arith), omega arith)
    | inr on ↦
        let back : 8 - n + (j - (8 - n)) ≡ j = ground arith in
        subst (IsDigit 16) (sym (padded_digit (j - (8 - n))) ∙ ap padded back)
          (h.digits (j - (8 - n)) (ground arith))
  ]

  padded-IsString : IsString padded 8
  padded-IsString = record {
    ends = ap padded (omega arith) ∙ padded_digit n ∙ h.string.ends;
    runs = padded_nonzero;
  }

  number-padded : number 16 8 padded ≡ value
  number-padded =
      number-behind_zeros 16 (8 - n) n 8 padded digits (omega arith) padded_zero padded_digit
      ∙ h.stands_for

  padded_result :
      (k : ℕ)
      → 8 ≤ k
      → itoa (suc k) value (from locals 8) 16 ≡ some digits
      → hex_padded (suc k) locals value ≡ some padded
  unfolding hex_padded padded
  padded_result k le done =
      rw (hex_padded, done) (rw (strlen_lem (suc k) digits n h.string (omega arith)) refl)

-- `%#x` of a 32-bit value, with fuel of 9 or more, gives `puts` a string of exactly 8 characters, each a
-- digit from 0 to 9 or A to F, that stands for the value in radix 16.
pub hex_padded_lem :
    (value k : ℕ) (locals : Mem)
    → value < 2 ^ 32
    → 8 ≤ k
    → (s : Mem) × (hex_padded (suc k) locals value ≡ some s)
      × IsString s 8
      × ((j : ℕ) → j < 8 → IsDigit 16 (s j))
      × (number 16 8 s ≡ value)
hex_padded_lem value k locals lt le =
    let (n, digits, small, done, h) =
      itoa-Numeral value 16 8 k (from locals 8) (omega arith) (omega arith) (omega arith) le
        (omega arith) in
    (
      padded value n locals digits small h,
      padded_result value n locals digits small h k le done,
      padded-IsString value n locals digits small h,
      padded-IsDigit value n locals digits small h,
      number-padded value n locals digits small h,
    )
