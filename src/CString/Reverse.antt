-- ===== src/CString/Reverse.antt =====
-- What `strrev` leaves.
use system_engineering.Base.{
  ℕ, zero, suc, ◌+◌, ◌-◌, ◌≤◌, ◌<◌, ◌&&◌, true, false, ltb, leb, if◌then◌else◌, Mem, update, ◌≡◌,
  inl, inr, refl, ◌∙◌, arith, Bool-cases, some,
}
use system_engineering.CString.{strrev_loop, strrev}
use system_engineering.CString.Props.{IsString, strlen_lem}

-- The string with the cells from `beg` up to `stop` in reverse order.
abbrev reversed : Mem → (beg stop : ℕ) → Mem
reversed s beg stop j = if leb beg j && ltb j stop then s (beg + stop - 1 - j) else s j

strrev_loop_lem :
    (k : ℕ) (s : Mem) (beg stop : ℕ) (j : ℕ)
    → stop ≤ beg + k
    → strrev_loop k s beg stop j ≡ reversed s beg stop j
unfolding strrev_loop
strrev_loop_lem zero s beg stop j h = ground arith
strrev_loop_lem (suc k) s beg stop j h = elim (Bool-cases (ltb (beg + 1) stop)) [
  | inl more ↦
      let swapped = update (update s (stop - 1) (s beg)) beg (s (stop - 1)) in
      let rest = strrev_loop_lem k swapped (beg + 1) (stop - 1) j (ground arith) in
      rw more (rest ∙ step more)
  | inr done ↦ rw done (met done)
]
  where
    step :
        ltb (beg + 1) stop ≡ true
        → reversed (update (update s (stop - 1) (s beg)) beg (s (stop - 1))) (beg + 1) (stop - 1) j
          ≡ reversed s beg stop j
    step more = ground arith

    met : ltb (beg + 1) stop ≡ false → s j ≡ reversed s beg stop j
    met done = elim (Bool-cases (leb beg j && ltb j stop)) [
      | inl inside ↦ let same : beg + stop - 1 - j ≡ j = ground arith in rw inside (rw same refl)
      | inr outside ↦ rw outside refl
    ]

-- `strrev` returns, given more fuel than the string's length, and has reversed the characters in place:
-- the NUL and everything behind it stay.
pub strrev_lem :
    (fuel : ℕ) (s : Mem) (n : ℕ)
    → IsString s n
    → n < fuel
    → (out : Mem) × (strrev fuel s ≡ some out)
      × ((j : ℕ) → out j ≡ (if ltb j n then s (n - 1 - j) else s j))
unfolding strrev
strrev_lem fuel s n h lt = (
  strrev_loop n s 0 n,
  rw (strrev, strlen_lem fuel s n h lt) refl,
  λ j. strrev_loop_lem n s 0 n j (omega arith) ∙ ground arith,
)
