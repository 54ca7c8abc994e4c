-- ===== src/CString/Tests.antt =====
-- The string functions on short strings.
use system_engineering.Base.{ℕ, zero, suc, ◌<◌, ◌≢◌, ◌↔◌, Mem, ◌≡◌, refl, arith, some}
use system_engineering.Base.Int.{pos}
use system_engineering.CString.{strncmp}
use system_engineering.Base.{◌≤◌}
use system_engineering.CString.{itoa}
use system_engineering.CString.Number.{Numeral, itoa-Numeral}
use system_engineering.CString.Props.{IsString, AllBytes, Agree}
use system_engineering.CString.Compare.{strncmp-eq-zero_iff}

-- "ls", and an array of sevens.
abbrev ls : Mem
ls zero = 108
ls (suc zero) = 115
ls _ = 0

abbrev sevens : Mem
sevens j = 7

ls-IsString : IsString ls 2
ls-IsString = record { ends = refl; runs = ls_runs }
  where
    ls_runs : (j : ℕ) → j < 2 → ls j ≢ 0
    ls_runs zero h = omega arith
    ls_runs (suc zero) h = omega arith
    ls_runs (suc (suc j)) h = absurd (omega arith)

ls-AllBytes : AllBytes ls
ls-AllBytes zero = omega arith
ls-AllBytes (suc zero) = omega arith
ls-AllBytes (suc (suc j)) = omega arith

sevens-AllBytes : AllBytes sevens
sevens-AllBytes j = omega arith

strncmp-eq-zero_iff_example : (strncmp ls sevens 4 ≡ pos 0) ↔ Agree ls sevens 4
strncmp-eq-zero_iff_example = strncmp-eq-zero_iff ls sevens 4 ls-AllBytes sevens-AllBytes

itoa-Numeral_example :
    (n : ℕ) × (out : Mem) × (n ≤ 3)
    × (itoa 4 907 sevens 10 ≡ some out)
    × Numeral 10 907 n sevens out
itoa-Numeral_example =
    itoa-Numeral 907 10 3 3 sevens (omega arith) (omega arith) (omega arith) (omega arith)
      (omega arith)
