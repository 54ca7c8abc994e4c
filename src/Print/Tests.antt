-- ===== src/Print/Tests.antt =====
-- Numbers and texts printed in the sample kernel.
use system_engineering.Base.{ℕ, zero, suc, ◌<◌, ◌≢◌, Mem, ◌≡◌, refl, arith, some}
use system_engineering.Base.Text.{codes, text, bytes_of}
use system_engineering.CString.Digits.{IsDigit, number}
use system_engineering.CString.Props.{IsString, no_nul, text-IsString}
use system_engineering.Kernel.{put_all}
use system_engineering.Kernel.Sample.{sample_kernel}
use system_engineering.FileSys.Sample.{noughts}
use system_engineering.Print.{puts, printf, hex_padded}
use system_engineering.Print.Text.{printf-puts}
use system_engineering.Print.Hex.{hex_padded_lem}

hex_padded_lem_example :
    (s : Mem) × (hex_padded 12 noughts 48879 ≡ some s)
    × IsString s 8
    × ((j : ℕ) → j < 8 → IsDigit 16 (s j))
    × (number 16 8 s ≡ 48879)
hex_padded_lem_example = hex_padded_lem 48879 11 noughts (omega arith) (omega arith)

abbrev hello : Mem
hello = text (codes "Hi")

no_percent : (j : ℕ) → j < 2 → hello j ≢ 37
no_percent zero h = omega arith
no_percent (suc zero) h = omega arith
no_percent (suc (suc j)) h = absurd (omega arith)

hello-IsString : IsString hello 2
unfolding no_nul
hello-IsString = text-IsString (codes "Hi") refl

printf-puts_example :
    (printf 5 noughts noughts noughts sample_kernel hello
      ≡ some (put_all sample_kernel (bytes_of 2 hello 0), 2))
    × (puts 5 sample_kernel hello ≡ some (put_all sample_kernel (bytes_of 2 hello 0), 2))
printf-puts_example =
    printf-puts 5 noughts noughts noughts sample_kernel hello 2 hello-IsString no_percent
      (omega arith)
