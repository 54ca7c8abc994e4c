-- ===== src/Process/Tests.antt =====
-- Starting and halting a program of the sample disk, in the sample kernel.
use system_engineering.Base.{ℕ, ◌<◌, ◌≢◌, Mem, ◌≡◌, refl, arith, some}
use system_engineering.FileSys.Sample.{noughts}
use system_engineering.Kernel.{Kernel}
use system_engineering.Process.{parse, parsed}
use system_engineering.Process.Command.Parse.{Words, stored, parse_lem}
use system_engineering.Base.{ℕ, zero, suc, ◌+◌, ◌<◌, ◌≢◌, [], ◌∷◌, Mem, inl}
use system_engineering.Base.Text.{text}

-- A space, the name "a", a space and the argument "b".
abbrev a_b : Mem
a_b = text (32 ∷ 97 ∷ 32 ∷ 98 ∷ [])

only_zero : (P : ℕ → Type 0) → P 0 → (j : ℕ) → j < 1 → P j
only_zero P p zero lt = p
only_zero P p (suc j) lt = absurd (omega arith)

a_b-Words : Words a_b 1 1 1 1
a_b-Words = record {
  lead = only_zero (λ j. a_b j ≡ 32) refl;
  some_name = omega arith;
  name =
      only_zero (λ j. (a_b (1 + j) ≢ 32) × (a_b (1 + j) ≢ 0))
        (λ e. ground arith, λ e. ground arith);
  gap = only_zero (λ j. a_b (2 + j) ≡ 32) refl;
  gap_ends = λ e. ground arith;
  argument = only_zero (λ j. a_b (3 + j) ≢ 0) (λ e. ground arith);
  ends = refl;
  separated = inl (omega arith);
}

parse_lem_example :
    parse 9 (some a_b) noughts noughts
    ≡ parsed (stored a_b 1 1 0 noughts) (stored a_b 3 1 0 noughts)
parse_lem_example = parse_lem 9 a_b 1 1 1 1 noughts noughts a_b-Words (omega arith)
