-- ===== src/Print/Text.antt =====
-- What `puts` and a `printf` without conversions print.
use system_engineering.Base.{
  ℕ, zero, suc, ◌+◌, ◌<◌, true, Arr, Mem, ◌≡◌, ◌≢◌, refl, sym, ◌∙◌, ap, arith, some, ◌∷◌, ==_of_ne,
}
use system_engineering.Base.Text.{bytes_of, text}
use system_engineering.Base.{List, [], ◌++◌, length}
use system_engineering.CString.Props.{IsString, no_nul, text-IsString, bytes_of-text}
use system_engineering.Kernel.{Kernel, put_all}
use system_engineering.Print.{
  from, flags, convert, print_string, put, puts_loop, puts, printf_loop, printf,
}

puts_loop_lem :
    (m fuel : ℕ) (k : Kernel) (s : Mem) (n index : ℕ)
    → IsString s n
    → index + m ≡ n
    → m < fuel
    → puts_loop fuel k s index ≡ some (put_all k (bytes_of m s index), n)
unfolding puts_loop put_all
puts_loop_lem m zero k s n index h e lt = absurd (omega arith)
puts_loop_lem zero (suc fuel) k s n index h e lt =
    let here : index ≡ n = omega arith in rw (here, h.ends) refl
puts_loop_lem (suc m) (suc fuel) k s n index h e lt =
    let more = ==_of_ne (s index) 0 (h.runs index (omega arith)) in
    rw more (puts_loop_lem m fuel (put k (s index)) s n (index + 1) h (omega arith) (omega arith))

-- `puts` of a string prints its characters in order, and returns how many there are.
pub puts_lem :
    (fuel : ℕ) (k : Kernel) (s : Mem) (n : ℕ)
    → IsString s n
    → n < fuel
    → puts fuel k s ≡ some (put_all k (bytes_of n s 0), n)
unfolding puts
puts_lem fuel k s n h lt = puts_loop_lem n fuel k s n 0 h (omega arith) lt

module _ (fuel : ℕ) (memory : Mem) (args : Arr ℕ) (locals : Mem) where
  printf_loop-plain :
      (m rounds : ℕ) (k : Kernel) (format : Mem) (n at : ℕ)
      → IsString format n
      → ((j : ℕ) → j < n → format j ≢ 37)
      → at + m ≡ n
      → m < rounds
      → printf_loop fuel memory args locals rounds k format at 0
        ≡ some (put_all k (bytes_of m format at), n)
  unfolding printf_loop put_all
  printf_loop-plain m zero k format n at h plain e lt = absurd (omega arith)
  printf_loop-plain zero (suc rounds) k format n at h plain e lt =
      let here : at ≡ n = omega arith in rw (here, h.ends) refl
  printf_loop-plain (suc m) (suc rounds) k format n at h plain e lt =
      let more = ==_of_ne (format at) 0 (h.runs at (omega arith)) in
      let literal = ==_of_ne (format at) 37 (plain at (omega arith)) in
      rw (more, literal)
        (printf_loop-plain m rounds (put k (format at)) format n (at + 1) h plain (omega arith)
          (omega arith))

  -- With fuel for its length, a string with no `%` is printed by `printf` as by `puts`: both print its
  -- characters in order, with `putc`, and return its length.
  pub printf-puts :
      (k : Kernel) (format : Mem) (n : ℕ)
      → IsString format n
      → ((j : ℕ) → j < n → format j ≢ 37)
      → n < fuel
      → (printf fuel memory args locals k format ≡ some (put_all k (bytes_of n format 0), n))
        × (puts fuel k format ≡ some (put_all k (bytes_of n format 0), n))
  unfolding printf
  printf-puts k format n h plain lt = (
    printf_loop-plain n fuel k format n 0 h plain (omega arith) lt,
    puts_lem fuel k format n h lt,
  )

pub put_all-append :
    (xs ys : List ℕ) (k : Kernel) → put_all k (xs ++ ys) ≡ put_all (put_all k xs) ys
unfolding put_all
put_all-append [] ys k = refl
put_all-append (x ∷ xs) ys k = put_all-append xs ys (put k x)

from-IsString : (s : Mem) (n : ℕ) → IsString s n → IsString (from s 0) n
from-IsString s n h = record {
  ends = ap s (omega arith) ∙ h.ends;
  runs = λ j lt e. h.runs j lt (ap s (omega arith) ∙ e);
}

-- `%s` and a line break print a text and the line break.
pub printf-string_line :
    (k : Kernel) (cs : List ℕ) (f : ℕ)
    → no_nul cs ≡ true
    → length cs < 4 + f
    → printf (suc (suc (suc (suc f)))) (text cs) (λ i. 0) k.stack k (text (37 ∷ 115 ∷ 10 ∷ []))
      ≡ some (put_all k (cs ++ (10 ∷ [])), 3)
unfolding printf printf_loop flags convert print_string put_all
printf-string_line k cs f clean short =
    let there : IsString (from (text cs) 0) (length cs) =
      from-IsString (text cs) (length cs) (text-IsString cs clean) in
    let bytes = bytes_of-text cs (from (text cs) 0) 0 (λ j. ap (text cs) (omega arith)) in
    rw
      (
        puts_lem (suc (suc (suc (suc f)))) k (from (text cs) 0) (length cs) there (omega arith),
        bytes,
      )
      (ap (λ k'. some (k', 3)) (sym (put_all-append cs (10 ∷ []) k)))
