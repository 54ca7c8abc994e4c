-- ===== src/CString.antt =====
-- student-distrib/lib.c: the functions on NUL-terminated strings. A `const int8_t*` is the array of
-- the bytes behind it; a function that writes returns the array that it wrote. The source and the
-- destination of a copy are two arrays: the callers never pass one that overlaps itself.
use system_engineering.Base.{
  ℕ, zero, suc, ◌+◌, ◌-◌, List, [], ◌∷◌, ◌++◌, Option, none, some, ◌==◌, ◌||◌, not, ltb, Bool, true,
  get_or, ◌/◌, ◌%◌, false, if◌then◌else◌, u32, Mem, update,
}
use system_engineering.Base.Text.{codes}
use system_engineering.Base.Int.{ℤ, pos, negsuc, pos_part, neg_part, sub_ℕ}
pub mod Props
pub mod Compare
pub mod Copy
pub mod Reverse
pub mod Digits
pub mod Number
mod Tests

-- `while (s[len] != '\0') len++;` on fuel: `none` means that it ran out.
pub strlen_loop : ℕ → Mem → ℕ → Option ℕ
strlen_loop zero s len = none
strlen_loop (suc k) s len =
    let rest = strlen_loop k s (len + 1) in if s len == 0 then some len else rest

pub strlen : ℕ → Mem → Option ℕ
strlen fuel s = strlen_loop fuel s 0

-- An `int8_t` as the number that its byte stands for, and the difference of two.
abbrev pub signed8 : ℕ → ℤ
signed8 b = if ltb b 128 then pos b else negsuc (255 - b)

abbrev pub sub_int8 : ℕ → ℕ → ℤ
sub_int8 a b =
    sub_ℕ (pos_part (signed8 a) + neg_part (signed8 b))
      (neg_part (signed8 a) + pos_part (signed8 b))

-- The rounds left and the index.
unfoldable pub strncmp_loop : ℕ → Mem → Mem → ℕ → ℤ
strncmp_loop zero s1 s2 i = pos 0
strncmp_loop (suc k) s1 s2 i =
    let rest = strncmp_loop k s1 s2 (i + 1) in
    if not (s1 i == s2 i) || s1 i == 0 then sub_int8 (s1 i) (s2 i) else rest

unfoldable pub strncmp : Mem → Mem → ℕ → ℤ
strncmp s1 s2 n = strncmp_loop n s1 s2 0

unfoldable pub strcpy_loop : ℕ → Mem → Mem → ℕ → Option Mem
strcpy_loop zero dest src i = none
strcpy_loop (suc k) dest src i =
    let rest = strcpy_loop k (update dest i (src i)) src (i + 1) in
    if src i == 0 then some (update dest i 0) else rest

unfoldable pub strcpy : ℕ → Mem → Mem → Option Mem
strcpy fuel dest src = strcpy_loop fuel dest src 0

-- The first loop of `strncpy`, which stops at a NUL or after the rounds left: the index and `dest`.
unfoldable pub strncpy_copy : ℕ → Mem → Mem → ℕ → ℕ × Mem
strncpy_copy zero dest src i = (i, dest)
strncpy_copy (suc k) dest src i =
    let rest = strncpy_copy k (update dest i (src i)) src (i + 1) in
    if src i == 0 then (i, dest) else rest

-- The second loop, which fills up with NULs.
unfoldable pub strncpy_pad : ℕ → Mem → ℕ → Mem
strncpy_pad zero dest i = dest
strncpy_pad (suc k) dest i = strncpy_pad k (update dest i 0) (i + 1)

unfoldable pub strncpy : Mem → Mem → ℕ → Mem
strncpy dest src n = let (i, dest') = strncpy_copy n dest src 0 in strncpy_pad (n - i) dest' i

-- The loop of `strrev`, over the rounds left; `stop` is the source's `end + 1`, which is 0 for an empty
-- string.
pub strrev_loop : ℕ → Mem → (beg stop : ℕ) → Mem
strrev_loop zero s beg stop = s
strrev_loop (suc k) s beg stop =
    let rest =
      strrev_loop k (update (update s (stop - 1) (s beg)) beg (s (stop - 1))) (beg + 1)
        (stop - 1) in
    if ltb (beg + 1) stop then rest else s

-- `strrev`: no loop of it takes more rounds than the string has characters.
pub strrev : ℕ → Mem → Option Mem
strrev fuel s = elim (strlen fuel s) [ none ↦ none | some n ↦ some (strrev_loop n s 0 n) ]

-- `lookup` of `itoa`
abbrev pub digit : ℕ → ℕ
digit d = get_or (codes "0123456789ABCDEFGHIJKLMNOPQRSTUVWXYZ") d 0

-- The loop of `itoa`, lowest digit first, and the NUL behind it. `none` means that the fuel ran out.
pub itoa_loop : ℕ → (newval radix : ℕ) → (buf : Mem) → (at : ℕ) → Option Mem
itoa_loop zero newval radix buf at = none
itoa_loop (suc k) newval radix buf at =
    let rest =
      itoa_loop k (newval / radix) radix (update buf at (digit (newval % radix))) (at + 1) in
    if newval == 0 then some (update buf at 0) else rest

-- `itoa`: `fuel` bounds the digits and the NUL.
pub itoa : (fuel : ℕ) → (value : ℕ) → Mem → (radix : ℕ) → Option Mem
itoa fuel value buf radix =
    if value == 0
    then some (update (update buf 0 (digit 0)) 1 0)
    else elim (itoa_loop fuel value radix buf 0) [ none ↦ none | some out ↦ strrev fuel out ]
