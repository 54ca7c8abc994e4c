-- ===== src/User/Support.antt =====
-- syscalls/ece391support.c: the strings of the user programs.
use system_engineering.Base.{
  ℕ, zero, suc, ◌+◌, Option, none, some, ◌||◌, leb, ◌==◌, if◌then◌else◌, Mem, update,
}
use system_engineering.Base.Int.{ℤ, pos, sub_ℕ}
use system_engineering.CString.{digit, itoa_loop, strrev_loop}
use system_engineering.User.{Calls}
pub mod Compare
pub mod Output

-- `for (len = 0; '\0' != *s; s++, len++);` on fuel
strlen_rounds : ℕ → Mem → ℕ → Option ℕ
strlen_rounds zero s len = none
strlen_rounds (suc k) s len =
    let rest = strlen_rounds k s (len + 1) in if s len == 0 then some len else rest

pub ece391_strlen : ℕ → Mem → Option ℕ
ece391_strlen fuel s = strlen_rounds fuel s 0

-- `dst` and `src` are addresses of one memory.
pub ece391_strcpy : ℕ → Mem → (dst src : ℕ) → Option Mem
ece391_strcpy zero m dst src = none
ece391_strcpy (suc k) m dst src =
    let m' = update m dst (m src) in
    let rest = ece391_strcpy k m' (dst + 1) (src + 1) in if m src == 0 then some m' else rest

strcmp_rounds : ℕ → Mem → Mem → ℕ → Option ℤ
strcmp_rounds zero s1 s2 i = none
strcmp_rounds (suc k) s1 s2 i =
    let rest = strcmp_rounds k s1 s2 (i + 1) in
    if s1 i == s2 i then (if s1 i == 0 then some (pos 0) else rest) else some (sub_ℕ (s1 i) (s2 i))

-- The bytes are unsigned here.
pub ece391_strcmp : ℕ → Mem → Mem → Option ℤ
ece391_strcmp fuel s1 s2 = strcmp_rounds fuel s1 s2 0

-- The rounds left are the source's `n`.
strncmp_rounds : ℕ → Mem → Mem → ℕ → ℤ
strncmp_rounds zero s1 s2 i = pos 0
strncmp_rounds (suc n) s1 s2 i =
    let rest = strncmp_rounds n s1 s2 (i + 1) in
    if s1 i == s2 i then (if s1 i == 0 || n == 0 then pos 0 else rest) else sub_ℕ (s1 i) (s2 i)

pub ece391_strncmp : Mem → Mem → ℕ → ℤ
ece391_strncmp s1 s2 n = strncmp_rounds n s1 s2 0

-- The loop is that of the kernel's `strrev`.
pub ece391_strrev : ℕ → Mem → Option Mem
ece391_strrev fuel s = elim (ece391_strlen fuel s) [
  | none ↦ none
  | some n ↦ some (if leb n 1 then s else strrev_loop n s 0 n)
]

-- The loop and the digits are those of the kernel's `itoa`.
pub ece391_itoa : ℕ → (value : ℕ) → Mem → (radix : ℕ) → Option Mem
ece391_itoa fuel value buf radix =
    if value == 0
    then some (update (update buf 0 (digit 0)) 1 0)
    else elim (itoa_loop fuel value radix buf 0) [ none ↦ none | some out ↦ ece391_strrev fuel out ]

module _ (calls : Calls) where
  open calls use {State, write}

  pub ece391_fdputs : (fuel : ℕ) → State → (fd : ℤ) → Mem → Option State
  ece391_fdputs fuel s fd text = elim (ece391_strlen fuel text) [
    | none ↦ none
    | some n ↦ elim (write s fd text (pos n)) [ none ↦ none | some (s', count) ↦ some s' ]
  ]
