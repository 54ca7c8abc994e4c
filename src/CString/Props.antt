-- ===== src/CString/Props.antt =====
-- What it means to be a string, and when two agree.
use system_engineering.Base.{ℕ, ◌+◌, ◌<◌, ◌≤◌, ◌≡◌, ◌≢◌, arith, Mem, some}
use system_engineering.Base.{
  List, [], ◌∷◌, length, Bool, true, ◌==◌, refl, zero, suc, not, ◌&&◌, ap, ◌∙◌,
}
use mathlib.Core.Path.{ap₂}
use system_engineering.Base.Text.{text, bytes_of}
use system_engineering.CString.{strlen, strlen_loop}

-- The string `s` has length `n`: its first NUL stands there.
pub record IsString (s : Mem) (n : ℕ) : Type 0 where
  pub ends : s n ≡ 0
  pub runs : (j : ℕ) → j < n → s j ≢ 0

-- Every cell holds a byte.
abbrev pub AllBytes : Mem → Type 0
AllBytes s = (j : ℕ) → s j < 256

-- Two strings agree in their first `n` bytes, or up to a NUL that comes before.
abbrev pub Agree : Mem → Mem → ℕ → Type 0
Agree s1 s2 n = (j : ℕ) → j < n → ((i : ℕ) → i < j → s1 i ≢ 0) → s1 j ≡ s2 j

strlen_loop_lem :
    (k : ℕ) (s : Mem) (n len : ℕ)
    → IsString s n
    → len ≤ n
    → n < len + k
    → strlen_loop k s len ≡ some n
unfolding strlen_loop
strlen_loop_lem zero s n len h le lt = absurd (omega arith)
strlen_loop_lem (suc k) s n len h le lt =
    ground (arith, h.ends, h.runs len, strlen_loop_lem k s n (len + 1) h)

-- `strlen` returns the length of every string, given more fuel than that.
pub strlen_lem : (fuel : ℕ) (s : Mem) (n : ℕ) → IsString s n → n < fuel → strlen fuel s ≡ some n
unfolding strlen
strlen_lem fuel s n h lt = strlen_loop_lem fuel s n 0 h (omega arith) (omega arith)

-- A text without NULs is a string of its length.
unfoldable pub no_nul : List ℕ → Bool
no_nul [] = true
no_nul (c ∷ cs) = not (c == 0) && no_nul cs

pub text-IsString : (cs : List ℕ) → no_nul cs ≡ true → IsString (text cs) (length cs)
unfolding no_nul
text-IsString [] h = record { ends = refl; runs = λ j lt. absurd (omega arith) }
text-IsString (c ∷ cs) h =
    let rest = text-IsString cs (ground arith) in
    record { ends = rest.ends; runs = runs_on (λ j lt. rest.runs j lt) }
  where
    runs_on :
        ((j : ℕ) → j < length cs → text cs j ≢ 0)
        → (j : ℕ) → j < suc (length cs)
        → text (c ∷ cs) j ≢ 0
    runs_on rest zero lt = ground arith
    runs_on rest (suc j) lt = rest j (omega arith)

-- The bytes of a text.
pub bytes_of-text :
    (cs : List ℕ) (s : Mem) (i : ℕ)
    → ((j : ℕ) → s (i + j) ≡ text cs j)
    → bytes_of (length cs) s i ≡ cs
bytes_of-text [] s i h = refl
bytes_of-text (c ∷ cs) s i h =
    let first : s i ≡ c = ap s (omega arith) ∙ h 0 in
    let rest = bytes_of-text cs s (i + 1) (λ j. ap s (omega arith) ∙ h (suc j)) in
    ap₂ ◌∷◌ first rest
