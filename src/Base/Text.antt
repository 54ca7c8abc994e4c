-- ===== src/Base/Text.antt =====
-- Texts as lists of character codes, and as NUL-terminated arrays.
use Prim.Native.Nat.{ℕ, zero, suc, ◌+◌}
use Prim.Native.Char.{code}
use Prim.Native.String.{String}
use mathlib.Core.List.{List, [], ◌∷◌}
use system_engineering.Base.Arrays.{Mem}

-- The characters of a text.
abbrev pub codes : String → List ℕ
codes String.[] = []
codes (String.◌∷◌ c s) = code c ∷ codes s

-- An array that holds a text, NULs behind it.
abbrev pub text : List ℕ → Mem
text [] j = 0
text (c ∷ cs) zero = c
text (c ∷ cs) (suc j) = text cs j

-- The `n` bytes of a buffer from `i` on.
abbrev pub bytes_of : ℕ → Mem → ℕ → List ℕ
bytes_of zero buf i = []
bytes_of (suc n) buf i = buf i ∷ bytes_of n buf (i + 1)
