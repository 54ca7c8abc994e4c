-- ===== src/Base/Arrays.antt =====
-- C arrays as functions of the index, and 8, 16 and 32 bit words as numbers.
use Prim.Native.Nat.{ℕ, ◌-◌, ◌/◌, ◌%◌, ◌^◌}
use mathlib.Core.Path.{◌≡◌}
use mathlib.Core.Logic.{◌≢◌}
use native.Mathlib.Omega.{arith}
use system_engineering.Base.Tests.{◌==◌, if◌then◌else◌}

-- `a[i]` is `a i`. No index is out of range here: that the code's indices are in range is proved.
abbrev pub Arr {ℓ} : Type ℓ → Type ℓ
Arr A = ℕ → A

-- A buffer of bytes.
abbrev pub Mem : Type 0
Mem = Arr ℕ

module _ {ℓ} {A : Type ℓ} where
  -- `a[i] = v`
  abbrev pub update : Arr A → ℕ → A → Arr A
  update a i v j = if j == i then v else a j

  pub update_self : (a : Arr A) (i : ℕ) (v : A) → update a i v i ≡ v
  update_self a i v = ground arith

  pub update_ne : (a : Arr A) (i : ℕ) (v : A) (j : ℕ) → j ≢ i → update a i v j ≡ a j
  update_ne a i v j h = ground arith

-- The value that is kept of a number by a `uint8_t`, `uint16_t` and `uint32_t`.
abbrev pub u8 : ℕ → ℕ
u8 x = x % 2 ^ 8

abbrev pub u16 : ℕ → ℕ
u16 x = x % 2 ^ 16

abbrev pub u32 : ℕ → ℕ
u32 x = x % 2 ^ 32

-- `~x` of a byte, kept in a byte.
abbrev pub not8 : ℕ → ℕ
not8 x = 255 - x

-- Bit `j` of a word.
abbrev pub bit : ℕ → ℕ → ℕ
bit x j = x / 2 ^ j % 2
