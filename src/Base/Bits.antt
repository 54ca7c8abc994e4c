-- ===== src/Base/Bits.antt =====
-- The masks of the source: the bits of a number from one place on.
use Prim.Native.Nat.{digits, min, bit_and-bitwise}
use native.Mathlib.Nat.{
  div-one, min-zero, min-eq_left, div-add-mod, div-div-eq-div-mul, mul_assoc, add-mul-mod_self_left,
  mod-eq_of_lt, mod-lt, pow-suc, pow-succ',
}
use system_engineering.Base.{
  ℕ, zero, suc, ◌+◌, ◌-◌, ◌*◌, ◌/◌, ◌%◌, ◌^◌, ◌≤◌, ◌<◌, ◌≡◌, refl, sym, ap, ◌∙◌, arith, bit_and,
}

-- The rounds that are left over do not matter.
more_digits :
    (extra n a b : ℕ) → a ≤ n → digits (λ y. 0) min (n + extra) a b ≡ digits (λ y. 0) min n a b
more_digits extra n zero b le = none_left (n + extra) ∙ sym (none_left n)
  where
    none_left : (m : ℕ) → digits (λ y. 0) min m 0 b ≡ 0
    none_left zero = refl
    none_left (suc m) = refl
more_digits extra zero (suc a) b le = absurd (omega arith)
more_digits extra (suc n) (suc a) b le =
    let more : suc n + extra ≡ suc (n + extra) = omega arith in
    rw more (rw (more_digits extra n (suc a / 2) (b / 2) (omega arith)) refl)

-- A mask falls apart into its lowest bit and the others.
bit_and-split :
    (mask x : ℕ) → bit_and x mask ≡ min (x % 2) (mask % 2) + 2 * bit_and (x / 2) (mask / 2)
bit_and-split mask zero = simp bit_and-bitwise (ground arith)
bit_and-split mask (suc x) =
    let half = suc x / 2 in
    let rounds : half + (x - half) ≡ x = omega arith in
    let fewer =
      ap (λ n. digits (λ y. 0) min n half (mask / 2)) (sym rounds)
      ∙ more_digits (x - half) half half (mask / 2) (omega arith) in
    simp bit_and-bitwise (omega (arith, fewer))

none_set : (n a : ℕ) → digits (λ y. 0) min n a 0 ≡ 0
none_set zero a = refl
none_set (suc n) zero = refl
none_set (suc n) (suc a) = rw (none_set n (suc a / 2)) (omega (arith, min-zero (suc a % 2)))

bit_and-zero : (a : ℕ) → bit_and a 0 ≡ 0
bit_and-zero a = simp bit_and-bitwise (none_set a a)

mod-double : (a m : ℕ) → 0 < m → a % (2 * m) ≡ a / 2 % m * 2 + a % 2
mod-double a m pos =
    let rest = a / 2 % m * 2 + a % 2 in
    let split : a ≡ rest + 2 * m * (a / 2 / m) =
      omega (arith, div-add-mod (a / 2) m, mul_assoc 2 m (a / 2 / m)) in
    ap (λ x. x % (2 * m)) split
    ∙ add-mul-mod_self_left rest (2 * m) (a / 2 / m)
    ∙ mod-eq_of_lt (omega (arith, mod-lt (a / 2) pos))

two_pow-pos : (w : ℕ) → 0 < 2 ^ w
two_pow-pos zero = omega arith
two_pow-pos (suc w) = omega (arith, two_pow-pos w, pow-succ' 2 w)

-- A mask of the lowest `w` bits.
pub bit_and-low : (w a : ℕ) → bit_and a (2 ^ w - 1) ≡ a % 2 ^ w
bit_and-low zero a = bit_and-zero a ∙ omega arith
bit_and-low (suc w) a =
    let m = 2 ^ w in
    let twice : 2 ^ suc w ≡ 2 * m = pow-succ' 2 w in
    let above : (2 * m - 1) / 2 ≡ m - 1 = omega (arith, two_pow-pos w) in
    let lowest : (2 * m - 1) % 2 ≡ 1 = omega (arith, two_pow-pos w) in
    let digit : min (a % 2) 1 ≡ a % 2 = min-eq_left (omega arith) in
    rw twice (
      bit_and-split (2 * m - 1) a
      ∙ rw (above, lowest, digit, bit_and-low w (a / 2)) (omega arith)
      ∙ sym (mod-double a m (two_pow-pos w)))

-- And one of `w` bits from place `s` on.
pub bit_and-field : (s w a : ℕ) → bit_and a ((2 ^ w - 1) * 2 ^ s) ≡ a / 2 ^ s % 2 ^ w * 2 ^ s
bit_and-field zero w a =
    let mask : bit_and a ((2 ^ w - 1) * 1) ≡ a % 2 ^ w =
      ap (bit_and a) (omega arith) ∙ bit_and-low w a in
    let whole : a / 1 % 2 ^ w ≡ a % 2 ^ w = ap (λ n. n % 2 ^ w) (div-one a) in
    mask ∙ omega (arith, whole)
bit_and-field (suc s) w a =
    let x = (2 ^ w - 1) * 2 ^ s in
    let next : 2 ^ suc s ≡ 2 ^ s * 2 = pow-suc 2 s in
    let twice : (2 ^ w - 1) * 2 ^ suc s ≡ x * 2 =
      ap (λ n. (2 ^ w - 1) * n) next ∙ sym (mul_assoc (2 ^ w - 1) (2 ^ s) 2) in
    let places : a / 2 ^ suc s ≡ a / 2 / 2 ^ s =
      ap (λ n. a / n) (pow-succ' 2 s) ∙ sym (div-div-eq-div-mul a 2 (2 ^ s)) in
    let y = a / 2 / 2 ^ s in
    let above : x * 2 / 2 ≡ x = omega arith in
    let lowest : x * 2 % 2 ≡ 0 = omega arith in
    let halved : bit_and a (x * 2) ≡ y % 2 ^ w * 2 ^ s * 2 + 0 =
      bit_and-split (x * 2) a
      ∙ rw (above, lowest, min-zero (a % 2), bit_and-field s w (a / 2)) (omega arith) in
    let moved : y % 2 ^ w * 2 ^ s * 2 + 0 ≡ y % 2 ^ w * 2 ^ suc s =
      omega (arith, mul_assoc (y % 2 ^ w) (2 ^ s) 2, ap (λ n. y % 2 ^ w * n) next) in
    ap (bit_and a) twice ∙ halved ∙ moved ∙ ap (λ n. n % 2 ^ w * 2 ^ suc s) (sym places)
