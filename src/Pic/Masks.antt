-- ===== src/Pic/Masks.antt =====
-- What `enable_irq` and `disable_irq` do to each line of the two controllers.
use system_engineering.Base.{
  ℕ, ◌-◌, ◌^◌, ◌<◌, ◌≡◌, refl, true, arith, Bool, ◌==◌, ==_iff, if◌then◌else◌, bit, not8, u8,
  bit_and, bit_or, ltb, [], List, ◌∷◌,
}
use system_engineering.Base.Table.{every_below, every_below-holds}
use system_engineering.Pic.{
  PicMasks, Out, outb, enable_irq, disable_irq, master_8259_data, slave_8259_data,
}

-- A test of every byte, line and bit.
module _ (p : ℕ → ℕ → ℕ → Bool) where
  all_lines : Bool
  unfolding every_below
  all_lines = every_below 256 (λ x. every_below 8 (λ i. every_below 8 (p x i)))

  all_lines_sound : all_lines ≡ true → (x i j : ℕ) → x < 256 → i < 8 → j < 8 → p x i j ≡ true
  unfolding all_lines
  all_lines_sound h x i j hx hi hj =
      every_below-holds 8 (p x i) j
        (every_below-holds 8 (λ i. every_below 8 (p x i)) i
          (every_below-holds 256 (λ x. every_below 8 (λ i. every_below 8 (p x i))) x h hx) hi)
        hj

cleared : ℕ → ℕ → ℕ → Bool
cleared x i j = bit (bit_and x (not8 (u8 (2 ^ i)))) j == (if j == i then 0 else bit x j)

or_set : ℕ → ℕ → ℕ → Bool
or_set x i j = bit (bit_or x (u8 (2 ^ i))) j == (if j == i then 1 else bit x j)

or_not_set : ℕ → ℕ → ℕ → Bool
or_not_set x i j = bit (bit_or x (not8 (u8 (2 ^ i)))) j == (if j == i then bit x j else 1)

clear_table : all_lines cleared ≡ true
unfolding all_lines cleared
clear_table = refl

set_table : all_lines or_set ≡ true
unfolding all_lines or_set
set_table = refl

set_not_table : all_lines or_not_set ≡ true
unfolding all_lines or_not_set
set_not_table = refl

module _ (x i j : ℕ) (hx : x < 256) (hi : i < 8) (hj : j < 8) where
  bit-clear : bit (bit_and x (not8 (u8 (2 ^ i)))) j ≡ (if j == i then 0 else bit x j)
  unfolding cleared
  bit-clear = (==_iff _ _).0 (all_lines_sound cleared clear_table x i j hx hi hj)

  bit-set : bit (bit_or x (u8 (2 ^ i))) j ≡ (if j == i then 1 else bit x j)
  unfolding or_set
  bit-set = (==_iff _ _).0 (all_lines_sound or_set set_table x i j hx hi hj)

  bit-set_not : bit (bit_or x (not8 (u8 (2 ^ i)))) j ≡ (if j == i then bit x j else 1)
  unfolding or_not_set
  bit-set_not = (==_iff _ _).0 (all_lines_sound or_not_set set_not_table x i j hx hi hj)

-- Both masks are bytes.
pub record AreBytes (m : PicMasks) : Type 0 where
  pub master_byte : m.master_mask < 256
  pub slave_byte : m.slave_mask < 256

-- Whether line `j` of 16 is masked: 1 if it is.
abbrev pub line : PicMasks → ℕ → ℕ
line m j = if ltb j 8 then bit m.master_mask j else bit m.slave_mask (j - 8)

-- The write that tells a controller its new mask.
abbrev pub mask_write : PicMasks → ℕ → List Out
mask_write m i =
    if ltb i 8
    then outb m.master_mask master_8259_data ∷ []
    else outb m.slave_mask slave_8259_data ∷ []

-- `enable_irq` unmasks exactly the line that it is given, of either controller, and tells the
-- controller its new mask; every other line stays as it was.
enable_irq-line :
    (m : PicMasks) (i j : ℕ)
    → AreBytes m
    → i < 16
    → j < 16
    → (line (enable_irq m i).0 j ≡ (if j == i then 0 else line m j))
      × ((enable_irq m i).1 ≡ mask_write (enable_irq m i).0 i)
unfolding enable_irq
enable_irq-line m i j b hi hj =
    ground (arith, bit-clear m.master_mask i j, bit-clear m.slave_mask (i - 8) (j - 8))

-- `disable_irq` of a line of the master masks exactly that line. Of a line of the slave it masks
-- every other line of the slave, and leaves the line itself and the master as they were.
pub disable_irq-line :
    (m : PicMasks) (i j : ℕ)
    → AreBytes m
    → i < 16
    → j < 16
    → line (disable_irq m i).0 j ≡ (
        if ltb i 8
        then (if j == i then 1 else line m j)
        else (if ltb j 8 then line m j else if j == i then line m j else 1))
unfolding disable_irq
disable_irq-line m i j b hi hj =
    ground (arith, bit-set m.master_mask i j, bit-set_not m.slave_mask (i - 8) (j - 8))
