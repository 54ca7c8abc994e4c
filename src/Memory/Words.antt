-- ===== src/Memory/Words.antt =====
-- What `memset_word` and `memset_dword` set.
use system_engineering.Base.{
  ℕ, zero, suc, ◌+◌, ◌-◌, ◌*◌, ◌/◌, ◌%◌, ◌^◌, ◌≡◌, refl, ◌==◌, ◌&&◌, ltb, leb, if◌then◌else◌, Mem,
  u8, update, arith, ap, ◌∙◌, ◌<◌,
}
use native.Mathlib.Nat.{mod-lt}
use system_engineering.Memory.{store4, rep_stosw, rep_stosd, memset_word, memset_dword}

-- Byte `k` of a word, the lowest first.
abbrev pub byte_at : (b0 b1 b2 b3 k : ℕ) → ℕ
byte_at b0 b1 b2 b3 k = if k == 0 then b0 else if k == 1 then b1 else if k == 2 then b2 else b3

rep_stosw_lem :
    (n d b0 b1 : ℕ) (m : Mem) (a : ℕ)
    → rep_stosw n d b0 b1 m a
      ≡ (if leb d a && ltb a (d + 2 * n) then (if (a - d) % 2 == 0 then b0 else b1) else m a)
unfolding rep_stosw
rep_stosw_lem zero d b0 b1 m a = ground arith
rep_stosw_lem (suc n) d b0 b1 m a =
    ground (arith, rep_stosw_lem n (d + 2) b0 b1 (update (update m d b0) (d + 1) b1) a)

rep_stosd_lem :
    (n d b0 b1 b2 b3 : ℕ) (m : Mem) (a : ℕ)
    → rep_stosd n d b0 b1 b2 b3 m a
      ≡ (if leb d a && ltb a (d + 4 * n) then byte_at b0 b1 b2 b3 ((a - d) % 4) else m a)
unfolding rep_stosd
rep_stosd_lem zero d b0 b1 b2 b3 m a = ground arith
rep_stosd_lem (suc n) d b0 b1 b2 b3 m a =
    ground (arith, rep_stosd_lem n (d + 4) b0 b1 b2 b3 (store4 m d b0 b1 b2 b3) a)

dword_byte :
    (c r : ℕ)
    → r < 4
    → byte_at (u8 c) (u8 (c / 2 ^ 8)) (u8 (c / 2 ^ 16)) (u8 (c / 2 ^ 24)) r ≡ u8 (c / 2 ^ (8 * r))
dword_byte c zero h = ap u8 (omega arith)
dword_byte c (suc zero) h = refl
dword_byte c (suc (suc zero)) h = refl
dword_byte c (suc (suc (suc zero))) h = refl
dword_byte c (suc (suc (suc (suc r)))) h = absurd (omega arith)

word_byte : (c r : ℕ) → r < 2 → (if r == 0 then u8 c else u8 (c / 2 ^ 8)) ≡ u8 (c / 2 ^ (8 * r))
word_byte c zero h = ap u8 (omega arith)
word_byte c (suc zero) h = refl
word_byte c (suc (suc r)) h = absurd (omega arith)

-- `memset_word` sets the 2 * `n` bytes from `s` on, in turn to the low byte of `c` and to the next
-- one, and `memset_dword` sets the 4 * `n` bytes from `s` on to the four bytes of `c` over and over,
-- the lowest first; both leave every other byte.
memset_dword-repeated :
    (s c n : ℕ) (m : Mem) (a : ℕ)
    → (memset_word s c n m a
        ≡ (if leb s a && ltb a (s + 2 * n) then u8 (c / 2 ^ (8 * ((a - s) % 2))) else m a))
      × (memset_dword s c n m a
          ≡ (if leb s a && ltb a (s + 4 * n) then u8 (c / 2 ^ (8 * ((a - s) % 4))) else m a))
unfolding memset_word memset_dword
memset_dword-repeated s c n m a = (
  rep_stosw_lem n s (u8 c) (u8 (c / 2 ^ 8)) m a
      ∙ ap (λ b. if leb s a && ltb a (s + 2 * n) then b else m a)
          (word_byte c ((a - s) % 2) (mod-lt (a - s) {m = 2} (omega arith))),
  rep_stosd_lem n s (u8 c) (u8 (c / 2 ^ 8)) (u8 (c / 2 ^ 16)) (u8 (c / 2 ^ 24)) m a
      ∙ ap (λ b. if leb s a && ltb a (s + 4 * n) then b else m a)
          (dword_byte c ((a - s) % 4) (mod-lt (a - s) {m = 4} (omega arith))),
)
