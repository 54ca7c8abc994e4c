-- ===== src/CString/Compare.antt =====
-- `strncmp` as a test of equality.
use system_engineering.Base.{
  ℕ, zero, suc, ◌+◌, ◌<◌, ◌≤◌, ◌≡◌, ◌≢◌, ◌↔◌, refl, arith, Mem, ◌==◌, ◌⊎◌, inl, inr, Bool-cases,
  ==_iff,
}
use system_engineering.Base.Int.{pos}
use system_engineering.CString.{strncmp, strncmp_loop, sub_int8}
use system_engineering.CString.Props.{AllBytes, Agree}

sub_int8_zero : (a b : ℕ) → a < 256 → b < 256 → sub_int8 a b ≡ pos 0 → a ≡ b
sub_int8_zero a b h h' e = ground arith

sub_int8_self : (a : ℕ) → sub_int8 a a ≡ pos 0
sub_int8_self a = ground arith

-- Agreement from index `i` on, for `k` bytes.
abbrev AgreeFrom : Mem → Mem → ℕ → ℕ → Type 0
AgreeFrom s1 s2 i k =
    (j : ℕ) → i ≤ j → j < i + k → ((l : ℕ) → i ≤ l → l < j → s1 l ≢ 0) → s1 j ≡ s2 j

-- One round of the loop.
strncmp_loop_round :
    (k : ℕ) (s1 s2 : Mem) (i : ℕ)
    → s1 i < 256
    → s2 i < 256
    → strncmp_loop (suc k) s1 s2 i ≡ pos 0
    → (s1 i ≡ s2 i) × ((s1 i ≡ 0) ⊎ (strncmp_loop k s1 s2 (i + 1) ≡ pos 0))
unfolding strncmp_loop
strncmp_loop_round k s1 s2 i h1 h2 e = ground (arith, sub_int8_zero (s1 i) (s2 i))

strncmp_loop_sound :
    (k : ℕ) (s1 s2 : Mem) (i : ℕ)
    → AllBytes s1
    → AllBytes s2
    → strncmp_loop k s1 s2 i ≡ pos 0
    → AgreeFrom s1 s2 i k
strncmp_loop_sound zero s1 s2 i b1 b2 e j le lt nz = absurd (omega arith)
strncmp_loop_sound (suc k) s1 s2 i b1 b2 e j le lt nz =
    let round = strncmp_loop_round k s1 s2 i (b1 i) (b2 i) e in
    elim (Bool-cases (j == i)) [
      | inl here ↦ rw ((==_iff j i).0 here) round.0
      | inr later ↦ elim round.1 [
        | inl z ↦ absurd (nz i (omega arith) (ground arith) z)
        | inr r ↦
            strncmp_loop_sound k s1 s2 (i + 1) b1 b2 r j (ground arith) (omega arith)
              (λ l p q. nz l (omega arith) q)
      ]
    ]

AgreeFrom-next :
    (k : ℕ) (s1 s2 : Mem) (i : ℕ) → AgreeFrom s1 s2 i (suc k) → s1 i ≢ 0 → AgreeFrom s1 s2 (i + 1) k
AgreeFrom-next k s1 s2 i a ne j le lt nz = a j (omega arith) (omega arith) before
  where
    before : (l : ℕ) → i ≤ l → l < j → s1 l ≢ 0
    before l p q = elim (Bool-cases (l == i)) [
      | inl here ↦ rw ((==_iff l i).0 here) ne
      | inr after ↦ nz l (ground arith) q
    ]

strncmp_loop_complete :
    (k : ℕ) (s1 s2 : Mem) (i : ℕ) → AgreeFrom s1 s2 i k → strncmp_loop k s1 s2 i ≡ pos 0
unfolding strncmp_loop
strncmp_loop_complete zero s1 s2 i a = refl
strncmp_loop_complete (suc k) s1 s2 i a =
    let here = a i (omega arith) (omega arith) (λ l p q. absurd (omega arith)) in
    elim (Bool-cases (s1 i == 0)) [
      | inl e ↦ ground (arith, sub_int8_self (s1 i))
      | inr ne ↦
          let rest =
            strncmp_loop_complete k s1 s2 (i + 1) (AgreeFrom-next k s1 s2 i a (ground arith)) in
          ground arith
    ]

-- `strncmp` of two byte strings returns 0 exactly if they agree in their first `n` bytes or up to
-- a NUL that comes before; the signed difference of two bytes never hides a mismatch.
pub strncmp-eq-zero_iff :
    (s1 s2 : Mem) (n : ℕ) → AllBytes s1 → AllBytes s2 → (strncmp s1 s2 n ≡ pos 0) ↔ Agree s1 s2 n
unfolding strncmp
strncmp-eq-zero_iff s1 s2 n b1 b2 = (
  λ e j lt nz. strncmp_loop_sound n s1 s2 0 b1 b2 e j (omega arith) (omega arith) (λ i p q. nz i q),
  λ a.
      strncmp_loop_complete n s1 s2 0
        (λ j le lt nz. a j (omega arith) (λ i q. nz i (omega arith) q)),
)
