-- ===== src/User/Support/Compare.antt =====
-- When `ece391_strncmp` finds no difference.
use system_engineering.Base.{
  ℕ, zero, suc, ◌+◌, ◌<◌, ◌≡◌, ◌≢◌, ◌↔◌, ◌==◌, refl, sym, ap, ◌∙◌, arith, Mem, true, false,
  Bool-cases, inl, inr, ==_iff, ==_of_ne, leb,
}
use system_engineering.Base.Int.{pos, pos_part, neg_part, sub_ℕ}
use system_engineering.User.Support.{strncmp_rounds, ece391_strncmp}

-- Characters that differ leave a difference.
differ : (a b : ℕ) → a ≢ b → sub_ℕ a b ≢ pos 0
differ a b ne e =
    let p : pos_part (sub_ℕ a b) ≡ 0 = ap pos_part e in
    let n : neg_part (sub_ℕ a b) ≡ 0 = ap neg_part e in
    ne (elim (Bool-cases (leb b a)) [ inl le ↦ ground arith | inr gt ↦ ground arith ])

-- A character that agrees, in front of others.
all_agree :
    (n : ℕ) (s1 s2 : Mem) (i : ℕ)
    → s1 i ≡ s2 i
    → ((j : ℕ) → j < n → s1 (i + 1 + j) ≡ s2 (i + 1 + j))
    → (j : ℕ) → j < suc n
    → s1 (i + j) ≡ s2 (i + j)
all_agree n s1 s2 i first rest zero lt = ap s1 (omega arith) ∙ first ∙ ap s2 (omega arith)
all_agree n s1 s2 i first rest (suc j) lt =
    ap s1 (omega arith) ∙ rest j (omega arith) ∙ ap s2 (omega arith)

strncmp_rounds-differ :
    (n : ℕ) (s1 s2 : Mem) (i : ℕ)
    → s1 i == s2 i ≡ false
    → strncmp_rounds (suc n) s1 s2 i ≡ sub_ℕ (s1 i) (s2 i)
unfolding strncmp_rounds
strncmp_rounds-differ n s1 s2 i other = rw other refl

strncmp_rounds-agree :
    (n : ℕ) (s1 s2 : Mem) (i : ℕ)
    → s1 i == s2 i ≡ true
    → s1 i == 0 ≡ false
    → strncmp_rounds (suc n) s1 s2 i ≡ strncmp_rounds n s1 s2 (i + 1)
unfolding strncmp_rounds
strncmp_rounds-agree zero s1 s2 i first more = rw (first, more) refl
strncmp_rounds-agree (suc n) s1 s2 i first more =
    let left : suc n == 0 ≡ false = ground arith in rw (strncmp_rounds, first, more, left) refl

strncmp_rounds_lem :
    (n : ℕ) (s1 s2 : Mem) (i : ℕ)
    → ((j : ℕ) → j < n → s2 (i + j) ≢ 0)
    → (strncmp_rounds n s1 s2 i ≡ pos 0) ↔ ((j : ℕ) → j < n → s1 (i + j) ≡ s2 (i + j))
unfolding strncmp_rounds
strncmp_rounds_lem zero s1 s2 i text = (λ e j lt. absurd (omega arith), λ same. refl)
strncmp_rounds_lem (suc n) s1 s2 i text = elim (Bool-cases (s1 i == s2 i)) [
  | inr other ↦
      let unequal : s1 i ≢ s2 i = ground arith in
      (
        (λ e.
            absurd
              (differ (s1 i) (s2 i) unequal (sym (strncmp_rounds-differ n s1 s2 i other) ∙ e))),
        (λ same.
            absurd (unequal (ap s1 (omega arith) ∙ same 0 (omega arith) ∙ ap s2 (omega arith)))),
      )
  | inl first ↦
      let equal = (==_iff (s1 i) (s2 i)).0 first in
      let more =
        ==_of_ne (s1 i) 0 (λ e. text 0 (omega arith) (ap s2 (omega arith) ∙ sym equal ∙ e)) in
      let step = strncmp_rounds-agree n s1 s2 i first more in
      let (to, back) =
        strncmp_rounds_lem n s1 s2 (i + 1)
          (λ j lt e. text (suc j) (omega arith) (ap s2 (omega arith) ∙ e)) in
      (
        (λ e. all_agree n s1 s2 i equal (to (sym step ∙ e))),
        (λ same.
            step
            ∙ back
                (λ j lt. ap s1 (omega arith) ∙ same (suc j) (omega arith) ∙ ap s2 (omega arith))),
      )
]

-- `ece391_strncmp` of a text of at least `n` characters is 0 just when the first `n` characters agree.
pub ece391_strncmp-eq_zero_iff :
    (s1 s2 : Mem) (n : ℕ)
    → ((j : ℕ) → j < n → s2 j ≢ 0)
    → (ece391_strncmp s1 s2 n ≡ pos 0) ↔ ((j : ℕ) → j < n → s1 j ≡ s2 j)
unfolding ece391_strncmp
ece391_strncmp-eq_zero_iff s1 s2 n text =
    let (to, back) = strncmp_rounds_lem n s1 s2 0 (λ j lt e. text j lt (ap s2 (omega arith) ∙ e)) in
    (
      (λ e j lt. ap s1 (omega arith) ∙ to e j lt ∙ ap s2 (omega arith)),
      (λ same. back (λ j lt. ap s1 (omega arith) ∙ same j lt ∙ ap s2 (omega arith))),
    )
