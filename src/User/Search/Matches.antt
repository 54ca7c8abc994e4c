-- ===== src/User/Search/Matches.antt =====
-- Which lines grep finds.
use system_engineering.Base.{
  ℕ, zero, suc, ◌+◌, ◌<◌, ◌≡◌, ◌≢◌, ◌↔◌, ◌==◌, ◌&&◌, refl, sym, ap, ◌∙◌, arith, Mem, Bool, true,
  false, Bool-cases, inl, inr, ==_iff,
}
use system_engineering.Base.Int.{pos, eqb_ℤ}
use system_engineering.FileSys.Names.{eqb_iff}
use system_engineering.User.Support.{ece391_strncmp}
use system_engineering.User.Support.Compare.{ece391_strncmp-eq_zero_iff}
use system_engineering.User.Search.{behind, holds}

-- The text `s` of `s_len` characters stands in the buffer at one of the `k` places from `check` on.
abbrev pub Occurs : (k : ℕ) → Mem → (s : Mem) → (s_len check : ℕ) → Type 0
Occurs k buffer s s_len check =
    (d : ℕ) × (d < k) × ((j : ℕ) → j < s_len → buffer (check + d + j) ≡ s j)

both_true : (a b : Bool) → a ≡ true → b ≡ true → a && b ≡ true
both_true a b ha hb = ground arith

second_true : (a b : Bool) → a && b ≡ true → b ≡ true
second_true a b h = ground arith

module _ (buffer s : Mem) (s_len : ℕ) (text : (j : ℕ) → j < s_len → s j ≢ 0)
    (some_text : 0 < s_len) where
  -- The test that grep makes at a place.
  abbrev matches : ℕ → Bool
  matches check =
      s 0 == buffer check && eqb_ℤ (ece391_strncmp (behind buffer check) s s_len) (pos 0)

  matches_iff :
      (check : ℕ) → (matches check ≡ true) ↔ ((j : ℕ) → j < s_len → buffer (check + j) ≡ s j)
  matches_iff check =
      let (to, back) = ece391_strncmp-eq_zero_iff (behind buffer check) s s_len text in
      let (zero_to, zero_back) = eqb_iff (ece391_strncmp (behind buffer check) s s_len) in
      (
        (λ h. to (zero_to (second_true _ _ h))),
        (λ same.
            both_true _ _ ((==_iff _ _).1 (sym (same 0 some_text) ∙ ap buffer (omega arith)))
              (zero_back (back same))),
      )

  -- A text that does not stand at the first place stands at a later one.
  later :
      (k check d : ℕ)
      → matches check ≡ false
      → d < suc k
      → ((j : ℕ) → j < s_len → buffer (check + d + j) ≡ s j)
      → Occurs k buffer s s_len (check + 1)
  later k check zero not_here lt same =
      let here = (matches_iff check).1 (λ j less. ap buffer (omega arith) ∙ same j less) in
      ground arith
  later k check (suc d) not_here lt same =
      (d, omega arith, λ j less. ap buffer (omega arith) ∙ same j less)

  -- The search of a line finds a text just when the text stands at one of the places that it looks at.
  pub holds-Occurs :
      (k check : ℕ) → (holds k buffer s s_len check ≡ true) ↔ Occurs k buffer s s_len check
  unfolding holds
  holds-Occurs zero check = (λ h. ground arith, λ o. absurd (omega (arith, o.1)))
  holds-Occurs (suc k) check = elim (Bool-cases (matches check)) [
    | inl here ↦ (
      (λ h. (0, omega arith, λ j lt. ap buffer (omega arith) ∙ (matches_iff check).0 here j lt)),
      (λ o. rw (here, holds) refl),
    )
    | inr not_here ↦
        let step : holds (suc k) buffer s s_len check ≡ holds k buffer s s_len (check + 1) =
          rw (not_here, holds) refl in
        let (to, back) = holds-Occurs k (check + 1) in
        (
          (λ h.
              let (d, lt, same) = to (sym step ∙ h) in
              (suc d, omega arith, λ j less. ap buffer (omega arith) ∙ same j less)),
          (λ o. step ∙ back (later k check o.0 not_here o.1 o.2)),
        )
  ]
