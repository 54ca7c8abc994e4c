-- ===== src/CString/Copy.antt =====
-- What `strncpy` and `strcpy` leave in the destination.
use system_engineering.Base.{
  ℕ, zero, suc, ◌+◌, ◌-◌, ◌<◌, ◌≤◌, ◌≡◌, ◌≢◌, refl, arith, Mem, ◌==◌, ◌⊎◌, inl, inr, Bool-cases,
  ltb, leb, ◌&&◌, if◌then◌else◌, update, some,
}
use system_engineering.CString.{strncpy, strncpy_copy, strncpy_pad, strcpy, strcpy_loop}
use system_engineering.CString.Props.{IsString}

-- The bytes of `src` from `i` up to `l` in the place of those of `dest`.
abbrev spliced : Mem → Mem → ℕ → ℕ → Mem
spliced dest src i l j = if leb i j && ltb j l then src j else dest j

strncpy_copy_lem :
    (k : ℕ) (dest src : Mem) (i l : ℕ)
    → i ≤ l
    → l ≤ i + k
    → ((j : ℕ) → i ≤ j → j < l → src j ≢ 0)
    → (l ≡ i + k) ⊎ (src l ≡ 0)
    → ((strncpy_copy k dest src i).0 ≡ l)
      × ((j : ℕ) → (strncpy_copy k dest src i).1 j ≡ spliced dest src i l j)
unfolding strncpy_copy
strncpy_copy_lem zero dest src i l le le' nz end = (omega arith, λ j. ground arith)
strncpy_copy_lem (suc k) dest src i l le le' nz end = elim (Bool-cases (src i == 0)) [
  | inl z ↦ let stop : l ≡ i = ground (arith, nz i) in rw (z, stop) (refl, λ j. ground arith)
  | inr ne ↦
      let more : i < l = ground arith in
      let (index, bytes) =
        strncpy_copy_lem k (update dest i (src i)) src (i + 1) l (omega arith) (omega arith)
          (λ j p q. nz j (omega arith) q)
          (elim end [ inl e ↦ inl (omega arith) | inr e ↦ inr e ]) in
      rw ne (index, λ j. ground (arith, bytes j))
]

strncpy_pad_lem :
    (k : ℕ) (dest : Mem) (i j : ℕ)
    → strncpy_pad k dest i j ≡ (if leb i j && ltb j (i + k) then 0 else dest j)
unfolding strncpy_pad
strncpy_pad_lem zero dest i j = ground arith
strncpy_pad_lem (suc k) dest i j = ground (arith, strncpy_pad_lem k (update dest i 0) (i + 1) j)

-- `strncpy` of a source that has `l` bytes before its NUL, or at least `l ≡ n` of them, writes
-- exactly the first `n` bytes of the destination: those `l` bytes, then NULs. So the destination is
-- terminated exactly if `l` is below `n`.
pub strncpy_lem :
    (dest src : Mem) (n l : ℕ)
    → l ≤ n
    → ((j : ℕ) → j < l → src j ≢ 0)
    → (l ≡ n) ⊎ (src l ≡ 0)
    → (j : ℕ) → strncpy dest src n j ≡ (if ltb j l then src j else if ltb j n then 0 else dest j)
unfolding strncpy
strncpy_lem dest src n l le nz end j =
    let (index, bytes) =
      strncpy_copy_lem n dest src 0 l (omega arith) (omega arith) (λ j p q. nz j q)
        (elim end [ inl e ↦ inl (omega arith) | inr e ↦ inr e ]) in
    ground (arith, index, bytes j, strncpy_pad_lem (n - l) (strncpy_copy n dest src 0).1 l j)

strcpy_loop_lem :
    (k : ℕ) (dest src : Mem) (i n : ℕ)
    → IsString src n
    → i ≤ n
    → n < i + k
    → (out : Mem) × (strcpy_loop k dest src i ≡ some out)
      × ((j : ℕ) → out j ≡ (if leb i j && leb j n then src j else dest j))
unfolding strcpy_loop
strcpy_loop_lem zero dest src i n s le lt = absurd (omega arith)
strcpy_loop_lem (suc k) dest src i n s le lt = elim (Bool-cases (src i == 0)) [
  | inl z ↦
      let stop : n ≡ i = ground (arith, s.runs i) in (update dest i 0, rw z refl, λ j. ground arith)
  | inr ne ↦
      let more : i < n = ground (arith, s.ends) in
      let (out, done, bytes) =
        strcpy_loop_lem k (update dest i (src i)) src (i + 1) n s (omega arith) (omega arith) in
      (out, rw ne done, λ j. ground (arith, bytes j))
]

-- `strcpy` returns, given more fuel than the source's length, and has written the source with its
-- NUL and nothing else.
strcpy_lem :
    (fuel : ℕ) (dest src : Mem) (n : ℕ)
    → IsString src n
    → n < fuel
    → (out : Mem) × (strcpy fuel dest src ≡ some out)
      × ((j : ℕ) → out j ≡ (if leb j n then src j else dest j))
unfolding strcpy
strcpy_lem fuel dest src n s lt =
    let (out, done, bytes) = strcpy_loop_lem fuel dest src 0 n s (omega arith) (omega arith) in
    (out, done, λ j. ground (arith, bytes j))
