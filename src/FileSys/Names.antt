-- ===== src/FileSys/Names.antt =====
-- Which entry `read_dentry_by_name` and `read_dentry_by_index` find.
use system_engineering.Base.{
  ℕ, zero, suc, ◌+◌, ◌<◌, ◌≤◌, ◌≡◌, ◌≢◌, ◌↔◌, arith, Mem, true, ◌==◌, ◌⊎◌, inl, inr, Bool-cases,
  ==_iff, ltb, if◌then◌else◌,
}
use system_engineering.Base.Int.{ℤ, pos, eqb_ℤ}
use system_engineering.CString.{strncmp}
use system_engineering.CString.Props.{IsString, AllBytes, Agree}
use system_engineering.CString.Compare.{strncmp-eq-zero_iff}
use system_engineering.CString.Copy.{strncpy_lem}
use system_engineering.FileSys.{Dentry, bounded_name, equal_strings}

-- The name field holds the name `fname`, of length `n`: its bytes, and a NUL behind them unless they
-- fill the field.
pub record NameIs (d : Dentry) (fname : Mem) (n : ℕ) : Type 0 where
  pub fits : n ≤ 32
  pub same : (j : ℕ) → j < n → d.file_name j ≡ fname j
  pub ends : (n ≡ 32) ⊎ (d.file_name n ≡ 0)

pub eqb_iff : (a : ℤ) → (eqb_ℤ a (pos 0) ≡ true) ↔ (a ≡ pos 0)
eqb_iff a = ground arith

pub equal_strings_iff :
    (a b : Mem) (n : ℕ) → AllBytes a → AllBytes b → (equal_strings a b n ≡ true) ↔ Agree a b n
equal_strings_iff a b n ha hb =
    let e = eqb_iff (strncmp a b n) in
    let c = strncmp-eq-zero_iff a b n ha hb in (λ h. c.0 (e.0 h), λ h. e.1 (c.1 h))

-- The length of a name field: the place of its first NUL, at most 32.
pub name_length : (k i : ℕ) → Mem → ℕ
name_length zero i s = i
name_length (suc k) i s = let rest = name_length k (i + 1) s in if s i == 0 then i else rest

pub name_length_lem :
    (k i : ℕ) (s : Mem)
    → (i ≤ name_length k i s)
      × (name_length k i s ≤ i + k)
      × ((j : ℕ) → i ≤ j → j < name_length k i s → s j ≢ 0)
      × ((name_length k i s ≡ i + k) ⊎ (s (name_length k i s) ≡ 0))
unfolding name_length
name_length_lem zero i s =
    (omega arith, omega arith, λ j p q. absurd (omega arith), inl (omega arith))
name_length_lem (suc k) i s = elim (Bool-cases (s i == 0)) [
  | inl z ↦ rw z (omega arith, omega arith, λ j p q. absurd (omega arith), inr ((==_iff _ _).0 z))
  | inr ne ↦
      let (lo, hi, nz, end) = name_length_lem k (i + 1) s in
      rw ne (
        omega arith,
        omega arith,
        (λ j p q. elim (Bool-cases (j == i)) [
          | inl here ↦ rw ((==_iff j i).0 here) (ground arith)
          | inr after ↦ nz j (ground arith) q
        ]),
        elim end [ inl e ↦ inl (omega arith) | inr e ↦ inr e ],
      )
]

-- The bytes of the bounded name: the field's up to its first NUL, and NULs from there on.
bounded_name_lem :
    (d : Dentry)
    → (l : ℕ) × (l ≤ 32)
      × ((j : ℕ) → j < l → d.file_name j ≢ 0)
      × ((l ≡ 32) ⊎ (d.file_name l ≡ 0))
      × ((j : ℕ) → bounded_name d j ≡ (if ltb j l then d.file_name j else 0))
unfolding bounded_name
bounded_name_lem d =
    let (lo, hi, nz, end) = name_length_lem 32 0 d.file_name in
    (
      name_length 32 0 d.file_name,
      hi,
      (λ j q. nz j (omega arith) q),
      end,
      λ j. ground (
        arith,
        strncpy_lem (λ j. 0) d.file_name 32 (name_length 32 0 d.file_name) hi
            (λ j q. nz j (omega arith) q) end j,
      ),
    )

module _ (d : Dentry) (fname : Mem) (n l : ℕ) (s : IsString fname n) (hl : l ≤ 32)
    (nz : (j : ℕ) → j < l → d.file_name j ≢ 0) (end : (l ≡ 32) ⊎ (d.file_name l ≡ 0))
    (bytes : (j : ℕ) → bounded_name d j ≡ (if ltb j l then d.file_name j else 0)) where
  Agree-length : Agree (bounded_name d) fname 33 → n ≡ l
  Agree-length a =
      let at : (j : ℕ) → j ≤ l → bounded_name d j ≡ fname j =
        λ j h. a j (omega arith) (λ i p. ground (arith, bytes i, nz i)) in
      elim (Bool-cases (ltb n l)) [
        | inl lt ↦ absurd (nz n (ground arith) (ground (arith, at n, bytes n, s.ends)))
        | inr ge ↦ elim (Bool-cases (ltb l n)) [
          | inl lt ↦ absurd (s.runs l (ground arith) (ground (arith, at l, bytes l)))
          | inr ge' ↦ ground arith
        ]
      ]

  NameIs-length : NameIs d fname n → n ≡ l
  NameIs-length h = elim (Bool-cases (ltb n l)) [
    | inl lt ↦ ground (arith, h.ends, nz n)
    | inr ge ↦ elim (Bool-cases (ltb l n)) [
      | inl lt ↦ ground (arith, end, h.same l, h.fits, s.runs l)
      | inr ge' ↦ ground arith
    ]
  ]

  NameIs-of_Agree : Agree (bounded_name d) fname 33 → NameIs d fname n
  NameIs-of_Agree a =
      let e = Agree-length a in
      record {
        fits = omega arith;
        same = λ j h.
            ground (arith, a j (omega arith) (λ i p. ground (arith, bytes i, nz i)), bytes j);
        ends = rw e end;
      }

  Agree-of_NameIs : NameIs d fname n → Agree (bounded_name d) fname 33
  Agree-of_NameIs h j lt before =
      let e = NameIs-length h in ground (arith, bytes j, h.same j, s.ends, before l, bytes l)

-- The test of one entry.
pub name_test :
    (d : Dentry) (fname : Mem) (n : ℕ)
    → AllBytes d.file_name
    → AllBytes fname
    → IsString fname n
    → (equal_strings (bounded_name d) fname 33 ≡ true) ↔ NameIs d fname n
name_test d fname n hd hf s =
    let (l, hl, nz, end, bytes) = bounded_name_lem d in
    let same =
      equal_strings_iff (bounded_name d) fname 33 (λ j. ground (arith, bytes j, hd j)) hf in
    (
      (λ e. NameIs-of_Agree d fname n l s hl nz end bytes (same.0 e)),
      λ h. same.1 (Agree-of_NameIs d fname n l s hl nz end bytes h),
    )
