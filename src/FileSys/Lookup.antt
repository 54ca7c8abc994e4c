-- ===== src/FileSys/Lookup.antt =====
-- What `read_dentry_by_name` finds, and how it goes with `read_dentry_by_index`.
use system_engineering.Base.{
  ℕ, zero, suc, ◌+◌, ◌<◌, ◌≤◌, ◌≡◌, ◌↔◌, refl, arith, Mem, true, ◌==◌, inl, inr, Bool-cases, ==_iff,
  ltb, Option, some, none,
}
use system_engineering.CString.Props.{IsString, AllBytes}
use system_engineering.FileSys.{
  FileSys, Dentry, dentry, dir_dentry, bounded_name, equal_strings, period, find_dentry,
  read_dentry_by_name,
}
use system_engineering.FileSys.Names.{NameIs, name_test, equal_strings_iff}

-- The text is ".".
abbrev pub IsDot : Mem → ℕ → Type 0
IsDot fname n = (n ≡ 1) × (fname 0 ≡ 46)

IsDot-test :
    (fname : Mem) (n : ℕ)
    → AllBytes fname
    → IsString fname n
    → (equal_strings fname period 32 ≡ true) ↔ IsDot fname n
IsDot-test fname n b s =
    let same = equal_strings_iff fname period 32 b (λ j. ground arith) in
    (
      (λ e.
          let a = same.0 e in
          let first : fname 0 ≡ 46 = a 0 (omega arith) (λ i p. absurd (omega arith)) in
          let second : fname 1 ≡ 0 = a 1 (omega arith) (λ i p. ground arith) in
          (
            elim (Bool-cases (ltb n 1)) [
              | inl lt ↦ ground (arith, s.ends)
              | inr ge ↦ elim (Bool-cases (ltb 1 n)) [
                | inl lt ↦ ground (arith, s.runs 1)
                | inr ge' ↦ ground arith
              ]
            ],
            first,
          )),
      λ h. same.1 (λ j lt before. ground (arith, s.ends, before 1)),
    )

module _ (fs : FileSys) (fname : Mem) (n : ℕ) where
  -- The first entry from `i` on, of `k`, that has the name.
  abbrev pub FirstNamed : (i k : ℕ) → Option Dentry → Type 0
  FirstNamed i k none = (m : ℕ) → i ≤ m → m < i + k → ¬ NameIs (dentry fs m) fname n
  FirstNamed i k (some d) =
      (m : ℕ) × (i ≤ m)
      × (m < i + k)
      × (d ≡ dentry fs m)
      × NameIs (dentry fs m) fname n
      × ((j : ℕ) → i ≤ j → j < m → ¬ NameIs (dentry fs j) fname n)

  FirstNamed-later :
      (i k : ℕ) (o : Option Dentry)
      → ¬ NameIs (dentry fs i) fname n
      → FirstNamed (i + 1) k o
      → FirstNamed i (suc k) o
  FirstNamed-later i k none out h = λ m le lt. elim (Bool-cases (m == i)) [
    | inl here ↦ rw ((==_iff m i).0 here) out
    | inr after ↦ h m (ground arith) (omega arith)
  ]
  FirstNamed-later i k (some d) out (m, le, lt, e, is, before) = (
    m,
    omega arith,
    omega arith,
    e,
    is,
    λ j p q. elim (Bool-cases (j == i)) [
      | inl here ↦ rw ((==_iff j i).0 here) out
      | inr after ↦ before j (ground arith) q
    ],
  )

  find_dentry-FirstNamed :
      (k i : ℕ)
      → AllBytes fs.image
      → AllBytes fname
      → IsString fname n
      → FirstNamed i k (find_dentry k fs fname i)
  unfolding find_dentry
  find_dentry-FirstNamed zero i b bf s = λ m p q. absurd (omega arith)
  find_dentry-FirstNamed (suc k) i b bf s =
      let test = name_test (dentry fs i) fname n (λ j. b _) bf s in
      elim (Bool-cases (equal_strings (bounded_name (dentry fs i)) fname 33)) [
        | inl hit ↦
            rw hit (i, omega arith, omega arith, refl, test.0 hit, λ j p q. absurd (omega arith))
        | inr miss ↦ rw miss (
            FirstNamed-later i k (find_dentry k fs fname (i + 1)) (λ is. ground (arith, test.1 is))
              (find_dentry-FirstNamed k (i + 1) b bf s))
      ]

-- `read_dentry_by_name` of any name but "." returns the first of the 62 entries whose name field
-- holds exactly that name, of at most 32 bytes, and fails only if no entry does.
pub read_dentry_by_name-FirstNamed :
    (fs : FileSys) (fname : Mem) (n : ℕ)
    → AllBytes fs.image
    → AllBytes fname
    → IsString fname n
    → ¬ IsDot fname n
    → FirstNamed fs fname n 0 62 (read_dentry_by_name fs fname)
unfolding read_dentry_by_name
read_dentry_by_name-FirstNamed fs fname n b bf s out =
    elim (Bool-cases (equal_strings fname period 32)) [
      | inl dot ↦ absurd (out ((IsDot-test fname n bf s).0 dot))
      | inr other ↦ rw other (find_dentry-FirstNamed fs fname n 62 0 b bf s)
    ]

-- `read_dentry_by_name` of "." returns the directory's own entry.
pub read_dentry_by_name-dot :
    (fs : FileSys) (fname : Mem) (n : ℕ)
    → AllBytes fname
    → IsString fname n
    → IsDot fname n
    → read_dentry_by_name fs fname ≡ some (dir_dentry fs)
unfolding read_dentry_by_name
read_dentry_by_name-dot fs fname n bf s h = rw ((IsDot-test fname n bf s).1 h)
