-- ===== src/User/Cat.antt =====
-- What cat does with a file.
use system_engineering.Base.{
  ℕ, zero, suc, ◌+◌, ◌<◌, List, ◌++◌, length, ◌≡◌, refl, sym, ap, ◌∙◌, subst, some, Mem, arith,
  Bool-cases, inl, inr, ◌==◌, ==_iff, false, [], ◌∷◌,
}
use system_engineering.Base.Int.{ℤ, pos, eqb_ℤ}
use system_engineering.Base.Text.{bytes_of}
use system_engineering.User.{Calls}
use system_engineering.User.Programs.{failed, cat_loop, cat}
use system_engineering.User.View.{FileView}

empty-nil : (xs : List ℕ) → length xs ≡ 0 → xs ≡ []
empty-nil [] h = refl
empty-nil (x ∷ xs) h = absurd (omega arith)

length-append : (xs ys : List ℕ) → length (xs ++ ys) ≡ length xs + length ys
length-append [] ys = omega arith
length-append (x ∷ xs) ys = omega (arith, length-append xs ys)

pub length-bytes_of : (n : ℕ) (buf : Mem) (i : ℕ) → length (bytes_of n buf i) ≡ n
length-bytes_of zero buf i = refl
length-bytes_of (suc n) buf i = omega (arith, length-bytes_of n buf (i + 1))

positive : (n : ℕ) → 0 < n → eqb_ℤ (pos n) (pos 0) ≡ false
positive n h = ground arith

succeeded : (n : ℕ) → failed (pos n) ≡ false
succeeded n = ground arith

block_shorter :
    (n : ℕ) (buf : Mem) (all rest : List ℕ)
    → 0 < n
    → all ≡ bytes_of n buf 0 ++ rest
    → length rest < length all
block_shorter n buf all rest some_bytes split =
    omega (arith, ap length split, length-append (bytes_of n buf 0) rest, length-bytes_of n buf 0)

module _ (calls : Calls) (fuel : ℕ) (fd : ℤ) (view : FileView calls fd) where
  open calls use {State, getargs, open_file}
  open view use {Valid, remaining, Shows, shows_both, read_end, read_more, write_all}

  pub cat_loop_lem :
      (rounds : ℕ) (s : State) (buf : Mem)
      → Valid s
      → length (remaining s) < rounds
      → (s' : State) × (cat_loop calls fuel rounds s fd buf ≡ some (s', pos 0))
        × Shows s s' (remaining s)
  unfolding cat_loop
  cat_loop_lem zero s buf valid lt = absurd (omega arith)
  cat_loop_lem (suc k) s buf valid lt = elim (Bool-cases (length (remaining s) == 0)) [
    | inl done ↦
        let none_left : length (remaining s) ≡ 0 = (==_iff _ _).0 done in
        let (s', buf', ended, shown) = read_end s buf valid none_left in
        (
          s',
          rw (ended, cat_loop) refl,
          subst (Shows s s') (sym (empty-nil (remaining s) none_left)) shown,
        )
    | inr more ↦
        let (s1, buf1, n, some_bytes, got, valid1, shown1, split) =
          read_more s buf valid (ground arith) in
        let (s2, written, put, valid2, shown2, kept) = write_all s1 buf1 n valid1 in
        let shorter = block_shorter n buf1 (remaining s) (remaining s1) some_bytes split in
        let (s', rest, shown3) = cat_loop_lem k s2 buf1 valid2 (omega (arith, ap length kept)) in
        (
          s',
          rw (got, put, positive n some_bytes, succeeded n, succeeded written, cat_loop) rest,
          subst (Shows s s') (ap (λ r. bytes_of n buf1 0 ++ r) kept ∙ sym split)
              (shows_both shown1 (shows_both shown2 shown3)),
        )
  ]

  -- When the arguments are read and name a file that opens, cat copies all of the file to the terminal and
  -- ends with 0, given more fuel than the file's length: on every buffer, and whatever the sizes of the
  -- blocks that a read delivers.
  pub cat_lem :
      (s s1 s2 : State) (locals name : Mem)
      → getargs s locals 1024 ≡ some (s1, name, pos 0)
      → open_file s1 name ≡ some (s2, fd)
      → failed fd ≡ false
      → Valid s2
      → length (remaining s2) < fuel
      → (s' : State) × (cat calls fuel s locals ≡ some (s', pos 0)) × Shows s2 s' (remaining s2)
  unfolding cat
  cat_lem s s1 s2 locals name args there opens valid lt =
      let (s', done, all) = cat_loop_lem fuel s2 name valid lt in
      (s', rw (args, there, opens, cat) done, all)
