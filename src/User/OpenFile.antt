-- ===== src/User/OpenFile.antt =====
-- Blocks of bytes, what a text leaves on the console, and how much reads of an open file deliver.
use system_engineering.Base.{
  ℕ, zero, suc, ◌+◌, ◌-◌, ◌*◌, ◌/◌, ◌<◌, ◌≤◌, ◌≡◌, refl, ap, ◌∙◌, List, [], ◌∷◌, ◌++◌, Mem, arith,
}
use mathlib.Core.Path.{ap₂}
use system_engineering.Base.Text.{bytes_of}
use system_engineering.Console.{Console, putc}
use system_engineering.Kernel.{Kernel, put_all}
use system_engineering.Print.{put}

pub bytes_of-ext :
    (n : ℕ) (f g : Mem) (i j : ℕ)
    → ((m : ℕ) → m < n → f (i + m) ≡ g (j + m))
    → bytes_of n f i ≡ bytes_of n g j
bytes_of-ext zero f g i j same = refl
bytes_of-ext (suc n) f g i j same =
    ap₂ ◌∷◌ (ap f (omega arith) ∙ same 0 (omega arith) ∙ ap g (omega arith)) (
      bytes_of-ext n f g (i + 1) (j + 1)
        (λ m lt. ap f (omega arith) ∙ same (m + 1) (omega arith) ∙ ap g (omega arith)))

pub bytes_of-append :
    (m n t : ℕ) (f : Mem) (i : ℕ)
    → t ≡ m + n
    → bytes_of t f i ≡ bytes_of m f i ++ bytes_of n f (i + m)
bytes_of-append zero n t f i e =
    let same : t ≡ n = omega arith in
    let here : i ≡ i + 0 = omega arith in ap₂ (λ u j. bytes_of u f j) same here
bytes_of-append (suc m) n zero f i e = absurd (omega arith)
bytes_of-append (suc m) n (suc t) f i e =
    ap (λ r. f i ∷ r)
      (bytes_of-append m n t f (i + 1) (omega arith)
        ∙ ap (λ j. bytes_of m f (i + 1) ++ bytes_of n f j) (omega arith))

-- What a terminal's screen is after a text.
unfoldable pub printed : Console → List ℕ → Console
printed c [] = c
printed c (x ∷ xs) = printed (putc c x).0 xs

pub printed-append :
    (c : Console) (xs ys : List ℕ) → printed c (xs ++ ys) ≡ printed (printed c xs) ys
unfolding printed
printed-append c [] ys = refl
printed-append c (x ∷ xs) ys = printed-append (putc c x).0 xs ys

pub put_all-printed : (k : Kernel) (xs : List ℕ) → (put_all k xs).console ≡ printed k.console xs
unfolding printed put_all
put_all-printed k [] = refl
put_all-printed k (x ∷ xs) = put_all-printed (put k x) xs

-- The length of what reads in blocks of 1024 deliver from a position on: the file's rest, and the bytes
-- behind its end that fill the last block.
unfoldable pub left : (size position : ℕ) → ℕ
left size position = 1024 * ((size - position + 1023) / 1024)

pub left_none : (size position : ℕ) → left size position ≡ 0 → size ≤ position
unfolding left
left_none size position h = omega arith

pub left_some : (size position : ℕ) → 0 < left size position → position < size
unfolding left
left_some size position h = ground arith

pub left_block :
    (size position : ℕ) → position < size → left size position ≡ 1024 + left size (position + 1024)
unfolding left
left_block size position h = omega arith
