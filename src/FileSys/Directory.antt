-- ===== src/FileSys/Directory.antt =====
-- Reading the directory, one name to a call.
use system_engineering.Base.{
  ℕ, zero, suc, ◌-◌, ◌^◌, ◌<◌, ◌≤◌, ◌≡◌, refl, subst, sym, ap, ◌∙◌, arith, Mem, true, false,
  ==_of_ne, leb_of_lt, update, some,
}
use system_engineering.Base.Int.{ℤ, pos, negsuc, int32, incr, decr, leb_ℤ, eqb_ℤ}
use system_engineering.CString.{strcpy, strcpy_loop, strncpy}
use system_engineering.CString.Props.{IsString, strlen_lem}
use system_engineering.CString.Copy.{strncpy_lem}
use system_engineering.FileSys.{
  FileSys, Dentry, dentry, dir_entry_num, bounded_name, byte4, read_dentry_by_index, dir_read,
  DirRead, listed,
}
use system_engineering.FileSys.Names.{name_length, name_length_lem}

-- The buffer that `dir_read` fills with a name.
abbrev named : Mem → Dentry → Mem
named buf d = update (strncpy buf d.file_name byte4) byte4 0

module _ (buf : Mem) (d : Dentry) where
  named_lem :
      (l : ℕ) × (l ≤ 32)
      × IsString (named buf d) l
      × ((j : ℕ) → j ≤ 32 → named buf d j ≡ bounded_name d j)
      × ((j : ℕ) → 32 < j → named buf d j ≡ buf j)
  unfolding bounded_name
  named_lem =
      let (lo, hi, nz, end) = name_length_lem 32 0 d.file_name in
      let l = name_length 32 0 d.file_name in
      let copy = λ (dest : Mem) (j : ℕ).
        strncpy_lem dest d.file_name 32 l hi (λ j q. nz j (omega arith) q) end j in
      (
        l,
        hi,
        record {
          ends = ground (arith, copy buf l);
          runs = λ j h. ground (arith, copy buf j, nz j);
        },
        (λ j h. ground (arith, copy buf j, copy (λ j. 0) j)),
        λ j h. ground (arith, copy buf j),
      )

-- What a successful call returns: the next index, the length of the name, and the buffer.
pub record Lists (fs : FileSys) (d : Dentry) (i : ℤ) (buf : Mem) (r : DirRead) : Type 0 where
  pub next : r.directory_index ≡ i
  pub out : Mem
  pub writes : r.buf ≡ some out
  pub size : ℕ
  pub returns : r.code ≡ some (pos size)
  pub fits : size ≤ 32
  pub ends : IsString out size
  pub name : (j : ℕ) → j ≤ 32 → out j ≡ bounded_name d j
  pub keeps : (j : ℕ) → 32 < j → out j ≡ buf j

before_end : (n i : ℕ) → suc i < n → n < 2 ^ 31 → leb_ℤ (decr (int32 n)) (pos i) ≡ false
before_end n i h small = ground arith

not_start : (i : ℕ) → eqb_ℤ (pos i) (negsuc 0) ≡ false
not_start i = ground arith

incr-pos : (i : ℕ) → incr (pos i) ≡ pos (suc i)
incr-pos i = ground arith

int32-small : (n : ℕ) → n < 2 ^ 31 → int32 n ≡ pos n
int32-small n h = ground arith

module _ (fs : FileSys) where
  dir_read-inside :
      (i : ℕ) (buf : Mem)
      → suc i < dir_entry_num fs
      → dir_entry_num fs < 2 ^ 31
      → dir_read fs (pos i) (some buf) ≡ listed fs (pos i) (some (named buf (dentry fs i)))
  unfolding dir_read
  dir_read-inside i buf h small = rw (before_end (dir_entry_num fs) i h small, not_start i)

  listed-some :
      (i : ℤ) (buf : Mem) (l : ℕ)
      → IsString buf l
      → l ≤ 32
      → listed fs i (some buf)
        ≡ record { directory_index = incr i; buf = some buf; code = some (pos l) }
  unfolding listed
  listed-some i buf l s h = rw (strlen_lem 33 buf l s (omega arith), int32-small l (omega arith))

  by_index-suc :
      (i : ℕ) → suc i < dir_entry_num fs → read_dentry_by_index fs (suc i) ≡ some (dentry fs i)
  unfolding read_dentry_by_index
  by_index-suc i h =
      rw (leb_of_lt (dir_entry_num fs) (suc i) h, ==_of_ne (suc i) 0 (omega arith))
        (ap (λ n. some (dentry fs n)) (omega arith))

-- With the index at `i`, below the last entry, `dir_read` writes the name of the entry that
-- `read_dentry_by_index` finds at `i + 1`, cut at 32 bytes and terminated, returns its length, goes
-- on to the next index, and leaves the buffer behind byte 32.
pub dir_read-Lists :
    (fs : FileSys) (i : ℕ) (buf : Mem)
    → suc i < dir_entry_num fs
    → dir_entry_num fs < 2 ^ 31
    → (d : Dentry) × (read_dentry_by_index fs (suc i) ≡ some d)
      × Lists fs d (pos (suc i)) buf (dir_read fs (pos i) (some buf))
dir_read-Lists fs i buf h small =
    let (l, hl, s, same, rest) = named_lem buf (dentry fs i) in
    let e =
      dir_read-inside fs i buf h small ∙ listed-some fs (pos i) (named buf (dentry fs i)) l s hl in
    (
      dentry fs i,
      by_index-suc fs i h,
      record {
        next = ap (λ (r : DirRead). r.directory_index) e ∙ incr-pos i;
        out = named buf (dentry fs i);
        writes = ap (λ (r : DirRead). r.buf) e;
        size = l;
        returns = ap (λ (r : DirRead). r.code) e;
        fits = hl;
        ends = s;
        name = same;
        keeps = rest;
      },
    )

not_at_end : (n : ℕ) → 1 ≤ n → n < 2 ^ 31 → leb_ℤ (decr (int32 n)) (negsuc 0) ≡ false
not_at_end n h small = ground arith

at_end : (n i : ℕ) → suc i ≡ n → n < 2 ^ 31 → leb_ℤ (decr (int32 n)) (pos i) ≡ true
at_end n i h small = ground arith

module _ (fs : FileSys) (buf : Mem) where
  dot-IsString : IsString (update (update buf 0 46) 1 0) 1
  dot-IsString = record { ends = refl; runs = λ j h. ground arith }

  dir_read-start :
      1 ≤ dir_entry_num fs
      → dir_entry_num fs < 2 ^ 31
      → dir_read fs (negsuc 0) (some buf) ≡ record {
        directory_index = pos 0;
        buf = some (update (update buf 0 46) 1 0);
        code = some (pos 1);
      }
  unfolding dir_read listed strcpy strcpy_loop
  dir_read-start h small =
      rw (not_at_end (dir_entry_num fs) h small)
        (listed-some fs (negsuc 0) (update (update buf 0 46) 1 0) 1 dot-IsString (omega arith))

  -- The index after `k` calls with the buffer `buf`, from the start.
  pub index_after : ℕ → ℤ
  index_after zero = negsuc 0
  index_after (suc k) = (dir_read fs (index_after k) (some buf)).directory_index

  index_after_lem :
      (k : ℕ) → suc k ≤ dir_entry_num fs → dir_entry_num fs < 2 ^ 31 → index_after (suc k) ≡ pos k
  unfolding index_after
  index_after_lem zero h small = ap (λ (r : DirRead). r.directory_index) (dir_read-start h small)
  index_after_lem (suc k) h small =
      let e = index_after_lem k (omega arith) small in
      let (d, found, lists) = dir_read-Lists fs k buf (omega arith) small in
      ap (λ i. (dir_read fs i (some buf)).directory_index) e ∙ lists.next

  -- A listing, on fewer than 2^31 entries and at least one, takes one call for each of the directory's
  -- entries: the first delivers "." with its NUL and returns 1, each later one delivers the name of the
  -- next entry that `read_dentry_by_index` finds, cut at 32 bytes and terminated, and returns its length.
  -- The call after them returns 0, leaves the buffer and goes back to the start.
  pub index_after-cycle :
      1 ≤ dir_entry_num fs
      → dir_entry_num fs < 2 ^ 31
      → (dir_read fs (negsuc 0) (some buf) ≡ record {
        directory_index = pos 0;
        buf = some (update (update buf 0 46) 1 0);
        code = some (pos 1);
      })
        × ((k : ℕ)
            → suc k < dir_entry_num fs
            → (d : Dentry) × (read_dentry_by_index fs (suc k) ≡ some d)
              × Lists fs d (pos (suc k)) buf (dir_read fs (index_after (suc k)) (some buf)))
        × (dir_read fs (index_after (dir_entry_num fs)) (some buf)
            ≡ record { directory_index = negsuc 0; buf = some buf; code = some (pos 0) })
  unfolding dir_read
  index_after-cycle h small =
      let n = dir_entry_num fs in
      let e : suc (n - 1) ≡ n = omega arith in
      let last : index_after n ≡ pos (n - 1) =
        ap index_after (sym e) ∙ index_after_lem (n - 1) (omega arith) small in
      (
        dir_read-start h small,
        (λ k lt.
            subst
              (λ i.
                (d : Dentry) × (read_dentry_by_index fs (suc k) ≡ some d)
                × Lists fs d (pos (suc k)) buf (dir_read fs i (some buf)))
              (sym (index_after_lem k (omega arith) small)) (dir_read-Lists fs k buf lt small)),
        rw (last, at_end n (n - 1) e small),
      )
