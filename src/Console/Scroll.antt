-- ===== src/Console/Scroll.antt =====
-- What scrolling leaves on a page, and where it writes.
use system_engineering.Base.{
  ℕ, zero, suc, ◌+◌, ◌-◌, ◌*◌, ◌%◌, ◌==◌, leb, ltb, ◌&&◌, if◌then◌else◌, Mem, update, ◌≡◌, ◌∙◌, ap,
  fun_ext, arith,
}
use system_engineering.Console.{scroll, scroll_rows, scroll_cols, blank_cols}

-- The cells from `lo` up to `hi` moved up by a row of 160 bytes, with their attributes set.
abbrev shifted : Mem → (page lo hi : ℕ) → Mem
shifted m page lo hi a =
    if leb (page + 2 * lo) a && ltb a (page + 2 * hi)
    then (if (a - page) % 2 == 0 then m (a + 160) else 7)
    else m a

shifted_cell :
    (k n page : ℕ) (m : Mem) (a : ℕ)
    → shifted
        (update (update m (page + 2 * n) (m (page + 2 * n + 160))) (page + 2 * n + 1) 7)
        page
        (n + 1)
        (n + 1 + k)
        a
      ≡ shifted m page n (n + suc k) a
shifted_cell k n page m a = ground arith

scroll_cols_lem :
    (k page i j : ℕ) (m : Mem) (a : ℕ)
    → scroll_cols k page i j m a ≡ shifted m page (80 * i + j) (80 * i + j + k) a
unfolding scroll_cols
scroll_cols_lem zero page i j m a = ground arith
scroll_cols_lem (suc k) page i j m a =
    let read : page + 2 * (80 * (i + 1) + j) ≡ page + 2 * (80 * i + j) + 160 = omega arith in
    let start : 80 * i + (j + 1) ≡ 80 * i + j + 1 = omega arith in
    scroll_cols_lem k page i (j + 1) _ a ∙ rw (read, start) (shifted_cell k (80 * i + j) page m a)

shifted_twice :
    (n p q page : ℕ) (m : Mem) (a : ℕ)
    → shifted (shifted m page n (n + p)) page (n + p) (n + p + q) a ≡ shifted m page n (n + p + q) a
shifted_twice n p q page m a = ground arith

scroll_rows_lem :
    (k page i : ℕ) (m : Mem) (a : ℕ)
    → scroll_rows k page i m a ≡ shifted m page (80 * i) (80 * (i + k)) a
unfolding scroll_rows
scroll_rows_lem zero page i m a = ground arith
scroll_rows_lem (suc k) page i m a =
    let row : scroll_cols 80 page i 0 m ≡ shifted m page (80 * i) (80 * i + 80) = fun_ext (λ b.
      scroll_cols_lem 80 page i 0 m b ∙ ap (λ n. shifted m page n (n + 80) b) (omega arith)) in
    let start : 80 * (i + 1) ≡ 80 * i + 80 = omega arith in
    let stop : 80 * (i + 1 + k) ≡ 80 * i + 80 + 80 * k = omega arith in
    let stop' : 80 * (i + suc k) ≡ 80 * i + 80 + 80 * k = omega arith in
    scroll_rows_lem k page (i + 1) (scroll_cols 80 page i 0 m) a
    ∙ rw (row, start, stop, stop') (shifted_twice (80 * i) 80 (80 * k) page m a)

-- Cells from `lo` up to `hi` blank.
abbrev blanked : Mem → (page lo hi : ℕ) → Mem
blanked m page lo hi a =
    if leb (page + 2 * lo) a && ltb a (page + 2 * hi)
    then (if (a - page) % 2 == 0 then 32 else 7)
    else m a

blanked_cell :
    (k n page : ℕ) (m : Mem) (a : ℕ)
    → blanked (update (update m (page + 2 * n) 32) (page + 2 * n + 1) 7) page (n + 1) (n + 1 + k) a
      ≡ blanked m page n (n + suc k) a
blanked_cell k n page m a = ground arith

blank_cols_lem :
    (k page j : ℕ) (m : Mem) (a : ℕ)
    → blank_cols k page j m a ≡ blanked m page (1920 + j) (1920 + j + k) a
unfolding blank_cols
blank_cols_lem zero page j m a = ground arith
blank_cols_lem (suc k) page j m a =
    let start : 1920 + (j + 1) ≡ 1920 + j + 1 = omega arith in
    blank_cols_lem k page (j + 1) _ a ∙ rw start (blanked_cell k (1920 + j) page m a)

-- `scroll` moves each of the first 24 rows' characters up from the row below, blanks the last row,
-- sets every attribute of the page, and writes nothing outside the page's 4000 bytes.
pub scroll_lem :
    (page : ℕ) (m : Mem) (a : ℕ)
    → scroll page m a ≡ (
        if leb page a && ltb a (page + 4000)
        then (if (a - page) % 2 == 0 then (if ltb a (page + 3840) then m (a + 160) else 32) else 7)
        else m a)
unfolding scroll
scroll_lem page m a =
    ground
      (arith, blank_cols_lem 80 page 0 (scroll_rows 24 page 0 m) a, scroll_rows_lem 24 page 0 m a)
