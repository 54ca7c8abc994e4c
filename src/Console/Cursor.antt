-- ===== src/Console/Cursor.antt =====
-- The cursor stays on the page, and printing stays inside it.
use system_engineering.Base.{
  ℕ, zero, suc, ◌+◌, ◌-◌, ◌*◌, ◌^◌, ◌≤◌, ◌<◌, ◌==◌, ◌||◌, true, false, ltb, if◌then◌else◌, Mem,
  update, u32, ◌≡◌, ◌⊎◌, inl, inr, refl, ◌∙◌, arith, Bool-cases, Bool, ltb→lt,
}
use mathlib.Core.Path.{ap₂}
use system_engineering.Console.{
  Pen, wrap_lines, print_char, scroll_at_end, put_char, scroll, newline, carriage_return,
}
use system_engineering.Console.Scroll.{scroll_lem}

-- The cell of the cursor, counted from the page's start.
abbrev pub place : Pen → ℕ
place p = 80 * p.y + p.x

wrap_lines_lem :
    (k x y : ℕ)
    → x ≤ k
    → 80 * y + x < 2000
    → ((wrap_lines k x y).0 ≤ 80) × (80 * (wrap_lines k x y).1 + (wrap_lines k x y).0 ≡ 80 * y + x)
unfolding wrap_lines
wrap_lines_lem zero x y h fits = (omega arith, refl)
wrap_lines_lem (suc k) x y h fits = ground (arith, wrap_lines_lem k (x - 80) (u32 (y + 1)))

-- Whether the character breaks the line.
abbrev pub breaks : ℕ → Bool
breaks c = c == newline || c == carriage_return

module _ (page c : ℕ) (p : Pen) (low : page + 4000 < 2 ^ 32) (fits : place p < 2000) where
  -- A line break goes to the start of a row.
  print_char-break :
      breaks c ≡ true
      → ((print_char page c p).x ≡ 0)
        × ((print_char page c p).y ≤ 25)
        × (place p ≤ 80 * (print_char page c p).y)
        × ((print_char page c p).ink ≡ p.ink)
  unfolding print_char
  print_char-break e =
      let (small, same) = wrap_lines_lem p.x p.x p.y (omega arith) fits in
      rw e (refl, omega arith, omega arith, refl)

  print_char-cell :
      breaks c ≡ false
      → (place (print_char page c p) ≡ place p + 1)
        × ((print_char page c p).ink
            ≡ update (update p.ink (page + 2 * place p) c) (page + 2 * place p + 1) 7)
  unfolding print_char
  print_char-cell e =
      rw e (omega arith, ap₂ (λ i j. update (update p.ink i c) j 7) (omega arith) (omega arith))

-- Whether the cursor has left the page, which is scrolled then.
module _ (page : ℕ) (p : Pen) where
  scroll_at_end-inside : place p < 2000 → scroll_at_end page p ≡ p
  unfolding scroll_at_end
  scroll_at_end-inside h = ground arith

  scroll_at_end-row :
      2000 ≤ place p
      → place p < 2 ^ 32
      → 0 < p.y
      → scroll_at_end page p ≡ record { ink = scroll page p.ink; x = p.x; y = p.y - 1 }
  unfolding scroll_at_end
  scroll_at_end-row h h' hy = ground arith

  scroll_at_end-column :
      2000 ≤ place p
      → place p < 2 ^ 32
      → p.y ≡ 0
      → scroll_at_end page p ≡ record { ink = scroll page p.ink; x = p.x - 80; y = p.y }
  unfolding scroll_at_end
  scroll_at_end-column h h' hy = ground arith

-- What `put_char` does to a page and its cursor.
pub record Printed (page c : ℕ) (p q : Pen) : Type 0 where
  pub on_page : place q < 2000
  pub frame : (a : ℕ) → (a < page) ⊎ (page + 4000 ≤ a) → q.ink a ≡ p.ink a
  pub starts_row : breaks c ≡ true → q.x ≡ 0
  pub advances : breaks c ≡ false → place q ≡ (if place p == 1999 then 1920 else place p + 1)
  pub shows :
      breaks c ≡ false
      → (q.ink (page + 2 * (place q - 1)) ≡ c) × (q.ink (page + 2 * (place q - 1) + 1) ≡ 7)

module _ (page c : ℕ) (p : Pen) (low : page + 4000 < 2 ^ 32) (fits : place p < 2000) where
  -- Scrolling writes on the page only.
  scrolled_frame :
      (q : Pen) (a : ℕ) → (a < page) ⊎ (page + 4000 ≤ a) → scroll page q.ink a ≡ q.ink a
  scrolled_frame q a out = ground (arith, scroll_lem page q.ink a)

  cell_shown :
      (m : Mem) (k n : ℕ)
      → n ≡ k
      → (update (update m (page + 2 * k) c) (page + 2 * k + 1) 7 (page + 2 * n) ≡ c)
        × (update (update m (page + 2 * k) c) (page + 2 * k + 1) 7 (page + 2 * n + 1) ≡ 7)
  cell_shown m k n e = ground arith

  scrolled_shown :
      (m : Mem) (n : ℕ)
      → n < 1920
      → (scroll page m (page + 2 * n) ≡ m (page + 2 * (n + 80)))
        × (scroll page m (page + 2 * n + 1) ≡ 7)
  scrolled_shown m n h =
      let same : page + 2 * n + 160 ≡ page + 2 * (n + 80) = omega arith in
      (
        scroll_lem page m (page + 2 * n) ∙ rw same (ground arith),
        scroll_lem page m (page + 2 * n + 1) ∙ ground arith,
      )

  -- The character, one row up.
  scrolled_cell :
      (q : Pen) (n : ℕ)
      → n + 80 ≡ place p
      → place p ≡ 1999
      → q.ink ≡ update (update p.ink (page + 2 * place p) c) (page + 2 * place p + 1) 7
      → (scroll page q.ink (page + 2 * n) ≡ c) × (scroll page q.ink (page + 2 * n + 1) ≡ 7)
  scrolled_cell q n e last ink =
      let (char, attr) = scrolled_shown q.ink n (omega arith) in
      (char ∙ rw ink (cell_shown p.ink (place p) (n + 80) e).0, attr)

  break-Printed : breaks c ≡ true → Printed page c p (put_char page c p)
  unfolding put_char
  break-Printed e =
      let q = print_char page c p in
      let (x, low_row, below, ink) = print_char-break page c p low fits e in
      elim (Bool-cases (ltb (place q) 2000)) [
        | inl inside ↦ rw (scroll_at_end-inside page q (ltb→lt _ _ inside)) (record {
          on_page = ltb→lt _ _ inside;
          frame = λ a out. rw ink;
          starts_row = λ _. x;
          advances = λ n. absurd (ground (arith, e));
          shows = λ n. absurd (ground (arith, e));
        })
        | inr outside ↦
            rw (scroll_at_end-row page q (ground arith) (omega arith) (ground arith)) (record {
              on_page = ground arith;
              frame = λ a out. scrolled_frame q a out ∙ rw ink;
              starts_row = λ _. x;
              advances = λ n. absurd (ground (arith, e));
              shows = λ n. absurd (ground (arith, e));
            })
      ]

  cell-Printed : breaks c ≡ false → Printed page c p (put_char page c p)
  unfolding put_char
  cell-Printed e =
      let q = print_char page c p in
      let (next, ink) = print_char-cell page c p low fits e in
      elim (Bool-cases (ltb (place q) 2000)) [
        | inl inside ↦ rw (scroll_at_end-inside page q (ltb→lt _ _ inside)) (record {
          on_page = ltb→lt _ _ inside;
          frame = λ a out. rw ink (ground arith);
          starts_row = λ n. absurd (ground (arith, e));
          advances = λ _. ground arith;
          shows = λ _. rw ink (cell_shown p.ink (place p) (place q - 1) (omega arith));
        })
        | inr outside ↦ elim (Bool-cases (ltb 0 q.y)) [
          | inl row ↦
              rw (scroll_at_end-row page q (ground arith) (omega arith) (ltb→lt _ _ row)) (record {
                on_page = ground arith;
                frame = λ a out. scrolled_frame q a out ∙ rw ink (ground arith);
                starts_row = λ n. absurd (ground (arith, e));
                advances = λ _. ground arith;
                shows = λ _. scrolled_cell q _ (ground arith) (ground arith) ink;
              })
          | inr column ↦
              rw (scroll_at_end-column page q (ground arith) (omega arith) (ground arith)) (record {
                on_page = ground arith;
                frame = λ a out. scrolled_frame q a out ∙ rw ink (ground arith);
                starts_row = λ n. absurd (ground (arith, e));
                advances = λ _. ground arith;
                shows = λ _. scrolled_cell q _ (ground arith) (ground arith) ink;
              })
        ]
      ]

  -- Printing a character on a page keeps the cursor on the page and writes nothing outside it. A
  -- line break goes to the start of a row; any other character stands just before the new cursor,
  -- which is one place on, or at the start of the last row after the page was scrolled.
  pub put_char-Printed : Printed page c p (put_char page c p)
  put_char-Printed = elim (Bool-cases (breaks c)) [
    | inl e ↦ break-Printed e
    | inr e ↦ cell-Printed e
  ]
