-- ===== src/User/PingPong/Frames.antt =====
-- What the frames show.
use system_engineering.Base.{
  ℕ, zero, suc, ◌+◌, ◌≤◌, ◌≢◌, ◌==◌, ◌&&◌, ◌||◌, leb, ltb, if◌then◌else◌, Mem, ◌≡◌, refl, ap, ◌∙◌,
  arith, Bool-cases, inl, inr, false,
}
use system_engineering.CString.Props.{IsString}
use system_engineering.User.PingPong.{blanks, walls, draw}

-- The 81 characters of a frame: the two walls, the character between them, a line break and a NUL.
abbrev pub picture : (curchar j k : ℕ) → ℕ
picture curchar j k =
    if k == j
    then curchar
    else if k == 1 || k == 78
    then 124
    else if k == 79
    then 10
    else if k == 80
    then 0
    else 32

-- What no frame changes.
pub record IsWorld (buf : Mem) : Type 0 where
  pub left : buf 0 ≡ 32
  pub wall : buf 1 ≡ 124
  pub right : buf 78 ≡ 124
  pub line_end : buf 79 ≡ 10
  pub ends : buf 80 ≡ 0

blanks_lem :
    (r : ℕ) (buf : Mem) (i k : ℕ)
    → blanks r buf i k ≡ (if leb i k && ltb k (i + r) then 32 else buf k)
unfolding blanks
blanks_lem zero buf i k = ground arith
blanks_lem (suc r) buf i k = blanks_lem r _ (i + 1) k ∙ ground arith

draw_lem :
    (c j : ℕ) (buf : Mem) (k : ℕ)
    → draw c j buf k ≡ (if k == j then c else if leb 2 k && ltb k 78 then 32 else buf k)
unfolding draw
draw_lem c j buf k = ground (arith, blanks_lem 76 buf 2 k)

pub walls-IsWorld : (locals : Mem) → IsWorld (walls locals)
unfolding walls
walls-IsWorld locals = record {
  left = ground (arith, blanks_lem 81 locals 0 0);
  wall = refl;
  right = refl;
  line_end = refl;
  ends = refl;
}

module _ (c j : ℕ) (buf : Mem) (w : IsWorld buf) (lo : 2 ≤ j) (hi : j ≤ 77) where
  pub draw-IsWorld : IsWorld (draw c j buf)
  draw-IsWorld = record {
    left = draw_lem c j buf 0 ∙ ground (arith, w.left);
    wall = draw_lem c j buf 1 ∙ ground (arith, w.wall);
    right = draw_lem c j buf 78 ∙ ground (arith, w.right);
    line_end = draw_lem c j buf 79 ∙ ground (arith, w.line_end);
    ends = draw_lem c j buf 80 ∙ ground (arith, w.ends);
  }

  outside : (k : ℕ) → k ≤ 80 → leb 2 k && ltb k 78 ≡ false → buf k ≡ picture c j k
  outside zero le out = ground (arith, w.left)
  outside (suc zero) le out = ground (arith, w.wall)
  outside (suc (suc k)) le out = elim (Bool-cases (k == 76)) [
    | inl here ↦ let e : suc (suc k) ≡ 78 = ground arith in ground (arith, ap buf e, w.right)
    | inr n76 ↦ elim (Bool-cases (k == 77)) [
      | inl here ↦ let e : suc (suc k) ≡ 79 = ground arith in ground (arith, ap buf e, w.line_end)
      | inr n77 ↦ let e : suc (suc k) ≡ 80 = ground arith in ground (arith, ap buf e, w.ends)
    ]
  ]

  pub draw-picture : (k : ℕ) → k ≤ 80 → draw c j buf k ≡ picture c j k
  draw-picture k le = draw_lem c j buf k ∙ elim (Bool-cases (leb 2 k && ltb k 78)) [
    | inl inside ↦ ground arith
    | inr out ↦ ground (arith, outside k le out)
  ]

  pub draw-IsString : c ≢ 0 → IsString (draw c j buf) 80
  draw-IsString some_char = record {
    ends = draw-IsWorld.ends;
    runs = λ k lt e. ground (arith, draw-picture k (omega (arith, lt)), some_char);
  }
