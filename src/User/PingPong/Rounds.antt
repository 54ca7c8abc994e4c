-- ===== src/User/PingPong/Rounds.antt =====
-- The rounds of the program, and the frames that they show.
use system_engineering.Base.{
  ℕ, zero, suc, ◌+◌, ◌-◌, ◌≤◌, ◌<◌, ◌≢◌, ◌==◌, if◌then◌else◌, Mem, some, List, [], ◌∷◌, ◌++◌, ◌≡◌,
  refl, arith,
}
use system_engineering.Base.Int.{ℤ, pos}
use system_engineering.User.{Calls}
use system_engineering.User.Support.Output.{fdputs-IsString}
use system_engineering.User.PingPong.{draw, next_char, frame, move_out, bounce_back, rounds}
use system_engineering.User.PingPong.Frames.{
  picture, IsWorld, draw-IsWorld, draw-picture, draw-IsString,
}

-- The frames of `r` steps to the right and to the left, and of `n` rounds: the character and its place.
abbrev pub Frames : Type 0
Frames = List (ℕ × ℕ)

abbrev pub to_right : (r c j : ℕ) → Frames
to_right zero c j = []
to_right (suc r) c j = (c, j) ∷ to_right r c (j + 1)

abbrev pub to_left : (r c j : ℕ) → Frames
to_left zero c j = []
to_left (suc r) c j = (c, j) ∷ to_left r c (j - 1)

abbrev pub letter_after : ℕ → ℕ
letter_after c = if c == 90 then 65 else c + 1

pub shown_in : (n c : ℕ) → Frames
shown_in zero c = []
shown_in (suc n) c = to_right 76 c 2 ++ (to_left 76 c 77 ++ shown_in n (letter_after c))

next_char-letter : (c : ℕ) → 65 ≤ c → c ≤ 90 → next_char c ≡ letter_after c
unfolding next_char
next_char-letter c lo hi = ground arith

module _ (calls : Calls) (fd : ℤ) where
  open calls use {State, read, write}

  -- The frames that the calls of a program show one after the other, each followed by a wait.
  pub data Shows : State → Frames → State → Type 0 where
    nothing : (s : State) → Shows s [] s
    shows :
        {s s1 s2 s' : State} {frames : Frames} (c j : ℕ) (buf out : Mem) (count code : ℤ)
        → ((k : ℕ) → k ≤ 80 → buf k ≡ picture c j k)
        → write s (pos 1) buf (pos 80) ≡ some (s1, count)
        → read s1 fd (λ i. 0) 4 ≡ some (s2, out, code)
        → Shows s2 frames s'
        → Shows s ((c, j) ∷ frames) s'

  pub Shows-append :
      {s s1 s2 : State} {xs ys : Frames} → Shows s xs s1 → Shows s1 ys s2 → Shows s (xs ++ ys) s2
  Shows-append (nothing s) b = b
  Shows-append (shows c j buf out count code same w r a) b =
      shows c j buf out count code same w r (Shows-append a b)

-- From states where the program is ready, its two calls return, and leave it ready: a line is written to
-- descriptor 1, and the clock is read through `fd`.
pub record Returns (calls : Calls) (fd : ℤ) (Ready : calls.State → Type 0) : Type 0 where
  pub writes :
      (s : calls.State) (buf : Mem)
      → Ready s
      → (s' : calls.State) × (count : ℤ) × (calls.write s (pos 1) buf (pos 80) ≡ some (s', count))
        × Ready s'
  pub reads :
      (s : calls.State)
      → Ready s
      → (s' : calls.State) × (out : Mem) × (code : ℤ) × (calls.read s fd (λ i. 0) 4
          ≡ some (s', out, code))
        × Ready s'

module _ (calls : Calls) (fd : ℤ) (Ready : calls.State → Type 0) (returns : Returns calls fd Ready)
    (fuel : ℕ) (enough : 80 < fuel) where
  frame_lem :
      (s : calls.State) (c j : ℕ) (buf : Mem)
      → Ready s
      → IsWorld buf
      → 2 ≤ j
      → j ≤ 77
      → c ≢ 0
      → (s1 : calls.State) × (s2 : calls.State) × (out : Mem) × (count : ℤ) × (code : ℤ) × (frame
            calls fuel s fd c j buf
          ≡ some (s2, draw c j buf))
        × (calls.write s (pos 1) (draw c j buf) (pos 80) ≡ some (s1, count))
        × (calls.read s1 fd (λ i. 0) 4 ≡ some (s2, out, code))
        × Ready s2
  unfolding frame
  frame_lem s c j buf ready w lo hi some_char =
      let (s1, count, written, ready1) = returns.writes s (draw c j buf) ready in
      let (s2, out, code, waited, ready2) = returns.reads s1 ready1 in
      let printed =
        fdputs-IsString calls fuel s (pos 1) (draw c j buf) 80
          (draw-IsString c j buf w lo hi some_char) enough written in
      (s1, s2, out, count, code, rw (frame, printed) (rw waited refl), written, waited, ready2)

  move_out_lem :
      (r : ℕ) (s : calls.State) (c j : ℕ) (buf : Mem)
      → Ready s
      → IsWorld buf
      → 2 ≤ j
      → j + r ≤ 78
      → c ≢ 0
      → (s' : calls.State) × (buf' : Mem) × (move_out calls fuel r s fd c j buf ≡ some (s', buf'))
        × IsWorld buf'
        × Shows calls fd s (to_right r c j) s'
        × Ready s'
  unfolding move_out
  move_out_lem zero s c j buf ready w lo hi some_char = (s, buf, refl, w, nothing s, ready)
  move_out_lem (suc r) s c j buf ready w lo hi some_char =
      let (s1, s2, out, count, code, done, written, waited, ready2) =
        frame_lem s c j buf ready w lo (omega arith) some_char in
      let (s', buf', rest, w', seen, ready') =
        move_out_lem r s2 c (j + 1) (draw c j buf) ready2 (draw-IsWorld c j buf w lo (omega arith))
          (omega arith) (omega arith) some_char in
      (
        s',
        buf',
        rw (move_out, done) rest,
        w',
        shows c j (draw c j buf) out count code (draw-picture c j buf w lo (omega arith)) written
            waited seen,
        ready',
      )

  bounce_back_lem :
      (r : ℕ) (s : calls.State) (c j : ℕ) (buf : Mem)
      → Ready s
      → IsWorld buf
      → 1 + r ≤ j
      → j ≤ 77
      → c ≢ 0
      → (s' : calls.State) × (buf' : Mem) × (bounce_back calls fuel r s fd c j buf
          ≡ some (s', buf'))
        × IsWorld buf'
        × Shows calls fd s (to_left r c j) s'
        × Ready s'
  unfolding bounce_back
  bounce_back_lem zero s c j buf ready w lo hi some_char = (s, buf, refl, w, nothing s, ready)
  bounce_back_lem (suc r) s c j buf ready w lo hi some_char =
      let (s1, s2, out, count, code, done, written, waited, ready2) =
        frame_lem s c j buf ready w (omega arith) hi some_char in
      let (s', buf', rest, w', seen, ready') =
        bounce_back_lem r s2 c (j - 1) (draw c j buf) ready2
          (draw-IsWorld c j buf w (omega arith) hi) (omega arith) (omega arith) some_char in
      (
        s',
        buf',
        rw (bounce_back, done) rest,
        w',
        shows c j (draw c j buf) out count code (draw-picture c j buf w (omega arith) hi) written
            waited seen,
        ready',
      )

  -- On calls that return and leave the program ready, and with fuel for a line of 80 characters, every
  -- number of rounds runs to its end and shows, one after the other with a wait behind each, exactly the
  -- frames in which the letter goes from the left wall to the right one and back: each is written as one
  -- line of 80 characters with the walls in their places, and the letter is the next one of the alphabet
  -- in each round. The program is ready again then.
  pub rounds-Shows :
      (n : ℕ) (s : calls.State) (c : ℕ) (buf : Mem)
      → Ready s
      → IsWorld buf
      → 65 ≤ c
      → c ≤ 90
      → (s' : calls.State) × (buf' : Mem) × (rounds calls fuel n s fd c buf ≡ some (s', buf'))
        × IsWorld buf'
        × Shows calls fd s (shown_in n c) s'
        × Ready s'
  unfolding rounds shown_in
  rounds-Shows zero s c buf ready w lo hi = (s, buf, refl, w, nothing s, ready)
  rounds-Shows (suc n) s c buf ready w lo hi =
      let some_char : c ≢ 0 = λ e. absurd (omega arith) in
      let (s1, buf1, out_done, w1, right_seen, ready1) =
        move_out_lem 76 s c 2 buf ready w (omega arith) (omega arith) some_char in
      let (s2, buf2, back_done, w2, left_seen, ready2) =
        bounce_back_lem 76 s1 c 77 buf1 ready1 w1 (omega arith) (omega arith) some_char in
      let (s3, buf3, rest, w3, seen, ready3) =
        rounds-Shows n s2 (letter_after c) buf2 ready2 w2 (ground arith) (ground arith) in
      (
        s3,
        buf3,
        rw (rounds, out_done) (rw (back_done, next_char-letter c lo hi) rest),
        w3,
        Shows-append calls fd right_seen (Shows-append calls fd left_seen seen),
        ready3,
      )
