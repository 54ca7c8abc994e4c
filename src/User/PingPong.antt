-- ===== src/User/PingPong.antt =====
-- syscalls/ece391pingpong.c: a character that moves between two walls. The program does not end, so the
-- model runs a number of its rounds.
use system_engineering.Base.{
  ℕ, zero, suc, ◌+◌, ◌-◌, ◌==◌, if◌then◌else◌, Option, none, some, Mem, update, u8, u32,
}
use system_engineering.Base.Int.{ℤ, pos}
use system_engineering.Base.Text.{codes, text}
use system_engineering.User.{Calls}
use system_engineering.User.Support.{ece391_fdputs}
pub mod Frames
pub mod Rounds
pub mod OnKernel
mod Tests

abbrev pub bufmax : ℕ
bufmax = 81

abbrev pub startloop : ℕ
startloop = 2

abbrev pub loopmax : ℕ
loopmax = 78

-- The loops that write spaces, over the rounds left.
pub blanks : ℕ → Mem → (i : ℕ) → Mem
blanks zero buf i = buf
blanks (suc r) buf i = blanks r (update buf i 32) (i + 1)

-- The buffer with its walls.
pub walls : (locals : Mem) → Mem
walls locals =
    let buf = blanks bufmax locals 0 in
    update (update (update (update buf (bufmax - 1) 0) (bufmax - 2) 10) (bufmax - 3) 124) 1 124

-- The buffer with the character at `j`.
pub draw : (curchar j : ℕ) → Mem → Mem
draw curchar j buf = update (blanks (loopmax - startloop) buf startloop) j curchar

pub next_char : ℕ → ℕ
next_char curchar = if curchar == 90 then 65 else u8 (curchar + 1)

module _ (calls : Calls) (fuel : ℕ) where
  open calls use {State, open_file, read, write}

  -- One frame: it is printed, and the program waits for the clock. What is read into `garbage` is not
  -- used, and the model hands each read an array of zeros for it.
  pub frame : State → (rtc_fd : ℤ) → (curchar j : ℕ) → Mem → Option (State × Mem)
  frame s rtc_fd curchar j buf =
      let drawn = draw curchar j buf in
      elim (ece391_fdputs calls fuel s (pos 1) drawn) [
        | none ↦ none
        | some s1 ↦ elim (read s1 rtc_fd (λ i. 0) 4) [
          | none ↦ none
          | some (s2, garbage, code) ↦ some (s2, drawn)
        ]
      ]

  -- The two loops of a round, over the rounds left.
  pub move_out : ℕ → State → ℤ → (curchar j : ℕ) → Mem → Option (State × Mem)
  move_out zero s rtc_fd curchar j buf = some (s, buf)
  move_out (suc r) s rtc_fd curchar j buf = elim (frame s rtc_fd curchar j buf) [
    | none ↦ none
    | some (s', buf') ↦ move_out r s' rtc_fd curchar (j + 1) buf'
  ]

  pub bounce_back : ℕ → State → ℤ → (curchar j : ℕ) → Mem → Option (State × Mem)
  bounce_back zero s rtc_fd curchar j buf = some (s, buf)
  bounce_back (suc r) s rtc_fd curchar j buf = elim (frame s rtc_fd curchar j buf) [
    | none ↦ none
    | some (s', buf') ↦ bounce_back r s' rtc_fd curchar (j - 1) buf'
  ]

  pub rounds : ℕ → State → ℤ → (curchar : ℕ) → Mem → Option (State × Mem)
  rounds zero s rtc_fd curchar buf = some (s, buf)
  rounds (suc n) s rtc_fd curchar buf =
      elim (move_out (loopmax - startloop) s rtc_fd curchar startloop buf) [
        | none ↦ none
        | some (s1, buf1) ↦
            elim (bounce_back (loopmax - startloop) s1 rtc_fd curchar (loopmax - 1) buf1) [
              | none ↦ none
              | some (s2, buf2) ↦ rounds n s2 rtc_fd (next_char curchar) buf2
            ]
      ]

  -- `rate` is the memory of `ret_val`, which holds 32.
  pub pingpong : (n : ℕ) → State → (locals : Mem) → Option (State × Mem)
  pingpong n s locals =
      let rate = update (update (update (update (λ i. 0) 0 32) 1 0) 2 0) 3 0 in
      elim (open_file s (text (codes "rtc"))) [
        | none ↦ none
        | some (s1, rtc_fd) ↦ elim (write s1 rtc_fd rate (pos 4)) [
          | none ↦ none
          | some (s2, ret_val) ↦ rounds n s2 rtc_fd 65 (walls locals)
        ]
      ]
