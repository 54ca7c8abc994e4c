-- ===== src/Syscall/Lines.antt =====
-- What `terminal_read` delivers of a line.
use system_engineering.Base.{
  ℕ, zero, suc, ◌+◌, ◌≤◌, ◌<◌, ◌≢◌, ◌==◌, ◌&&◌, true, false, ltb, leb, if◌then◌else◌, Mem, update,
  ◌≡◌, inl, inr, ◌∙◌, ap, arith, Bool-cases, min, ==_iff, ltb→lt,
}
use system_engineering.Base.{some}
use system_engineering.Base.Int.{pos}
use system_engineering.Kernel.{Kernel, ReadHandler}
use system_engineering.Syscall.{terminal_read_loop, terminal_read, call_read, locked}

-- The buffer after the bytes of a line from `i` on, up to its end at `l`, were read into it.
abbrev pub line_read : (nbytes l i : ℕ) → (line buf : Mem) → Mem
line_read nbytes l i line buf j =
    if leb i j && (ltb j nbytes && leb j l) then (if j + 1 == nbytes then 10 else line j) else buf j

terminal_read_loop_lem :
    (k nbytes i l : ℕ) (line buf : Mem)
    → i + k ≡ nbytes
    → i ≤ l
    → line l ≡ 10
    → ((j : ℕ) → j < l → line j ≢ 10)
    → ((terminal_read_loop k nbytes i line buf).0 ≡ min nbytes (l + 1))
      × ((j : ℕ) → (terminal_read_loop k nbytes i line buf).1 j ≡ line_read nbytes l i line buf j)
unfolding terminal_read_loop
terminal_read_loop_lem zero nbytes i l line buf e le end before = (omega arith, λ j. ground arith)
terminal_read_loop_lem (suc k) nbytes i l line buf e le end before =
    elim (Bool-cases (i + 1 == nbytes)) [
      | inl last ↦ rw last (ground arith, λ j. ground arith)
      | inr more ↦ elim (Bool-cases (line i == 10)) [
        | inl newline ↦
            let here : i ≡ l = newline_end newline in
            rw more (rw newline (ground arith, λ j. ground arith))
        | inr char ↦
            let on : i < l = omega (arith, char_on char) in
            let (count, bytes) =
              terminal_read_loop_lem k nbytes (i + 1) l line (update buf i (line i)) (omega arith)
                (omega arith) end before in
            rw more (rw char (count, λ j. bytes j ∙ ground arith))
      ]
    ]
  where
    newline_end : (line i == 10) ≡ true → i ≡ l
    newline_end h = elim (Bool-cases (ltb i l)) [
      | inl below ↦ absurd (before i (ltb→lt i l below) ((==_iff _ _).0 h))
      | inr at ↦ ground arith
    ]

    char_on : (line i == 10) ≡ false → i < l
    char_on h = elim (Bool-cases (i == l)) [ inl here ↦ ground arith | inr other ↦ ground arith ]

module _ (wait : Kernel → Kernel) (k : Kernel) (buf : Mem) (nbytes l : ℕ) where
  -- The line that is read, when the wait is over: that of the terminal that is scheduled then.
  abbrev pub line_typed : Mem
  line_typed = let k' = wait (locked k) in k'.keyboard.key_buf k'.console.curr_scheduler

  -- If the line that the wait leaves ends with its first newline at `l`, `terminal_read` returns the
  -- number of bytes up to that newline, or `nbytes` if that is less, and delivers those bytes, the last
  -- of `nbytes` as a newline; the rest of the buffer stays.
  pub terminal_read_lem :
      line_typed l ≡ 10
      → ((j : ℕ) → j < l → line_typed j ≢ 10)
      → (out : Mem) × (call_read wait ReadHandler.terminal k 0 0 buf nbytes
          ≡ some (wait (locked k), out, pos (min nbytes (l + 1))))
        × ((j : ℕ) → out j ≡ line_read nbytes l 0 line_typed buf j)
  unfolding call_read terminal_read
  terminal_read_lem end before =
      let (count, bytes) =
        terminal_read_loop_lem nbytes nbytes 0 l line_typed buf (omega arith) (omega arith) end
          before in
      (
        (terminal_read_loop nbytes nbytes 0 line_typed buf).1,
        ap
            (λ n.
              some (wait (locked k), (terminal_read_loop nbytes nbytes 0 line_typed buf).1, pos n))
            count,
        bytes,
      )
