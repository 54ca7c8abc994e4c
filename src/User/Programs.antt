-- ===== src/User/Programs.antt =====
-- syscalls: cat, ls, hello, testprint, counter and the shell. A program's result is its state at the end
-- and the value of `main`. `locals` is what its buffer holds at first, and `fuel` bounds each loop.
use system_engineering.Base.{
  ℕ, zero, suc, ◌+◌, ◌-◌, List, [], ◌∷◌, ◌++◌, Option, none, some, Bool, not, ◌&&◌, ◌||◌, ltb, ◌==◌,
  if◌then◌else◌, Mem, update,
}
use system_engineering.Base.Int.{ℤ, pos, negsuc, eqb_ℤ, incr, pos_part}
use system_engineering.Base.Text.{codes, text}
use system_engineering.User.{Calls}
use system_engineering.User.Support.{ece391_strlen, ece391_strcmp, ece391_itoa, ece391_fdputs}

-- A text with a line break.
abbrev pub line : List ℕ → Mem
line cs = text (cs ++ (10 ∷ []))

abbrev pub failed : ℤ → Bool
failed code = eqb_ℤ code (negsuc 0)

module _ (calls : Calls) (fuel : ℕ) where
  open calls use {State, getargs, open_file, read, write, execute}

  abbrev pub Exit : Type 0
  Exit = Option (State × ℤ)

  -- A message, and the end of the program.
  pub exit_with : State → Mem → ℤ → Exit
  exit_with s message code = elim (ece391_fdputs calls fuel s (pos 1) message) [
    | none ↦ none
    | some s' ↦ some (s', code)
  ]

  -- The loop of cat.
  unfoldable pub cat_loop : ℕ → State → (fd : ℤ) → Mem → Exit
  cat_loop zero s fd buf = none
  cat_loop (suc k) s fd buf = elim (read s fd buf 1024) [
    | none ↦ none
    | some (s1, buf1, cnt) ↦
        let rest = elim (write s1 (pos 1) buf1 cnt) as (λ _. Exit) [
          | none ↦ none
          | some (s2, written) ↦
              let again = cat_loop k s2 fd buf1 in
              if failed written then some (s2, pos 3) else again
        ] in
        if eqb_ℤ cnt (pos 0)
        then some (s1, pos 0)
        else if failed cnt
        then exit_with s1 (line (codes "file read failed")) (pos 3)
        else rest
  ]

  unfoldable pub cat : State → (locals : Mem) → Exit
  cat s locals = elim (getargs s locals 1024) [
    | none ↦ none
    | some (s1, buf, code) ↦
        let opened = elim (open_file s1 buf) as (λ _. Exit) [
          | none ↦ none
          | some (s2, fd) ↦
              if failed fd
              then exit_with s2 (line (codes "file not found")) (pos 2)
              else cat_loop fuel s2 fd buf
        ] in
        if not (eqb_ℤ code (pos 0))
        then exit_with s1 (line (codes "could not read arguments")) (pos 3)
        else opened
  ]

  -- The loop of ls: each name is written with a line break behind it.
  pub ls_loop : ℕ → State → (fd : ℤ) → Mem → Exit
  ls_loop zero s fd buf = none
  ls_loop (suc k) s fd buf = elim (read s fd buf 32) [
    | none ↦ none
    | some (s1, buf1, cnt) ↦
        let named = update buf1 (pos_part cnt) 10 in
        let rest = elim (write s1 (pos 1) named (incr cnt)) as (λ _. Exit) [
          | none ↦ none
          | some (s2, written) ↦
              let again = ls_loop k s2 fd named in
              if failed written then some (s2, pos 3) else again
        ] in
        if eqb_ℤ cnt (pos 0)
        then some (s1, pos 0)
        else if failed cnt
        then exit_with s1 (line (codes "directory entry read failed")) (pos 3)
        else rest
  ]

  pub ls : State → (locals : Mem) → Exit
  ls s locals = elim (open_file s (text (codes "."))) [
    | none ↦ none
    | some (s1, fd) ↦
        if failed fd
        then exit_with s1 (line (codes "directory open failed")) (pos 2)
        else ls_loop fuel s1 fd locals
  ]

  pub testprint : State → Exit
  testprint s =
      exit_with s (line (codes "Hello, if this ran, the program was correct. Yay!")) (pos 0)

  -- What was read from the keyboard, with a NUL at the end; a failed read ends the program with `message`.
  pub prompt : State → (question message locals : Mem) → (State → Mem → Exit) → Exit
  prompt s question message locals then_with = elim (ece391_fdputs calls fuel s (pos 1) question) [
    | none ↦ none
    | some s1 ↦ elim (read s1 (pos 0) locals 1023) [
      | none ↦ none
      | some (s2, buf, cnt) ↦
          if failed cnt
          then exit_with s2 message (pos 3)
          else then_with s2 (update buf (pos_part cnt) 0)
    ]
  ]

  pub hello : State → (locals : Mem) → Exit
  hello s locals =
      prompt s (text (codes "Hi, what's your name? "))
        (line (codes "Can't read name from keyboard.")) locals
        (λ s1 name. elim (ece391_fdputs calls fuel s1 (pos 1) (text (codes "Hello, "))) [
          | none ↦ none
          | some s2 ↦ exit_with s2 name (pos 0)
        ])

  -- The loop of counter, over the rounds left.
  pub count : ℕ → State → (i : ℕ) → Mem → Exit
  count zero s i buf = some (s, pos 0)
  count (suc k) s i buf = elim (ece391_itoa fuel (i + 1) buf 10) [
    | none ↦ none
    | some digits ↦ elim (ece391_fdputs calls fuel s (pos 1) digits) [
      | none ↦ none
      | some s1 ↦ elim (ece391_fdputs calls fuel s1 (pos 1) (line [])) [
        | none ↦ none
        | some s2 ↦ count k s2 (i + 1) digits
      ]
    ]
  ]

  -- How far counter counts, by what was typed: a digit and a line break, or less.
  chosen : Mem → (length : ℕ) → Option ℕ
  chosen buf length =
      if ltb 2 length || (length == 2 && (ltb (buf 0) 48 || ltb 50 (buf 0)))
      then none
      else some (
          if buf 0 == 48
          then 100
          else if buf 0 == 49
          then 10000
          else if buf 0 == 50
          then 100000
          else 0)

  pub counter : State → (locals : Mem) → Exit
  counter s locals =
      prompt s (line (codes "Enter the Test Number: (0): 100, (1): 10000, (2): 100000"))
        (line (codes "Can't read the number from keyboard.")) locals
        (λ s1 buf. elim (ece391_strlen fuel buf) [
          | none ↦ none
          | some length ↦ elim (chosen buf length) [
            | none ↦ exit_with s1 (line (codes "Wrong Choice!")) (pos 0)
            | some max ↦ count max s1 0 buf
          ]
        ])

  -- What the shell prints about the value of a program.
  report : State → ℤ → Option State
  report s rval =
      if failed rval
      then ece391_fdputs calls fuel s (pos 1) (line (codes "no such command"))
      else if eqb_ℤ rval (pos 256)
      then ece391_fdputs calls fuel s (pos 1) (line (codes "program terminated by exception"))
      else if not (eqb_ℤ rval (pos 0))
      then ece391_fdputs calls fuel s (pos 1) (line (codes "program terminated abnormally"))
      else some s

  -- The command line without its line break.
  pub command_line : Mem → (cnt : ℕ) → Mem
  command_line buf cnt =
      if ltb 0 cnt && buf (cnt - 1) == 10 then update buf (cnt - 1) 0 else update buf cnt 0

  pub shell_loop : ℕ → State → Mem → Exit
  shell_loop zero s buf = none
  shell_loop (suc k) s buf = elim (ece391_fdputs calls fuel s (pos 1) (text (codes "391OS> "))) [
    | none ↦ none
    | some s1 ↦ elim (read s1 (pos 0) buf 1023) [
      | none ↦ none
      | some (s2, buf1, cnt) ↦
          let command = command_line buf1 (pos_part cnt) in
          let ran = elim (execute s2 command) as (λ _. Exit) [
            | none ↦ none
            | some (s3, rval) ↦ elim (report s3 rval) [
              | none ↦ none
              | some s4 ↦ shell_loop k s4 command
            ]
          ] in
          let again = shell_loop k s2 command in
          if failed cnt
          then exit_with s2 (line (codes "read from keyboard failed")) (pos 3)
          else elim (ece391_strcmp fuel command (text (codes "exit"))) as (λ _. Exit) [
            | none ↦ none
            | some order ↦
                if eqb_ℤ order (pos 0)
                then some (s2, pos 0)
                else if command 0 == 0
                then again
                else ran
          ]
    ]
  ]

  pub shell : State → (locals : Mem) → Exit
  shell s locals = elim (ece391_fdputs calls fuel s (pos 1) (line (codes "Starting 391 Shell"))) [
    | none ↦ none
    | some s1 ↦ shell_loop fuel s1 locals
  ]
