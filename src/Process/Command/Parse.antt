-- ===== src/Process/Command/Parse.antt =====
-- What `parse` makes of a command line.
use system_engineering.Base.{
  ℕ, zero, suc, ◌+◌, ◌-◌, ◌≤◌, ◌<◌, ◌≡◌, ◌≢◌, ◌==◌, ◌&&◌, ltb, leb, if◌then◌else◌, some, Mem,
  update, refl, sym, ap, ◌∙◌, arith, fun_ext, ◌⊎◌, inl, inr, Bool-cases, not, ==_of_ne, ==_iff,
  true, false,
}
use mathlib.Core.Path.{ap₂}
use system_engineering.Process.Command.{
  bad, parsed, skip_spaces, parse_argument, parse_name, parse_rest, parse,
}

-- The array with `n` characters of the command from `i` on, and a NUL, written at `at`.
abbrev pub stored : (command : Mem) → (i n at : ℕ) → Mem → Mem
stored command i n at old j =
    if leb at j && ltb j (at + n) then command (i + (j - at)) else if j == at + n then 0 else old j

stored_none : (command : Mem) (i at : ℕ) (old : Mem) → update old at 0 ≡ stored command i 0 at old
stored_none command i at old = fun_ext (λ j. ground arith)

stored_over :
    (command : Mem) (i n : ℕ) (old : Mem)
    → stored command i n 0 (update old 0 0) ≡ stored command i n 0 old
stored_over command i n old = fun_ext (λ j. ground arith)

stored_next :
    (command : Mem) (i n at : ℕ) (old : Mem)
    → stored command (i + 1) n (at + 1) (update old at (command i))
      ≡ stored command i (suc n) at old
stored_next command i n at old = fun_ext (λ j. ground arith)

skip_spaces_lem :
    (k : ℕ) (command : Mem) (i d : ℕ)
    → ((j : ℕ) → j < d → command (i + j) ≡ 32)
    → command (i + d) ≢ 32
    → d < k
    → skip_spaces k command i ≡ some (i + d)
unfolding skip_spaces
skip_spaces_lem zero command i d spaces stop lt = absurd (omega arith)
skip_spaces_lem (suc k) command i zero spaces stop lt =
    rw (==_of_ne (command i) 32 (λ e. stop (ap command (omega arith) ∙ e))) (ap some (omega arith))
skip_spaces_lem (suc k) command i (suc d) spaces stop lt =
    let here : command i ≡ 32 = ap command (omega arith) ∙ spaces 0 (omega arith) in
    let on =
      skip_spaces_lem k command (i + 1) d
        (λ j less. ap command (omega arith) ∙ spaces (suc j) (omega arith))
        (λ e. stop (ap command (omega arith) ∙ e)) (omega arith) in
    rw ((==_iff (command i) 32).1 here) (on ∙ ap some (omega arith))

parse_argument_lem :
    (k : ℕ) (command : Mem) (limit i arg_len m : ℕ) (filename arg : Mem)
    → ((j : ℕ) → j < m → command (i + j) ≢ 0)
    → command (i + m) ≡ 0
    → arg_len ≤ limit
    → m < k
    → parse_argument k command limit i arg_len filename arg
      ≡ (if leb (arg_len + m) limit then parsed filename (stored command i m arg_len arg) else bad)
unfolding parse_argument
parse_argument_lem zero command limit i arg_len m filename arg chars stop fits lt =
    absurd (omega arith)
parse_argument_lem (suc k) command limit i arg_len zero filename arg chars stop fits lt =
    let here : command i ≡ 0 = ap command (omega arith) ∙ stop in
    let short : leb (arg_len + 0) limit ≡ true = ground arith in
    rw ((==_iff (command i) 0).1 here, short)
      (ap (parsed filename) (stored_none command i arg_len arg))
parse_argument_lem (suc k) command limit i arg_len (suc m) filename arg chars stop fits lt =
    let more = ==_of_ne (command i) 0 (λ e. chars 0 (omega arith) (ap command (omega arith) ∙ e)) in
    elim (Bool-cases (arg_len == limit)) [
      | inl full ↦
          let long : leb (arg_len + suc m) limit ≡ false = ground arith in
          rw (more, full, long) refl
      | inr free ↦
          let on =
            parse_argument_lem k command limit (i + 1) (arg_len + 1) m filename
              (update arg arg_len (command i))
              (λ j less e. chars (suc j) (omega arith) (ap command (omega arith) ∙ e))
              (ap command (omega arith) ∙ stop) (ground arith) (omega arith) in
          let same : leb (arg_len + 1 + m) limit ≡ leb (arg_len + suc m) limit =
            ap (λ t. leb t limit) (omega arith) in
          rw (more, free)
            (on
              ∙ ap
                  (λ b.
                    if b
                    then parsed filename
                        (stored command (i + 1) m (arg_len + 1) (update arg arg_len (command i)))
                    else bad)
                  same
              ∙ ap (λ a. if leb (arg_len + suc m) limit then parsed filename a else bad)
                  (stored_next command i m arg_len arg))
    ]

-- What follows the name: nothing, or `g` spaces and an argument of `m` characters.
parse_rest_lem :
    (fuel : ℕ) (command : Mem) (i g m length : ℕ) (filename arg : Mem)
    → ((j : ℕ) → j < g → command (i + j) ≡ 32)
    → command (i + g) ≢ 32
    → ((j : ℕ) → j < m → command (i + g + j) ≢ 0)
    → command (i + g + m) ≡ 0
    → 0 < g
    → g + m < fuel
    → parse_rest fuel command i length filename arg
      ≡ (if leb m (128 - length) then parsed filename (stored command (i + g) m 0 arg) else bad)
unfolding parse_rest
parse_rest_lem fuel command i g m length filename arg spaces stop chars ends some_spaces lt =
    let here : command i ≡ 32 = ap command (omega arith) ∙ spaces 0 some_spaces in
    let skipped = skip_spaces_lem fuel command i g spaces stop (omega arith) in
    let read =
      parse_argument_lem fuel command (128 - length) (i + g) 0 m filename arg chars ends
        (omega arith) (omega arith) in
    let same : leb (0 + m) (128 - length) ≡ leb m (128 - length) =
      ap (λ t. leb t (128 - length)) (omega arith) in
    rw ((==_iff (command i) 32).1 here, skipped)
      (read ∙ ap (λ b. if b then parsed filename (stored command (i + g) m 0 arg) else bad) same)

ends_name :
    (command : Mem) (i : ℕ)
    → ((command i ≡ 32) ⊎ (command i ≡ 0))
    → not (command i == 32) && not (command i == 0) ≡ false
ends_name command i stop = ground arith

in_name :
    (command : Mem) (i : ℕ)
    → command i ≢ 32
    → command i ≢ 0
    → not (command i == 32) && not (command i == 0) ≡ true
in_name command i no_space no_end = ground arith

-- What is left of a name after one character of it.
next_character :
    (fuel : ℕ) (command : Mem) (i length n : ℕ) (filename arg : Mem)
    → (if leb (length + 1 + n) 32
        then parse_rest fuel command
            (i + 1 + n)
            (length + 1 + n)
            (stored command (i + 1) n (length + 1) (update filename length (command i)))
            arg
        else bad)
      ≡ (if leb (length + suc n) 32
          then parse_rest fuel command
              (i + suc n)
              (length + suc n)
              (stored command i (suc n) length filename)
              arg
          else bad)
next_character fuel command i length n filename arg =
    let l : length + 1 + n ≡ length + suc n = omega arith in
    let j : i + 1 + n ≡ i + suc n = omega arith in
    rw (l, j)
      (ap
        (λ f.
          if leb (length + suc n) 32
          then parse_rest fuel command (i + suc n) (length + suc n) f arg
          else bad)
        (stored_next command i n length filename))

parse_name_lem :
    (k fuel : ℕ) (command : Mem) (i length n : ℕ) (filename arg : Mem)
    → ((j : ℕ) → j < n → (command (i + j) ≢ 32) × (command (i + j) ≢ 0))
    → ((command (i + n) ≡ 32) ⊎ (command (i + n) ≡ 0))
    → length ≤ 32
    → n < k
    → parse_name k fuel command i length filename arg ≡ (
        if leb (length + n) 32
        then parse_rest fuel command (i + n) (length + n) (stored command i n length filename) arg
        else bad)
unfolding parse_name
parse_name_lem zero fuel command i length n filename arg chars stop fits lt = absurd (omega arith)
parse_name_lem (suc k) fuel command i length zero filename arg chars stop fits lt =
    let done : not (command i == 32) && not (command i == 0) ≡ false =
      ends_name command i (elim stop [
        | inl e ↦ inl (ap command (omega arith) ∙ e)
        | inr e ↦ inr (ap command (omega arith) ∙ e)
      ]) in
    let short : leb (length + 0) 32 ≡ true = ground arith in
    rw (done, short)
      (ap₂ (λ j l. parse_rest fuel command j l (update filename length 0) arg) (omega arith)
          (omega arith)
        ∙ ap (λ f. parse_rest fuel command (i + 0) (length + 0) f arg)
            (stored_none command i length filename))
parse_name_lem (suc k) fuel command i length (suc n) filename arg chars stop fits lt =
    let (no_space, no_end) = chars 0 (omega arith) in
    let more : not (command i == 32) && not (command i == 0) ≡ true =
      in_name command i (λ e. no_space (ap command (omega arith) ∙ e))
        (λ e. no_end (ap command (omega arith) ∙ e)) in
    elim (Bool-cases (length == 32)) [
      | inl full ↦
          let long : leb (length + suc n) 32 ≡ false = ground arith in rw (more, full, long) refl
      | inr free ↦
          let on =
            parse_name_lem k fuel command (i + 1) (length + 1) n
              (update filename length (command i)) arg
              (λ j less. (
                (λ e. (chars (suc j) (omega arith)).0 (ap command (omega arith) ∙ e)),
                (λ e. (chars (suc j) (omega arith)).1 (ap command (omega arith) ∙ e)),
              ))
              (elim stop [
                | inl e ↦ inl (ap command (omega arith) ∙ e)
                | inr e ↦ inr (ap command (omega arith) ∙ e)
              ])
              (ground arith) (omega arith) in
          rw (more, free, on) (next_character fuel command i length n filename arg)
    ]

-- The shape of a command: `s` spaces, a name of `n` characters, and nothing more, or `g` spaces and the
-- `m` characters of an argument.
pub record Words (command : Mem) (s n g m : ℕ) : Type 0 where
  pub lead : (j : ℕ) → j < s → command j ≡ 32
  pub some_name : 0 < n
  pub name : (j : ℕ) → j < n → (command (s + j) ≢ 32) × (command (s + j) ≢ 0)
  pub gap : (j : ℕ) → j < g → command (s + n + j) ≡ 32
  pub gap_ends : command (s + n + g) ≢ 32
  pub argument : (j : ℕ) → j < m → command (s + n + g + j) ≢ 0
  pub ends : command (s + n + g + m) ≡ 0
  pub separated : (0 < g) ⊎ (m ≡ 0)

module _ (fuel : ℕ) (command : Mem) (s n g m : ℕ) (filename arg : Mem) (h : Words command s n g m)
    (enough : s + n + g + m < fuel) where
  abbrev name_stored : Mem
  name_stored = stored command s n 0 filename

  no_argument : g ≡ 0 → m ≡ 0
  no_argument none_there = elim h.separated [ inl lt ↦ absurd (omega arith) | inr e ↦ e ]

  rest_lem :
      parse_rest fuel command (s + n) n name_stored (update arg 0 0)
      ≡ (if leb m (128 - n) then parsed name_stored (stored command (s + n + g) m 0 arg) else bad)
  unfolding parse_rest
  rest_lem = elim (Bool-cases (ltb 0 g)) [
    | inl some_spaces ↦
        parse_rest_lem fuel command (s + n) g m n name_stored (update arg 0 0) h.gap h.gap_ends
          h.argument h.ends (ground arith) (omega arith)
        ∙ ap (λ a. if leb m (128 - n) then parsed name_stored a else bad)
            (stored_over command (s + n + g) m arg)
    | inr no_spaces ↦
        let nothing = no_argument (ground arith) in
        let name_ends =
          ==_of_ne (command (s + n)) 32 (λ e. h.gap_ends (ap command (ground arith) ∙ e)) in
        let short : leb m (128 - n) ≡ true = ground arith in
        let none_stored : update arg 0 0 ≡ stored command (s + n + g) m 0 arg =
          stored_none command (s + n + g) 0 arg
          ∙ ap (λ t. stored command (s + n + g) t 0 arg) (sym nothing) in
        rw (name_ends, short) (ap (parsed name_stored) none_stored)
  ]

  stop : (command (s + n) ≡ 32) ⊎ (command (s + n) ≡ 0)
  stop = elim (Bool-cases (ltb 0 g)) [
    | inl some_spaces ↦ inl (ap command (omega arith) ∙ h.gap 0 (ground arith))
    | inr no_spaces ↦
        let nothing = no_argument (ground arith) in inr (ap command (ground arith) ∙ h.ends)
  ]

  -- `parse` of a command of the shape `Words`, with more fuel than its length: when the name has at most
  -- 32 characters and the argument at most 128 less those of the name, `filename` and `arg` hold the name
  -- and the argument, each with a NUL behind it, and are as before elsewhere; otherwise it fails.
  pub parse_lem : parse fuel (some command) filename arg ≡ (
      if leb n 32 && leb m (128 - n)
      then parsed (stored command s n 0 filename) (stored command (s + n + g) m 0 arg)
      else bad)
  unfolding parse
  parse_lem =
      let started =
        skip_spaces_lem fuel command 0 s (λ j lt. ap command (omega arith) ∙ h.lead j lt)
          (λ e. (h.name 0 h.some_name).0 (ap command (omega arith) ∙ e)) (omega arith) in
      let named =
        parse_name_lem fuel fuel command s 0 n filename (update arg 0 0) h.name stop (omega arith)
          (omega arith) in
      let there : 0 + s ≡ s = omega arith in
      let length : 0 + n ≡ n = omega arith in
      rw (started ∙ ap some there, parse)
        (named
          ∙ rw (length) (elim (Bool-cases (leb n 32)) [
            | inl short ↦ rw (short) rest_lem
            | inr long ↦ rw (long) refl
          ]))
