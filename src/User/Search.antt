-- ===== src/User/Search.antt =====
-- syscalls/ece391grep.c: the lines of every file that hold a text.
use system_engineering.Base.{
  ℕ, zero, suc, ◌+◌, ◌-◌, Option, none, some, Bool, true, false, not, ◌&&◌, ltb, leb, ◌==◌,
  if◌then◌else◌, Mem, update, [],
}
use system_engineering.Base.Int.{ℤ, pos, negsuc, eqb_ℤ, pos_part}
use system_engineering.Base.Text.{codes, text}
use system_engineering.User.{Calls}
use system_engineering.User.Support.{ece391_strlen, ece391_strcpy, ece391_strncmp, ece391_fdputs}
use system_engineering.User.Programs.{line, failed, Exit, exit_with}
pub mod Matches

-- The array from `i` on, and an array of which the part from `i` on was overwritten.
abbrev pub behind : Mem → ℕ → Mem
behind buffer i j = buffer (i + j)

abbrev overwritten : Mem → ℕ → Mem → Mem
overwritten buffer i out j = if leb i j then out (j - i) else buffer j

-- The search for the end of a line, over the rounds left.
line_end_from : ℕ → Mem → (last line_end : ℕ) → ℕ
line_end_from zero buffer last line_end = line_end
line_end_from (suc k) buffer last line_end =
    let rest = line_end_from k buffer last (line_end + 1) in
    if ltb line_end last && not (buffer line_end == 10) then rest else line_end

-- Whether the text stands in the line, over the places left.
pub holds : ℕ → Mem → (s : Mem) → (s_len check : ℕ) → Bool
holds zero buffer s s_len check = false
holds (suc k) buffer s s_len check =
    let rest = holds k buffer s s_len (check + 1) in
    if s 0 == buffer check && eqb_ℤ (ece391_strncmp (behind buffer check) s s_len) (pos 0)
    then true
    else rest

module _ (calls : Calls) (fuel : ℕ) where
  open calls use {State, getargs, open_file, close_file, read}

  -- A line that is printed, behind the name of its file.
  print_line : State → (fname line_text : Mem) → Option State
  print_line s fname line_text = elim (ece391_fdputs calls fuel s (pos 1) fname) [
    | none ↦ none
    | some s1 ↦ elim (ece391_fdputs calls fuel s1 (pos 1) (text (codes ":"))) [
      | none ↦ none
      | some s2 ↦ elim (ece391_fdputs calls fuel s2 (pos 1) line_text) [
        | none ↦ none
        | some s3 ↦ ece391_fdputs calls fuel s3 (pos 1) (line [])
      ]
    ]
  ]

  -- One whole line: it is printed if it holds the text.
  search_line : State → (search fname buffer : Mem) → (s_len line_start line_end : ℕ) → Option State
  search_line s search fname buffer s_len line_start line_end =
      if holds (line_end - line_start) buffer search s_len line_start
      then print_line s fname (behind buffer line_start)
      else some s

  -- The loop over the lines of the buffer: what it leaves of the buffer, and how much.
  search_lines :
      ℕ
      → State
      → (search fname buffer : Mem) → (s_len cnt last line_start : ℕ) → Option (State × Mem × ℕ)
  search_lines zero s search fname buffer s_len cnt last line_start = none
  search_lines (suc k) s search fname buffer s_len cnt last line_start =
      let line_end = line_end_from last buffer last line_start in
      let ended = update buffer line_end 0 in
      let kept = elim (ece391_strcpy fuel ended 0 line_start) as (λ _. Option (State × Mem × ℕ)) [
        | none ↦ none
        | some buffer' ↦ some (s, buffer', last - line_start)
      ] in
      let searched =
        elim (search_line s search fname ended s_len line_start line_end)
          as (λ _. Option (State × Mem × ℕ)) [
            | none ↦ none
            | some s' ↦
                let rest = search_lines k s' search fname ended s_len cnt last (line_end + 1) in
                if leb last (line_end + 1) then some (s', ended, 0) else rest
          ] in
      if not (buffer line_end == 10) && (not (cnt == 0) && not (line_start == 0))
      then kept
      else searched

  -- The loop over the blocks of a file, up to its end.
  search_blocks :
      ℕ → State → (search fname : Mem) → (s_len : ℕ) → (fd : ℤ) → Mem → (last : ℕ) → Exit calls fuel
  search_blocks zero s search fname s_len fd buffer last = none
  search_blocks (suc k) s search fname s_len fd buffer last =
      elim (read s fd (behind buffer last) (1024 - last)) [
        | none ↦ none
        | some (s1, out, cnt) ↦
            let searched =
              elim (search_lines fuel s1 search fname (overwritten buffer last out) s_len
                  (pos_part cnt) (last + pos_part cnt) 0)
                as (λ _. Exit calls fuel) [
                  | none ↦ none
                  | some (s2, buffer', last') ↦
                      let rest = search_blocks k s2 search fname s_len fd buffer' last' in
                      if eqb_ℤ cnt (pos 0) then some (s2, pos 0) else rest
                ] in
            if failed cnt
            then exit_with calls fuel s1 (line (codes "file read failed")) (negsuc 0)
            else searched
      ]

  pub do_one_file : State → (search fname locals : Mem) → Exit calls fuel
  do_one_file s search fname locals = elim (ece391_strlen fuel search) [
    | none ↦ none
    | some s_len ↦ elim (open_file s fname) [
      | none ↦ none
      | some (s1, fd) ↦
          let searched =
            elim (search_blocks fuel s1 search fname s_len fd locals 0) as (λ _. Exit calls fuel) [
              | none ↦ none
              | some (s2, code) ↦
                  let closed = elim (close_file s2 fd) as (λ _. Exit calls fuel) [
                    | none ↦ none
                    | some (s3, shut) ↦
                        if failed shut
                        then exit_with calls fuel s3 (line (codes "file close failed")) (negsuc 0)
                        else some (s3, pos 0)
                  ] in
                  if failed code then some (s2, code) else closed
            ] in
          if failed fd
          then exit_with calls fuel s1 (line (codes "file open failed")) (negsuc 0)
          else searched
    ]
  ]

  -- The loop over the directory.
  grep_loop : ℕ → State → (fd : ℤ) → (buf search locals : Mem) → Exit calls fuel
  grep_loop zero s fd buf search locals = none
  grep_loop (suc k) s fd buf search locals = elim (read s fd buf 32) [
    | none ↦ none
    | some (s1, buf1, cnt) ↦
        let fname = update buf1 (pos_part cnt) 0 in
        let skipped = grep_loop k s1 fd buf1 search locals in
        let searched = elim (do_one_file s1 search fname locals) as (λ _. Exit calls fuel) [
          | none ↦ none
          | some (s2, code) ↦
              let again = grep_loop k s2 fd fname search locals in
              if eqb_ℤ code (pos 0) then again else some (s2, pos 3)
        ] in
        if eqb_ℤ cnt (pos 0)
        then some (s1, pos 0)
        else if failed cnt
        then exit_with calls fuel s1 (line (codes "directory entry read failed")) (pos 3)
        else if buf1 0 == 46
        then skipped
        else searched
  ]

  -- `search` and `buf` are what the arrays hold at first, and `locals` is what the buffer of each call of
  -- `do_one_file` does.
  pub grep : State → (search buf locals : Mem) → Exit calls fuel
  grep s search buf locals = elim (getargs s search 1024) [
    | none ↦ none
    | some (s1, search1, code) ↦
        let opened = elim (open_file s1 (text (codes "."))) as (λ _. Exit calls fuel) [
          | none ↦ none
          | some (s2, fd) ↦
              if failed fd
              then exit_with calls fuel s2 (line (codes "directory open failed")) (pos 2)
              else grep_loop fuel s2 fd buf search1 locals
        ] in
        if not (eqb_ℤ code (pos 0))
        then exit_with calls fuel s1 (line (codes "could not read argument")) (pos 3)
        else opened
  ]
