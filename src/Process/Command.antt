-- ===== src/Process/Command.antt =====
-- student-distrib/system_call.c: the command line of `execute`, and whether a file can be executed.
use system_engineering.Base.{
  ℕ, zero, suc, ◌+◌, ◌-◌, [], ◌∷◌, Option, none, some, Bool, true, false, not, ◌&&◌, ◌==◌,
  if◌then◌else◌, Mem, update,
}
use system_engineering.Base.Text.{text}
use system_engineering.Base.Int.{ℤ}
use system_engineering.FileSys.{FileSys, Dentry, read_dentry_by_name, read_data, equal_strings}
pub mod Parse
pub mod Sample

-- What `parse` does: it leaves the two arrays, fails, or runs on behind the fuel.
pub data Parsed : Type 0 where
  no_fuel : Parsed
  bad : Parsed
  parsed : Mem → Mem → Parsed

-- `while (command[i] == SPACE) i++;`
skip_spaces : ℕ → Mem → ℕ → Option ℕ
skip_spaces zero command i = none
skip_spaces (suc k) command i =
    let rest = skip_spaces k command (i + 1) in if command i == 32 then rest else some i

-- The loop over the argument, with `limit` for `MAX_ARG_LEN-length`.
parse_argument : ℕ → Mem → (limit i arg_len : ℕ) → Mem → Mem → Parsed
parse_argument zero command limit i arg_len filename arg = no_fuel
parse_argument (suc k) command limit i arg_len filename arg =
    let rest =
      parse_argument k command limit (i + 1) (arg_len + 1) filename
        (update arg arg_len (command i)) in
    if command i == 0
    then parsed filename (update arg arg_len 0)
    else if arg_len == limit
    then bad
    else rest

-- What follows the name: `fuel` serves the two loops.
parse_rest : ℕ → Mem → (i length : ℕ) → Mem → Mem → Parsed
parse_rest fuel command i length filename arg =
    if command i == 32
    then elim (skip_spaces fuel command i) [
      | none ↦ no_fuel
      | some j ↦ parse_argument fuel command (128 - length) j 0 filename arg
    ]
    else parsed filename arg

-- The loop over the name.
parse_name : ℕ → (fuel : ℕ) → Mem → (i length : ℕ) → Mem → Mem → Parsed
parse_name zero fuel command i length filename arg = no_fuel
parse_name (suc k) fuel command i length filename arg =
    let rest =
      parse_name k fuel command (i + 1) (length + 1) (update filename length (command i)) arg in
    let done = parse_rest fuel command i length (update filename length 0) arg in
    if not (command i == 32) && not (command i == 0)
    then (if length == 32 then bad else rest)
    else done

-- `command` is `none` for NULL; `filename` and `arg` are the arrays as the caller hands them over.
pub parse : ℕ → Option Mem → Mem → Mem → Parsed
parse fuel none filename arg = bad
parse fuel (some command) filename arg = elim (skip_spaces fuel command 0) [
  | none ↦ no_fuel
  | some i ↦ parse_name fuel fuel command i 0 filename (update arg 0 0)
]

-- `magic_identifiers`
abbrev elf : Mem
elf = text (0x7F ∷ 0x45 ∷ 0x4C ∷ 0x46 ∷ [])

-- The buffer that `read_data` was given, after the call.
abbrev pub buffer_after : Mem → ℤ × Option Mem → Mem
buffer_after old (code, none) = old
buffer_after old (code, some buf) = buf

-- `isExe`: true for SUCCESS. `locals` is what its buffer holds at first.
pub is_exe : FileSys → Mem → Mem → Bool
is_exe fs locals filename = elim (read_dentry_by_name fs filename) [
  | none ↦ false
  | some d ↦ equal_strings (buffer_after locals (read_data fs d.inode_num 0 (some locals) 4)) elf 4
]
