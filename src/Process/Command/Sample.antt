-- ===== src/Process/Command/Sample.antt =====
-- The command "a", which is a program of the sample disk.
use system_engineering.Base.{true, Mem, update, ◌≡◌, refl, ap, some}
use system_engineering.CString.{strncmp, strncmp_loop}
use system_engineering.FileSys.{equal_strings, word}
use system_engineering.FileSys.Sample.{
  disk, name_a, noughts, typed_a, disk-finds-typed_a, disk-reads-magic, shell_disk, typed_shell,
  shell_disk-finds-shell, shell_disk-reads-magic,
}
use system_engineering.Process.Command.{
  buffer_after, elf, parsed, parse, skip_spaces, parse_name, parse_rest, parse_argument, is_exe,
}

abbrev pub cleared : Mem
cleared = update noughts 0 0

pub parse_a : parse 10 (some name_a) noughts noughts ≡ parsed typed_a cleared
unfolding parse skip_spaces parse_name parse_rest parse_argument
parse_a = refl

pub a-is_exe : is_exe disk noughts typed_a ≡ true
unfolding is_exe strncmp strncmp_loop word
a-is_exe =
    rw (is_exe, disk-finds-typed_a)
      (ap (λ r. equal_strings (buffer_after noughts r) elf 4) disk-reads-magic)

pub shell-is_exe : is_exe shell_disk noughts typed_shell ≡ true
unfolding is_exe strncmp strncmp_loop word
shell-is_exe =
    rw (is_exe, shell_disk-finds-shell)
      (ap (λ r. equal_strings (buffer_after noughts r) elf 4) shell_disk-reads-magic)
