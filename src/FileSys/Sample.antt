-- ===== src/FileSys/Sample.antt =====
-- A small disk for the tests: "." and a program "a" of 40 bytes in one inode and one of two blocks.
use system_engineering.Base.Text.{codes, text}
use system_engineering.Process.Command.Parse.{stored}
use system_engineering.Base.{
  leb, ltb, ◌&&◌, get_or, ◌-◌, ◌==◌, if◌then◌else◌, Mem, update, ◌≡◌, refl, arith, some, none,
}
use system_engineering.Base.Int.{pos}
use system_engineering.CString.Props.{IsString, AllBytes}
use system_engineering.CString.{strncmp, strncmp_loop, strncpy, strncpy_copy, strncpy_pad}
use system_engineering.FileSys.{
  read_data, read_data_loop, inode_length, inode_block, block_byte, read_dentry_by_name,
  find_dentry, bounded_name, FileSys, dentry, dir_dentry, file_sys_init, word,
}

abbrev pub sample_image : Mem
sample_image a =
    if a == 0
    then 2
    else if a == 4
    then 1
    else if a == 8
    then 2
    else if a == 64
    then 46
    else if a == 96
    then 1
    else if a == 128
    then 97
    else if a == 160
    then 2
    else if a == 4096
    then 40
    else if a == 8192
    then 0x7F
    else if a == 8193
    then 0x45
    else if a == 8194
    then 0x4C
    else if a == 8195
    then 0x46
    else if a == 8216
    then 200
    else 0

abbrev pub disk : FileSys
disk = record {
  image = sample_image;
  boot_block_addr = 0;
  inode_addr = 4096;
  data_block_addr = 8192;
}

disk_init : file_sys_init sample_image 0 ≡ disk
unfolding file_sys_init word
disk_init = refl

abbrev pub name_a : Mem
name_a j = if j == 0 then 97 else 0

abbrev pub noughts : Mem
noughts j = 0

pub sample_image-AllBytes : AllBytes sample_image
sample_image-AllBytes a = ground arith

pub name_a-AllBytes : AllBytes name_a
name_a-AllBytes a = ground arith

pub name_a-IsString : IsString name_a 1
name_a-IsString = record { ends = refl; runs = λ j h. ground arith }

-- "a" as a command line's buffer holds it.
abbrev pub typed_a : Mem
typed_a = update (update noughts 0 97) 1 0

pub disk-finds-typed_a : read_dentry_by_name disk typed_a ≡ some (dentry disk 0)
unfolding read_dentry_by_name find_dentry bounded_name strncmp strncmp_loop strncpy strncpy_copy
    strncpy_pad
disk-finds-typed_a = refl

abbrev pub magic : Mem
magic = update (update (update (update noughts 0 0x7F) 1 0x45) 2 0x4C) 3 0x46

pub disk-reads-magic : read_data disk 0 0 (some noughts) 4 ≡ (pos 4, some magic)
unfolding read_data read_data_loop word inode_length inode_block block_byte
disk-reads-magic = refl

pub disk-finds-a : read_dentry_by_name disk name_a ≡ some (dentry disk 0)
unfolding read_dentry_by_name find_dentry bounded_name strncmp strncmp_loop strncpy strncpy_copy
    strncpy_pad
disk-finds-a = refl

-- The same disk with the program called shell.
abbrev pub shell_disk : FileSys
shell_disk = record disk {
  image =
      λ a. if leb 128 a && ltb a 133 then get_or (codes "shell") (a - 128) 0 else sample_image a;
}

pub shell_disk_init : file_sys_init shell_disk.image 0 ≡ shell_disk
unfolding file_sys_init word
shell_disk_init = refl

-- The name as a command line's buffer holds it.
abbrev pub typed_shell : Mem
typed_shell = stored (text (codes "shell")) 0 5 0 noughts

pub shell_disk-finds-shell : read_dentry_by_name shell_disk typed_shell ≡ some (dentry shell_disk 0)
unfolding read_dentry_by_name find_dentry bounded_name strncmp strncmp_loop strncpy strncpy_copy
    strncpy_pad
shell_disk-finds-shell = refl

pub shell_disk-reads-magic : read_data shell_disk 0 0 (some noughts) 4 ≡ (pos 4, some magic)
unfolding read_data read_data_loop word inode_length inode_block block_byte
shell_disk-reads-magic = refl

-- The names that the tests of the calls open.
pub disk-finds-dot : read_dentry_by_name disk (text (codes ".")) ≡ some (dir_dentry disk)
unfolding read_dentry_by_name find_dentry bounded_name strncmp strncmp_loop strncpy strncpy_copy
    strncpy_pad
disk-finds-dot = refl

pub disk-misses-helloo : read_dentry_by_name disk (text (codes "helloo")) ≡ none
unfolding read_dentry_by_name find_dentry bounded_name strncmp strncmp_loop strncpy strncpy_copy
    strncpy_pad
disk-misses-helloo = refl

pub disk-misses-shel : read_dentry_by_name disk (text (codes "shel")) ≡ none
unfolding read_dentry_by_name find_dentry bounded_name strncmp strncmp_loop strncpy strncpy_copy
    strncpy_pad
disk-misses-shel = refl
