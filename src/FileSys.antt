-- ===== src/FileSys.antt =====
-- student-distrib/file_sys.c and file_sys.h: the read-only file system. It is read where it lies:
-- the state is the memory that holds the image, the three addresses that `file_sys_init` computes,
-- and the index at which the directory is being read. An address does not pass 2 ^ 32.
use system_engineering.Base.{
  ℕ, zero, suc, ◌+◌, ◌-◌, ◌*◌, ◌/◌, ◌%◌, Option, none, some, ◌==◌, ◌||◌, not, ltb, leb, Bool, true,
  false, if◌then◌else◌, Mem, update,
}
use system_engineering.Base.Int.{ℤ, pos, negsuc, pos_part, eqb_ℤ, leb_ℤ, incr, decr, int32}
use system_engineering.CString.{strncmp, strncpy, strcpy, strlen}
pub mod Lookup
pub mod Names
pub mod Data
pub mod Directory
pub mod Sample
mod Tests

abbrev pub kb4 : ℕ
kb4 = 4096

abbrev pub kb : ℕ
kb = 1024

abbrev pub byte4 : ℕ
byte4 = 32

abbrev pub file_num : ℕ
file_num = 62

pub record FileSys : Type 0 where
  pub image : Mem
  pub boot_block_addr : ℕ
  pub inode_addr : ℕ
  pub data_block_addr : ℕ

-- The little-endian word at an address.
unfoldable pub word : Mem → ℕ → ℕ
word m a = m a + 256 * (m (a + 1) + 256 * (m (a + 2) + 256 * m (a + 3)))

-- A `dentry_t`: 32 bytes of name, then its type, its inode and 24 reserved bytes.
pub record Dentry : Type 0 where
  pub file_name : Mem
  pub file_type : ℕ
  pub inode_num : ℕ

abbrev pub dentry_size : ℕ
dentry_size = 64

abbrev pub dentry_of : Mem → ℕ → Dentry
dentry_of m a = record {
  file_name = λ j. m (a + j);
  file_type = word m (a + 32);
  inode_num = word m (a + 36);
}

-- The fields of the boot block: the counts, the directory's entry and the other entries.
abbrev pub dir_entry_num : FileSys → ℕ
dir_entry_num fs = word fs.image fs.boot_block_addr

abbrev pub inode_count : FileSys → ℕ
inode_count fs = word fs.image (fs.boot_block_addr + 4)

abbrev pub data_block_num : FileSys → ℕ
data_block_num fs = word fs.image (fs.boot_block_addr + 8)

abbrev pub dir_dentry : FileSys → Dentry
dir_dentry fs = dentry_of fs.image (fs.boot_block_addr + dentry_size)

abbrev pub dentry : FileSys → ℕ → Dentry
dentry fs i = dentry_of fs.image (fs.boot_block_addr + 2 * dentry_size + i * dentry_size)

-- The fields of inode `n`: its length in bytes and the numbers of its data blocks.
unfoldable pub inode_length : FileSys → ℕ → ℕ
inode_length fs n = word fs.image (fs.inode_addr + n * kb4)

unfoldable pub inode_block : FileSys → ℕ → ℕ → ℕ
inode_block fs n i = word fs.image (fs.inode_addr + n * kb4 + 4 + 4 * i)

-- Byte `o` of data block `b`.
unfoldable pub block_byte : FileSys → ℕ → ℕ → ℕ
block_byte fs b o = fs.image (fs.data_block_addr + b * kb4 + o)

-- The boot block, an inode and a data block are 4096 bytes each.
pub file_sys_init : Mem → ℕ → FileSys
file_sys_init image start_addr =
    let inode_addr = start_addr + kb4 in
    record {
      image = image;
      boot_block_addr = start_addr;
      inode_addr = inode_addr;
      data_block_addr = inode_addr + word image (start_addr + 4) * kb4;
    }

-- The text ".".
abbrev pub period : Mem
period j = if j == 0 then 46 else 0

-- `temp`: the 32 bytes of the name, terminated. What the local array holds at first is no matter.
pub bounded_name : Dentry → Mem
bounded_name d = update (strncpy (λ j. 0) d.file_name byte4) byte4 0

-- `!strncmp(...)`
abbrev pub equal_strings : Mem → Mem → ℕ → Bool
equal_strings a b n = eqb_ℤ (strncmp a b n) (pos 0)

-- The loop over `boot_block_addr->dentry_`: the rounds left and the index.
pub find_dentry : ℕ → FileSys → Mem → ℕ → Option Dentry
find_dentry zero fs fname i = none
find_dentry (suc k) fs fname i =
    let rest = find_dentry k fs fname (i + 1) in
    if equal_strings (bounded_name (dentry fs i)) fname (byte4 + 1)
    then some (dentry fs i)
    else rest

-- `none` is FAILURE, and else `*dentry` is the entry.
pub read_dentry_by_name : FileSys → Mem → Option Dentry
read_dentry_by_name fs fname =
    if equal_strings fname period 32 then some (dir_dentry fs) else find_dentry file_num fs fname 0

pub read_dentry_by_index : FileSys → ℕ → Option Dentry
read_dentry_by_index fs index =
    if leb (dir_entry_num fs) index
    then none
    else if index == 0
    then some (dir_dentry fs)
    else some (dentry fs (index - 1))

-- The loop of `read_data`, over the rounds left, with `curr_block_ptr` named by its block number.
-- It returns `data_counter` and the buffer. The message that the source prints at a block index from
-- `max_data_block` on is left out.
pub read_data_loop :
    (rounds : ℕ)
    → FileSys
    → (inode length : ℕ) → (block_index curr_block_num offset : ℕ) → Mem
    → (data_counter : ℕ) → ℕ × Mem
read_data_loop zero fs inode length block_index curr_block_num offset buf data_counter =
    (data_counter, buf)
read_data_loop (suc k) fs inode length block_index curr_block_num offset buf data_counter =
    let next_index = if offset == kb4 then block_index + 1 else block_index in
    let next_block = if offset == kb4 then inode_block fs inode next_index else curr_block_num in
    let next_offset = if offset == kb4 then 0 else offset in
    let rest =
      read_data_loop k fs inode length next_index next_block (next_offset + 1)
        (update buf data_counter (block_byte fs next_block next_offset)) (data_counter + 1) in
    if data_counter == length || block_index == kb - 2
    then (data_counter, buf)
    else if leb (data_block_num fs) block_index
    then (data_counter, buf)
    else rest

-- The value that `read_data` returns and the buffer after it; `none` is a NULL `buf`.
pub read_data : FileSys → (inode offset : ℕ) → Option Mem → (length : ℕ) → ℤ × Option Mem
read_data fs inode offset none length = (negsuc 0, none)
read_data fs inode offset (some buf) length =
    if leb (inode_count fs) inode
    then (negsuc 0, some buf)
    else if leb (inode_length fs inode) offset
    then (pos 0, some buf)
    else read
  where
    block_index : ℕ
    block_index = offset / kb4

    read : ℤ × Option Mem
    read =
        let (count, buf') =
          read_data_loop length fs inode length block_index (inode_block fs inode block_index)
            (offset - block_index * kb4) buf 0 in
        (pos count, some buf')

-- The handlers of a file and of a directory that do nothing.
pub file_open : ℤ
file_open = pos 0

pub file_close : ℤ
file_close = pos 0

pub file_write : ℤ
file_write = negsuc 0

pub dir_open : ℤ
dir_open = pos 0

pub dir_close : ℤ
dir_close = pos 0

pub dir_write : ℤ
dir_write = negsuc 0

pub invalid_write_op : ℤ
invalid_write_op = negsuc 0

pub invalid_read_op : ℤ
invalid_read_op = negsuc 0

-- `dir_read` at `directory_index`: the new index, the buffer, and the value returned. A name of 32
-- bytes or fewer is terminated at byte 32 at the latest, so 33 rounds of `strlen` are enough.
pub record DirRead : Type 0 where
  pub directory_index : ℤ
  pub buf : Option Mem
  pub code : Option ℤ

module _ (fs : FileSys) (directory_index : ℤ) where
  -- `directory_index++` and the call of `strlen` that end the function.
  listed : Option Mem → DirRead
  listed none = record { directory_index = directory_index; buf = none; code = none }
  listed (some buf) = record {
    directory_index = incr directory_index;
    buf = some buf;
    code = elim (strlen 33 buf) [ none ↦ none | some n ↦ some (int32 n) ];
  }

  pub dir_read : Option Mem → DirRead
  unfolding listed
  dir_read none = record { directory_index = directory_index; buf = none; code = some (negsuc 0) }
  dir_read (some buf) =
      if leb_ℤ (decr (int32 (dir_entry_num fs))) directory_index
      then record { directory_index = negsuc 0; buf = some buf; code = some (pos 0) }
      else if eqb_ℤ directory_index (negsuc 0)
      then listed (strcpy 2 buf period)
      else listed (
          some
            (update (strncpy buf (dentry fs (pos_part directory_index)).file_name byte4) byte4 0))
