-- ===== src/FileSys/Tests.antt =====
-- The file system on a small disk.
use system_engineering.Base.{
  ℕ, suc, ◌+◌, ◌<◌, ltb, if◌then◌else◌, Mem, ◌≡◌, refl, arith, some, update,
}
use system_engineering.Base.Int.{pos, negsuc}
use system_engineering.FileSys.{
  Dentry, read_data, read_dentry_by_name, read_dentry_by_index, dir_read, word, inode_length,
  inode_count, dir_entry_num,
}
use system_engineering.FileSys.Data.{file_byte, read_data_lem, reachable}
use system_engineering.FileSys.Lookup.{IsDot, FirstNamed, read_dentry_by_name-FirstNamed}
use system_engineering.FileSys.Directory.{Lists, dir_read-Lists, index_after, index_after-cycle}
use system_engineering.FileSys.Sample.{
  disk, name_a, noughts, sample_image-AllBytes, name_a-AllBytes, name_a-IsString,
}

two_entries : dir_entry_num disk ≡ 2
unfolding word
two_entries = refl

one_inode : inode_count disk ≡ 1
unfolding word
one_inode = refl

forty_bytes : inode_length disk 0 ≡ 40
unfolding word inode_length
forty_bytes = refl

two_blocks : reachable disk ≡ 8192
unfolding word
two_blocks = refl

read_data_lem_example :
    (out : Mem) × (read_data disk 0 1 (some noughts) 3 ≡ (pos 3, some out))
    × ((j : ℕ) → out j ≡ (if ltb j 3 then file_byte disk 0 (1 + j) else 0))
read_data_lem_example =
    read_data_lem disk 0 1 noughts 3 (omega (arith, one_inode)) (omega (arith, forty_bytes))
      (omega (arith, two_blocks))

not-IsDot : ¬ IsDot name_a 1
not-IsDot h = omega (arith, h.1)

read_dentry_by_name-FirstNamed_example :
    FirstNamed disk name_a 1 0 62 (read_dentry_by_name disk name_a)
read_dentry_by_name-FirstNamed_example =
    read_dentry_by_name-FirstNamed disk name_a 1 sample_image-AllBytes name_a-AllBytes
      name_a-IsString not-IsDot

dir_read-Lists_example :
    (d : Dentry) × (read_dentry_by_index disk 1 ≡ some d)
    × Lists disk d (pos 1) noughts (dir_read disk (pos 0) (some noughts))
dir_read-Lists_example =
    dir_read-Lists disk 0 noughts (omega (arith, two_entries)) (omega (arith, two_entries))

index_after-cycle_example :
    (dir_read disk (negsuc 0) (some noughts) ≡ record {
      directory_index = pos 0;
      buf = some (update (update noughts 0 46) 1 0);
      code = some (pos 1);
    })
    × ((k : ℕ)
        → suc k < dir_entry_num disk
        → (d : Dentry) × (read_dentry_by_index disk (suc k) ≡ some d)
          × Lists disk d
              (pos (suc k))
              noughts
              (dir_read disk (index_after disk noughts (suc k)) (some noughts)))
    × (dir_read disk (index_after disk noughts (dir_entry_num disk)) (some noughts)
        ≡ record { directory_index = negsuc 0; buf = some noughts; code = some (pos 0) })
index_after-cycle_example =
    index_after-cycle disk noughts (omega (arith, two_entries)) (omega (arith, two_entries))
