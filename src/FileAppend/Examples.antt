-- ===== src/FileAppend/Examples.antt =====
-- `append` to a file of one cluster that is full.
use sysu_os.Base.{ℕ, ◌+◌, ◌==◌, ◌≡◌, refl, true, false, arith, if◌then◌else◌}
use sysu_os.FatTable.{Buffer}
use sysu_os.RootDir.{empty_entry}
use sysu_os.FileData.Sample.{files, files-IsCache, files-IsFree, no_bytes, files-HoldsAll}
use sysu_os.FileAppend.{Inode, Volume, append}
use sysu_os.FileAppend.Chains.{ends_here}
use sysu_os.FileAppend.Within.{IsAppended, new_contents, append-IsAppended}
use sysu_os.FileAppend.Extend.{IsExtended, append-IsExtended}

abbrev volume : Volume
volume = record {
  fs = files;
  fat_table = λ c. if c == 5 then 4095 else 0;
  fat_table_dirty = false;
  tmp_sector_buffer = λ o. 0;
  cluster_count = 2000;
  fat_size = 9;
  reserved_sector_count = 1;
  root = record {
    root_dir = λ k. empty_entry;
    root_entries = 224;
    root_start_sector = 19;
    root_sector_count = 14;
    root_dir_dirty = false;
  };
}

abbrev full : Inode
full = record {
  start_cluster = 5;
  size = 512;
  no_file = false;
  location = record {
    is_root = true;
    current_cluster = 0;
    entry_index_in_cluster = 0;
    root_index = 0;
  };
}

abbrev text : Buffer
text k = k + 65

abbrev overwritten : ℕ → Buffer
overwritten = new_contents no_bytes full 3 text volume 5

append-IsAppended_example : IsAppended overwritten full 3 volume (append full 3 text volume)
append-IsAppended_example =
    append-IsAppended full 3 text volume (omega arith) refl 5 0 (omega arith) refl
      (ends_here 5 refl) (omega arith) (omega arith) (omega arith) no_bytes
      (files-IsCache, files-IsFree, files-HoldsAll) (omega arith)

-- The first byte of the file is gone.
first_byte : overwritten 5 0 ≡ 65
first_byte = refl

append-IsExtended_example : IsExtended no_bytes full 600 text volume 5 (append full 600 text volume)
append-IsExtended_example =
    append-IsExtended full 600 text volume (omega arith) refl 5 0 (omega arith) refl
      (ends_here 5 refl) (omega arith) (omega arith) (omega arith) no_bytes
      (files-IsCache, files-IsFree, files-HoldsAll)
      (omega arith, omega arith, omega arith, omega arith) refl
