-- ===== src/RootDir.antt =====
-- The root directory of src/kernel/fileSys/fat12_fs.cpp: `init_root_dir`, which fills the table of
-- entries from the sectors of the disk, and `flush_root_dir`, which writes it back. The pages of the
-- table are taken from the kernel before; a sector has 512 bytes, and 16 entries. `init_root_dir` does
-- not look at the answer of the disk: the buffer then holds the sector before.
pub mod Slots
pub mod Flush
pub mod Load
mod Examples
use sysu_os.Base.{
  ℕ, zero, suc, ◌+◌, ◌*◌, ◌==◌, ltb, Bool, true, false, not, ◌&&◌, if◌then◌else◌, List, [], ◌∷◌,
  get_or,
}
use sysu_os.FatTable.{Buffer, Device, ide_read_sector, ide_write_sector}
use sysu_os.DirEntry.{
  NormalizedEntry, Status, free, end_of_dir, EntryBuf, load_sfn, store_sfn, read, write,
}

-- the members of `FAT12_FS` for the root directory
pub record RootDir : Type 0 where
  pub root_dir : ℕ → NormalizedEntry
  pub root_entries : ℕ
  pub root_start_sector : ℕ
  pub root_sector_count : ℕ
  pub root_dir_dirty : Bool

abbrev pub entry_bytes : ℕ
entry_bytes = 32

abbrev pub entry_per_sector : ℕ
entry_per_sector = 16

-- an entry of a table that is filled with 0
abbrev pub empty_entry : NormalizedEntry
empty_entry = record {
  name = [];
  start_cluster = 0;
  attr = 0;
  create_time_tenths = 0;
  create_time = 0;
  create_date = 0;
  last_access_date = 0;
  write_time = 0;
  write_date = 0;
  file_size = 0;
}

abbrev pub is_end : Status → Bool
is_end end_of_dir = true
is_end _ = false

-- `reset`
abbrev pub fresh : EntryBuf
fresh = record { entry = empty_entry; status = free }

-- an entry of the table goes to its place in the buffer of the sector
pub store_entry : NormalizedEntry → Buffer → ℕ → Buffer
store_entry e buf p =
    let store = λ (deleted : Bool).
      store_sfn buf p (write (record { entry = e; status = free }) (load_sfn buf p) deleted).0 in
    if get_or e.name 0 0 == 0 then buf else store (get_or e.name 0 0 == 0xe5)

-- the inner loop of `flush_root_dir`: the buffer and `entry_idx`
pub fill_loop : ℕ → ℕ → ℕ → RootDir → Buffer → Buffer × ℕ
fill_loop zero i idx d buf = (buf, idx)
fill_loop (suc n) i idx d buf =
    let here = ltb idx d.root_entries in
    fill_loop n (suc i) (if here then suc idx else idx) d
      (if here then store_entry (d.root_dir idx) buf (entry_bytes * i) else buf)

-- the outer loop of `flush_root_dir`
pub flush_loop : ℕ → ℕ → ℕ → RootDir → Bool → Device → Bool × Device
flush_loop zero sector idx d res disk = (res, disk)
flush_loop (suc n) sector idx d res disk =
    let (buf, idx') = fill_loop entry_per_sector 0 idx d (λ o. 0) in
    let (ok, disk') = ide_write_sector disk sector buf 0 in
    flush_loop n (suc sector) idx' d (res && ok) disk'

pub flush_root_dir : RootDir → Device → (Bool × Device) × RootDir
flush_root_dir d disk = (
  flush_loop d.root_sector_count d.root_start_sector 0 d true disk,
  record d { root_dir_dirty = false },
)

-- the variables of the loops of `init_root_dir`
pub record Scan : Type 0 where
  pub entry_buf : EntryBuf
  pub entry_idx : ℕ
  pub table : ℕ → NormalizedEntry
  pub finish : Bool

abbrev pub keep_entry : ℕ → Bool → Scan → Scan
keep_entry entries ok s =
    if ok && ltb s.entry_idx entries
    then record s {
      entry_idx = s.entry_idx + 1;
      table = λ k. if k == s.entry_idx then s.entry_buf.entry else s.table k;
    }
    else s

-- the inner loop of `init_root_dir`
pub scan_loop : ℕ → ℕ → ℕ → Buffer → Scan → Scan
scan_loop zero i entries buf s = s
scan_loop (suc n) i entries buf s =
    let (ok, entry_buf) = read s.entry_buf (load_sfn buf (entry_bytes * i)) in
    let s' = record s { entry_buf = entry_buf } in
    let rest = scan_loop n (suc i) entries buf (keep_entry entries ok s') in
    if not ok && is_end entry_buf.status then record s' { finish = true } else rest

-- the outer loop of `init_root_dir`; `tmp` is the buffer of the sectors
pub load_loop : ℕ → ℕ → ℕ → Device → Buffer → Scan → Scan
load_loop zero sector entries disk tmp s = s
load_loop (suc n) sector entries disk tmp s =
    let tmp' = (ide_read_sector disk sector tmp 0).1 in
    let rest =
      load_loop n (suc sector) entries disk tmp' (scan_loop entry_per_sector 0 entries tmp' s) in
    if s.finish then s else rest

pub init_root_dir : RootDir → Device → Buffer → RootDir
init_root_dir d disk tmp =
    let start : Scan = record {
      entry_buf = fresh;
      entry_idx = 0;
      table = λ k. empty_entry;
      finish = false;
    } in
    let s = load_loop d.root_sector_count d.root_start_sector d.root_entries disk tmp start in
    record d { root_dir = s.table; root_dir_dirty = false }
