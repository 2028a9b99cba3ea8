-- ===== src/FileAppend.antt =====
-- `FAT12_FS::append` of src/kernel/fileSys/fat12_fs.cpp, over the cluster cache, the allocation table,
-- the root directory and the entries of directories. The inode is one of this file system, not the
-- null pointer, and a negative size is answered as 0 is. Every byte of `tmp_sector_buffer` is set
-- before it is written, so what is left in it is not followed. `halted` is a `PANIC`; a chain that
-- does not end runs out of fuel: `spent`.
pub mod Chains
pub mod Fill
pub mod Within
pub mod Kept
pub mod Grow
pub mod Extend
mod Examples
use sysu_os.Base.{
  ℕ, zero, suc, ◌+◌, ◌-◌, ◌*◌, ◌%◌, ◌^◌, ◌==◌, ltb, leb, min, Bool, true, false, not, ◌&&◌, ◌||◌,
  if◌then◌else◌, Option, none, some,
}
use mathlib.Core.Option.{map}
use sysu_os.FatTable.{Buffer, Table, put, allocate_cluster, free_cluster, flush_fat_table}
use sysu_os.ClusterCache.{
  FileSystem, Cached, null, panic, cached, put_buffer, get_cache, write_cluster, release_cache,
}
use sysu_os.ClusterCache.View.{cluster_size}
use sysu_os.DirEntry.{EntryBuf, load_sfn, store_sfn}
use sysu_os.DirEntry
use sysu_os.RootDir.{RootDir, entry_bytes, fresh}
use sysu_os.FileWrite.{edit_buffer}

-- `fat12_entry_location`
pub record Location : Type 0 where
  pub is_root : Bool
  pub current_cluster : ℕ
  pub entry_index_in_cluster : ℕ
  pub root_index : ℕ

-- the members of `fat12_inode` that `append` uses, with whether it is a directory or a volume label
pub record Inode : Type 0 where
  pub start_cluster : ℕ
  pub size : ℕ
  pub no_file : Bool
  pub location : Location

-- the members of `FAT12_FS`
pub record Volume : Type 0 where
  pub fs : FileSystem
  pub fat_table : Table
  pub fat_table_dirty : Bool
  pub tmp_sector_buffer : Buffer
  pub cluster_count : ℕ
  pub fat_size : ℕ
  pub reserved_sector_count : ℕ
  pub root : RootDir

pub data Appending : Type 0 where
  done : ℕ → Volume → Inode → Appending
  refused : Volume → Appending
  spent : Appending
  halted : Appending

-- the last entry of a chain
abbrev pub end_of_chain : ℕ
end_of_chain = 0xfff

abbrev pub set_table : Volume → Table → Volume
set_table v t = record v { fat_table = t; fat_table_dirty = true }

abbrev pub set_fs : Volume → FileSystem → Volume
set_fs v fs = record v { fs = fs }

pub flush : Volume → Bool × Volume
flush v =
    let (ok, d) =
      flush_fat_table v.fat_size v.reserved_sector_count v.fat_table v.fs.device
        v.tmp_sector_buffer in
    (ok, set_fs v (record v.fs { device = d }))

-- the first cluster of an empty file; `none` is the -1
pub first_cluster : Volume → Inode → Option Inode × Volume
first_cluster v node =
    let first = allocate_cluster v.cluster_count v.fat_table in
    let (ok, v') = flush (set_table v (put v.fat_table first end_of_chain)) in
    if not (node.start_cluster == 0)
    then (some node, v)
    else if first == 0
    then (none, v)
    else if ok
    then (some (record node { start_cluster = first }), v')
    else (none, set_table v' (free_cluster v'.fat_table first))

-- the walk to the last cluster
pub last_loop : ℕ → Table → ℕ → Option ℕ
last_loop zero table cluster = none
last_loop (suc fuel) table cluster =
    let rest = last_loop fuel table (table cluster) in
    if leb 2 (table cluster) && ltb (table cluster) 4088 then rest else some cluster

-- a change of a buffer, `write_cluster` and `release_cache`: whether the cluster was written; `none` is
-- a `PANIC`
abbrev pub fill_buffer :
    (ℕ → FileSystem → FileSystem) → Cached × FileSystem → Option (Bool × FileSystem)
fill_buffer edit (null, fs) = none
fill_buffer edit (panic, fs) = none
fill_buffer edit (cached idx, fs) =
    let (ok, fs') = write_cluster idx (edit idx fs) in
    map (λ fs''. (ok, fs'')) (release_cache idx fs')

pub fill_cluster : ℕ → (ℕ → FileSystem → FileSystem) → FileSystem → Option (Bool × FileSystem)
fill_cluster cluster edit fs = fill_buffer edit (get_cache cluster fs)

-- a new cluster is filled with 0 first
abbrev pub fill_new : ℕ → ℕ → Buffer → ℕ → FileSystem → FileSystem
fill_new from n src idx fs =
    edit_buffer idx 0 from n src (edit_buffer idx 0 0 (cluster_size fs) (λ o. 0) fs)

pub data Growing : Type 0 where
  grown : ℕ → Volume → Growing
  no_fuel : Growing
  stuck : Growing

-- the next round of the loop over new clusters
abbrev pub grow_next : (FileSystem → Growing) → ℕ → Volume → Option (Bool × FileSystem) → Growing
grow_next go count v none = stuck
grow_next go count v (some (ok, fs)) = if ok then go fs else grown count (set_fs v fs)

abbrev pub grow_flushed : (Volume → Growing) → (Volume → Growing) → Bool × Volume → Growing
grow_flushed go stop (ok, v) = if ok then go v else stop v

-- the loop over new clusters; `count` bytes are appended already, `size` are left
pub grow_loop : ℕ → ℕ → ℕ → ℕ → Buffer → Volume → Growing
grow_loop zero size count cluster src v = no_fuel
grow_loop (suc fuel) size count cluster src v =
    let new = allocate_cluster v.cluster_count v.fat_table in
    let chunk = min size (cluster_size v.fs) in
    let go = λ (v' : Volume).
      grow_next (λ fs. grow_loop fuel (size - chunk) (count + chunk) new src (set_fs v' fs))
        (count + chunk) v' (fill_cluster new (fill_new count chunk src) v'.fs) in
    let stop = λ (v' : Volume).
      grown count (set_table v' (put (free_cluster v'.fat_table new) cluster end_of_chain)) in
    let round =
      grow_flushed go stop
        (flush (set_table v (put (put v.fat_table cluster new) new end_of_chain))) in
    if size == 0 || new == 0 then grown count v else round

abbrev pub grow_rest : ℕ → ℕ → ℕ → Buffer → Volume → Option (Bool × FileSystem) → Growing
grow_rest size chunk cluster src v none = stuck
grow_rest size chunk cluster src v (some (ok, fs)) =
    let left = if ok then size - chunk else 0 in
    grow_loop (left + 1) left chunk cluster src (set_fs v fs)

-- the bytes behind the last cluster that is found
pub fill_and_grow : Inode → ℕ → ℕ → Buffer → Volume → Growing
fill_and_grow node size cluster src v =
    let used = node.size % cluster_size v.fs in
    let chunk = min size (cluster_size v.fs - used) in
    grow_rest size chunk cluster src v
      (fill_cluster cluster (λ idx. edit_buffer idx used 0 chunk src) v.fs)

-- the entry of a directory in a buffer takes the first cluster and the size; `write` answers true
-- for an entry that stays
abbrev pub store_size : Inode → Buffer → Option Buffer
store_size node buf =
    let p = node.location.entry_index_in_cluster * entry_bytes in
    let (ok, b) = DirEntry.read fresh (load_sfn buf p) in
    let e = record b.entry { start_cluster = node.start_cluster; file_size = node.size } in
    let (sfn, b') = DirEntry.write (record b { entry = e }) (load_sfn buf p) false in
    if ok then some (store_sfn buf p sfn) else none

abbrev pub release_stored : ℕ → FileSystem → Option Buffer → Option FileSystem
release_stored idx fs none = none
release_stored idx fs (some buf) =
    let b = record (fs.cache_pool idx) { buf = buf; dirty = true } in
    release_cache idx (record fs { cache_pool = put_buffer fs.cache_pool idx b })

abbrev pub update_cached : Inode → Cached × FileSystem → Option FileSystem
update_cached node (null, fs) = none
update_cached node (panic, fs) = none
update_cached node (cached idx, fs) =
    release_stored idx fs (store_size node (fs.cache_pool idx).buf)

abbrev pub update_root : Inode → RootDir → RootDir
update_root node d =
    let at = node.location.root_index in
    let e = record (d.root_dir at) { start_cluster = node.start_cluster; file_size = node.size } in
    record d { root_dir = λ k. if k == at then e else d.root_dir k; root_dir_dirty = true }

-- the entry of the file; `none` is a `PANIC`
pub update_entry : Inode → Volume → Option Volume
update_entry node v =
    if node.location.is_root
    then some (record v { root = update_root node v.root })
    else map (set_fs v) (update_cached node (get_cache node.location.current_cluster v.fs))

abbrev pub updated : ℕ → Inode → Option Volume → Appending
updated count node none = halted
updated count node (some v) = done count v node

abbrev pub finish : Inode → Growing → Appending
finish node no_fuel = spent
finish node stuck = halted
finish node (grown count v) =
    let node' = record node { size = (node.size + count) % 2 ^ 32 } in
    let update = updated count node' (update_entry node' v) in
    if ltb 0 count then update else done count v node

abbrev pub from_last : Inode → ℕ → Buffer → Volume → Option ℕ → Appending
from_last node size src v none = spent
from_last node size src v (some cluster) = finish node (fill_and_grow node size cluster src v)

abbrev pub from_first : ℕ → Buffer → Option Inode × Volume → Appending
from_first size src (none, v) = refused v
from_first size src (some node, v) =
    from_last node size src v (last_loop v.cluster_count v.fat_table node.start_cluster)

pub append : Inode → ℕ → Buffer → Volume → Appending
append node size src v =
    let appending = from_first size src (first_cluster v node) in
    if node.start_cluster == 1 || node.no_file
    then refused v
    else if size == 0
    then done 0 v node
    else appending
