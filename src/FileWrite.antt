-- ===== src/FileWrite.antt =====
-- `FAT12_FS::write` of src/kernel/fileSys/fat12_fs.cpp, which changes bytes within a file, over the
-- cluster cache and the allocation table. Sizes, offsets and the inode are as for `read` in FileData,
-- and so is the walk to the offset. `halted` is a `PANIC`, `refused` the result -1, and a write that
-- never ends runs out of fuel: `spent`.
pub mod Edit
pub mod Bytes
pub mod Loop
pub mod ReadBack
mod Examples
use sysu_os.Base.{
  ℕ, zero, suc, ◌+◌, ◌-◌, ◌%◌, ◌==◌, ltb, leb, min, Bool, true, false, ◌&&◌, ◌||◌, if◌then◌else◌,
  Option, none, some,
}
use sysu_os.FatTable.{Buffer, Table}
use sysu_os.ClusterCache.{
  FileSystem, Cached, null, panic, cached, put_buffer, get_cache, release_cache,
}
use sysu_os.ClusterCache.View.{cluster_size}
use sysu_os.FileData.{memcpy, Inode, seek_loop}

-- what comes of a change of a cluster: no buffer, a panic, or the changed file system
pub data Edited : Type 0 where
  missing : FileSystem → Edited
  stopped : Edited
  edited : FileSystem → Edited

-- `memcpy` of `n` bytes of `src + from` to `buf + at`, and `dirty = true`
abbrev pub edit_buffer : ℕ → ℕ → ℕ → ℕ → Buffer → FileSystem → FileSystem
edit_buffer idx at from n src fs = record fs {
  cache_pool = put_buffer fs.cache_pool idx (record (fs.cache_pool idx) {
    buf = memcpy (fs.cache_pool idx).buf at src from n;
    dirty = true;
  });
}

abbrev pub after_release : Option FileSystem → Edited
after_release none = stopped
after_release (some fs) = edited fs

abbrev pub edit_out : ℕ → ℕ → ℕ → Buffer → Cached × FileSystem → Edited
edit_out at from n src (null, fs) = missing fs
edit_out at from n src (panic, fs) = stopped
edit_out at from n src (cached idx, fs) =
    after_release (release_cache idx (edit_buffer idx at from n src fs))

-- `get_cache`, the change of the buffer and `release_cache` of a round
pub edit_cluster : ℕ → ℕ → ℕ → ℕ → Buffer → FileSystem → Edited
edit_cluster cluster at from n src fs = edit_out at from n src (get_cache cluster fs)

pub data Writing : Type 0 where
  wrote : ℕ → FileSystem → Writing
  refused : Writing
  spent : Writing
  halted : Writing

-- the next round of the last loop of `write`
abbrev pub continue : (FileSystem → Writing) → ℕ → Edited → Writing
continue go write_size (missing fs) = wrote write_size fs
continue go write_size stopped = halted
continue go write_size (edited fs) = go fs

-- the last loop of `write`; the length of a round is a `uint16`
pub write_loop : ℕ → Table → ℕ → ℕ → ℕ → Buffer → FileSystem → Writing
write_loop zero table size write_size cluster src fs = spent
write_loop (suc fuel) table size write_size cluster src fs =
    let chunk = min size (cluster_size fs) % 65536 in
    let round =
      continue
        (λ fs'. write_loop fuel table (size - chunk) (write_size + chunk) (table cluster) src fs')
        write_size (edit_cluster cluster 0 write_size chunk src fs) in
    if ltb 0 size && leb 2 cluster && ltb cluster 4088 then round else wrote write_size fs

abbrev pub continue_first : (FileSystem → Writing) → Edited → Writing
continue_first go (missing fs) = refused
continue_first go stopped = halted
continue_first go (edited fs) = go fs

-- `write` from the cluster of the offset on
pub write_at : Table → ℕ → ℕ → ℕ → Buffer → FileSystem → Writing
write_at table size offset cluster src fs =
    let left = cluster_size fs - offset in
    let last = continue_first (λ fs'. wrote size fs') (edit_cluster cluster offset 0 size src fs) in
    let more =
      continue_first (λ fs'. write_loop (size + 1) table (size - left) left (table cluster) src fs')
        (edit_cluster cluster offset 0 left src fs) in
    if ltb size left then last else more

abbrev pub found : Table → ℕ → Buffer → FileSystem → Option (ℕ × ℕ) → Writing
found table size src fs none = wrote 0 fs
found table size src fs (some (cluster, offset)) = write_at table size offset cluster src fs

pub write : Inode → Table → ℕ → ℕ → Buffer → FileSystem → Writing
write node table size offset src fs =
    let size' = if ltb node.size (size + offset) then node.size - offset else size in
    let writing =
      found table size' src fs
        (seek_loop (offset + 1) table (cluster_size fs) offset node.start_cluster) in
    if ltb node.start_cluster 2 || leb node.size offset || size == 0
    then wrote 0 fs
    else if node.no_file
    then refused
    else writing
