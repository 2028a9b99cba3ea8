-- ===== src/FileData.antt =====
-- `FAT12_FS::read` of src/kernel/fileSys/fat12_fs.cpp, over the cluster cache and the allocation
-- table. Sizes and offsets are numbers from 0 on: the code compares a negative offset, as an
-- unsigned number, with the size of the file and answers 0, so its -1 for such an offset is never
-- reached; it answers 0 for a negative size too. The sum of offset and size is taken to fit an
-- `int`. The inode is one of this file system, not the null pointer. `halted` is a `PANIC`; the
-- result -1 is `refused`. A read that never ends runs out of fuel: `spent`.
pub mod Copy
pub mod Chain
pub mod Joined
pub mod Read
pub mod Sample
mod Examples
use sysu_os.Base.{
  ℕ, zero, suc, ◌+◌, ◌-◌, ◌*◌, ◌%◌, ◌==◌, ltb, leb, min, Bool, true, false, not, ◌&&◌, ◌||◌,
  if◌then◌else◌, Option, none, some,
}
use sysu_os.FatTable.{Buffer, Table}
use sysu_os.ClusterCache.{FileSystem, Cached, null, panic, cached, get_cache, release_cache}
use sysu_os.ClusterCache.View.{cluster_size}

-- `memcpy(out + at, buf + from, n)`
abbrev pub memcpy : Buffer → ℕ → Buffer → ℕ → ℕ → Buffer
memcpy out at buf from n o = if leb at o && ltb o (at + n) then buf (from + (o - at)) else out o

-- what comes of the copy out of a cluster: no buffer, a panic, or the copy
pub data Copied : Type 0 where
  missing : FileSystem → Copied
  stopped : Copied
  copied : Buffer → FileSystem → Copied

abbrev pub after_release : Buffer → Option FileSystem → Copied
after_release out none = stopped
after_release out (some fs) = copied out fs

abbrev pub copy_out : ℕ → ℕ → ℕ → Buffer → Cached × FileSystem → Copied
copy_out at from n out (null, fs) = missing fs
copy_out at from n out (panic, fs) = stopped
copy_out at from n out (cached idx, fs) =
    after_release (memcpy out at (fs.cache_pool idx).buf from n) (release_cache idx fs)

-- `get_cache`, `memcpy` and `release_cache` of a round
pub copy_cluster : ℕ → ℕ → ℕ → ℕ → Buffer → FileSystem → Copied
copy_cluster cluster at from n out fs = copy_out at from n out (get_cache cluster fs)

pub data Reading : Type 0 where
  returned : ℕ → Buffer → FileSystem → Reading
  refused : Reading
  spent : Reading
  halted : Reading

-- the next round of the last loop of `read`
abbrev pub continue : (Buffer → FileSystem → Reading) → ℕ → Buffer → Copied → Reading
continue go read_size out (missing fs) = returned read_size out fs
continue go read_size out stopped = halted
continue go read_size out (copied out' fs) = go out' fs

-- the last loop of `read`; the length of a round is a `uint16`
pub read_loop : ℕ → Table → ℕ → ℕ → ℕ → Buffer → FileSystem → Reading
read_loop zero table size read_size cluster out fs = spent
read_loop (suc fuel) table size read_size cluster out fs =
    let chunk = min size (cluster_size fs) % 65536 in
    let round =
      continue
        (λ out' fs'.
          read_loop fuel table (size - chunk) (read_size + chunk) (table cluster) out' fs')
        read_size out (copy_cluster cluster read_size 0 chunk out fs) in
    if ltb 0 size && leb 2 cluster && ltb cluster 4088 then round else returned read_size out fs

-- the loop that walks to the cluster of the offset: the cluster and the offset in it
pub seek_loop : ℕ → Table → ℕ → ℕ → ℕ → Option (ℕ × ℕ)
seek_loop zero table size offset cluster = some (cluster, offset)
seek_loop (suc fuel) table size offset cluster =
    let rest = seek_loop fuel table size (offset - size) (table cluster) in
    if leb size offset
    then (if ltb cluster 2 || ltb 4088 cluster then none else rest)
    else some (cluster, offset)

abbrev pub continue_first : (Buffer → FileSystem → Reading) → Copied → Reading
continue_first go (missing fs) = refused
continue_first go stopped = halted
continue_first go (copied out fs) = go out fs

-- `read` from the cluster of the offset on
pub read_at : Table → ℕ → ℕ → ℕ → Buffer → FileSystem → Reading
read_at table size offset cluster out fs =
    let left = cluster_size fs - offset in
    let last =
      continue_first (λ out' fs'. returned size out' fs')
        (copy_cluster cluster 0 offset size out fs) in
    let more =
      continue_first
        (λ out' fs'. read_loop (size + 1) table (size - left) left (table cluster) out' fs')
        (copy_cluster cluster 0 offset left out fs) in
    if ltb size left then last else more

abbrev pub found : Table → ℕ → Buffer → FileSystem → Option (ℕ × ℕ) → Reading
found table size out fs none = returned 0 out fs
found table size out fs (some (cluster, offset)) = read_at table size offset cluster out fs

-- the members of `fat12_inode` that `read` uses, with whether it is a directory or a volume label
pub record Inode : Type 0 where
  pub start_cluster : ℕ
  pub size : ℕ
  pub no_file : Bool

pub read : Inode → Table → ℕ → ℕ → Buffer → FileSystem → Reading
read node table size offset out fs =
    let size' = if ltb node.size (size + offset) then node.size - offset else size in
    let reading =
      found table size' out fs
        (seek_loop (offset + 1) table (cluster_size fs) offset node.start_cluster) in
    if ltb node.start_cluster 2 || leb node.size offset || size == 0
    then returned 0 out fs
    else if node.no_file
    then refused
    else reading
