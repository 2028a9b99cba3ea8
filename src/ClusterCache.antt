-- ===== src/ClusterCache.antt =====
-- The cluster cache of src/kernel/fileSys/fat12_fs.cpp: `read_cluster` and `write_cluster` of
-- `fat12_cluster_buffer`, `find_cache`, `get_cache`, `release_cache`, `flush_cache` and
-- `flush_all_cache`. A pointer to a buffer is its index in the pool. The disk is the one of FatTable;
-- a sector has 512 bytes, since `mount` refuses any other. A `PANIC` stops the kernel: it is `panic`,
-- or `none`. A reference count is a natural number; the code tests `<= 0` and never goes below 0.
pub mod Sectors
pub mod View
pub mod Changed
pub mod Write
pub mod Release
pub mod Flush
pub mod Replace
pub mod Load
pub mod Get
pub mod Place
mod Examples
use sysu_os.Base.{
  ℕ, zero, suc, ◌+◌, ◌-◌, ◌*◌, ◌%◌, ◌^◌, ◌==◌, ltb, leb, Bool, true, false, ◌&&◌, ◌||◌,
  if◌then◌else◌, Option, none, some,
}
use sysu_os.FatTable.{Buffer, Device, sector_size, ide_read_sector, ide_write_sector}

-- `fat12_cluster_buffer`
pub record ClusterBuffer : Type 0 where
  pub cluster_num : ℕ
  pub last_used_time : ℕ
  pub buf : Buffer
  pub dirty : Bool
  pub refcount : ℕ

abbrev pub Pool : Type 0
Pool = ℕ → ClusterBuffer

-- the members of `FAT12_FS` that the cache uses, and its disk
pub record FileSystem : Type 0 where
  pub cache_pool : Pool
  pub device : Device
  pub access_time : ℕ
  pub data_start_sector : ℕ
  pub sectors_per_cluster : ℕ

-- `FAT12_MAX_CACHE`
abbrev pub max_cache : ℕ
max_cache = 64

abbrev pub put_buffer : Pool → ℕ → ClusterBuffer → Pool
put_buffer pool idx b i = if i == idx then b else pool i

-- `cluster2sector`; its three ASSERTs, of a cluster from 2 on, a `data_start_sector` and a
-- `sectors_per_cluster` that are not 0, are left out: `get_cache` answers no buffer for a cluster below
-- 2, `mount` refuses a disk with 0 sectors in a cluster, and data that start at sector 0 mean a disk
-- with neither boot sector nor allocation table.
pub cluster2sector : FileSystem → ℕ → ℕ
cluster2sector fs cluster = fs.data_start_sector + (cluster - 2) * fs.sectors_per_cluster

-- the loop of `read_cluster`, with `n` sectors left
pub read_sectors : ℕ → ℕ → ℕ → Device → Buffer → Bool × Buffer
read_sectors zero i sector d buf = (true, buf)
read_sectors (suc n) i sector d buf =
    let (ok, buf') = ide_read_sector d (sector + i) buf (i * sector_size) in
    let rest = read_sectors n (i + 1) sector d buf' in if ok then rest else (false, buf')

-- the loop of `write_cluster`, with `n` sectors left
pub write_sectors : ℕ → ℕ → ℕ → Device → Buffer → Bool × Device
write_sectors zero i sector d buf = (true, d)
write_sectors (suc n) i sector d buf =
    let (ok, d') = ide_write_sector d (sector + i) buf (i * sector_size) in
    let rest = write_sectors n (i + 1) sector d' buf in if ok then rest else (false, d')

abbrev pub next_time : FileSystem → ℕ
next_time fs = (fs.access_time + 1) % 2 ^ 32

pub read_cluster : ℕ → FileSystem → Bool × FileSystem
read_cluster idx fs =
    let b = fs.cache_pool idx in
    let (ok, buf) =
      read_sectors fs.sectors_per_cluster 0 (cluster2sector fs b.cluster_num) fs.device b.buf in
    let b' : ClusterBuffer = record b {
      last_used_time = fs.access_time;
      buf = buf;
      dirty = if ok then false else b.dirty;
    } in
    (ok, record fs { cache_pool = put_buffer fs.cache_pool idx b'; access_time = next_time fs })

pub write_cluster : ℕ → FileSystem → Bool × FileSystem
write_cluster idx fs =
    let b = fs.cache_pool idx in
    let (ok, d) =
      write_sectors fs.sectors_per_cluster 0 (cluster2sector fs b.cluster_num) fs.device b.buf in
    let touched : ClusterBuffer = record b { last_used_time = fs.access_time } in
    let written : ClusterBuffer = record b {
      last_used_time = fs.access_time;
      dirty = if ok then false else true;
    } in
    if b.dirty
    then (
      ok,
      record fs {
        cache_pool = put_buffer fs.cache_pool idx written;
        device = d;
        access_time = next_time fs;
      },
    )
    else (
      true,
      record fs { cache_pool = put_buffer fs.cache_pool idx touched; access_time = next_time fs },
    )

-- the first buffer from `i` on, of `n`, that passes a test
pub first_buffer : (ClusterBuffer → Bool) → ℕ → ℕ → Pool → Option ℕ
first_buffer test zero i pool = none
first_buffer test (suc n) i pool =
    let rest = first_buffer test n (i + 1) pool in if test (pool i) then some i else rest

pub find_cache : ℕ → FileSystem → Option ℕ
find_cache cluster fs = first_buffer (λ b. b.cluster_num == cluster) max_cache 0 fs.cache_pool

pub data Cached : Type 0 where
  null panic : Cached
  cached : ℕ → Cached

abbrev pub loaded : ℕ → Bool × FileSystem → Cached × FileSystem
loaded idx (ok, fs) = (if ok then cached idx else panic, fs)

-- the buffer `idx` takes a cluster
pub load : ℕ → ℕ → FileSystem → Cached × FileSystem
load cluster idx fs =
    let b : ClusterBuffer = record (fs.cache_pool idx) {
      cluster_num = cluster;
      refcount = 1;
      dirty = false;
      last_used_time = fs.access_time;
    } in
    loaded idx (read_cluster idx (record fs { cache_pool = put_buffer fs.cache_pool idx b }))

abbrev pub miss : ℕ → FileSystem → Option ℕ → Cached × FileSystem
miss cluster fs none = (null, fs)
miss cluster fs (some idx) = load cluster idx fs

abbrev pub count_up : ℕ → FileSystem → FileSystem
count_up idx fs =
    let b : ClusterBuffer = record (fs.cache_pool idx) {
      refcount = (fs.cache_pool idx).refcount + 1;
    } in
    record fs { cache_pool = put_buffer fs.cache_pool idx b }

abbrev pub hit_or_miss : ℕ → FileSystem → Option ℕ → Cached × FileSystem
hit_or_miss cluster fs (some idx) = (cached idx, count_up idx fs)
hit_or_miss cluster fs none =
    miss cluster fs (first_buffer (λ b. b.refcount == 0) max_cache 0 fs.cache_pool)

pub get_cache : ℕ → FileSystem → Cached × FileSystem
get_cache cluster fs =
    if ltb cluster 2 || leb 4080 cluster
    then (null, fs)
    else hit_or_miss cluster fs (find_cache cluster fs)

abbrev pub written_back : Bool × FileSystem → Option FileSystem
written_back (ok, fs) = if ok then some fs else none

abbrev pub count_down : ℕ → FileSystem → FileSystem
count_down idx fs =
    let b : ClusterBuffer = record (fs.cache_pool idx) {
      refcount = (fs.cache_pool idx).refcount - 1;
    } in
    record fs { cache_pool = put_buffer fs.cache_pool idx b }

-- `write_cluster` has reset `dirty` when it succeeds
pub release_cache : ℕ → FileSystem → Option FileSystem
release_cache idx fs =
    let b = fs.cache_pool idx in
    let fs' = count_down idx fs in
    if b.refcount == 0
    then some fs
    else if b.refcount == 1 && b.dirty
    then written_back (write_cluster idx fs')
    else some fs'

abbrev pub flush_at : FileSystem → Option ℕ → Bool × FileSystem
flush_at fs none = (true, fs)
flush_at fs (some idx) = write_cluster idx fs

pub flush_cache : ℕ → FileSystem → Bool × FileSystem
flush_cache cluster fs = flush_at fs (find_cache cluster fs)

pub flush_loop : ℕ → ℕ → FileSystem → Bool × FileSystem
flush_loop zero i fs = (true, fs)
flush_loop (suc n) i fs =
    let (ok, fs') = write_cluster i fs in
    let (res, fs'') = flush_loop n (i + 1) fs' in (ok && res, fs'')

pub flush_all_cache : FileSystem → Bool × FileSystem
flush_all_cache fs = flush_loop max_cache 0 fs
