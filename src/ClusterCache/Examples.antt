-- ===== src/ClusterCache/Examples.antt =====
-- The cache of a file system with one buffer in use.
use sysu_os.Base.{ℕ, ◌≤◌, ◌==◌, ◌≡◌, refl, true, false, if◌then◌else◌, Bool-cases, inl, inr, arith}
use sysu_os.FatTable.{Buffer, Device}
use sysu_os.ClusterCache.{ClusterBuffer, FileSystem, get_cache, release_cache, flush_all_cache}
use sysu_os.ClusterCache.View.{Agrees, disk, Holds, IsKept, IsCache}
use sysu_os.ClusterCache.Release.{IsReleased, release_cache-IsReleased}
use sysu_os.ClusterCache.Flush.{flush_all_cache-disk}
use sysu_os.ClusterCache.Load.{IsGot}
use sysu_os.ClusterCache.Get.{get_cache-IsGot}

abbrev zeros : Device
zeros = record { sectors = λ lba o. 0; answers = λ lba. true }

abbrev empty : ClusterBuffer
empty = record { cluster_num = 0; last_used_time = 0; buf = λ o. 0; dirty = false; refcount = 0 }

-- cluster 5, with other bytes than the disk
abbrev in_use : ClusterBuffer
in_use = record { cluster_num = 5; last_used_time = 1; buf = λ o. 7; dirty = true; refcount = 1 }

abbrev one_dirty : FileSystem
one_dirty = record {
  cache_pool = λ i. if i == 3 then in_use else empty;
  device = zeros;
  access_time = 2;
  data_start_sector = 33;
  sectors_per_cluster = 1;
}

one_dirty_num : (i : ℕ) → (one_dirty.cache_pool i).cluster_num ≡ (if i == 3 then 5 else 0)
one_dirty_num i = elim (Bool-cases (i == 3)) [ inl here ↦ rw here refl | inr other ↦ rw other refl ]

one_dirty_dirty : (i : ℕ) → (one_dirty.cache_pool i).dirty ≡ (i == 3)
one_dirty_dirty i = elim (Bool-cases (i == 3)) [
  | inl here ↦ rw here refl
  | inr other ↦ rw other refl
]

one_dirty_refcount : (i : ℕ) → (one_dirty.cache_pool i).refcount ≡ (if i == 3 then 1 else 0)
one_dirty_refcount i = elim (Bool-cases (i == 3)) [
  | inl here ↦ rw here refl
  | inr other ↦ rw other refl
]

one_dirty-IsCache : IsCache one_dirty
one_dirty-IsCache = (
  record {
    distinct = λ i j small small' real e. ground (arith, one_dirty_num i, one_dirty_num j, real, e);
    used = λ i small dirty. ground (arith, one_dirty_num i, one_dirty_dirty i, dirty);
    clean = λ i small real tidy o inside.
        absurd (ground (arith, one_dirty_num i, one_dirty_dirty i, tidy, real));
  },
  λ i small free. ground (arith, one_dirty_refcount i, one_dirty_dirty i, free),
)

get_cache-IsGot_example : IsGot one_dirty 9 (get_cache 9 one_dirty).0 (get_cache 9 one_dirty).1
get_cache-IsGot_example = get_cache-IsGot one_dirty 9 (omega arith) one_dirty-IsCache (omega arith)

release_cache-IsReleased_example : IsReleased one_dirty 3 (release_cache 3 one_dirty)
release_cache-IsReleased_example =
    release_cache-IsReleased one_dirty 3 (omega arith) one_dirty-IsCache

flush_all_cache-disk_example :
    IsCache (flush_all_cache one_dirty).1
    × IsKept one_dirty (flush_all_cache one_dirty).1
    × ((flush_all_cache one_dirty).0 ≡ true
        → (c : ℕ) (f : Buffer) → 2 ≤ c
        → Holds one_dirty c f
        → Agrees one_dirty (disk (flush_all_cache one_dirty).1 c) f)
flush_all_cache-disk_example = flush_all_cache-disk one_dirty one_dirty-IsCache
