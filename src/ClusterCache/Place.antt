-- ===== src/ClusterCache/Place.antt =====
-- The clusters stay where they are on the disk: no operation moves `data_start_sector`.
use sysu_os.Base.{
  ℕ, ltb, leb, ◌==◌, ◌≡◌, refl, Bool, true, false, ◌&&◌, ◌||◌, Bool-cases, inl, inr, Option, none,
  some,
}
use sysu_os.ClusterCache.{
  FileSystem, read_cluster, write_cluster, find_cache, first_buffer, load, miss, hit_or_miss,
  get_cache, written_back, count_down, release_cache, max_cache,
}

abbrev pub IsInPlace : FileSystem → FileSystem → Type 0
IsInPlace fs fs' = fs'.data_start_sector ≡ fs.data_start_sector

-- the same for a result that may be a panic
abbrev pub IsAllInPlace : FileSystem → Option FileSystem → Type 0
IsAllInPlace fs none = Unit {0}
IsAllInPlace fs (some fs') = IsInPlace fs fs'

pub write_cluster-IsInPlace : (idx : ℕ) (fs : FileSystem) → IsInPlace fs (write_cluster idx fs).1
unfolding write_cluster
write_cluster-IsInPlace idx fs = elim (Bool-cases (fs.cache_pool idx).dirty) [
  | inl dirty ↦ rw dirty refl
  | inr tidy ↦ rw tidy refl
]

miss-IsInPlace : (cluster : ℕ) (fs : FileSystem) (o : Option ℕ) → IsInPlace fs (miss cluster fs o).1
unfolding load read_cluster
miss-IsInPlace cluster fs none = refl
miss-IsInPlace cluster fs (some idx) = refl

hit_or_miss-IsInPlace :
    (cluster : ℕ) (fs : FileSystem) (o : Option ℕ) → IsInPlace fs (hit_or_miss cluster fs o).1
hit_or_miss-IsInPlace cluster fs (some idx) = refl
hit_or_miss-IsInPlace cluster fs none =
    miss-IsInPlace cluster fs (first_buffer (λ b. b.refcount == 0) max_cache 0 fs.cache_pool)

pub get_cache-IsInPlace : (cluster : ℕ) (fs : FileSystem) → IsInPlace fs (get_cache cluster fs).1
unfolding get_cache
get_cache-IsInPlace cluster fs = elim (Bool-cases (ltb cluster 2 || leb 4080 cluster)) [
  | inl refused ↦ rw refused refl
  | inr real ↦ rw real (hit_or_miss-IsInPlace cluster fs (find_cache cluster fs))
]

written_back-IsInPlace :
    (fs : FileSystem) (r : Bool × FileSystem) → IsInPlace fs r.1 → IsAllInPlace fs (written_back r)
written_back-IsInPlace fs (true, fs') same = same
written_back-IsInPlace fs (false, fs') same = tt

pub release_cache-IsInPlace : (idx : ℕ) (fs : FileSystem) → IsAllInPlace fs (release_cache idx fs)
unfolding release_cache
release_cache-IsInPlace idx fs = elim (Bool-cases ((fs.cache_pool idx).refcount == 0)) [
  | inl free ↦ rw free refl
  | inr used ↦ elim (Bool-cases ((fs.cache_pool idx).refcount == 1 && (fs.cache_pool idx).dirty)) [
    | inl last ↦
        rw (used, last)
          (written_back-IsInPlace fs (write_cluster idx (count_down idx fs))
            (write_cluster-IsInPlace idx (count_down idx fs)))
    | inr more ↦ rw (used, more) refl
  ]
]
