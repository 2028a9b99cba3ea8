-- ===== src/ClusterCache/Get.antt =====
-- `get_cache` finds or loads a cluster and keeps the contents of all clusters.
use sysu_os.Base.{
  ℕ, ◌+◌, ◌<◌, ◌≤◌, ◌==◌, ltb, leb, ◌||◌, ◌≡◌, ◌⊎◌, refl, sym, ◌∙◌, subst, Bool, true, false,
  if◌then◌else◌, inl, inr, arith, ==→eq, ==→ne, Option, none, some,
}
use sysu_os.ClusterCache.{
  ClusterBuffer, FileSystem, put_buffer, cluster2sector, next_time, miss, count_up, get_cache,
  find_cache, first_buffer, Cached, cached, max_cache,
}
use sysu_os.ClusterCache.View.{IsCache, IsUncached, changed}
use sysu_os.ClusterCache.Changed.{
  recounted, recounted_dirty, recounted_here, recounted_others, recounted-IsKept,
  recounted-IsCoherent, recounted-IsSamePool,
}
use sysu_os.ClusterCache.View.{first_buffer_lem}
use sysu_os.ClusterCache.Release.{IsBusy-changed}
use sysu_os.ClusterCache.Load.{
  IsGot, buffered-Agrees, read_sectors-IsFailing, fresh, reading, load_lem, loaded-IsGot,
  load-IsGot,
}

module _ (fs : FileSystem) (cluster : ℕ) (real : 2 ≤ cluster) (cache : IsCache fs) where
  miss-IsGot :
      IsUncached fs cluster
      → (o : Option ℕ)
      → (((k : ℕ) × (o ≡ some k) × (k < 0 + 64) × (((fs.cache_pool k).refcount == 0) ≡ true))
          ⊎ ((o ≡ none)
              × ((k : ℕ) → 0 ≤ k → k < 0 + 64 → ((fs.cache_pool k).refcount == 0) ≡ false)))
      → IsGot fs cluster (miss cluster fs o).0 (miss cluster fs o).1
  miss-IsGot uncached o (inl (k, found, less, free)) =
      let ok = (reading fs cluster k).0 in
      rw found (
        subst (λ (r : Cached × FileSystem). IsGot fs cluster r.0 r.1) (sym (load_lem fs cluster k))
          (loaded-IsGot fs
            (changed fs
              (put_buffer (put_buffer fs.cache_pool k (fresh fs cluster k)) k
                (record (fresh fs cluster k) {
                  buf = (reading fs cluster k).1;
                  dirty = if (reading fs cluster k).0 then false else false;
                }))
              fs.device (next_time fs))
            cluster k ok
            (λ done.
              load-IsGot fs cluster k less cache (==→eq (fs.cache_pool k).refcount 0 free) real
                uncached done)
            (read_sectors-IsFailing fs.sectors_per_cluster 0 (cluster2sector fs cluster) fs.device
              (fs.cache_pool k).buf)))
  miss-IsGot uncached o (inr (nothing, busy)) = rw nothing (
    refl,
    uncached,
    λ i small. ==→ne (fs.cache_pool i).refcount 0 (busy i (omega arith) (omega arith)),
  )

  hit-IsGot :
      (idx : ℕ)
      → idx < 64
      → (fs.cache_pool idx).cluster_num ≡ cluster
      → IsGot fs cluster (cached idx) (count_up idx fs)
  hit-IsGot idx less num =
      let r = (fs.cache_pool idx).refcount + 1 in
      let same : ((fs.cache_pool idx).cluster_num == cluster) ≡ true = ground arith in
      let coherent = recounted-IsCoherent fs idx r less cache.0 in
      let kept = recounted-IsKept fs idx r less in
      let busy =
        IsBusy-changed fs (recounted fs idx r) idx cache.1 (recounted_others fs idx r)
          (λ i e. sym (recounted_dirty fs idx r i) ∙ e)
          (λ e. absurd (omega (arith, sym (recounted_here fs idx r) ∙ e))) in
      let num' = (recounted-IsSamePool fs idx r idx).0 ∙ num in
      (
        less,
        (coherent, busy),
        kept,
        num',
        recounted_here fs idx r ∙ rw same refl,
        (λ f h.
            buffered-Agrees (recounted fs idx r) cluster idx f coherent less real num'
              (kept cluster f real h)),
        recounted_others fs idx r,
        (refl, refl),
      )

  -- `get_cache` of a cluster number below 0xFF0 in a well-formed cache. It answers a buffer that holds
  -- what the cluster holds and counts it up, or as 1 where it was loaded, and keeps a well-formed
  -- cache and the contents of all clusters; or it answers the null pointer and changes nothing, and
  -- then the cluster has no buffer and every buffer is in use; or it panics, and then a sector is not
  -- answered.
  pub get_cache-IsGot :
      cluster < 4080 → IsGot fs cluster (get_cache cluster fs).0 (get_cache cluster fs).1
  unfolding get_cache find_cache
  get_cache-IsGot low =
      let valid : (ltb cluster 2 || leb 4080 cluster) ≡ false = ground arith in
      let is_it : ClusterBuffer → Bool = λ b. b.cluster_num == cluster in
      let is_free : ClusterBuffer → Bool = λ b. b.refcount == 0 in
      rw valid (elim (first_buffer_lem is_it max_cache 0 fs.cache_pool) [
        | inl (k, found, less, it) ↦
            rw found (hit-IsGot k less (==→eq (fs.cache_pool k).cluster_num cluster it))
        | inr (nothing, others) ↦ rw nothing (
            miss-IsGot
              (λ i small.
                ==→ne (fs.cache_pool i).cluster_num cluster (others i (omega arith) (omega arith)))
              (first_buffer is_free max_cache 0 fs.cache_pool)
              (first_buffer_lem is_free max_cache 0 fs.cache_pool))
      ])
