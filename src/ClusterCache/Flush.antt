-- ===== src/ClusterCache/Flush.antt =====
-- `flush_all_cache` keeps the contents of the clusters and brings them to the disk.
use sysu_os.Base.{
  ℕ, zero, suc, ◌+◌, ◌<◌, ◌≤◌, ◌==◌, ◌≡◌, refl, sym, ap, ◌∙◌, subst, Bool, true, false, ◌&&◌,
  Bool-cases, inl, inr, arith, ==→eq,
}
use sysu_os.FatTable.{Buffer}
use sysu_os.ClusterCache.{FileSystem, write_cluster, flush_loop, flush_all_cache, max_cache}
use sysu_os.ClusterCache.View.{cluster_size, disk, Agrees, IsCoherent, IsCache, Holds, IsKept}
use sysu_os.ClusterCache.Write.{write_cluster-IsWritten}

-- what `flush_loop` leaves, from the buffer `i` on
record IsFlushed (fs : FileSystem) (n i : ℕ) (ok : Bool) (fs' : FileSystem) : Type 0 where
  pub coherent : IsCoherent fs'
  pub kept : IsKept fs fs'
  pub tidy : ok ≡ true → (k : ℕ) → i ≤ k → k < i + n → (fs'.cache_pool k).dirty ≡ false
  pub counts : (k : ℕ) → (fs'.cache_pool k).refcount ≡ (fs.cache_pool k).refcount
  pub cleaner : (k : ℕ) → (fs'.cache_pool k).dirty ≡ true → (fs.cache_pool k).dirty ≡ true
  pub size : cluster_size fs' ≡ cluster_size fs

-- A buffer that was clean in between is clean at the end.
stays_clean : (a b : Bool) → (a ≡ true → b ≡ true) → b ≡ false → a ≡ false
stays_clean true b h e = absurd (ground (arith, sym e ∙ h refl))
stays_clean false b h e = refl

and_both : (a b : Bool) → (a && b) ≡ true → (a ≡ true) × (b ≡ true)
and_both true b h = (refl, h)
and_both false b h = (h, absurd (ground (arith, h)))

flush_loop-IsFlushed :
    (n i : ℕ) (fs : FileSystem)
    → i + n ≤ 64
    → IsCoherent fs
    → IsFlushed fs n i (flush_loop n i fs).0 (flush_loop n i fs).1
unfolding flush_loop
flush_loop-IsFlushed zero i fs fits coherent = record {
  coherent = coherent;
  kept = λ c f real h. h;
  tidy = λ e k low high. absurd (omega arith);
  counts = λ k. refl;
  cleaner = λ k e. e;
  size = refl;
}
flush_loop-IsFlushed (suc n) i fs fits coherent =
    let one = write_cluster-IsWritten fs i (omega arith) coherent in
    let fs' = (write_cluster i fs).1 in
    let ok = (write_cluster i fs).0 in
    let rest = flush_loop-IsFlushed n (i + 1) fs' (omega arith) one.coherent in
    record {
      coherent = rest.coherent;
      kept = λ c f real h. rest.kept c f real (one.kept c f real h);
      tidy = λ e k low high.
          let (this, others) = and_both ok (flush_loop n (i + 1) fs').0 e in
          elim (Bool-cases (k == i)) [
            | inl here ↦
                let at = ==→eq k i here in
                stays_clean ((flush_loop n (i + 1) fs').1.cache_pool k).dirty
                  (fs'.cache_pool k).dirty (rest.cleaner k)
                  (subst (λ j. (fs'.cache_pool j).dirty ≡ false) (sym at) (one.tidy this))
            | inr behind ↦ rest.tidy others k (ground arith) (omega arith)
          ];
      counts = λ k. rest.counts k ∙ one.counts k;
      cleaner = λ k e. one.cleaner k (rest.cleaner k e);
      size = rest.size ∙ one.shape.0;
    }

-- With every buffer clean, what a cluster holds is on the disk.
disk-Agrees :
    (fs : FileSystem) (c : ℕ) (f : Buffer)
    → IsCoherent fs
    → ((k : ℕ) → k < 64 → (fs.cache_pool k).dirty ≡ false)
    → 2 ≤ c
    → Holds fs c f
    → Agrees fs (disk fs c) f
disk-Agrees fs c f coherent tidy real (inr (uncached, agrees)) o inside = agrees o inside
disk-Agrees fs c f coherent tidy real (inl (i, small, num, agrees)) o inside =
    let real' = subst (λ n. 2 ≤ n) (sym num) real in
    ap (λ n. disk fs n o) (sym num)
    ∙ sym (coherent.clean i small real' (tidy i small) o inside)
    ∙ agrees o inside

-- `flush_all_cache` keeps a well-formed cache and the contents of all clusters, and where it answers
-- true, every cluster has its contents on the disk.
pub flush_all_cache-disk :
    (fs : FileSystem)
    → IsCache fs
    → IsCache (flush_all_cache fs).1
      × IsKept fs (flush_all_cache fs).1
      × ((flush_all_cache fs).0 ≡ true
          → (c : ℕ) (f : Buffer) → 2 ≤ c
          → Holds fs c f
          → Agrees fs (disk (flush_all_cache fs).1 c) f)
unfolding flush_all_cache
flush_all_cache-disk fs cache =
    let all = flush_loop-IsFlushed max_cache 0 fs (omega arith) cache.0 in
    let fs' = (flush_loop max_cache 0 fs).1 in
    (
      (
        all.coherent,
        λ i small free.
            stays_clean (fs'.cache_pool i).dirty (fs.cache_pool i).dirty (all.cleaner i)
              (cache.1 i small (sym (all.counts i) ∙ free)),
      ),
      all.kept,
      λ ok c f real h o inside.
          disk-Agrees fs' c f all.coherent (λ k small. all.tidy ok k (omega arith) (omega arith))
            real (all.kept c f real h) o (subst (λ n. o < n) (sym all.size) inside),
    )
