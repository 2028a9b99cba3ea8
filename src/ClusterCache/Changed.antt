-- ===== src/ClusterCache/Changed.antt =====
-- A file system whose buffers or disk have changed: when it keeps the contents of the clusters.
use sysu_os.Base.{
  ℕ, ◌<◌, ◌≤◌, ◌==◌, ◌≡◌, ◌≢◌, refl, sym, ap, ◌∙◌, subst, true, false, Bool-cases, inl, inr, ==→eq,
  ==→ne,
}
use sysu_os.FatTable.{Buffer, Device}
use sysu_os.ClusterCache.{ClusterBuffer, FileSystem, Pool, put_buffer, cluster2sector}
use sysu_os.ClusterCache.View.{
  disk, Agrees, IsCoherent, IsKept, put_buffer-same, put_buffer-other, put_buffer-field, changed,
}

-- the buffers of another pool stand for the same clusters
abbrev pub IsSamePool : FileSystem → Pool → Type 0
IsSamePool fs pool =
    (i : ℕ)
    → ((pool i).cluster_num ≡ (fs.cache_pool i).cluster_num)
      × ((pool i).buf ≡ (fs.cache_pool i).buf)

-- Another disk has the same clusters, but for the one of a buffer.
abbrev pub IsSameDisk : FileSystem → ℕ → FileSystem → Type 0
IsSameDisk fs idx fs' =
    (c : ℕ) → 2 ≤ c → c ≢ (fs.cache_pool idx).cluster_num → Agrees fs (disk fs' c) (disk fs c)

pub Holds-changed :
    (fs : FileSystem) (pool : Pool) (d : Device) (time idx : ℕ)
    → idx < 64
    → IsSamePool fs pool
    → IsSameDisk fs idx (changed fs pool d time)
    → IsKept fs (changed fs pool d time)
Holds-changed fs pool d time idx less same away c f real (inl (i, small, num, agrees)) =
    inl (
      i,
      small,
      (same i).0 ∙ num,
      λ o inside. ap (λ (b : Buffer). b o) (same i).1 ∙ agrees o inside,
    )
Holds-changed fs pool d time idx less same away c f real (inr (uncached, agrees)) = inr (
  (λ i small e. uncached i small (sym (same i).0 ∙ e)),
  λ o inside. away c real (λ e. uncached idx less (sym e)) o inside ∙ agrees o inside,
)

module _ (fs : FileSystem) (pool : Pool) (d : Device) (time idx : ℕ) (less : idx < 64)
    (coherent : IsCoherent fs) (same : IsSamePool fs pool)
    (away : IsSameDisk fs idx (changed fs pool d time))
    (cleaner : (i : ℕ) → (pool i).dirty ≡ true → (fs.cache_pool i).dirty ≡ true)
    (others : (i : ℕ) → i ≢ idx → (pool i).dirty ≡ (fs.cache_pool i).dirty)
    (written : (pool idx).dirty ≡ false
      → 2 ≤ (fs.cache_pool idx).cluster_num
      → Agrees fs
          (fs.cache_pool idx).buf
          (disk (changed fs pool d time) (fs.cache_pool idx).cluster_num)) where
  -- A buffer that has not changed is its cluster on the new disk.
  clean-changed :
      (i : ℕ)
      → i < 64
      → 2 ≤ (fs.cache_pool i).cluster_num
      → (pool i).dirty ≡ false
      → Agrees fs
          (fs.cache_pool i).buf
          (disk (changed fs pool d time) (fs.cache_pool i).cluster_num)
  clean-changed i small real tidy o inside = elim (Bool-cases (i == idx)) [
    | inl here ↦
        let e = ==→eq i idx here in
        let real' = subst (λ k. 2 ≤ (fs.cache_pool k).cluster_num) e real in
        let tidy' = subst (λ k. (pool k).dirty ≡ false) e tidy in
        subst
          (λ k.
            (fs.cache_pool k).buf o ≡ disk (changed fs pool d time) (fs.cache_pool k).cluster_num o)
          (sym e) (written tidy' real' o inside)
    | inr more ↦
        let apart = ==→ne i idx more in
        coherent.clean i small real (sym (others i apart) ∙ tidy) o inside
        ∙ sym (
            away (fs.cache_pool i).cluster_num real
              (λ e. apart (coherent.distinct i idx small less real e)) o inside)
  ]

  pub IsCoherent-changed : IsCoherent (changed fs pool d time)
  IsCoherent-changed = record {
    distinct = λ i j small small' real e.
        coherent.distinct i j small small' (subst (λ n. 2 ≤ n) (same i).0 real)
          (sym (same i).0 ∙ e ∙ (same j).0);
    used = λ i small dirty.
        subst (λ n. 2 ≤ n) (sym (same i).0) (coherent.used i small (cleaner i dirty));
    clean = λ i small real tidy o inside.
        ap (λ (b : Buffer). b o) (same i).1
        ∙ clean-changed i small (subst (λ n. 2 ≤ n) (same i).0 real) tidy o inside
        ∙ ap (λ n. disk (changed fs pool d time) n o) (sym (same i).0);
  }

-- the file system with another reference count of a buffer
abbrev pub recounted : FileSystem → ℕ → ℕ → FileSystem
recounted fs idx r = record fs {
  cache_pool = put_buffer fs.cache_pool idx (record (fs.cache_pool idx) { refcount = r });
}

module _ (fs : FileSystem) (idx r : ℕ) where
  pub recounted-IsSamePool : IsSamePool fs (recounted fs idx r).cache_pool
  recounted-IsSamePool i =
      let b : ClusterBuffer = record (fs.cache_pool idx) { refcount = r } in
      (
        put_buffer-field (λ b. b.cluster_num) fs.cache_pool idx i b refl,
        put_buffer-field (λ b. b.buf) fs.cache_pool idx i b refl,
      )

  pub recounted_dirty :
      (i : ℕ) → ((recounted fs idx r).cache_pool i).dirty ≡ (fs.cache_pool i).dirty
  recounted_dirty i =
      put_buffer-field (λ b. b.dirty) fs.cache_pool idx i
        (record (fs.cache_pool idx) { refcount = r }) refl

  pub recounted_here : ((recounted fs idx r).cache_pool idx).refcount ≡ r
  recounted_here =
      ap (λ (b : ClusterBuffer). b.refcount)
        (put_buffer-same fs.cache_pool idx (record (fs.cache_pool idx) { refcount = r }))

  pub recounted_others :
      (i : ℕ) → i ≢ idx → ((recounted fs idx r).cache_pool i).refcount ≡ (fs.cache_pool i).refcount
  recounted_others i apart =
      ap (λ (b : ClusterBuffer). b.refcount)
        (put_buffer-other fs.cache_pool idx i (record (fs.cache_pool idx) { refcount = r }) apart)

  recounted-IsSameDisk : IsSameDisk fs idx (recounted fs idx r)
  unfolding cluster2sector
  recounted-IsSameDisk c real apart o inside = refl

  pub recounted-IsKept : idx < 64 → IsKept fs (recounted fs idx r)
  recounted-IsKept less =
      Holds-changed fs (recounted fs idx r).cache_pool fs.device fs.access_time idx less
        recounted-IsSamePool recounted-IsSameDisk

  recounted_clean :
      IsCoherent fs
      → idx < 64
      → ((recounted fs idx r).cache_pool idx).dirty ≡ false
      → 2 ≤ (fs.cache_pool idx).cluster_num
      → Agrees fs
          (fs.cache_pool idx).buf
          (disk (recounted fs idx r) (fs.cache_pool idx).cluster_num)
  unfolding cluster2sector
  recounted_clean coherent less tidy real =
      coherent.clean idx less real (sym (recounted_dirty idx) ∙ tidy)

  pub recounted-IsCoherent : idx < 64 → IsCoherent fs → IsCoherent (recounted fs idx r)
  recounted-IsCoherent less coherent =
      IsCoherent-changed fs (recounted fs idx r).cache_pool fs.device fs.access_time idx less
        coherent recounted-IsSamePool recounted-IsSameDisk (λ i e. sym (recounted_dirty i) ∙ e)
        (λ i apart. recounted_dirty i) (recounted_clean coherent less)
