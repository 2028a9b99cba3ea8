-- ===== src/ClusterCache/Replace.antt =====
-- A free buffer that takes a cluster from the disk.
use sysu_os.Base.{
  ℕ, ◌<◌, ◌≤◌, ◌==◌, ◌≡◌, ◌≢◌, ◌⊎◌, refl, sym, ap, ◌∙◌, subst, true, false, Bool-cases, inl, inr,
  arith, ==→eq, ==→ne,
}
use sysu_os.FatTable.{Buffer}
use sysu_os.ClusterCache.{ClusterBuffer, FileSystem, Pool, cluster2sector}
use sysu_os.ClusterCache.View.{
  disk, Agrees, IsBusy, IsCache, IsBuffered, IsUncached, Holds, IsKept, changed,
}

-- A free buffer that takes a cluster without a buffer.
module _ (fs : FileSystem) (cluster idx time : ℕ) (pool : Pool) (less : idx < 64)
    (cache : IsCache fs) (free : (fs.cache_pool idx).refcount ≡ 0) (real : 2 ≤ cluster)
    (uncached : IsUncached fs cluster) (others : (i : ℕ) → i ≢ idx → pool i ≡ fs.cache_pool i)
    (num : (pool idx).cluster_num ≡ cluster) (tidy : (pool idx).dirty ≡ false)
    (count : (pool idx).refcount ≡ 1) (read : Agrees fs (pool idx).buf (disk fs cluster)) where
  same_disk : (c : ℕ) → disk (changed fs pool fs.device time) c ≡ disk fs c
  unfolding cluster2sector
  same_disk c = refl

  still-IsUncached :
      (c : ℕ)
      → c ≢ cluster
      → ((i : ℕ) → i < 64 → i ≢ idx → (fs.cache_pool i).cluster_num ≢ c)
      → IsUncached (changed fs pool fs.device time) c
  still-IsUncached c apart unknown i small e = elim (Bool-cases (i == idx)) [
    | inl here ↦ apart (sym e ∙ ap (λ k. (pool k).cluster_num) (==→eq i idx here) ∙ num)
    | inr more ↦
        let away = ==→ne i idx more in
        unknown i small away (ap (λ (b : ClusterBuffer). b.cluster_num) (sym (others i away)) ∙ e)
  ]

  -- What a cluster other than the new one holds is as before, in its buffer or on the disk.
  kept_buffered :
      (c : ℕ) (f : Buffer) → 2 ≤ c → IsBuffered fs c f → Holds (changed fs pool fs.device time) c f
  kept_buffered c f real' (i, small, is_c, agrees) = elim (Bool-cases (i == idx)) [
    | inl here ↦
        let e = ==→eq i idx here in
        let apart : c ≢ cluster = λ h. uncached i small (is_c ∙ h) in
        let old_tidy = cache.1 idx less free in
        inr (
          still-IsUncached c apart (λ j small' away h. away (
              cache.0.distinct j idx small' less (subst (λ n. 2 ≤ n) (sym h) real')
                (h ∙ sym is_c ∙ ap (λ k. (fs.cache_pool k).cluster_num) e))),
          λ o inside.
              ap (λ (b : Buffer). b o) (same_disk c)
              ∙ ap (λ n. disk fs n o) (sym is_c)
              ∙ sym (
                  cache.0.clean i small (subst (λ n. 2 ≤ n) (sym is_c) real')
                    (subst (λ k. (fs.cache_pool k).dirty ≡ false) (sym e) old_tidy) o inside)
              ∙ agrees o inside,
        )
    | inr more ↦
        let away = ==→ne i idx more in
        inl (
          i,
          small,
          ap (λ (b : ClusterBuffer). b.cluster_num) (others i away) ∙ is_c,
          λ o inside. ap (λ (b : ClusterBuffer). b.buf o) (others i away) ∙ agrees o inside,
        )
  ]

  pub replaced-IsKept : IsKept fs (changed fs pool fs.device time)
  replaced-IsKept c f real' (inl buffered) = kept_buffered c f real' buffered
  replaced-IsKept c f real' (inr (unknown, agrees)) = elim (Bool-cases (c == cluster)) [
    | inl same ↦
        let e = ==→eq c cluster same in
        inl (
          idx,
          less,
          num ∙ sym e,
          λ o inside. read o inside ∙ ap (λ n. disk fs n o) (sym e) ∙ agrees o inside,
        )
    | inr other ↦ inr (
      still-IsUncached c (==→ne c cluster other) (λ i small away. unknown i small),
      λ o inside. ap (λ (b : Buffer). b o) (same_disk c) ∙ agrees o inside,
    )
  ]

  -- A buffer is the new one, or as it was.
  at_either : (i : ℕ) → ((i ≡ idx) × (pool i ≡ pool idx)) ⊎ ((i ≢ idx) × (pool i ≡ fs.cache_pool i))
  at_either i = elim (Bool-cases (i == idx)) [
    | inl here ↦ inl (==→eq i idx here, ap pool (==→eq i idx here))
    | inr more ↦ inr (==→ne i idx more, others i (==→ne i idx more))
  ]

  replaced_distinct :
      (i j : ℕ)
      → i < 64
      → j < 64
      → 2 ≤ (pool i).cluster_num
      → (pool i).cluster_num ≡ (pool j).cluster_num
      → i ≡ j
  replaced_distinct i j small small' real' e = elim (at_either i) [
    | inl (i_is, here) ↦ elim (at_either j) [
      | inl (j_is, here') ↦ i_is ∙ sym j_is
      | inr (away, same) ↦ absurd (
          uncached j small' (
            ap (λ (b : ClusterBuffer). b.cluster_num) (sym same)
            ∙ sym e
            ∙ ap (λ (b : ClusterBuffer). b.cluster_num) here
            ∙ num))
    ]
    | inr (away, same) ↦ elim (at_either j) [
      | inl (j_is, here') ↦ absurd (
          uncached i small (
            ap (λ (b : ClusterBuffer). b.cluster_num) (sym same)
            ∙ e
            ∙ ap (λ (b : ClusterBuffer). b.cluster_num) here'
            ∙ num))
      | inr (away', same') ↦
          cache.0.distinct i j small small'
            (subst (λ (b : ClusterBuffer). 2 ≤ b.cluster_num) same real')
            (ap (λ (b : ClusterBuffer). b.cluster_num) (sym same)
              ∙ e
              ∙ ap (λ (b : ClusterBuffer). b.cluster_num) same')
    ]
  ]

  replaced_clean :
      (i : ℕ)
      → i < 64
      → 2 ≤ (pool i).cluster_num
      → (pool i).dirty ≡ false
      → Agrees fs (pool i).buf (disk (changed fs pool fs.device time) (pool i).cluster_num)
  replaced_clean i small real' clean o inside = elim (at_either i) [
    | inl (i_is, here) ↦
        ap (λ (b : ClusterBuffer). b.buf o) here
        ∙ read o inside
        ∙ ap (λ n. disk fs n o) (sym num ∙ ap (λ (b : ClusterBuffer). b.cluster_num) (sym here))
        ∙ ap (λ (b : Buffer). b o) (sym (same_disk (pool i).cluster_num))
    | inr (away, same) ↦
        ap (λ (b : ClusterBuffer). b.buf o) same
        ∙ cache.0.clean i small (subst (λ (b : ClusterBuffer). 2 ≤ b.cluster_num) same real')
            (ap (λ (b : ClusterBuffer). b.dirty) (sym same) ∙ clean) o inside
        ∙ ap (λ n. disk fs n o) (ap (λ (b : ClusterBuffer). b.cluster_num) (sym same))
        ∙ ap (λ (b : Buffer). b o) (sym (same_disk (pool i).cluster_num))
  ]

  replaced_used : (i : ℕ) → i < 64 → (pool i).dirty ≡ true → 2 ≤ (pool i).cluster_num
  replaced_used i small dirty = elim (at_either i) [
    | inl (i_is, here) ↦
        absurd (ground (arith, sym (ap (λ (b : ClusterBuffer). b.dirty) here ∙ tidy) ∙ dirty))
    | inr (away, same) ↦
        subst (λ (b : ClusterBuffer). 2 ≤ b.cluster_num) (sym same)
          (cache.0.used i small (ap (λ (b : ClusterBuffer). b.dirty) (sym same) ∙ dirty))
  ]

  replaced-IsBusy : IsBusy (changed fs pool fs.device time)
  replaced-IsBusy i small unused = elim (at_either i) [
    | inl (i_is, here) ↦ ap (λ (b : ClusterBuffer). b.dirty) here ∙ tidy
    | inr (away, same) ↦
        ap (λ (b : ClusterBuffer). b.dirty) same
        ∙ cache.1 i small (ap (λ (b : ClusterBuffer). b.refcount) (sym same) ∙ unused)
  ]

  pub replaced-IsCache : IsCache (changed fs pool fs.device time)
  replaced-IsCache = (
    record { distinct = replaced_distinct; used = replaced_used; clean = replaced_clean },
    replaced-IsBusy,
  )
