-- ===== src/ClusterCache/Release.antt =====
-- `release_cache` keeps the contents of the clusters.
use sysu_os.Base.{
  ℕ, zero, suc, ◌+◌, ◌-◌, ◌*◌, ◌<◌, ◌==◌, ◌≡◌, ◌≢◌, refl, sym, ap, ◌∙◌, subst, Bool, true, false,
  ◌&&◌, if◌then◌else◌, Bool-cases, inl, inr, arith, ==→eq, ==→ne, Option, none, some,
}
use sysu_os.FatTable.{Buffer, Device, ide_write_sector, sector_size}
use sysu_os.ClusterCache.{
  FileSystem, cluster2sector, write_sectors, write_cluster, written_back, count_down, release_cache,
}
use sysu_os.ClusterCache.View.{IsBusy, IsCache, IsKept, IsSameShape}
use sysu_os.ClusterCache.Changed.{
  recounted, recounted_dirty, recounted_here, recounted_others, recounted-IsKept,
  recounted-IsCoherent,
}
use sysu_os.ClusterCache.Write.{IsWritten, write_dirty, write_clean, write_cluster-IsWritten}

-- a sector that the disk does not answer for
abbrev pub IsFailing : Device → Type 0
IsFailing d = (lba : ℕ) × (d.answers lba ≡ false)

write_sectors-IsFailing :
    (n i sector : ℕ) (d : Device) (buf : Buffer)
    → (write_sectors n i sector d buf).0 ≡ false
    → IsFailing d
unfolding write_sectors
write_sectors-IsFailing zero i sector d buf bad = absurd (ground (arith, bad))
write_sectors-IsFailing (suc n) i sector d buf bad =
    let d' = (ide_write_sector d (sector + i) buf (i * sector_size)).1 in
    let rest = write_sectors n (i + 1) sector d' buf in
    elim (Bool-cases (d.answers (sector + i))) [
      | inl hit ↦
          write_sectors-IsFailing n (i + 1) sector d' buf
            (sym (ap (λ b. (if b then rest else (false, d')).0) hit) ∙ bad)
      | inr miss ↦ (sector + i, miss)
    ]

pub write_cluster-IsFailing :
    (fs : FileSystem) (idx : ℕ) → (write_cluster idx fs).0 ≡ false → IsFailing fs.device
write_cluster-IsFailing fs idx bad =
    let b = fs.cache_pool idx in
    let sector = cluster2sector fs b.cluster_num in
    elim (Bool-cases b.dirty) [
      | inl dirty ↦
          write_sectors-IsFailing fs.sectors_per_cluster 0 sector fs.device b.buf
            (sym (ap (λ (r : Bool × FileSystem). r.0) (write_dirty fs idx dirty)) ∙ bad)
      | inr tidy ↦
          let same = sym (ap (λ (r : Bool × FileSystem). r.0) (write_clean fs idx tidy)) ∙ bad in
          absurd (ground (arith, same))
    ]

-- A buffer that nobody uses has not changed, if that holds of the one buffer whose count changed.
pub IsBusy-changed :
    (fs fs' : FileSystem) (idx : ℕ)
    → IsBusy fs
    → ((i : ℕ) → i ≢ idx → (fs'.cache_pool i).refcount ≡ (fs.cache_pool i).refcount)
    → ((i : ℕ) → (fs'.cache_pool i).dirty ≡ true → (fs.cache_pool i).dirty ≡ true)
    → ((fs'.cache_pool idx).refcount ≡ 0 → (fs'.cache_pool idx).dirty ≡ false)
    → IsBusy fs'
IsBusy-changed fs fs' idx busy counts cleaner here i small free = elim (Bool-cases (i == idx)) [
  | inl same ↦
      let e = ==→eq i idx same in
      subst (λ k. (fs'.cache_pool k).dirty ≡ false) (sym e)
        (here (subst (λ k. (fs'.cache_pool k).refcount ≡ 0) e free))
  | inr more ↦
      let old = busy i small (sym (counts i (==→ne i idx more)) ∙ free) in
      elim (Bool-cases (fs'.cache_pool i).dirty) [
        | inl dirty ↦ absurd (ground (arith, sym old ∙ cleaner i dirty))
        | inr tidy ↦ tidy
      ]
]

-- what `release_cache` leaves of a file system
abbrev pub IsReleased : FileSystem → ℕ → Option FileSystem → Type 0
IsReleased fs idx none = IsFailing fs.device
IsReleased fs idx (some fs') =
    IsCache fs'
    × IsKept fs fs'
    × ((fs'.cache_pool idx).refcount ≡ (fs.cache_pool idx).refcount - 1)
    × ((i : ℕ) → i ≢ idx → (fs'.cache_pool i).refcount ≡ (fs.cache_pool i).refcount)
    × IsSameShape fs fs'

module _ (fs : FileSystem) (idx : ℕ) (less : idx < 64) (cache : IsCache fs) where
  -- the state in which `release_cache` writes the buffer back
  written_back-IsReleased :
      (ok : Bool) (fs' : FileSystem)
      → (ok ≡ false → IsFailing fs.device)
      → IsWritten (recounted fs idx ((fs.cache_pool idx).refcount - 1)) idx ok fs'
      → IsReleased fs idx (written_back (ok, fs'))
  written_back-IsReleased false fs' failing w = failing refl
  written_back-IsReleased true fs' failing w =
      let r = (fs.cache_pool idx).refcount - 1 in
      (
        (
          w.coherent,
          IsBusy-changed fs fs' idx cache.1
              (λ i apart. w.counts i ∙ recounted_others fs idx r i apart)
              (λ i e. sym (recounted_dirty fs idx r i) ∙ w.cleaner i e) (λ e. w.tidy refl),
        ),
        (λ c f real h. w.kept c f real (recounted-IsKept fs idx r less c f real h)),
        w.counts idx ∙ recounted_here fs idx r,
        (λ i apart. w.counts i ∙ recounted_others fs idx r i apart),
        w.shape,
      )

  -- `release_cache` of a buffer keeps a well-formed cache and the contents of all clusters, counts the
  -- buffer down where it is in use, and writes it back if it has changed and nobody uses it any
  -- more; it panics only where a sector is not answered.
  pub release_cache-IsReleased : IsReleased fs idx (release_cache idx fs)
  unfolding release_cache
  release_cache-IsReleased =
      let b = fs.cache_pool idx in
      let fs' = count_down idx fs in
      elim (Bool-cases (b.refcount == 0)) [
        | inl free ↦
            rw free
              (cache, (λ c f real h. h), ground (arith, free), (λ i apart. refl), (refl, refl))
        | inr used ↦ rw used (elim (Bool-cases (b.refcount == 1 && b.dirty)) [
          | inl last ↦ rw last (
              written_back-IsReleased (write_cluster idx fs').0 (write_cluster idx fs').1
                (write_cluster-IsFailing fs' idx)
                (write_cluster-IsWritten fs' idx less
                  (recounted-IsCoherent fs idx (b.refcount - 1) less cache.0)))
          | inr more ↦ rw more (
            (
              recounted-IsCoherent fs idx (b.refcount - 1) less cache.0,
              IsBusy-changed fs fs' idx cache.1 (recounted_others fs idx (b.refcount - 1))
                  (λ i e. sym (recounted_dirty fs idx (b.refcount - 1) i) ∙ e)
                  (λ e.
                    let below : b.refcount - 1 ≡ 0 =
                      sym (recounted_here fs idx (b.refcount - 1)) ∙ e in
                    recounted_dirty fs idx (b.refcount - 1) idx ∙ ground (arith, below)),
            ),
            recounted-IsKept fs idx (b.refcount - 1) less,
            recounted_here fs idx (b.refcount - 1),
            recounted_others fs idx (b.refcount - 1),
            (refl, refl),
          )
        ])
      ]
