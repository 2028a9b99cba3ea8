-- ===== src/ClusterCache/Load.antt =====
-- The part of `get_cache` that loads a cluster.
use sysu_os.Base.{
  ℕ, zero, suc, ◌+◌, ◌*◌, ◌<◌, ◌≤◌, ◌==◌, ltb, leb, ◌≡◌, ◌≢◌, refl, sym, ap, ◌∙◌, subst, Bool, true,
  false, ◌&&◌, if◌then◌else◌, Bool-cases, inl, inr, arith, ne→==,
}
use sysu_os.FatTable.{Buffer, Device, ide_read_sector, sector_size}
use sysu_os.ClusterCache.{
  ClusterBuffer, FileSystem, Pool, put_buffer, cluster2sector, next_time, read_sectors,
  read_cluster, load, loaded, miss, Cached, null, panic, cached,
}
use sysu_os.ClusterCache.View.{
  disk, Agrees, IsCoherent, IsCache, IsUncached, Holds, IsKept, IsSameShape, put_buffer-same,
  put_buffer-other, changed,
}
use sysu_os.ClusterCache.Sectors.{read_sectors_lem}
use sysu_os.ClusterCache.Release.{IsFailing}
use sysu_os.ClusterCache.Replace.{replaced-IsCache, replaced-IsKept}

-- what `get_cache` leaves where it answers a buffer, the null pointer, or panics
abbrev pub IsGot : FileSystem → ℕ → Cached → FileSystem → Type 0
IsGot fs cluster (cached idx) fs' =
    (idx < 64)
    × IsCache fs'
    × IsKept fs fs'
    × ((fs'.cache_pool idx).cluster_num ≡ cluster)
    × ((fs'.cache_pool idx).refcount ≡ (
        if (fs.cache_pool idx).cluster_num == cluster then (fs.cache_pool idx).refcount + 1 else 1))
    × ((f : Buffer) → Holds fs cluster f → Agrees fs' (fs'.cache_pool idx).buf f)
    × ((i : ℕ) → i ≢ idx → (fs'.cache_pool i).refcount ≡ (fs.cache_pool i).refcount)
    × IsSameShape fs fs'
IsGot fs cluster null fs' =
    (fs' ≡ fs) × IsUncached fs cluster × ((i : ℕ) → i < 64 → (fs.cache_pool i).refcount ≢ 0)
IsGot fs cluster panic fs' = IsFailing fs.device

-- A cluster that is in the cache holds what its buffer holds.
pub buffered-Agrees :
    (fs : FileSystem) (cluster idx : ℕ) (f : Buffer)
    → IsCoherent fs
    → idx < 64
    → 2 ≤ cluster
    → (fs.cache_pool idx).cluster_num ≡ cluster
    → Holds fs cluster f
    → Agrees fs (fs.cache_pool idx).buf f
buffered-Agrees fs cluster idx f coherent less real num (inl (i, small, is_c, agrees)) o inside =
    let e : i ≡ idx =
      coherent.distinct i idx small less (subst (λ n. 2 ≤ n) (sym is_c) real) (is_c ∙ sym num) in
    subst (λ k. (fs.cache_pool k).buf o ≡ f o) e (agrees o inside)
buffered-Agrees fs cluster idx f coherent less real num (inr (uncached, agrees)) o inside =
    absurd (uncached idx less num)

pub read_sectors-IsFailing :
    (n i sector : ℕ) (d : Device) (buf : Buffer)
    → (read_sectors n i sector d buf).0 ≡ false
    → IsFailing d
unfolding read_sectors
read_sectors-IsFailing zero i sector d buf bad = absurd (ground (arith, bad))
read_sectors-IsFailing (suc n) i sector d buf bad =
    let buf' = (ide_read_sector d (sector + i) buf (i * sector_size)).1 in
    let rest = read_sectors n (i + 1) sector d buf' in
    elim (Bool-cases (d.answers (sector + i))) [
      | inl hit ↦
          read_sectors-IsFailing n (i + 1) sector d buf'
            (sym (ap (λ b. (if b then rest else (false, buf')).0) hit) ∙ bad)
      | inr miss ↦ (sector + i, miss)
    ]

-- the buffer before and after the cluster is read
abbrev pub fresh : FileSystem → ℕ → ℕ → ClusterBuffer
fresh fs cluster idx = record (fs.cache_pool idx) {
  cluster_num = cluster;
  refcount = 1;
  dirty = false;
  last_used_time = fs.access_time;
}

abbrev pub reading : FileSystem → ℕ → ℕ → Bool × Buffer
reading fs cluster idx =
    read_sectors fs.sectors_per_cluster 0 (cluster2sector fs cluster) fs.device
      (fs.cache_pool idx).buf

pub load_lem :
    (fs : FileSystem) (cluster idx : ℕ)
    → load cluster idx fs
      ≡ loaded idx (
        (reading fs cluster idx).0,
        changed fs
            (put_buffer
              (put_buffer fs.cache_pool idx (fresh fs cluster idx))
              idx
              (record (fresh fs cluster idx) {
                buf = (reading fs cluster idx).1;
                dirty = if (reading fs cluster idx).0 then false else false;
              }))
            fs.device
            (next_time fs),
      )
unfolding load read_cluster cluster2sector
load_lem fs cluster idx =
    ap
      (λ (b : ClusterBuffer).
        let (ok, buf) =
          read_sectors fs.sectors_per_cluster 0 (cluster2sector fs b.cluster_num) fs.device b.buf in
        let b' : ClusterBuffer = record b {
          last_used_time = fs.access_time;
          buf = buf;
          dirty = if ok then false else b.dirty;
        } in
        loaded idx (
          ok,
          changed fs (put_buffer (put_buffer fs.cache_pool idx (fresh fs cluster idx)) idx b')
              fs.device (next_time fs),
        ))
      (put_buffer-same fs.cache_pool idx (fresh fs cluster idx))

pub loaded-IsGot :
    (fs fs' : FileSystem) (cluster idx : ℕ) (ok : Bool)
    → (ok ≡ true → IsGot fs cluster (cached idx) fs')
    → (ok ≡ false → IsFailing fs.device)
    → IsGot fs cluster (loaded idx (ok, fs')).0 (loaded idx (ok, fs')).1
loaded-IsGot fs fs' cluster idx true got failing = got refl
loaded-IsGot fs fs' cluster idx false got failing = failing refl

module _ (fs : FileSystem) (cluster idx : ℕ) (less : idx < 64) (cache : IsCache fs)
    (free : (fs.cache_pool idx).refcount ≡ 0) (real : 2 ≤ cluster)
    (uncached : IsUncached fs cluster) (ok : (reading fs cluster idx).0 ≡ true) where
  full : ClusterBuffer
  full = record (fresh fs cluster idx) { buf = (reading fs cluster idx).1 }

  abbrev pub full_pool : Pool
  full_pool =
      put_buffer (put_buffer fs.cache_pool idx (fresh fs cluster idx)) idx
        (record (fresh fs cluster idx) {
          buf = (reading fs cluster idx).1;
          dirty = if (reading fs cluster idx).0 then false else false;
        })

  here : full_pool idx ≡ full
  unfolding full
  here =
      put_buffer-same (put_buffer fs.cache_pool idx (fresh fs cluster idx)) idx
        (record (fresh fs cluster idx) {
          buf = (reading fs cluster idx).1;
          dirty = if (reading fs cluster idx).0 then false else false;
        })
      ∙ ap
          (λ t. record (fresh fs cluster idx) {
            buf = (reading fs cluster idx).1;
            dirty = if t then false else false;
          })
          ok

  elsewhere : (i : ℕ) → i ≢ idx → full_pool i ≡ fs.cache_pool i
  elsewhere i away =
      put_buffer-other (put_buffer fs.cache_pool idx (fresh fs cluster idx)) idx i
        (record (fresh fs cluster idx) {
          buf = (reading fs cluster idx).1;
          dirty = if (reading fs cluster idx).0 then false else false;
        })
        away
      ∙ put_buffer-other fs.cache_pool idx i (fresh fs cluster idx) away

  full-Agrees : Agrees fs (full_pool idx).buf (disk fs cluster)
  unfolding full
  full-Agrees o inside =
      let within : (leb (0 * 512) o && ltb o ((0 + fs.sectors_per_cluster) * 512)) ≡ true =
        ground arith in
      ap (λ (b : ClusterBuffer). b.buf o) here
      ∙ read_sectors_lem fs.sectors_per_cluster 0 (cluster2sector fs cluster) fs.device
          (fs.cache_pool idx).buf ok o
      ∙ ap (λ t. if t then disk fs cluster o else (fs.cache_pool idx).buf o) within

  pub load-IsGot : IsGot fs cluster (cached idx) (changed fs full_pool fs.device (next_time fs))
  unfolding full
  load-IsGot =
      let num = ap (λ (b : ClusterBuffer). b.cluster_num) here in
      let tidy = ap (λ (b : ClusterBuffer). b.dirty) here in
      let count = ap (λ (b : ClusterBuffer). b.refcount) here in
      let new : ((fs.cache_pool idx).cluster_num == cluster) ≡ false =
        ne→== (fs.cache_pool idx).cluster_num cluster (uncached idx less) in
      let cache' =
        replaced-IsCache fs cluster idx (next_time fs) full_pool less cache free real uncached
          elsewhere num tidy count full-Agrees in
      let kept =
        replaced-IsKept fs cluster idx (next_time fs) full_pool less cache free real uncached
          elsewhere num tidy count full-Agrees in
      (
        less,
        cache',
        kept,
        num,
        count ∙ rw new refl,
        (λ f h.
            buffered-Agrees (changed fs full_pool fs.device (next_time fs)) cluster idx f cache'.0
              less real num (kept cluster f real h)),
        (λ i apart. ap (λ (b : ClusterBuffer). b.refcount) (elsewhere i apart)),
        (refl, refl),
      )
