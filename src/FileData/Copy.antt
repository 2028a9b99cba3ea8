-- ===== src/FileData/Copy.antt =====
-- A round of `read`: a cluster is copied and the cache is as before.
use sysu_os.Base.{
  ℕ, ◌+◌, ◌-◌, ◌<◌, ◌≤◌, ◌==◌, ltb, leb, ◌≡◌, ◌≢◌, refl, sym, ap, ◌∙◌, subst, Bool, ◌&&◌,
  if◌then◌else◌, Bool-cases, inl, inr, arith, ==→eq, ==→ne, Option, none, some,
}
use sysu_os.FatTable.{Buffer}
use sysu_os.ClusterCache.{FileSystem, Cached, null, panic, cached, get_cache, release_cache}
use sysu_os.ClusterCache.View.{cluster_size, IsCache, IsKept, IsSameShape, Holds}
use sysu_os.ClusterCache.Release.{IsFailing, IsReleased, release_cache-IsReleased}
use sysu_os.ClusterCache.Load.{IsGot}
use sysu_os.ClusterCache.Get.{get_cache-IsGot}
use sysu_os.FileData.{
  memcpy, Copied, missing, stopped, copied, after_release, copy_out, copy_cluster,
}

-- a buffer that nobody uses
abbrev pub IsFree : FileSystem → Type 0
IsFree fs = (i : ℕ) × (i < 64) × ((fs.cache_pool i).refcount ≡ 0)

-- the state between two rounds
abbrev pub IsNext : FileSystem → FileSystem → Type 0
IsNext fs fs' = IsCache fs' × IsFree fs' × IsKept fs fs' × IsSameShape fs fs'

-- a copy of bytes of a cluster with contents `f`
abbrev pub IsCopied : FileSystem → ℕ → ℕ → ℕ → Buffer → Buffer → Copied → Type 0
IsCopied fs at from n f out (missing fs') = ⊥
IsCopied fs at from n f out stopped = IsFailing fs.device
IsCopied fs at from n f out (copied out' fs') =
    IsNext fs fs'
    × ((o : ℕ) → out' o ≡ (if leb at o && ltb o (at + n) then f (from + (o - at)) else out o))

-- The buffer that was got is released again.
pub still-IsFree :
    (fs : FileSystem) (cluster : ℕ)
    → IsFree fs
    → (idx : ℕ) (fs' fs'' : FileSystem) → idx < 64
    → ((fs'.cache_pool idx).refcount ≡ (
        if (fs.cache_pool idx).cluster_num == cluster then (fs.cache_pool idx).refcount + 1 else 1))
    → ((i : ℕ) → i ≢ idx → (fs'.cache_pool i).refcount ≡ (fs.cache_pool i).refcount)
    → ((fs''.cache_pool idx).refcount ≡ (fs'.cache_pool idx).refcount - 1)
    → ((i : ℕ) → i ≢ idx → (fs''.cache_pool i).refcount ≡ (fs'.cache_pool i).refcount)
    → IsFree fs''
still-IsFree fs cluster free idx fs' fs'' less up others down others' =
    elim (Bool-cases ((fs.cache_pool idx).cluster_num == cluster)) [
      | inl hit ↦
          let up' = up ∙ ap (λ b. if b then (fs.cache_pool idx).refcount + 1 else 1) hit in
          elim (Bool-cases (free.0 == idx)) [
            | inl here ↦
                let e = ==→eq free.0 idx here in
                let none_used = subst (λ k. (fs.cache_pool k).refcount ≡ 0) e free.2 in
                (idx, less, omega arith)
            | inr more ↦
                let apart = ==→ne free.0 idx more in
                (free.0, free.1, others' free.0 apart ∙ others free.0 apart ∙ free.2)
          ]
      | inr miss ↦
          let up' = up ∙ ap (λ b. if b then (fs.cache_pool idx).refcount + 1 else 1) miss in
          (idx, less, omega arith)
    ]

pub failing :
    (fs fs' : FileSystem) → IsSameShape fs fs' → IsFailing fs'.device → IsFailing fs.device
failing fs fs' shape (lba, bad) = (lba, sym (ap (λ (a : ℕ → Bool). a lba) shape.1) ∙ bad)

module _ (fs : FileSystem) (cluster at from n : ℕ) (f out : Buffer) (real : 2 ≤ cluster)
    (cache : IsCache fs) (free : IsFree fs) (holds : Holds fs cluster f)
    (within : from + n ≤ cluster_size fs) where
  released-IsCopied :
      (idx : ℕ) (fs' : FileSystem)
      → IsGot fs cluster (cached idx) fs'
      → (o : Option FileSystem) → IsReleased fs' idx o
      → IsCopied fs at from n f out
          (after_release (memcpy out at (fs'.cache_pool idx).buf from n) o)
  released-IsCopied idx fs' got none bad =
      let (less, cache', kept, num, count, agrees, others, shape) = got in failing fs fs' shape bad
  released-IsCopied idx fs' got (some fs'') done =
      let (less, cache', kept, num, count, agrees, others, shape) = got in
      let (cache'', kept', down, others', shape') = done in
      (
        (
          cache'',
          still-IsFree fs cluster free idx fs' fs'' less count others down others',
          (λ c g real' h. kept' c g real' (kept c g real' h)),
          (shape'.0 ∙ shape.0, shape'.1 ∙ shape.1),
        ),
        λ o. elim (Bool-cases (leb at o && ltb o (at + n))) [
          | inl inside ↦
              let place : from + (o - at) < cluster_size fs' = ground (arith, inside, shape.0) in
              rw inside (agrees f holds (from + (o - at)) place)
          | inr outside ↦ rw outside refl
        ],
      )

  copy_out-IsCopied :
      (c : Cached) (fs' : FileSystem)
      → IsGot fs cluster c fs'
      → IsCopied fs at from n f out (copy_out at from n out (c, fs'))
  copy_out-IsCopied null fs' (same, uncached, used) = used free.0 free.1 free.2
  copy_out-IsCopied panic fs' bad = bad
  copy_out-IsCopied (cached idx) fs' got =
      released-IsCopied idx fs' got (release_cache idx fs')
        (release_cache-IsReleased fs' idx got.0 got.1)

  -- With a free buffer the round copies the bytes, but where a sector is not answered.
  pub copy_cluster-IsCopied :
      cluster < 4080 → IsCopied fs at from n f out (copy_cluster cluster at from n out fs)
  unfolding copy_cluster
  copy_cluster-IsCopied low =
      copy_out-IsCopied (get_cache cluster fs).0 (get_cache cluster fs).1
        (get_cache-IsGot fs cluster real cache low)
