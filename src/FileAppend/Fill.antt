-- ===== src/FileAppend/Fill.antt =====
-- A cluster that is changed and written at once: what it holds then, and that the cache stays well
-- formed.
use sysu_os.Base.{
  ℕ, ◌<◌, ◌≤◌, ◌≡◌, ◌≢◌, refl, sym, ◌∙◌, subst, Bool, false, Bool-cases, inl, inr, arith, Option,
  none, some,
}
use mathlib.Core.Option.{map}
use sysu_os.FatTable.{Buffer}
use sysu_os.ClusterCache.{
  FileSystem, Cached, null, panic, cached, get_cache, write_cluster, release_cache,
}
use sysu_os.ClusterCache.View.{cluster_size, IsCache, IsSameShape}
use sysu_os.ClusterCache.Write.{IsWritten, write_cluster-IsWritten}
use sysu_os.ClusterCache.Release.{
  IsFailing, IsReleased, release_cache-IsReleased, write_cluster-IsFailing,
}
use sysu_os.ClusterCache.Load.{IsGot}
use sysu_os.ClusterCache.Get.{get_cache-IsGot}
use sysu_os.ClusterCache.Place.{
  IsInPlace, IsAllInPlace, write_cluster-IsInPlace, get_cache-IsInPlace, release_cache-IsInPlace,
}
use sysu_os.FileData.Copy.{failing, still-IsFree}
use sysu_os.FileData.Joined.{HoldsAll}
use sysu_os.FileWrite.{edit_buffer}
use sysu_os.FileWrite.Edit.{edit_contents, num, count, edit_buffer-IsCache, edit_buffer-HoldsAll}
use sysu_os.FileWrite.Loop.{IsState}
use sysu_os.FileAppend.{fill_new, fill_buffer, fill_cluster}

-- what `fill_cluster` makes of a file system
abbrev pub IsFill : FileSystem → (ℕ → Buffer) → Option (Bool × FileSystem) → Type 0
IsFill fs contents none = IsFailing fs.device
IsFill fs contents (some (ok, fs')) =
    IsState contents fs'
    × IsSameShape fs fs'
    × IsInPlace fs fs'
    × (ok ≡ false → IsFailing fs.device)

-- what a change of the buffers does: the clusters hold other contents, and the counts stay
abbrev pub IsChange : (ℕ → Buffer) → FileSystem → FileSystem → Type 0
IsChange contents fs fs' =
    IsCache fs'
    × HoldsAll contents fs'
    × ((i : ℕ) → (fs'.cache_pool i).refcount ≡ (fs.cache_pool i).refcount)
    × IsSameShape fs fs'
    × IsInPlace fs fs'

module _ (fs : FileSystem) (idx : ℕ) where
  -- after `write_cluster`
  written-IsCache :
      (ok : Bool) (fs' : FileSystem) → IsCache fs → IsWritten fs idx ok fs' → IsCache fs'
  written-IsCache ok fs' (coherent, busy) w = (
    w.coherent,
    λ i small free. elim (Bool-cases (fs'.cache_pool i).dirty) [
      | inl dirty ↦ absurd (cc (w.cleaner i dirty, busy i small (sym (w.counts i) ∙ free)))
      | inr tidy ↦ tidy
    ],
  )

module _ (contents contents' : ℕ → Buffer) (fs : FileSystem) (cluster : ℕ)
    (edit : ℕ → FileSystem → FileSystem) (real : 2 ≤ cluster) (state : IsState contents fs)
    (change : (idx : ℕ) (fs' : FileSystem)
      → IsSameShape fs fs'
      → idx < 64
      → (fs'.cache_pool idx).cluster_num ≡ cluster
      → (fs'.cache_pool idx).refcount ≢ 0
      → IsCache fs'
      → HoldsAll contents fs'
      → IsChange contents' fs' (edit idx fs')) where
  released-IsFill :
      (idx : ℕ) (fs' : FileSystem)
      → IsGot fs cluster (cached idx) fs'
      → IsChange contents' fs' (edit idx fs')
      → (ok : Bool) (fs2 : FileSystem) → IsWritten (edit idx fs') idx ok fs2
      → (ok ≡ false → IsFailing (edit idx fs').device)
      → IsInPlace fs fs2
      → (o : Option FileSystem) → IsReleased fs2 idx o
      → IsAllInPlace fs2 o
      → IsFill fs contents' (map (λ fs''. (ok, fs'')) o)
  released-IsFill idx fs' got (cache1, holds1, same, shape1, placed) ok fs2 w bad place none o
        none_placed =
      let (less, cache', kept, num, counted, agrees, others, shape) = got in
      failing fs fs2 (w.shape.0 ∙ shape1.0 ∙ shape.0, w.shape.1 ∙ shape1.1 ∙ shape.1) o
  released-IsFill idx fs' got (cache1, holds1, same, shape1, placed) ok fs2 w bad place (some fs'')
        done released =
      let (less, cache', kept, num, counted, agrees, others, shape) = got in
      let (cache'', kept', down, others', shape') = done in
      let count = λ (i : ℕ). w.counts i ∙ same i in
      (
        (
          cache'',
          still-IsFree fs cluster state.1 idx fs2 fs'' less (count idx ∙ counted)
              (λ i apart. count i ∙ others i apart) down others',
          λ c real'. kept' c (contents' c) real' (w.kept c (contents' c) real' (holds1 c real')),
        ),
        (shape'.0 ∙ w.shape.0 ∙ shape1.0 ∙ shape.0, shape'.1 ∙ w.shape.1 ∙ shape1.1 ∙ shape.1),
        released ∙ place,
        λ e. failing fs (edit idx fs') (shape1.0 ∙ shape.0, shape1.1 ∙ shape.1) (bad e),
      )

  fill_buffer-IsFill :
      (c : Cached) (fs' : FileSystem)
      → IsGot fs cluster c fs'
      → IsInPlace fs fs'
      → IsFill fs contents' (fill_buffer edit (c, fs'))
  fill_buffer-IsFill null fs' (same, uncached, used) place =
      absurd (used state.1.0 state.1.1 state.1.2)
  fill_buffer-IsFill panic fs' bad place = bad
  fill_buffer-IsFill (cached idx) fs' got place =
      let (less, cache', kept, num, counted, agrees, others, shape) = got in
      let in_use : (fs'.cache_pool idx).refcount ≢ 0 = ground (arith, counted) in
      let holds' : HoldsAll contents fs' = λ c real'. kept c (contents c) real' (state.2 c real') in
      let changed = change idx fs' shape less num in_use cache' holds' in
      let fs1 = edit idx fs' in
      let w = write_cluster-IsWritten fs1 idx less changed.0.0 in
      let fs2 = (write_cluster idx fs1).1 in
      released-IsFill idx fs' got changed (write_cluster idx fs1).0 fs2 w
        (write_cluster-IsFailing fs1 idx) (write_cluster-IsInPlace idx fs1 ∙ changed.4 ∙ place)
        (release_cache idx fs2)
        (release_cache-IsReleased fs2 idx less
          (written-IsCache fs1 idx (write_cluster idx fs1).0 fs2 changed.0 w))
        (release_cache-IsInPlace idx fs2)

  -- With a free buffer the cluster is changed, but where a sector is not answered.
  pub fill_cluster-IsFill : cluster < 4080 → IsFill fs contents' (fill_cluster cluster edit fs)
  unfolding fill_cluster
  fill_cluster-IsFill low =
      fill_buffer-IsFill (get_cache cluster fs).0 (get_cache cluster fs).1
        (get_cache-IsGot fs cluster real state.0 low) (get_cache-IsInPlace cluster fs)

-- `edit_buffer` as such a change
pub edit_buffer-IsChange :
    (contents : ℕ → Buffer) (cluster at from n : ℕ) (src : Buffer)
    → 2 ≤ cluster
    → (idx : ℕ) (fs : FileSystem) → idx < 64
    → (fs.cache_pool idx).cluster_num ≡ cluster
    → (fs.cache_pool idx).refcount ≢ 0
    → IsCache fs
    → HoldsAll contents fs
    → IsChange (edit_contents contents cluster at from n src) fs (edit_buffer idx at from n src fs)
edit_buffer-IsChange contents cluster at from n src real idx fs less num used cache holds =
    let real' = subst (λ c. 2 ≤ c) (sym num) real in
    (
      edit_buffer-IsCache fs idx at from n src less real' used cache,
      subst
          (λ k.
            HoldsAll (edit_contents contents k at from n src) (edit_buffer idx at from n src fs))
          num (edit_buffer-HoldsAll fs idx at from n src less real' contents cache.0 holds),
      count fs idx at from n src less real',
      (refl, refl),
      refl,
    )

abbrev pub zeros : Buffer
zeros o = 0

-- the contents with a new cluster of `size` bytes, of which `n` come from `src + from`
abbrev pub with_new : ℕ → (ℕ → Buffer) → ℕ → ℕ → ℕ → Buffer → ℕ → Buffer
with_new size contents cluster from n src =
    edit_contents (edit_contents contents cluster 0 0 size zeros) cluster 0 from n src

-- `fill_new` as such a change
pub fill_new-IsChange :
    (contents : ℕ → Buffer) (cluster from n : ℕ) (src : Buffer)
    → 2 ≤ cluster
    → (fs0 : FileSystem) (idx : ℕ) (fs : FileSystem) → IsSameShape fs0 fs
    → idx < 64
    → (fs.cache_pool idx).cluster_num ≡ cluster
    → (fs.cache_pool idx).refcount ≢ 0
    → IsCache fs
    → HoldsAll contents fs
    → IsChange
        (with_new (cluster_size fs0) contents cluster from n src)
        fs
        (fill_new from n src idx fs)
fill_new-IsChange contents cluster from n src real fs0 idx fs shape less is_c used cache holds =
    let size = cluster_size fs in
    let (cache', holds', same, shape', place') =
      edit_buffer-IsChange contents cluster 0 0 size zeros real idx fs less is_c used cache holds in
    let fs' = edit_buffer idx 0 0 size zeros fs in
    let real' = subst (λ c. 2 ≤ c) (sym is_c) real in
    let is_c' = num fs idx 0 0 size zeros less real' idx ∙ is_c in
    let (cache'', holds'', same', shape'', place'') =
      edit_buffer-IsChange (edit_contents contents cluster 0 0 size zeros) cluster 0 from n src real
        idx fs' less is_c' (λ e. used (sym (same idx) ∙ e)) cache' holds' in
    (
      cache'',
      subst (λ k. HoldsAll (with_new k contents cluster from n src) (fill_new from n src idx fs))
          shape.0 holds'',
      (λ i. same' i ∙ same i),
      (refl, refl),
      refl,
    )

-- With a free buffer a new cluster gets its bytes, but where a sector is not answered.
pub fill_new-IsFill :
    (contents : ℕ → Buffer) (fs : FileSystem) (cluster from n size : ℕ) (src : Buffer)
    → 2 ≤ cluster
    → cluster < 4080
    → IsState contents fs
    → cluster_size fs ≡ size
    → IsFill fs
        (with_new size contents cluster from n src)
        (fill_cluster cluster (fill_new from n src) fs)
fill_new-IsFill contents fs cluster from n size src real low state is_size =
    subst
      (λ k.
        IsFill fs (with_new k contents cluster from n src)
          (fill_cluster cluster (fill_new from n src) fs))
      is_size
      (fill_cluster-IsFill contents (with_new (cluster_size fs) contents cluster from n src) fs
        cluster (fill_new from n src) real state
        (λ idx fs'. fill_new-IsChange contents cluster from n src real fs idx fs') low)
