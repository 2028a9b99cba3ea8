-- ===== src/FileWrite/Edit.antt =====
-- A round of `write`: one cluster is changed, and the cache is well formed as before.
use sysu_os.Base.{
  ℕ, ◌+◌, ◌-◌, ◌<◌, ◌≤◌, ◌==◌, ltb, leb, ◌≡◌, ◌≢◌, refl, sym, ap, ◌∙◌, subst, true, ◌&&◌,
  if◌then◌else◌, Bool-cases, inl, inr, arith, ==→eq, ==→ne, Option, none, some,
}
use sysu_os.FatTable.{Buffer}
use sysu_os.ClusterCache.{
  ClusterBuffer, FileSystem, Cached, null, panic, cached, get_cache, release_cache,
}
use sysu_os.ClusterCache.View.{
  disk, IsCoherent, IsCache, IsSameShape, Holds, put_buffer-same, put_buffer-other,
  put_buffer-field, disk-pool,
}
use sysu_os.ClusterCache.Release.{IsFailing, IsReleased, release_cache-IsReleased}
use sysu_os.ClusterCache.Load.{IsGot, buffered-Agrees}
use sysu_os.ClusterCache.Get.{get_cache-IsGot}
use sysu_os.FileData.{memcpy}
use sysu_os.FileData.Copy.{IsFree, failing, still-IsFree}
use sysu_os.FileData.Joined.{HoldsAll}
use sysu_os.FileWrite.{
  Edited, missing, stopped, edited, edit_buffer, after_release, edit_out, edit_cluster,
}

-- the contents of the clusters with `n` bytes of one changed
abbrev pub edit_contents : (ℕ → Buffer) → ℕ → ℕ → ℕ → ℕ → Buffer → ℕ → Buffer
edit_contents contents cluster at from n src c =
    if c == cluster then memcpy (contents cluster) at src from n else contents c

-- what a round makes of a file system: the clusters have new contents
abbrev pub IsEdited : FileSystem → (ℕ → Buffer) → Edited → Type 0
IsEdited fs contents (missing fs') = ⊥
IsEdited fs contents stopped = IsFailing fs.device
IsEdited fs contents (edited fs') =
    IsCache fs' × IsFree fs' × HoldsAll contents fs' × IsSameShape fs fs'

module _ (fs : FileSystem) (idx at from n : ℕ) (src : Buffer) (less : idx < 64)
    (real : 2 ≤ (fs.cache_pool idx).cluster_num) where
  abbrev new_buffer : ClusterBuffer
  new_buffer = record (fs.cache_pool idx) {
    buf = memcpy (fs.cache_pool idx).buf at src from n;
    dirty = true;
  }

  abbrev fs' : FileSystem
  fs' = edit_buffer idx at from n src fs

  pub num : (i : ℕ) → (fs'.cache_pool i).cluster_num ≡ (fs.cache_pool i).cluster_num
  num i = put_buffer-field (λ b. b.cluster_num) fs.cache_pool idx i new_buffer refl

  pub count : (i : ℕ) → (fs'.cache_pool i).refcount ≡ (fs.cache_pool i).refcount
  count i = put_buffer-field (λ b. b.refcount) fs.cache_pool idx i new_buffer refl

  edit_buffer-IsCoherent : IsCoherent fs → IsCoherent fs'
  edit_buffer-IsCoherent coherent = record {
    distinct = λ i j small small' real' e.
        coherent.distinct i j small small' (subst (λ k. 2 ≤ k) (num i) real')
          (sym (num i) ∙ e ∙ num j);
    used = λ i small dirty.
        subst (λ k. 2 ≤ k) (sym (num i))
          (elim (Bool-cases (i == idx)) [
            | inl same ↦
                subst (λ k. 2 ≤ (fs.cache_pool k).cluster_num) (sym (==→eq i idx same)) real
            | inr other ↦
                let e = put_buffer-other fs.cache_pool idx i new_buffer (==→ne i idx other) in
                coherent.used i small (sym (ap (λ (b : ClusterBuffer). b.dirty) e) ∙ dirty)
          ]);
    clean = λ i small real' tidy o inside. elim (Bool-cases (i == idx)) [
      | inl same ↦
          let e = put_buffer-same fs.cache_pool idx new_buffer in
          let dirty : (fs'.cache_pool i).dirty ≡ true =
            ap (λ k. (fs'.cache_pool k).dirty) (==→eq i idx same)
            ∙ ap (λ (b : ClusterBuffer). b.dirty) e in
          absurd (cc (dirty, tidy))
      | inr other ↦
          let e = put_buffer-other fs.cache_pool idx i new_buffer (==→ne i idx other) in
          ap (λ (b : ClusterBuffer). b.buf o) e
          ∙ coherent.clean i small (subst (λ k. 2 ≤ k) (num i) real')
              (sym (ap (λ (b : ClusterBuffer). b.dirty) e) ∙ tidy) o inside
          ∙ ap (λ c. disk fs c o) (sym (num i))
          ∙ ap (λ (b : Buffer). b o)
              (sym (disk-pool fs fs'.cache_pool (fs'.cache_pool i).cluster_num))
    ];
  }

  pub edit_buffer-IsCache : ((fs.cache_pool idx).refcount ≢ 0) → IsCache fs → IsCache fs'
  edit_buffer-IsCache in_use (coherent, busy) = (
    edit_buffer-IsCoherent coherent,
    λ i small free. elim (Bool-cases (i == idx)) [
      | inl same ↦
          let used = subst (λ k. (fs.cache_pool k).refcount ≢ 0) (sym (==→eq i idx same)) in_use in
          absurd (used (sym (count i) ∙ free))
      | inr other ↦
          let e = put_buffer-other fs.cache_pool idx i new_buffer (==→ne i idx other) in
          ap (λ (b : ClusterBuffer). b.dirty) e ∙ busy i small (sym (count i) ∙ free)
    ],
  )

  -- The other clusters keep their contents.
  kept_elsewhere :
      (contents : ℕ → Buffer) (c : ℕ)
      → c ≢ (fs.cache_pool idx).cluster_num
      → Holds fs c (contents c)
      → Holds fs' c (contents c)
  kept_elsewhere contents c apart (inl (i, small, is_c, agrees)) =
      let other : i ≢ idx =
        λ same. apart (sym is_c ∙ ap (λ k. (fs.cache_pool k).cluster_num) same) in
      let e = put_buffer-other fs.cache_pool idx i new_buffer other in
      inl (
        i,
        small,
        num i ∙ is_c,
        λ o inside. ap (λ (b : ClusterBuffer). b.buf o) e ∙ agrees o inside,
      )
  kept_elsewhere contents c apart (inr (uncached, agrees)) = inr (
    (λ i small e. uncached i small (sym (num i) ∙ e)),
    λ o inside. ap (λ (b : Buffer). b o) (disk-pool fs fs'.cache_pool c) ∙ agrees o inside,
  )

  pub edit_buffer-HoldsAll :
      (contents : ℕ → Buffer)
      → IsCoherent fs
      → HoldsAll contents fs
      → HoldsAll (edit_contents contents (fs.cache_pool idx).cluster_num at from n src) fs'
  edit_buffer-HoldsAll contents coherent holds c real' =
      elim (Bool-cases (c == (fs.cache_pool idx).cluster_num)) [
        | inl here ↦
            let is_c = ==→eq c (fs.cache_pool idx).cluster_num here in
            let e = put_buffer-same fs.cache_pool idx new_buffer in
            let old =
              buffered-Agrees fs (fs.cache_pool idx).cluster_num idx
                (contents (fs.cache_pool idx).cluster_num) coherent less real refl
                (holds (fs.cache_pool idx).cluster_num real) in
            inl (
              idx,
              less,
              num idx ∙ sym is_c,
              λ o inside.
                  ap (λ (b : ClusterBuffer). b.buf o) e
                  ∙ rw here (
                      ap (λ v. if leb at o && ltb o (at + n) then src (from + (o - at)) else v)
                        (old o inside)),
            )
        | inr away ↦ rw away (
            kept_elsewhere contents c (==→ne c (fs.cache_pool idx).cluster_num away)
              (holds c real'))
      ]

module _ (contents : ℕ → Buffer) (fs : FileSystem) (cluster at from n : ℕ) (src : Buffer)
    (real : 2 ≤ cluster) (cache : IsCache fs) (free : IsFree fs)
    (holds : HoldsAll contents fs) where
  released-IsEdited :
      (idx : ℕ) (fs' : FileSystem)
      → IsGot fs cluster (cached idx) fs'
      → (o : Option FileSystem) → IsReleased (edit_buffer idx at from n src fs') idx o
      → IsEdited fs (edit_contents contents cluster at from n src) (after_release o)
  released-IsEdited idx fs' got none bad =
      let (less, cache', kept, num, count, agrees, others, shape) = got in failing fs fs' shape bad
  released-IsEdited idx fs' got (some fs'') done =
      let (less, cache', kept, num, counted, agrees, others, shape) = got in
      let (cache'', kept', down, others', shape') = done in
      let fs1 = edit_buffer idx at from n src fs' in
      let real' = subst (λ c. 2 ≤ c) (sym num) real in
      (
        cache'',
        still-IsFree fs cluster free idx fs1 fs'' less
            (count fs' idx at from n src less real' idx ∙ counted)
            (λ i apart. count fs' idx at from n src less real' i ∙ others i apart) down others',
        (λ c real''. kept' c (edit_contents contents cluster at from n src c) real'' (
            subst (λ k. Holds fs1 c (edit_contents contents k at from n src c)) num
              (edit_buffer-HoldsAll fs' idx at from n src less real' contents cache'.0
                (λ c real. kept c (contents c) real (holds c real)) c real''))),
        (shape'.0 ∙ shape.0, shape'.1 ∙ shape.1),
      )

  edit_out-IsEdited :
      (c : Cached) (fs' : FileSystem)
      → IsGot fs cluster c fs'
      → IsEdited fs (edit_contents contents cluster at from n src) (edit_out at from n src (c, fs'))
  edit_out-IsEdited null fs' (same, uncached, used) = used free.0 free.1 free.2
  edit_out-IsEdited panic fs' bad = bad
  edit_out-IsEdited (cached idx) fs' got =
      let (less, cache', kept, num, counted, agrees, others, shape) = got in
      let real' = subst (λ c. 2 ≤ c) (sym num) real in
      let in_use : (fs'.cache_pool idx).refcount ≢ 0 = ground (arith, counted) in
      let fs1 = edit_buffer idx at from n src fs' in
      released-IsEdited idx fs' got (release_cache idx fs1) (
        release_cache-IsReleased fs1 idx less
          (edit_buffer-IsCache fs' idx at from n src less real' in_use cache'))

  -- With a free buffer a round changes the bytes, but where a sector is not answered.
  pub edit_cluster-IsEdited :
      cluster < 4080
      → IsEdited fs
          (edit_contents contents cluster at from n src)
          (edit_cluster cluster at from n src fs)
  unfolding edit_cluster
  edit_cluster-IsEdited low =
      edit_out-IsEdited (get_cache cluster fs).0 (get_cache cluster fs).1
        (get_cache-IsGot fs cluster real cache low)
