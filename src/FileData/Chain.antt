-- ===== src/FileData/Chain.antt =====
-- The bytes of a file along its chain of clusters, and the walk to an offset.
use sysu_os.Base.{
  ℕ, zero, suc, ◌+◌, ◌-◌, ◌/◌, ◌%◌, ◌<◌, ◌≤◌, ltb, leb, ◌≡◌, refl, sym, ap, ap₂, ◌∙◌, subst, false,
  ◌||◌, Bool-cases, inl, inr, arith, some,
}
use native.Mathlib.Nat.{div-eq_of_lt, div-eq-sub-div, mod-eq_of_lt, mod-eq-sub-mod}
use sysu_os.FatTable.{Buffer, Table}
use sysu_os.FileData.{seek_loop}

-- the cluster at a place of a chain
unfoldable pub nth_cluster : Table → ℕ → ℕ → ℕ
nth_cluster table cluster zero = cluster
nth_cluster table cluster (suc i) = nth_cluster table (table cluster) i

-- the cluster that holds byte `k` of the file that starts at a cluster
abbrev pub cluster_of : Table → ℕ → ℕ → ℕ → ℕ
cluster_of table size cluster k = nth_cluster table cluster (k / size)

-- byte `k` of the file, from the contents of the clusters
abbrev pub file_byte : (ℕ → Buffer) → Table → ℕ → ℕ → ℕ → ℕ
file_byte contents table size cluster k = contents (cluster_of table size cluster k) (k % size)

-- The first bytes of the file have clusters of the data area.
abbrev pub IsChain : Table → ℕ → ℕ → ℕ → Type 0
IsChain table size cluster total =
    (k : ℕ)
    → k < total
    → (2 ≤ cluster_of table size cluster k) × (cluster_of table size cluster k < 4080)

module _ (table : Table) (size : ℕ) (some_size : 0 < size) where
  pub cluster_of_first : (cluster k : ℕ) → k < size → cluster_of table size cluster k ≡ cluster
  unfolding nth_cluster
  cluster_of_first cluster k less = rw (div-eq_of_lt less) refl

  pub cluster_of_step :
      (cluster k : ℕ)
      → size ≤ k
      → cluster_of table size cluster k ≡ cluster_of table size (table cluster) (k - size)
  unfolding nth_cluster
  cluster_of_step cluster k more =
      let e : k / size ≡ suc ((k - size) / size) = div-eq-sub-div some_size more ∙ omega arith in
      ap (nth_cluster table cluster) e

  pub file_byte_first :
      (contents : ℕ → Buffer) (cluster k : ℕ)
      → k < size
      → file_byte contents table size cluster k ≡ contents cluster k
  file_byte_first contents cluster k less =
      ap (λ c. contents c (k % size)) (cluster_of_first cluster k less)
      ∙ ap (contents cluster) (mod-eq_of_lt less)

  pub file_byte_step :
      (contents : ℕ → Buffer) (cluster k : ℕ)
      → size ≤ k
      → file_byte contents table size cluster k
        ≡ file_byte contents table size (table cluster) (k - size)
  file_byte_step contents cluster k more =
      ap (λ c. contents c (k % size)) (cluster_of_step cluster k more)
      ∙ ap (contents (cluster_of table size (table cluster) (k - size))) (mod-eq-sub-mod more)

  pub IsChain-step :
      (cluster total : ℕ)
      → IsChain table size cluster total
      → IsChain table size (table cluster) (total - size)
  IsChain-step cluster total chain k less =
      let e : k + size - size ≡ k = omega arith in
      let here =
        cluster_of_step cluster (k + size) (omega arith)
        ∙ ap (cluster_of table size (table cluster)) e in
      subst (λ c. (2 ≤ c) × (c < 4080)) here (chain (k + size) (omega arith))

  -- The walk to an offset ends at the cluster of the offset, with the place in it.
  pub seek_loop_lem :
      (fuel offset cluster total : ℕ)
      → offset < fuel
      → offset < total
      → IsChain table size cluster total
      → (c : ℕ) × (place : ℕ) × (seek_loop fuel table size offset cluster ≡ some (c, place))
        × (place < size)
        × IsChain table size c (total - offset + place)
        × ((contents : ℕ → Buffer) (k : ℕ)
            → file_byte contents table size cluster (offset + k)
              ≡ file_byte contents table size c (place + k))
  unfolding seek_loop
  seek_loop_lem zero offset cluster total enough within chain = absurd (omega arith)
  seek_loop_lem (suc fuel) offset cluster total enough within chain =
      elim (Bool-cases (leb size offset)) [
        | inl far ↦
            let behind : size ≤ offset = ground (arith, far) in
            let first =
              subst (λ c. (2 ≤ c) × (c < 4080)) (cluster_of_first cluster 0 some_size)
                (chain 0 (omega arith)) in
            let valid : (ltb cluster 2 || ltb 4088 cluster) ≡ false =
              ground (arith, first.0, first.1) in
            let (c, place, e, small, chain', same) =
              seek_loop_lem fuel (offset - size) (table cluster) (total - size) (omega arith)
                (omega arith) (IsChain-step cluster total chain) in
            let left : total - size - (offset - size) ≡ total - offset = omega arith in
            rw (far, valid)
              (
                c,
                place,
                e,
                small,
                subst (λ n. IsChain table size c (n + place)) left chain',
                λ contents k.
                    let back : offset + k - size ≡ offset - size + k = omega arith in
                    file_byte_step contents cluster (offset + k) (omega arith)
                    ∙ ap (file_byte contents table size (table cluster)) back
                    ∙ same contents k,
              )
        | inr near ↦
            let back : total ≡ total - offset + offset = omega arith in
            rw near (
              cluster,
              offset,
              refl,
              ground (arith, near),
              subst (IsChain table size cluster) back chain,
              λ contents k. refl,
            )
      ]

  -- The walk to an offset, by the number of the cluster.
  pub seek_loop-nth :
      (fuel offset cluster rest : ℕ)
      → offset < fuel
      → offset < rest
      → IsChain table size cluster rest
      → seek_loop fuel table size offset cluster
        ≡ some (nth_cluster table cluster (offset / size), offset % size)
  unfolding seek_loop
  seek_loop-nth zero offset cluster rest enough within chain = absurd (omega arith)
  seek_loop-nth (suc fuel) offset cluster rest enough within chain =
      elim (Bool-cases (leb size offset)) [
        | inl far ↦
            let behind : size ≤ offset = ground (arith, far) in
            let first =
              subst (λ c. (2 ≤ c) × (c < 4080)) (cluster_of_first cluster 0 some_size)
                (chain 0 (omega arith)) in
            let valid : (ltb cluster 2 || ltb 4088 cluster) ≡ false =
              ground (arith, first.0, first.1) in
            rw (far, valid)
              (seek_loop-nth fuel (offset - size) (table cluster) (rest - size) (omega arith)
                  (omega arith) (IsChain-step cluster rest chain)
                ∙ ap₂ (λ c o. some (c, o)) (sym (cluster_of_step cluster offset behind))
                    (sym (mod-eq-sub-mod behind)))
        | inr near ↦
            let less : offset < size = ground (arith, near) in
            rw near (
              ap₂ (λ c o. some (c, o)) (sym (cluster_of_first cluster offset less))
                (sym (mod-eq_of_lt less)))
      ]
