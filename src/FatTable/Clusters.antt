-- ===== src/FatTable/Clusters.antt =====
-- `allocate_cluster` and the first free cluster.
use sysu_os.Base.{
  ℕ, zero, suc, ◌+◌, ◌-◌, ◌≤◌, ◌<◌, ◌==◌, ◌≡◌, ◌≢◌, false, arith, Bool-cases, inl, inr, ap, subst,
  refl, sym, ◌∙◌, ==→eq,
}
use sysu_os.FatTable.{Table, put, allocate_loop, allocate_cluster, free_cluster}

-- what an answer of `allocate_cluster` means: 0 that no cluster is free, anything else the first
-- free one
pub data FirstFree (cluster_count : ℕ) (t : Table) (from : ℕ) : ℕ → Type 0 where
  full : ((i : ℕ) → from ≤ i → i < cluster_count → t i ≢ 0) → FirstFree cluster_count t from 0
  first :
      (idx : ℕ)
      → from ≤ idx
      → idx < cluster_count
      → t idx ≡ 0
      → ((i : ℕ) → from ≤ i → i < idx → t i ≢ 0)
      → FirstFree cluster_count t from idx

extend :
    {cluster_count : ℕ} {t : Table} {from r : ℕ}
    → (t from == 0) ≡ false
    → FirstFree cluster_count t (from + 1) r
    → FirstFree cluster_count t from r
extend {cluster_count} {t} {from} used (full none_free) = full (λ i low high.
    elim (Bool-cases (i == from)) [
      | inl e ↦ ground (arith, ap t (==→eq i from e))
      | inr ne ↦ none_free i (ground arith) high
    ])
extend {cluster_count} {t} {from} used (first idx low high free before) =
    first idx (omega arith) high free (λ i l h. elim (Bool-cases (i == from)) [
      | inl e ↦ ground (arith, ap t (==→eq i from e))
      | inr ne ↦ before i (ground arith) h
    ])

allocate_loop-FirstFree :
    (n idx : ℕ) (t : Table) → FirstFree (idx + n) t idx (allocate_loop n idx t)
unfolding allocate_loop
allocate_loop-FirstFree zero idx t = full (λ i low high. absurd (omega arith))
allocate_loop-FirstFree (suc n) idx t =
    let size : idx + 1 + n ≡ idx + suc n = omega arith in
    elim (Bool-cases (t idx == 0)) [
      | inl e ↦ rw e (
          first idx (omega arith) (omega arith) (ground arith) (λ i low high. absurd (omega arith)))
      | inr ne ↦ rw ne (
          extend ne (
            subst (λ c. FirstFree c t (idx + 1) (allocate_loop n (idx + 1) t)) size
              (allocate_loop-FirstFree n (idx + 1) t)))
    ]

-- With at least two clusters, `allocate_cluster` answers the first free cluster from 2 on, or 0, and
-- then no cluster is free.
pub allocate_cluster-FirstFree :
    (cluster_count : ℕ) (t : Table)
    → 2 ≤ cluster_count
    → FirstFree cluster_count t 2 (allocate_cluster cluster_count t)
unfolding allocate_cluster
allocate_cluster-FirstFree cluster_count t enough =
    let size : 2 + (cluster_count - 2) ≡ cluster_count = omega arith in
    subst (λ c. FirstFree c t 2 (allocate_loop (cluster_count - 2) 2 t)) size
      (allocate_loop-FirstFree (cluster_count - 2) 2 t)

-- An answer but 0 is a free cluster.
pub allocate_cluster-free :
    (cluster_count : ℕ) (t : Table)
    → 2 ≤ cluster_count
    → allocate_cluster cluster_count t ≢ 0
    → (2 ≤ allocate_cluster cluster_count t)
      × (allocate_cluster cluster_count t < cluster_count)
      × (t (allocate_cluster cluster_count t) ≡ 0)
allocate_cluster-free cluster_count t enough found =
    of_first found (allocate_cluster-FirstFree cluster_count t enough)
  where
    of_first :
        {r : ℕ} → r ≢ 0 → FirstFree cluster_count t 2 r → (2 ≤ r) × (r < cluster_count) × (t r ≡ 0)
    of_first ne (full none_free) = absurd (ne refl)
    of_first ne (first idx low high free before) = (low, high, free)

-- An entry that is linked behind the end of a chain and freed again leaves the table as it was.
pub free_cluster-put :
    (t : Table) (last new end : ℕ)
    → t last ≡ end
    → t new ≡ 0
    → (c : ℕ) → put (free_cluster (put (put t last new) new end) new) last end c ≡ t c
unfolding free_cluster
free_cluster-put t last new end ends free c = elim (Bool-cases (c == last)) [
  | inl here ↦ rw here (sym ends ∙ ap t (sym (==→eq c last here)))
  | inr there ↦ elim (Bool-cases (c == new)) [
    | inl at_new ↦ rw (there, at_new) (sym free ∙ ap t (sym (==→eq c new at_new)))
    | inr away ↦ rw (there, away) refl
  ]
]
