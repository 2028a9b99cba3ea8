-- ===== src/FileData/Read.antt =====
-- `read` on a file whose chain of clusters is as long as the file.
use sysu_os.Base.{
  ℕ, zero, suc, ◌+◌, ◌-◌, ◌%◌, ◌<◌, ◌≤◌, ◌==◌, ltb, leb, min, ◌≡◌, sym, ap, ◌∙◌, subst, true, false,
  ◌&&◌, ◌||◌, if◌then◌else◌, Bool-cases, inl, inr, arith, ltb→lt, ltb→le, fun_ext,
}
use native.Mathlib.Nat.{mod-eq_of_lt}
use sysu_os.FatTable.{Buffer, Table}
use sysu_os.ClusterCache.{FileSystem}
use sysu_os.ClusterCache.View.{cluster_size, IsCache}
use sysu_os.FileData.{copy_cluster, returned, read_loop, seek_loop, read_at, found, Inode, read}
use sysu_os.FileData.Copy.{IsFree, copy_cluster-IsCopied}
use sysu_os.FileData.Chain.{
  file_byte, IsChain, cluster_of_first, file_byte_first, file_byte_step, IsChain-step,
  seek_loop_lem,
}
use sysu_os.FileData.Joined.{
  HoldsAll, IsReadTo, joined-IsReadTo, nothing-IsReadTo, continue-IsReadTo, first-IsReadTo,
}

module _ (contents : ℕ → Buffer) (table : Table) (cs : ℕ) (some_size : 0 < cs)
    (narrow : cs < 65536) where
  read_loop-IsReadTo :
      (fuel size at cluster : ℕ) (out : Buffer) (fs : FileSystem)
      → size < fuel
      → cluster_size fs ≡ cs
      → IsCache fs
      → IsFree fs
      → HoldsAll contents fs
      → IsChain table cs cluster size
      → IsReadTo fs at size
          (file_byte contents table cs cluster)
          out
          (read_loop fuel table size at cluster out fs)
  unfolding read_loop
  read_loop-IsReadTo zero size at cluster out fs enough is_cs cache free holds chain =
      absurd (omega (arith, enough))
  read_loop-IsReadTo (suc fuel) size at cluster out fs enough is_cs cache free holds chain =
      elim (Bool-cases (ltb 0 size)) [
        | inl more ↦
            let some_left = ltb→lt 0 size more in
            let valid =
              subst (λ c. (2 ≤ c) × (c < 4080))
                (cluster_of_first table cs some_size cluster 0 some_size) (chain 0 some_left) in
            let chunk = min size (cluster_size fs) in
            let round : (ltb 0 size && leb 2 cluster && ltb cluster 4088) ≡ true =
              ground (arith, some_left, valid.0, valid.1) in
            let left : size - cs ≡ size - chunk = omega arith in
            let wide : chunk % 65536 ≡ chunk = mod-eq_of_lt (omega arith) in
            rw (round, wide)
              (continue-IsReadTo fs at chunk size (contents cluster)
                (file_byte contents table cs cluster) out
                (λ out' fs'.
                  read_loop fuel table (size - chunk) (at + chunk) (table cluster) out' fs')
                (copy_cluster cluster at 0 chunk out fs)
                (copy_cluster-IsCopied fs cluster at 0 chunk (contents cluster) out valid.0 cache
                  free (holds cluster valid.0) (omega arith) valid.1)
                (λ out' fs' next copy.
                  joined-IsReadTo fs fs' at chunk size (λ k. contents cluster (0 + k))
                    (file_byte contents table cs (table cluster))
                    (file_byte contents table cs cluster) out out' next (omega arith) copy
                    (λ k less.
                      file_byte_first table cs some_size contents cluster k (omega arith)
                      ∙ ap (contents cluster) (omega arith))
                    (λ k low high.
                      let full : chunk ≡ cs = omega arith in
                      file_byte_step table cs some_size contents cluster k (omega arith)
                      ∙ ap (λ n. file_byte contents table cs (table cluster) (k - n)) (sym full))
                    (read_loop fuel table (size - chunk) (at + chunk) (table cluster) out' fs')
                    (read_loop-IsReadTo fuel (size - chunk) (at + chunk) (table cluster) out' fs'
                      (omega arith) (next.3.0 ∙ is_cs) next.0 next.1
                      (λ c real. next.2 c (contents c) real (holds c real))
                      (subst (IsChain table cs (table cluster)) left
                        (IsChain-step table cs some_size cluster size chain)))))
        | inr done ↦ rw done (
            nothing-IsReadTo fs at size (file_byte contents table cs cluster) out cache free
              (ground (arith, done)))
      ]

  read_at-IsReadTo :
      (size place cluster : ℕ) (out : Buffer) (fs : FileSystem)
      → 0 < size
      → place < cs
      → cluster_size fs ≡ cs
      → IsCache fs
      → IsFree fs
      → HoldsAll contents fs
      → IsChain table cs cluster (size + place)
      → IsReadTo fs 0 size
          (λ k. file_byte contents table cs cluster (place + k))
          out
          (read_at table size place cluster out fs)
  unfolding read_at
  read_at-IsReadTo size place cluster out fs some_left inside is_cs cache free holds chain =
      let valid =
        subst (λ c. (2 ≤ c) × (c < 4080)) (cluster_of_first table cs some_size cluster 0 some_size)
          (chain 0 (omega arith)) in
      let left = cluster_size fs - place in
      let byte = λ (k : ℕ). file_byte contents table cs cluster (place + k) in
      elim (Bool-cases (ltb size left)) [
        | inl last ↦
            let small = ltb→lt size left last in
            let from : size ≡ 0 + size = omega arith in
            rw last (
              first-IsReadTo fs place size size (contents cluster) byte out
                (λ out' fs'. returned size out' fs') (copy_cluster cluster 0 place size out fs)
                (copy_cluster-IsCopied fs cluster 0 place size (contents cluster) out valid.0 cache
                  free (holds cluster valid.0) (omega arith) valid.1)
                (λ out' fs' next copy.
                  joined-IsReadTo fs fs' 0 size size (λ k. contents cluster (place + k)) byte byte
                    out out' next (omega arith) copy
                    (λ k less.
                      file_byte_first table cs some_size contents cluster (place + k) (omega arith))
                    (λ k low high. absurd (omega arith)) (returned size out' fs')
                    (subst (λ a. IsReadTo fs' a (size - size) byte out' (returned size out' fs'))
                      from
                      (nothing-IsReadTo fs' size (size - size) byte out' next.0 next.1
                        (omega arith)))))
        | inr more ↦
            let large = ltb→le size left more in
            let from : left ≡ 0 + left = omega arith in
            let rest = file_byte contents table cs (table cluster) in
            let go = λ (out' : Buffer) (fs' : FileSystem).
              read_loop (size + 1) table (size - left) left (table cluster) out' fs' in
            let after : size + place - cs ≡ size - left = omega arith in
            rw more (
              first-IsReadTo fs place left size (contents cluster) byte out go
                (copy_cluster cluster 0 place left out fs)
                (copy_cluster-IsCopied fs cluster 0 place left (contents cluster) out valid.0 cache
                  free (holds cluster valid.0) (omega arith) valid.1)
                (λ out' fs' next copy.
                  joined-IsReadTo fs fs' 0 left size (λ k. contents cluster (place + k)) rest byte
                    out out' next large copy
                    (λ k less.
                      file_byte_first table cs some_size contents cluster (place + k) (omega arith))
                    (λ k low high.
                      file_byte_step table cs some_size contents cluster (place + k) (omega arith)
                      ∙ ap rest (omega arith))
                    (go out' fs')
                    (subst (λ a. IsReadTo fs' a (size - left) rest out' (go out' fs')) from
                      (read_loop-IsReadTo (size + 1) (size - left) left (table cluster) out' fs'
                        (omega arith) (next.3.0 ∙ is_cs) next.0 next.1
                        (λ c real. next.2 c (contents c) real (holds c real))
                        (subst (IsChain table cs (table cluster)) after
                          (IsChain-step table cs some_size cluster (size + place) chain))))))
      ]

  found-IsReadTo :
      (size offset total cluster : ℕ) (out : Buffer) (fs : FileSystem)
      → 0 < size
      → size ≤ total - offset
      → offset < total
      → cluster_size fs ≡ cs
      → IsCache fs
      → IsFree fs
      → HoldsAll contents fs
      → IsChain table cs cluster total
      → IsReadTo fs 0 size
          (λ k. file_byte contents table cs cluster (offset + k))
          out
          (found table size out fs (seek_loop (offset + 1) table cs offset cluster))
  found-IsReadTo size offset total cluster out fs some_left fits inside is_cs cache free holds
        chain =
      let (c, place, e, small, chain', same) =
        seek_loop_lem table cs some_size (offset + 1) offset cluster total (omega arith) inside
          chain in
      rw e (
        subst (λ (b : Buffer). IsReadTo fs 0 size b out (read_at table size place c out fs))
          (fun_ext (λ k. sym (same contents k)))
          (read_at-IsReadTo size place c out fs some_left small is_cs cache free holds
            (λ k less. chain' k (omega arith))))

  -- `read` of a file with a chain of clusters as long as the file, of less than 65536 bytes each,
  -- from an offset in it, over a well-formed cache with a free buffer: it reads up to the end of the file at most, and answers
  -- as many bytes as it reads, which are those of the file; it keeps a well-formed cache with a free
  -- buffer and the contents of all clusters; or it panics, and then a sector is not answered.
  pub read-IsReadTo :
      (node : Inode) (size offset : ℕ) (out : Buffer) (fs : FileSystem)
      → node.no_file ≡ false
      → 0 < size
      → offset < node.size
      → cluster_size fs ≡ cs
      → IsCache fs
      → IsFree fs
      → HoldsAll contents fs
      → IsChain table cs node.start_cluster node.size
      → IsReadTo fs 0
          (min size (node.size - offset))
          (λ k. file_byte contents table cs node.start_cluster (offset + k))
          out
          (read node table size offset out fs)
  unfolding read
  read-IsReadTo node size offset out fs is_file some_left inside is_cs cache free holds chain =
      let valid =
        subst (λ c. (2 ≤ c) × (c < 4080))
          (cluster_of_first table cs some_size node.start_cluster 0 some_size)
          (chain 0 (omega arith)) in
      let checks : (ltb node.start_cluster 2 || leb node.size offset || size == 0) ≡ false =
        ground (arith, valid.0, inside, some_left) in
      let size' = if ltb node.size (size + offset) then node.size - offset else size in
      let is_size : size' ≡ min size (node.size - offset) = ground (arith, inside) in
      rw (checks, is_file, is_cs, is_size)
        (found-IsReadTo (min size (node.size - offset)) offset node.size node.start_cluster out fs
          (omega arith) (omega arith) inside is_cs cache free holds chain)
