-- ===== src/FileWrite/Examples.antt =====
-- `write` across the border of the two clusters of a file.
use sysu_os.Base.{ℕ, ◌+◌, ◌-◌, ◌/◌, ◌<◌, ltb, min, ◌≡◌, refl, sym, ◌∙◌, Bool-cases, inl, inr, arith}
use sysu_os.FatTable.{Buffer}
use sysu_os.FileData.Chain.{cluster_of, cluster_of_first, cluster_of_step}
use sysu_os.FileData.Sample.{
  files, files-IsCache, files-IsFree, no_bytes, files-HoldsAll, table, node, node-IsChain,
}
use sysu_os.FileWrite.{write}
use sysu_os.FileWrite.Bytes.{IsDistinct}
use sysu_os.FileWrite.Loop.{IsWrittenTo, write-IsWrittenTo}
use sysu_os.FileWrite.ReadBack.{IsReadBack, read-write_file}

-- the cluster of a byte
cluster_lem : (k : ℕ) → k < 600 → cluster_of table 512 5 k ≡ 5 + k / 512
cluster_lem k less = elim (Bool-cases (ltb k 512)) [
  | inl near ↦
      cluster_of_first table 512 (omega arith) 5 k (ground (arith, near)) ∙ ground (arith, near)
  | inr far ↦
      cluster_of_step table 512 (omega arith) 5 k (ground (arith, far))
      ∙ cluster_of_first table 512 (omega arith) 6 (k - 512) (omega arith)
      ∙ ground (arith, far)
]

node-IsDistinct : IsDistinct table 512 5 600
node-IsDistinct k l less less' met =
    let e = sym (cluster_lem k less) ∙ met ∙ cluster_lem l less' in omega arith

-- the bytes that are written
abbrev text : Buffer
text k = k + 65

write-IsWrittenTo_example :
    IsWrittenTo table 512 5 600 no_bytes 450 text files
      (min 100 150)
      (write node table 100 450 text files)
write-IsWrittenTo_example =
    write-IsWrittenTo table 512 5 600 no_bytes 450 text (omega arith) (omega arith) node-IsDistinct
      node-IsChain node 100 files refl refl refl (omega arith) (omega arith) refl
      (files-IsCache, files-IsFree, files-HoldsAll)

read-write_file_example :
    IsReadBack table 600 450 text node 100 (λ k. 0) files (write node table 100 450 text files)
read-write_file_example =
    read-write_file table 512 5 600 no_bytes 450 text (omega arith) (omega arith) node-IsDistinct
      node-IsChain node 100 (λ k. 0) files refl refl refl (omega arith) (omega arith) refl
      (files-IsCache, files-IsFree, files-HoldsAll)
