-- ===== src/FileData/Examples.antt =====
-- `read` of a part of a file of two clusters.
use sysu_os.Base.{◌+◌, ◌-◌, min, refl, arith}
use sysu_os.FileData.{read}
use sysu_os.FileData.Chain.{file_byte}
use sysu_os.FileData.Joined.{IsReadTo}
use sysu_os.FileData.Read.{read-IsReadTo}
use sysu_os.FileData.Sample.{
  files, files-IsCache, files-IsFree, no_bytes, files-HoldsAll, table, node, node-IsChain,
}

read-IsReadTo_example :
    IsReadTo files 0
      (min 200 (600 - 450))
      (λ k. file_byte no_bytes table 512 5 (450 + k))
      (λ o. 1)
      (read node table 200 450 (λ o. 1) files)
read-IsReadTo_example =
    read-IsReadTo no_bytes table 512 (omega arith) (omega arith) node 200 450 (λ o. 1) files refl
      (omega arith) (omega arith) refl files-IsCache files-IsFree files-HoldsAll node-IsChain
