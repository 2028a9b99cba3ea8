-- ===== src/FileData/Sample.antt =====
-- A file of two clusters on a disk of zeros, and an empty cache.
use sysu_os.Base.{
  ℕ, ◌-◌, ◌<◌, ◌≤◌, ◌==◌, ltb, refl, sym, ◌∙◌, subst, true, false, if◌then◌else◌, Bool-cases, inl,
  inr, arith,
}
use sysu_os.FatTable.{Buffer, Device, Table}
use sysu_os.ClusterCache.{ClusterBuffer, FileSystem}
use sysu_os.ClusterCache.View.{IsCache}
use sysu_os.FileData.{Inode}
use sysu_os.FileData.Copy.{IsFree}
use sysu_os.FileData.Chain.{IsChain, cluster_of_first, cluster_of_step}
use sysu_os.FileData.Joined.{HoldsAll}

abbrev pub zeros : Device
zeros = record { sectors = λ lba o. 0; answers = λ lba. true }

abbrev pub empty : ClusterBuffer
empty = record { cluster_num = 0; last_used_time = 0; buf = λ o. 0; dirty = false; refcount = 0 }

abbrev pub files : FileSystem
files = record {
  cache_pool = λ i. empty;
  device = zeros;
  access_time = 0;
  data_start_sector = 33;
  sectors_per_cluster = 1;
}

pub files-IsCache : IsCache files
files-IsCache = (
  record {
    distinct = λ i j small small' real e. absurd (omega (arith, real));
    used = λ i small dirty. absurd (ground (arith, dirty));
    clean = λ i small real tidy o inside. absurd (omega (arith, real));
  },
  λ i small free. refl,
)

pub files-IsFree : IsFree files
files-IsFree = (0, omega arith, refl)

unfoldable pub no_bytes : ℕ → Buffer
no_bytes c o = 0

pub files-HoldsAll : HoldsAll no_bytes files
unfolding no_bytes
files-HoldsAll c real = inr ((λ i small e. absurd (omega (arith, real, e))), λ o inside. refl)

-- cluster 5 is followed by cluster 6
abbrev pub table : Table
table c = if c == 5 then 6 else 4095

abbrev pub node : Inode
node = record { start_cluster = 5; size = 600; no_file = false }

pub node-IsChain : IsChain table 512 5 600
node-IsChain k less = elim (Bool-cases (ltb k 512)) [
  | inl near ↦
      subst (λ c. (2 ≤ c) × (c < 4080))
        (sym (cluster_of_first table 512 (omega arith) 5 k (ground (arith, near))))
        (omega arith, omega arith)
  | inr far ↦
      subst (λ c. (2 ≤ c) × (c < 4080))
        (sym (
          cluster_of_step table 512 (omega arith) 5 k (ground (arith, far))
          ∙ cluster_of_first table 512 (omega arith) 6 (k - 512) (omega arith)))
        (omega arith, omega arith)
]
