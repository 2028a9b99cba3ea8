-- ===== src/ClusterCache/View.antt =====
-- The clusters as the file system sees them: in the cache, or else on the disk.
use sysu_os.Base.{
  ℕ, zero, suc, ◌+◌, ◌-◌, ◌*◌, ◌/◌, ◌%◌, ◌<◌, ◌≤◌, ◌==◌, ltb, leb, ◌≡◌, ◌≢◌, ◌⊎◌, refl, Bool, true,
  false, ◌&&◌, Bool-cases, inl, inr, arith, ==→eq, ltb→lt, ==_refl, none, some,
}
use sysu_os.FatTable.{Buffer, Device}
use sysu_os.ClusterCache.{ClusterBuffer, FileSystem, Pool, put_buffer, cluster2sector, first_buffer}
use sysu_os.ClusterCache.Sectors.{byte_at}

abbrev pub cluster_size : FileSystem → ℕ
cluster_size fs = fs.sectors_per_cluster * 512

-- a cluster on the disk
abbrev pub disk : FileSystem → ℕ → Buffer
disk fs c = byte_at fs.device (cluster2sector fs c)

abbrev pub Agrees : FileSystem → Buffer → Buffer → Type 0
Agrees fs buf f = (o : ℕ) → o < cluster_size fs → buf o ≡ f o

-- No cluster has two buffers; a buffer that has changed has a real cluster; and a buffer that has not
-- changed is its cluster on the disk.
pub record IsCoherent (fs : FileSystem) : Type 0 where
  pub distinct :
      (i j : ℕ)
      → i < 64
      → j < 64
      → 2 ≤ (fs.cache_pool i).cluster_num
      → (fs.cache_pool i).cluster_num ≡ (fs.cache_pool j).cluster_num
      → i ≡ j
  pub used : (i : ℕ) → i < 64 → (fs.cache_pool i).dirty ≡ true → 2 ≤ (fs.cache_pool i).cluster_num
  pub clean :
      (i : ℕ)
      → i < 64
      → 2 ≤ (fs.cache_pool i).cluster_num
      → (fs.cache_pool i).dirty ≡ false
      → Agrees fs (fs.cache_pool i).buf (disk fs (fs.cache_pool i).cluster_num)

-- A buffer that nobody uses has not changed.
abbrev pub IsBusy : FileSystem → Type 0
IsBusy fs = (i : ℕ) → i < 64 → (fs.cache_pool i).refcount ≡ 0 → (fs.cache_pool i).dirty ≡ false

abbrev pub IsCache : FileSystem → Type 0
IsCache fs = IsCoherent fs × IsBusy fs

abbrev pub IsBuffered : FileSystem → ℕ → Buffer → Type 0
IsBuffered fs c f =
    (i : ℕ) × (i < 64) × ((fs.cache_pool i).cluster_num ≡ c) × Agrees fs (fs.cache_pool i).buf f

abbrev pub IsUncached : FileSystem → ℕ → Type 0
IsUncached fs c = (i : ℕ) → i < 64 → (fs.cache_pool i).cluster_num ≢ c

-- a cluster has the contents `f`
abbrev pub Holds : FileSystem → ℕ → Buffer → Type 0
Holds fs c f = IsBuffered fs c f ⊎ (IsUncached fs c × Agrees fs (disk fs c) f)

-- the same size of a cluster, and the same sectors answered
abbrev pub IsSameShape : FileSystem → FileSystem → Type 0
IsSameShape fs fs' = (cluster_size fs' ≡ cluster_size fs) × (fs'.device.answers ≡ fs.device.answers)

-- Every cluster keeps its contents.
abbrev pub IsKept : FileSystem → FileSystem → Type 0
IsKept fs fs' = (c : ℕ) (f : Buffer) → 2 ≤ c → Holds fs c f → Holds fs' c f

pub put_buffer-same : (pool : Pool) (idx : ℕ) (b : ClusterBuffer) → put_buffer pool idx b idx ≡ b
put_buffer-same pool idx b = rw (==_refl idx) refl

pub put_buffer-other :
    (pool : Pool) (idx i : ℕ) (b : ClusterBuffer) → i ≢ idx → put_buffer pool idx b i ≡ pool i
put_buffer-other pool idx i b other = let away : (i == idx) ≡ false = ground arith in rw away refl

-- The disk does not depend on the buffers.
pub disk-pool :
    (fs : FileSystem) (pool : Pool) (c : ℕ) → disk (record fs { cache_pool = pool }) c ≡ disk fs c
unfolding cluster2sector
disk-pool fs pool c = refl

-- Nor on the sectors before the clusters.
pub disk-device :
    (fs : FileSystem) (d : Device)
    → ((s o : ℕ) → fs.data_start_sector ≤ s → d.sectors s o ≡ fs.device.sectors s o)
    → (c : ℕ) → Agrees fs (disk (record fs { device = d }) c) (disk fs c)
unfolding cluster2sector
disk-device fs d same c o inside = same (cluster2sector fs c + o / 512) (o % 512) (omega arith)

-- A field that a new buffer shares with the old one stays as it is everywhere.
pub put_buffer-field {ℓ} :
    {A : Type ℓ} (g : ClusterBuffer → A) (pool : Pool) (idx i : ℕ) (b : ClusterBuffer)
    → g b ≡ g (pool idx)
    → g (put_buffer pool idx b i) ≡ g (pool i)
put_buffer-field g pool idx i b e = elim (Bool-cases (i == idx)) [
  | inl same ↦ rw (same, ==→eq i idx same) e
  | inr other ↦ rw other refl
]

-- the file system with other buffers, disk and time
abbrev pub changed : FileSystem → Pool → Device → ℕ → FileSystem
changed fs pool d time = record fs { cache_pool = pool; device = d; access_time = time }

times_below : (a b s : ℕ) → a < b → a * s + s ≤ b * s
times_below a b s less = grind arith

multiple_apart :
    (a b s k : ℕ) → a ≢ b → k < s → (leb (a * s) (b * s + k) && ltb (b * s + k) (a * s + s)) ≡ false
multiple_apart a b s k apart less = elim (Bool-cases (ltb a b)) [
  | inl below ↦ let far = times_below a b s (ltb→lt a b below) in ground arith
  | inr above ↦ let far = times_below b a s (ground arith) in ground arith
]

-- The sectors of different clusters are different.
pub sectors_apart :
    (fs : FileSystem) (c c' o : ℕ)
    → 2 ≤ c
    → 2 ≤ c'
    → c ≢ c'
    → o < cluster_size fs
    → (leb (cluster2sector fs c + 0) (cluster2sector fs c' + o / 512)
        && ltb (cluster2sector fs c' + o / 512) (cluster2sector fs c + 0 + fs.sectors_per_cluster))
      ≡ false
unfolding cluster2sector
sectors_apart fs c c' o real real' apart inside =
    let k = o / 512 in
    let small : k < fs.sectors_per_cluster = omega arith in
    let away = multiple_apart (c - 2) (c' - 2) fs.sectors_per_cluster k (omega arith) small in
    ground (arith, away)

-- `first_buffer` answers a buffer that passes the test, or none, and then none passes it.
pub first_buffer_lem :
    (test : ClusterBuffer → Bool) (n i : ℕ) (pool : Pool)
    → ((k : ℕ) × (first_buffer test n i pool ≡ some k) × (k < i + n) × (test (pool k) ≡ true))
      ⊎ ((first_buffer test n i pool ≡ none)
          × ((k : ℕ) → i ≤ k → k < i + n → test (pool k) ≡ false))
unfolding first_buffer
first_buffer_lem test zero i pool = inr (refl, λ k low high. absurd (omega arith))
first_buffer_lem test (suc n) i pool = elim (Bool-cases (test (pool i))) [
  | inl hit ↦ rw hit (inl (i, refl, omega arith, hit))
  | inr miss ↦ rw miss (elim (first_buffer_lem test n (i + 1) pool) [
    | inl (k, found, less, passes) ↦ inl (k, found, omega arith, passes)
    | inr (nothing, fails) ↦ inr (
      nothing,
      λ k low high. elim (Bool-cases (k == i)) [
        | inl here ↦ rw (==→eq k i here) miss
        | inr behind ↦ fails k (ground arith) (omega arith)
      ],
    )
  ])
]
