-- ===== src/ClusterCache/Write.antt =====
-- `write_cluster` keeps the contents of the clusters.
use sysu_os.Base.{
  ℕ, ◌+◌, ◌-◌, ◌*◌, ◌/◌, ◌%◌, ◌<◌, ◌≤◌, ◌==◌, ltb, leb, ◌≡◌, ◌≢◌, refl, sym, ap, ◌∙◌, subst, Bool,
  true, false, ◌&&◌, if◌then◌else◌, Bool-cases, inl, inr, arith, ==→eq, ==→ne,
}
use sysu_os.FatTable.{Device}
use sysu_os.ClusterCache.{
  ClusterBuffer, FileSystem, Pool, put_buffer, cluster2sector, write_sectors, write_cluster,
  next_time,
}
use sysu_os.ClusterCache.Sectors.{write_sectors_lem, write_sectors_answers, write_sectors_outside}
use sysu_os.ClusterCache.View.{
  disk, Agrees, IsCoherent, IsKept, IsSameShape, put_buffer-same, put_buffer-other,
  put_buffer-field, changed, sectors_apart,
}
use sysu_os.ClusterCache.Changed.{IsSamePool, IsSameDisk, Holds-changed, IsCoherent-changed}

-- what `write_cluster` leaves
pub record IsWritten (fs : FileSystem) (idx : ℕ) (ok : Bool) (fs' : FileSystem) : Type 0 where
  pub coherent : IsCoherent fs'
  pub kept : IsKept fs fs'
  pub tidy : ok ≡ true → (fs'.cache_pool idx).dirty ≡ false
  pub counts : (i : ℕ) → (fs'.cache_pool i).refcount ≡ (fs.cache_pool i).refcount
  pub cleaner : (i : ℕ) → (fs'.cache_pool i).dirty ≡ true → (fs.cache_pool i).dirty ≡ true
  pub shape : IsSameShape fs fs'

-- the buffer that `write_cluster` writes, its pool and the disk
abbrev pub stamped : FileSystem → ℕ → Bool → Pool
stamped fs idx dirty =
    put_buffer fs.cache_pool idx
      (record (fs.cache_pool idx) { last_used_time = fs.access_time; dirty = dirty })

abbrev pub writing : FileSystem → ℕ → Bool × Device
writing fs idx =
    write_sectors fs.sectors_per_cluster 0 (cluster2sector fs (fs.cache_pool idx).cluster_num)
      fs.device (fs.cache_pool idx).buf

pub write_dirty :
    (fs : FileSystem) (idx : ℕ)
    → (fs.cache_pool idx).dirty ≡ true
    → write_cluster idx fs ≡ (
      (writing fs idx).0,
      changed fs
          (stamped fs idx (if (writing fs idx).0 then false else true))
          (writing fs idx).1
          (next_time fs),
    )
unfolding write_cluster
write_dirty fs idx dirty = rw dirty refl

pub write_clean :
    (fs : FileSystem) (idx : ℕ)
    → (fs.cache_pool idx).dirty ≡ false
    → write_cluster idx fs ≡ (true, changed fs (stamped fs idx false) fs.device (next_time fs))
unfolding write_cluster
write_clean fs idx tidy = rw tidy refl

module _ (fs : FileSystem) (idx : ℕ) (dirty : Bool) where
  stamped-IsSamePool : IsSamePool fs (stamped fs idx dirty)
  stamped-IsSamePool i =
      let b : ClusterBuffer = record (fs.cache_pool idx) {
        last_used_time = fs.access_time;
        dirty = dirty;
      } in
      (
        put_buffer-field (λ b. b.cluster_num) fs.cache_pool idx i b refl,
        put_buffer-field (λ b. b.buf) fs.cache_pool idx i b refl,
      )

  stamped_refcount : (i : ℕ) → (stamped fs idx dirty i).refcount ≡ (fs.cache_pool i).refcount
  stamped_refcount i =
      put_buffer-field (λ b. b.refcount) fs.cache_pool idx i
        (record (fs.cache_pool idx) { last_used_time = fs.access_time; dirty = dirty }) refl

  stamped_dirty : (stamped fs idx dirty idx).dirty ≡ dirty
  stamped_dirty =
      ap (λ (b : ClusterBuffer). b.dirty)
        (put_buffer-same fs.cache_pool idx
          (record (fs.cache_pool idx) { last_used_time = fs.access_time; dirty = dirty }))

  stamped_others : (i : ℕ) → i ≢ idx → (stamped fs idx dirty i).dirty ≡ (fs.cache_pool i).dirty
  stamped_others i apart =
      ap (λ (b : ClusterBuffer). b.dirty)
        (put_buffer-other fs.cache_pool idx i
          (record (fs.cache_pool idx) { last_used_time = fs.access_time; dirty = dirty }) apart)

  stamped_cleaner :
      (dirty ≡ true → (fs.cache_pool idx).dirty ≡ true)
      → (i : ℕ) → (stamped fs idx dirty i).dirty ≡ true
      → (fs.cache_pool i).dirty ≡ true
  stamped_cleaner h i e = elim (Bool-cases (i == idx)) [
    | inl here ↦
        subst (λ k. (fs.cache_pool k).dirty ≡ true) (sym (==→eq i idx here))
          (h (
            sym stamped_dirty
            ∙ subst (λ k. (stamped fs idx dirty k).dirty ≡ true) (==→eq i idx here) e))
    | inr more ↦ sym (stamped_others i (==→ne i idx more)) ∙ e
  ]

module _ (fs : FileSystem) (idx : ℕ) (less : idx < 64) (coherent : IsCoherent fs) where
  away-clean : (pool : Pool) (time : ℕ) → IsSameDisk fs idx (changed fs pool fs.device time)
  unfolding cluster2sector
  away-clean pool time c real apart o inside = refl

  unwritten :
      (time : ℕ)
      → 2 ≤ (fs.cache_pool idx).cluster_num
      → (fs.cache_pool idx).dirty ≡ false
      → Agrees fs
          (fs.cache_pool idx).buf
          (disk (changed fs (stamped fs idx false) fs.device time) (fs.cache_pool idx).cluster_num)
  unfolding cluster2sector
  unwritten time real tidy = coherent.clean idx less real tidy

  module _ (is_dirty : (fs.cache_pool idx).dirty ≡ true) where
    away-dirty :
        (pool : Pool) (time : ℕ) → IsSameDisk fs idx (changed fs pool (writing fs idx).1 time)
    unfolding cluster2sector
    away-dirty pool time c real apart o inside =
        let num = (fs.cache_pool idx).cluster_num in
        write_sectors_outside fs.sectors_per_cluster 0 (cluster2sector fs num) fs.device
          (fs.cache_pool idx).buf (cluster2sector fs c + o / 512) (o % 512)
          (sectors_apart fs num c o (coherent.used idx less is_dirty) real (λ e. apart (sym e))
            inside)

    written-dirty :
        (pool : Pool) (time : ℕ)
        → (writing fs idx).0 ≡ true
        → Agrees fs
            (fs.cache_pool idx).buf
            (disk (changed fs pool (writing fs idx).1 time) (fs.cache_pool idx).cluster_num)
    unfolding cluster2sector
    written-dirty pool time ok o inside =
        let sector = cluster2sector fs (fs.cache_pool idx).cluster_num in
        let lba = sector + o / 512 in
        let within : (leb (sector + 0) lba
              && ltb lba (sector + 0 + fs.sectors_per_cluster)
              && ltb (o % 512) 512)
            ≡ true =
          ground arith in
        let place : (lba - sector) * 512 + o % 512 ≡ o = omega arith in
        let b = (fs.cache_pool idx).buf in
        sym (
          write_sectors_lem fs.sectors_per_cluster 0 sector fs.device b ok lba (o % 512)
          ∙ ap
              (λ t.
                if t then b ((lba - sector) * 512 + o % 512) else fs.device.sectors lba (o % 512))
              within
          ∙ ap b place)

  -- `write_cluster` keeps the contents of the clusters, also where it fails.
  pub write_cluster-IsWritten : IsWritten fs idx (write_cluster idx fs).0 (write_cluster idx fs).1
  write_cluster-IsWritten = elim (Bool-cases (fs.cache_pool idx).dirty) [
    | inl is_dirty ↦
        let ok = (writing fs idx).0 in
        let left = if ok then false else true in
        let finished : left ≡ false → ok ≡ true = λ e. ground (arith, e) in
        subst (λ (r : Bool × FileSystem). IsWritten fs idx r.0 r.1)
          (sym (write_dirty fs idx is_dirty))
          (record {
            coherent =
                IsCoherent-changed fs (stamped fs idx left) (writing fs idx).1 (next_time fs) idx
                  less coherent (stamped-IsSamePool fs idx left)
                  (away-dirty is_dirty (stamped fs idx left) (next_time fs))
                  (stamped_cleaner fs idx left (λ e. is_dirty)) (stamped_others fs idx left)
                  (λ e real.
                    written-dirty is_dirty (stamped fs idx left) (next_time fs)
                      (finished (sym (stamped_dirty fs idx left) ∙ e)));
            kept =
                Holds-changed fs (stamped fs idx left) (writing fs idx).1 (next_time fs) idx less
                  (stamped-IsSamePool fs idx left)
                  (away-dirty is_dirty (stamped fs idx left) (next_time fs));
            tidy = λ e. stamped_dirty fs idx left ∙ ap (λ t. if t then false else true) e;
            counts = stamped_refcount fs idx left;
            cleaner = stamped_cleaner fs idx left (λ e. is_dirty);
            shape = (
              refl,
              write_sectors_answers fs.sectors_per_cluster 0
                  (cluster2sector fs (fs.cache_pool idx).cluster_num) fs.device
                  (fs.cache_pool idx).buf,
            );
          })
    | inr is_clean ↦
        subst (λ (r : Bool × FileSystem). IsWritten fs idx r.0 r.1)
          (sym (write_clean fs idx is_clean))
          (record {
            coherent =
                IsCoherent-changed fs (stamped fs idx false) fs.device (next_time fs) idx less
                  coherent (stamped-IsSamePool fs idx false)
                  (away-clean (stamped fs idx false) (next_time fs))
                  (stamped_cleaner fs idx false (λ e. absurd (ground (arith, e))))
                  (stamped_others fs idx false) (λ e real. unwritten (next_time fs) real is_clean);
            kept =
                Holds-changed fs (stamped fs idx false) fs.device (next_time fs) idx less
                  (stamped-IsSamePool fs idx false)
                  (away-clean (stamped fs idx false) (next_time fs));
            tidy = λ e. stamped_dirty fs idx false;
            counts = stamped_refcount fs idx false;
            cleaner = stamped_cleaner fs idx false (λ e. absurd (ground (arith, e)));
            shape = (refl, refl);
          })
  ]
