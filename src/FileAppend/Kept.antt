-- ===== src/FileAppend/Kept.antt =====
-- Flushing the allocation table keeps the contents of the clusters.
use sysu_os.Base.{ℕ, ◌+◌, ◌*◌, ◌/◌, ◌≤◌, ◌≡◌, refl, sym, ◌∙◌, Bool, false, arith}
use sysu_os.FatTable.{Buffer, flush_fat_table}
use sysu_os.FatTable.Elsewhere.{flush_fat_table-IsElsewhere}
use sysu_os.ClusterCache.{FileSystem}
use sysu_os.ClusterCache.View.{disk-device, IsSameShape}
use sysu_os.ClusterCache.Changed.{IsSamePool, Holds-changed, IsCoherent-changed}
use sysu_os.ClusterCache.Release.{IsFailing}
use sysu_os.FileWrite.Loop.{IsState}
use sysu_os.FileAppend.{Volume, flush, set_fs}

-- the sectors of the table that are written stand before the clusters
abbrev pub IsInFront : Volume → Type 0
IsInFront v = v.reserved_sector_count + 3 * ((v.fat_size + 2) / 3) ≤ v.fs.data_start_sector

-- what `flush` leaves
abbrev pub IsFlushed : (ℕ → Buffer) → Volume → Bool × Volume → Type 0
IsFlushed contents v r =
    (ok : Bool) × (fs : FileSystem) × (r ≡ (ok, set_fs v fs))
    × IsState contents fs
    × IsSameShape v.fs fs
    × (fs.data_start_sector ≡ v.fs.data_start_sector)
    × (ok ≡ false → IsFailing v.fs.device)

pub flush-IsFlushed :
    (contents : ℕ → Buffer) (v : Volume)
    → IsInFront v
    → IsState contents v.fs
    → IsFlushed contents v (flush v)
unfolding flush
flush-IsFlushed contents v front (cache, free, holds) =
    let fs = v.fs in
    let run =
      flush_fat_table v.fat_size v.reserved_sector_count v.fat_table fs.device
        v.tmp_sector_buffer in
    let e =
      flush_fat_table-IsElsewhere v.fat_size v.reserved_sector_count v.fat_table fs.device
        v.tmp_sector_buffer in
    let fs' = record fs { device = run.1 } in
    let away = disk-device fs run.1 (λ s o behind. e.sectors s o (omega (arith, front))) in
    let same : IsSamePool fs fs.cache_pool = λ i. (refl, refl) in
    (
      run.0,
      fs',
      refl,
      (
        (
          IsCoherent-changed fs fs.cache_pool run.1 fs.access_time 0 (omega arith) cache.0 same
              (λ c real apart. away c) (λ i d. d) (λ i apart. refl)
              (λ tidy real o inside.
                cache.0.clean 0 (omega arith) real tidy o inside
                ∙ sym (away (fs.cache_pool 0).cluster_num o inside)),
          cache.1,
        ),
        free,
        λ c real.
            Holds-changed fs fs.cache_pool run.1 fs.access_time 0 (omega arith) same
              (λ c real apart. away c) c (contents c) real (holds c real),
      ),
      (refl, e.answers),
      refl,
      e.fails,
    )
