-- ===== src/FileAppend/Grow.antt =====
-- The loop of `append` over new clusters: the chain that it builds and what its clusters hold.
use sysu_os.Base.{
  ℕ, zero, suc, ◌+◌, ◌-◌, ◌*◌, ◌/◌, ◌<◌, ◌≤◌, ◌==◌, min, ◌≡◌, ◌≢◌, ◌⊎◌, refl, sym, ◌∙◌, subst, Bool,
  Bool-cases, inl, inr, arith, ==→eq, ==→ne, Option, none, some, List, [], ◌∷◌, length,
}
use sysu_os.FatTable.{Buffer, Table, put, allocate_cluster, free_cluster}
use sysu_os.FatTable.Clusters.{allocate_cluster-free, free_cluster-put}
use sysu_os.ClusterCache.{FileSystem}
use sysu_os.ClusterCache.View.{IsSameShape, cluster_size}
use sysu_os.ClusterCache.Release.{IsFailing}
use sysu_os.ClusterCache.Place.{IsInPlace}
use sysu_os.FileData.Copy.{failing}
use sysu_os.FileWrite.Loop.{IsState}
use sysu_os.FileAppend.{
  Volume, Growing, grown, no_fuel, stuck, set_fs, set_table, end_of_chain, fill_cluster, fill_new,
  grow_next, grow_loop,
}
use sysu_os.FileAppend.Fill.{IsFill, with_new, fill_new-IsFill}
use sysu_os.FileAppend.Kept.{IsInFront, flush-IsFlushed}

-- the table with the clusters `ns` behind the last one of a chain
abbrev pub link : ℕ → List ℕ → Table → Table
link last [] t = t
link last (n ∷ ns) t = link n ns (put (put t last n) n end_of_chain)

abbrev pub AllFree : Table → ℕ → List ℕ → Type 0
AllFree t cluster_count [] = Unit {0}
AllFree t cluster_count (n ∷ ns) =
    (2 ≤ n) × (n < cluster_count) × (t n ≡ 0) × AllFree t cluster_count ns

-- the contents with `size` bytes of `src + count` spread over new clusters
abbrev pub spread : ℕ → (ℕ → Buffer) → List ℕ → ℕ → ℕ → Buffer → ℕ → Buffer
spread cs contents [] count size src = contents
spread cs contents (n ∷ ns) count size src =
    let chunk = min size cs in
    spread cs (with_new cs contents n count chunk src) ns (count + chunk) (size - chunk) src

-- a table in front of the clusters, which are 2 to 4080 and have at least one sector
abbrev pub IsVolume : Volume → Type 0
IsVolume v =
    IsInFront v × (0 < cluster_size v.fs) × (2 ≤ v.cluster_count) × (v.cluster_count ≤ 4080)

pub IsVolume-set_fs :
    (v : Volume) (fs : FileSystem)
    → IsVolume v
    → IsSameShape v.fs fs
    → IsInPlace v.fs fs
    → IsVolume (set_fs v fs)
IsVolume-set_fs v fs (front, positive, two, narrow) shape place = (
  subst (λ k. v.reserved_sector_count + 3 * ((v.fat_size + 2) / 3) ≤ k) (sym place) front,
  subst (λ k. 0 < k) (sym shape.0) positive,
  two,
  narrow,
)

-- why the loop ended: all is appended, or a sector is not answered, or no cluster is free
abbrev pub IsEnded : ℕ → Volume → ℕ → Table → Type 0
IsEnded all v count t =
    (count ≡ all) ⊎ (IsFailing v.fs.device ⊎ (allocate_cluster v.cluster_count t ≡ 0))

-- what the loop makes of a volume: it links free clusters behind the chain, and spreads over them as
-- many bytes as they have room for
abbrev pub IsGrown : ℕ → (ℕ → Buffer) → Volume → ℕ → ℕ → ℕ → Buffer → Growing → Type 0
IsGrown cs contents v last size count src (grown count' v') =
    (ns : List ℕ) × AllFree v.fat_table v.cluster_count ns
    × ((c : ℕ) → v'.fat_table c ≡ link last ns v.fat_table c)
    × (count' ≡ count + min size (length ns * cs))
    × IsEnded (count + size) v count' v'.fat_table
    × IsState (spread cs contents ns count size src) v'.fs
    × IsSameShape v.fs v'.fs
    × (v' ≡ record v { fs = v'.fs; fat_table = v'.fat_table; fat_table_dirty = v'.fat_table_dirty })
IsGrown cs contents v last size count src no_fuel = ⊥
IsGrown cs contents v last size count src stuck = IsFailing v.fs.device

-- What is free behind a new cluster was free before.
AllFree-put :
    (t : Table) (cluster_count last new : ℕ) (ns : List ℕ)
    → new ≢ 0
    → AllFree (put (put t last new) new end_of_chain) cluster_count ns
    → AllFree t cluster_count ns
AllFree-put t cluster_count last new [] ne free = tt
AllFree-put t cluster_count last new (n ∷ ns) ne (low, high, is_free, free) =
    (low, high, ground (arith, is_free), AllFree-put t cluster_count last new ns ne free)

room_step :
    (cs size count n : ℕ)
    → count + min size cs + min (size - min size cs) (n * cs) ≡ count + min size (suc n * cs)
room_step cs size count n = let step : suc n * cs ≡ cs + n * cs = grind arith in omega arith

module _ (src : Buffer) (contents : ℕ → Buffer) (v : Volume) (last size count : ℕ) where
  -- no cluster is linked
  alone-IsGrown :
      (v' : Volume)
      → ((c : ℕ) → v'.fat_table c ≡ v.fat_table c)
      → IsEnded (count + size) v count v'.fat_table
      → IsState contents v'.fs
      → IsSameShape v.fs v'.fs
      → v' ≡ record v { fs = v'.fs; fat_table = v'.fat_table; fat_table_dirty = v'.fat_table_dirty }
      → IsGrown (cluster_size v.fs) contents v last size count src (grown count v')
  alone-IsGrown v' table ended state shape same =
      ([], tt, table, omega arith, ended, state, shape, same)

  module _ (new : ℕ) (new_free : (2 ≤ new) × (new < v.cluster_count) × (v.fat_table new ≡ 0)) where
    abbrev pub chunk : ℕ
    chunk = min size (cluster_size v.fs)

    abbrev pub linked : FileSystem → Volume
    linked fs = set_fs (set_table v (put (put v.fat_table last new) new end_of_chain)) fs

    abbrev pub contents' : ℕ → Buffer
    contents' = with_new (cluster_size v.fs) contents new count chunk src

    -- a cluster is linked, and what the rounds behind it do
    linked-IsGrown :
        (fs : FileSystem)
        → IsSameShape v.fs fs
        → (g : Growing)
        → IsGrown (cluster_size v.fs) contents' (linked fs) new (size - chunk) (count + chunk) src g
        → IsGrown (cluster_size v.fs) contents v last size count src g
    linked-IsGrown fs shape (grown count' v') (ns, free, table, sum, ended, state, shape', same) =
        let all : count + chunk + (size - chunk) ≡ count + size = omega arith in
        (
          new ∷ ns,
          (
            new_free.0,
            new_free.1,
            new_free.2,
            AllFree-put v.fat_table v.cluster_count last new ns (omega (arith, new_free.0)) free,
          ),
          table,
          sum ∙ room_step (cluster_size v.fs) size count (length ns),
          (elim ended [
            | inl done ↦ inl (done ∙ all)
            | inr (inl bad) ↦ inr (inl (failing v.fs fs shape bad))
            | inr (inr full) ↦ inr (inr full)
          ]),
          state,
          (shape'.0 ∙ shape.0, shape'.1 ∙ shape.1),
          same,
        )
    linked-IsGrown fs shape no_fuel bad = bad
    linked-IsGrown fs shape stuck bad = failing v.fs fs shape bad

    filled-IsGrown :
        (fs : FileSystem)
        → IsSameShape v.fs fs
        → (go : FileSystem → Growing)
        → ((fs' : FileSystem)
            → IsState contents' fs'
            → IsSameShape v.fs fs'
            → IsInPlace fs fs'
            → IsGrown
                (cluster_size fs')
                contents'
                (linked fs')
                new
                (size - chunk)
                (count + chunk)
                src
                (go fs'))
        → (o : Option (Bool × FileSystem)) → IsFill fs contents' o
        → IsGrown
            (cluster_size v.fs)
            contents
            v
            last
            size
            count
            src
            (grow_next go (count + chunk) (linked fs) o)
    filled-IsGrown fs shape go next none bad = failing v.fs fs shape bad
    filled-IsGrown fs shape go next (some (ok, fs')) (state, shape', place, bad) =
        let shape'' : IsSameShape v.fs fs' = (shape'.0 ∙ shape.0, shape'.1 ∙ shape.1) in
        elim (Bool-cases ok) [
          | inl written ↦ rw written (
              linked-IsGrown fs' shape'' (go fs') (
                subst
                  (λ cs.
                    IsGrown cs contents' (linked fs') new (size - chunk) (count + chunk) src
                      (go fs'))
                  shape''.0 (next fs' state shape'' place)))
          | inr failed ↦ rw failed (
              linked-IsGrown fs' shape'' (grown (count + chunk) (linked fs')) (
                [],
                tt,
                (λ c. refl),
                omega arith,
                inr (inl (failing fs' fs (sym shape'.0, sym shape'.1) (bad failed))),
                state,
                (refl, refl),
                refl,
              ))
        ]

module _ (src : Buffer) where
  -- The loop over new clusters, over a volume in order, from the end of a chain: it ends, with as many
  -- bytes appended as the new clusters have room for.
  pub grow_loop-IsGrown :
      (fuel size count last : ℕ) (contents : ℕ → Buffer) (v : Volume)
      → size < fuel
      → IsVolume v
      → IsState contents v.fs
      → v.fat_table last ≡ end_of_chain
      → IsGrown
          (cluster_size v.fs)
          contents
          v
          last
          size
          count
          src
          (grow_loop fuel size count last src v)
  unfolding grow_loop
  grow_loop-IsGrown zero size count last contents v enough volume state ends = absurd (omega arith)
  grow_loop-IsGrown (suc fuel) size count last contents v enough volume state ends =
      let (front, positive, two, narrow) = volume in
      let new = allocate_cluster v.cluster_count v.fat_table in
      let here = alone-IsGrown src contents v last size count v (λ c. refl) in
      elim (Bool-cases (size == 0)) [
        | inl nothing ↦
            rw nothing (here (inl (omega (arith, ==→eq size 0 nothing))) state (refl, refl) refl)
        | inr more ↦ elim (Bool-cases (new == 0)) [
          | inl full ↦ rw (more, full) (here (inr (inr (==→eq new 0 full))) state (refl, refl) refl)
          | inr found ↦
              let new_free =
                allocate_cluster-free v.cluster_count v.fat_table two (==→ne new 0 found) in
              let v0 = set_table v (put (put v.fat_table last new) new end_of_chain) in
              let (ok, fs, flushed, state', shape, place, bad) =
                flush-IsFlushed contents v0 front state in
              rw (more, found, flushed)
                (elim (Bool-cases ok) [
                  | inr failed ↦ rw failed (
                      alone-IsGrown src contents v last size count
                        (set_table (set_fs v0 fs)
                          (put (free_cluster v0.fat_table new) last end_of_chain))
                        (free_cluster-put v.fat_table last new end_of_chain ends new_free.2)
                        (inr (inl (bad failed))) state' shape refl)
                  | inl written ↦
                      let chunk = min size (cluster_size v.fs) in
                      let next = with_new (cluster_size v.fs) contents new count chunk src in
                      rw written (
                        filled-IsGrown src contents v last size count new new_free fs shape
                          (λ fs'.
                            grow_loop fuel (size - chunk) (count + chunk) new src (set_fs v0 fs'))
                          (λ fs' state'' shape' place'.
                            grow_loop-IsGrown fuel (size - chunk) (count + chunk) new next
                              (set_fs v0 fs') (ground (arith, more))
                              (IsVolume-set_fs v0 fs' volume shape' (place' ∙ place)) state''
                              (ground arith))
                          (fill_cluster new (fill_new count chunk src) fs)
                          (fill_new-IsFill contents fs new count chunk (cluster_size v.fs) src
                            new_free.0 (omega (arith, new_free.1)) state' shape.0))
                ])
        ]
      ]
