-- ===== src/FileAppend/Extend.antt =====
-- `append` of any number of bytes.
use sysu_os.Base.{
  ℕ, ◌+◌, ◌-◌, ◌*◌, ◌%◌, ◌<◌, ◌≤◌, min, ◌≡◌, refl, sym, ap, ◌∙◌, subst, Bool, true, false, inl, inr,
  arith, Option, none, some, List, [], length,
}
use sysu_os.FatTable.{Buffer}
use sysu_os.ClusterCache.{FileSystem}
use sysu_os.ClusterCache.View.{IsSameShape, cluster_size}
use sysu_os.ClusterCache.Release.{IsFailing}
use sysu_os.FileData.Copy.{failing}
use sysu_os.FileWrite.Loop.{IsState}
use sysu_os.FileAppend.{
  Inode, Volume, Growing, grown, no_fuel, stuck, Appending, done, refused, spent, halted,
  end_of_chain, set_fs, update_root, grow_loop, grow_rest, finish, append,
}
use sysu_os.FileAppend.Chains.{IsLast}
use sysu_os.FileAppend.Fill.{IsFill}
use sysu_os.FileAppend.Grow.{
  link, AllFree, spread, IsVolume, IsVolume-set_fs, IsEnded, IsGrown, grow_loop-IsGrown,
}
use sysu_os.FileAppend.Within.{
  larger, new_contents, finish-root, append-grow_rest, grow_loop-none, filling, filling-IsFill,
}

-- the room in the last cluster
abbrev pub room : Inode → Volume → ℕ
room node v = cluster_size v.fs - node.size % cluster_size v.fs

-- the contents after the last cluster and the clusters `ns` got their bytes
abbrev pub extended : (ℕ → Buffer) → Inode → ℕ → Buffer → Volume → ℕ → List ℕ → ℕ → Buffer
extended contents node n src v last ns =
    let first = min n (room node v) in
    spread (cluster_size v.fs) (new_contents contents node first src v last) ns first (n - first)
      src

-- what comes of an `append` of `n` bytes
abbrev pub IsExtended : (ℕ → Buffer) → Inode → ℕ → Buffer → Volume → ℕ → Appending → Type 0
IsExtended contents node n src v last (done count v' node') =
    (ns : List ℕ) × AllFree v.fat_table v.cluster_count ns
    × ((c : ℕ) → v'.fat_table c ≡ link last ns v.fat_table c)
    × (count ≡ min n (room node v + length ns * cluster_size v.fs))
    × IsEnded n v count v'.fat_table
    × IsState (extended contents node n src v last ns) v'.fs
    × (node' ≡ larger node count)
    × (v'.root ≡ update_root node' v.root)
IsExtended contents node n src v last (refused v') = ⊥
IsExtended contents node n src v last spent = ⊥
IsExtended contents node n src v last halted = IsFailing v.fs.device

module _ (node : Inode) (n : ℕ) (src : Buffer) (v : Volume) (some_bytes : 0 < n)
    (in_root : node.location.is_root ≡ true) where
  grown-IsExtended :
      (contents : ℕ → Buffer) (last : ℕ) (fs : FileSystem)
      → 0 < room node v
      → IsSameShape v.fs fs
      → (g : Growing)
      → IsGrown
          (cluster_size v.fs)
          (new_contents contents node (min n (room node v)) src v last)
          (set_fs v fs)
          last
          (n - min n (room node v))
          (min n (room node v))
          src
          g
      → IsExtended contents node n src v last (finish node g)
  grown-IsExtended contents last fs some_room shape no_fuel bad = bad
  grown-IsExtended contents last fs some_room shape stuck bad = failing v.fs fs shape bad
  grown-IsExtended contents last fs some_room shape (grown count v')
        (ns, free, table, sum, ended, state, shape', same) =
      let first = min n (room node v) in
      let all : first + (n - first) ≡ n = omega arith in
      let total : count ≡ min n (room node v + length ns * cluster_size v.fs) = omega arith in
      subst (IsExtended contents node n src v last)
        (sym (finish-root node count v' (omega arith) in_root))
        (
          ns,
          free,
          table,
          total,
          (elim ended [
            | inl complete ↦ inl (complete ∙ all)
            | inr (inl bad) ↦ inr (inl (failing v.fs fs shape bad))
            | inr (inr full) ↦ inr (inr full)
          ]),
          state,
          refl,
          ap (λ (w : Volume). update_root (larger node count) w.root) same,
        )

  filled-IsExtended :
      (contents : ℕ → Buffer) (last : ℕ)
      → IsVolume v
      → v.fat_table last ≡ end_of_chain
      → 0 < room node v
      → (o : Option (Bool × FileSystem))
      → IsFill v.fs (new_contents contents node (min n (room node v)) src v last) o
      → IsExtended contents node n src v last
          (finish node (grow_rest n (min n (room node v)) last src v o))
  filled-IsExtended contents last volume ends some_room none bad = bad
  filled-IsExtended contents last volume ends some_room (some (false, fs))
        (state, shape, place, bad) =
      let first = min n (room node v) in
      let none_left = grow_loop-none false 0 n first last src (set_fs v fs) in
      grown-IsExtended contents last fs some_room shape (grow_loop 1 0 first last src (set_fs v fs))
        (subst
          (IsGrown (cluster_size v.fs) (new_contents contents node first src v last) (set_fs v fs)
            last (n - first) first src)
          (sym none_left)
          (
            [],
            tt,
            (λ c. refl),
            omega arith,
            inr (inl (failing fs v.fs (sym shape.0, sym shape.1) (bad refl))),
            state,
            (refl, refl),
            refl,
          ))
  filled-IsExtended contents last volume ends some_room (some (true, fs))
        (state, shape, place, bad) =
      let first = min n (room node v) in
      let left = n - first in
      let grows = grow_loop (left + 1) left first last src (set_fs v fs) in
      let contents' = new_contents contents node first src v last in
      grown-IsExtended contents last fs some_room shape grows (
        subst (λ cs. IsGrown cs contents' (set_fs v fs) last left first src grows) shape.0
          (grow_loop-IsGrown src (left + 1) left first last contents' (set_fs v fs) (omega arith)
            (IsVolume-set_fs v fs volume shape place) state ends))

  -- `append` of at least one byte to a file in the root directory, whose chain of clusters ends at
  -- `last` with 0xFFF, over a well-formed cache with a free buffer, with 2 to 4080 clusters of at
  -- least one sector and a table in front of them: it fills the room behind the size of the file
  -- modulo that of a cluster, then links free clusters behind the chain, fills them with zeros and
  -- spreads the rest over them; it answers as many bytes as there was room for, which are all,
  -- unless no cluster is free or a sector is not answered; the other bytes, entries and clusters
  -- are as they were, and the size in the inode and in the entry grows by the answer; or it
  -- panics, and then a sector is not answered.
  pub append-IsExtended :
      (last steps : ℕ)
      → 2 ≤ node.start_cluster
      → node.no_file ≡ false
      → IsLast v.fat_table node.start_cluster last steps
      → steps < v.cluster_count
      → 2 ≤ last
      → last < 4080
      → (contents : ℕ → Buffer) → IsState contents v.fs
      → IsVolume v
      → v.fat_table last ≡ end_of_chain
      → IsExtended contents node n src v last (append node n src v)
  append-IsExtended last steps start is_file chain short real low contents state volume ends =
      let first = min n (room node v) in
      let some_room : 0 < room node v = omega (arith, volume.1) in
      subst (IsExtended contents node n src v last)
        (sym (
          append-grow_rest node n src v some_bytes in_root last steps start is_file chain short real
            low first refl))
        (filled-IsExtended contents last volume ends some_room
          (filling node n src v some_bytes in_root last steps start is_file chain short real low
            first)
          (filling-IsFill node n src v some_bytes in_root last steps start is_file chain short real
            low contents first state))
