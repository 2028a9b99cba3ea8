-- ===== src/FileAppend/Within.antt =====
-- `append` of bytes for which the last cluster has room.
use sysu_os.Base.{
  ℕ, suc, ◌+◌, ◌-◌, ◌%◌, ◌^◌, ◌<◌, ◌≤◌, ◌==◌, ltb, min, ◌≡◌, refl, sym, ap, ◌∙◌, subst, Bool, true,
  false, if◌then◌else◌, ◌||◌, arith, Option, none, some,
}
use mathlib.Core.Option.{map}
use sysu_os.FatTable.{Buffer}
use sysu_os.ClusterCache.{FileSystem, get_cache}
use sysu_os.ClusterCache.View.{IsSameShape, cluster_size}
use sysu_os.ClusterCache.Release.{IsFailing}
use sysu_os.FileWrite.{edit_buffer}
use sysu_os.FileWrite.Edit.{edit_contents}
use sysu_os.FileWrite.Loop.{IsState}
use sysu_os.FileAppend.{
  Inode, Volume, Appending, done, refused, spent, halted, grown, update_cached, updated, set_fs,
  update_root, grow_rest, grow_loop, fill_and_grow, fill_cluster, first_cluster, finish,
  update_entry, from_last, from_first, append,
}
use sysu_os.FileAppend.Chains.{IsLast, last_loop-IsLast}
use sysu_os.FileAppend.Fill.{IsFill, fill_cluster-IsFill, edit_buffer-IsChange}

-- the inode with `n` bytes more
abbrev pub larger : Inode → ℕ → Inode
larger node n = record node { size = (node.size + n) % 2 ^ 32 }

-- the contents with `n` bytes of `src` behind the size of the file modulo that of a cluster
abbrev pub new_contents : (ℕ → Buffer) → Inode → ℕ → Buffer → Volume → ℕ → ℕ → Buffer
new_contents contents node n src v last =
    edit_contents contents last (node.size % cluster_size v.fs) 0 n src

-- what comes of an `append` of `n` bytes behind which no cluster is needed
abbrev pub IsAppended : (ℕ → Buffer) → Inode → ℕ → Volume → Appending → Type 0
IsAppended contents node n v (done count v' node') =
    (count ≡ n)
    × (node' ≡ larger node n)
    × IsState contents v'.fs
    × IsSameShape v.fs v'.fs
    × (v' ≡ record v { fs = v'.fs; root = update_root node' v.root })
IsAppended contents node n v (refused v') = ⊥
IsAppended contents node n v spent = ⊥
IsAppended contents node n v halted = IsFailing v.fs.device

first_cluster-used :
    (v : Volume) (node : Inode)
    → (node.start_cluster == 0) ≡ false
    → first_cluster v node ≡ (some node, v)
unfolding first_cluster
first_cluster-used v node used = rw used refl

-- the bytes are in the cluster, and none are left
pub grow_loop-none :
    (b : Bool) (fuel n count cluster : ℕ) (src : Buffer) (v : Volume)
    → grow_loop (fuel + 1) (if b then n - n else 0) count cluster src v ≡ grown count v
unfolding grow_loop
grow_loop-none b fuel n count cluster src v =
    let none_left : (if b then n - n else 0) ≡ 0 = ground arith in
    let step : fuel + 1 ≡ suc fuel = omega arith in rw (none_left, step) refl

third_branch :
    (a b c : Bool) (x y z : Appending)
    → a ≡ false
    → b ≡ false
    → c ≡ false
    → (if a || b then x else if c then y else z) ≡ z
third_branch a b c x y z not_a not_b not_c = rw (not_a, not_b, not_c) refl

-- `append` writes the new size to the entry in the root directory.
pub finish-root :
    (node : Inode) (n : ℕ) (v : Volume)
    → 0 < n
    → node.location.is_root ≡ true
    → finish node (grown n v)
      ≡ done n (record v { root = update_root (larger node n) v.root }) (larger node n)
unfolding update_entry
finish-root node n v some_bytes in_root =
    let positive : ltb 0 n ≡ true = ground arith in
    let at_root = some (record v { root = update_root (larger node n) v.root }) in
    let elsewhere =
      map (set_fs v)
        (update_cached (larger node n) (get_cache node.location.current_cluster v.fs)) in
    ap
      (λ b. if b then updated n (larger node n) (update_entry (larger node n) v) else done n v node)
      positive
    ∙ ap (λ b. updated n (larger node n) (if b then at_root else elsewhere)) in_root

module _ (node : Inode) (n : ℕ) (src : Buffer) (v : Volume) (some_bytes : 0 < n)
    (in_root : node.location.is_root ≡ true) where
  filled-IsAppended :
      (contents : ℕ → Buffer) (cluster : ℕ)
      → (o : Option (Bool × FileSystem)) → IsFill v.fs contents o
      → IsAppended contents node n v (finish node (grow_rest n n cluster src v o))
  filled-IsAppended contents cluster none bad = bad
  filled-IsAppended contents cluster (some (ok, fs)) (state, shape, place, bad) =
      let left = if ok then n - n else 0 in
      subst (IsAppended contents node n v)
        (sym (
          ap (finish node) (grow_loop-none ok left n n cluster src (set_fs v fs))
          ∙ finish-root node n (set_fs v fs) some_bytes in_root))
        (refl, refl, state, shape, refl)

  module _ (last steps : ℕ) (start : 2 ≤ node.start_cluster) (is_file : node.no_file ≡ false)
      (chain : IsLast v.fat_table node.start_cluster last steps) (short : steps < v.cluster_count)
      (real : 2 ≤ last) (low : last < 4080) where
    -- the change of the last cluster by `m` bytes
    abbrev pub filling : ℕ → Option (Bool × FileSystem)
    filling m =
        fill_cluster last (λ idx. edit_buffer idx (node.size % cluster_size v.fs) 0 m src) v.fs

    pub append-grow_rest :
        (room : ℕ)
        → room ≡ min n (cluster_size v.fs - node.size % cluster_size v.fs)
        → append node n src v ≡ finish node (grow_rest n room last src v (filling room))
    unfolding append fill_and_grow
    append-grow_rest room is_room =
        third_branch (node.start_cluster == 1) node.no_file (n == 0) (refused v) (done 0 v node)
          (from_first n src (first_cluster v node)) (ground arith) is_file (ground arith)
        ∙ ap (from_first n src) (first_cluster-used v node (ground arith))
        ∙ ap (from_last node n src v) (last_loop-IsLast v.cluster_count chain short)
        ∙ ap (λ m. finish node (grow_rest n m last src v (filling m))) (sym is_room)

    pub filling-IsFill :
        (contents : ℕ → Buffer) (m : ℕ)
        → IsState contents v.fs
        → IsFill v.fs (new_contents contents node m src v last) (filling m)
    filling-IsFill contents m state =
        let used = node.size % cluster_size v.fs in
        fill_cluster-IsFill contents (new_contents contents node m src v last) v.fs last
          (λ idx. edit_buffer idx used 0 m src) real state
          (λ idx fs shape. edit_buffer-IsChange contents last used 0 m src real idx fs) low

    -- `append` of at least one byte to a file in the root directory, whose chain of clusters ends at
    -- `last`, over a well-formed cache with a free buffer, where the bytes fit between the size of the
    -- file modulo that of a cluster and the end of a cluster: it answers their number, puts them from
    -- that place on into the last cluster, which are its first bytes where the size is a multiple,
    -- and keeps the other bytes, the allocation table and a well-formed cache with a free buffer; the
    -- size in the inode and in the entry grows by the number; or it panics, and then a sector is not
    -- answered.
    pub append-IsAppended :
        (contents : ℕ → Buffer)
        → IsState contents v.fs
        → n ≤ cluster_size v.fs - node.size % cluster_size v.fs
        → IsAppended (new_contents contents node n src v last) node n v (append node n src v)
    append-IsAppended contents state fits =
        subst (IsAppended (new_contents contents node n src v last) node n v)
          (sym (append-grow_rest n (omega arith)))
          (filled-IsAppended (new_contents contents node n src v last) last (filling n)
            (filling-IsFill contents n state))
