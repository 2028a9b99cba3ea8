-- ===== src/FileWrite/Loop.antt =====
-- `write` on a file whose chain of clusters is as long as the file.
use sysu_os.Base.{
  ℕ, zero, suc, ◌+◌, ◌-◌, ◌*◌, ◌/◌, ◌%◌, ◌<◌, ◌≤◌, ◌==◌, ltb, leb, min, ◌≡◌, refl, sym, ◌∙◌, subst,
  true, false, ◌&&◌, ◌||◌, if◌then◌else◌, Bool-cases, inl, inr, arith, ltb→lt, ltb→le,
}
use native.Mathlib.Nat.{mod-eq_of_lt, mod-lt, div-add-mod'}
use sysu_os.FatTable.{Buffer, Table}
use sysu_os.ClusterCache.{FileSystem}
use sysu_os.ClusterCache.View.{cluster_size, IsCache, IsSameShape}
use sysu_os.ClusterCache.Release.{IsFailing}
use sysu_os.FileData.{Inode}
use sysu_os.FileData.Copy.{IsFree, failing}
use sysu_os.FileData.Chain.{nth_cluster, cluster_of_first, IsChain, seek_loop-nth}
use sysu_os.FileData.Joined.{HoldsAll}
use sysu_os.FileWrite.{
  Edited, missing, stopped, edited, edit_cluster, Writing, wrote, refused, spent, halted, continue,
  continue_first, write_loop, write_at, write,
}
use sysu_os.FileWrite.Edit.{edit_contents, IsEdited, edit_cluster-IsEdited}
use sysu_os.FileWrite.Bytes.{IsDistinct, IsSpliced, div_lem, IsSpliced-edit}

-- a well-formed cache with a free buffer, where the clusters have the contents
abbrev pub IsState : (ℕ → Buffer) → FileSystem → Type 0
IsState contents fs = IsCache fs × IsFree fs × HoldsAll contents fs

nth_cluster-suc :
    (table : Table) (c i : ℕ) → table (nth_cluster table c i) ≡ nth_cluster table c (suc i)
unfolding nth_cluster
nth_cluster-suc table c zero = refl
nth_cluster-suc table c (suc i) = nth_cluster-suc table (table c) i

module _ (table : Table) (size start total : ℕ) (old : ℕ → Buffer) (offset : ℕ) (src : Buffer) where
  -- the answer is `n`, and so many bytes of the file are new
  abbrev pub IsWrittenTo : FileSystem → ℕ → Writing → Type 0
  IsWrittenTo fs n (wrote m fs') =
      (new : ℕ → Buffer) × (m ≡ n)
      × IsSpliced table size start total old new offset n src
      × IsState new fs'
      × IsSameShape fs fs'
  IsWrittenTo fs n refused = ⊥
  IsWrittenTo fs n spent = ⊥
  IsWrittenTo fs n halted = IsFailing fs.device

  widened :
      (fs fs' : FileSystem) (n : ℕ)
      → IsSameShape fs fs'
      → (w : Writing) → IsWrittenTo fs' n w
      → IsWrittenTo fs n w
  widened fs fs' n shape (wrote m fs'') (new, count, spliced, state, shape') =
      (new, count, spliced, state, (shape'.0 ∙ shape.0, shape'.1 ∙ shape.1))
  widened fs fs' n shape refused bad = bad
  widened fs fs' n shape spent bad = bad
  widened fs fs' n shape halted bad = failing fs fs' shape bad

  continue-IsWrittenTo :
      (fs : FileSystem) (contents : ℕ → Buffer) (at n : ℕ) (go : FileSystem → Writing) (c : Edited)
      → IsEdited fs contents c
      → ((fs' : FileSystem)
          → IsState contents fs'
          → IsSameShape fs fs'
          → IsWrittenTo fs' n (go fs'))
      → IsWrittenTo fs n (continue go at c)
  continue-IsWrittenTo fs contents at n go (missing fs') none_got step = absurd none_got
  continue-IsWrittenTo fs contents at n go stopped bad step = bad
  continue-IsWrittenTo fs contents at n go (edited fs') (cache, free, holds, shape) step =
      widened fs fs' n shape (go fs') (step fs' (cache, free, holds) shape)

  first-IsWrittenTo :
      (fs : FileSystem) (contents : ℕ → Buffer) (n : ℕ) (go : FileSystem → Writing) (c : Edited)
      → IsEdited fs contents c
      → ((fs' : FileSystem)
          → IsState contents fs'
          → IsSameShape fs fs'
          → IsWrittenTo fs' n (go fs'))
      → IsWrittenTo fs n (continue_first go c)
  first-IsWrittenTo fs contents n go (missing fs') none_got step = absurd none_got
  first-IsWrittenTo fs contents n go stopped bad step = bad
  first-IsWrittenTo fs contents n go (edited fs') (cache, free, holds, shape) step =
      widened fs fs' n shape (go fs') (step fs' (cache, free, holds) shape)

  module _ (some_size : 0 < size) (narrow : size < 65536)
      (distinct : IsDistinct table size start total) (chain : IsChain table size start total) where
    nothing_new : IsSpliced table size start total old old offset 0 src
    nothing_new = (
      λ k less.
          let none_in : (leb offset k && ltb k (offset + 0)) ≡ false = ground arith in
          rw none_in refl,
      λ c apart. refl,
    )

    -- cluster `q` of the chain, where a byte of the file stands in it
    real_nth :
        (q p : ℕ)
        → p < size
        → q * size + p < total
        → (2 ≤ nth_cluster table start q) × (nth_cluster table start q < 4080)
    real_nth q p small inside =
        subst (λ m. (2 ≤ nth_cluster table start m) × (nth_cluster table start m < 4080))
          (div_lem size (q * size + p) q p small refl) (chain (q * size + p) inside)

    write_loop-IsWrittenTo :
        (fuel left at q : ℕ) (new : ℕ → Buffer) (fs : FileSystem)
        → left < fuel
        → cluster_size fs ≡ size
        → IsState new fs
        → IsSpliced table size start total old new offset at src
        → (0 < left → offset + at ≡ q * size)
        → offset + at + left ≤ total
        → IsWrittenTo fs
            (at + left)
            (write_loop fuel table left at (nth_cluster table start q) src fs)
    unfolding write_loop
    write_loop-IsWrittenTo zero left at q new fs enough is_size state spliced place inside =
        absurd (omega arith)
    write_loop-IsWrittenTo (suc fuel) left at q new fs enough is_size state spliced place inside =
        elim (Bool-cases (ltb 0 left)) [
          | inl more ↦
              let some_left = ltb→lt 0 left more in
              let here : offset + at ≡ q * size + 0 = omega (arith, place some_left) in
              let (real, low) = real_nth q 0 some_size (omega arith) in
              let c = nth_cluster table start q in
              let chunk = min left (cluster_size fs) in
              let round : (ltb 0 left && leb 2 c && ltb c 4088) ≡ true =
                ground (arith, some_left, real, low) in
              let wide : chunk % 65536 ≡ chunk = mod-eq_of_lt (omega arith) in
              let new' = edit_contents new c 0 at chunk src in
              let next : suc q * size ≡ q * size + size = grind arith in
              let all : at + chunk + (left - chunk) ≡ at + left = omega arith in
              rw (round, wide)
                (continue-IsWrittenTo fs new' at (at + left)
                  (λ fs'. write_loop fuel table (left - chunk) (at + chunk) (table c) src fs')
                  (edit_cluster c 0 at chunk src fs)
                  (edit_cluster-IsEdited new fs c 0 at chunk src real state.0 state.1 state.2 low)
                  (λ fs' state' shape.
                    subst
                      (λ d.
                        IsWrittenTo fs' (at + left)
                          (write_loop fuel table (left - chunk) (at + chunk) d src fs'))
                      (sym (nth_cluster-suc table start q))
                      (subst
                        (λ m. IsWrittenTo fs' m (
                          write_loop fuel table (left - chunk) (at + chunk)
                            (nth_cluster table start (suc q)) src fs'))
                        all
                        (write_loop-IsWrittenTo fuel (left - chunk) (at + chunk) (suc q) new' fs'
                          (omega arith) (shape.0 ∙ is_size) state'
                          (IsSpliced-edit table size some_size start total distinct src old new
                            offset at chunk 0 q here (omega arith) some_size (omega arith) spliced)
                          (λ more'. omega arith) (omega arith)))))
          | inr done ↦
              let none_left = ltb→le 0 left done in
              let all : at ≡ at + left = omega arith in
              rw done (
                new,
                all,
                subst (λ m. IsSpliced table size start total old new offset m src) all spliced,
                state,
                (refl, refl),
              )
        ]

    write_at-IsWrittenTo :
        (n q place : ℕ) (fs : FileSystem)
        → 0 < n
        → place < size
        → offset ≡ q * size + place
        → offset + n ≤ total
        → cluster_size fs ≡ size
        → IsState old fs
        → IsWrittenTo fs n (write_at table n place (nth_cluster table start q) src fs)
    unfolding write_at
    write_at-IsWrittenTo n q place fs some_left small here inside is_size state =
        let c = nth_cluster table start q in
        let (real, low) = real_nth q place small (omega arith) in
        let left = cluster_size fs - place in
        let here' : offset + 0 ≡ q * size + place = omega arith in
        let first = λ (m : ℕ) (fits : place + m ≤ size).
          let none : 0 + m ≡ m = omega arith in
          subst
            (λ k.
              IsSpliced table size start total old (edit_contents old c place 0 m src) offset k src)
            none
            (IsSpliced-edit table size some_size start total distinct src old old offset 0 m place q
              here' (omega arith) small fits nothing_new) in
        elim (Bool-cases (ltb n left)) [
          | inl last ↦
              let less = ltb→lt n left last in
              rw last (
                first-IsWrittenTo fs (edit_contents old c place 0 n src) n (λ fs'. wrote n fs')
                  (edit_cluster c place 0 n src fs)
                  (edit_cluster-IsEdited old fs c place 0 n src real state.0 state.1 state.2 low)
                  (λ fs' state' shape. (
                    edit_contents old c place 0 n src,
                    refl,
                    first n (omega arith),
                    state',
                    (refl, refl),
                  )))
          | inr more ↦
              let large = ltb→le n left more in
              let next : suc q * size ≡ q * size + size = grind arith in
              let all : left + (n - left) ≡ n = omega arith in
              let new' = edit_contents old c place 0 left src in
              rw more (
                first-IsWrittenTo fs new' n
                  (λ fs'. write_loop (n + 1) table (n - left) left (table c) src fs')
                  (edit_cluster c place 0 left src fs)
                  (edit_cluster-IsEdited old fs c place 0 left src real state.0 state.1 state.2 low)
                  (λ fs' state' shape.
                    subst
                      (λ d. IsWrittenTo fs' n (write_loop (n + 1) table (n - left) left d src fs'))
                      (sym (nth_cluster-suc table start q))
                      (subst
                        (λ m. IsWrittenTo fs' m (
                          write_loop (n + 1) table (n - left) left (nth_cluster table start (suc q))
                            src fs'))
                        all
                        (write_loop-IsWrittenTo (n + 1) (n - left) left (suc q) new' fs'
                          (omega arith) (shape.0 ∙ is_size) state' (first left (omega arith))
                          (λ more'. omega arith) (omega arith)))))
        ]

    -- `write` to a file with a chain of clusters as long as the file, all distinct and of less than
    -- 65536 bytes each, from an offset in it, over a well-formed cache with a free buffer: it writes
    -- up to the end of the file at most, and answers as many bytes as it writes; these are new, the
    -- other bytes of the file and the other clusters are as they were, and the cache is well formed
    -- with a free buffer; or it panics, and then a sector is not answered.
    pub write-IsWrittenTo :
        (node : Inode) (n : ℕ) (fs : FileSystem)
        → node.start_cluster ≡ start
        → node.size ≡ total
        → node.no_file ≡ false
        → 0 < n
        → offset < total
        → cluster_size fs ≡ size
        → IsState old fs
        → IsWrittenTo fs (min n (total - offset)) (write node table n offset src fs)
    unfolding write
    write-IsWrittenTo node n fs is_start is_total is_file some_left inside is_size state =
        let valid =
          subst (λ c. (2 ≤ c) × (c < 4080))
            (cluster_of_first table size some_size start 0 some_size) (chain 0 (omega arith)) in
        let checks : (ltb node.start_cluster 2 || leb node.size offset || n == 0) ≡ false =
          ground (arith, valid.0, inside, some_left, is_start, is_total) in
        let n' = if ltb node.size (n + offset) then node.size - offset else n in
        let is_n : n' ≡ min n (total - offset) = ground (arith, inside, is_total) in
        let walk =
          seek_loop-nth table size some_size (offset + 1) offset start total (omega arith) inside
            chain in
        rw (checks, is_file, is_n, is_start, is_size, walk)
          (write_at-IsWrittenTo (min n (total - offset)) (offset / size) (offset % size) fs
            (omega arith) (mod-lt offset some_size) (sym (div-add-mod' offset size)) (omega arith)
            is_size state)
