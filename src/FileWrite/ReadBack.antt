-- ===== src/FileWrite/ReadBack.antt =====
-- What was written is read back.
use sysu_os.Base.{
  ℕ, ◌+◌, ◌-◌, ◌<◌, ltb, leb, min, ◌≡◌, refl, sym, ap, ◌∙◌, subst, true, false, ◌&&◌, Bool-cases,
  inl, inr, arith,
}
use sysu_os.FatTable.{Buffer, Table}
use sysu_os.ClusterCache.{FileSystem}
use sysu_os.ClusterCache.View.{cluster_size}
use sysu_os.FileData.{Inode, Reading, returned, read}
use sysu_os.FileData
use sysu_os.ClusterCache.Release.{IsFailing}
use sysu_os.FileData.Chain.{file_byte, IsChain}
use sysu_os.FileData.Joined.{IsReadTo}
use sysu_os.FileData.Read.{read-IsReadTo}
use sysu_os.FileWrite.{Writing, wrote, refused, spent, halted, write}
use sysu_os.FileWrite.Bytes.{IsDistinct}
use sysu_os.FileWrite.Loop.{IsState, IsWrittenTo, write-IsWrittenTo}

-- Only the bytes that are read matter.
same_bytes :
    (fs : FileSystem) (size : ℕ) (byte byte' out : Buffer)
    → ((k : ℕ) → k < size → byte k ≡ byte' k)
    → (r : Reading) → IsReadTo fs 0 size byte out r
    → IsReadTo fs 0 size byte' out r
same_bytes fs size byte byte' out same (returned n out' fs') (count, next, copy) = (
  count,
  next,
  λ o. copy o ∙ elim (Bool-cases (leb 0 o && ltb o (0 + size))) [
    | inl inside ↦ rw inside (same (o - 0) (ground (arith, inside)))
    | inr outside ↦ rw outside refl
  ],
)
same_bytes fs size byte byte' out same FileData.refused bad = bad
same_bytes fs size byte byte' out same FileData.spent bad = bad
same_bytes fs size byte byte' out same FileData.halted bad = bad

-- After a `write`, `read` of as many bytes from the same offset.
abbrev pub IsReadBack : Table → ℕ → ℕ → Buffer → Inode → ℕ → Buffer → FileSystem → Writing → Type 0
IsReadBack table total offset src node n out fs (wrote m fs') =
    (m ≡ min n (total - offset)) × IsReadTo fs' 0 m src out (read node table n offset out fs')
IsReadBack table total offset src node n out fs refused = ⊥
IsReadBack table total offset src node n out fs spent = ⊥
IsReadBack table total offset src node n out fs halted = IsFailing fs.device

module _ (table : Table) (size start total : ℕ) (old : ℕ → Buffer) (offset : ℕ) (src : Buffer)
    (some_size : 0 < size) (narrow : size < 65536) (distinct : IsDistinct table size start total)
    (chain : IsChain table size start total) where
  written-IsReadBack :
      (node : Inode) (n : ℕ) (out : Buffer) (fs : FileSystem)
      → node.start_cluster ≡ start
      → node.size ≡ total
      → node.no_file ≡ false
      → 0 < n
      → offset < total
      → cluster_size fs ≡ size
      → (w : Writing)
      → IsWrittenTo table size start total old offset src fs (min n (total - offset)) w
      → IsReadBack table total offset src node n out fs w
  written-IsReadBack node n out fs is_start is_total is_file some_left inside is_size refused bad =
      bad
  written-IsReadBack node n out fs is_start is_total is_file some_left inside is_size spent bad =
      bad
  written-IsReadBack node n out fs is_start is_total is_file some_left inside is_size halted bad =
      bad
  written-IsReadBack node n out fs is_start is_total is_file some_left inside is_size (wrote m fs')
        (new, count, (bytes, rest), (cache, free, holds), shape) =
      let reading =
        read-IsReadTo new table size some_size narrow node n offset out fs' is_file some_left
          (omega arith) (shape.0 ∙ is_size) cache free holds
          (subst (λ s. IsChain table size s node.size) (sym is_start)
            (subst (IsChain table size start) (sym is_total) chain)) in
      let byte = λ (k : ℕ). file_byte new table size node.start_cluster (offset + k) in
      let is_m : min n (node.size - offset) ≡ m = omega arith in
      (
        count,
        same_bytes fs' m byte src out
            (λ k less.
              let there : (leb offset (offset + k)
                    && ltb (offset + k) (offset + min n (total - offset)))
                  ≡ true =
                ground (arith, less, count) in
              let place : offset + k - offset ≡ k = omega arith in
              ap (λ s. file_byte new table size s (offset + k)) is_start
              ∙ bytes (offset + k) (omega arith)
              ∙ rw (there, place) refl)
            (read node table n offset out fs')
            (subst (λ j. IsReadTo fs' 0 j byte out (read node table n offset out fs')) is_m
              reading),
      )

  -- What `write` writes `read` reads back, on a file with a chain of clusters as long as the file, all
  -- distinct and of less than 65536 bytes each, from an offset in it, over a well-formed cache with a
  -- free buffer: of as many bytes as the file has from there on, or else one of the two panics, and
  -- then a sector is not answered.
  pub read-write_file :
      (node : Inode) (n : ℕ) (out : Buffer) (fs : FileSystem)
      → node.start_cluster ≡ start
      → node.size ≡ total
      → node.no_file ≡ false
      → 0 < n
      → offset < total
      → cluster_size fs ≡ size
      → IsState old fs
      → IsReadBack table total offset src node n out fs (write node table n offset src fs)
  read-write_file node n out fs is_start is_total is_file some_left inside is_size state =
      written-IsReadBack node n out fs is_start is_total is_file some_left inside is_size
        (write node table n offset src fs)
        (write-IsWrittenTo table size start total old offset src some_size narrow distinct chain
          node n fs is_start is_total is_file some_left inside is_size state)
