-- ===== src/Buddy/Return.antt =====
-- `release`: the pages of a block go back to the free ones.
use sysu_os.Base.{
  ℕ, ◌+◌, ◌^◌, ◌<◌, ◌≤◌, ◌≡◌, ◌≢◌, ◌⊎◌, sym, ap, ◌∙◌, Bool, true, false, if◌then◌else◌, Bool-cases,
  inl, inr, arith,
}
use sysu_os.Buddy.{Buddy, count2order, mark, release_block, release}
use sysu_os.Buddy.Cover.{inside, cover, cover-mark}
use sysu_os.Buddy.Blocks.{release_block_lem, release_block_rest}
use sysu_os.Buddy.Pages.{IsPartition, in_block, covered_page, page_in_use}

-- 1024 pages of the memory are neither in use nor in a free block, and every other page is in one of
-- the two
abbrev pub IsLost : Buddy → ℕ → Type 0
IsLost s lost =
    ((p : ℕ)
      → lost ≤ p
      → p < lost + 2 ^ 10
      → (p < s.total_pages) × (cover s p ≡ 0) × (s.bitmap p ≡ false))
    × ((p : ℕ)
        → p < s.total_pages
        → inside lost 10 p ≡ 0
        → cover s p + (if s.bitmap p then 1 else 0) ≡ 1)

-- What `release` of a block leaves. The pages of the block are not in use any more, and the others as
-- before. Either the free blocks cover the pages of the block once more and the others as often as
-- before, and every page is in use or in one free block; or 2048 pages in a row were free but for the
-- block, the second half of them is in no free block, and all else is so.
abbrev pub IsReturned : Buddy → ℕ → ℕ → Buddy → Type 0
IsReturned s index order s' =
    ((p : ℕ) → s'.bitmap p ≡ (if in_block index order p then false else s.bitmap p))
    × ((((p : ℕ) → cover s' p ≡ cover s p + inside index order p) × IsPartition s')
        ⊎ ((base : ℕ) × ((p : ℕ)
              → base ≤ p
              → p < base + 2 ^ 11
              → cover s p + inside index order p ≡ 1)
            × ((p : ℕ)
                → cover s' p + inside (base + 2 ^ 10) 10 p ≡ cover s p + inside index order p)
            × IsLost s' (base + 2 ^ 10)))

-- the pages of a block are in the memory and in use
abbrev pub IsInUse : Buddy → ℕ → ℕ → Type 0
IsInUse s index order =
    (p : ℕ) → index ≤ p → p < index + 2 ^ order → (p < s.total_pages) × (s.bitmap p ≡ true)

module _ (s s' : Buddy) (index order : ℕ) (partition : IsPartition s)
    (in_use : IsInUse s index order) (bits : s'.bitmap ≡ s.bitmap)
    (total : s'.total_pages ≡ s.total_pages) where
  freed : ℕ → Bool
  freed p = if in_block index order p then false else s'.bitmap p

  in_freed : (p : ℕ) → in_block index order p ≡ true → (p < s.total_pages) × (cover s p ≡ 0)
  in_freed p hit =
      let low : index ≤ p = ground (arith, hit) in
      let high : p < index + 2 ^ order = ground (arith, hit) in
      let (small, marked) = in_use p low high in (small, page_in_use s partition p small marked)

  returned_page :
      (p : ℕ)
      → p < s'.total_pages
      → cover s' p ≡ cover s p + inside index order p
      → cover s' p + (if (if in_block index order p then false else s'.bitmap p) then 1 else 0) ≡ 1
  returned_page p less covers = elim (Bool-cases (in_block index order p)) [
    | inl hit ↦
        let (small, alone) = in_freed p hit in
        let once : cover s' p ≡ cover s p + 1 =
          covers ∙ ap (λ b. cover s p + (if b then 1 else 0)) hit in
        ap (λ b. cover s' p + (if (if b then false else s'.bitmap p) then 1 else 0)) hit
        ∙ omega arith
    | inr miss ↦
        let same : cover s' p ≡ cover s p + 0 =
          covers ∙ ap (λ b. cover s p + (if b then 1 else 0)) miss in
        let old = partition.0 p (omega arith) in
        ap (λ b. cover s' p + (if (if b then false else s'.bitmap p) then 1 else 0)) miss
        ∙ ap (λ (f : ℕ → Bool). cover s' p + (if f p then 1 else 0)) bits
        ∙ omega arith
  ]

  beyond :
      (p : ℕ) → s'.total_pages ≤ p → cover s' p ≡ cover s p + inside index order p → cover s' p ≡ 0
  beyond p more covers = elim (Bool-cases (in_block index order p)) [
    | inl hit ↦ let (small, alone) = in_freed p hit in absurd (omega arith)
    | inr miss ↦
        let same : cover s' p ≡ cover s p + 0 =
          covers ∙ ap (λ b. cover s p + (if b then 1 else 0)) miss in
        let old = partition.1 p (omega arith) in omega arith
  ]

  marked_page :
      (p : ℕ)
      → p < s'.total_pages
      → cover s' p ≡ cover s p + inside index order p
      → cover (mark index order false s') p
          + (if (mark index order false s').bitmap p then 1 else 0)
        ≡ 1
  marked_page p less covers =
      ap (λ n. n + (if (if in_block index order p then false else s'.bitmap p) then 1 else 0))
        (cover-mark index order false s' p)
      ∙ returned_page p less covers

  returned-IsPartition :
      ((p : ℕ) → cover s' p ≡ cover s p + inside index order p)
      → IsPartition (mark index order false s')
  returned-IsPartition covers = (
    (λ p less. marked_page p less (covers p)),
    λ p more. cover-mark index order false s' p ∙ beyond p more (covers p),
  )

  plus_zero : (a b : ℕ) → b ≡ 0 → a + b ≡ a
  plus_zero a b e = omega arith

  module _ (lost : ℕ)
      (covers : (p : ℕ) → cover s' p + inside lost 10 p ≡ cover s p + inside index order p) where
    lost_page :
        (p : ℕ)
        → lost ≤ p
        → p < lost + 2 ^ 10
        → (p < s'.total_pages)
          × (cover (mark index order false s') p ≡ 0)
          × ((mark index order false s').bitmap p ≡ false)
    lost_page p low high =
        let here : inside lost 10 p ≡ 1 = ground arith in
        elim (Bool-cases (in_block index order p)) [
          | inl hit ↦
              let (small, alone) = in_freed p hit in
              let once = covers p ∙ ap (λ b. cover s p + (if b then 1 else 0)) hit in
              (
                omega (arith, total),
                cover-mark index order false s' p ∙ omega (arith, once, here),
                ap (λ b. if b then false else s'.bitmap p) hit,
              )
          | inr miss ↦
              let once = covers p ∙ ap (λ b. cover s p + (if b then 1 else 0)) miss in
              let (small, spare, one) =
                covered_page s partition p (λ alone. absurd (omega (arith, once, here))) in
              (
                omega (arith, total),
                cover-mark index order false s' p ∙ omega (arith, once, here),
                ap (λ b. if b then false else s'.bitmap p) miss
                    ∙ ap (λ (f : ℕ → Bool). f p) bits
                    ∙ spare,
              )
        ]

    mark-IsLost : IsLost (mark index order false s') lost
    mark-IsLost = (
      lost_page,
      λ p less outside.
          marked_page p less (sym (plus_zero (cover s' p) (inside lost 10 p) outside) ∙ covers p),
    )

module _ (index order : ℕ) (s : Buddy) (partition : IsPartition s)
    (in_use : IsInUse s index order) where
  once_free : (p : ℕ) → 0 < cover s p + inside index order p → cover s p + inside index order p ≡ 1
  once_free p some_cover = elim (Bool-cases (in_block index order p)) [
    | inl hit ↦
        let low : index ≤ p = ground (arith, hit) in
        let high : p < index + 2 ^ order = ground (arith, hit) in
        let (small, used) = in_use p low high in
        let alone = page_in_use s partition p small used in
        ap (λ b. cover s p + (if b then 1 else 0)) hit ∙ omega arith
    | inr miss ↦
        let e = ap (λ b. cover s p + (if b then 1 else 0)) miss in
        let (small, spare, one) = covered_page s partition p (λ none. absurd (omega arith)) in
        e ∙ omega arith
  ]

-- `release` of a block of at most 1024 pages that are in use, with a spare node, where every page is
-- in use or in one free block: the pages of the block are not in use any more, and the others as
-- before; the free blocks cover the pages of the block once more and the others as often as before,
-- and every page is in use or in one free block; or else 2048 pages in a row were free but for the
-- block, and the same holds but for the second half of them, which is in no free block: it is lost.
pub release-IsReturned :
    (index count : ℕ) (s : Buddy)
    → IsPartition s
    → IsInUse s index (count2order count)
    → count2order count < 11
    → s.spare ≢ 0
    → IsReturned s index (count2order count) (release index count s)
unfolding release
release-IsReturned index count s partition in_use less some_spare =
    let order = count2order count in
    let s' = release_block index order s in
    let (bits, total) = release_block_rest index order s less in
    let unmarked = cover-mark index order false s' in
    (
      (λ p. ap (λ (f : ℕ → Bool). if in_block index order p then false else f p) bits),
      elim (release_block_lem index order s less some_spare) [
        | inl covers ↦ inl (
          (λ p. unmarked p ∙ covers p),
          returned-IsPartition s s' index order partition in_use bits total covers,
        )
        | inr (base, full, covers) ↦ inr (
          base,
          (λ p low high. once_free index order s partition in_use p (full p low high)),
          (λ p. ap (λ n. n + inside (base + 2 ^ 10) 10 p) (unmarked p) ∙ covers p),
          mark-IsLost s s' index order partition in_use bits total (base + 2 ^ 10) covers,
        )
      ],
    )
