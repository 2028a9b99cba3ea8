-- ===== src/Buddy/Pages.antt =====
-- `allocate` and `release`: every page is in use or in one free block.
use sysu_os.Base.{
  ℕ, zero, suc, ◌+◌, ◌-◌, ◌/◌, ◌^◌, ◌<◌, ◌≤◌, ◌==◌, ltb, leb, ◌≡◌, ◌≢◌, sym, ap, ◌∙◌, Bool, true,
  false, ◌&&◌, if◌then◌else◌, Bool-cases, inl, inr, arith, ltb→lt, ltb→le, [], Option, none, some,
}
use native.Mathlib.Nat.{pow-suc, pow-le-pow_right}
use sysu_os.Buddy.{Buddy, log2_loop, log2, count2order, mark, marked, allocate_block, allocate}
use sysu_os.Buddy.Cover.{inside, cover, cover-mark}
use sysu_os.Buddy.Blocks.{IsTaken, allocate_block-IsTaken}

log2_loop_lem :
    (fuel num res : ℕ)
    → 0 < num
    → num ≤ fuel
    → (k : ℕ) × (log2_loop fuel num res ≡ res + k) × (2 ^ k ≤ num) × (num < 2 ^ suc k)
unfolding log2_loop
log2_loop_lem zero num res some_num fits = absurd (omega arith)
log2_loop_lem (suc fuel) num res some_num fits = elim (Bool-cases (ltb 1 num)) [
  | inl more ↦
      let large = ltb→lt 1 num more in
      let (k, e, low, high) = log2_loop_lem fuel (num / 2) (res + 1) (omega arith) (omega arith) in
      let double = pow-suc 2 k in
      let double' = pow-suc 2 (suc k) in rw more (suc k, omega arith, omega arith, omega arith)
  | inr last ↦ let small = ltb→le 1 num last in rw last (0, omega arith, omega arith, omega arith)
]

-- The block that is asked for has room for the pages and is the smallest one that has.
pub count2order_lem :
    (count : ℕ)
    → 0 < count
    → (count ≤ 2 ^ count2order count)
      × ((order : ℕ) → order < count2order count → 2 ^ order < count)
unfolding count2order log2
count2order_lem count some_count = elim (Bool-cases (count - 1 == 0)) [
  | inl one ↦ rw one (ground (arith, one), λ order less. absurd (omega arith))
  | inr more ↦
      let (k, e, low, high) =
        log2_loop_lem (count - 1) (count - 1) 0 (ground (arith, more)) (omega arith) in
      let order_is : log2_loop (count - 1) (count - 1) 0 + 1 ≡ suc k = omega arith in
      rw (more, order_is)
        (
          omega arith,
          λ order less.
              let one_two : 0 < 2 = omega arith in
              let most = pow-le-pow_right one_two {i = order} {j = k} (omega arith) in omega arith,
        )
]

-- every page of the memory is in use or in one free block, and no other page is in a free block
abbrev pub IsPartition : Buddy → Type 0
IsPartition s =
    ((p : ℕ) → p < s.total_pages → cover s p + (if s.bitmap p then 1 else 0) ≡ 1)
    × ((p : ℕ) → s.total_pages ≤ p → cover s p ≡ 0)

-- what `allocate` leaves
abbrev pub IsAllocated : ℕ → Buddy → Option ℕ × Buddy → Type 0
IsAllocated count s (none, s') =
    (s' ≡ s) × ((o : ℕ) → count2order count ≤ o → o < 11 → s.free_area o ≡ [])
IsAllocated count s (some idx, s') =
    IsPartition s'
    × ((p : ℕ)
        → idx ≤ p
        → p < idx + 2 ^ count2order count
        → (p < s.total_pages) × (s.bitmap p ≡ false) × (s'.bitmap p ≡ true))
    × ((p : ℕ) → inside idx (count2order count) p ≡ 0 → s'.bitmap p ≡ s.bitmap p)

abbrev pub in_block : ℕ → ℕ → ℕ → Bool
in_block start order p = leb start p && ltb p (start + 2 ^ order)

-- A page that a free block covers is in the memory and not in use.
module _ (s : Buddy) (partition : IsPartition s) (p : ℕ) where
  pub covered_page : cover s p ≢ 0 → (p < s.total_pages) × (s.bitmap p ≡ false) × (cover s p ≡ 1)
  covered_page covered = elim (Bool-cases (ltb p s.total_pages)) [
    | inl less ↦
        let small = ltb→lt p s.total_pages less in
        let once = partition.0 p small in
        elim (Bool-cases (s.bitmap p)) [
          | inl in_use ↦
              let e = sym (ap (λ b. cover s p + (if b then 1 else 0)) in_use) ∙ once in
              absurd (covered (omega arith))
          | inr spare ↦
              let e = sym (ap (λ b. cover s p + (if b then 1 else 0)) spare) ∙ once in
              (small, spare, omega arith)
        ]
    | inr more ↦ absurd (covered (partition.1 p (ltb→le p s.total_pages more)))
  ]

  -- A page in use is in no free block.
  pub page_in_use : p < s.total_pages → s.bitmap p ≡ true → cover s p ≡ 0
  page_in_use small in_use =
      let e = sym (ap (λ b. cover s p + (if b then 1 else 0)) in_use) ∙ partition.0 p small in
      omega arith

-- A block is taken from the free ones and marked.
module _ (s s' : Buddy) (idx order : ℕ) (partition : IsPartition s)
    (covers : (p : ℕ) → cover s' p + inside idx order p ≡ cover s p) (bits : s'.bitmap ≡ s.bitmap)
    (total : s'.total_pages ≡ s.total_pages) where
  in_taken :
      (p : ℕ)
      → in_block idx order p ≡ true
      → (p < s.total_pages) × (s.bitmap p ≡ false) × (cover s' p ≡ 0)
  in_taken p hit =
      let once : cover s' p + 1 ≡ cover s p =
        sym (ap (λ b. cover s' p + (if b then 1 else 0)) hit) ∙ covers p in
      let (small, spare, one) = covered_page s partition p (λ none. absurd (omega arith)) in
      (small, spare, omega arith)

  taken_page :
      (p : ℕ)
      → p < s'.total_pages
      → cover s' p + (if (if in_block idx order p then true else s'.bitmap p) then 1 else 0) ≡ 1
  taken_page p less = elim (Bool-cases (in_block idx order p)) [
    | inl hit ↦
        let (small, spare, alone) = in_taken p hit in
        ap (λ b. cover s' p + (if (if b then true else s'.bitmap p) then 1 else 0)) hit
        ∙ omega arith
    | inr miss ↦
        let same : cover s' p + 0 ≡ cover s p =
          sym (ap (λ b. cover s' p + (if b then 1 else 0)) miss) ∙ covers p in
        let old = partition.0 p (omega arith) in
        ap (λ b. cover s' p + (if (if b then true else s'.bitmap p) then 1 else 0)) miss
        ∙ ap (λ (f : ℕ → Bool). cover s' p + (if f p then 1 else 0)) bits
        ∙ omega arith
  ]

  taken-IsPartition : IsPartition (mark idx order true s')
  taken-IsPartition = (
    (λ p less.
        ap (λ n. n + (if (if in_block idx order p then true else s'.bitmap p) then 1 else 0))
          (cover-mark idx order true s' p)
        ∙ taken_page p less),
    λ p more.
        let before = partition.1 p (omega arith) in
        cover-mark idx order true s' p ∙ omega (arith, covers p),
  )

  taken_block :
      (p : ℕ)
      → idx ≤ p
      → p < idx + 2 ^ order
      → (p < s.total_pages) × (s.bitmap p ≡ false) × ((mark idx order true s').bitmap p ≡ true)
  taken_block p low high =
      let hit : in_block idx order p ≡ true = ground arith in
      let (small, spare, alone) = in_taken p hit in
      (small, spare, ap (λ b. if b then true else s'.bitmap p) hit)

  taken_elsewhere :
      (p : ℕ) → inside idx order p ≡ 0 → (mark idx order true s').bitmap p ≡ s.bitmap p
  taken_elsewhere p outside =
      let miss : in_block idx order p ≡ false = ground (arith, outside) in
      ap (λ b. if b then true else s'.bitmap p) miss ∙ ap (λ (f : ℕ → Bool). f p) bits

marked-IsAllocated :
    (count : ℕ) (s : Buddy) (r : Option ℕ × Buddy) (fuel : ℕ)
    → IsPartition s
    → IsTaken fuel (count2order count) s r
    → IsAllocated count s (marked (count2order count) r)
marked-IsAllocated count s (none, s') fuel partition (same, larger) = (same, larger)
marked-IsAllocated count s (some idx, s') fuel partition (covers, spare, bits, total) =
    let order = count2order count in
    (
      taken-IsPartition s s' idx order partition covers bits total,
      taken_block s s' idx order partition covers bits total,
      taken_elsewhere s s' idx order partition covers bits total,
    )

-- `allocate` with at least nine spare nodes, where every page is in use or in one free block: it
-- answers a block of the order for the count, whose pages are in the memory and were not in use; it
-- marks them and no other page, and still every page is in use or in one free block. Or it
-- answers -1 and changes nothing, and then no free block is large enough.
pub allocate-IsAllocated :
    (count : ℕ) (s : Buddy) → IsPartition s → 9 ≤ s.spare → IsAllocated count s (allocate count s)
unfolding allocate
allocate-IsAllocated count s partition spare =
    marked-IsAllocated count s (allocate_block (count2order count) s) (11 - count2order count)
      partition (allocate_block-IsTaken (count2order count) s spare)
