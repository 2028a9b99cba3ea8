-- ===== src/Buddy/Blocks.antt =====
-- `allocateBlock` and `releaseBlock` against the free blocks that cover a page.
use sysu_os.Base.{
  ℕ, zero, suc, ◌+◌, ◌-◌, ◌^◌, ◌<◌, ◌≤◌, ◌==◌, ltb, min, not, ◌≡◌, ◌≢◌, ◌⊎◌, refl, ap, ◌∙◌, true,
  ◌&&◌, Bool-cases, inl, inr, arith, ==→eq, List, [], ◌∷◌, subst, Option, none, some,
}
use sysu_os.Buddy.{
  Buddy, put_area, insert_free_node, has_node, remove_free_node, buddy_of, take_block, split_block,
  allocate_loop, allocate_block, merge_loop, release_block, max_order,
}
use sysu_os.Buddy.Cover.{
  inside, count, cover, cover-put_area, cover-insert_free_node, cover-remove_free_node, inside_two,
  inside_buddy,
}

-- what `allocate_loop` leaves, with fuel for the orders that are left
abbrev pub IsTaken : ℕ → ℕ → Buddy → Option ℕ × Buddy → Type 0
IsTaken fuel order s (none, s') = (s' ≡ s) × ((o : ℕ) → order ≤ o → o < 11 → s.free_area o ≡ [])
IsTaken fuel order s (some idx, s') =
    ((p : ℕ) → cover s' p + inside idx order p ≡ cover s p)
    × (s.spare + 2 ≤ s'.spare + fuel)
    × (s'.bitmap ≡ s.bitmap)
    × (s'.total_pages ≡ s.total_pages)

insert_free_node_bitmap :
    (start order : ℕ) (s : Buddy) → (insert_free_node start order s).bitmap ≡ s.bitmap
unfolding insert_free_node
insert_free_node_bitmap start order s = elim (Bool-cases (s.spare == 0)) [
  | inl full ↦ rw full refl
  | inr more ↦ rw more refl
]

insert_free_node_total :
    (start order : ℕ) (s : Buddy) → (insert_free_node start order s).total_pages ≡ s.total_pages
unfolding insert_free_node
insert_free_node_total start order s = elim (Bool-cases (s.spare == 0)) [
  | inl full ↦ rw full refl
  | inr more ↦ rw more refl
]

insert_free_node_spare :
    (start order : ℕ) (s : Buddy) → (insert_free_node start order s).spare ≡ s.spare - 1
unfolding insert_free_node
insert_free_node_spare start order s = elim (Bool-cases (s.spare == 0)) [
  | inl full ↦ rw full (ground arith)
  | inr more ↦ rw more refl
]

split_block-IsTaken :
    (fuel order : ℕ) (s : Buddy) (r : Option ℕ × Buddy)
    → order < 11
    → fuel ≤ s.spare + 1
    → s.free_area order ≡ []
    → IsTaken fuel (order + 1) s r
    → IsTaken (suc fuel) order s (split_block order r)
split_block-IsTaken fuel order s (none, s') less enough e (same, larger) = (
  same,
  λ o low high. elim (Bool-cases (o == order)) [
    | inl here ↦ ap s.free_area (==→eq o order here) ∙ e
    | inr more ↦ larger o (ground arith) high
  ],
)
split_block-IsTaken fuel order s (some idx, s') less enough e (covers, spare, bits, total) =
    let back = idx + 2 ^ order in
    let some_spare : s'.spare ≢ 0 = λ h. absurd (omega arith) in
    (
      (λ p. omega (
        arith,
        cover-insert_free_node back order s' p some_spare less,
        inside_two idx order p,
        covers p,
      )),
      omega (arith, insert_free_node_spare back order s'),
      insert_free_node_bitmap back order s' ∙ bits,
      insert_free_node_total back order s' ∙ total,
    )

taken : (a b c d e : ℕ) → a + b ≡ c + d → b ≡ e + d → a + e ≡ c
taken a b c d e h k = omega arith

take_block-IsTaken :
    (fuel order : ℕ) (s : Buddy) (r : Option ℕ × Buddy) (blocks : List ℕ)
    → order < 11
    → s.free_area order ≡ blocks
    → (s.free_area order ≡ [] → IsTaken (suc fuel) order s r)
    → IsTaken (suc fuel) order s (take_block order s r blocks)
take_block-IsTaken fuel order s r [] less e larger = larger e
take_block-IsTaken fuel order s r (idx ∷ blocks) less e larger = (
  (λ p.
      let s' : Buddy = record s {
        free_area = put_area s.free_area order blocks;
        spare = s.spare + 1;
      } in
      let put = cover-put_area s s' order blocks p refl less in
      let head = ap (λ l. count order l p) e in
      taken (cover s' p) (count order (s.free_area order) p) (cover s p) (count order blocks p)
        (inside idx order p) put head),
  omega arith,
  refl,
  refl,
)

allocate_loop-IsTaken :
    (fuel order : ℕ) (s : Buddy)
    → 11 ≤ order + fuel
    → fuel ≤ s.spare + 2
    → IsTaken fuel order s (allocate_loop fuel order s)
unfolding allocate_loop
allocate_loop-IsTaken zero order s enough spare = (refl, λ o low high. absurd (omega arith))
allocate_loop-IsTaken (suc fuel) order s enough spare = elim (Bool-cases (ltb max_order order)) [
  | inl large ↦ rw large (refl, λ o low high. absurd (ground (arith, large)))
  | inr small ↦
      let less : order < 11 = ground (arith, small) in
      let r = allocate_loop fuel (order + 1) s in
      rw small (
        take_block-IsTaken fuel order s (split_block order r) (s.free_area order) less refl (λ e.
          split_block-IsTaken fuel order s r less (omega arith) e
            (allocate_loop-IsTaken fuel (order + 1) s (omega arith) (omega arith))))
]

-- With at least nine spare nodes `allocateBlock` takes a block of its order out of the free ones,
-- so that every page in it is covered once less and every other page as often as before; or it
-- answers -1 and changes nothing, and then no block of that order or of a larger one is free.
pub allocate_block-IsTaken :
    (order : ℕ) (s : Buddy) → 9 ≤ s.spare → IsTaken (11 - order) order s (allocate_block order s)
unfolding allocate_block
allocate_block-IsTaken order s spare =
    allocate_loop-IsTaken (11 - order) order s (omega arith) (omega arith)

-- what `merge_loop` leaves
abbrev IsMerged : ℕ → ℕ → ℕ → Buddy → ℕ × ℕ × Buddy → Type 0
IsMerged fuel start order s (start', order', s') =
    ((p : ℕ) → cover s' p + inside start' order' p ≡ cover s p + inside start order p)
    × (s.spare ≤ s'.spare)
    × (order' ≤ order + fuel)
    × (s'.bitmap ≡ s.bitmap)
    × (s'.total_pages ≡ s.total_pages)

remove_free_node_rest :
    (index order : ℕ) (s : Buddy)
    → ((remove_free_node index order s).spare ≡ s.spare + 1)
      × ((remove_free_node index order s).bitmap ≡ s.bitmap)
      × ((remove_free_node index order s).total_pages ≡ s.total_pages)
unfolding remove_free_node
remove_free_node_rest index order s = (refl, refl, refl)

merged : (a b c d e f g : ℕ) → a + b ≡ c + d → d ≡ e + f → c + f ≡ g → a + b ≡ g + e
merged a b c d e f g h k l = omega arith

merge_loop-IsMerged :
    (fuel start order : ℕ) (s : Buddy)
    → order + fuel ≤ 11
    → IsMerged fuel start order s (merge_loop fuel start order s)
unfolding merge_loop
merge_loop-IsMerged zero start order s fits = ((λ p. refl), omega arith, omega arith, refl, refl)
merge_loop-IsMerged (suc fuel) start order s fits =
    let index = buddy_of start order in
    elim (Bool-cases (not (s.bitmap index) && has_node index (s.free_area order))) [
      | inl found ↦
          let s' = remove_free_node index order s in
          let (spare, bits, total) = remove_free_node_rest index order s in
          let node : has_node index (s.free_area order) ≡ true = ground (arith, found) in
          let (covers, spare', small, bits', total') =
            merge_loop-IsMerged fuel (min start index) (order + 1) s' (omega arith) in
          rw found (
            (λ p.
                merged _ _ _ _ _ _ _ (covers p) (inside_buddy start order p)
                  (cover-remove_free_node index order s p node (omega arith))),
            omega arith,
            omega arith,
            bits' ∙ bits,
            total' ∙ total,
          )
      | inr nothing ↦ rw nothing ((λ p. refl), omega arith, omega arith, refl, refl)
    ]

lost_half : (a b c d e f : ℕ) → a ≡ b + c → d ≡ c + e → b + d ≡ f → a + e ≡ f
lost_half a b c d e f h k l = omega arith

-- `releaseBlock` with a spare node covers every page in the block once more and every other page as
-- often as before, but where it merges up to 2048 pages, which were free but for the block: then it
-- loses the second half of them.
pub release_block_lem :
    (start order : ℕ) (s : Buddy)
    → order < 11
    → s.spare ≢ 0
    → ((p : ℕ) → cover (release_block start order s) p ≡ cover s p + inside start order p)
      ⊎ ((base : ℕ) × ((p : ℕ)
            → base ≤ p
            → p < base + 2 ^ 11
            → 0 < cover s p + inside start order p)
          × ((p : ℕ)
              → cover (release_block start order s) p + inside (base + 2 ^ 10) 10 p
                ≡ cover s p + inside start order p))
unfolding release_block
release_block_lem start order s less some_spare =
    let r = merge_loop (11 - order) start order s in
    let s' = r.2 in
    let (covers, spare, small, bits, total) =
      merge_loop-IsMerged (11 - order) start order s (omega arith) in
    let spare' : s'.spare ≢ 0 = λ h. some_spare (omega arith) in
    elim (Bool-cases (ltb r.1 11)) [
      | inl fits ↦
          let same : min r.1 10 ≡ r.1 = ground (arith, fits) in
          rw same (
            inl (λ p. cover-insert_free_node r.0 r.1 s' p spare' (ground (arith, fits)) ∙ covers p))
      | inr large ↦
          let over : r.1 ≡ 11 = ground (arith, large) in
          let same : min r.1 10 ≡ 10 = ground (arith, large) in
          rw same (
            inr (
              r.0,
              (λ p low high.
                  let here : inside r.0 11 p ≡ 1 = ground arith in
                  let all =
                    subst (λ k. cover s' p + inside r.0 k p ≡ cover s p + inside start order p) over
                      (covers p) in
                  omega (arith, here, all)),
              λ p.
                  lost_half _ _ _ _ _ _ (cover-insert_free_node r.0 10 s' p spare' (omega arith))
                    (inside_two r.0 10 p)
                    (subst (λ k. cover s' p + inside r.0 k p ≡ cover s p + inside start order p)
                      over (covers p)),
            ))
    ]

-- `releaseBlock` leaves the bitmap as it is.
pub release_block_rest :
    (start order : ℕ) (s : Buddy)
    → order < 11
    → ((release_block start order s).bitmap ≡ s.bitmap)
      × ((release_block start order s).total_pages ≡ s.total_pages)
unfolding release_block
release_block_rest start order s less =
    let r = merge_loop (11 - order) start order s in
    let (covers, spare, small, bits, total) =
      merge_loop-IsMerged (11 - order) start order s (omega arith) in
    (
      insert_free_node_bitmap r.0 (min r.1 10) r.2 ∙ bits,
      insert_free_node_total r.0 (min r.1 10) r.2 ∙ total,
    )
