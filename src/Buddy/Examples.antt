-- ===== src/Buddy/Examples.antt =====
-- A memory of eight pages, of which the first four are in use.
use sysu_os.Base.{ℕ, ◌^◌, ◌<◌, ◌≤◌, ◌==◌, ltb, leb, ◌≡◌, ◌≢◌, refl, if◌then◌else◌, arith, [], ◌∷◌}
use sysu_os.Buddy.{
  Buddy, count2order, allocate, release, release_block, insert_free_node, remove_free_node,
}
use sysu_os.Buddy.Cover.{cover}
use sysu_os.Buddy.Pages.{IsPartition, IsAllocated, count2order_lem, allocate-IsAllocated}
use sysu_os.Buddy.Return.{IsInUse, IsReturned, release-IsReturned}

abbrev half : Buddy
half = record {
  free_area = λ o. if o == 2 then 4 ∷ [] else [];
  spare = 20;
  bitmap = λ p. ltb p 4;
  total_pages = 8;
}

half-IsPartition : IsPartition half
unfolding cover
half-IsPartition = ((λ p less. ground (arith, less)), λ p more. ground (arith, more))

allocate-IsAllocated_example : IsAllocated 3 half (allocate 3 half)
allocate-IsAllocated_example = allocate-IsAllocated 3 half half-IsPartition (omega arith)

order_is : count2order 4 ≡ 2
unfolding count2order
order_is = refl

half-IsInUse : IsInUse half 0 (count2order 4)
half-IsInUse = rw order_is (λ p low high. (omega (arith, high), ground (arith, high)))

spare_nodes : ◌≢◌ {A = ℕ} 20 0
spare_nodes = omega arith

release-IsReturned_example : IsReturned half 0 (count2order 4) (release 0 4 half)
release-IsReturned_example =
    release-IsReturned 0 4 half half-IsPartition half-IsInUse (rw order_is (omega arith))
      spare_nodes

count2order_lem_example :
    (5 ≤ 2 ^ count2order 5) × ((order : ℕ) → order < count2order 5 → 2 ^ order < 5)
count2order_lem_example = count2order_lem 5 (omega arith)

-- A memory of 2048 pages whose first half is free.
abbrev large : Buddy
large = record {
  free_area = λ o. if o == 10 then 0 ∷ [] else [];
  spare = 20;
  bitmap = λ p. leb 1024 p;
  total_pages = 2048;
}

-- The second half is lost when it is released.
merged : (release_block 1024 10 large).free_area 10 ≡ 0 ∷ []
unfolding release_block insert_free_node remove_free_node
merged = refl
