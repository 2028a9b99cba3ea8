-- ===== src/Buddy.antt =====
-- src/kernel/buddy.cpp. A free list is the list of the start indices of its nodes, the head first;
-- which element of `freeNodes` holds a node is left out, but not how many are left. The bitmap is a
-- function from pages to bits. Flipping the bit `1 << order` of an index by `^` is written out.
pub mod Cover
pub mod Blocks
pub mod Pages
pub mod Return
mod Examples
use sysu_os.Base.{
  ℕ, zero, suc, ◌+◌, ◌-◌, ◌*◌, ◌/◌, ◌%◌, ◌^◌, ◌==◌, ltb, leb, min, Bool, true, false, not, ◌&&◌,
  if◌then◌else◌, Option, none, some, List, [], ◌∷◌,
}

-- `MAX_ORDER`
abbrev pub max_order : ℕ
max_order = 10

abbrev pub Area : Type 0
Area = ℕ → List ℕ

pub record Buddy : Type 0 where
  pub free_area : Area
  pub spare : ℕ
  pub bitmap : ℕ → Bool
  pub total_pages : ℕ

-- the loop of `log2`; a number is enough fuel for itself
pub log2_loop : ℕ → ℕ → ℕ → ℕ
log2_loop zero num res = res
log2_loop (suc fuel) num res =
    let rest = log2_loop fuel (num / 2) (res + 1) in if ltb 1 num then rest else res

-- `log2` of a positive number
pub log2 : ℕ → ℕ
unfolding log2_loop
log2 num = log2_loop num num 0

-- `log2` of 0 is -1
pub count2order : ℕ → ℕ
unfolding log2
count2order count = if count - 1 == 0 then 0 else log2 (count - 1) + 1

abbrev pub put_area : Area → ℕ → List ℕ → Area
put_area area order blocks o = if o == order then blocks else area o

-- without a spare node the block is lost
pub insert_free_node : ℕ → ℕ → Buddy → Buddy
insert_free_node start order s = if s.spare == 0 then s else (record s {
  free_area = put_area s.free_area order (start ∷ s.free_area order);
  spare = s.spare - 1;
})

-- the result of `findNode` on a free list
pub has_node : ℕ → List ℕ → Bool
has_node index [] = false
has_node index (start ∷ blocks) =
    let rest = has_node index blocks in if start == index then true else rest

-- the free list without the node that `findNode` finds
pub without_node : ℕ → List ℕ → List ℕ
without_node index [] = []
without_node index (start ∷ blocks) =
    let rest = start ∷ without_node index blocks in if start == index then blocks else rest

pub remove_free_node : ℕ → ℕ → Buddy → Buddy
unfolding without_node
remove_free_node index order s = record s {
  free_area = put_area s.free_area order (without_node index (s.free_area order));
  spare = s.spare + 1;
}

abbrev pub split_block : ℕ → Option ℕ × Buddy → Option ℕ × Buddy
split_block order (none, s) = (none, s)
split_block order (some idx, s) = (some idx, insert_free_node (idx + 2 ^ order) order s)

-- the head of the free list, if it has one
abbrev pub take_block : ℕ → Buddy → Option ℕ × Buddy → List ℕ → Option ℕ × Buddy
take_block order s larger [] = larger
take_block order s larger (idx ∷ blocks) =
    (some idx, record s { free_area = put_area s.free_area order blocks; spare = s.spare + 1 })

-- a recursive call raises the order, so one more than the orders that are left is enough fuel
pub allocate_loop : ℕ → ℕ → Buddy → Option ℕ × Buddy
allocate_loop zero order s = (none, s)
allocate_loop (suc fuel) order s =
    let larger = split_block order (allocate_loop fuel (order + 1) s) in
    if ltb max_order order then (none, s) else take_block order s larger (s.free_area order)

pub allocate_block : ℕ → Buddy → Option ℕ × Buddy
unfolding allocate_loop
allocate_block order s = allocate_loop (max_order + 1 - order) order s

-- `startIndex ^ (1 << order)`
abbrev pub buddy_of : ℕ → ℕ → ℕ
buddy_of start order = if start / 2 ^ order % 2 == 0 then start + 2 ^ order else start - 2 ^ order

-- the loop of `releaseBlock`, with `fuel` orders left
pub merge_loop : ℕ → ℕ → ℕ → Buddy → ℕ × ℕ × Buddy
unfolding has_node
merge_loop zero start order s = (start, order, s)
merge_loop (suc fuel) start order s =
    let index = buddy_of start order in
    let merged = merge_loop fuel (min start index) (order + 1) (remove_free_node index order s) in
    if not (s.bitmap index) && has_node index (s.free_area order) then merged else (start, order, s)

pub release_block : ℕ → ℕ → Buddy → Buddy
unfolding merge_loop
release_block start order s =
    let (start', order', s') = merge_loop (max_order + 1 - order) start order s in
    insert_free_node start' (min order' max_order) s'

-- the loops of `SET_MAP`
abbrev pub mark : ℕ → ℕ → Bool → Buddy → Buddy
mark index order value s = record s {
  bitmap = λ p. if leb index p && ltb p (index + 2 ^ order) then value else s.bitmap p;
}

abbrev pub marked : ℕ → Option ℕ × Buddy → Option ℕ × Buddy
marked order (none, s) = (none, s)
marked order (some idx, s) = (some idx, mark idx order true s)

pub allocate : ℕ → Buddy → Option ℕ × Buddy
unfolding allocate_block count2order
allocate count s = marked (count2order count) (allocate_block (count2order count) s)

pub release : ℕ → ℕ → Buddy → Buddy
unfolding release_block count2order
release index count s =
    mark index (count2order count) false (release_block index (count2order count) s)
