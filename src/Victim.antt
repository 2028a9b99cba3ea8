-- ===== src/Victim.antt =====
-- `PAddressPool::findVictim` of src/kernel/address_pool.cpp, which looks for the page to swap out by
-- the bits that the processor sets in page table entries, with `Buddy::isAlloc` of
-- src/kernel/buddy.cpp. The bitmap of the buddy allocator is a function from the number of a page, as
-- in Buddy; it, the descriptions of the pages and the entries of the reverse map are read only. The
-- page table entries are words by their address, and `&` with one bit is written with `/` and `%`. A
-- failed `ASSERT` is `failed`. Addresses are numbers below 2^32 that do not wrap around.
pub mod Search
mod Examples
use sysu_os.Base.{
  ℕ, zero, suc, ◌+◌, ◌-◌, ◌*◌, ◌/◌, ◌%◌, ◌==◌, ltb, Bool, true, false, not, ◌&&◌, ◌||◌,
  if◌then◌else◌,
}
use sysu_os.ReverseMap.{PageInfo, RMapEntry}

pub record VictimInfo : Type 0 where
  pub pte_ptr : ℕ
  pub paddr : ℕ

-- the members of `PAddressPool` and of the memory manager that are read
pub record PagePool : Type 0 where
  pub start_address : ℕ
  pub length : ℕ
  pub bitmap : ℕ → Bool
  pub pageinfos : ℕ → PageInfo
  pub rmap : ℕ → RMapEntry

-- `victim_idx`, the page table entries and the array `victims`
pub record State : Type 0 where
  pub victim_idx : ℕ
  pub ptes : ℕ → ℕ
  pub victims : ℕ → VictimInfo

pub data Outcome : Type 0 where
  going : State → Outcome
  picked : VictimInfo → State → Outcome
  failed : Outcome

abbrev pub no_victim : VictimInfo
no_victim = record { pte_ptr = 0; paddr = 0 }

-- `PTE_ACCESSED` and `PTE_DIRTY`
abbrev pub is_accessed : ℕ → Bool
is_accessed word = word / 32 % 2 == 1

abbrev pub is_dirty : ℕ → Bool
is_dirty word = word / 64 % 2 == 1

abbrev pub page_info : PagePool → ℕ → PageInfo
page_info p idx = p.pageinfos (p.start_address / 4096 + idx)

-- `isAlloc`: the last `& 1U` keeps the lowest bit of the byte only
abbrev pub is_alloc : PagePool → ℕ → Bool
is_alloc p idx = p.bitmap idx && idx % 8 == 0

-- a page with `PG_SINGLE` that one page table entry maps
abbrev pub is_mapped_once : PagePool → ℕ → Bool
is_mapped_once p idx = (page_info p idx).flags / 64 % 2 == 1 && (page_info p idx).ref == 1

abbrev pub pte_of : PagePool → ℕ → ℕ
pte_of p idx = (p.rmap (page_info p idx).extra).pte_vaddr

-- `access | dirty`
abbrev pub priority_of : ℕ → ℕ
priority_of word = (if is_accessed word then 2 else 0) + (if is_dirty word then 1 else 0)

abbrev pub put : {A : Type 0} → (ℕ → A) → ℕ → A → ℕ → A
put f i v k = if k == i then v else f k

abbrev pub victim_of : PagePool → ℕ → VictimInfo
victim_of p idx = record { pte_ptr = pte_of p idx; paddr = p.start_address + idx * 4096 }

-- what a round does with a page, before the index moves on; `last` tells the last round
pub visit : PagePool → Bool → State → Outcome
visit p last s =
    let idx = s.victim_idx in
    let word = s.ptes (pte_of p idx) in
    let priority = priority_of word in
    let cleared = going (record s { ptes = put s.ptes (pte_of p idx) (word - 32) }) in
    let s' = record s { victims = put s.victims priority (victim_of p idx) } in
    let kept = if priority == 0 then picked (victim_of p idx) s' else going s' in
    if not (is_alloc p idx)
    then failed
    else if not (is_mapped_once p idx)
    then going s
    else if not last && is_accessed word
    then cleared
    else if (s.victims priority).paddr == 0
    then kept
    else going s

abbrev pub move_on : PagePool → State → State
move_on p s = record s { victim_idx = (s.victim_idx + 1) % p.length }

abbrev pub and_then : Outcome → (State → Outcome) → Outcome
and_then (going s) go = go s
and_then (picked v s) go = picked v s
and_then failed go = failed

-- the inner loop
pub page_loop : ℕ → PagePool → Bool → State → Outcome
page_loop zero p last s = going s
page_loop (suc n) p last s = and_then (visit p last s) (λ s'. page_loop n p last (move_on p s'))

-- the outer loop, by the rounds that are left
pub round_loop : ℕ → PagePool → ℕ → ℕ → State → Outcome
round_loop zero p n saved s = going s
round_loop (suc r) p n saved s =
    and_then (page_loop n p (r == 0) (record s { victim_idx = saved })) (round_loop r p n saved)

-- the last loop: the first victim of a higher priority
abbrev pub is_victim : VictimInfo → Bool
is_victim v = not (v.paddr == 0) && not (v.pte_ptr == 0)

abbrev pub choose : Outcome → Outcome
choose (picked v s) = picked v s
choose failed = failed
choose (going s) =
    if is_victim (s.victims 1)
    then picked (s.victims 1) s
    else if is_victim (s.victims 2)
    then picked (s.victims 2) s
    else if is_victim (s.victims 3)
    then picked (s.victims 3) s
    else picked no_victim s

abbrev pub window : PagePool → ℕ → ℕ
window p search_length =
    if search_length == 0 || ltb p.length search_length then p.length else search_length

pub find_victim : PagePool → ℕ → (ℕ → ℕ) → ℕ → ℕ → Outcome
find_victim p saved ptes search_length rounds = choose (
    round_loop rounds p (window p search_length) saved
      (record { victim_idx = saved; ptes = ptes; victims = λ i. no_victim }))
