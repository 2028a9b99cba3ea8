-- ===== src/Victim/Examples.antt =====
-- A pool of four pages that are all in use, each mapped once; page 0 is clean and not accessed.
use sysu_os.Base.{ℕ, ◌*◌, ◌≡◌, refl, true, arith}
use sysu_os.Victim.{
  PagePool, failed, picked, no_victim, put, victim_of, find_victim, round_loop, page_loop, visit,
}
use sysu_os.Victim.Search.{IsStopped, find_victim-IsStopped}

abbrev pool : PagePool
pool = record {
  start_address = 0x20_0000;
  length = 4;
  bitmap = λ k. true;
  pageinfos = λ k. record { ref = 1; flags = 64; extra = k };
  rmap = λ i. record { pte_paddr = 0; pte_vaddr = 4 * i; next = 0; owner = 1 };
}

-- page table entries with neither bit
abbrev idle : ℕ → ℕ
idle a = 3

-- page table entries with both bits
abbrev busy : ℕ → ℕ
busy a = 96

find_victim-IsStopped_example : IsStopped pool busy 0 (find_victim pool 0 busy 0 3)
find_victim-IsStopped_example = find_victim-IsStopped pool 0 0 2 busy (omega arith) (omega arith)

-- A pool in which every page could be swapped out makes the search fail.
fails_on_busy : find_victim pool 0 busy 0 3 ≡ failed
unfolding find_victim round_loop page_loop visit
fails_on_busy = refl

picks_first :
    find_victim pool 0 idle 0 3
    ≡ picked (victim_of pool 0) (record {
      victim_idx = 0;
      ptes = idle;
      victims = put (λ i. no_victim) 0 (victim_of pool 0);
    })
unfolding find_victim round_loop page_loop visit
picks_first = refl
