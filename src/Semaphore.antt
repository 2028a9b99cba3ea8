-- ===== src/Semaphore.antt =====
-- src/kernel/sync.cpp: `SpinLock` and `Semaphore`, over the kernel of Process and its lists. A spin
-- lock is the number in its `bolt`; nobody else runs while a process spins here, so a lock that is
-- taken spins until the fuel ends. `P` is modelled by its rounds: the round that goes through, or
-- the one that calls `schedule`, behind which the next round starts when the process runs again. An
-- interrupt inside `P` or `V` is left out.
pub mod Queued
pub mod Wait
mod Examples
use sysu_os.Base.{
  ℕ, zero, suc, ◌+◌, ◌-◌, ◌%◌, ◌^◌, ◌==◌, ltb, Bool, true, false, if◌then◌else◌, Option, none, some,
}
use sysu_os.LinkedList.{Item, Links, front, pop_front, push_back, size, ◌>>=◌}
use sysu_os.LinkedList
use sysu_os.Process.{
  Kernel, Outcome, blocked, general_tag, of_general_tag, set_status, schedule, wake_up,
}

pub record Semaphore : Type 0 where
  pub counter : ℕ
  pub waiting : Item
  pub bolt : ℕ

-- `SpinLock::lock`: each round exchanges the key 1 with the bolt
pub lock_loop : ℕ → ℕ → Option ℕ
lock_loop zero bolt = none
lock_loop (suc fuel) bolt = let rest = lock_loop fuel 1 in if bolt == 0 then some 1 else rest

abbrev pub unlock : Semaphore → Semaphore
unlock s = record s { bolt = 0 }

pub initialize : Links → Semaphore → ℕ → Links × Semaphore
initialize l s counter =
    (LinkedList.initialize l s.waiting, record s { counter = counter; bolt = 0 })

-- what a round of `P` comes to: it returns, or leaves the processor, or runs out of fuel
pub data Passed : Type 0 where
  entered : Semaphore → Kernel → Passed
  switched : Semaphore → Outcome → Passed
  stuck : Passed

-- the part behind `push_back`
abbrev pub block : ℕ → Semaphore → Kernel → Option Links → Passed
block fuel s k none = stuck
block fuel s k (some l) =
    switched (unlock s) (schedule fuel (set_status (record k { links = l }) k.current blocked))

-- the part behind `lock`
abbrev pub pass : ℕ → Semaphore → Kernel → Option ℕ → Passed
pass fuel s k none = stuck
pass fuel s k (some bolt) =
    if ltb 0 s.counter
    then entered (unlock (record s { counter = s.counter - 1 })) k
    else block fuel s k (push_back fuel k.links s.waiting (general_tag k.current))

-- a round of `P`
pub p_round : ℕ → Semaphore → Kernel → Passed
p_round fuel s k = pass fuel s k (lock_loop fuel s.bolt)

-- takes the first process out of the waiting list and wakes it up
abbrev pub wake_front : Kernel → Item → Kernel
wake_front k waiting =
    wake_up (record k { links = pop_front k.links waiting })
      (of_general_tag (front k.links waiting))

-- `V`
pub v_signal : ℕ → Semaphore → Kernel → Option (Semaphore × Kernel)
v_signal fuel s k = do
  bolt ← lock_loop fuel s.bolt
  n ← size fuel k.links s.waiting
  some (
    unlock (record s { counter = (s.counter + 1) % 2 ^ 32 }),
    if n == 0 then k else wake_front k s.waiting,
  )
