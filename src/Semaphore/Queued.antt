-- ===== src/Semaphore/Queued.antt =====
-- A semaphore whose waiting list is a list of its own, apart from that of the ready processes, and a
-- spin lock that is free.
use sysu_os.Base.{ℕ, zero, suc, ◌<◌, ◌≡◌, refl, List, arith, some}
use sysu_os.LinkedList.{Item}
use sysu_os.LinkedList.Chain.{IsList}
use sysu_os.LinkedList.Frame.{Apart}
use sysu_os.Process.{Kernel, ready_list}
use sysu_os.Process.Schedule.{general_tags}
use sysu_os.Semaphore.{lock_loop}

-- The processes `ws` wait for the semaphore and those of `rs` are ready.
pub record IsQueued (k : Kernel) (waiting : Item) (ws rs : List ℕ) : Type 0 where
  pub waiters : IsList k.links waiting (general_tags ws)
  pub readies : IsList k.links (ready_list k) (general_tags rs)
  pub apart : Apart waiting (general_tags ws) (ready_list k) (general_tags rs)

pub lock_free : (fuel bolt : ℕ) → bolt ≡ 0 → 0 < fuel → lock_loop fuel bolt ≡ some 1
unfolding lock_loop
lock_free zero bolt free enough = absurd (omega arith)
lock_free (suc fuel) bolt free enough = rw free refl
