-- ===== src/FileAppend/Chains.antt =====
-- The walk to the last cluster of a file.
use sysu_os.Base.{ℕ, zero, ◌<◌, ltb, leb, suc, refl, ◌≡◌, Bool, true, false, ◌&&◌, arith, some}
use sysu_os.FatTable.{Table}
use sysu_os.FileAppend.{last_loop}

-- does an entry name a next cluster?
abbrev pub goes_on : Table → ℕ → Bool
goes_on t c = leb 2 (t c) && ltb (t c) 4088

-- the chain from a cluster ends at another one, after so many steps
pub data IsLast (t : Table) : ℕ → ℕ → ℕ → Type 0 where
  ends_here : (c : ℕ) → goes_on t c ≡ false → IsLast t c c 0
  ends_behind :
      (c last n : ℕ) → goes_on t c ≡ true → IsLast t (t c) last n → IsLast t c last (suc n)

-- Fuel above the number of steps finds the last cluster.
pub last_loop-IsLast :
    {t : Table} (fuel : ℕ) {c last n : ℕ}
    → IsLast t c last n
    → n < fuel
    → last_loop fuel t c ≡ some last
unfolding last_loop
last_loop-IsLast zero chain enough = absurd (omega arith)
last_loop-IsLast (suc fuel) (ends_here c stop) enough = rw stop refl
last_loop-IsLast (suc fuel) (ends_behind c last n more chain) enough =
    rw more (last_loop-IsLast fuel chain (omega arith))
