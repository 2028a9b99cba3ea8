-- ===== src/AddressPool/Pages.antt =====
-- The pages of a pool, by their number.
use sysu_os.Base.{
  ℕ, zero, suc, ◌+◌, ◌*◌, ◌/◌, ◌%◌, ◌^◌, ◌<◌, ◌≤◌, ◌==◌, ◌≡◌, ◌∙◌, if◌then◌else◌, arith,
}
use sysu_os.Bitmap.Bits.{IsBytes}
use sysu_os.Bitmap.Allocate.{within}
use sysu_os.AddressPool.{VAddressPool, set_privileges, page_of}

-- The pages stand in the 32-bit addresses from a page's start on, one bit for each, up to the last
-- address of the pool.
pub record IsPool (p : VAddressPool) : Type 0 where
  pub bytes : IsBytes p.resources.bitmap
  pub pages : p.resources.length ≡ p.length
  pub aligned : p.start_address % 4096 ≡ 0
  pub end : p.end_address + 1 ≡ p.start_address + p.length * 4096
  pub fits : p.start_address + p.length * 4096 ≤ 2 ^ 32

-- Which flags a range of pages has after it is set.
pub set_privileges_lem :
    (n i privilege : ℕ) (f : ℕ → ℕ) (k : ℕ)
    → set_privileges n i privilege f k ≡ (if within i n k then privilege else f k)
unfolding set_privileges
set_privileges_lem zero i privilege f k = ground arith
set_privileges_lem (suc n) i privilege f k =
    set_privileges_lem n (suc i) privilege (λ k. if k == i then privilege else f k) k ∙ ground arith

-- The page of an address in a pool is the one that it lies in.
pub page_of_lem :
    (p : VAddressPool) (k o : ℕ)
    → IsPool p
    → k < p.length
    → o < 4096
    → page_of p ((k * 4096 + p.start_address + o) / 4096 * 4096) ≡ k
page_of_lem p k o v less inside = omega (arith, v.aligned, v.fits)

pub page_of_start :
    (p : VAddressPool) (k : ℕ)
    → IsPool p
    → k < p.length
    → ((k * 4096 + p.start_address) % 2 ^ 32 ≡ k * 4096 + p.start_address)
      × (page_of p (k * 4096 + p.start_address) ≡ k)
page_of_start p k v less = (omega (arith, v.fits), omega (arith, v.fits))
