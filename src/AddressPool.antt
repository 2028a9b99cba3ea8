-- ===== src/AddressPool.antt =====
-- src/kernel/address_pool.cpp: `VAddressPool` with `allocate`, `release` and `getVPageFlag`, over the
-- bitmap of its pages. Addresses are 32-bit numbers; the -1 of `allocate` and a failed `ASSERT` of
-- `getVPageFlag` are `none`. The flags of a page are a number, 0 where none is set.
pub mod Pages
pub mod Flags
mod Examples
use sysu_os.Base.{
  ℕ, zero, suc, ◌+◌, ◌-◌, ◌*◌, ◌/◌, ◌%◌, ◌^◌, ◌==◌, ltb, leb, Bool, true, false, ◌&&◌,
  if◌then◌else◌, Option, none, some,
}
use sysu_os.Bitmap
use sysu_os.Bitmap.{BitMap}

abbrev pub page_size : ℕ
page_size = 4096

abbrev pub vp_clear : ℕ
vp_clear = 0

pub record VAddressPool : Type 0 where
  pub length : ℕ
  pub resources : BitMap
  pub start_address : ℕ
  pub end_address : ℕ
  pub privileges : ℕ → ℕ
  pub is_static : Bool
  pub static_privilege : ℕ

-- `privileges[i] = privilege` for `n` pages from `i` on
pub set_privileges : ℕ → ℕ → ℕ → (ℕ → ℕ) → ℕ → ℕ
set_privileges zero i privilege f = f
set_privileges (suc n) i privilege f =
    set_privileges n (suc i) privilege (λ k. if k == i then privilege else f k)

-- the part of `allocate` behind the bitmap
abbrev pub marked : VAddressPool → ℕ → ℕ → BitMap × Option ℕ → VAddressPool × Option ℕ
marked p count privilege (b, none) = (record p { resources = b }, none)
marked p count privilege (b, some start) = (
  record p {
    resources = b;
    privileges =
        if p.is_static then p.privileges else set_privileges count start privilege p.privileges;
  },
  some ((start * page_size + p.start_address) % 2 ^ 32),
)

pub allocate : VAddressPool → ℕ → ℕ → Bool → VAddressPool × Option ℕ
allocate p count privilege reverse =
    marked p count privilege (Bitmap.allocate p.resources count reverse)

-- `(address - startAddress) / PAGE_SIZE`
abbrev pub page_of : VAddressPool → ℕ → ℕ
page_of p address = (address + 2 ^ 32 - p.start_address) % 2 ^ 32 / page_size

pub release : VAddressPool → ℕ → ℕ → VAddressPool
release p address count =
    let start = page_of p address in
    record p {
      resources = Bitmap.release p.resources start count;
      privileges =
          if p.is_static then p.privileges else set_privileges count start vp_clear p.privileges;
    }

abbrev pub is_valid_addr : VAddressPool → ℕ → Bool
is_valid_addr p vaddr = leb p.start_address vaddr && leb vaddr p.end_address

pub get_vpage_flag : VAddressPool → ℕ → Option ℕ
get_vpage_flag p vaddr =
    let idx = page_of p (vaddr / page_size * page_size) in
    if p.is_static
    then some p.static_privilege
    else if is_valid_addr p vaddr && Bitmap.get p.resources idx
    then some (p.privileges idx)
    else none
