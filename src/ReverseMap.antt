-- ===== src/ReverseMap.antt =====
-- src/kernel/rmap.cpp, with `incRef` and `decRef` of src/kernel/pageinfo.cpp: for every physical
-- page the list of the page table entries that map it. An entry of the list is its index in
-- `RMapStart`, 0 ends a list, and a `BitMap` holds which indices are in use. A failed ASSERT is
-- `panic`; -1 and a full map are `refused`. The loop of `detach` runs on fuel.
pub mod Listed
pub mod Attach
pub mod Detach
mod Examples
use sysu_os.Base.{
  ℕ, zero, suc, ◌+◌, ◌-◌, ◌==◌, ltb, Bool, true, false, not, ◌&&◌, ◌||◌, if◌then◌else◌, Option,
  none, some,
}
use sysu_os.Bitmap.{BitMap}
use sysu_os.Bitmap

pub record PageInfo : Type 0 where
  pub ref : ℕ
  pub flags : ℕ
  pub extra : ℕ

pub record RMapEntry : Type 0 where
  pub pte_paddr : ℕ
  pub pte_vaddr : ℕ
  pub next : ℕ
  pub owner : ℕ

pub record RMapManager : Type 0 where
  pub entries : ℕ → RMapEntry
  pub bitmap : BitMap
  pub length : ℕ

abbrev pub no_entry : RMapEntry
no_entry = record { pte_paddr = 0; pte_vaddr = 0; next = 0; owner = 0 }

abbrev pub set_entry : RMapManager → ℕ → RMapEntry → RMapManager
set_entry r i e = record r { entries = λ j. if j == i then e else r.entries j }

abbrev pub set_next : RMapManager → ℕ → ℕ → RMapManager
set_next r i n = set_entry r i (record (r.entries i) { next = n })

pub data Attached : Type 0 where
  attached : (idx : ℕ) → RMapManager → PageInfo → Attached
  refused : Attached
  panic : Attached

-- `incRef` fails on the largest count of 16 bits
pub inc_ref : PageInfo → Option PageInfo
inc_ref p = if ltb p.ref 0xFFFF then some (record p { ref = p.ref + 1 }) else none

pub dec_ref : PageInfo → Option PageInfo
dec_ref p = if ltb 0 p.ref then some (record p { ref = p.ref - 1 }) else none

pub initialize : ℕ → (ℕ → RMapEntry) → Bitmap.Memory → RMapManager
initialize length entries memory = record {
  entries = entries;
  bitmap = Bitmap.set (Bitmap.initialize memory length) 0 true;
  length = length;
}

-- the entry that `allocate` fills in
abbrev pub fill : RMapManager → BitMap → ℕ → ℕ → ℕ → ℕ → RMapManager
fill r b idx pte_paddr pte_vaddr owner =
    set_entry (record r { bitmap = b }) idx
      (record { pte_paddr = pte_paddr; pte_vaddr = pte_vaddr; next = 0; owner = owner })

abbrev pub counted : ℕ → RMapManager → Option PageInfo → Attached
counted idx r none = panic
counted idx r (some p) = attached idx r p

-- the rest of `attach`, once `allocate` has answered
abbrev pub link_first : RMapManager → PageInfo → ℕ → Attached
link_first r p idx =
    let r' = if p.extra == 0 then r else set_next r idx p.extra in
    counted idx r' (inc_ref (record p { extra = idx }))

abbrev pub attach_at : RMapManager → PageInfo → ℕ → ℕ → ℕ → BitMap × Option ℕ → Attached
attach_at r p pte_paddr pte_vaddr owner (b, none) = refused
attach_at r p pte_paddr pte_vaddr owner (b, some idx) =
    link_first (fill r b idx pte_paddr pte_vaddr owner) p idx

pub attach : RMapManager → PageInfo → ℕ → ℕ → ℕ → Attached
attach r p pte_paddr pte_vaddr owner =
    attach_at r p pte_paddr pte_vaddr owner (Bitmap.allocate r.bitmap 1 false)

pub data Detached : Type 0 where
  answered : Bool → RMapManager → PageInfo → Detached
  panic : Detached
  spent : Detached

-- the entry that `detach` looks for
abbrev pub matches : RMapEntry → ℕ → ℕ → Bool
matches e pte_paddr owner = e.pte_paddr == pte_paddr && e.owner == owner

abbrev pub uncounted : RMapManager → Option PageInfo → Detached
uncounted r none = panic
uncounted r (some p) = answered true r p

-- `release(idx)`, `decRef` and the answer `true`
pub drop_entry : RMapManager → PageInfo → ℕ → Detached
unfolding dec_ref
drop_entry r p idx =
    let r' = set_entry (record r { bitmap = Bitmap.release r.bitmap idx 1 }) idx no_entry in
    if ltb idx r.length then uncounted r' (dec_ref p) else panic

pub detach_loop : ℕ → RMapManager → PageInfo → ℕ → ℕ → ℕ → ℕ → Detached
detach_loop zero r p pte_paddr owner prev idx = spent
detach_loop (suc fuel) r p pte_paddr owner prev idx =
    let following = (r.entries idx).next in
    let rest = detach_loop fuel r p pte_paddr owner idx following in
    if idx == 0
    then answered false r p
    else if matches (r.entries idx) pte_paddr owner
    then drop_entry (set_next r prev following) p idx
    else rest

-- `detach` with the first index of the page
pub detach_from : ℕ → RMapManager → PageInfo → ℕ → ℕ → ℕ → Detached
unfolding detach_loop
detach_from fuel r p pte_paddr owner idx =
    let following = (r.entries idx).next in
    if not (ltb 0 p.ref) || idx == 0
    then panic
    else if matches (r.entries idx) pte_paddr owner
    then drop_entry r (record p { extra = following }) idx
    else detach_loop fuel r p pte_paddr owner idx following

pub detach : ℕ → RMapManager → PageInfo → ℕ → ℕ → Detached
unfolding detach_from
detach fuel r p pte_paddr owner = detach_from fuel r p pte_paddr owner p.extra
