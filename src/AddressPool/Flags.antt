-- ===== src/AddressPool/Flags.antt =====
-- What `allocate` and `release` do to the flags that `getVPageFlag` answers.
use sysu_os.Base.{
  ℕ, ◌+◌, ◌-◌, ◌*◌, ◌<◌, ◌≤◌, ◌≡◌, refl, sym, ap, ap₂, ◌∙◌, Bool, true, false, not, ◌&&◌,
  if◌then◌else◌, Bool-cases, inl, inr, arith, Option, none, some,
}
use sysu_os.Bitmap
use sysu_os.Bitmap.{BitMap}
use sysu_os.Bitmap.Runs.{Blocked}
use sysu_os.Bitmap.Allocate.{Allocated, taken, refused, within, allocate-Allocated, release_lem}
use sysu_os.AddressPool.{
  VAddressPool, set_privileges, marked, allocate, page_of, release, is_valid_addr, get_vpage_flag,
  vp_clear,
}
use sysu_os.AddressPool.Pages.{IsPool, set_privileges_lem, page_of_lem, page_of_start}

-- address `o` in page `k`
abbrev pub address_in : VAddressPool → ℕ → ℕ → ℕ
address_in p k o = k * 4096 + p.start_address + o

flag_lem :
    (p : VAddressPool) (k o : ℕ)
    → IsPool p
    → k < p.length
    → o < 4096
    → get_vpage_flag p (address_in p k o) ≡ (
        if p.is_static
        then some p.static_privilege
        else if Bitmap.get p.resources k
        then some (p.privileges k)
        else none)
unfolding get_vpage_flag
flag_lem p k o v less inside =
    let valid : is_valid_addr p (address_in p k o) ≡ true = ground (arith, v.end, less, inside) in
    rw (page_of_lem p k o v less inside, valid) refl

-- the flags of a page after a range of pages was granted, or taken back
flag_after :
    (static w was b : Bool) (fixed privilege : ℕ) (f g : ℕ → ℕ) (k : ℕ)
    → b ≡ (if w then true else was)
    → g k ≡ (if w then privilege else f k)
    → (if static then some fixed else if b then some ((if static then f else g) k) else none) ≡ (
        if w && not static
        then some privilege
        else if static
        then some fixed
        else if was
        then some (f k)
        else none)
flag_after true true was b fixed privilege f g k marks sets = refl
flag_after true false was b fixed privilege f g k marks sets = refl
flag_after false true was b fixed privilege f g k marks sets = rw (marks, sets) refl
flag_after false false was b fixed privilege f g k marks sets = rw (marks, sets) refl

flag_gone :
    (w was b : Bool) (f g : ℕ → ℕ) (k : ℕ)
    → b ≡ (if w then false else was)
    → g k ≡ (if w then vp_clear else f k)
    → (if b then some (g k) else none) ≡ (if w then none else if was then some (f k) else none)
flag_gone true was b f g k marks sets = rw marks refl
flag_gone false was b f g k marks sets = rw (marks, sets) refl

-- what comes of `allocate`
abbrev pub IsGranted : VAddressPool → ℕ → ℕ → VAddressPool × Option ℕ → Type 0
IsGranted p count privilege (p', none) =
    (p' ≡ p) × ((t : ℕ) → t + count ≤ p.length → Blocked p.resources count t)
IsGranted p count privilege (p', some address) =
    (start : ℕ) × (address ≡ start * 4096 + p.start_address)
    × (start + count ≤ p.length)
    × ((j : ℕ) → j < count → Bitmap.get p.resources (start + j) ≡ false)
    × IsPool p'
    × ((p'.start_address ≡ p.start_address) × (p'.length ≡ p.length) × (p'.is_static ≡ p.is_static))
    × ((k o : ℕ)
        → k < p.length
        → o < 4096
        → get_vpage_flag p' (address_in p k o) ≡ (
            if within start count k && not p.is_static
            then some privilege
            else get_vpage_flag p (address_in p k o)))

module _ (p : VAddressPool) (v : IsPool p) (count privilege : ℕ) (positive : 0 < count) where
  marked-IsGranted :
      (reverse : Bool) {r : BitMap × Option ℕ}
      → Allocated p.resources count reverse r
      → IsGranted p count privilege (marked p count privilege r)
  marked-IsGranted reverse (taken b start room free first marks len bytes) =
      let inside : start + count ≤ p.length = omega (arith, v.pages) in
      let p' = (marked p count privilege (b, some start)).0 in
      let v' : IsPool p' = record {
        bytes = bytes;
        pages = len ∙ v.pages;
        aligned = v.aligned;
        end = v.end;
        fits = v.fits;
      } in
      (
        start,
        (page_of_start p start v (omega arith)).0,
        inside,
        free,
        v',
        (refl, refl, refl),
        λ k o less low.
            flag_lem p' k o v' less low
            ∙ flag_after p.is_static (within start count k) (Bitmap.get p.resources k)
                (Bitmap.get b k) p.static_privilege privilege p.privileges
                (set_privileges count start privilege p.privileges) k (marks k)
                (set_privileges_lem count start privilege p.privileges k)
            ∙ ap (λ f. if within start count k && not p.is_static then some privilege else f)
                (sym (flag_lem p k o v less low)),
      )
  marked-IsGranted reverse (refused blocked) = (refl, λ t room. blocked t (omega (arith, v.pages)))

  -- `allocate` of a positive number of pages, in either direction: the pages of an answered address lie
  -- in the pool, were free, and have the flags that were asked for, unless the pool has one flag for
  -- all, and the other pages have the flags that they had; where it answers -1, no run of so many
  -- pages is free, and the pool is as it was.
  pub allocate-IsGranted :
      (reverse : Bool) → IsGranted p count privilege (allocate p count privilege reverse)
  unfolding allocate
  allocate-IsGranted reverse =
      marked-IsGranted reverse (allocate-Allocated p.resources v.bytes count positive reverse)

-- `release` of pages of the pool takes their flags away, and no other page's.
pub release_flag :
    (p : VAddressPool) (start count k o : ℕ)
    → IsPool p
    → 0 < count
    → start + count ≤ p.length
    → k < p.length
    → o < 4096
    → p.is_static ≡ false
    → get_vpage_flag (release p (start * 4096 + p.start_address) count) (address_in p k o)
      ≡ (if within start count k then none else get_vpage_flag p (address_in p k o))
unfolding release
release_flag p start count k o v positive room less low dynamic =
    let b = Bitmap.release p.resources start count in
    let (bytes, len, marks) = release_lem p.resources start count v.bytes in
    let state = λ (s : ℕ).
      let r : VAddressPool = record p {
        resources = Bitmap.release p.resources s count;
        privileges =
            if p.is_static then p.privileges else set_privileges count s vp_clear p.privileges;
      } in
      r in
    let place : page_of p (start * 4096 + p.start_address) ≡ start =
      (page_of_start p start v (omega arith)).1 in
    let p' = state start in
    let v' : IsPool p' = record {
      bytes = bytes;
      pages = len ∙ v.pages;
      aligned = v.aligned;
      end = v.end;
      fits = v.fits;
    } in
    ap (λ s. get_vpage_flag (state s) (address_in p k o)) place
    ∙ flag_lem p' k o v' less low
    ∙ ap
        (λ static.
          if static
          then some p.static_privilege
          else if Bitmap.get b k
          then some (
              (if static then p.privileges else set_privileges count start vp_clear p.privileges) k)
          else none)
        dynamic
    ∙ flag_gone (within start count k) (Bitmap.get p.resources k) (Bitmap.get b k) p.privileges
        (set_privileges count start vp_clear p.privileges) k (marks k)
        (set_privileges_lem count start vp_clear p.privileges k)
    ∙ ap (λ f. if within start count k then none else f)
        (sym (
          flag_lem p k o v less low
          ∙ ap
              (λ static.
                if static
                then some p.static_privilege
                else if Bitmap.get p.resources k
                then some (p.privileges k)
                else none)
              dynamic))

-- An answered address was given back: every address of the pool has the flags of before.
abbrev pub IsRestored : VAddressPool → ℕ → VAddressPool × Option ℕ → Type 0
IsRestored p count (p', none) = p' ≡ p
IsRestored p count (p', some address) =
    (k o : ℕ)
    → k < p.length
    → o < 4096
    → get_vpage_flag (release p' address count) (address_in p k o)
      ≡ get_vpage_flag p (address_in p k o)

granted-IsRestored :
    (p : VAddressPool) (count privilege : ℕ)
    → IsPool p
    → 0 < count
    → p.is_static ≡ false
    → (r : VAddressPool × Option ℕ) → IsGranted p count privilege r
    → IsRestored p count r
granted-IsRestored p count privilege v positive dynamic (p', none) (same, blocked) = same
granted-IsRestored p count privilege v positive dynamic (p', some address)
      (start, is_address, room, free, v', (base, len, static), flags) =
    λ k o less low.
      let at = is_address ∙ ap (λ a. start * 4096 + a) (sym base) in
      let same = ap (λ a. k * 4096 + a + o) (sym base) in
      ap₂ (λ a b. get_vpage_flag (release p' a count) b) at same
      ∙ release_flag p' start count k o v' positive (omega (arith, len)) (omega (arith, len)) low
          (static ∙ dynamic)
      ∙ elim (Bool-cases (within start count k)) [
        | inl inside ↦
            let place : start + (k - start) ≡ k = ground (arith, inside) in
            let clear : Bitmap.get p.resources k ≡ false =
              sym (ap (Bitmap.get p.resources) place) ∙ free (k - start) (ground (arith, inside)) in
            rw inside (
              sym (
                flag_lem p k o v less low
                ∙ ap₂
                    (λ static b.
                      if static
                      then some p.static_privilege
                      else if b
                      then some (p.privileges k)
                      else none)
                    dynamic clear))
        | inr outside ↦ rw outside (
            ap (get_vpage_flag p') (sym same)
            ∙ flags k o less low
            ∙ ap
                (λ w.
                  if w && not p.is_static
                  then some privilege
                  else get_vpage_flag p (address_in p k o))
                outside)
      ]

-- In a pool with flags for each page, releasing the pages that an allocation answered gives every
-- address of the pool the flags that it had before.
pub release-allocate_pages :
    (p : VAddressPool) (count privilege : ℕ) (reverse : Bool)
    → IsPool p
    → 0 < count
    → p.is_static ≡ false
    → IsRestored p count (allocate p count privilege reverse)
release-allocate_pages p count privilege reverse v positive dynamic =
    granted-IsRestored p count privilege v positive dynamic (allocate p count privilege reverse)
      (allocate-IsGranted p v count privilege positive reverse)
