-- ===== src/Bitmap/Allocate.antt =====
-- What `allocate` and `release` promise to the address pools and the tables that use a `BitMap`.
use sysu_os.Base.{
  ℕ, ◌+◌, ◌-◌, ◌≤◌, ◌<◌, ◌≡◌, inl, inr, Bool, true, false, arith, ltb, leb, Bool-cases, ◌==◌,
  if◌then◌else◌, ◌&&◌, ap, Option, some, none,
}
use sysu_os.Bitmap.{BitMap, get, Search, take_up, take_down, allocate, release, set_up, set_down}
use sysu_os.Bitmap.Bits.{IsBytes, set_up_lem, set_down_lem}
use sysu_os.Bitmap.Runs.{IsFree, Blocked}
use sysu_os.Bitmap.Forward.{FirstFit, search_forward-FirstFit}
use sysu_os.Bitmap.Backward.{LastFit, search_backward-LastFit}

-- `t` comes before `start` in the order of the search
abbrev pub Before : Bool → ℕ → ℕ → Type 0
Before true t start = start < t
Before false t start = t < start

-- is `j` one of the `n` indices from `start` on?
abbrev pub within : ℕ → ℕ → ℕ → Bool
within start n j = leb start j && ltb j (start + n)

pub data Allocated (b : BitMap) (count : ℕ) (reverse : Bool) : BitMap × Option ℕ → Type 0 where
  taken :
      (b' : BitMap) (start : ℕ)
      → start + count ≤ b.length
      → IsFree b start count
      → ((t : ℕ) → Before reverse t start → t + count ≤ b.length → Blocked b count t)
      → ((j : ℕ) → get b' j ≡ (if within start count j then true else get b j))
      → b'.length ≡ b.length
      → IsBytes b'.bitmap
      → Allocated b count reverse (b', some start)
  refused :
      ((t : ℕ) → t + count ≤ b.length → Blocked b count t) → Allocated b count reverse (b, none)

module _ (b : BitMap) (bytes : IsBytes b.bitmap) (count : ℕ) (positive : 0 < count) where
  take_up-Allocated :
      {s : Search} → FirstFit b count s → Allocated b count false (take_up b count s)
  unfolding take_up
  take_up-Allocated (FirstFit.fits start room free lowest) =
      let marked = set_up_lem count b start true bytes in
      taken (set_up count b start true) start room free (λ t lt _. lowest t lt) marked.2 marked.1
        marked.0
  take_up-Allocated (FirstFit.none_fits blocked) = refused blocked

  take_down-Allocated :
      {s : Search} → LastFit b count s → Allocated b count true (take_down b count s)
  unfolding take_down
  take_down-Allocated (LastFit.fits top enough room free highest) =
      let marked = set_down_lem count b top bytes enough in
      taken (set_down count b top) (top + 1 - count) (omega arith) free (λ t lt. highest t lt)
        (λ j. ground (arith, marked.2 j)) marked.1 marked.0
  take_down-Allocated (LastFit.none_fits blocked) = refused blocked

  -- For a positive `count`, in either direction, `allocate` takes the first run of `count` clear
  -- bits in the order of its search, sets its bits and no other and keeps the length, or answers
  -- -1, and then no run of that length is free.
  pub allocate-Allocated : (reverse : Bool) → Allocated b count reverse (allocate b count reverse)
  unfolding allocate
  allocate-Allocated true =
      let ne : (count == 0) ≡ false = ground arith in
      rw ne (
        take_down-Allocated (
          search_backward-LastFit b count positive (b.length + 1) b.length (omega arith)
            (omega arith) (λ t over room. absurd (omega arith))))
  allocate-Allocated false =
      let ne : (count == 0) ≡ false = ground arith in
      rw ne (
        take_up-Allocated (
          search_forward-FirstFit b count positive (b.length + 1) 0 (omega arith) (omega arith)
            (λ t lt. elim lt [ ])))

pub release_lem :
    (b : BitMap) (index count : ℕ)
    → IsBytes b.bitmap
    → IsBytes (release b index count).bitmap
      × ((release b index count).length ≡ b.length)
      × ((j : ℕ)
          → get (release b index count) j ≡ (if within index count j then false else get b j))
unfolding release
release_lem b index count bytes = set_up_lem count b index false bytes

-- Releasing what an allocation took puts back the state of every bit.
release-Allocated :
    (b : BitMap) (count : ℕ) (reverse : Bool) {b' : BitMap} {r : Option ℕ}
    → Allocated b count reverse (b', r)
    → (start : ℕ) → r ≡ some start
    → (j : ℕ) → get (release b' start count) j ≡ get b j
unfolding release
release-Allocated b count reverse (taken b' s room free best marked len bytes) start e j =
    let at : s ≡ start = ground arith in
    let cleared = (set_up_lem count b' start false bytes).2 j in
    elim (Bool-cases (within start count j)) [
      | inl inside ↦
          let k = j - start in
          let was : get b (s + (j - s)) ≡ false = free (j - s) (ground arith) in
          let here : s + (j - s) ≡ j = ground arith in ground (arith, cleared, ap (get b) here)
      | inr outside ↦ ground (arith, cleared, marked j, at)
    ]
release-Allocated b count reverse (refused blocked) start e j = cc

-- Where an allocation of a positive `count` answers `start`, a release of that run gives every bit
-- back its value.
pub release-allocate :
    (b : BitMap) (count start : ℕ) (reverse : Bool)
    → IsBytes b.bitmap
    → 0 < count
    → (allocate b count reverse).1 ≡ some start
    → (j : ℕ) → get (release (allocate b count reverse).0 start count) j ≡ get b j
release-allocate b count start reverse bytes positive e =
    release-Allocated b count reverse (allocate-Allocated b bytes count positive reverse) start e
