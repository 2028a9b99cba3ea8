-- ===== src/ReverseMap/Detach.antt =====
-- `detach` and the list of a page.
use sysu_os.Base.{
  ℕ, zero, suc, ◌-◌, ◌<◌, ◌==◌, ltb, ◌≡◌, ◌≢◌, refl, ap, ◌∙◌, Bool, true, false, ◌||◌, List, [],
  ◌∷◌, ◌++◌, arith, length, length-append, if◌then◌else◌, some, ==→eq, ==_refl, ne→==, Bool-cases,
  inl, inr,
}
use sysu_os.Bitmap.{get, release}
use sysu_os.Bitmap.Allocate.{within, release_lem}
use sysu_os.LinkedList.Chain.{
  has, Distinct, last, has-append, has-last, Distinct-delete, Distinct-apart, Distinct-right,
}
use sysu_os.ReverseMap.{
  RMapManager, RMapEntry, PageInfo, Detached, answered, detach, detach_from, detach_loop,
  drop_entry, dec_ref, matches, set_next, set_entry, no_entry, uncounted,
}
use sysu_os.ReverseMap.Listed.{Chain, InUse, IsListed, IsReverseMap, Chain-frame, InUse-frame}

-- does one of the entries match?
abbrev pub any_match : RMapManager → ℕ → ℕ → List ℕ → Bool
any_match r pte_paddr owner [] = false
any_match r pte_paddr owner (x ∷ xs) =
    matches (r.entries x) pte_paddr owner || any_match r pte_paddr owner xs

module _ (r : RMapManager) (p : PageInfo) (pte_paddr owner : ℕ) where
  detach_loop-found :
      (fuel prev idx : ℕ) (ys : List ℕ) (z : ℕ) (zs : List ℕ)
      → Chain r.entries idx (ys ++ z ∷ zs)
      → any_match r pte_paddr owner ys ≡ false
      → matches (r.entries z) pte_paddr owner ≡ true
      → length ys < fuel
      → detach_loop fuel r p pte_paddr owner prev idx
        ≡ drop_entry (set_next r (last prev ys) (r.entries z).next) p z
  unfolding detach_loop
  detach_loop-found zero prev idx ys z zs c out here enough = absurd (omega arith)
  detach_loop-found (suc fuel) prev idx [] z zs c out here enough =
      rw (c.0, ne→== z 0 c.1, here) refl
  detach_loop-found (suc fuel) prev idx (y ∷ ys) z zs c out here enough =
      let other : matches (r.entries y) pte_paddr owner ≡ false = ground arith in
      rw (c.0, ne→== y 0 c.1, other)
        (detach_loop-found fuel y (r.entries y).next ys z zs c.2 (ground arith) here (omega arith))

  detach_loop-absent :
      (fuel prev idx : ℕ) (ys : List ℕ)
      → Chain r.entries idx ys
      → any_match r pte_paddr owner ys ≡ false
      → length ys < fuel
      → detach_loop fuel r p pte_paddr owner prev idx ≡ answered false r p
  unfolding detach_loop
  detach_loop-absent zero prev idx ys c out enough = absurd (omega arith)
  detach_loop-absent (suc fuel) prev idx [] c out enough = rw c refl
  detach_loop-absent (suc fuel) prev idx (y ∷ ys) c out enough =
      let other : matches (r.entries y) pte_paddr owner ≡ false = ground arith in
      rw (c.0, ne→== y 0 c.1, other)
        (detach_loop-absent fuel y (r.entries y).next ys c.2 (ground arith) (omega arith))

-- the entries after `z` is unlinked behind `w` and wiped
abbrev unlinked : (ℕ → RMapEntry) → ℕ → ℕ → ℕ → RMapEntry
unlinked e w z j =
    if j == z then no_entry else if j == w then record (e w) { next = (e z).next } else e j

has_apart : (x z : ℕ) (xs : List ℕ) → has x xs ≡ true → has z xs ≡ false → (x == z) ≡ false
has_apart x z xs h out = elim (Bool-cases (x == z)) [
  | inl e ↦ absurd (ground (arith, ap (λ y. has y xs) (==→eq x z e)))
  | inr ne ↦ ne
]

Chain-unlinked :
    (e : ℕ → RMapEntry) (i y : ℕ) (ys : List ℕ) (z : ℕ) (zs : List ℕ)
    → Chain e i (y ∷ (ys ++ z ∷ zs))
    → Distinct (y ∷ (ys ++ z ∷ zs))
    → Chain (unlinked e (last y ys) z) i (y ∷ (ys ++ zs))
Chain-unlinked e i y [] z zs c d =
    let apart : (y == z) ≡ false = ground arith in
    (
      c.0,
      c.1,
      rw (apart, ==_refl y)
          (Chain-frame e (unlinked e y z) (e z).next zs
            (λ x h.
              let not_z = has_apart x z zs h d.1.0 in
              let not_y = has_apart x y zs h (ground arith) in rw (not_z, not_y) refl)
            c.2.2),
    )
Chain-unlinked e i y (y' ∷ ys) z zs c d =
    let all = y' ∷ (ys ++ z ∷ zs) in
    let not_z : (y == z) ≡ false = ground (arith, has-append y ys (z ∷ zs)) in
    let not_w : (y == last y' ys) ≡ false = front_apart (has-last y' ys) in
    (c.0, c.1, rw (not_z, not_w) (Chain-unlinked e (e y).next y' ys z zs c.2 d.1))
  where
    front_apart : has (last y' ys) (y' ∷ ys) ≡ true → (y == last y' ys) ≡ false
    front_apart h = elim (Bool-cases (y == last y' ys)) [
      | inl e' ↦ absurd (
          ground
            (arith, ap (λ t. has t (y' ∷ ys)) (==→eq y (last y' ys) e'), has-append y ys (z ∷ zs)))
      | inr ne ↦ ne
    ]

InUse-delete :
    (r : RMapManager) (ys : List ℕ) (z : ℕ) (zs : List ℕ)
    → InUse r (ys ++ z ∷ zs)
    → InUse r (ys ++ zs) × (z < r.length)
InUse-delete r [] z zs u = (u.2, u.0)
InUse-delete r (y ∷ ys) z zs u =
    let rest = InUse-delete r ys z zs u.2 in ((u.0, u.1, rest.0), rest.1)

Chain-ne_zero :
    (e : ℕ → RMapEntry) (i : ℕ) (ys : List ℕ) (z : ℕ) (zs : List ℕ)
    → Chain e i (ys ++ z ∷ zs)
    → z ≢ 0
Chain-ne_zero e i [] z zs c = c.1
Chain-ne_zero e i (y ∷ ys) z zs c = Chain-ne_zero e (e y).next ys z zs c.2

drop_entry-some :
    (r : RMapManager) (p : PageInfo) (z : ℕ)
    → z < r.length
    → 0 < p.ref
    → drop_entry r p z
      ≡ answered true
          (set_entry (record r { bitmap = release r.bitmap z 1 }) z no_entry)
          (record p { ref = p.ref - 1 })
unfolding drop_entry dec_ref
drop_entry-some r p z inside positive =
    let i : ltb z r.length ≡ true = ground arith in
    let c : ltb 0 p.ref ≡ true = ground arith in
    let one : dec_ref p ≡ some (record p { ref = p.ref - 1 }) = rw c refl in
    rw i (ap (uncounted (set_entry (record r { bitmap = release r.bitmap z 1 }) z no_entry)) one)

-- what `detach` leaves of the list `ys ++ z ∷ zs`
abbrev pub IsDetached : List ℕ → ℕ → List ℕ → Detached → Type 0
IsDetached ys z zs d =
    (r' : RMapManager) × (p' : PageInfo) × (d ≡ answered true r' p')
    × IsListed r' p' (ys ++ zs)
    × IsReverseMap r'
    × (get r'.bitmap z ≡ false)

module _ (r : RMapManager) (v : IsReverseMap r) (p : PageInfo) (ys : List ℕ) (z : ℕ) (zs : List ℕ)
    (l : IsListed r p (ys ++ z ∷ zs)) where
  -- the state in which the entries are `e` and the index `z` is released
  abbrev dropped : (ℕ → RMapEntry) → RMapManager
  dropped e = record r { entries = e; bitmap = release r.bitmap z 1 }

  released :
      (j : ℕ) → get (release r.bitmap z 1) j ≡ (if within z 1 j then false else get r.bitmap j)
  released = (release_lem r.bitmap z 1 v.bytes).2

  dropped-IsListed :
      (e : ℕ → RMapEntry) (i : ℕ)
      → Chain e i (ys ++ zs)
      → IsListed (dropped e) (record p { extra = i; ref = p.ref - 1 }) (ys ++ zs)
  dropped-IsListed e i c =
      let not_left = Distinct-apart z ys (z ∷ zs) l.distinct (ground arith) in
      let not_right = (Distinct-right ys (z ∷ zs) l.distinct).0 in
      let out : has z (ys ++ zs) ≡ false = ground (arith, has-append z ys zs) in
      record {
        chain = c;
        distinct = Distinct-delete z ys zs l.distinct;
        in_use =
            InUse-frame r (dropped e) (ys ++ zs) refl
              (λ x h. let ne = has_apart x z (ys ++ zs) h out in ground (arith, released x))
              (InUse-delete r ys z zs l.in_use).0;
        counted = omega (arith, l.counted, length-append ys (z ∷ zs), length-append ys zs);
      }

  dropped-IsReverseMap : (e : ℕ → RMapEntry) → IsReverseMap (dropped e)
  dropped-IsReverseMap e =
      let ne = Chain-ne_zero r.entries p.extra ys z zs l.chain in
      let law = release_lem r.bitmap z 1 v.bytes in
      record {
        bytes = law.0;
        size = law.1 ∙ v.size;
        reserved = released 0 ∙ ground (arith, v.reserved);
      }

  dropped_free : (e : ℕ → RMapEntry) → get (dropped e).bitmap z ≡ false
  dropped_free e = released z ∙ ground arith

-- Of the entries of a page, `detach` takes the first that matches the address and the owner: it
-- leaves the list of the page without it, frees its index, and counts the page down.
pub detach-IsDetached :
    (fuel : ℕ) (r : RMapManager) (p : PageInfo) (pte_paddr owner : ℕ) (ys : List ℕ) (z : ℕ)
    (zs : List ℕ)
    → IsReverseMap r
    → IsListed r p (ys ++ z ∷ zs)
    → any_match r pte_paddr owner ys ≡ false
    → matches (r.entries z) pte_paddr owner ≡ true
    → length ys < fuel
    → IsDetached ys z zs (detach fuel r p pte_paddr owner)
unfolding detach detach_from
detach-IsDetached fuel r p pte_paddr owner [] z zs v l out here enough =
    let positive : ltb 0 p.ref ≡ true = ground (arith, l.counted) in
    let e : ℕ → RMapEntry = λ j. if j == z then no_entry else r.entries j in
    (
      dropped r v p [] z zs l e,
      record p { extra = (r.entries z).next; ref = p.ref - 1 },
      ap (detach_from fuel r p pte_paddr owner) l.chain.0
          ∙ rw (positive, ne→== z 0 l.chain.1, here)
              (drop_entry-some r (record p { extra = (r.entries z).next }) z l.in_use.0
                (omega (arith, l.counted))),
      dropped-IsListed r v p [] z zs l e (r.entries z).next (
          Chain-frame r.entries e (r.entries z).next zs
            (λ x h. rw (has_apart x z zs h l.distinct.0) refl) l.chain.2),
      dropped-IsReverseMap r v p [] z zs l e,
      dropped_free r v p [] z zs l e,
    )
detach-IsDetached fuel r p pte_paddr owner (y ∷ ys) z zs v l out here enough =
    let positive : ltb 0 p.ref ≡ true = ground (arith, l.counted) in
    let other : matches (r.entries y) pte_paddr owner ≡ false = ground arith in
    let w = last y ys in
    let e = unlinked r.entries w z in
    (
      dropped r v p (y ∷ ys) z zs l e,
      record p { ref = p.ref - 1 },
      ap (detach_from fuel r p pte_paddr owner) l.chain.0
          ∙ rw (positive, ne→== y 0 l.chain.1, other)
              (detach_loop-found r p pte_paddr owner fuel y (r.entries y).next ys z zs l.chain.2
                  (ground arith) here (omega arith)
                ∙ drop_entry-some (set_next r w (r.entries z).next) p z
                    (InUse-delete r (y ∷ ys) z zs l.in_use).1 (omega (arith, l.counted))),
      dropped-IsListed r v p (y ∷ ys) z zs l e p.extra
          (Chain-unlinked r.entries p.extra y ys z zs l.chain l.distinct),
      dropped-IsReverseMap r v p (y ∷ ys) z zs l e,
      dropped_free r v p (y ∷ ys) z zs l e,
    )

-- On a page that is mapped, `detach` answers false and changes nothing where no entry matches.
pub detach_absent :
    (fuel : ℕ) (r : RMapManager) (p : PageInfo) (pte_paddr owner y : ℕ) (ys : List ℕ)
    → IsListed r p (y ∷ ys)
    → any_match r pte_paddr owner (y ∷ ys) ≡ false
    → length ys < fuel
    → detach fuel r p pte_paddr owner ≡ answered false r p
unfolding detach detach_from
detach_absent fuel r p pte_paddr owner y ys l out enough =
    let positive : ltb 0 p.ref ≡ true = ground (arith, l.counted) in
    let other : matches (r.entries y) pte_paddr owner ≡ false = ground arith in
    ap (detach_from fuel r p pte_paddr owner) l.chain.0
    ∙ rw (positive, ne→== y 0 l.chain.1, other)
        (detach_loop-absent r p pte_paddr owner fuel y (r.entries y).next ys l.chain.2
          (ground arith) enough)
