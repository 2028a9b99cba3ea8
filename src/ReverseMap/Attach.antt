-- ===== src/ReverseMap/Attach.antt =====
-- `attach` and the list of a page.
use sysu_os.Base.{
  ℕ, ◌+◌, ◌<◌, ◌==◌, ltb, ◌≡◌, ◌≢◌, refl, ap, subst, ◌∙◌, true, false, List, ◌∷◌, arith, length,
  if◌then◌else◌, Option, some, ==→eq, Bool-cases, inl, inr,
}
use sysu_os.Bitmap.{BitMap, get, allocate}
use sysu_os.Bitmap.Runs.{Blocked}
use sysu_os.Bitmap.Allocate.{Allocated, taken, refused, within, allocate-Allocated}
use sysu_os.LinkedList.Chain.{has}
use sysu_os.ReverseMap.{
  RMapManager, RMapEntry, PageInfo, Attached, attached, attach, attach_at, fill, inc_ref,
  link_first, counted, set_next, set_entry,
}
use sysu_os.ReverseMap.Listed.{IsListed, IsReverseMap, Chain-frame, InUse-frame, has-InUse}
use sysu_os.ReverseMap

pub data IsAttached (r : RMapManager) (p : PageInfo) (xs : List ℕ) (pte_paddr pte_vaddr owner : ℕ)
    : Attached → Type 0 where
  added :
      (idx : ℕ) (r' : RMapManager) (p' : PageInfo)
      → get r.bitmap idx ≡ false
      → IsReverseMap r'
      → IsListed r' p' (idx ∷ xs)
      → (r'.entries idx).pte_paddr ≡ pte_paddr
      → (r'.entries idx).pte_vaddr ≡ pte_vaddr
      → (r'.entries idx).owner ≡ owner
      → ((j : ℕ) → (j == idx) ≡ false → r'.entries j ≡ r.entries j)
      → IsAttached r p xs pte_paddr pte_vaddr owner (attached idx r' p')
  full :
      ((t : ℕ) → t < r.length → get r.bitmap t ≡ true)
      → IsAttached r p xs pte_paddr pte_vaddr owner ReverseMap.Attached.refused

module _ (r : RMapManager) (v : IsReverseMap r) (p : PageInfo) (xs : List ℕ) (l : IsListed r p xs)
    (pte_paddr pte_vaddr owner : ℕ) (small : length xs < 0xFFFF) where
  -- the state after an entry `idx` is taken
  linked : BitMap → ℕ → RMapManager
  linked b idx =
      let r' = fill r b idx pte_paddr pte_vaddr owner in
      if p.extra == 0 then r' else set_next r' idx p.extra

  linked_next : (b : BitMap) (idx : ℕ) → ((linked b idx).entries idx).next ≡ p.extra
  unfolding linked
  linked_next b idx = ground arith

  linked_other :
      (b : BitMap) (idx j : ℕ) → (j == idx) ≡ false → (linked b idx).entries j ≡ r.entries j
  unfolding linked
  linked_other b idx j other = elim (Bool-cases (p.extra == 0)) [
    | inl e ↦ rw (e, other) refl
    | inr e ↦ rw (e, other) refl
  ]

  linked_given :
      (b : BitMap) (idx : ℕ)
      → ((linked b idx).entries idx).pte_paddr ≡ pte_paddr
        × (((linked b idx).entries idx).pte_vaddr ≡ pte_vaddr)
        × (((linked b idx).entries idx).owner ≡ owner)
  unfolding linked
  linked_given b idx = (ground arith, ground arith, ground arith)

  linked_rest :
      (b : BitMap) (idx : ℕ) → ((linked b idx).bitmap ≡ b) × ((linked b idx).length ≡ r.length)
  unfolding linked
  linked_rest b idx = elim (Bool-cases (p.extra == 0)) [
    | inl e ↦ rw e (refl, refl)
    | inr e ↦ rw e (refl, refl)
  ]

  attach_at-some :
      (b : BitMap) (idx : ℕ)
      → attach_at r p pte_paddr pte_vaddr owner (b, some idx)
        ≡ attached idx (linked b idx) (record p { extra = idx; ref = p.ref + 1 })
  unfolding linked inc_ref
  attach_at-some b idx =
      let fits : ltb p.ref 0xFFFF ≡ true = ground (arith, l.counted) in
      let one : inc_ref (record p { extra = idx })
          ≡ some (record p { extra = idx; ref = p.ref + 1 }) =
        rw fits refl in
      ap (counted idx (linked b idx)) one

  linked-IsListed :
      (b : BitMap) (idx : ℕ)
      → idx < r.length
      → get r.bitmap idx ≡ false
      → ((j : ℕ) → get b j ≡ (if within idx 1 j then true else get r.bitmap j))
      → IsListed (linked b idx) (record p { extra = idx; ref = p.ref + 1 }) (idx ∷ xs)
  linked-IsListed b idx inside free marked =
      let out = has-InUse r xs idx l.in_use free in
      let nonzero : idx ≢ 0 = ground (arith, v.reserved, ap (get r.bitmap)) in
      let keeps : (x : ℕ) → has x xs ≡ true → (x == idx) ≡ false = λ x h. apart x out h in
      let same = linked_rest b idx in
      record {
        chain = (
          refl,
          nonzero,
          rw (linked_next b idx) (
              Chain-frame r.entries (linked b idx).entries p.extra xs
                (λ x h. ap RMapEntry.next (linked_other b idx x (keeps x h))) l.chain),
        );
        distinct = (out, l.distinct);
        in_use = (
          rw same.1 inside,
          rw same.0 (ground (arith, marked idx)),
          InUse-frame r (linked b idx) xs same.1
              (λ x h. rw same.0 (ground (arith, marked x, keeps x h))) l.in_use,
        );
        counted = omega (arith, l.counted);
      }
    where
      apart : (x : ℕ) → has idx xs ≡ false → has x xs ≡ true → (x == idx) ≡ false
      apart x out h = elim (Bool-cases (x == idx)) [
        | inl e ↦ absurd (ground (arith, ap (λ y. has y xs) (==→eq x idx e)))
        | inr ne ↦ ne
      ]

  -- For a page that fewer than 65535 entries map, `attach` takes an unused index, fills in its
  -- entry, puts it in front of the list of the page, counts it and changes no other entry, or
  -- refuses, and then every index is in use.
  pub attach-IsAttached :
      IsAttached r p xs pte_paddr pte_vaddr owner (attach r p pte_paddr pte_vaddr owner)
  unfolding attach
  attach-IsAttached =
      go (allocate r.bitmap 1 false) (allocate-Allocated r.bitmap v.bytes 1 (omega arith) false)
    where
      all_used : (t : ℕ) → Blocked r.bitmap 1 t → get r.bitmap t ≡ true
      all_used t (k, k_in, h) =
          let at : t + k ≡ t = omega arith in subst (λ i. get r.bitmap i ≡ true) at h

      go :
          (a : BitMap × Option ℕ)
          → Allocated r.bitmap 1 false a
          → IsAttached r p xs pte_paddr pte_vaddr owner (attach_at r p pte_paddr pte_vaddr owner a)
      go _ (taken b idx room free best marked len bytes) =
          let at : idx + 0 ≡ idx = omega arith in
          let unused : get r.bitmap idx ≡ false =
            subst (λ i. get r.bitmap i ≡ false) at (free 0 (omega arith)) in
          let given = linked_given b idx in
          let same = linked_rest b idx in
          rw (attach_at-some b idx) (
            added idx (linked b idx) _ unused
              (record {
                bytes = rw same.0 bytes;
                size = rw (same.0, same.1) (len ∙ v.size);
                reserved = rw same.0 (ground (arith, marked 0, v.reserved));
              })
              (linked-IsListed b idx (omega (arith, v.size)) unused marked) given.0 given.1 given.2
              (linked_other b idx))
      go _ (refused blocked) = full (λ t inside. all_used t (blocked t (omega (arith, v.size))))
