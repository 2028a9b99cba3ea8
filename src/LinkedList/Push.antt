-- ===== src/LinkedList/Push.antt =====
-- `push_back`, `push_front` and `insert`: each puts the new item at its place in the sequence.
use sysu_os.Base.{
  ℕ, suc, ◌<◌, ◌==◌, ◌≡◌, ◌≢◌, refl, sym, ap, subst, false, List, [], ◌∷◌, ◌++◌, arith,
  if◌then◌else◌, some, length, ne→==, length-append, ==_refl,
}
use mathlib.Core.List.{append-nil}
use sysu_os.LinkedList.{
  Item, Links, null, set_next, set_previous, push_back, push_front, insert, link_before,
}
use sysu_os.LinkedList.Chain.{
  has, last, Seg, IsList, has-append, last-append, has-last, Seg-right, Seg-ne_null,
  Distinct-from_last, has_from_last,
}
use sysu_os.LinkedList.Walk.{back_item, back_lem, size-length, at_lem}
use sysu_os.LinkedList.Splice.{Spliced, Spliced-IsList, ne_of_has}

-- `l'` differs from `l` at most at the links of the items `xs`
abbrev pub SameOutside : List Item → Links → Links → Type 0
SameOutside xs l l' =
    (a : Item)
    → a ≢ null
    → has a xs ≡ false
    → (l'.next a ≡ l.next a) × (l'.previous a ≡ l.previous a)

-- what an operation that puts `item` between `xs` and `ys` makes of the list
abbrev pub Inserted : Item → Item → List Item → List Item → Links → Links → Type 0
Inserted head item xs ys l l' =
    IsList l' head (xs ++ item ∷ ys) × SameOutside (item ∷ head ∷ (xs ++ ys)) l l'

-- the links after `item` is put behind `t`
abbrev appended : Links → Item → Item → Links
appended l t item = set_next (set_previous (set_next l t item) item t) item null

tail_item :
    (l : Links) (head : Item) (xs : List Item)
    → Seg l head xs
    → (if back_item xs == null then head else back_item xs) ≡ last head xs
tail_item l head [] s = refl
tail_item l head (x ∷ xs) s =
    rw (ne→== (last x xs) null (Seg-ne_null l head (last x xs) (x ∷ xs) s (has-last x xs)))

-- The item behind `t`, if there is one, is the first of the rest.
next_of_last :
    (l : Links) (t a : Item) (ys : List Item)
    → Seg l t ys
    → l.next (last t ys) ≡ null
    → a ≢ null
    → has a ys ≡ false
    → a ≢ l.next t
next_of_last l t a [] s ends ne out = rw ends ne
next_of_last l t a (y ∷ ys) s ends ne out = rw s.0 (λ e. ground arith)

-- Splicing keeps the list and writes to the new item and its two neighbours only.
pub Spliced-Inserted :
    (l l' : Links) (head item : Item) (xs ys : List Item)
    → IsList l head (xs ++ ys)
    → item ≢ null
    → has item (head ∷ (xs ++ ys)) ≡ false
    → Spliced l l' (last head xs) item
    → Inserted head item xs ys l l'
Spliced-Inserted l l' head item xs ys v ne out c = (
  Spliced-IsList l l' head item xs ys v ne out c,
  λ a nz h.
      let right = Seg-right l head xs ys v.seg in
      let ends : l.next (last (last head xs) ys) ≡ null = rw (last-append head xs ys) at v.ends in
      let far =
        next_of_last l (last head xs) a ys right ends nz (ground (arith, has-append a xs ys)) in
      let not_last : a ≢ last head xs = (λ e.
        ne_of_has (last head xs) a (head ∷ xs) (has-last head xs)
          (ground (arith, has-append a xs ys)) (sym e)) in
      (ground (arith, c.next_is a), ground (arith, c.previous_is a nz)),
)

module _ {l : Links} {head : Item} (item : Item) (ne : item ≢ null) where
  -- `push_back` puts an item that is in no list at the end, and writes to no item but the new one
  -- and those of the list.
  pub push_back-Inserted :
      {xs : List Item} (fuel : ℕ)
      → IsList l head xs
      → has item (head ∷ xs) ≡ false
      → length xs < fuel
      → (l' : Links) × (push_back fuel l head item ≡ some l') × Inserted head item xs [] l l'
  unfolding push_back
  push_back-Inserted {xs} fuel v out enough =
      let e = append-nil xs in
      (
        appended l (last head xs) item,
        rw (back_lem fuel v enough)
            (ap (λ t. some (appended l t item)) (tail_item l head xs v.seg)),
        Spliced-Inserted l _ head item xs [] (rw e v) ne (rw e out) (record {
          next_is = λ a. ground (arith, v.ends);
          previous_is = λ a nz. ground (arith, v.ends);
        }),
      )

  -- `push_front` puts it at the front.
  pub push_front-Inserted :
      {xs : List Item}
      → IsList l head xs
      → has item (head ∷ xs) ≡ false
      → Inserted head item [] xs l (push_front l head item)
  unfolding push_front
  push_front-Inserted {xs} v out = Spliced-Inserted l _ head item [] xs v ne out (record {
    next_is = λ a. ground (arith, first xs v);
    previous_is = λ a nz. ground (arith, first xs v);
  })
    where
      first : (zs : List Item) → IsList l head zs → l.next head ≢ head
      first [] w = rw w.ends (λ e. w.head_ne (sym e))
      first (z ∷ zs) w = rw (w.seg.0) (λ e. ground (arith, w.distinct.0))

  link_before-Inserted :
      (xs : List Item) (x : Item) (ys : List Item)
      → IsList l head (xs ++ x ∷ ys)
      → has item (head ∷ (xs ++ x ∷ ys)) ≡ false
      → Inserted head item xs (x ∷ ys) l (link_before l x item)
  unfolding link_before
  link_before-Inserted xs x ys v out =
      let s = Seg-right l head xs (x ∷ ys) v.seg in
      let p = last head xs in
      let fresh = has_from_last item head xs (x ∷ ys) out in
      let apart = (Distinct-from_last head xs (x ∷ ys) v.distinct).0 in
      Spliced-Inserted l _ head item xs (x ∷ ys) v ne out (record {
        next_is = λ a. ground (arith, s.0, s.2);
        previous_is = λ a nz. ground (arith, s.0, s.2);
      })

  -- `insert` at a position puts it there, and does nothing at a position behind the end.
  pub insert-Inserted :
      (fuel : ℕ) (xs ys : List Item)
      → IsList l head (xs ++ ys)
      → has item (head ∷ (xs ++ ys)) ≡ false
      → length (xs ++ ys) < fuel
      → (l' : Links) × (insert fuel l head (length xs) item ≡ some l')
        × Inserted head item xs ys l l'
  unfolding insert
  insert-Inserted fuel [] ys v out enough =
      (push_front l head item, refl, push_front-Inserted v out)
  insert-Inserted fuel (x ∷ xs) [] v out enough =
      let e = append-nil (x ∷ xs) in
      let w : IsList l head (x ∷ xs) = subst (IsList l head) e v in
      let fits : length (x ∷ xs) < fuel = subst (λ zs. length zs < fuel) e enough in
      let out' : has item (head ∷ x ∷ xs) ≡ false =
        subst (λ zs. has item (head ∷ zs) ≡ false) e out in
      let (l', done, inserted) = push_back-Inserted fuel w out' fits in
      let later : (suc (length xs) == 0) ≡ false = ground arith in
      (l', rw (later, size-length fuel w fits, ==_refl (suc (length xs))) done, inserted)
  insert-Inserted fuel (x ∷ xs) (y ∷ ys) v out enough = (
    link_before l y item,
    rw (size-length fuel v enough)
        (ground (arith, at_lem (x ∷ xs) y ys v, length-append xs (y ∷ ys))),
    link_before-Inserted (x ∷ xs) y ys v out,
  )
