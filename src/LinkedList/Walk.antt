-- ===== src/LinkedList/Walk.antt =====
-- The operations that only read: `size`, `back`, `find` and `at`.
use sysu_os.Base.{
  ℕ, zero, suc, ◌+◌, ◌<◌, ◌==◌, ◌≡◌, ◌∙◌, ap, false, List, [], ◌∷◌, ◌++◌, arith, none, some,
  if◌then◌else◌, Bool-cases, inl, inr, length, ne→==, ==_refl,
}
use sysu_os.LinkedList.{
  Item, Links, null, size_loop, size, back_loop, back, find_loop, find, at_loop, at,
}
use sysu_os.LinkedList.Chain.{Seg-ne_null, has, last, Seg, IsList}

module _ (l : Links) where
  size_loop-length :
      (fuel : ℕ) (p : Item) (xs : List Item) (counter : ℕ)
      → Seg l p xs
      → l.next (last p xs) ≡ null
      → length xs < fuel
      → size_loop fuel l (l.next p) counter ≡ some (counter + length xs)
  unfolding size_loop
  size_loop-length zero p xs counter s e enough = absurd (omega arith)
  size_loop-length (suc fuel) p [] counter s e enough = rw e (ap some (omega arith))
  size_loop-length (suc fuel) p (x ∷ xs) counter s e enough =
      rw (s.0, ne→== x null s.1)
        (size_loop-length fuel x xs (counter + 1) s.3 e (omega arith) ∙ ap some (omega arith))

  back_loop-last :
      (fuel : ℕ) (p : Item) (xs : List Item)
      → Seg l p xs
      → l.next (last p xs) ≡ null
      → length xs < fuel
      → back_loop fuel l p ≡ some (last p xs)
  unfolding back_loop
  back_loop-last zero p xs s e enough = absurd (omega arith)
  back_loop-last (suc fuel) p [] s e enough = rw e
  back_loop-last (suc fuel) p (x ∷ xs) s e enough =
      rw (s.0, ne→== x null s.1) (back_loop-last fuel x xs s.3 e (omega arith))

  pub find_loop-present :
      (fuel : ℕ) (item p : Item) (xs ys : List Item) (pos : ℕ)
      → Seg l p (xs ++ item ∷ ys)
      → has item xs ≡ false
      → length xs < fuel
      → find_loop fuel l item (l.next p) pos ≡ some (item, pos + length xs)
  unfolding find_loop
  find_loop-present zero item p xs ys pos s out enough = absurd (omega arith)
  find_loop-present (suc fuel) item p [] ys pos s out enough =
      rw (s.0, ne→== item null s.1, ==_refl item) (ap (λ (n : ℕ). some (item, n)) (omega arith))
  find_loop-present (suc fuel) item p (x ∷ xs) ys pos s out enough =
      let other : (x == item) ≡ false = ground arith in
      rw (s.0, ne→== x null s.1, other)
        (find_loop-present fuel item x xs ys (pos + 1) s.3 (ground arith) (omega arith)
          ∙ ap (λ (n : ℕ). some (item, n)) (omega arith))

  at_loop-item :
      (p x : Item) (xs ys : List Item)
      → Seg l p (xs ++ x ∷ ys)
      → at_loop (length xs) l (l.next p) ≡ x
  unfolding at_loop
  at_loop-item p x [] ys s = s.0
  at_loop-item p x (y ∷ xs) ys s = rw (s.0, ne→== y null s.1) (at_loop-item y x xs ys s.3)

-- what `back` returns
abbrev pub back_item : List Item → Item
back_item [] = null
back_item (x ∷ xs) = last x xs

module _ {l : Links} {head : Item} {xs : List Item} (fuel : ℕ) (v : IsList l head xs)
    (enough : length xs < fuel) where
  -- `size` counts the items of a list.
  pub size-length : size fuel l head ≡ some (length xs)
  unfolding size
  size-length = size_loop-length l fuel head xs 0 v.seg v.ends enough ∙ ap some (omega arith)

back-Seg :
    (l : Links) (head : Item) (xs : List Item) (fuel : ℕ)
    → Seg l head xs
    → l.next (last head xs) ≡ null
    → length xs < fuel
    → back fuel l head ≡ some (back_item xs)
unfolding back
back-Seg l head [] fuel s e enough = rw e
back-Seg l head (x ∷ xs) fuel s e enough =
    rw (s.0, ne→== x null s.1) (back_loop-last l fuel x xs s.3 e (omega arith))

-- `back` is the last item of the list, or null.
pub back_lem :
    {l : Links} {head : Item} {xs : List Item} (fuel : ℕ)
    → IsList l head xs
    → length xs < fuel
    → back fuel l head ≡ some (back_item xs)
back_lem {l} {head} {xs} fuel v enough = back-Seg l head xs fuel v.seg v.ends enough

-- how many items stand before the first occurrence of an item
abbrev pub places_before : Item → List Item → ℕ
places_before item [] = 0
places_before item (x ∷ xs) = if item == x then 0 else suc (places_before item xs)

find_loop-found :
    (fuel : ℕ) (l : Links) (item p : Item) (xs : List Item) (pos : ℕ)
    → Seg l p xs
    → l.next (last p xs) ≡ null
    → length xs < fuel
    → find_loop fuel l item (l.next p) pos
      ≡ some (if has item xs then item else null, pos + places_before item xs)
unfolding find_loop
find_loop-found zero l item p xs pos s e enough = absurd (omega arith)
find_loop-found (suc fuel) l item p [] pos s e enough =
    rw e (ap (λ (n : ℕ). some (null, n)) (omega arith))
find_loop-found (suc fuel) l item p (x ∷ xs) pos s e enough = elim (Bool-cases (item == x)) [
  | inl this ↦ ground (arith, s.0, s.1)
  | inr other ↦
      let other' : (x == item) ≡ false = ground arith in
      rw (s.0, ne→== x null s.1, other, other')
        (find_loop-found fuel l item x xs (pos + 1) s.3 e (omega arith)
          ∙ ap (λ (n : ℕ). some (if has item xs then item else null, n)) (omega arith))
]

-- On a well-formed list `find` is the position of the first occurrence of the item, and -1 for an
-- item that the list does not hold.
pub find_lem :
    {l : Links} {head : Item} {xs : List Item} (fuel : ℕ) (item : Item)
    → IsList l head xs
    → length xs < fuel
    → find fuel l head item ≡ some (if has item xs then some (places_before item xs) else none)
unfolding find
find_lem {l} {head} {xs} fuel item v enough = elim (Bool-cases (has item xs)) [
  | inl held ↦ ground (
    arith,
    find_loop-found fuel l item head xs 0 v.seg v.ends enough,
    Seg-ne_null l head item xs v.seg held,
  )
  | inr out ↦ ground (arith, find_loop-found fuel l item head xs 0 v.seg v.ends enough)
]

-- `at` is the item at a position inside the list.
pub at_lem :
    {l : Links} {head : Item} (xs : List Item) (x : Item) (ys : List Item)
    → IsList l head (xs ++ x ∷ ys)
    → at l head (length xs) ≡ x
unfolding at
at_lem {l} {head} xs x ys v = at_loop-item l head x xs ys v.seg
