-- ===== src/LinkedList/Erase.antt =====
-- `pop_front`, `pop_back`, both forms of `erase`, and `clear`: each takes its item out of the
-- sequence and leaves the others in order.
use sysu_os.Base.{
  ℕ, zero, suc, ◌<◌, ◌≡◌, ◌≢◌, refl, sym, subst, false, List, [], ◌∷◌, ◌++◌, arith, if◌then◌else◌,
  some, length, ne→==, length-append,
}
use mathlib.Core.List.{append-nil}
use sysu_os.LinkedList.{
  Item, Links, null, set_next, set_previous, pop_back, pop_front, erase, erase_at, unlink, clear,
  clear_loop, initialize,
}
use sysu_os.LinkedList.Chain.{
  has, Distinct, IsList, last-append, Seg-right, Distinct-from_last, Forward, Seg-Forward,
  Distinct-apart,
}
use sysu_os.LinkedList.Walk.{back_item, back_lem, size-length, at_lem, find_loop-present}
use sysu_os.LinkedList.Splice.{Cut-IsList}

back_item-append : (xs : List Item) (x : Item) → back_item (xs ++ x ∷ []) ≡ x
back_item-append [] x = refl
back_item-append (y ∷ xs) x = last-append y xs (x ∷ [])

module _ {l : Links} {head : Item} where
  unlink-IsList :
      (xs : List Item) (x : Item) (ys : List Item)
      → IsList l head (xs ++ x ∷ ys)
      → IsList (unlink l x) head (xs ++ ys)
  unfolding unlink
  unlink-IsList xs x ys v =
      let s = Seg-right l head xs (x ∷ ys) v.seg in
      let apart = (Distinct-from_last head xs (x ∷ ys) v.distinct).0 in
      Cut-IsList l _ head x xs ys v (record {
        next_is = λ a ne. ground (arith, s.0, s.2);
        previous_is = λ a nz ne. ground (arith, s.0, s.2);
      })

  -- `erase` takes the item out of the list that holds it, wherever it stands.
  pub erase-IsList :
      (fuel : ℕ) (xs : List Item) (x : Item) (ys : List Item)
      → IsList l head (xs ++ x ∷ ys)
      → length xs < fuel
      → (l' : Links) × (erase fuel l head x ≡ some l') × IsList l' head (xs ++ ys)
  unfolding erase
  erase-IsList fuel xs x ys v enough =
      let s = Seg-right l head xs (x ∷ ys) v.seg in
      let out = Distinct-apart x xs (x ∷ ys) v.distinct.1 (ground arith) in
      (
        unlink l x,
        rw (find_loop-present l fuel x head xs ys 0 v.seg out enough, ne→== x null s.1) refl,
        unlink-IsList xs x ys v,
      )

  -- `pop_front` takes the first item out and clears its links.
  pub pop_front-IsList :
      (x : Item) (xs : List Item)
      → IsList l head (x ∷ xs)
      → IsList (pop_front l head) head xs
        × ((pop_front l head).next x ≡ null)
        × ((pop_front l head).previous x ≡ null)
  unfolding pop_front
  pop_front-IsList x xs v =
      let s = v.seg in
      (
        Cut-IsList l _ head x [] xs v (record {
          next_is = λ a ne. ground (arith, s.0, s.1, v.distinct.0);
          previous_is = λ a nz ne. ground (arith, s.0, s.1);
        }),
        ground (arith, s.0, s.1),
        ground (arith, s.0, s.1),
      )

  -- `pop_front` leaves an empty list as it is.
  pub pop_front_nil : IsList l head [] → pop_front l head ≡ l
  unfolding pop_front
  pop_front_nil v = rw v.ends

  pop_back-Cut :
      (xs : List Item) (x : Item)
      → IsList l head (xs ++ x ∷ [])
      → IsList
          (set_previous (set_next (set_next l (l.previous x) null) x null) x null)
          head
          (xs ++ [])
  pop_back-Cut xs x v =
      let s = Seg-right l head xs (x ∷ []) v.seg in
      let ends : l.next x ≡ null = rw (last-append head xs (x ∷ [])) at v.ends in
      Cut-IsList l _ head x xs [] v (record {
        next_is = λ a ne. ground (arith, s.0, s.2, ends);
        previous_is = λ a nz ne. ground (arith, ends);
      })

  -- `pop_back` takes the last item out.
  pub pop_back-IsList :
      (fuel : ℕ) (xs : List Item) (x : Item)
      → IsList l head (xs ++ x ∷ [])
      → length (xs ++ x ∷ []) < fuel
      → (l' : Links) × (pop_back fuel l head ≡ some l') × IsList l' head xs
  unfolding pop_back
  pop_back-IsList fuel xs x v enough =
      let s = Seg-right l head xs (x ∷ []) v.seg in
      (
        set_previous (set_next (set_next l (l.previous x) null) x null) x null,
        rw (back_lem fuel v enough, back_item-append xs x, ne→== x null s.1) refl,
        subst (IsList _ head) (append-nil xs) (pop_back-Cut xs x v),
      )

  -- `erase` by position takes out the item that stands there.
  pub erase_at-IsList :
      (fuel : ℕ) (xs : List Item) (x : Item) (ys : List Item)
      → IsList l head (xs ++ x ∷ ys)
      → length (xs ++ x ∷ ys) < fuel
      → (l' : Links) × (erase_at fuel l head (length xs) ≡ some l') × IsList l' head (xs ++ ys)
  unfolding erase_at
  erase_at-IsList fuel [] x ys v enough = (pop_front l head, refl, (pop_front-IsList x ys v).0)
  erase_at-IsList fuel (y ∷ xs) x ys v enough = (
    unlink l x,
    rw (size-length fuel v enough)
        (ground (arith, at_lem (y ∷ xs) x ys v, length-append xs (x ∷ ys))),
    unlink-IsList (y ∷ xs) x ys v,
  )

abbrev detached : Links → Item → Links
detached l x = set_previous (set_next l x null) x null

Forward-detached :
    (l : Links) (x temp : Item) (xs : List Item)
    → has x xs ≡ false
    → Forward l temp xs
    → Forward (detached l x) temp xs
Forward-detached l x temp [] out f = f
Forward-detached l x temp (y ∷ xs) out f =
    let kept : (detached l x).next y ≡ l.next y = ground arith in
    (
      f.0,
      f.1,
      subst (λ t. Forward (detached l x) t xs) (sym kept)
          (Forward-detached l x (l.next y) xs (ground arith) f.2),
    )

-- the links of `xs` are cleared, and no others differ
abbrev pub Cleared : List Item → Links → Links → Type 0
Cleared xs l l' =
    (a : Item)
    → (l'.next a ≡ (if has a xs then null else l.next a))
      × (l'.previous a ≡ (if has a xs then null else l.previous a))

clear_loop-Cleared :
    (fuel : ℕ) (l : Links) (temp : Item) (xs : List Item)
    → Forward l temp xs
    → Distinct xs
    → length xs < fuel
    → (l' : Links) × (clear_loop fuel l temp ≡ some l') × Cleared xs l l'
unfolding clear_loop
clear_loop-Cleared zero l temp xs f d enough = absurd (omega arith)
clear_loop-Cleared (suc fuel) l temp [] f d enough = (l, rw f, λ a. (refl, refl))
clear_loop-Cleared (suc fuel) l temp (x ∷ xs) f d enough =
    let (l', done, cleared) =
      clear_loop-Cleared fuel (detached l x) (l.next x) xs
        (Forward-detached l x (l.next x) xs d.0 f.2) d.1 (omega arith) in
    (l', rw (f.0, ne→== x null f.1) done, λ a. ground (arith, cleared a))

-- `clear` empties the list, clears the links of its items and of its head, and writes to no
-- other item.
pub clear-Cleared :
    {l : Links} {head : Item} {xs : List Item} (fuel : ℕ)
    → IsList l head xs
    → length xs < fuel
    → (l' : Links) × (clear fuel l head ≡ some l') × IsList l' head [] × Cleared (head ∷ xs) l l'
unfolding clear
clear-Cleared {l} {head} {xs} fuel v enough =
    let (l', done, cleared) =
      clear_loop-Cleared fuel l (l.next head) xs (Seg-Forward l head xs v.seg v.ends) v.distinct.1
        enough in
    (
      detached l' head,
      rw done refl,
      record { head_ne = v.head_ne; seg = tt; ends = ground arith; distinct = (refl, tt) },
      λ a. ground (arith, cleared a),
    )

-- A head that `initialize` has set up holds the empty list.
pub initialize-IsList : (l : Links) (head : Item) → head ≢ null → IsList (initialize l head) head []
unfolding initialize
initialize-IsList l head ne = record {
  head_ne = ne;
  seg = tt;
  ends = ground arith;
  distinct = (refl, tt);
}
