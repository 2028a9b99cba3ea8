-- ===== src/LinkedList/Splice.antt =====
-- Putting an item into a list and taking one out, by what the links are afterwards.
use sysu_os.Base.{◌==◌, ◌≡◌, ◌≢◌, ap, true, false, List, [], ◌∷◌, ◌++◌, arith, if◌then◌else◌}
use sysu_os.LinkedList.{Item, Links, null}
use sysu_os.LinkedList.Chain.{
  has, Distinct, last, Seg, IsList, has-append, last-append, has-last, Seg-append, Seg-left,
  Seg-right, Seg-frame, Distinct-left, Distinct-apart, Seg-ne_null, Distinct-from_last,
  has_from_last, Distinct-insert, Distinct-delete,
}

-- an item of a list is not one that the list does not hold
pub ne_of_has : (a b : Item) (xs : List Item) → has a xs ≡ true → has b xs ≡ false → a ≢ b
ne_of_has a b xs h k e = ground (arith, ap (λ q. has q xs) e)

-- The links of `l'` once `item` stands between `t` and what followed it.
pub record Spliced (l l' : Links) (t item : Item) : Type 0 where
  pub next_is :
      (a : Item) → l'.next a ≡ (if a == item then l.next t else if a == t then item else l.next a)
  pub previous_is :
      (a : Item)
      → a ≢ null
      → l'.previous a ≡ (if a == item then t else if a == l.next t then item else l.previous a)

-- The links of `l'` once `item`, which stood behind `t`, is taken out; its own may be anything.
pub record Cut (l l' : Links) (t item : Item) : Type 0 where
  pub next_is : (a : Item) → a ≢ item → l'.next a ≡ (if a == t then l.next item else l.next a)
  pub previous_is :
      (a : Item)
      → a ≢ null
      → a ≢ item
      → l'.previous a ≡ (if a == l.next item then t else l.previous a)

module _ (l l' : Links) (item : Item) (ne : item ≢ null) where
  Spliced-rest :
      (t : Item) (ys : List Item)
      → Spliced l l' t item
      → Seg l t ys
      → l.next (last t ys) ≡ null
      → Distinct (t ∷ ys)
      → has item (t ∷ ys) ≡ false
      → Seg l' item ys × (l'.next (last item ys) ≡ null)
  Spliced-rest t [] c s ends d out = (tt, ground (arith, c.next_is item))
  Spliced-rest t (y ∷ ys) c s ends d out = (
    (
      ground (arith, c.next_is item, s.0),
      s.1,
      ground (arith, c.previous_is y s.1, s.0),
      Seg-frame l l' y ys s.3 d.1
          (λ a h _.
            ground (arith, c.next_is a, ne_of_has a item (y ∷ ys) h, ne_of_has a t (y ∷ ys) h d.0))
          (λ a h. ground (
            arith,
            c.previous_is a (Seg-ne_null l y a ys s.3 h),
            ne_of_has a item ys h,
            ne_of_has a y ys h d.1.0,
            s.0,
          )),
    ),
    ground (
      arith,
      c.next_is (last y ys),
      ne_of_has (last y ys) item (y ∷ ys) (has-last y ys),
      ne_of_has (last y ys) t (y ∷ ys) (has-last y ys) d.0,
    ),
  )

  -- The first part of the list is left alone.
  Spliced-first :
      (head : Item) (xs ys : List Item)
      → Spliced l l' (last head xs) item
      → Seg l head (xs ++ ys)
      → Distinct (head ∷ (xs ++ ys))
      → has item (head ∷ (xs ++ ys)) ≡ false
      → ((a : Item) → has a xs ≡ true → a ≢ l.next (last head xs))
      → Seg l' head xs
  Spliced-first head xs ys c s d out apart =
      Seg-frame l l' head xs (Seg-left l head xs ys s) (Distinct-left (head ∷ xs) ys d)
        (λ a h differs.
          ground (arith, c.next_is a, ne_of_has a item (head ∷ xs) h, has-append item xs ys))
        (λ a h. ground (
          arith,
          c.previous_is a (Seg-ne_null l head a xs (Seg-left l head xs ys s) h),
          ne_of_has a item xs h,
          has-append item xs ys,
          apart a h,
        ))

-- What follows the last item of the first part of a list is none of that part.
pub next_apart :
    (l : Links) (head : Item) (xs ys : List Item)
    → Seg l head (xs ++ ys)
    → l.next (last head (xs ++ ys)) ≡ null
    → Distinct (head ∷ (xs ++ ys))
    → (a : Item) → has a xs ≡ true
    → a ≢ l.next (last head xs)
next_apart l head xs [] s ends d a h =
    let e : l.next (last head xs) ≡ null = rw (last-append head xs []) at ends in
    rw e (Seg-ne_null l head a xs (Seg-left l head xs [] s) h)
next_apart l head xs (y ∷ ys) s ends d a h =
    let e = (Seg-right l head xs (y ∷ ys) s).0 in
    rw e (ne_of_has a y xs h (Distinct-apart y xs (y ∷ ys) d.1 (ground arith)))

pub Spliced-IsList :
    (l l' : Links) (head item : Item) (xs ys : List Item)
    → IsList l head (xs ++ ys)
    → item ≢ null
    → has item (head ∷ (xs ++ ys)) ≡ false
    → Spliced l l' (last head xs) item
    → IsList l' head (xs ++ item ∷ ys)
Spliced-IsList l l' head item xs ys v ne out c =
    let t = last head xs in
    let right = Seg-right l head xs ys v.seg in
    let ends : l.next (last t ys) ≡ null = rw (last-append head xs ys) at v.ends in
    let rest =
      Spliced-rest l l' item ne t ys c right ends (Distinct-from_last head xs ys v.distinct)
        (has_from_last item head xs ys out) in
    record {
      head_ne = v.head_ne;
      seg =
          Seg-append l' head xs (item ∷ ys)
            (Spliced-first l l' item ne head xs ys c v.seg v.distinct out
              (next_apart l head xs ys v.seg v.ends v.distinct))
            (
              ground (arith, c.next_is t, has-last head xs, out_of t),
              ne,
              ground (arith, c.previous_is item),
              rest.0,
            );
      ends = rw (last-append head xs (item ∷ ys)) rest.1;
      distinct = Distinct-insert item (head ∷ xs) ys v.distinct out;
    }
  where
    out_of : (a : Item) → has a (head ∷ xs) ≡ true → a ≢ item
    out_of a h = ne_of_has a item (head ∷ xs) h (ground (arith, has-append item xs ys))

Cut-rest :
    (l l' : Links) (t item : Item) (ys : List Item)
    → Cut l l' t item
    → Seg l t (item ∷ ys)
    → l.next (last item ys) ≡ null
    → Distinct (t ∷ item ∷ ys)
    → Seg l' t ys × (l'.next (last t ys) ≡ null)
Cut-rest l l' t item [] c s ends d = (tt, ground (arith, c.next_is t))
Cut-rest l l' t item (y ∷ ys) c s ends d =
    let at_y = s.3 in
    (
      (
        ground (arith, c.next_is t, at_y.0),
        at_y.1,
        ground (arith, c.previous_is y at_y.1, at_y.0, d.1.0),
        Seg-frame l l' y ys at_y.3 d.1.1
            (λ a h _. ground (
              arith,
              c.next_is a,
              ne_of_has a item (y ∷ ys) h,
              ne_of_has a t (y ∷ ys) h,
              d.0,
              d.1.0,
            ))
            (λ a h. ground (
              arith,
              c.previous_is a (Seg-ne_null l y a ys at_y.3 h),
              ne_of_has a item ys h,
              ne_of_has a y ys h d.1.1.0,
              at_y.0,
              d.1.0,
            )),
      ),
      ground (
        arith,
        c.next_is (last y ys),
        ne_of_has (last y ys) item (y ∷ ys) (has-last y ys) d.1.0,
        ne_of_has (last y ys) t (y ∷ ys) (has-last y ys),
        d.0,
      ),
    )

after_item :
    (l : Links) (head item : Item) (xs ys : List Item)
    → Seg l head xs
    → Seg l (last head xs) (item ∷ ys)
    → l.next (last item ys) ≡ null
    → Distinct (xs ++ item ∷ ys)
    → (a : Item) → has a xs ≡ true
    → a ≢ l.next item
after_item l head item xs [] left s ends d a h = rw ends (Seg-ne_null l head a xs left h)
after_item l head item xs (y ∷ ys) left s ends d a h =
    let e = s.3.0 in
    rw e (ne_of_has a y xs h (Distinct-apart y xs (item ∷ y ∷ ys) d (ground arith)))

pub Cut-IsList :
    (l l' : Links) (head item : Item) (xs ys : List Item)
    → IsList l head (xs ++ item ∷ ys)
    → Cut l l' (last head xs) item
    → IsList l' head (xs ++ ys)
Cut-IsList l l' head item xs ys v c =
    let right = Seg-right l head xs (item ∷ ys) v.seg in
    let left = Seg-left l head xs (item ∷ ys) v.seg in
    let ends : l.next (last item ys) ≡ null = rw (last-append head xs (item ∷ ys)) at v.ends in
    let rest =
      Cut-rest l l' (last head xs) item ys c right ends
        (Distinct-from_last head xs (item ∷ ys) v.distinct) in
    record {
      head_ne = v.head_ne;
      seg =
          Seg-append l' head xs ys
            (Seg-frame l l' head xs left (Distinct-left (head ∷ xs) (item ∷ ys) v.distinct)
              (λ a h differs. ground (arith, c.next_is a (of_first a h)))
              (λ a h. ground (
                arith,
                c.previous_is a (Seg-ne_null l head a xs left h),
                of_first a (ground arith),
                after_item l head item xs ys left right ends v.distinct.1 a h,
              )))
            rest.0;
      ends = rw (last-append head xs ys) rest.1;
      distinct = Distinct-delete item (head ∷ xs) ys v.distinct;
    }
  where
    of_first : (a : Item) → has a (head ∷ xs) ≡ true → a ≢ item
    of_first a h =
        ne_of_has a item (head ∷ xs) h
          (Distinct-apart item (head ∷ xs) (item ∷ ys) v.distinct (ground arith))
