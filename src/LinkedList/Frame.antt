-- ===== src/LinkedList/Frame.antt =====
-- Two lists over the same links: what one operation does to the list that it is not about.
use sysu_os.Base.{
  ◌==◌, ◌≡◌, ◌≢◌, ◌∙◌, sym, true, false, List, ◌∷◌, arith, Bool-cases, inl, inr, ==→eq,
}
use sysu_os.LinkedList.{Item, Links, null}
use sysu_os.LinkedList.Chain.{IsList, Seg-frame, Seg-ne_null, has, last, has-last}
use sysu_os.LinkedList.Push.{SameOutside}

-- the items of a list, its head included, are not in the other one
abbrev pub Apart : Item → List Item → Item → List Item → Type 0
Apart head xs other ys = (a : Item) → has a (other ∷ ys) ≡ true → has a (head ∷ xs) ≡ false

-- A list is as before where the links of its items are.
IsList-frame :
    (l l' : Links) (head : Item) (xs : List Item)
    → IsList l head xs
    → ((a : Item)
        → has a (head ∷ xs) ≡ true
        → (l'.next a ≡ l.next a) × (l'.previous a ≡ l.previous a))
    → IsList l' head xs
IsList-frame l l' head xs v same = record {
  head_ne = v.head_ne;
  seg =
      Seg-frame l l' head xs v.seg v.distinct (λ a h ne. (same a h).0)
        (λ a h. (same a (ground arith)).1);
  ends = (same (last head xs) (has-last head xs)).0 ∙ v.ends;
  distinct = v.distinct;
}

IsList-ne_null :
    (l : Links) (head a : Item) (xs : List Item)
    → IsList l head xs
    → has a (head ∷ xs) ≡ true
    → a ≢ null
IsList-ne_null l head a xs v h = elim (Bool-cases (a == head)) [
  | inl same ↦ λ e. v.head_ne (sym (==→eq a head same) ∙ e)
  | inr other ↦ Seg-ne_null l head a xs v.seg (ground arith)
]

-- What an operation writes outside a list leaves the list as it is.
pub SameOutside-IsList :
    (l l' : Links) (head : Item) (xs written : List Item)
    → IsList l head xs
    → SameOutside written l l'
    → ((a : Item) → has a (head ∷ xs) ≡ true → has a written ≡ false)
    → IsList l' head xs
SameOutside-IsList l l' head xs written v same outside =
    IsList-frame l l' head xs v (λ a h. same a (IsList-ne_null l head a xs v h) (outside a h))
