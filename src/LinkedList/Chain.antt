-- ===== src/LinkedList/Chain.antt =====
-- What a list stands for: the items that its links lead through, and which writes leave it alone.
use sysu_os.Base.{
  ◌==◌, ◌≡◌, ◌≢◌, refl, ◌∙◌, ap, Bool, true, false, ◌||◌, List, [], ◌∷◌, ◌++◌, arith,
}
use sysu_os.LinkedList.{Item, Links, null}

abbrev pub has : Item → List Item → Bool
has a [] = false
has a (x ∷ xs) = (a == x) || has a xs

abbrev pub Distinct : List Item → Type 0
Distinct [] = Unit {0}
Distinct (x ∷ xs) = (has x xs ≡ false) × Distinct xs

-- the item that a walk from `p` through `xs` ends at
abbrev pub last : Item → List Item → Item
last p [] = p
last p (x ∷ xs) = last x xs

-- `next` leads from `p` through the items `xs`, and `previous` back
abbrev pub Seg : Links → Item → List Item → Type 0
Seg l p [] = Unit {0}
Seg l p (x ∷ xs) = (l.next p ≡ x) × (x ≢ null) × (l.previous x ≡ p) × Seg l x xs

-- the list with head item `head` holds exactly the items `xs`, in order
pub record IsList (l : Links) (head : Item) (xs : List Item) : Type 0 where
  pub head_ne : head ≢ null
  pub seg : Seg l head xs
  pub ends : l.next (last head xs) ≡ null
  pub distinct : Distinct (head ∷ xs)

pub has-append : (a : Item) (xs ys : List Item) → has a (xs ++ ys) ≡ (has a xs || has a ys)
has-append a [] ys = refl
has-append a (x ∷ xs) ys = ground (arith, has-append a xs ys)

pub last-append : (p : Item) (xs ys : List Item) → last p (xs ++ ys) ≡ last (last p xs) ys
last-append p [] ys = refl
last-append p (x ∷ xs) ys = last-append x xs ys

pub has-last : (p : Item) (xs : List Item) → has (last p xs) (p ∷ xs) ≡ true
has-last p [] = ground arith
has-last p (x ∷ xs) = ground (arith, has-last x xs)

pub Distinct-left : (xs ys : List Item) → Distinct (xs ++ ys) → Distinct xs
Distinct-left [] ys d = tt
Distinct-left (x ∷ xs) ys d = (ground (arith, has-append x xs ys), Distinct-left xs ys d.1)

pub Distinct-right : (xs ys : List Item) → Distinct (xs ++ ys) → Distinct ys
Distinct-right [] ys d = d
Distinct-right (x ∷ xs) ys d = Distinct-right xs ys d.1

-- an item of the right part is none of the left part
pub Distinct-apart :
    (a : Item) (xs ys : List Item) → Distinct (xs ++ ys) → has a ys ≡ true → has a xs ≡ false
Distinct-apart a [] ys d h = refl
Distinct-apart a (x ∷ xs) ys d h = ground (arith, has-append x xs ys, Distinct-apart a xs ys d.1 h)

pub Distinct-append :
    (xs ys : List Item)
    → Distinct xs
    → Distinct ys
    → ((a : Item) → has a ys ≡ true → has a xs ≡ false)
    → Distinct (xs ++ ys)
Distinct-append [] ys d e apart = e
Distinct-append (x ∷ xs) ys d e apart = (
  ground (arith, has-append x xs ys, apart x),
  Distinct-append xs ys d.1 e (λ a h. ground (arith, apart a h)),
)

-- Two parts of a walk.
pub Seg-left : (l : Links) (p : Item) (xs ys : List Item) → Seg l p (xs ++ ys) → Seg l p xs
Seg-left l p [] ys s = tt
Seg-left l p (x ∷ xs) ys s = (s.0, s.1, s.2, Seg-left l x xs ys s.3)

pub Seg-right :
    (l : Links) (p : Item) (xs ys : List Item) → Seg l p (xs ++ ys) → Seg l (last p xs) ys
Seg-right l p [] ys s = s
Seg-right l p (x ∷ xs) ys s = Seg-right l x xs ys s.3

pub Seg-append :
    (l : Links) (p : Item) (xs ys : List Item)
    → Seg l p xs
    → Seg l (last p xs) ys
    → Seg l p (xs ++ ys)
Seg-append l p [] ys s t = t
Seg-append l p (x ∷ xs) ys s t = (s.0, s.1, s.2, Seg-append l x xs ys s.3 t)

-- A walk does not use the `next` of its last item, nor the `previous` of its first.
pub Seg-frame :
    (l l' : Links) (p : Item) (xs : List Item)
    → Seg l p xs
    → Distinct (p ∷ xs)
    → ((a : Item) → has a (p ∷ xs) ≡ true → a ≢ last p xs → l'.next a ≡ l.next a)
    → ((a : Item) → has a xs ≡ true → l'.previous a ≡ l.previous a)
    → Seg l' p xs
Seg-frame l l' p [] s d n b = tt
Seg-frame l l' p (x ∷ xs) s d n b =
    let apart : p ≢ last x xs = λ e. ground (arith, has-last x xs, ap (λ q. has q (x ∷ xs)) e) in
    (
      n p (ground arith) apart ∙ s.0,
      s.1,
      b x (ground arith) ∙ s.2,
      Seg-frame l l' x xs s.3 d.1 (λ a h ne. n a (ground arith) ne) (λ a h. b a (ground arith)),
    )

pub Seg-ne_null :
    (l : Links) (p a : Item) (xs : List Item) → Seg l p xs → has a xs ≡ true → a ≢ null
Seg-ne_null l p a [] s h = absurd (ground arith)
Seg-ne_null l p a (x ∷ xs) s h = ground (arith, Seg-ne_null l x a xs s.3)

pub Distinct-from_last :
    (p : Item) (xs ys : List Item) → Distinct (p ∷ (xs ++ ys)) → Distinct (last p xs ∷ ys)
Distinct-from_last p [] ys d = d
Distinct-from_last p (x ∷ xs) ys d = Distinct-from_last x xs ys d.1

pub has_from_last :
    (a p : Item) (xs ys : List Item)
    → has a (p ∷ (xs ++ ys)) ≡ false
    → has a (last p xs ∷ ys) ≡ false
has_from_last a p [] ys h = h
has_from_last a p (x ∷ xs) ys h = has_from_last a x xs ys (ground arith)

pub Distinct-insert :
    (a : Item) (xs ys : List Item)
    → Distinct (xs ++ ys)
    → has a (xs ++ ys) ≡ false
    → Distinct (xs ++ a ∷ ys)
Distinct-insert a [] ys d h = (h, d)
Distinct-insert a (x ∷ xs) ys d h = (
  ground (arith, has-append x xs ys, has-append x xs (a ∷ ys)),
  Distinct-insert a xs ys d.1 (ground arith),
)

pub Distinct-delete : (a : Item) (xs ys : List Item) → Distinct (xs ++ a ∷ ys) → Distinct (xs ++ ys)
Distinct-delete a [] ys d = d.1
Distinct-delete a (x ∷ xs) ys d =
    (ground (arith, has-append x xs ys, has-append x xs (a ∷ ys)), Distinct-delete a xs ys d.1)

-- From `temp` on, `next` leads through `xs` to null.
abbrev pub Forward : Links → Item → List Item → Type 0
Forward l temp [] = temp ≡ null
Forward l temp (x ∷ xs) = (temp ≡ x) × (x ≢ null) × Forward l (l.next x) xs

pub Seg-Forward :
    (l : Links) (p : Item) (xs : List Item)
    → Seg l p xs
    → l.next (last p xs) ≡ null
    → Forward l (l.next p) xs
Seg-Forward l p [] s e = e
Seg-Forward l p (x ∷ xs) s e = (s.0, s.1, Seg-Forward l x xs s.3 e)
