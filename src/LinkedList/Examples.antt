-- ===== src/LinkedList/Examples.antt =====
-- The theorems of `LinkedList` at a list with head 1 that holds the items 2 and 3.
use sysu_os.Base.{◌≡◌, refl, some, arith, if◌then◌else◌, ◌==◌, [], ◌∷◌}
use sysu_os.LinkedList.{Links, erase, find}
use sysu_os.LinkedList.Chain.{IsList}
use sysu_os.LinkedList.Erase.{erase-IsList}

abbrev two : Links
two = record {
  next = λ a. if a == 1 then 2 else if a == 2 then 3 else 0;
  previous = λ a. if a == 2 then 1 else if a == 3 then 2 else 0;
}

two-IsList : IsList two 1 (2 ∷ 3 ∷ [])
two-IsList = record {
  head_ne = omega arith;
  seg = (refl, omega arith, refl, (refl, omega arith, refl, tt));
  ends = refl;
  distinct = (refl, (refl, (refl, tt)));
}

find_three : find 3 two 1 3 ≡ some (some 1)
unfolding find
find_three = refl

erase-IsList_example : (l' : Links) × (erase 3 two 1 3 ≡ some l') × IsList l' 1 (2 ∷ [])
erase-IsList_example = erase-IsList 3 (2 ∷ []) 3 [] two-IsList (omega arith)
