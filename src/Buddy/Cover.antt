-- ===== src/Buddy/Cover.antt =====
-- How many free blocks cover a page.
use sysu_os.Base.{
  ℕ, zero, suc, ◌+◌, ◌-◌, ◌*◌, ◌/◌, ◌%◌, ◌^◌, ◌<◌, ◌≤◌, ◌==◌, ltb, leb, min, ◌≡◌, ◌≢◌, refl, sym,
  ap, ◌∙◌, Bool, true, false, ◌&&◌, if◌then◌else◌, Bool-cases, inl, inr, arith, ==→eq, ltb→lt, List,
  [], ◌∷◌, subst,
}
use native.Mathlib.Nat.{pow-suc, div-eq_of_lt}
use sysu_os.Buddy.{
  Buddy, Area, put_area, insert_free_node, has_node, without_node, remove_free_node, buddy_of, mark,
}

-- is a page in a block?
abbrev pub inside : ℕ → ℕ → ℕ → ℕ
inside start order p = if leb start p && ltb p (start + 2 ^ order) then 1 else 0

abbrev pub count : ℕ → List ℕ → ℕ → ℕ
count order [] p = 0
count order (start ∷ blocks) p = inside start order p + count order blocks p

abbrev pub cover_below : ℕ → Area → ℕ → ℕ
cover_below zero area p = 0
cover_below (suc n) area p = cover_below n area p + count n (area n) p

unfoldable pub cover : Buddy → ℕ → ℕ
cover s p = cover_below 11 s.free_area p

untouched :
    (n : ℕ) (area : Area) (order : ℕ) (blocks : List ℕ) (p : ℕ)
    → n ≤ order
    → cover_below n (put_area area order blocks) p ≡ cover_below n area p
untouched zero area order blocks p h = refl
untouched (suc n) area order blocks p h =
    let other : (n == order) ≡ false = ground arith in
    rw (other, untouched n area order blocks p (omega arith)) refl

pub cover_below-put_area :
    (n : ℕ) (area : Area) (order : ℕ) (blocks : List ℕ) (p : ℕ)
    → order < n
    → cover_below n (put_area area order blocks) p + count order (area order) p
      ≡ cover_below n area p + count order blocks p
cover_below-put_area zero area order blocks p h = absurd (omega arith)
cover_below-put_area (suc n) area order blocks p h = elim (Bool-cases (n == order)) [
  | inl last ↦
      rw (last, ==→eq n order last, untouched order area order blocks p (omega arith)) (omega arith)
  | inr below ↦
      let less : order < n = ground arith in
      let rest = cover_below-put_area n area order blocks p less in rw below (omega (arith, rest))
]

-- A block and the one behind it make a block of the next order.
pub inside_two :
    (start order p : ℕ)
    → inside start (order + 1) p ≡ inside start order p + inside (start + 2 ^ order) order p
inside_two start order p =
    let e : order + 1 ≡ suc order = omega arith in
    let double : 2 ^ (order + 1) ≡ 2 ^ order * 2 = ap (λ n. 2 ^ n) e ∙ pow-suc 2 order in
    rw double (ground arith)

at_least : (start size : ℕ) → (start / size % 2 == 0) ≡ false → size ≤ start
at_least start size odd = elim (Bool-cases (ltb start size)) [
  | inl less ↦
      let none : start / size ≡ 0 = div-eq_of_lt (ltb→lt start size less) in
      absurd (ground (arith, odd, none))
  | inr more ↦ ground (arith, more)
]

swap : (a b : ℕ) → a + b ≡ b + a
swap a b = omega arith

-- A block and its buddy make a block of the next order.
pub inside_buddy :
    (start order p : ℕ)
    → inside (min start (buddy_of start order)) (order + 1) p
      ≡ inside start order p + inside (buddy_of start order) order p
inside_buddy start order p = elim (Bool-cases (start / 2 ^ order % 2 == 0)) [
  | inl even ↦
      let least : min start (start + 2 ^ order) ≡ start = omega arith in
      rw (even, least) (inside_two start order p)
  | inr odd ↦
      let size = at_least start (2 ^ order) odd in
      let least : min start (start - 2 ^ order) ≡ start - 2 ^ order = omega arith in
      let back : start - 2 ^ order + 2 ^ order ≡ start = omega arith in
      let two =
        inside_two (start - 2 ^ order) order p
        ∙ ap (λ k. inside (start - 2 ^ order) order p + inside k order p) back in
      rw (odd, least) (two ∙ swap (inside (start - 2 ^ order) order p) (inside start order p))
]

drop_same : (a b c d : ℕ) → a + b ≡ c + (d + b) → a ≡ c + d
drop_same a b c d e = omega arith

shift : (a b c d : ℕ) → b + c ≡ d → a + b + c ≡ a + d
shift a b c d e = omega arith

trade : (a b c d e : ℕ) → a + b ≡ c + d → d + e ≡ b → a + e ≡ c
trade a b c d e h k = omega arith

-- Another list of free blocks of one order.
pub cover-put_area :
    (s s' : Buddy) (order : ℕ) (blocks : List ℕ) (p : ℕ)
    → s'.free_area ≡ put_area s.free_area order blocks
    → order < 11
    → cover s' p + count order (s.free_area order) p ≡ cover s p + count order blocks p
unfolding cover
cover-put_area s s' order blocks p e less =
    subst
      (λ a.
        cover_below 11 a p + count order (s.free_area order) p ≡ cover s p + count order blocks p)
      (sym e) (cover_below-put_area 11 s.free_area order blocks p less)

insert_area :
    (start order : ℕ) (s : Buddy)
    → s.spare ≢ 0
    → (insert_free_node start order s).free_area
      ≡ put_area s.free_area order (start ∷ s.free_area order)
unfolding insert_free_node
insert_area start order s some_spare = let h : (s.spare == 0) ≡ false = ground arith in rw h refl

pub cover-insert_free_node :
    (start order : ℕ) (s : Buddy) (p : ℕ)
    → s.spare ≢ 0
    → order < 11
    → cover (insert_free_node start order s) p ≡ cover s p + inside start order p
cover-insert_free_node start order s p some_spare less =
    let put =
      cover-put_area s (insert_free_node start order s) order (start ∷ s.free_area order) p
        (insert_area start order s some_spare) less in
    drop_same (cover (insert_free_node start order s) p) (count order (s.free_area order) p)
      (cover s p) (inside start order p) put

pub count-without_node :
    (index order : ℕ) (blocks : List ℕ) (p : ℕ)
    → has_node index blocks ≡ true
    → count order (without_node index blocks) p + inside index order p ≡ count order blocks p
unfolding has_node without_node
count-without_node index order [] p h = absurd (ground (arith, h))
count-without_node index order (start ∷ blocks) p h = elim (Bool-cases (start == index)) [
  | inl here ↦
      rw (here, ==→eq start index here) (swap (count order blocks p) (inside index order p))
  | inr more ↦
      let found = sym (ap (λ b. if b then true else has_node index blocks) more) ∙ h in
      let rest = count-without_node index order blocks p found in
      rw more (
        shift (inside start order p) (count order (without_node index blocks) p)
          (inside index order p) (count order blocks p) rest)
]

remove_area :
    (index order : ℕ) (s : Buddy)
    → (remove_free_node index order s).free_area
      ≡ put_area s.free_area order (without_node index (s.free_area order))
unfolding remove_free_node
remove_area index order s = refl

pub cover-remove_free_node :
    (index order : ℕ) (s : Buddy) (p : ℕ)
    → has_node index (s.free_area order) ≡ true
    → order < 11
    → cover (remove_free_node index order s) p + inside index order p ≡ cover s p
cover-remove_free_node index order s p found less =
    let put =
      cover-put_area s (remove_free_node index order s) order
        (without_node index (s.free_area order)) p (remove_area index order s) less in
    let less_one = count-without_node index order (s.free_area order) p found in
    trade (cover (remove_free_node index order s) p) (count order (s.free_area order) p) (cover s p)
      (count order (without_node index (s.free_area order)) p) (inside index order p) put less_one

pub cover-mark :
    (index order : ℕ) (value : Bool) (s : Buddy) (p : ℕ)
    → cover (mark index order value s) p ≡ cover s p
unfolding cover
cover-mark index order value s p = refl
